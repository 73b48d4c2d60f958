-- ===== src/Client/Ledger.antt =====
-- Who owns the unpacked messages: none is lost and none is freed twice.
use io4edge_client_c.Base.{
  ℕ, suc, ◌+◌, ◌-◌, ◌≤◌, ◌≡◌, inl, inr, refl, ap, false, Option, none, some, ◌==◌, arith,
}
use io4edge_client_c.Sem.{sem_value_max}
use io4edge_client_c.Transport.{Transport}
use io4edge_client_c.Streamq
use io4edge_client_c.Streamq.{Streamq, push_store}
use io4edge_client_c.Streamq.Valid.{IsValid, push-IsValid, push-eq, push_post_lem}
use io4edge_client_c.Proto.{
  Response, ResponseType, of_configuration, of_function_control, of_stream, of_other, StreamData,
  Codec,
}
use io4edge_client_c.Client.{
  Client, Pc, reading, pushing, exited, io4e_forever, deliver, dispatch, receive, push_stream,
  thread_step, run_thread,
}
use io4edge_client_c.Client.Reading.{deliver_lem, receive_cases}
use io4edge_client_c.Client.Frame.{run_thread_inv}

-- How many messages a slot for a response, and the read thread, hold.
abbrev pub in_slot : Option Response → ℕ
in_slot none = 0
in_slot (some res) = 1

abbrev pub in_hand : Pc → ℕ
in_hand (pushing sd) = 1
in_hand _ = 0

-- With `out` messages in the caller's hands, every live message has one owner. `n` more posts of the
-- command semaphore are possible.
pub record IsBalanced {S : Type 0} (out n : ℕ) (h : Client S) : Type 0 where
  pub queue : IsValid h.streamq
  pub counts : h.cmd_sem + n ≤ sem_value_max
  pub owned : h.live ≡ in_slot h.cmd_response + in_hand h.thread + h.streamq.nentries + out

IsBalanced-deliver :
    {S : Type 0} (out n : ℕ) (res : Response) (h : Client S)
    → h.thread ≡ reading
    → IsBalanced (out + 1) (suc n) h
    → IsBalanced out n (deliver res h)
IsBalanced-deliver out n res h r b =
    rw (deliver_lem res h (omega arith))
      (record { queue = b.queue; counts = omega arith; owned = ground arith })

IsBalanced-dispatch :
    {S : Type 0} (out n : ℕ) (res : Response) (type : ResponseType) (h : Client S)
    → h.thread ≡ reading
    → IsBalanced (out + 1) (suc n) h
    → IsBalanced out n (dispatch res type h)
unfolding dispatch
IsBalanced-dispatch out n res (of_stream sd) h r b = record {
  queue = b.queue;
  counts = omega arith;
  owned = ground arith;
}
IsBalanced-dispatch out n res (of_configuration c) h r b = IsBalanced-deliver out n res h r b
IsBalanced-dispatch out n res (of_function_control c) h r b = IsBalanced-deliver out n res h r b
IsBalanced-dispatch out n res (of_other c) h r b = IsBalanced-deliver out n res h r b

-- A push that does not time out adds one message.
nentries-push :
    (ts : ℕ) (q : Streamq StreamData) (m : Option StreamData) (timeout now : ℕ)
    → IsValid q
    → (q.write_sem == 0) ≡ false
    → (Streamq.push ts q m timeout now).1.nentries ≡ q.nentries + 1
unfolding push_store
nentries-push ts q m timeout now v room =
    rw
      (
        push-eq ts q m timeout now,
        room,
        push_post_lem (push_store (record q { write_sem = q.write_sem - 1 }) m) (ground arith),
      )
      (ground arith)

module _ {S : Type 0} (codec : Codec) (tr : Transport S) where
  IsBalanced-receive :
      (out n : ℕ) (h h' : Client S)
      → h.thread ≡ reading
      → receive codec tr h ≡ some h'
      → IsBalanced out (suc n) h
      → IsBalanced out n h'
  IsBalanced-receive out n h h' r e b = elim (receive_cases codec tr h h' e) [
    | inl (s, skipped) ↦
        rw skipped (record { queue = b.queue; counts = omega arith; owned = b.owned })
    | inr (s, res, given) ↦ rw given (
        IsBalanced-dispatch out n res res.type _ r
          (record { queue = b.queue; counts = b.counts; owned = omega arith }))
  ]

  push_stream_done :
      (ts now : ℕ) (sd : StreamData) (h h' : Client S)
      → push_stream codec tr ts now false sd h ≡ some h'
      → ((h.streamq.write_sem == 0) ≡ false)
        × (h' ≡ record h {
          streamq = (Streamq.push ts h.streamq (some sd) io4e_forever now).1;
          thread = reading;
        })
  unfolding push_stream
  push_stream_done ts now sd h h' e = ground arith

  IsBalanced-push_stream :
      (ts now out n : ℕ) (sd : StreamData) (h h' : Client S)
      → h.thread ≡ pushing sd
      → push_stream codec tr ts now false sd h ≡ some h'
      → IsBalanced out (suc n) h
      → IsBalanced out n h'
  IsBalanced-push_stream ts now out n sd h h' r e b =
      let (room, done) = push_stream_done ts now sd h h' e in
      let one_more = nentries-push ts h.streamq (some sd) io4e_forever now b.queue room in
      rw done (record {
        queue = push-IsValid ts (some sd) io4e_forever now b.queue;
        counts = omega arith;
        owned = pushed_owned one_more (ap in_hand r);
      })
    where
      pushed_owned :
          {k : ℕ}
          → k ≡ h.streamq.nentries + 1
          → in_hand h.thread ≡ 1
          → h.live ≡ in_slot h.cmd_response + 0 + k + out
      pushed_owned one_more hand = omega arith

  IsBalanced-thread_step :
      (ts now out n : ℕ) (h h' : Client S)
      → thread_step codec tr ts now false h ≡ some h'
      → IsBalanced out (suc n) h
      → IsBalanced out n h'
  unfolding thread_step
  IsBalanced-thread_step ts now out n h h' e b = at h.thread refl e
    where
      at :
          (pc : Pc)
          → h.thread ≡ pc
          → elim pc as (λ _. Option (Client S)) [
            | reading ↦ receive codec tr h
            | pushing sd ↦ push_stream codec tr ts now false sd h
            | exited ↦ none
          ]
            ≡ some h'
          → IsBalanced out n h'
      at reading r e = IsBalanced-receive out n h h' r e b
      at (pushing sd) r e = IsBalanced-push_stream ts now out n sd h h' r e b
      at exited r e = absurd (ground arith)

  -- The same with another count of posts to come that the semaphore can hold.
  recount :
      {out n : ℕ} {h : Client S} (m : ℕ)
      → h.cmd_sem + m ≤ sem_value_max
      → IsBalanced out n h
      → IsBalanced out m h
  recount m room b = record { queue = b.queue; counts = room; owned = b.owned }

  -- Whatever the read thread receives, for `n` steps where the semaphore can count `n` + `k` more posts,
  -- every live message stays with one owner: the response slot, the thread, the queue or the caller.
  pub run_thread-IsBalanced :
      (ts now out n k : ℕ) (h : Client S)
      → IsBalanced out (n + k) h
      → IsBalanced out k (run_thread codec tr ts now n h)
  run_thread-IsBalanced ts now out n k h b =
      let b' =
        run_thread_inv codec tr (λ m. IsBalanced out (m + k)) ts now
          (λ m g p. recount (0 + k) (omega arith) p)
          (λ m g g' e p.
            IsBalanced-thread_step ts now out (m + k) g g' e
              (recount (suc (m + k)) (omega arith) p))
          n h b in
      recount k (omega arith) b'
