-- ===== src/Client/Reading.antt =====
-- The read thread: what a step does on each branch.
use io4edge_client_c.Base.{
  ℕ, ◌+◌, ◌<◌, ◌≡◌, ◌≢◌, ◌⊎◌, inl, inr, refl, true, false, Bool, Option, none, some, List, [],
  length, ◌==◌, Bool-cases, Option-cases, arith,
}
use io4edge_client_c.Err.{Err, ok, is_ok}
use io4edge_client_c.Sem.{sem_value_max}
use io4edge_client_c.Transport.{Transport}
use io4edge_client_c.Proto.{
  Response, ResponseType, of_configuration, of_function_control, of_stream, of_other, Codec,
}
use io4edge_client_c.Client.{Client, held, reading, deliver, dispatch, receive, thread_step}

module _ {S : Type 0} (codec : Codec) (tr : Transport S) where
  -- A `read_msg` that fails, whatever the code, a message of no bytes and one that does not unpack
  -- change nothing in the client but the transport: the thread just reads on.
  receive_skips :
      (h : Client S) (e : Err) (buf : List ℕ) (s : S)
      → tr.read_msg h.transport 1 ≡ some (e, buf, s)
      → (e ≢ ok) ⊎ ((buf ≡ []) ⊎ (codec.unpack buf ≡ none))
      → receive codec tr h ≡ some (record h { transport = s })
  unfolding receive
  receive_skips h e buf s r (inl bad) = ground arith
  receive_skips h e buf s r (inr (inl empty)) = ground arith
  receive_skips h e buf s r (inr (inr bad)) = ground arith

module _ {S : Type 0} where
  -- While the semaphore can count, a delivered response replaces the unread one and is posted.
  pub deliver_lem :
      (res : Response) (h : Client S)
      → h.cmd_sem < sem_value_max
      → deliver res h ≡ record h {
        cmd_response = some res;
        cmd_sem = h.cmd_sem + 1;
        live = held h.cmd_response h.live;
      }
  unfolding deliver
  deliver_lem res h room = ground arith

-- Whether `read_thread` takes a response for stream data.
abbrev pub is_stream : ResponseType → Bool
is_stream (of_stream sd) = true
is_stream _ = false

module _ {S : Type 0} where
  pub dispatch_answer :
      (res : Response) (type : ResponseType) (h : Client S)
      → is_stream type ≡ false
      → dispatch res type h ≡ deliver res h
  unfolding dispatch
  dispatch_answer res (of_stream sd) h e = cc
  dispatch_answer res (of_configuration c) h e = refl
  dispatch_answer res (of_function_control c) h e = refl
  dispatch_answer res (of_other n) h e = refl

module _ {S : Type 0} (codec : Codec) (tr : Transport S) where
  pub receive_response :
      (h : Client S) (buf : List ℕ) (s : S) (res : Response)
      → tr.read_msg h.transport 1 ≡ some (ok, buf, s)
      → (length buf == 0) ≡ false
      → codec.unpack buf ≡ some res
      → receive codec tr h
        ≡ some (dispatch res res.type (record h { transport = s; live = h.live + 1 }))
  unfolding receive
  receive_response h buf s res r l u = ground arith

  -- The thread takes a command response that arrives: it is in the slot and posted, and the thread
  -- reads on.
  pub thread_step_answer :
      (time_size now : ℕ) (expired : Bool) (h : Client S) (buf : List ℕ) (s : S) (res : Response)
      → h.thread ≡ reading
      → tr.read_msg h.transport 1 ≡ some (ok, buf, s)
      → (length buf == 0) ≡ false
      → codec.unpack buf ≡ some res
      → is_stream res.type ≡ false
      → h.cmd_sem < sem_value_max
      → thread_step codec tr time_size now expired h
        ≡ some (record h {
          transport = s;
          cmd_response = some res;
          cmd_sem = h.cmd_sem + 1;
          live = held h.cmd_response (h.live + 1);
        })
  unfolding thread_step
  thread_step_answer time_size now expired h buf s res t r l u k room = ground (
    arith,
    receive_response h buf s res r l u,
    dispatch_answer res res.type (record h { transport = s; live = h.live + 1 }) k,
    deliver_lem res (record h { transport = s; live = h.live + 1 }) room,
  )

  -- What a step at the head of the loop leads to: a message skipped, or one dispatched.
  abbrev pub Received : Client S → Client S → Type 0
  Received h h' =
      ((s : S) × (h' ≡ record h { transport = s }))
      ⊎ ((s : S) × (res : Response) × (h'
            ≡ dispatch res res.type (record h { transport = s; live = h.live + 1 })))

  receive_from :
      (h h' : Client S) (o : Option (Err × List ℕ × S))
      → tr.read_msg h.transport 1 ≡ o
      → receive codec tr h ≡ some h'
      → Received h h'
  unfolding receive
  receive_from h h' none r e = absurd (ground arith)
  receive_from h h' (some (err, buf, s)) r e = elim (Bool-cases (is_ok err)) [
    | inr bad ↦ inl (s, ground arith)
    | inl good ↦ elim (Bool-cases (length buf == 0)) [
      | inl empty ↦ inl (s, ground arith)
      | inr full ↦ elim (Option-cases (codec.unpack buf)) [
        | inl broken ↦ inl (s, ground arith)
        | inr (res, unpacked) ↦ inr (s, res, ground arith)
      ]
    ]
  ]

  pub receive_cases : (h h' : Client S) → receive codec tr h ≡ some h' → Received h h'
  receive_cases h h' e = receive_from h h' _ refl e
