-- ===== src/Session/Accounts.antt =====
-- A session accounts for every message: src/functionblock.c.
use io4edge_client_c.Base.{
  ℕ, ◌+◌, ◌-◌, ◌≡◌, ◌<◌, inl, inr, refl, sym, ◌∙◌, Option, none, some, List, [], ◌∷◌, ◌==◌,
  Bool-cases, Option-cases, arith,
}
use io4edge_client_c.Err.{Err, ok, err_timeout, err_protobuf}
use io4edge_client_c.Exec.{Exec, returns, hangs, fault}
use io4edge_client_c.Transport.{Transport}
use io4edge_client_c.Streamq.{Streamq, pop_take}
use io4edge_client_c.Streamq.Valid.{IsValid, popped, popped-IsValid, pop-eq, pop_post_lem}
use io4edge_client_c.Proto.{StreamData, Codec, Unpack}
use io4edge_client_c.Client.{Client, run_thread}
use io4edge_client_c.Client.Ledger.{IsBalanced, run_thread-IsBalanced}
use io4edge_client_c.Functionblock.{request, order, read_stream, take_stream}
use io4edge_client_c.Functionblock.Requests.{request-IsBalanced, order-IsBalanced}
use io4edge_client_c.Functionblock.Reads.{read_stream_pops}
use io4edge_client_c.Session.{
  Event, ask, tell, read, idle, Account, after_read, happen, session, steps, all_steps,
}

-- A pop that does not time out takes one message off.
nentries-popped :
    (q : Streamq StreamData) → IsValid q → 0 < q.read_sem → (popped q).nentries ≡ q.nentries - 1
unfolding pop_take
nentries-popped q v some_left =
    rw (pop_post_lem (pop_take (record q { read_sem = q.read_sem - 1 })) (omega arith))
      (ground arith)

-- How a read that returns may go: it times out with the client as it was, or it takes a message off the
-- queue, which it hands out or loses.
pub data ReadCase {S M : Type 0} (h : Client S)
    : Err → Option (StreamData × M) → Client S → Type 0 where
  timed_out : ReadCase h err_timeout none h
  lost_one :
      0 < h.streamq.read_sem
      → ReadCase h err_protobuf none (record h { streamq = popped h.streamq })
  handed_one :
      (x : StreamData × M)
      → 0 < h.streamq.read_sem
      → ReadCase h ok (some x) (record h { streamq = popped h.streamq })

module _ {S M : Type 0} where
  ReadCase-take_stream :
      (unpack : Unpack M) (m : Option StreamData) (h : Client S) (now : ℕ) {e : Err}
      {x : Option (StreamData × M)} {h' : Client S} {later : ℕ}
      → 0 < h.streamq.read_sem
      → take_stream unpack m (record h { streamq = popped h.streamq }) now
        ≡ returns (e, x, h', later)
      → ReadCase h e x h'
  unfolding take_stream
  ReadCase-take_stream unpack none h now some_left eq = absurd (ground arith)
  ReadCase-take_stream unpack (some sd) h now {e} {x} {h'} some_left eq =
      let same : h' ≡ record h { streamq = popped h.streamq } = ground arith in
      elim (Option-cases x) [
        | inl nothing ↦
            let code : e ≡ err_protobuf = ground arith in
            rw (code, nothing, same) (lost_one some_left)
        | inr (y, something) ↦
            let code : e ≡ ok = ground arith in rw (code, something, same) (handed_one y some_left)
      ]

  pub ReadCase-read_stream :
      (time_size : ℕ) (unpack : Unpack M) (timeout now : ℕ) (h : Client S) {e : Err}
      {x : Option (StreamData × M)} {h' : Client S} {later : ℕ}
      → read_stream time_size unpack timeout now h ≡ returns (e, x, h', later)
      → ReadCase h e x h'
  unfolding read_stream
  ReadCase-read_stream time_size unpack timeout now h {e} {x} {h'} {later} eq =
      elim (Bool-cases (h.streamq.read_sem == 0)) [
        | inl empty ↦
            let late = pop-eq time_size h.streamq timeout now in
            let code : e ≡ err_timeout = ground arith in
            let nothing : x ≡ none = ground arith in
            let same : h' ≡ h = ground arith in rw (code, nothing, same) timed_out
        | inr some_left ↦
            ReadCase-take_stream unpack _ h now (ground arith)
              (sym (read_stream_pops time_size unpack timeout now h some_left) ∙ eq)
      ]

  pub IsBalanced-ReadCase :
      (a : Account S) {k : ℕ} {e : Err} {x : Option (StreamData × M)} {h' : Client S}
      → ReadCase a.client e x h'
      → IsBalanced (a.handed + a.lost) k a.client
      → let a' = after_read a e x h' in IsBalanced (a'.handed + a'.lost) k a'.client
  IsBalanced-ReadCase a timed_out b = b
  IsBalanced-ReadCase a (lost_one some_left) b =
      let fewer = nentries-popped a.client.streamq b.queue some_left in
      record { queue = popped-IsValid b.queue some_left; counts = b.counts; owned = ground arith }
  IsBalanced-ReadCase a (handed_one x some_left) b =
      let fewer = nentries-popped a.client.streamq b.queue some_left in
      record { queue = popped-IsValid b.queue some_left; counts = b.counts; owned = ground arith }

module _ {S M : Type 0} (codec : Codec) (tr : Transport S) where
  IsBalanced-happen :
      (event : Event M) (a : Account S) (k : ℕ) {a' : Account S}
      → happen codec tr event a ≡ returns a'
      → IsBalanced (a.handed + a.lost) (steps event + k) a.client
      → IsBalanced (a'.handed + a'.lost) k a'.client
  unfolding happen
  IsBalanced-happen (ask type member unpack w) a k {a'} eq b = asked _ refl eq
    where
      asked :
          (r : Exec (Err × Option M × Client S))
          → request codec tr type member unpack w a.client ≡ r
          → happen codec tr (ask type member unpack w) a ≡ returns a'
          → IsBalanced (a'.handed + a'.lost) k a'.client
      asked hangs c eq = absurd (ground arith)
      asked fault c eq = absurd (ground arith)
      asked (returns (e, r, h)) c eq =
          let same : a' ≡ record a { client = h } = ground arith in
          rw same
            (request-IsBalanced codec tr type member unpack w (a.handed + a.lost) k a.client c b)
  IsBalanced-happen (tell type w) a k {a'} eq b = told _ refl eq
    where
      told :
          (r : Exec (Err × Client S))
          → order codec tr type w a.client ≡ r
          → happen {M = M} codec tr (tell type w) a ≡ returns a'
          → IsBalanced (a'.handed + a'.lost) k a'.client
      told hangs c eq = absurd (ground arith)
      told fault c eq = absurd (ground arith)
      told (returns (e, h)) c eq =
          let same : a' ≡ record a { client = h } = ground arith in
          rw same (order-IsBalanced codec tr type w (a.handed + a.lost) k a.client c b)
  IsBalanced-happen (read time_size unpack timeout now) a k {a'} eq b = taken _ refl eq
    where
      taken :
          (r : Exec (Err × Option (StreamData × M) × Client S × ℕ))
          → read_stream time_size unpack timeout now a.client ≡ r
          → happen codec tr (read time_size unpack timeout now) a ≡ returns a'
          → IsBalanced (a'.handed + a'.lost) k a'.client
      taken hangs c eq = absurd (ground arith)
      taken fault c eq = absurd (ground arith)
      taken (returns (e, x, h, later)) c eq =
          let same : a' ≡ after_read a e x h = ground arith in
          rw same (
            IsBalanced-ReadCase a (ReadCase-read_stream time_size unpack timeout now a.client c)
              (record { queue = b.queue; counts = omega arith; owned = b.owned }))
  IsBalanced-happen (idle time_size now n) a k {a'} eq b =
      let same : a' ≡ record a { client = run_thread codec tr time_size now n a.client } =
        ground arith in
      rw same (run_thread-IsBalanced codec tr time_size now (a.handed + a.lost) n k a.client b)

  session_step :
      (event : Event M) (events : List (Event M)) (a : Account S) (r : Exec (Account S))
      {a' : Account S}
      → happen codec tr event a ≡ r
      → session codec tr (event ∷ events) a ≡ returns a'
      → (g : Account S) × (happen codec tr event a ≡ returns g)
        × (session codec tr events g ≡ returns a')
  unfolding session
  session_step event events a hangs c eq = absurd (ground arith)
  session_step event events a fault c eq = absurd (ground arith)
  session_step event events a (returns g) c eq = (g, c, ground arith)

  -- Over a session of any events that returns, from a client whose live messages each had one owner and
  -- whose semaphore can count the thread's steps: the live messages at the end are those in the response
  -- slot, in the thread's hands and in the queue, those that the program was handed, and those that reads
  -- with IO4E_ERR_PROTOBUF lost. Nothing else leaks, and nothing is freed twice.
  pub session-IsBalanced :
      (events : List (Event M)) (a : Account S) (k : ℕ) {a' : Account S}
      → session codec tr events a ≡ returns a'
      → IsBalanced (a.handed + a.lost) (all_steps events + k) a.client
      → IsBalanced (a'.handed + a'.lost) k a'.client
  unfolding session
  session-IsBalanced [] a k {a'} eq b =
      let same : a' ≡ a = ground arith in
      rw same (record { queue = b.queue; counts = omega arith; owned = b.owned })
  session-IsBalanced (event ∷ events) a k {a'} eq b =
      let (g, one, rest) = session_step event events a _ refl eq in
      session-IsBalanced events g k rest (
        IsBalanced-happen event a (all_steps events + k) one
          (record { queue = b.queue; counts = omega arith; owned = b.owned }))
