-- ===== src/Functionblock/Requests.antt =====
-- The operations of src/functionblock.c that send one command: what they return and what they free.
use io4edge_client_c.Base.{
  ℕ, ◌+◌, ◌≡◌, ◌⊎◌, inl, inr, refl, ap, true, false, Option, none, some, Bool-cases, Option-cases,
  arith,
}
use io4edge_client_c.Err.{Err, ok, is_ok}
use io4edge_client_c.Exec.{Exec, returns, hangs, fault}
use io4edge_client_c.Transport.{Transport}
use io4edge_client_c.Proto.{Any, CommandType, Response, ResponseType, Codec, Unpack}
use io4edge_client_c.Client.{Client, next_char, freed, Around, command}
use io4edge_client_c.Client.Exchange.{Accepted, command_sound}
use io4edge_client_c.Client.Ledger.{in_slot, IsBalanced}
use io4edge_client_c.Client.Handover.{command-IsBalanced}
use io4edge_client_c.Functionblock.{finish, request, order}
use io4edge_client_c.Functionblock.Answers.{Handed, command-Handed}

-- What a successful operation made its result from: the response that its command accepted, the member
-- that the operation asked for, and the caller's `unpack` of that member, if there is one.
pub record Answered {M : Type 0} (member : ResponseType → Option Any) (unpack : Option (Unpack M))
    (c : ℕ) (fs_res : Option M) : Type 0 where
  pub res : Response
  pub accepted : Accepted true c (some res)
  pub any : Any
  pub holds : member res.type ≡ some any
  pub unpacked : fs_res ≡ elim unpack [ none ↦ none | some f ↦ f any.value ]
  pub present : (unpack ≡ none) ⊎ (m : M) × (fs_res ≡ some m)

module _ {S M : Type 0} where
  finish_sound :
      (member : ResponseType → Option Any) (unpack : Option (Unpack M)) (given : Option Response)
      (h : Client S) (c : ℕ) {fs_res : Option M} {h' : Client S}
      → finish member unpack given h ≡ returns (ok, fs_res, h')
      → Accepted true c given
      → Answered member unpack c fs_res
  unfolding finish
  finish_sound member unpack none h c e a = absurd (ground arith)
  finish_sound member unpack (some res) h c {fs_res} e a = elim (Option-cases (member res.type)) [
    | inl other ↦ absurd (ground arith)
    | inr (any, holds) ↦ with_unpack unpack any holds e
  ]
    where
      with_unpack :
          (unpack : Option (Unpack M)) (any : Any) {h' : Client S}
          → member res.type ≡ some any
          → finish member unpack (some res) h ≡ returns (ok, fs_res, h')
          → Answered member unpack c fs_res
      with_unpack none any holds e = record {
        res = res;
        accepted = a;
        any = any;
        holds = holds;
        unpacked = ground arith;
        present = inl refl;
      }
      with_unpack (some f) any holds e = elim (Option-cases (f any.value)) [
        | inl bad ↦ absurd (ground arith)
        | inr (m, good) ↦ record {
          res = res;
          accepted = a;
          any = any;
          holds = holds;
          unpacked = ground arith;
          present = inr (m, ground arith);
        }
      ]

  -- Whatever it returns, an operation has freed its response.
  finish-freed :
      (member : ResponseType → Option Any) (unpack : Option (Unpack M)) (res : Response)
      (h : Client S) {e : Err} {fs_res : Option M} {h' : Client S}
      → finish member unpack (some res) h ≡ returns (e, fs_res, h')
      → h' ≡ freed h
  unfolding finish
  finish-freed member none res h e = ground arith
  finish-freed member (some f) res h e = ground arith

module _ {S M : Type 0} (codec : Codec) (tr : Transport S) where
  request_done :
      (type : CommandType) (member : ResponseType → Option Any) (unpack : Option (Unpack M))
      (w : Around) (h : Client S) (r : Exec (Err × Option Response × Client S)) {e : Err}
      {fs_res : Option M} {h' : Client S}
      → command codec tr true type w h ≡ r
      → request codec tr type member unpack w h ≡ returns (e, fs_res, h')
      → (err : Err) × (given : Option Response) × (g : Client S) × (command codec tr true type w h
          ≡ returns (err, given, g))
        × ((is_ok err ≡ false) × (err ≡ e) × (h' ≡ g)
            ⊎ (is_ok err ≡ true) × (finish member unpack given g ≡ returns (e, fs_res, h')))
  unfolding request
  request_done type member unpack w h hangs c eq = absurd (ground arith)
  request_done type member unpack w h fault c eq = absurd (ground arith)
  request_done type member unpack w h (returns (err, given, g)) c eq =
      elim (Bool-cases (is_ok err)) [
        | inl good ↦ (err, given, g, c, inr (good, ground arith))
        | inr bad ↦ (err, given, g, c, inl (bad, ground arith, ground arith))
      ]

  pub request_sound :
      (type : CommandType) (member : ResponseType → Option Any) (unpack : Option (Unpack M))
      (w : Around) (h : Client S) {fs_res : Option M} {h' : Client S}
      → request codec tr type member unpack w h ≡ returns (ok, fs_res, h')
      → Answered member unpack (next_char h.cmd_context) fs_res
  request_sound type member unpack w h eq =
      let (err, given, g, c, how) = request_done type member unpack w h _ refl eq in
      elim how [
        | inl (bad, same, left) ↦ absurd (ground arith)
        | inr (good, done) ↦
            let called : command codec tr true type w h ≡ returns (ok, given, g) = ground arith in
            finish_sound member unpack given g (next_char h.cmd_context) done
              (command_sound codec tr true type w h called).0
      ]

  -- An operation with a response leaves no message behind: on every branch that returns, if every live
  -- message had one owner before it, and the semaphore can count the posts of the thread's steps during
  -- it and `k` more, then also after it, with none more in the caller's hands.
  pub request-IsBalanced :
      (type : CommandType) (member : ResponseType → Option Any) (unpack : Option (Unpack M))
      (w : Around) (out k : ℕ) (h : Client S) {e : Err} {fs_res : Option M} {h' : Client S}
      → request codec tr type member unpack w h ≡ returns (e, fs_res, h')
      → IsBalanced out (w.wait_steps + w.take_steps + k) h
      → IsBalanced out k h'
  unfolding finish
  request-IsBalanced type member unpack w out k h eq b =
      let (err, given, g, c, how) = request_done type member unpack w h _ refl eq in
      let after = command-IsBalanced codec tr true type w out k h c b in
      released given g how after (command-Handed codec tr true type w h c)
    where
      released :
          (given : Option Response) (g : Client S) {err e : Err} {fs_res : Option M} {h' : Client S}
          → (is_ok err ≡ false) × (err ≡ e) × (h' ≡ g)
            ⊎ (is_ok err ≡ true) × (finish member unpack given g ≡ returns (e, fs_res, h'))
          → IsBalanced (out + in_slot given) k g
          → Handed true err given
          → IsBalanced out k h'
      released none g (inl (bad, same, left)) after handed =
          rw left (record { queue = after.queue; counts = after.counts; owned = omega arith })
      released (some res) g (inl (bad, same, left)) after handed = absurd (ground arith)
      released none g (inr (good, done)) after handed = absurd (ground arith)
      released (some res) g (inr (good, done)) after handed =
          rw (finish-freed member unpack res g done)
            (record { queue = after.queue; counts = after.counts; owned = omega arith })

module _ {S : Type 0} (codec : Codec) (tr : Transport S) where
  -- An operation without a response leaves no message behind: on every branch that returns, if every
  -- live message had one owner before it, and the semaphore can count the posts of the thread's steps during
  -- it and `k` more, then also after it, with none more in the caller's hands.
  pub order-IsBalanced :
      (type : CommandType) (w : Around) (out k : ℕ) (h : Client S) {e : Err} {h' : Client S}
      → order codec tr type w h ≡ returns (e, h')
      → IsBalanced out (w.wait_steps + w.take_steps + k) h
      → IsBalanced out k h'
  unfolding order
  order-IsBalanced type w out k h {e} {h'} eq b = from_command _ refl eq
    where
      from_command :
          (r : Exec (Err × Option Response × Client S))
          → command codec tr false type w h ≡ r
          → order codec tr type w h ≡ returns (e, h')
          → IsBalanced out k h'
      from_command hangs c eq = absurd (ground arith)
      from_command fault c eq = absurd (ground arith)
      from_command (returns (err, given, g)) c eq =
          let after = command-IsBalanced codec tr false type w out k h c b in
          let handed = command-Handed codec tr false type w h c in
          let same : h' ≡ g = ground arith in
          let nothing : in_slot given ≡ 0 = elim handed [
            | inl absent ↦ ap in_slot absent
            | inr (wanted, fine) ↦ absurd (ground arith)
          ] in
          rw same (record { queue = after.queue; counts = after.counts; owned = omega arith })
