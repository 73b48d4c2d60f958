-- ===== src/Blocks/Values.antt =====
-- The getters of the blocks: `io4edge_binaryiotypea_input` and `_all_inputs` of src/binaryiotypea.c,
-- `io4edge_analogintypea_value`, `io4edge_canl2_ctrl_state`; and the setters of the binary I/O block.
use io4edge_client_c.Base.{
  ℕ, ◌+◌, ◌≡◌, inl, inr, Bool, Option, none, some, Bool-cases, Option-cases, arith,
}
use io4edge_client_c.Err.{Err, ok, is_ok}
use io4edge_client_c.Exec.{returns, hangs, fault}
use io4edge_client_c.Transport.{Transport}
use io4edge_client_c.Proto.{Codec}
use io4edge_client_c.Client.{Client, Around, next_char}
use io4edge_client_c.Client.Ledger.{IsBalanced}
use io4edge_client_c.Functionblock.{Answer, fc_response, action_control_get}
use io4edge_client_c.Functionblock.Requests.{Answered, request_sound, request-IsBalanced}
use io4edge_client_c.Blocks.{value_of}
use io4edge_client_c.Blocks.BinaryIoTypeA.{
  Messages, InputResponse, single, all, other_type, single_state, input,
}

module _ {S R V : Type 0} where
  -- Where the value that a getter stores comes from.
  value_of_sound :
      (member : R → Option V) (a : Answer S R) {v : Option V} {h' : Client S}
      → value_of member a ≡ returns (ok, v, h')
      → (r : R) × (a ≡ returns (ok, some r, h')) × (x : V) × (member r ≡ some x) × (v ≡ some x)
  unfolding value_of
  value_of_sound member hangs e = absurd (ground arith)
  value_of_sound member fault e = absurd (ground arith)
  value_of_sound member (returns (err, none, h)) e = absurd (ground arith)
  value_of_sound member (returns (err, some r, h)) {v} {h'} e = elim (Bool-cases (is_ok err)) [
    | inr bad ↦ absurd (ground arith)
    | inl good ↦ elim (Option-cases (member r)) [
      | inl other ↦ absurd (ground arith)
      | inr (x, found) ↦
          let same : returns (err, some r, h) ≡ returns (ok, some r, h') = ground arith in
          let stored : v ≡ some x = ground arith in (r, same, x, found, stored)
    ]
  ]

  -- A getter returns only where its request does, with the same client.
  value_of_returns :
      (member : R → Option V) (a : Answer S R) {e : Err} {v : Option V} {h' : Client S}
      → value_of member a ≡ returns (e, v, h')
      → (err : Err) × (r : Option R) × (a ≡ returns (err, r, h'))
  unfolding value_of
  value_of_returns member hangs e = absurd (ground arith)
  value_of_returns member fault e = absurd (ground arith)
  value_of_returns member (returns (err, none, h)) {h'} e =
      let same : returns (err, none, h) ≡ returns (err, none, h') = ground arith in
      (err, none, same)
  value_of_returns member (returns (err, some r, h)) {h'} e =
      let same : returns (err, some r, h) ≡ returns (err, some r, h') = ground arith in
      (err, some r, same)

module _ {ConfigurationSet Got Described S : Type 0} (pb : Messages ConfigurationSet Got Described)
    (codec : Codec) (tr : Transport S) where
  -- `input` returns IO4E_OK only with a state, and only if its command was accepted and the response
  -- unpacks to a single input with that state.
  input_sound :
      (channel : ℕ) (w : Around) (h : Client S) {v : Option Bool} {h' : Client S}
      → input pb codec tr channel w h ≡ returns (ok, v, h')
      → (state : Bool) × (v ≡ some state)
        × Answered
            (fc_response action_control_get)
            (some pb.function_control_get_response)
            (next_char h.cmd_context)
            (some (single state))
  unfolding input
  input_sound channel w h e =
      let (r, asked, state, found, stored) = value_of_sound single_state _ e in
      let answered = request_sound codec tr _ _ _ w h asked in
      (state, stored, is_single r found answered)
    where
      is_single :
          (r : InputResponse) {state : Bool}
          → single_state r ≡ some state
          → Answered
              (fc_response action_control_get)
              (some pb.function_control_get_response)
              (next_char h.cmd_context)
              (some r)
          → Answered
              (fc_response action_control_get)
              (some pb.function_control_get_response)
              (next_char h.cmd_context)
              (some (single state))
      is_single (single s) {state} found a = let same : s ≡ state = ground arith in rw same at a
      is_single (all n) found a = absurd (ground arith)
      is_single (other_type n) found a = absurd (ground arith)

  -- The getters leave no response behind, on every branch that returns: if every live message of the
  -- client had one owner before `input`, then also after it.
  pub input-IsBalanced :
      (channel : ℕ) (w : Around) (out k : ℕ) (h : Client S) {e : Err} {v : Option Bool}
      {h' : Client S}
      → input pb codec tr channel w h ≡ returns (e, v, h')
      → IsBalanced out (w.wait_steps + w.take_steps + k) h
      → IsBalanced out k h'
  unfolding input
  input-IsBalanced channel w out k h e b =
      let (err, r, asked) = value_of_returns single_state _ e in
      request-IsBalanced codec tr _ _ _ w out k h asked b
