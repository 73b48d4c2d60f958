-- ===== src/Functionblock/Answers.antt =====
-- When a command hands a response out: `command` of src/functionblock.c.
use io4edge_client_c.Base.{
  ◌≡◌, ◌⊎◌, inl, inr, refl, true, false, Bool, Option, none, some, [], ◌∷◌, ◌==◌, Bool-cases,
  Option-cases, arith,
}
use io4edge_client_c.Err.{Err, ok, is_ok}
use io4edge_client_c.Exec.{returns}
use io4edge_client_c.Transport.{Transport}
use io4edge_client_c.Proto.{CommandType, Response, Codec, Status, status_ok, strcmp_eq}
use io4edge_client_c.Client.{
  Client, next_char, advance_context, run_thread, check_status, check_response, await, Around,
  command,
}
use io4edge_client_c.Client.Exchange.{outgoing, outgoing_len, woken}

-- No response is handed out, or the caller wants it and gets the code IO4E_OK.
abbrev pub Handed : Bool → Err → Option Response → Type 0
Handed wants e given = (given ≡ none) ⊎ (wants ≡ true) × (e ≡ ok)

module _ {S : Type 0} (codec : Codec) (tr : Transport S) where
  check_status-Handed :
      (wants : Bool) (res : Response) (h : Client S) (status : Status) {e : Err}
      {given : Option Response} {h' : Client S}
      → res.status ≡ status
      → check_status codec tr wants res h ≡ returns (e, given, h')
      → Handed wants e given
  unfolding check_status
  check_status-Handed true res h status_ok s eq = inr (refl, ground arith)
  check_status-Handed false res h status_ok s eq = inl (ground arith)
  check_status-Handed wants res h _ s eq = inl (ground arith)

  check_response-Handed :
      (wants : Bool) (o : Option Response) (h : Client S) {e : Err} {given : Option Response}
      {h' : Client S}
      → check_response codec tr wants o h ≡ returns (e, given, h')
      → Handed wants e given
  unfolding check_response
  check_response-Handed wants none h eq = inl (ground arith)
  check_response-Handed wants (some res) h {e} {given} {h'} eq = elim (Option-cases res.context) [
    | inl absent ↦ absurd (ground arith)
    | inr (value, carries) ↦ elim (Bool-cases (strcmp_eq value (h.cmd_context ∷ []))) [
      | inr other ↦ inl (ground arith)
      | inl repeats ↦
          let next = record h { cmd_context = advance_context h.cmd_context } in
          let judged : check_status codec tr wants res next ≡ returns (e, given, h') =
            ground arith in
          check_status-Handed wants res next res.status refl judged
    ]
  ]

  await-Handed :
      (wants : Bool) (w : Around) (h : Client S) {e : Err} {given : Option Response} {h' : Client S}
      → await codec tr wants w h ≡ returns (e, given, h')
      → Handed wants e given
  unfolding await
  await-Handed wants w h {e} {given} {h'} eq =
      let g = run_thread codec tr w.time_size w.now w.wait_steps h in
      elim (Bool-cases (g.cmd_sem == 0)) [
        | inl unposted ↦ inl (ground arith)
        | inr posted ↦
            let judged : check_response codec tr wants (woken codec tr w h).cmd_response
                  (record (woken codec tr w h) { cmd_response = none })
                ≡ returns (e, given, h') =
              ground arith in
            check_response-Handed wants _ _ judged
      ]

  Handed-from :
      (wants : Bool) (type : CommandType) (w : Around) (h : Client S) (o : Option (Err × S))
      {e : Err} {given : Option Response} {h' : Client S}
      → tr.write_msg h.transport (outgoing codec tr type h) (outgoing_len codec tr type h) ≡ o
      → command codec tr wants type w h ≡ returns (e, given, h')
      → Handed wants e given
  unfolding command
  Handed-from wants type w h none wr eq = inl (ground arith)
  Handed-from wants type w h (some (err, s)) {e} {given} {h'} wr eq = elim (Bool-cases w.lock_ok) [
    | inr unlocked ↦ inl (ground arith)
    | inl locked ↦ elim (Bool-cases (is_ok err)) [
      | inr refused ↦ inl (ground arith)
      | inl written ↦
          let sent = record h { transport = s; cmd_context = next_char h.cmd_context } in
          let waited : await codec tr wants w sent ≡ returns (e, given, h') = ground arith in
          await-Handed wants w sent waited
    ]
  ]

  -- A command hands out a response only with the code IO4E_OK, and only to a caller who wants it.
  pub command-Handed :
      (wants : Bool) (type : CommandType) (w : Around) (h : Client S) {e : Err}
      {given : Option Response} {h' : Client S}
      → command codec tr wants type w h ≡ returns (e, given, h')
      → Handed wants e given
  command-Handed wants type w h eq = Handed-from wants type w h _ refl eq
