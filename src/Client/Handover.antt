-- ===== src/Client/Handover.antt =====
-- A command hands its response out or frees it: `command` of src/functionblock.c.
use io4edge_client_c.Base.{
  ℕ, ◌+◌, ◌-◌, ◌≡◌, ◌⊎◌, inl, inr, refl, true, false, Bool, Option, none, some, [], ◌∷◌, ◌==◌,
  Bool-cases, Option-cases, arith,
}
use io4edge_client_c.Err.{Err, is_ok}
use io4edge_client_c.Exec.{returns}
use io4edge_client_c.Transport.{Transport}
use io4edge_client_c.Proto.{CommandType, Response, Codec, Status, status_ok, strcmp_eq}
use io4edge_client_c.Client.{
  Client, run_thread, check_status, check_response, await, Around, command, advance_context, freed,
  next_char,
}
use io4edge_client_c.Client.Exchange.{outgoing, outgoing_len}
use io4edge_client_c.Client.Ledger.{in_slot, IsBalanced, run_thread-IsBalanced}

module _ {S : Type 0} (codec : Codec) (tr : Transport S) where
  -- A response is handed out or freed.
  abbrev Kept : Client S → Option Response → Client S → Type 0
  Kept h given h' = (in_slot given ≡ 1) × (h' ≡ h) ⊎ (in_slot given ≡ 0) × (h' ≡ freed h)

  check_status-Kept :
      (wants : Bool) (res : Response) (h : Client S) (status : Status) {e : Err}
      {given : Option Response} {h' : Client S}
      → res.status ≡ status
      → check_status codec tr wants res h ≡ returns (e, given, h')
      → Kept h given h'
  unfolding check_status
  check_status-Kept true res h status_ok s e = inl (ground arith, ground arith)
  check_status-Kept false res h status_ok s e = inr (ground arith, ground arith)
  check_status-Kept wants res h _ s e = inr (ground arith, ground arith)

  IsBalanced-Kept :
      (out k : ℕ) {h h' : Client S} (given : Option Response)
      → Kept h given h'
      → IsBalanced (out + 1) k h
      → IsBalanced (out + in_slot given) k h'
  IsBalanced-Kept out k given (inl (one, same)) b = rw (same, one) b
  IsBalanced-Kept out k given (inr (zero_given, gone)) b =
      rw (gone, zero_given) (record { queue = b.queue; counts = b.counts; owned = omega arith })

  IsBalanced-check_response :
      (wants : Bool) (out k : ℕ) (o : Option Response) (h : Client S) {e : Err}
      {given : Option Response} {h' : Client S}
      → check_response codec tr wants o (record h { cmd_response = none }) ≡ returns (e, given, h')
      → h.cmd_response ≡ o
      → IsBalanced out k h
      → IsBalanced (out + in_slot given) k h'
  unfolding check_response
  IsBalanced-check_response wants out k none h {given} {h'} eq o b =
      let same : h' ≡ record h { cmd_response = none } = ground arith in
      let nothing : in_slot given ≡ 0 = ground arith in
      rw (same, nothing) (record { queue = b.queue; counts = b.counts; owned = ground arith })
  IsBalanced-check_response wants out k (some res) h {e} {given} {h'} eq o b =
      let taken : IsBalanced (out + 1) k (record h { cmd_response = none }) = record {
        queue = b.queue;
        counts = b.counts;
        owned = ground arith;
      } in
      elim (Option-cases res.context) [
        | inl absent ↦ absurd (ground arith)
        | inr (value, carries) ↦ elim (Bool-cases (strcmp_eq value (h.cmd_context ∷ []))) [
          | inr other ↦
              let gone : h' ≡ freed (record h { cmd_response = none }) = ground arith in
              let nothing : in_slot given ≡ 0 = ground arith in
              IsBalanced-Kept out k {h = record h { cmd_response = none }} given
                (inr (nothing, gone)) taken
          | inl repeats ↦
              let next = record h {
                cmd_response = none;
                cmd_context = advance_context h.cmd_context;
              } in
              let judged : check_status codec tr wants res next ≡ returns (e, given, h') =
                ground arith in
              IsBalanced-Kept out k {h = next} given
                (check_status-Kept wants res next res.status refl judged)
                (record { queue = taken.queue; counts = taken.counts; owned = taken.owned })
        ]
      ]

  IsBalanced-await :
      (wants : Bool) (w : Around) (out k : ℕ) (h : Client S) {e : Err} {given : Option Response}
      {h' : Client S}
      → await codec tr wants w h ≡ returns (e, given, h')
      → IsBalanced out (w.wait_steps + w.take_steps + k) h
      → IsBalanced (out + in_slot given) k h'
  unfolding await
  IsBalanced-await wants w out k h {e} {given} {h'} eq b =
      let waited =
        run_thread-IsBalanced codec tr w.time_size w.now out w.wait_steps (w.take_steps + k) h
          (record { queue = b.queue; counts = omega arith; owned = b.owned }) in
      let g = run_thread codec tr w.time_size w.now w.wait_steps h in
      elim (Bool-cases (g.cmd_sem == 0)) [
        | inl unposted ↦
            let same : h' ≡ g = ground arith in
            let nothing : in_slot given ≡ 0 = ground arith in
            rw (same, nothing)
              (record { queue = waited.queue; counts = omega arith; owned = omega arith })
        | inr posted ↦
            let woken = record g { cmd_sem = g.cmd_sem - 1 } in
            let taken =
              run_thread-IsBalanced codec tr w.time_size w.now out w.take_steps k woken
                (record { queue = waited.queue; counts = ground arith; owned = waited.owned }) in
            let g' = run_thread codec tr w.time_size w.now w.take_steps woken in
            let judged : check_response codec tr wants g'.cmd_response
                  (record g' { cmd_response = none })
                ≡ returns (e, given, h') =
              ground arith in
            IsBalanced-check_response wants out k g'.cmd_response g' judged refl taken
      ]

  command_from :
      (wants : Bool) (type : CommandType) (w : Around) (out k : ℕ) (h : Client S)
      (o : Option (Err × S)) {e : Err} {given : Option Response} {h' : Client S}
      → tr.write_msg h.transport (outgoing codec tr type h) (outgoing_len codec tr type h) ≡ o
      → command codec tr wants type w h ≡ returns (e, given, h')
      → IsBalanced out (w.wait_steps + w.take_steps + k) h
      → IsBalanced (out + in_slot given) k h'
  unfolding command
  command_from wants type w out k h none {e} {given} {h'} wr eq b = elim (Bool-cases w.lock_ok) [
    | inl locked ↦ absurd (ground arith)
    | inr unlocked ↦
        let same : h' ≡ h = ground arith in
        let nothing : in_slot given ≡ 0 = ground arith in
        rw (same, nothing) (record { queue = b.queue; counts = omega arith; owned = omega arith })
  ]
  command_from wants type w out k h (some (err, s)) {e} {given} {h'} wr eq b =
      let sent = record h { transport = s; cmd_context = next_char h.cmd_context } in
      elim (Bool-cases w.lock_ok) [
        | inr unlocked ↦
            let same : h' ≡ h = ground arith in
            let nothing : in_slot given ≡ 0 = ground arith in
            rw (same, nothing)
              (record { queue = b.queue; counts = omega arith; owned = omega arith })
        | inl locked ↦ elim (Bool-cases (is_ok err)) [
          | inr refused ↦
              let same : h' ≡ sent = ground arith in
              let nothing : in_slot given ≡ 0 = ground arith in
              rw (same, nothing)
                (record { queue = b.queue; counts = omega arith; owned = omega arith })
          | inl written ↦
              let waited : await codec tr wants w sent ≡ returns (e, given, h') = ground arith in
              IsBalanced-await wants w out k sent waited
                (record { queue = b.queue; counts = b.counts; owned = b.owned })
        ]
      ]

  -- A command accounts for every message: if every live message had one owner before it, and the
  -- semaphore can count the posts of the thread's steps during it and `k` more, then also after it, with the
  -- response that it hands out, if any, in the caller's hands. So no response is lost or freed
  -- twice, on any of the branches that return.
  pub command-IsBalanced :
      (wants : Bool) (type : CommandType) (w : Around) (out k : ℕ) (h : Client S) {e : Err}
      {given : Option Response} {h' : Client S}
      → command codec tr wants type w h ≡ returns (e, given, h')
      → IsBalanced out (w.wait_steps + w.take_steps + k) h
      → IsBalanced (out + in_slot given) k h'
  command-IsBalanced wants type w out k h eq b = command_from wants type w out k h _ refl eq b
