-- ===== src/Client/Exchange.antt =====
-- One command: `command` of src/functionblock.c, from the write to the response.
use io4edge_client_c.Base.{
  ℕ, ◌+◌, ◌-◌, ◌%◌, ◌^◌, ◌≡◌, inl, inr, refl, ap, ◌∙◌, true, false, Bool, Option, none, some, List,
  [], ◌∷◌, ◌++◌, length, replicate, ◌==◌, if◌then◌else◌, Bool-cases, Option-cases, arith,
}
use io4edge_client_c.Err.{Err, ok}
use io4edge_client_c.Exec.{returns}
use io4edge_client_c.Transport.{Transport}
use io4edge_client_c.Proto.{
  CommandType, Response, Status, status_ok, Codec, c_string, bytes_eq, strcmp_eq,
}
use io4edge_client_c.Client.{
  Client, held, reading, map_fb_error, next_char, advance_context, run_thread, thread_step,
  check_status, check_response, await, Around, command,
}
use io4edge_client_c.Client.Frame.{context-run_thread}
use io4edge_client_c.Client.Reading.{is_stream, thread_step_answer}

pub strcmp_refl : (s : List ℕ) → bytes_eq s s ≡ true
strcmp_refl [] = refl
strcmp_refl (c ∷ s) = ground (arith, strcmp_refl s)

module _ {S : Type 0} (codec : Codec) (tr : Transport S) where
  -- The bytes that a command with the client's context goes out as, behind the room for the header.
  abbrev pub outgoing : CommandType → Client S → List ℕ
  outgoing type h =
      replicate (tr.get_write_offset h.transport) 0
      ++ codec.pack (record { context = c_string (next_char h.cmd_context ∷ []); type = type })

  abbrev pub outgoing_len : CommandType → Client S → ℕ
  outgoing_len type h =
      (length
          (codec.pack (record { context = c_string (next_char h.cmd_context ∷ []); type = type }))
        + tr.get_write_offset h.transport)
      % 2 ^ 32

  -- A command whose write succeeds goes on with the wait, under the next context.
  pub command_sent :
      (wants : Bool) (type : CommandType) (w : Around) (h : Client S) (s : S)
      → w.lock_ok ≡ true
      → tr.write_msg h.transport (outgoing type h) (outgoing_len type h) ≡ some (ok, s)
      → command codec tr wants type w h
        ≡ await codec tr wants w (record h { transport = s; cmd_context = next_char h.cmd_context })
  unfolding command
  command_sent wants type w h s l e = ground arith

  run_thread_none : (ts now : ℕ) (h : Client S) → run_thread codec tr ts now 0 h ≡ h
  unfolding run_thread
  run_thread_none ts now h = refl

  run_thread_one :
      (ts now : ℕ) (h : Client S) {h' : Client S}
      → thread_step codec tr ts now false h ≡ some h'
      → run_thread codec tr ts now 1 h ≡ h'
  unfolding run_thread
  run_thread_one ts now h e = ground arith

  -- A wait that finds the semaphore posted takes the response that is then in the slot.
  pub await_woken :
      (wants : Bool) (w : Around) (h h' h'' : Client S)
      → run_thread codec tr w.time_size w.now w.wait_steps h ≡ h'
      → (h'.cmd_sem == 0) ≡ false
      → run_thread codec tr w.time_size w.now w.take_steps (record h' { cmd_sem = h'.cmd_sem - 1 })
        ≡ h''
      → await codec tr wants w h
        ≡ check_response codec tr wants h''.cmd_response (record h'' { cmd_response = none })
  unfolding await
  await_woken wants w h h' h'' e sem e' = rw (e, sem, e')

  -- A response that repeats the client's context is judged by its status, and the context advances.
  pub check_response_fits :
      (wants : Bool) (res : Response) (h : Client S)
      → res.context ≡ some (h.cmd_context ∷ [])
      → check_response codec tr wants (some res) h
        ≡ check_status codec tr wants res (record h { cmd_context = advance_context h.cmd_context })
  unfolding check_response
  check_response_fits wants res h ctx = ground (arith, strcmp_refl (c_string (h.cmd_context ∷ [])))

  -- A command of an idle client, whose write goes through and whose response is the next message to
  -- arrive and repeats the context: the response is judged by its status, with the response slot empty,
  -- the semaphore back at 0 and the context advanced.
  pub exchange :
      (wants : Bool) (type : CommandType) (w : Around) (h : Client S) (s s' : S) (buf : List ℕ)
      (res : Response)
      → w.lock_ok ≡ true
      → w.wait_steps ≡ 1
      → w.take_steps ≡ 0
      → h.thread ≡ reading
      → h.cmd_sem ≡ 0
      → h.cmd_response ≡ none
      → tr.write_msg h.transport (outgoing type h) (outgoing_len type h) ≡ some (ok, s)
      → tr.read_msg s 1 ≡ some (ok, buf, s')
      → (length buf == 0) ≡ false
      → codec.unpack buf ≡ some res
      → is_stream res.type ≡ false
      → res.context ≡ some (next_char h.cmd_context ∷ [])
      → command codec tr wants type w h
        ≡ check_status codec tr wants res (record h {
          transport = s';
          cmd_context = advance_context (next_char h.cmd_context);
          cmd_sem = 0;
          cmd_response = none;
          live = h.live + 1;
        })
  exchange wants type w h s s' buf res lock one zero_steps reads idle empty wr rd full unp k ctx =
      let sent = record h { transport = s; cmd_context = next_char h.cmd_context } in
      let step =
        thread_step_answer codec tr w.time_size w.now false sent buf s' res reads rd full unp k
          (ground arith) in
      let arrived = record sent {
        transport = s';
        cmd_response = some res;
        cmd_sem = h.cmd_sem + 1;
        live = held h.cmd_response (h.live + 1);
      } in
      let taken = record arrived { cmd_sem = h.cmd_sem + 1 - 1 } in
      let none_left : h.cmd_sem + 1 - 1 ≡ 0 = omega arith in
      let counted : held h.cmd_response (h.live + 1) ≡ h.live + 1 = rw empty in
      command_sent wants type w h s lock wr
      ∙ await_woken wants w sent arrived taken
          (ap (λ n. run_thread codec tr w.time_size w.now n sent) one
            ∙ run_thread_one w.time_size w.now sent step)
          (ground arith)
          (ap (λ n. run_thread codec tr w.time_size w.now n taken) zero_steps
            ∙ run_thread_none w.time_size w.now taken)
      ∙ check_response_fits wants res (record taken { cmd_response = none }) ctx
      ∙ λ i. check_status codec tr wants res (record h {
        transport = s';
        cmd_context = advance_context (next_char h.cmd_context);
        cmd_sem = none_left i;
        cmd_response = none;
        live = counted i;
      })

-- The response that lets a command succeed: it carries the context `c` of the command and status OK, and
-- is handed out if and only if the caller wants it.
pub record Accepted (wants : Bool) (c : ℕ) (given : Option Response) : Type 0 where
  pub res : Response
  pub value : List ℕ
  pub carries : res.context ≡ some value
  pub repeats : strcmp_eq value (c ∷ []) ≡ true
  pub fine : res.status ≡ status_ok
  pub handed : given ≡ (if wants then some res else none)

module _ {S : Type 0} (codec : Codec) (tr : Transport S) where
  check_status-ok :
      (wants : Bool) (res : Response) (h : Client S) (status : Status) {given : Option Response}
      {h' : Client S}
      → res.status ≡ status
      → check_status codec tr wants res h ≡ returns (ok, given, h')
      → (res.status ≡ status_ok)
        × (given ≡ (if wants then some res else none))
        × (h'.cmd_context ≡ h.cmd_context)
  unfolding check_status map_fb_error
  check_status-ok wants res h status_ok s e = ground arith
  check_status-ok wants res h _ s e = absurd (ground arith)

  check_response-ok :
      (wants : Bool) (o : Option Response) (h : Client S) {given : Option Response} {h' : Client S}
      → check_response codec tr wants o h ≡ returns (ok, given, h')
      → Accepted wants h.cmd_context given × (h'.cmd_context ≡ advance_context h.cmd_context)
  unfolding check_response
  check_response-ok wants none h e = absurd (ground arith)
  check_response-ok wants (some res) h {given} {h'} e = elim (Option-cases res.context) [
    | inl absent ↦ absurd (ground arith)
    | inr (value, carries) ↦ elim (Bool-cases (strcmp_eq value (h.cmd_context ∷ []))) [
      | inl repeats ↦
          let judged : check_status codec tr wants res
                (record h { cmd_context = advance_context h.cmd_context })
              ≡ returns (ok, given, h') =
            ground arith in
          let (fine, handed, context) = check_status-ok wants res _ res.status refl judged in
          (
            record {
              res = res;
              value = value;
              carries = carries;
              repeats = repeats;
              fine = fine;
              handed = handed;
            },
            context,
          )
      | inr other ↦ absurd (ground arith)
    ]
  ]

  -- The client after the wait and the thread's steps before the response is taken.
  abbrev pub woken : Around → Client S → Client S
  woken w h =
      let h' = run_thread codec tr w.time_size w.now w.wait_steps h in
      run_thread codec tr w.time_size w.now w.take_steps (record h' { cmd_sem = h'.cmd_sem - 1 })

  context-woken : (w : Around) (h : Client S) → (woken w h).cmd_context ≡ h.cmd_context
  context-woken w h =
      context-run_thread codec tr w.time_size w.now w.take_steps _
      ∙ context-run_thread codec tr w.time_size w.now w.wait_steps h

  await-ok :
      (wants : Bool) (w : Around) (h : Client S) {given : Option Response} {h' : Client S}
      → await codec tr wants w h ≡ returns (ok, given, h')
      → check_response codec tr wants
          (woken w h).cmd_response
          (record (woken w h) { cmd_response = none })
        ≡ returns (ok, given, h')
  unfolding await
  await-ok wants w h e = ground arith

  command-ok :
      (wants : Bool) (type : CommandType) (w : Around) (h : Client S) (o : Option (Err × S))
      {given : Option Response} {h' : Client S}
      → tr.write_msg h.transport (outgoing codec tr type h) (outgoing_len codec tr type h) ≡ o
      → command codec tr wants type w h ≡ returns (ok, given, h')
      → (s : S) × (await codec tr wants w
            (record h { transport = s; cmd_context = next_char h.cmd_context })
          ≡ returns (ok, given, h'))
  unfolding command
  command-ok wants type w h none wr e = absurd (ground arith)
  command-ok wants type w h (some (err, s)) wr e = (s, ground arith)

  pub command_sound :
      (wants : Bool) (type : CommandType) (w : Around) (h : Client S) {given : Option Response}
      {h' : Client S}
      → command codec tr wants type w h ≡ returns (ok, given, h')
      → Accepted wants (next_char h.cmd_context) given
        × (h'.cmd_context ≡ advance_context (next_char h.cmd_context))
  command_sound wants type w h e =
      let (s, awaited) = command-ok wants type w h _ refl e in
      let sent = record h { transport = s; cmd_context = next_char h.cmd_context } in
      let accepted = check_response-ok wants _ _ (await-ok wants w sent awaited) in
      rw (context-woken w sent) at accepted
