-- ===== src/Client.antt =====
-- The function block client: src/functionblock.c up to `command`, `read_thread`, and the client
-- struct of src/io4edge_internal.h.
-- Two threads share the client: the read thread, which takes one step at a time, and the caller of a
-- command, who waits for it. The steps that the read thread makes while the caller waits are an
-- argument of the command.
pub mod Wrap
pub mod Codes
pub mod Reading
pub mod Frame
pub mod Exchange
pub mod Stale
pub mod Steady
pub mod Ledger
pub mod Handover
pub mod Bench
mod Tests
use io4edge_client_c.Base.{
  ℕ, zero, suc, ◌+◌, ◌-◌, ◌%◌, ◌^◌, Bool, true, false, not, ◌&&◌, Option, none, some, List, [], ◌∷◌,
  ◌++◌, length, replicate, ltb, ◌==◌, if◌then◌else◌,
}
use io4edge_client_c.Err.{
  Err, ok, fail, err_timeout, err_protobuf, err_fb_unspecific_error, err_fb_unknown_command,
  err_fb_not_implemented, err_fb_wrong_client, err_fb_invalid_parameter, err_fb_hw_fault,
  err_fb_stream_already_started, err_fb_stream_already_stopped, err_fb_stream_start_failed,
  err_fb_temporarily_unavailable, err_fb_unknown, is_ok,
}
use io4edge_client_c.Sem.{sem_post}
use io4edge_client_c.Streamq
use io4edge_client_c.Streamq.{Streamq}
use io4edge_client_c.Transport.{Transport}
use io4edge_client_c.Exec.{Exec, returns, hangs, fault}
use io4edge_client_c.Proto.{
  Any, Command, CommandType, Response, ResponseType, of_stream, Status, status_ok, unspecific_error,
  unknown_command, not_implemented, wrong_client, invalid_parameter, hw_fault,
  stream_already_started, stream_already_stopped, stream_start_failed, temporarily_unavailable,
  other_status, StreamData, Codec, c_string, strcmp_eq,
}

-- IO4E_FOREVER, in seconds
abbrev pub io4e_forever : ℕ
io4e_forever = 10_000_000_000

-- Where the read thread stands: at the head of its loop, in the push of a stream message, or gone.
pub data Pc : Type 0 where
  reading : Pc
  pushing : StreamData → Pc
  exited : Pc

-- `io4edge_functionblock_client_t`, with the read thread's place, over a transport handle of type `S`.
-- `cmd_context` is its first `char` as a byte. `live` is the heap: how many unpacked messages
-- (responses and stream data) have not been freed.
pub record Client (S : Type 0) : Type 0 where
  pub transport : S
  pub cmd_context : ℕ
  pub cmd_timeout : ℕ
  pub cmd_response : Option Response
  pub cmd_sem : ℕ
  pub streamq : Streamq StreamData
  pub thread : Pc
  pub live : ℕ

-- `map_fb_error`
unfoldable pub map_fb_error : Status → Err
map_fb_error status_ok = ok
map_fb_error unspecific_error = err_fb_unspecific_error
map_fb_error unknown_command = err_fb_unknown_command
map_fb_error not_implemented = err_fb_not_implemented
map_fb_error wrong_client = err_fb_wrong_client
map_fb_error invalid_parameter = err_fb_invalid_parameter
map_fb_error hw_fault = err_fb_hw_fault
map_fb_error stream_already_started = err_fb_stream_already_started
map_fb_error stream_already_stopped = err_fb_stream_already_stopped
map_fb_error stream_start_failed = err_fb_stream_start_failed
map_fb_error temporarily_unavailable = err_fb_temporarily_unavailable
map_fb_error (other_status n) = err_fb_unknown

-- `h->cmd_context[0]++` on a `char`.
abbrev pub next_char : ℕ → ℕ
next_char c = (c + 1) % 256

-- The context after a response that fits: one more step, and from 'Z' back to 'A'.
abbrev pub advance_context : ℕ → ℕ
advance_context c = if next_char c == b'Z' then b'A' else next_char c

-- `functionblock__response__free_unpacked`, and the `free` of a stream message.
abbrev pub freed : {S : Type 0} → Client S → Client S
freed h = record h { live = h.live - 1 }

-- The live messages once an unread response is freed.
abbrev pub held : Option Response → ℕ → ℕ
held none live = live
held (some old) live = live - 1

module _ {S : Type 0} where
  -- The branch of `read_thread` for a command response: an unread response is freed and replaced.
  unfoldable pub deliver : Response → Client S → Client S
  deliver res h = elim (sem_post h.cmd_sem) [
    | some v ↦ record h { cmd_response = some res; cmd_sem = v; live = held h.cmd_response h.live }
    | none ↦ record h {
      cmd_response = some res;
      live = held h.cmd_response h.live - 1;
      thread = exited;
    }
  ]

  -- The branches of `read_thread` on an unpacked message. Of a stream response the stream data stay.
  unfoldable pub dispatch : Response → ResponseType → Client S → Client S
  dispatch res (of_stream sd) h = record h { thread = pushing sd }
  dispatch res _ h = deliver res h

  module _ (codec : Codec) (tr : Transport S) where
    -- `read_thread` from the call of `read_msg` to the next one, or to the push of a stream message.
    -- `none`: the thread blocks.
    unfoldable pub receive : Client S → Option (Client S)
    receive h = elim (tr.read_msg h.transport 1) [
      | none ↦ none
      | some (err, res_buffer, s) ↦
          let h' = record h { transport = s } in
          if not (is_ok err)
          then some h'
          else if length res_buffer == 0
          then some h'
          else elim (codec.unpack res_buffer) [
            | none ↦ some h'
            | some res ↦ some (dispatch res res.type (record h' { live = h.live + 1 }))
          ]
    ]

    -- The rest of the stream branch: `streamq_push` with IO4E_FOREVER. `none`: the queue is full and the
    -- deadline, some 317 years off, has not passed. After a push that fails the loop goes on as
    -- after any other: the message is dropped unfreed.
    unfoldable pub push_stream : ℕ → ℕ → Bool → StreamData → Client S → Option (Client S)
    push_stream time_size now expired sd h =
        if (h.streamq.write_sem == 0) && not expired
        then none
        else let (err, q, later) = Streamq.push time_size h.streamq (some sd) io4e_forever now in
          some (record h { streamq = q; thread = reading })

    -- One step of the read thread.
    unfoldable pub thread_step : ℕ → ℕ → Bool → Client S → Option (Client S)
    thread_step time_size now expired h = elim h.thread [
      | reading ↦ receive h
      | pushing sd ↦ push_stream time_size now expired sd h
      | exited ↦ none
    ]

-- What the world does around one command: whether the mutex can be locked, and how many steps the
-- read thread makes from the write until the wait on `cmd_sem` ends, and from there until the response
-- is taken. No push expires meanwhile. The wait ends with a timeout if the semaphore is still 0.
pub record Around : Type 0 where
  pub lock_ok : Bool
  pub time_size : ℕ
  pub now : ℕ
  pub wait_steps : ℕ
  pub take_steps : ℕ

-- What a command returns: the code, `*res_p` (`none` for NULL), the client.
abbrev pub Reply : Type 0 → Type 0
Reply S = Exec (Err × Option Response × Client S)

module _ {S : Type 0} (codec : Codec) (tr : Transport S) where
  -- Steps of the read thread, until it blocks.
  unfoldable pub run_thread : ℕ → ℕ → ℕ → Client S → Client S
  run_thread time_size now zero h = h
  run_thread time_size now (suc n) h = elim (thread_step codec tr time_size now false h) [
    | none ↦ h
    | some h' ↦ run_thread time_size now n h'
  ]

  -- `command` from the response on. Before the code is returned the log reads the status's name and
  -- `res->error->error`.
  unfoldable pub check_status : Bool → Response → Client S → Reply S
  check_status wants_response res h = elim res.status [
    | status_ok ↦ if wants_response then returns (ok, some res, h) else returns (ok, none, freed h)
    | _ ↦ elim res.error [
      | none ↦ fault
      | some text ↦
          if codec.in_table res.status
          then returns (map_fb_error res.status, none, freed h)
          else fault
    ]
  ]

  unfoldable pub check_response : Bool → Option Response → Client S → Reply S
  check_response wants_response none h = returns (fail, none, h)
  check_response wants_response (some res) h = elim res.context [
    | none ↦ fault
    | some value ↦
        if not (strcmp_eq value (h.cmd_context ∷ []))
        then returns (fail, none, freed h)
        else check_status wants_response res
            (record h { cmd_context = advance_context h.cmd_context })
  ]

  -- `command` from the wait on.
  unfoldable pub await : Bool → Around → Client S → Reply S
  await wants_response w h =
      let h' = run_thread w.time_size w.now w.wait_steps h in
      if h'.cmd_sem == 0
      then returns (err_timeout, none, h')
      else let h'' =
          run_thread w.time_size w.now w.take_steps (record h' { cmd_sem = h'.cmd_sem - 1 }) in
        check_response wants_response h''.cmd_response (record h'' { cmd_response = none })

  -- `command`. The buffer's room for the header holds no defined bytes before `write_msg` fills it; its
  -- length is narrowed to `uint32_t`.
  unfoldable pub command : Bool → CommandType → Around → Client S → Reply S
  command wants_response type w h =
      if not w.lock_ok
      then returns (fail, none, h)
      else let h' = record h { cmd_context = next_char h.cmd_context } in
        let marshaled =
          codec.pack (record { context = c_string (h'.cmd_context ∷ []); type = type }) in
        let header_size = tr.get_write_offset h.transport in
        elim (tr.write_msg h.transport (replicate header_size 0 ++ marshaled)
          ((length marshaled + header_size) % 2 ^ 32)) [
            | none ↦ hangs
            | some (err, s) ↦
                if not (is_ok err)
                then returns (err, none, record h' { transport = s })
                else await wants_response w (record h' { transport = s })
          ]
