-- ===== src/Functionblock.antt =====
-- The operations of a function block client: src/functionblock.c from `MAKE_ANYPB` to
-- `io4edge_functionblock_read_stream`.
-- The marshaled messages of the blocks and their `unpack` functions are arguments, as in the code.
pub mod Answers
pub mod Requests
pub mod Reads
pub mod Wire
pub mod Streams
mod Tests
use io4edge_client_c.Base.{ℕ, ◌-◌, Bool, true, false, not, Option, none, some, List, if◌then◌else◌}
use io4edge_client_c.Err.{Err, ok, err_protobuf, is_ok}
use io4edge_client_c.Streamq
use io4edge_client_c.Transport.{Transport}
use io4edge_client_c.Exec.{Exec, returns, hangs, fault}
use io4edge_client_c.Proto.{
  Any, ProtoMsg, StreamControlStart, Configuration, config_set, config_get, config_describe,
  FunctionControl, control_set, control_get, StreamControl, start, stop, CommandType, configuration,
  function_control, stream_control, Response, ResponseType, of_configuration, of_function_control,
  got_config, described, set_done, get_done, StreamData, Codec, Unpack,
}
use io4edge_client_c.Client.{Client, Around, freed, command}

-- `MAKE_ANYPB`
abbrev pub make_anypb : ProtoMsg → Any
make_anypb m = record { type_url = m.proto_name; value = m.marshaled_msg }

-- The ACTION tags that the operations ask a configuration response for, and a function control
-- response.
pub data Action : Type 0 where
  action_get action_describe : Action

pub data Control : Type 0 where
  action_control_set action_control_get : Control

-- `is_correct_config_response`, with the member that its callers read next: `none` for false.
unfoldable pub config_response : Action → ResponseType → Option Any
config_response action_get (of_configuration (got_config a)) = some a
config_response action_describe (of_configuration (described a)) = some a
config_response _ _ = none

-- `is_correct_fc_response`, likewise.
unfoldable pub fc_response : Control → ResponseType → Option Any
fc_response action_control_set (of_function_control (set_done a)) = some a
fc_response action_control_get (of_function_control (get_done a)) = some a
fc_response _ _ = none

-- What an operation returns: the code, what it stored in `*fs_res_p` (`none`: nothing), the client.
abbrev pub Answer : Type 0 → Type 0 → Type 0
Answer S M = Exec (Err × Option M × Client S)

module _ {S M : Type 0} where
  -- An operation from the check of its response on. With no `unpack` the response's content is ignored.
  -- The response is freed on every path.
  unfoldable pub finish :
      (ResponseType → Option Any) → Option (Unpack M) → Option Response → Client S → Answer S M
  finish member unpack none h = fault
  finish member unpack (some res) h = elim (member res.type) [
    | none ↦ returns (err_protobuf, none, freed h)
    | some any ↦ elim unpack [
      | none ↦ returns (ok, none, freed h)
      | some f ↦ elim (f any.value) [
        | none ↦ returns (err_protobuf, none, freed h)
        | some fs_res ↦ returns (ok, some fs_res, freed h)
      ]
    ]
  ]

module _ {S M : Type 0} (codec : Codec) (tr : Transport S) where
  -- The text that the four operations with a response share, from the call of `command` on.
  unfoldable pub request :
      CommandType → (ResponseType → Option Any) → Option (Unpack M) → Around → Client S → Answer S M
  request type member unpack w h = elim (command codec tr true type w h) [
    | returns (err, res, h') ↦
        if not (is_ok err) then returns (err, none, h') else finish member unpack res h'
    | hangs ↦ hangs
    | fault ↦ fault
  ]

  -- `io4e_functionblock_download_configuration`
  abbrev pub download_configuration : ProtoMsg → Unpack M → Around → Client S → Answer S M
  download_configuration fs_req unpack =
      request (configuration (config_get (make_anypb fs_req))) (config_response action_get)
        (some unpack)

  -- `io4e_functionblock_describe`
  abbrev pub describe : ProtoMsg → Unpack M → Around → Client S → Answer S M
  describe fs_req unpack =
      request (configuration (config_describe (make_anypb fs_req)))
        (config_response action_describe) (some unpack)

  -- `io4e_functionblock_function_control_set`; `none` where `fs_res_p` is NULL.
  abbrev pub function_control_set : ProtoMsg → Option (Unpack M) → Around → Client S → Answer S M
  function_control_set fs_req unpack =
      request (function_control (control_set (make_anypb fs_req))) (fc_response action_control_set)
        unpack

  -- `io4e_functionblock_function_control_get`
  abbrev pub function_control_get : ProtoMsg → Unpack M → Around → Client S → Answer S M
  function_control_get fs_req unpack =
      request (function_control (control_get (make_anypb fs_req))) (fc_response action_control_get)
        (some unpack)

-- What an operation without a response returns: the code and the client.
abbrev pub Plain : Type 0 → Type 0
Plain S = Exec (Err × Client S)

module _ {S : Type 0} (codec : Codec) (tr : Transport S) where
  -- The call of `command` with a NULL for `res_p`.
  unfoldable pub order : CommandType → Around → Client S → Plain S
  order type w h = elim (command codec tr false type w h) [
    | returns (err, res, h') ↦ returns (err, h')
    | hangs ↦ hangs
    | fault ↦ fault
  ]

  -- `io4e_functionblock_upload_configuration`
  abbrev pub upload_configuration : ProtoMsg → Around → Client S → Plain S
  upload_configuration fs_msg = order (configuration (config_set (make_anypb fs_msg)))

  -- `io4e_functionblock_start_stream`. The `Any` that it stores in `*fb_config` lives on its stack.
  abbrev pub start_stream : ProtoMsg → StreamControlStart → Around → Client S → Plain S
  start_stream fs_config fb_config = order (
      stream_control (
        start
          (record fb_config { functionspecificstreamcontrolstart = some (make_anypb fs_config) })))

  -- `io4edge_functionblock_stop_stream`
  abbrev pub stop_stream : Around → Client S → Plain S
  stop_stream = order (stream_control stop)

-- What `io4edge_functionblock_read_stream` returns: the code, `*sd_p` with `*fs_data_p` (`none` for
-- two NULLs), the client and the time. `fault`: the queue held a NULL.
abbrev pub Taken : Type 0 → Type 0 → Type 0
Taken S M = Exec (Err × Option (StreamData × M) × Client S × ℕ)

module _ {S M : Type 0} where
  -- `io4edge_functionblock_read_stream` from the popped message on. On the two error paths `sd` is neither
  -- freed nor handed out.
  unfoldable pub take_stream : Unpack M → Option StreamData → Client S → ℕ → Taken S M
  take_stream unpack none h later = fault
  take_stream unpack (some sd) h later = elim sd.functionspecificstreamdata [
    | none ↦ returns (err_protobuf, none, h, later)
    | some any ↦ elim (unpack any.value) [
      | none ↦ returns (err_protobuf, none, h, later)
      | some fs_data ↦ returns (ok, some (sd, fs_data), h, later)
    ]
  ]

  -- `io4edge_functionblock_read_stream` at the time `now`; its `long timeout` comes as the `uint64_t` that
  -- `io4e_streamq_pop` takes.
  unfoldable pub read_stream : ℕ → Unpack M → ℕ → ℕ → Client S → Taken S M
  read_stream time_size unpack timeout now h =
      let (err, msg, q, later) = Streamq.pop time_size h.streamq timeout now in
      let h' = record h { streamq = q } in
      if not (is_ok err)
      then returns (err, none, h', later)
      else elim msg [ none ↦ fault | some sd ↦ take_stream unpack sd h' later ]
