-- ===== src/Demo/MainTests.antt =====
-- Whole programs, each over a TCP connection to a scripted device.
use io4edge_client_c.Base.{
  ℕ, zero, suc, ◌+◌, ◌≡◌, refl, true, Option, none, some, List, [], ◌∷◌, ◌++◌, ◌==◌, if◌then◌else◌,
  length, replicate, arith,
}
use io4edge_client_c.Exec.{Exec, returns, hangs, fault}
use io4edge_client_c.Streamq
use io4edge_client_c.Streamq.{streamq_new}
use io4edge_client_c.Socket.{
  Arrival, select, socket_transport, read_complete, header_len, read_payload, read_frame, read_msg,
  put_header, send_all, write_msg,
}
use io4edge_client_c.Client.{
  command, await, run_thread, thread_step, receive, dispatch, deliver, push_stream, check_response,
  check_status,
}
use io4edge_client_c.Functionblock
use io4edge_client_c.Functionblock.{
  config_response, fc_response, finish, request, order, take_stream,
}
use io4edge_client_c.Blocks.{value_of}
use io4edge_client_c.Blocks.BinaryIoTypeA.{
  InputResponse, single, all, set_output, set_all_outputs, input, all_inputs,
}
use io4edge_client_c.Lifecycle.{
  World, transport_connect, transport_new, with_thread, with_transport, client_new, client_delete,
  destroy, streamq_delete,
}
use io4edge_client_c.Demo.{
  Turn, pure, ◌>>=◌, print, hold, free_value, free_stream_data, when, each, unless_ok, follow,
  take_turn, ask, fetch, tell, read_stream,
}
use io4edge_client_c.Demo.Device.{
  codec, prompt, pushed, frame, frames, grants, device, nothing_held,
}
use io4edge_client_c.Demo.Main.{Finished, run_main, leave}
use io4edge_client_c.Demo.Main.Clean.{IsClean}
use io4edge_client_c.Demo.Can
use io4edge_client_c.Demo.Can.Send.{send_main-IsClean}
use io4edge_client_c.Demo.BinaryIo
use io4edge_client_c.Demo.BinaryIo.Frees.{binary_main-IsClean}

abbrev never : {L : Type 0} → Finished L
never = record {
  ret = 1;
  held = nothing_held;
  last = none;
  left = 0;
  values = 0;
  blocks = 0;
  printed = [];
}

-- How a program that returns ends.
abbrev end : {L : Type 0} → Exec (Finished L) → Finished L
end (returns f) = f
end hangs = never
end fault = never

abbrev can : Can.Generated ℕ
can = record {
  messages = record {
    configuration_set = record { pack = λ c. []; name = [] };
    configuration_get = record { pack = λ c. []; name = [] };
    configuration_get_response = λ bytes. none;
    function_control_set = record { pack = λ f. []; name = [] };
    function_control_get = record { pack = λ c. []; name = [] };
    function_control_get_response = λ bytes. none;
    stream_control_start = record { pack = λ c. []; name = [] };
  };
  stream_data_unpack = λ bytes. none;
  names = record { error_events = []; controller_states = [] };
}

abbrev send_main : Exec (Finished Can.Line)
send_main =
    run_main (device (frames 10 b'B' 1)) (replicate 10 prompt) Can.failed_client
      (Can.send can codec (socket_transport grants) true) nothing_held

sent : send_main ≡ returns (end send_main)
unfolding Can.send Can.send_buckets Can.send_bucket Can.new_frames Can.new_frame Can.free_frame
    run_main leave ◌>>=◌ print hold pure when each unless_ok follow free_value free_stream_data
    take_turn ask fetch tell read_stream request order finish value_of config_response fc_response
    command await run_thread thread_step receive dispatch deliver push_stream check_response
    check_status Functionblock.read_stream take_stream Streamq.push Streamq.pop Streamq.push_store
    Streamq.pop_take Streamq.push_post Streamq.pop_post Streamq.advance_idx Streamq.get_timeout
    Streamq.oldest client_new transport_new transport_connect with_transport with_thread streamq_new
    client_delete destroy streamq_delete write_msg send_all put_header read_msg read_frame
    read_payload read_complete select header_len
sent = refl

sent_well : (end send_main).ret ≡ 0
unfolding Can.send Can.send_buckets Can.send_bucket Can.new_frames Can.new_frame Can.free_frame
    run_main leave ◌>>=◌ print hold pure when each unless_ok follow free_value free_stream_data
    take_turn ask fetch tell read_stream request order finish value_of config_response fc_response
    command await run_thread thread_step receive dispatch deliver push_stream check_response
    check_status Functionblock.read_stream take_stream Streamq.push Streamq.pop Streamq.push_store
    Streamq.pop_take Streamq.push_post Streamq.pop_post Streamq.advance_idx Streamq.get_timeout
    Streamq.oldest client_new transport_new transport_connect with_transport with_thread streamq_new
    client_delete destroy streamq_delete write_msg send_all put_header read_msg read_frame
    read_payload read_complete select header_len
sent_well = refl

send_main-IsClean_example : IsClean nothing_held (end send_main)
send_main-IsClean_example =
    send_main-IsClean can codec grants true (device (frames 10 b'B' 1)) (replicate 10 prompt)
      nothing_held (omega arith) sent sent_well

-- The two kinds of values that the binary I/O block answers with.
abbrev input_response : List ℕ → Option InputResponse
input_response (v ∷ _) = if v == 9 then some (all v) else some (single true)
input_response _ = none

abbrev binary_io : BinaryIo.Generated ℕ
binary_io = record {
  messages = record {
    configuration_set = record { pack = λ c. []; name = [] };
    configuration_get = record { pack = λ c. []; name = [] };
    configuration_get_response = λ bytes. some BinaryIo.config;
    configuration_describe = record { pack = λ c. []; name = [] };
    configuration_describe_response = λ bytes. none;
    function_control_set = record { pack = λ s. []; name = [] };
    function_control_get = record { pack = λ g. []; name = [] };
    function_control_get_response = input_response;
    stream_control_start = record { pack = λ m. []; name = [] };
  };
  stream_data_unpack = λ bytes. some (record { channel = 1; value = true } ∷ []);
}

-- The inputs are asked for in turn, one and all.
abbrev states : (n c : ℕ) → List Arrival
states zero c = []
states (suc n) c = frame c 2 0 ∷ frame (c + 2) 2 9 ∷ states n (c + 4)

-- The second thread sets its output once, before the stream is started.
abbrev meanwhile : ℕ → ℕ
meanwhile zero = 1
meanwhile (suc c) = 0

abbrev binary_device : World
binary_device = device (
    frame 66 3 0
      ∷ frame 68 0 0
      ∷ frame 70 1 0
      ∷ frame 72 1 0
      ∷ frame 74 1 0
      ∷ frame 76 3 0
      ∷ states 10 78
    ++ frames 10 0 4)

abbrev binary_turns : List Turn
binary_turns = replicate 26 prompt ++ replicate 10 pushed

abbrev binary_main : Exec (Finished BinaryIo.Line)
binary_main =
    run_main binary_device binary_turns BinaryIo.failed_client
      (BinaryIo.body binary_io codec (socket_transport grants) meanwhile) nothing_held

toggled : binary_main ≡ returns (end binary_main)
unfolding BinaryIo.body BinaryIo.with_stim BinaryIo.read_loop BinaryIo.take_message
    BinaryIo.input_loop BinaryIo.stim BinaryIo.stim_unless_ok set_output set_all_outputs input
    all_inputs run_main leave ◌>>=◌ print hold pure when each unless_ok follow free_value
    free_stream_data take_turn ask fetch tell read_stream request order finish value_of
    config_response fc_response command await run_thread thread_step receive dispatch deliver
    push_stream check_response check_status Functionblock.read_stream take_stream Streamq.push
    Streamq.pop Streamq.push_store Streamq.pop_take Streamq.push_post Streamq.pop_post
    Streamq.advance_idx Streamq.get_timeout Streamq.oldest client_new transport_new
    transport_connect with_transport with_thread streamq_new client_delete destroy streamq_delete
    write_msg send_all put_header read_msg read_frame read_payload read_complete select header_len
toggled = refl

toggled_well : (end binary_main).ret ≡ 0
unfolding BinaryIo.body BinaryIo.with_stim BinaryIo.read_loop BinaryIo.take_message
    BinaryIo.input_loop BinaryIo.stim BinaryIo.stim_unless_ok set_output set_all_outputs input
    all_inputs run_main leave ◌>>=◌ print hold pure when each unless_ok follow free_value
    free_stream_data take_turn ask fetch tell read_stream request order finish value_of
    config_response fc_response command await run_thread thread_step receive dispatch deliver
    push_stream check_response check_status Functionblock.read_stream take_stream Streamq.push
    Streamq.pop Streamq.push_store Streamq.pop_take Streamq.push_post Streamq.pop_post
    Streamq.advance_idx Streamq.get_timeout Streamq.oldest client_new transport_new
    transport_connect with_transport with_thread streamq_new client_delete destroy streamq_delete
    write_msg send_all put_header read_msg read_frame read_payload read_complete select header_len
toggled_well = refl

-- What the program printed: the configuration, two lines for each pass over the inputs and for each message.
toggled_lines : length (end binary_main).printed ≡ 41
unfolding BinaryIo.body BinaryIo.with_stim BinaryIo.read_loop BinaryIo.take_message
    BinaryIo.input_loop BinaryIo.stim BinaryIo.stim_unless_ok set_output set_all_outputs input
    all_inputs run_main leave ◌>>=◌ print hold pure when each unless_ok follow free_value
    free_stream_data take_turn ask fetch tell read_stream request order finish value_of
    config_response fc_response command await run_thread thread_step receive dispatch deliver
    push_stream check_response check_status Functionblock.read_stream take_stream Streamq.push
    Streamq.pop Streamq.push_store Streamq.pop_take Streamq.push_post Streamq.pop_post
    Streamq.advance_idx Streamq.get_timeout Streamq.oldest client_new transport_new
    transport_connect with_transport with_thread streamq_new client_delete destroy streamq_delete
    write_msg send_all put_header read_msg read_frame read_payload read_complete select header_len
toggled_lines = refl

binary_main-IsClean_example : IsClean nothing_held (end binary_main)
binary_main-IsClean_example =
    binary_main-IsClean binary_io codec grants meanwhile binary_device binary_turns nothing_held
      (omega arith) toggled toggled_well
