-- ===== src/Demo/Tests.antt =====
-- The programs under examples at scripted devices.
use io4edge_client_c.Base.{ℕ, ◌≡◌, ◌⊎◌, refl, false, none, some, List, [], ◌∷◌, arith}
use io4edge_client_c.Err.{err_timeout}
use io4edge_client_c.Exec.{returns}
use io4edge_client_c.Streamq
use io4edge_client_c.Client.{
  command, await, run_thread, thread_step, receive, dispatch, deliver, push_stream, check_response,
  check_status,
}
use io4edge_client_c.Client.Bench.{Script, script, client, client-IsBalanced}
use io4edge_client_c.Functionblock
use io4edge_client_c.Functionblock.{
  config_response, fc_response, finish, request, order, take_stream,
}
use io4edge_client_c.Demo.{
  Run, pure, ◌>>=◌, print, hold, free_value, free_stream_data, when, each, unless_ok, follow,
  take_turn, ask, tell, read_stream,
}
use io4edge_client_c.Demo.Device.{codec, prompt, pushed, late, end}
use io4edge_client_c.Demo.Ensures.{Owes}
use io4edge_client_c.Demo.Telegram.{Telegram}
use io4edge_client_c.Demo.Sniffer.{
  Generated, Line, received, no_slave_frame, failed_read, check_telegram,
}
use io4edge_client_c.Demo.Reconnect.{take_message, read_loop, handle_session}
use io4edge_client_c.Demo.CanSample.{
  Sample, data_texts, timestamp_text, error_text, state_text, sample_to_string,
}
use io4edge_client_c.Demo.Text.{append, append_all, decimal, digits, padded, name_of}
use io4edge_client_c.Demo.Can
use io4edge_client_c.Demo.Can.Frees.{dump_leaks}
use io4edge_client_c.Demo.Reconnect.Frees.{session_frees}

-- A telegram for each byte of a message: the byte is its state.
abbrev telegrams : List ℕ → List Telegram
telegrams [] = []
telegrams (s ∷ states) =
    record { timestamp = 1; address = 2; type = 0; state = s; data_bytes = 3 ∷ [] }
    ∷ telegrams states

abbrev sniffer : Generated
sniffer = record {
  messages = record {
    function_control_set = record { pack = λ m. m; name = [] };
    stream_control_start = record { pack = λ c. []; name = [] };
  };
  telegram_collection_unpack = λ bytes. some (record { entry = telegrams bytes });
  successful = 0;
  timed_out = 1;
  missed_mvb_frames = 2;
  missed_telegrams = 4;
  type_names = [];
}

abbrev session_start : Run Script Line
session_start = record {
  client = client ((b'B' ∷ 1 ∷ []) ∷ (b'D' ∷ 3 ∷ []) ∷ (5 ∷ 4 ∷ 0 ∷ 1 ∷ []) ∷ []);
  turns = prompt ∷ prompt ∷ pushed ∷ late ∷ [];
  values = 0;
  blocks = 0;
  printed = [];
}

abbrev session_end : Run Script Line
session_end = end (handle_session sniffer codec script session_start) session_start

session_returns : handle_session sniffer codec script session_start ≡ returns (1, session_end)
unfolding handle_session read_loop take_message check_telegram pure ◌>>=◌ print hold free_value
    free_stream_data when each unless_ok follow take_turn ask tell read_stream request order finish
    config_response fc_response command await run_thread thread_step receive dispatch deliver
    push_stream check_response check_status Functionblock.read_stream take_stream Streamq.push
    Streamq.pop Streamq.push_store Streamq.pop_take Streamq.push_post Streamq.pop_post
    Streamq.advance_idx Streamq.get_timeout Streamq.oldest
session_returns = refl

-- The report on the first telegram's second fellow, and the read that waits in vain.
session_lines : session_end.printed ≡ received 2 5 ∷ no_slave_frame ∷ failed_read err_timeout ∷ []
unfolding handle_session read_loop take_message check_telegram pure ◌>>=◌ print hold free_value
    free_stream_data when each unless_ok follow take_turn ask tell read_stream request order finish
    config_response fc_response command await run_thread thread_step receive dispatch deliver
    push_stream check_response check_status Functionblock.read_stream take_stream Streamq.push
    Streamq.pop Streamq.push_store Streamq.pop_take Streamq.push_post Streamq.pop_post
    Streamq.advance_idx Streamq.get_timeout Streamq.oldest
session_lines = refl

session_start-Owes : Owes 0 0 0 0 session_start
session_start-Owes = record {
  balanced = record { queue = (client-IsBalanced []).queue; counts = omega arith; owned = refl };
  unpacked = refl;
  allocated = refl;
}

session_frees_example :
    (◌≡◌ {A = ℕ} 1 0) × Owes 0 0 0 0 session_end
    ⊎ (◌≡◌ {A = ℕ} 1 1) × (Owes 0 0 0 0 session_end ⊎ Owes 1 0 0 0 session_end)
session_frees_example =
    session_frees sniffer codec script session_start session_returns session_start-Owes

abbrev no_frame : Sample
no_frame = record {
  timestamp = 1;
  isdataframe = false;
  frame = none;
  error = 0;
  controllerstate = 0;
}

-- dumpstream.c and one message of two samples.
abbrev can : Can.Generated ℕ
can = record {
  messages = record {
    configuration_set = record { pack = λ c. []; name = [] };
    configuration_get = record { pack = λ c. []; name = [] };
    configuration_get_response = λ bytes. none;
    function_control_set = record { pack = λ f. []; name = [] };
    function_control_get = record { pack = λ c. []; name = [] };
    function_control_get_response = λ bytes. none;
    stream_control_start = record { pack = λ c. []; name = [] };
  };
  stream_data_unpack = λ bytes. some (no_frame ∷ no_frame ∷ []);
  names = record { error_events = []; controller_states = [] };
}

abbrev dump_start : Run Script Can.Line
dump_start = record {
  client = client ((b'B' ∷ 3 ∷ []) ∷ (5 ∷ 4 ∷ []) ∷ []);
  turns = prompt ∷ pushed ∷ [];
  values = 0;
  blocks = 0;
  printed = [];
}

abbrev dump_end : Run Script Can.Line
dump_end = end (Can.dump can codec script 1 dump_start) dump_start

dumped : Can.dump can codec script 1 dump_start ≡ returns (0, dump_end)
unfolding Can.dump Can.dump_loop Can.dump_message Can.print_sample data_texts error_text state_text
    timestamp_text sample_to_string append append_all decimal digits padded name_of ◌>>=◌ print hold
    pure each unless_ok follow take_turn tell read_stream order command await run_thread thread_step
    receive dispatch deliver push_stream check_response check_status Functionblock.read_stream
    take_stream Streamq.push Streamq.pop Streamq.push_store Streamq.pop_take Streamq.push_post
    Streamq.pop_post Streamq.advance_idx Streamq.get_timeout Streamq.oldest
dumped = refl

dump_start-Owes : Owes 0 0 0 0 dump_start
dump_start-Owes = record {
  balanced = record { queue = (client-IsBalanced []).queue; counts = omega arith; owned = refl };
  unpacked = refl;
  allocated = refl;
}

dump_leaks_example : Owes 1 1 0 0 dump_end
dump_leaks_example = dump_leaks can codec script 1 dump_start dumped dump_start-Owes
