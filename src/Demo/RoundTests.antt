-- ===== src/Demo/RoundTests.antt =====
-- Rounds of examples/mvbsniffer/reconnect.c, with and without a device.
use io4edge_client_c.Base.{ℕ, ◌≡◌, refl, false, none, List, [], ◌∷◌}
use io4edge_client_c.Err.{fail, err_no_mem, err_timeout}
use io4edge_client_c.Exec.{Exec, returns}
use io4edge_client_c.Streamq
use io4edge_client_c.Streamq.{streamq_new}
use io4edge_client_c.Socket.{
  select, read_complete, header_len, read_payload, read_frame, read_msg, put_header, send_all,
  write_msg,
}
use io4edge_client_c.Client.{
  command, await, run_thread, thread_step, receive, dispatch, deliver, push_stream, check_response,
  check_status,
}
use io4edge_client_c.Functionblock
use io4edge_client_c.Functionblock.{
  config_response, fc_response, finish, request, order, take_stream,
}
use io4edge_client_c.Blocks.{value_of}
use io4edge_client_c.Lifecycle.{
  Held, World, transport_connect, transport_new, with_thread, with_transport, client_new,
  client_delete, destroy, streamq_delete, give_up,
}
use io4edge_client_c.Demo.{
  Turn, pure, ◌>>=◌, print, hold, free_value, free_stream_data, when, each, unless_ok, follow,
  take_turn, ask, fetch, tell, read_stream,
}
use io4edge_client_c.Demo.Device.{codec, prompt, frames, grants, device, nothing_held}
use io4edge_client_c.Demo.Sniffer.{
  Generated, Line, reconnecting, failed_client, failed_start, failed_stream,
}
use io4edge_client_c.Demo.Reconnect.{handle_session, round, rounds}
use io4edge_client_c.Demo.Reconnect.Rounds.{rounds_hold_nothing}

abbrev sniffer : Generated
sniffer = record {
  messages = record {
    function_control_set = record { pack = λ m. []; name = [] };
    stream_control_start = record { pack = λ c. []; name = [] };
  };
  telegram_collection_unpack = λ bytes. none;
  successful = 0;
  timed_out = 1;
  missed_mvb_frames = 2;
  missed_telegrams = 4;
  type_names = [];
}

-- A round without memory for a client, one whose stream is not started in time, and one whose device is not there.
abbrev worlds : List (World × List Turn)
worlds =
    (record (device []) { client_block = false }, [])
    ∷ (device (frames 1 b'B' 1), prompt ∷ prompt ∷ [])
    ∷ (record (device []) { connects = false }, [])
    ∷ []

abbrev all_rounds : Exec (Held × ℕ × List Line)
all_rounds = rounds sniffer codec grants worlds nothing_held []

reconnected :
    all_rounds
    ≡ returns (
      nothing_held,
      0,
      reconnecting
          ∷ failed_client err_no_mem
          ∷ reconnecting
          ∷ failed_start err_timeout
          ∷ failed_stream
          ∷ reconnecting
          ∷ failed_client fail
          ∷ [],
    )
unfolding handle_session round rounds ◌>>=◌ print hold pure when each unless_ok follow free_value
    free_stream_data take_turn ask fetch tell read_stream request order finish value_of
    config_response fc_response command await run_thread thread_step receive dispatch deliver
    push_stream check_response check_status Functionblock.read_stream take_stream Streamq.push
    Streamq.pop Streamq.push_store Streamq.pop_take Streamq.push_post Streamq.pop_post
    Streamq.advance_idx Streamq.get_timeout Streamq.oldest client_new transport_new
    transport_connect with_transport with_thread streamq_new client_delete destroy streamq_delete
    write_msg send_all put_header read_msg read_frame read_payload read_complete select header_len
    give_up
reconnected = refl

rounds_hold_nothing_example : nothing_held ≡ nothing_held
rounds_hold_nothing_example =
    rounds_hold_nothing sniffer codec grants worlds nothing_held [] reconnected
