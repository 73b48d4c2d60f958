-- ===== src/Functionblock/Tests.antt =====
-- The theorems of the operations at a scripted peer: src/functionblock.c.
use io4edge_client_c.Base.{Bool, true, ℕ, ◌≡◌, refl, none, some, [], ◌∷◌, arith}
use io4edge_client_c.Err.{ok}
use io4edge_client_c.Exec.{returns}
use io4edge_client_c.Streamq.{Streamq}
use io4edge_client_c.Streamq.Valid.{IsValid}
use io4edge_client_c.Streamq.Refine.{contents}
use io4edge_client_c.Proto.{StreamData, Unpack}
use io4edge_client_c.Client.{
  Client, reading, command, await, run_thread, thread_step, receive, dispatch, deliver,
  check_response, check_status,
}
use io4edge_client_c.Client.Bench.{
  Script, script, codec, client, ask, prompt, stream_data, stream_answer, stream_queue,
  stream_queue-IsValid,
}
use io4edge_client_c.Functionblock.{order, read_stream}
use io4edge_client_c.Socket.{Socket, segment, takes}
use io4edge_client_c.Functionblock.Streams.{thread_appends}
use io4edge_client_c.Functionblock.Reads.{read_stream_lem, taken_spec}

-- The value of a message is its first byte; an empty one does not unpack.
abbrev first_byte : Unpack ℕ
first_byte [] = none
first_byte (b ∷ bs) = some b

abbrev h0 : Client Script
h0 = client ((b'B' ∷ 9 ∷ []) ∷ [])

abbrev h1 : Client Script
h1 = record h0 { transport = []; cmd_context = b'C' }

ordered : order codec script ask prompt h0 ≡ returns (ok, h1)
unfolding order command await run_thread thread_step receive dispatch deliver check_response
    check_status
ordered = refl

-- A stream message without data, alone in the queue.
abbrev bare : StreamData
bare = record { deliverytimestampus = 0; sequence = 1; functionspecificstreamdata = none }

abbrev bare_queue : Streamq StreamData
bare_queue = record {
  msg = some bare ∷ none ∷ [];
  capacity = 2;
  write_idx = 1;
  read_idx = 0;
  nentries = 1;
  write_sem = 1;
  read_sem = 1;
}

bare_queue-IsValid : IsValid bare_queue
bare_queue-IsValid = record {
  ring = record {
    array = refl;
    small = omega arith;
    write_in = omega arith;
    read_in = omega arith;
    count = omega arith;
    tail = refl;
  };
  free = refl;
  used = refl;
}

abbrev streaming : Client Script
streaming = record h0 { streamq = bare_queue; live = 1 }

read_stream_lem_example :
    (q : Streamq StreamData) × (contents q ≡ [])
    × IsValid q
    × (read_stream 8 first_byte 5 100 streaming
        ≡ returns (
          (taken_spec first_byte bare).0,
          (taken_spec first_byte bare).1,
          record streaming { streamq = q },
          100,
        ))
read_stream_lem_example =
    read_stream_lem 8 first_byte 5 100 streaming bare [] bare_queue-IsValid refl

-- A client over TCP whose peer has framed the answer to its next command, and one byte more.
abbrev tcp_socket : Socket
tcp_socket = record {
  incoming = segment 0xFE (0xED ∷ 2 ∷ 0 ∷ 0 ∷ 0 ∷ []) ∷ segment b'B' (9 ∷ 0xFE ∷ []) ∷ [];
  rooms = takes 3 ∷ takes 20 ∷ [];
  sent = [];
}

abbrev tcp_client : Client Socket
tcp_client = record {
  transport = tcp_socket;
  cmd_context = b'A';
  cmd_timeout = 5;
  cmd_response = none;
  cmd_sem = 0;
  streamq = stream_queue;
  thread = reading;
  live = 0;
}

abbrev grants : ℕ → Bool
grants n = true

thread_appends_example :
    (q : Streamq StreamData) × (run_thread codec script 8 0 2 (client ((9 ∷ []) ∷ []))
      ≡ record (client []) { live = 1; streamq = q; thread = reading })
    × (contents q ≡ some (stream_data 9) ∷ [])
    × IsValid q
thread_appends_example =
    thread_appends codec script 8 0 (client ((9 ∷ []) ∷ [])) (9 ∷ []) [] (stream_answer 9)
      (stream_data 9) stream_queue-IsValid (omega arith) refl refl refl refl refl
