-- ===== src/Session/Tests.antt =====
-- The theorems on sessions at a scripted peer, and at a TCP connection: src/functionblock.c.
use io4edge_client_c.Base.{ℕ, Bool, true, ◌≡◌, refl, none, some, List, [], ◌∷◌, replicate, arith}
use io4edge_client_c.Err.{ok}
use io4edge_client_c.Exec.{returns}
use io4edge_client_c.Proto.{StreamData, Unpack}
use io4edge_client_c.Streamq.{Streamq, streamq_new}
use io4edge_client_c.Socket.{
  Socket, segment, takes, select, socket_transport, read_complete, header_len, read_payload,
  read_frame, read_msg, put_header, send_all, write_msg,
}
use io4edge_client_c.Client.{
  Client, command, await, run_thread, thread_step, receive, dispatch, deliver, check_response,
  check_status,
}
use io4edge_client_c.Client.Ledger.{IsBalanced}
use io4edge_client_c.Client.Bench.{Script, script, codec, client, client-IsBalanced, prompt}
use io4edge_client_c.Client.Bench
use io4edge_client_c.Functionblock.{config_response, action_get, finish, request}
use io4edge_client_c.Lifecycle.{
  Held, World, transport_connect, transport_new, with_thread, with_transport, client_new,
  client_delete, fresh,
}
use io4edge_client_c.Session.{Event, ask, idle, Account, happen, session}
use io4edge_client_c.Session.Accounts.{session-IsBalanced}
use io4edge_client_c.Session.Life.{life}

-- The value of a message is its first byte; an empty one does not unpack.
abbrev first_byte : Unpack ℕ
first_byte [] = none
first_byte (b ∷ bs) = some b

-- One request, and a step of the thread after it.
abbrev events : List (Event ℕ)
events = ask Bench.ask (config_response action_get) (some first_byte) prompt ∷ idle 8 0 1 ∷ []

-- The thread's second step finds a response that nobody waits for.
abbrev before : Account Script
before = record { client = client ((b'B' ∷ 9 ∷ []) ∷ (b'D' ∷ 7 ∷ []) ∷ []); handed = 0; lost = 0 }

abbrev after : Account Script
after = record {
  client = record (client []) {
    cmd_context = b'C';
    cmd_response = some (Bench.answer b'D' 7);
    cmd_sem = 1;
    live = 1;
  };
  handed = 0;
  lost = 0;
}

used : session codec script events before ≡ returns after
unfolding session happen request finish config_response command await run_thread thread_step receive
    dispatch deliver check_response check_status
used = refl

session-IsBalanced_example : IsBalanced 0 0 (after.client)
session-IsBalanced_example =
    session-IsBalanced codec script events before 0 used
      (record { queue = (client-IsBalanced []).queue; counts = omega arith; owned = refl })

-- A system that grants everything, and a peer that answers the first command.
abbrev granting : World
granting = record {
  client_block = true;
  handle_block = true;
  queue_blocks = record { queue = true; array = true };
  resolves = true;
  socket = true;
  connects = true;
  connection = record {
    incoming = segment 0xFE (0xED ∷ 2 ∷ 0 ∷ 0 ∷ 0 ∷ b'B' ∷ 9 ∷ []) ∷ [];
    rooms = takes 20 ∷ [];
    sent = [];
  };
  thread_created = true;
}

abbrev grants : ℕ → Bool
grants n = true

abbrev nothing_held : Held
nothing_held = record { blocks = 0; sockets = 0; threads = 0 }

abbrev held_after : Held
held_after = record { blocks = 4; sockets = 1; threads = 1 }

abbrev new_queue : Streamq StreamData
new_queue = record {
  msg = replicate 100 none;
  capacity = 100;
  write_idx = 0;
  read_idx = 0;
  nentries = 0;
  write_sem = 100;
  read_sem = 0;
}

abbrev new_client : Client Socket
new_client = fresh granting.connection new_queue 5

created : client_new granting 5 nothing_held ≡ (ok, some new_client, held_after)
unfolding client_new transport_new transport_connect with_transport with_thread streamq_new
created = refl

abbrev one_request : List (Event ℕ)
one_request = ask Bench.ask (config_response action_get) (some first_byte) prompt ∷ []

abbrev left : Account Socket
left = record {
  client = record new_client {
    transport = record {
      incoming = [];
      rooms = [];
      sent = 0xFE ∷ 0xED ∷ 1 ∷ 0 ∷ 0 ∷ 0 ∷ b'B' ∷ [];
    };
    cmd_context = b'C';
  };
  handed = 0;
  lost = 0;
}

spent :
    session codec
      (socket_transport grants)
      one_request
      (record { client = new_client; handed = 0; lost = 0 })
    ≡ returns left
unfolding session happen request finish config_response command await run_thread thread_step receive
    dispatch deliver check_response check_status write_msg send_all put_header read_msg read_frame
    read_payload read_complete select header_len
spent = refl

life_example : client_delete (some left.client) held_after ≡ (ok, nothing_held, 0)
life_example = life codec grants granting 5 nothing_held one_request created (omega arith) spent
