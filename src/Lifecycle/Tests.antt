-- ===== src/Lifecycle/Tests.antt =====
-- The theorems on setting up and deleting a client at concrete answers of the system:
-- src/functionblock.c.
use io4edge_client_c.Base.{◌≡◌, ◌⊎◌, refl, true, false, none, some, Option, [], replicate}
use io4edge_client_c.Err.{Err, ok, is_ok}
use io4edge_client_c.Socket.{Socket}
use io4edge_client_c.Streamq.{Streamq, streamq_new}
use io4edge_client_c.Proto.{StreamData}
use io4edge_client_c.Client.{Client}
use io4edge_client_c.Lifecycle.{
  Held, World, transport_connect, transport_new, with_thread, with_transport, client_new, fresh,
}
use io4edge_client_c.Lifecycle.Balance.{Made, client_new_cases}

-- A system that grants everything.
abbrev granting : World
granting = record {
  client_block = true;
  handle_block = true;
  queue_blocks = record { queue = true; array = true };
  resolves = true;
  socket = true;
  connects = true;
  connection = record { incoming = []; rooms = []; sent = [] };
  thread_created = true;
}

abbrev nothing_held : Held
nothing_held = record { blocks = 0; sockets = 0; threads = 0 }

abbrev new_queue : Streamq StreamData
new_queue = record {
  msg = replicate 100 none;
  capacity = 100;
  write_idx = 0;
  read_idx = 0;
  nentries = 0;
  write_sem = 100;
  read_sem = 0;
}

abbrev new_client : Client Socket
new_client = fresh granting.connection new_queue 5

abbrev held_after : Held
held_after = record { blocks = 4; sockets = 1; threads = 1 }

created : client_new granting 5 nothing_held ≡ (ok, some new_client, held_after)
unfolding client_new transport_new transport_connect with_transport with_thread streamq_new
created = refl

client_new_cases_example :
    ((c : Option (Client Socket)) × (r' : Held) × (client_new granting 5 nothing_held ≡ (ok, c, r'))
      × Made granting 5 nothing_held c r')
    ⊎ ((e : Err) × (is_ok e ≡ false)
        × (client_new granting 5 nothing_held ≡ (e, none, nothing_held)))
client_new_cases_example = client_new_cases granting 5 nothing_held
