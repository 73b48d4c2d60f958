-- ===== src/Client/Bench.antt =====
-- A transport, a codec and a client for the tests.
use io4edge_client_c.Base.{ℕ, true, none, some, List, [], ◌∷◌, Option, arith, refl}
use io4edge_client_c.Err.{Err, ok, err_timeout}
use io4edge_client_c.Streamq.{Streamq}
use io4edge_client_c.Streamq.Valid.{IsValid}
use io4edge_client_c.Transport.{Transport}
use io4edge_client_c.Proto.{
  Response, of_configuration, of_function_control, of_stream, got_config, get_done, status_ok,
  StreamData, Codec, CommandType, configuration, config_get,
}
use io4edge_client_c.Client.{Client, reading, Around}
use io4edge_client_c.Client.Ledger.{IsBalanced}

-- A peer that has these messages ready, and takes everything that is written.
abbrev pub Script : Type 0
Script = List (List ℕ)

abbrev pub read_script : Script → Err × List ℕ × Script
read_script [] = (err_timeout, [], [])
read_script (m ∷ ms) = (ok, m, ms)

abbrev pub script : Transport Script
script = record {
  write_msg = λ s buf n. some (ok, s);
  read_msg = λ s t. some (read_script s);
  get_write_offset = λ s. 6;
}

-- A response is written as its context and the one byte of its value.
abbrev pub answer : ℕ → ℕ → Response
answer c v = record {
  type = of_configuration (got_config (record { type_url = []; value = v ∷ [] }));
  context = some (c ∷ []);
  status = status_ok;
  error = none;
}

abbrev pub control_answer : ℕ → ℕ → Response
control_answer c v = record {
  type = of_function_control (get_done (record { type_url = []; value = v ∷ [] }));
  context = some (c ∷ []);
  status = status_ok;
  error = none;
}

-- Stream data of one byte, in a message that is written as that byte alone.
abbrev pub stream_data : ℕ → StreamData
stream_data v = record {
  deliverytimestampus = 0;
  sequence = 1;
  functionspecificstreamdata = some (record { type_url = []; value = v ∷ [] });
}

abbrev pub stream_answer : ℕ → Response
stream_answer v = record {
  type = of_stream (stream_data v);
  context = none;
  status = status_ok;
  error = none;
}

abbrev pub unpack : List ℕ → Option Response
unpack (v ∷ []) = some (stream_answer v)
unpack (c ∷ v ∷ []) = some (answer c v)
unpack (c ∷ v ∷ more) = some (control_answer c v)
unpack _ = none

abbrev pub codec : Codec
codec = record { pack = λ c. c.context; unpack = unpack; in_table = λ s. true }

abbrev pub stream_queue : Streamq StreamData
stream_queue = record {
  msg = none ∷ none ∷ [];
  capacity = 2;
  write_idx = 0;
  read_idx = 0;
  nentries = 0;
  write_sem = 2;
  read_sem = 0;
}

pub stream_queue-IsValid : IsValid stream_queue
stream_queue-IsValid = record {
  ring = record {
    array = refl;
    small = omega arith;
    write_in = omega arith;
    read_in = omega arith;
    count = omega arith;
    tail = refl;
  };
  free = refl;
  used = refl;
}

-- A client with its first context whose next command, sent as 'B', is answered.
abbrev pub client : Script → Client Script
client s = record {
  transport = s;
  cmd_context = b'A';
  cmd_timeout = 5;
  cmd_response = none;
  cmd_sem = 0;
  streamq = stream_queue;
  thread = reading;
  live = 0;
}

pub client-IsBalanced : (s : Script) → IsBalanced 0 1 (client s)
client-IsBalanced s = record { queue = stream_queue-IsValid; counts = omega arith; owned = refl }

abbrev pub ask : CommandType
ask = configuration (config_get (record { type_url = []; value = [] }))

-- The response arrives before the wait ends, and nothing after it.
abbrev pub prompt : Around
prompt = record { lock_ok = true; time_size = 8; now = 0; wait_steps = 1; take_steps = 0 }
