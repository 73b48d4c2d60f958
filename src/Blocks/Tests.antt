-- ===== src/Blocks/Tests.antt =====
-- The theorems of the blocks' getters at a scripted peer: src/binaryiotypea.c.
use io4edge_client_c.Base.{ℕ, Bool, ◌==◌, ◌≡◌, refl, true, none, some, [], ◌∷◌}
use io4edge_client_c.Err.{ok}
use io4edge_client_c.Exec.{returns}
use io4edge_client_c.Proto.{Unpack}
use io4edge_client_c.Client.{
  Client, reading, command, await, run_thread, thread_step, receive, dispatch, deliver,
  check_response, check_status,
}
use io4edge_client_c.Client.Bench.{stream_queue, Script, script, codec, client, prompt}
use io4edge_client_c.Socket.{Socket, segment, takes}
use io4edge_client_c.Functionblock.{fc_response, finish, request}
use io4edge_client_c.Blocks.{Packer, value_of}
use io4edge_client_c.Blocks.BinaryIoTypeA.{Messages, InputResponse, single, input}

-- Every request packs to nothing.
abbrev packs_nothing : {M : Type 0} → Packer M
packs_nothing = record { pack = λ m. []; name = [] }

abbrev unpack_input : Unpack InputResponse
unpack_input (b ∷ bs) = some (single (b == 1))
unpack_input [] = none

abbrev first_byte : Unpack ℕ
first_byte [] = none
first_byte (b ∷ bs) = some b

abbrev pb : Messages ℕ ℕ ℕ
pb = record {
  configuration_set = packs_nothing;
  configuration_get = packs_nothing;
  configuration_get_response = first_byte;
  configuration_describe = packs_nothing;
  configuration_describe_response = first_byte;
  function_control_set = packs_nothing;
  function_control_get = packs_nothing;
  function_control_get_response = unpack_input;
  stream_control_start = packs_nothing;
}

abbrev h0 : Client Script
h0 = client ((b'B' ∷ 1 ∷ 0 ∷ []) ∷ [])

abbrev h1 : Client Script
h1 = record h0 { transport = []; cmd_context = b'C' }

asked : input pb codec script 3 prompt h0 ≡ returns (ok, some true, h1)
unfolding input value_of request finish fc_response command await run_thread thread_step receive
    dispatch deliver check_response check_status
asked = refl

-- A client over TCP whose peer has framed the answer to its next command.
abbrev tcp_client : Client Socket
tcp_client = record {
  transport = record {
    incoming = segment 0xFE (0xED ∷ 3 ∷ 0 ∷ 0 ∷ 0 ∷ b'B' ∷ 1 ∷ 0 ∷ []) ∷ [];
    rooms = takes 20 ∷ [];
    sent = [];
  };
  cmd_context = b'A';
  cmd_timeout = 5;
  cmd_response = none;
  cmd_sem = 0;
  streamq = stream_queue;
  thread = reading;
  live = 0;
}

abbrev grants : ℕ → Bool
grants n = true
