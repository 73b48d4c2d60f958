-- ===== src/Client/Tests.antt =====
-- The theorems of the client at a scripted peer: src/functionblock.c.
use io4edge_client_c.Base.{get_or, ℕ, ◌+◌, ◌≡◌, ◌≢◌, refl, true, none, some, [], ◌∷◌}
use io4edge_client_c.Err.{ok}
use io4edge_client_c.Exec.{returns}
use io4edge_client_c.Client.{
  Client, reading, next_char, command, await, run_thread, thread_step, receive, dispatch, deliver,
  check_response, check_status,
}
use io4edge_client_c.Client.Bench.{
  Script, script, codec, answer, client, client-IsBalanced, ask, prompt, stream_queue,
}
use io4edge_client_c.Client.Wrap.{context_after, context_never_reset}
use io4edge_client_c.Transport.{Transport}
use io4edge_client_c.Client.Ledger.{in_slot, IsBalanced, run_thread-IsBalanced}
use io4edge_client_c.Client.Handover.{command-IsBalanced}

abbrev h0 : Client Script
h0 = client ((b'B' ∷ 9 ∷ []) ∷ [])

abbrev h1 : Client Script
h1 = record h0 { transport = []; cmd_context = b'C'; live = 1 }

answered : command codec script true ask prompt h0 ≡ returns (ok, some (answer b'B' 9), h1)
unfolding command await run_thread thread_step receive dispatch deliver check_response check_status
answered = refl

command-IsBalanced_example : IsBalanced (0 + in_slot (some (answer b'B' 9))) 0 h1
command-IsBalanced_example =
    command-IsBalanced codec script true ask prompt 0 0 h0 answered (client-IsBalanced _)

run_thread-IsBalanced_example : IsBalanced 0 0 (run_thread codec script 8 0 1 h0)
run_thread-IsBalanced_example =
    run_thread-IsBalanced codec script 8 0 0 1 0 h0 (client-IsBalanced _)

context_never_reset_example :
    (context_after b'A' 31 ≡ 127)
    × (next_char (context_after b'A' 31) ≡ 128)
    × (next_char (next_char (context_after b'A' 31)) ≢ b'Z')
context_never_reset_example = context_never_reset 31

-- A device that answers each command at once: its state is the context that it was sent last.
abbrev echo : Transport ℕ
echo = record {
  write_msg = λ s buf n. some (ok, get_or buf 6 0);
  read_msg = λ s t. some (ok, s ∷ 9 ∷ [], s);
  get_write_offset = λ s. 6;
}

abbrev echo_client : Client ℕ
echo_client = record {
  transport = 0;
  cmd_context = b'A';
  cmd_timeout = 5;
  cmd_response = none;
  cmd_sem = 0;
  streamq = stream_queue;
  thread = reading;
  live = 0;
}
