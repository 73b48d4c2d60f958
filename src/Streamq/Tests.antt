-- ===== src/Streamq/Tests.antt =====
-- The theorems of the queue at a queue of two messages: src/streamq.c.
use io4edge_client_c.Base.{
  ℕ, ◌+◌, ◌≤◌, ◌≡◌, refl, true, none, some, [], ◌∷◌, ◌++◌, length, arith, min,
}
use io4edge_client_c.Streamq.{Streamq, Calloc, get_timeout}
use io4edge_client_c.Streamq.Valid.{IsValid}
use io4edge_client_c.Streamq.Fifo.{put, get, run_spec}
use io4edge_client_c.Streamq.Refine.{contents, run, run_refines}
use io4edge_client_c.Streamq.Timeout.{get_timeout_lem}
use io4edge_client_c.Streamq.Threads.{
  System, Reach, here, next, push_waits, pop_waits, at_rest, threads_fifo, threads_no_overrun,
}

-- A queue of two slots with no message, and one with the message 7 in its last slot.
abbrev empty_queue : Streamq ℕ
empty_queue = record {
  msg = none ∷ none ∷ [];
  capacity = 2;
  write_idx = 0;
  read_idx = 0;
  nentries = 0;
  write_sem = 2;
  read_sem = 0;
}

abbrev one_queue : Streamq ℕ
one_queue = record {
  msg = none ∷ some 7 ∷ [];
  capacity = 2;
  write_idx = 0;
  read_idx = 1;
  nentries = 1;
  write_sem = 1;
  read_sem = 1;
}

abbrev full_queue : Streamq ℕ
full_queue = record {
  msg = some 8 ∷ some 7 ∷ [];
  capacity = 2;
  write_idx = 1;
  read_idx = 1;
  nentries = 2;
  write_sem = 0;
  read_sem = 2;
}

empty_queue-IsValid : IsValid empty_queue
empty_queue-IsValid = record {
  ring = record {
    array = refl;
    small = omega arith;
    write_in = omega arith;
    read_in = omega arith;
    count = omega arith;
    tail = refl;
  };
  free = refl;
  used = refl;
}

one_queue-IsValid : IsValid one_queue
one_queue-IsValid = record {
  ring = record {
    array = refl;
    small = omega arith;
    write_in = omega arith;
    read_in = omega arith;
    count = omega arith;
    tail = refl;
  };
  free = refl;
  used = refl;
}

full_queue-IsValid : IsValid full_queue
full_queue-IsValid = record {
  ring = record {
    array = refl;
    small = omega arith;
    write_in = omega arith;
    read_in = omega arith;
    count = omega arith;
    tail = refl;
  };
  free = refl;
  used = refl;
}

-- A push of 5 and a pop, both inside their calls: the push has stored, the pop has yet to take.
abbrev waiting : System ℕ
waiting = record (at_rest one_queue) {
  q = record one_queue { write_sem = 0 };
  storing = some 5 ∷ [];
}

pushed_and_waited :
    Reach
      (at_rest one_queue)
      (record waiting { q = record one_queue { write_sem = 0; read_sem = 0 }; taking = 1 })
pushed_and_waited = next (next here (push_waits (some 5) (omega arith))) (pop_waits (omega arith))

threads_fifo_example :
    ((some 7 ∷ []) ≡ [] ++ contents (record one_queue { write_sem = 0; read_sem = 0 })) × (1 ≤ 2)
threads_fifo_example = threads_fifo one_queue-IsValid pushed_and_waited

threads_no_overrun_example : (1 + length (waiting.storing) ≤ 2) × (1 ≤ 1)
threads_no_overrun_example = threads_no_overrun one_queue-IsValid pushed_and_waited

run_refines_example :
    run 8 0 one_queue (put (some 3) 5 ∷ put (some 4) 5 ∷ get 1 ∷ [])
    ≡ run_spec 2 (contents one_queue) (put (some 3) 5 ∷ put (some 4) 5 ∷ get 1 ∷ [])
run_refines_example =
    run_refines 8 0 (put (some 3) 5 ∷ put (some 4) 5 ∷ get 1 ∷ []) one_queue-IsValid

abbrev granted : Calloc
granted = record { queue = true; array = true }

get_timeout_lem_example :
    (get_timeout 4 1000 10_000_000_000 ≡ min (1000 + 10_000_000_000) 0x7fff_ffff)
    × (get_timeout 8 1000 10_000_000_000 ≡ 1000 + 10_000_000_000)
get_timeout_lem_example = get_timeout_lem 1000 10_000_000_000 (omega arith)
