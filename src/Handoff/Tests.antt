-- ===== src/Handoff/Tests.antt =====
-- One command, one access after another: src/functionblock.c.
use io4edge_client_c.Base.{refl, true, false, none, some}
use io4edge_client_c.Handoff.{
  outside, waiting, holding, leaving, listening, Shared, with_live, Reach, next, IsQuiet, IsSound,
}
use io4edge_client_c.Handoff.Clash.{IsClash, timeout-IsClash}

abbrev start : Shared
start = record {
  caller = outside;
  reader = listening;
  slot = none;
  sem = 0;
  owed = 0;
  live = λ n. false;
  next = 0;
}

start-IsQuiet : IsQuiet start
start-IsQuiet = record {
  unused = refl;
  listens = refl;
  empty = refl;
  unposted = refl;
  settled = refl;
}

abbrev sent : Shared
sent = record start { caller = waiting; owed = 1 }

abbrev posted : Shared
posted = record start {
  caller = waiting;
  slot = some 0;
  sem = 1;
  live = with_live 0 true (λ n. false);
  next = 1;
}

abbrev taken : Shared
taken = record posted { caller = holding (some 0); slot = none; sem = 0 }

abbrev given : Shared
given = record taken { caller = leaving }

abbrev ended : Shared
ended = record taken { caller = outside }

timeout-IsClash_example : (t : Shared) × Reach false start t × IsClash t × (¬ IsSound t)
timeout-IsClash_example = timeout-IsClash start start-IsQuiet
