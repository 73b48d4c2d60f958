-- ===== src/Handoff/Progress.antt =====
-- A command whose wait does not time out comes to its end, if its device answers it.
use io4edge_client_c.Base.{ℕ, ◌+◌, ◌*◌, ◌≡◌, ◌⊎◌, true}
use io4edge_client_c.Handoff.{
  Caller, outside, locked, waiting, woken, fetched, holding, leaving, Reader, listening, arrived,
  replacing, storing, posting, gone, Shared, Step,
}

-- Accesses by either thread while a caller has the mutex.
pub data Busy : Shared → Shared → Type 0 where
  stop : {s : Shared} → Busy s s
  more : {s t u : Shared} → ¬ (s.caller ≡ outside) → Step true s t → Busy t u → Busy s u

unfoldable pub accesses : {s t : Shared} → Busy s t → ℕ
accesses stop = 0
accesses (more b st run) = 1 + accesses run

-- How many accesses are left of the caller's and of the read thread's part.
abbrev caller_left : Caller → ℕ
caller_left outside = 0
caller_left locked = 10
caller_left waiting = 5
caller_left woken = 4
caller_left (fetched o) = 3
caller_left (holding o) = 2
caller_left leaving = 1

abbrev reader_left : Reader → ℕ
reader_left listening = 0
reader_left (arrived r) = 3
reader_left (replacing r) = 3
reader_left (storing r) = 2
reader_left (posting r) = 1
reader_left gone = 0

abbrev left : Shared → ℕ
left s = caller_left s.caller + (reader_left s.reader + 4 * s.owed)

-- A thread has something to do as long as a caller has the mutex.
Moves : Shared → Type 0
Moves s = (s.caller ≡ outside) ⊎ ((t : Shared) × Step true s t)
