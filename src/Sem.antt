-- ===== src/Sem.antt =====
-- The POSIX counting semaphore, as far as src/streamq.c and src/functionblock.c use it.
-- A semaphore is its value. A wait is one that no other thread answers while it blocks; the calls
-- of other threads are steps of their own in `Streamq.Threads`.
use io4edge_client_c.Base.{ℕ, ◌+◌, ◌-◌, ◌^◌, max, Option, none, some, leb, ltb, ◌==◌, if◌then◌else◌}

abbrev pub sem_value_max : ℕ
sem_value_max = 2 ^ 31 - 1

-- `sem_init` refuses a value above SEM_VALUE_MAX and leaves the zeroed memory as it is.
abbrev pub sem_init : ℕ → ℕ
sem_init value = if leb value sem_value_max then value else 0

-- `sem_post`: `none` is the failure EOVERFLOW, which leaves the value as it is.
abbrev pub sem_post : ℕ → Option ℕ
sem_post value = if ltb value sem_value_max then some (value + 1) else none

-- `sem_timedwait` at time `now`: the value after the call, `none` on a timeout, and the time at
-- which the call returns.
abbrev pub sem_timedwait : ℕ → ℕ → ℕ → Option ℕ × ℕ
sem_timedwait value deadline now =
    if value == 0 then (none, max now deadline) else (some (value - 1), now)
