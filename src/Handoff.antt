-- ===== src/Handoff.antt =====
-- How a command takes its response from the read thread, one access of the shared fields at a time:
-- `command` and `read_thread` of src/functionblock.c.
-- The mutex lets one caller at a time into `command`; a caller who waits for it is not seen here. The
-- response slot, unlike the semaphore, is read and written by both threads without a lock.
pub mod Calm
pub mod Clash
pub mod Progress
mod Tests
use io4edge_client_c.Base.{
  ℕ, ◌+◌, ◌-◌, ◌<◌, ◌≡◌, Bool, true, false, Option, none, some, ◌==◌, if◌then◌else◌,
}
use io4edge_client_c.Sem.{sem_value_max}

-- Where the caller in `command` stands. A response is the number that it was allocated under.
pub data Caller : Type 0 where
  outside : Caller  -- nobody holds the mutex
  locked : Caller  -- before the write
  waiting : Caller  -- in `sem_timedwait`
  woken : Caller  -- before `res = h->cmd_response`
  fetched : Option ℕ → Caller  -- before `h->cmd_response = NULL`, with `res`
  holding : Option ℕ → Caller  -- before the checks on `res`
  leaving : Caller  -- before the unlock

-- Where the read thread stands with a command response.
pub data Reader : Type 0 where
  listening : Reader
  arrived : ℕ → Reader  -- before the test of the slot
  replacing : ℕ → Reader  -- the slot was full: before the response in it is freed
  storing : ℕ → Reader  -- before `h->cmd_response = res`
  posting : ℕ → Reader  -- before `sem_post`
  gone : Reader

-- The two threads, the fields that they share, the responses that the device owes, and the heap: which
-- numbers are of live responses, and the next one to be allocated.
pub record Shared : Type 0 where
  pub caller : Caller
  pub reader : Reader
  pub slot : Option ℕ
  pub sem : ℕ
  pub owed : ℕ
  pub live : ℕ → Bool
  pub next : ℕ

-- The heap after an allocation or a free; `free(NULL)` does nothing.
abbrev pub with_live : ℕ → Bool → (ℕ → Bool) → ℕ → Bool
with_live r b live n = if n == r then b else live n

abbrev pub free_slot : Option ℕ → (ℕ → Bool) → ℕ → Bool
free_slot none live = live
free_slot (some r) live = with_live r false live

-- One access in `command`. `patient` callers are those whose wait never times out.
pub data CallerStep (patient : Bool) (s : Shared) : Shared → Type 0 where
  lock : s.caller ≡ outside → CallerStep patient s (record s { caller = locked })
  send : s.caller ≡ locked → CallerStep patient s (record s { caller = waiting; owed = s.owed + 1 })
  send_fails : s.caller ≡ locked → CallerStep patient s (record s { caller = leaving })
  wake :
      s.caller ≡ waiting
      → 0 < s.sem
      → CallerStep patient s (record s { caller = woken; sem = s.sem - 1 })
  time_out :
      patient ≡ false
      → s.caller ≡ waiting
      → s.sem ≡ 0
      → CallerStep patient s (record s { caller = leaving })
  fetch : s.caller ≡ woken → CallerStep patient s (record s { caller = fetched s.slot })
  clear_slot :
      (o : Option ℕ)
      → s.caller ≡ fetched o
      → CallerStep patient s (record s { caller = holding o; slot = none })
  find_null : s.caller ≡ holding none → CallerStep patient s (record s { caller = leaving })
  discard :
      (r : ℕ)
      → s.caller ≡ holding (some r)
      → CallerStep patient s (record s { caller = leaving; live = with_live r false s.live })
  hand_out :
      (r : ℕ) → s.caller ≡ holding (some r) → CallerStep patient s (record s { caller = leaving })
  unlock : s.caller ≡ leaving → CallerStep patient s (record s { caller = outside })

-- One access in `read_thread`. A device answers a command at most once.
pub data ThreadStep (s : Shared) : Shared → Type 0 where
  receive :
      s.reader ≡ listening
      → 0 < s.owed
      → ThreadStep s (record s {
        reader = arrived s.next;
        owed = s.owed - 1;
        live = with_live s.next true s.live;
        next = s.next + 1;
      })
  find_full :
      (r old : ℕ)
      → s.reader ≡ arrived r
      → s.slot ≡ some old
      → ThreadStep s (record s { reader = replacing r })
  find_empty :
      (r : ℕ)
      → s.reader ≡ arrived r
      → s.slot ≡ none
      → ThreadStep s (record s { reader = storing r })
  free_old :
      (r : ℕ)
      → s.reader ≡ replacing r
      → ThreadStep s (record s { reader = storing r; live = free_slot s.slot s.live })
  store :
      (r : ℕ) → s.reader ≡ storing r → ThreadStep s (record s { reader = posting r; slot = some r })
  post :
      (r : ℕ)
      → s.reader ≡ posting r
      → s.sem < sem_value_max
      → ThreadStep s (record s { reader = listening; sem = s.sem + 1 })
  post_fails :
      (r : ℕ)
      → s.reader ≡ posting r
      → s.sem ≡ sem_value_max
      → ThreadStep s (record s { reader = gone; live = with_live r false s.live })

-- Either thread may be the next one.
pub data Step (patient : Bool) (s : Shared) : Shared → Type 0 where
  by_caller : {t : Shared} → CallerStep patient s t → Step patient s t
  by_thread : {t : Shared} → ThreadStep s t → Step patient s t

pub data Reach (patient : Bool) (s : Shared) : Shared → Type 0 where
  here : Reach patient s s
  next : {t u : Shared} → Reach patient s t → Step patient t u → Reach patient s u

-- Nobody is in a command, and nothing is left of an earlier one.
pub record IsQuiet (s : Shared) : Type 0 where
  pub unused : s.caller ≡ outside
  pub listens : s.reader ≡ listening
  pub empty : s.slot ≡ none
  pub unposted : s.sem ≡ 0
  pub settled : s.owed ≡ 0

-- What the next access of a thread reads or frees is live: the caller's response, and the old one
-- that the read thread is about to free.
pub record IsSound (s : Shared) : Type 0 where
  pub caller_safe : (r : ℕ) → s.caller ≡ holding (some r) → s.live r ≡ true
  pub reader_safe : (r old : ℕ) → s.reader ≡ replacing r → s.slot ≡ some old → s.live old ≡ true
