-- ===== src/Streamq.antt =====
-- The bounded queue between the read thread and the reader of a stream: src/streamq.c and
-- `streamq_t` of src/io4edge_internal.h.
-- Each blocking call is the composition of the three parts between which other threads may act:
-- the wait on one semaphore, the section under the mutex, the post of the other semaphore.
pub mod Timeout
pub mod Fifo
pub mod Valid
pub mod Refine
pub mod Threads
mod Tests
mod UnitTests
use io4edge_client_c.Base.{
  ℕ, ◌+◌, ◌-◌, ◌%◌, ◌^◌, Bool, Option, none, some, List, [], get_or, set, replicate, leb, ltb, ◌==◌,
  ◌&&◌, if◌then◌else◌,
}
use io4edge_client_c.Err.{Err, ok, err_timeout, err_no_mem}
use io4edge_client_c.Sem.{sem_init, sem_post, sem_timedwait}

-- `streamq_t`. An `int` field is held as its bit pattern below 2 ^ 32; a `void *` is an option, NULL
-- its `none`. The mutex shows in what is one step.
pub record Streamq {ℓ} (A : Type ℓ) : Type ℓ where
  pub msg : List (Option A)
  pub capacity : ℕ
  pub write_idx : ℕ
  pub read_idx : ℕ
  pub nentries : ℕ
  pub write_sem : ℕ
  pub read_sem : ℕ

-- A `size_t` stored to an `int`, and an `int` read as a `size_t`.
abbrev pub to_int : ℕ → ℕ
to_int x = x % 2 ^ 32

abbrev pub int_to_size : ℕ → ℕ
int_to_size w = if ltb w (2 ^ 31) then w else w + (2 ^ 64 - 2 ^ 32)

-- What the two `calloc` calls of `streamq_new` answer.
pub record Calloc : Type 0 where
  pub queue : Bool
  pub array : Bool

module _ {ℓ} {A : Type ℓ} where
  -- `io4e_streamq_new`: `none` where `*q_p` is left alone. `sem_init` takes an `unsigned int`.
  unfoldable pub streamq_new : Calloc → ℕ → Err × Option (Streamq A)
  streamq_new alloc capacity =
      if alloc.queue
      then (if alloc.array
          then (
            ok,
            some (record {
              msg = replicate capacity none;
              capacity = capacity;
              write_idx = 0;
              read_idx = 0;
              nentries = 0;
              write_sem = sem_init (capacity % 2 ^ 32);
              read_sem = sem_init 0;
            }),
          )
          else (err_no_mem, none))
      else (err_no_mem, none)

  -- `advance_idx`, from the `int` index to the `int` that is stored.
  unfoldable pub advance_idx : Streamq A → ℕ → ℕ
  advance_idx q idx = to_int (((int_to_size idx + 1) % 2 ^ 64) % q.capacity)

  -- The section of `io4e_streamq_push` under the mutex.
  unfoldable pub push_store : Streamq A → Option A → Streamq A
  push_store q m = record q {
    msg = set q.msg (int_to_size q.write_idx) m;
    write_idx = advance_idx q q.write_idx;
    nentries = to_int (q.nentries + 1);
  }

  -- `sem_post(&q->read_sem)`, its result dropped.
  unfoldable pub push_post : Streamq A → Streamq A
  push_post q = elim (sem_post q.read_sem) [ none ↦ q | some v ↦ record q { read_sem = v } ]

  -- The message that `io4e_streamq_pop` reads under the mutex.
  unfoldable pub oldest : Streamq A → Option A
  oldest q = get_or q.msg (int_to_size q.read_idx) none

  -- The section of `io4e_streamq_pop` under the mutex.
  unfoldable pub pop_take : Streamq A → Streamq A
  pop_take q = record q {
    read_idx = advance_idx q q.read_idx;
    nentries = to_int (q.nentries + (2 ^ 32 - 1));
  }

  -- `sem_post(&q->write_sem)`, its result dropped.
  unfoldable pub pop_post : Streamq A → Streamq A
  pop_post q = elim (sem_post q.write_sem) [ none ↦ q | some v ↦ record q { write_sem = v } ]

  -- `io4e_streamq_entries`
  pub entries : Streamq A → ℕ
  entries q = int_to_size q.nentries

-- `get_timeout`, on a platform whose `time_t` has `time_size` bytes, at the clock's second `now`. A
-- 64-bit `tv_sec` is signed, so a value from 2 ^ 63 on is a time before 1970, given here as 0. The
-- nanoseconds are the clock's own and stay out.
unfoldable pub get_timeout : ℕ → ℕ → ℕ → ℕ
get_timeout time_size now timeout =
    let until = (now + timeout) % 2 ^ 64 in
    if (time_size == 4) && ltb 0x7fff_ffff until
    then 0x7fff_ffff
    else if leb (2 ^ 63) until
    then 0
    else until

module _ {ℓ} {A : Type ℓ} (time_size : ℕ) where
  -- `io4e_streamq_push` at the time `now`: the code, the queue, and the time at which it returns.
  unfoldable pub push : Streamq A → Option A → ℕ → ℕ → Err × Streamq A × ℕ
  push q m timeout now =
      let (value, later) = sem_timedwait q.write_sem (get_timeout time_size now timeout) now in
      elim value [
        | none ↦ (err_timeout, q, later)
        | some v ↦ (ok, push_post (push_store (record q { write_sem = v }) m), later)
      ]

  -- `io4e_streamq_pop`; `*msg_p` is written on success only (`none` where it is left alone).
  unfoldable pub pop : Streamq A → ℕ → ℕ → Err × Option (Option A) × Streamq A × ℕ
  pop q timeout now =
      let (value, later) = sem_timedwait q.read_sem (get_timeout time_size now timeout) now in
      elim value [
        | none ↦ (err_timeout, none, q, later)
        | some v ↦ (
          ok,
          some (oldest (record q { read_sem = v })),
          pop_post (pop_take (record q { read_sem = v })),
          later,
        )
      ]
