-- ===== src/Streamq/Timeout.antt =====
-- When a blocked call gives up: `get_timeout` of src/streamq.c.
use io4edge_client_c.Base.{
  ℕ, ◌+◌, ◌-◌, ◌^◌, ◌≤◌, ◌<◌, min, ◌≡◌, Option, none, max, true, arith, ◌==◌,
}
use io4edge_client_c.Err.{err_timeout}
use io4edge_client_c.Streamq.{Streamq, get_timeout, push, pop}
use io4edge_client_c.Streamq.Valid.{IsValid, push-eq, pop-eq}

-- With a 4-byte `time_t` the deadline is the sum, capped at the greatest time; with an 8-byte one it
-- is the sum. No `uint64_t` wraps while the sum stays below 2 ^ 63.
pub get_timeout_lem :
    (now timeout : ℕ)
    → now + timeout < 2 ^ 63
    → (get_timeout 4 now timeout ≡ min (now + timeout) 0x7fff_ffff)
      × (get_timeout 8 now timeout ≡ now + timeout)
unfolding get_timeout
get_timeout_lem now timeout h = (ground arith, ground arith)

-- A negative `long` turned into `uint64_t` is a deadline in the past.
pub get_timeout_negative :
    (now k : ℕ) → 0 < k → k ≤ now → now < 2 ^ 63 → get_timeout 8 now (2 ^ 64 - k) ≡ now - k
unfolding get_timeout
get_timeout_negative now k p h small = ground arith

module _ {ℓ} {A : Type ℓ} where
  -- With no other thread at work, a push to a full valid queue gives up after `timeout` seconds, with
  -- IO4E_ERR_TIMEOUT and the queue as it was, if the deadline is below 2 ^ 63 and `time_t` has 8 bytes.
  push_times_out :
      {q : Streamq A} (m : Option A) (timeout now : ℕ)
      → IsValid q
      → q.nentries ≡ q.capacity
      → now + timeout < 2 ^ 63
      → push 8 q m timeout now ≡ (err_timeout, q, now + timeout)
  push_times_out {q} m timeout now v full h =
      let e : (q.write_sem == 0) ≡ true = ground arith in
      let later : max now (get_timeout 8 now timeout) ≡ now + timeout =
        omega (arith, get_timeout_lem now timeout h) in
      rw (push-eq 8 q m timeout now, e, later)

  -- With no other thread at work, a pop from an empty valid queue gives up after `timeout` seconds, with
  -- IO4E_ERR_TIMEOUT, no message and the queue as it was, if the deadline is below 2 ^ 63 and `time_t` has 8
  -- bytes.
  pub pop_times_out :
      {q : Streamq A} (timeout now : ℕ)
      → IsValid q
      → q.nentries ≡ 0
      → now + timeout < 2 ^ 63
      → pop 8 q timeout now ≡ (err_timeout, none, q, now + timeout)
  pop_times_out {q} timeout now v empty h =
      let e : (q.read_sem == 0) ≡ true = ground arith in
      let later : max now (get_timeout 8 now timeout) ≡ now + timeout =
        omega (arith, get_timeout_lem now timeout h) in
      rw (pop-eq 8 q timeout now, e, later)
