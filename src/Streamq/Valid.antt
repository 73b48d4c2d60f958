-- ===== src/Streamq/Valid.antt =====
-- The invariant of the queue's array and indices, and of its semaphores between calls.
use io4edge_client_c.Base.{
  ℕ, ◌+◌, ◌-◌, ◌%◌, ◌^◌, ◌≤◌, ◌<◌, ◌≡◌, Option, none, some, length, length-set, length-replicate,
  arith, ltb, ltb→lt, ◌==◌, max, if◌then◌else◌, Bool-cases, inl, inr, ◌∙◌,
}
use native.Mathlib.Nat.{mod-eq_of_lt, mod-eq-sub-mod}
use io4edge_client_c.Err.{ok, err_timeout}
use io4edge_client_c.Sem.{sem_value_max}
use io4edge_client_c.Streamq.{
  Streamq, Calloc, to_int, int_to_size, get_timeout, streamq_new, advance_idx, push_store,
  push_post, oldest, pop_take, pop_post, entries, push, pop,
}

-- The array and the indices fit together, and no `int` is negative.
pub record IsRing {ℓ} {A : Type ℓ} (q : Streamq A) : Type 0 where
  pub array : length q.msg ≡ q.capacity
  pub small : q.capacity < 2 ^ 31
  pub write_in : q.write_idx < q.capacity
  pub read_in : q.read_idx < q.capacity
  pub count : q.nentries ≤ q.capacity
  pub tail : q.write_idx ≡ (q.read_idx + q.nentries) % q.capacity

-- Between calls one semaphore counts the free slots and the other the messages.
pub record IsValid {ℓ} {A : Type ℓ} (q : Streamq A) : Type 0 where
  pub ring : IsRing q
  pub open ring use *
  pub free : q.write_sem + q.nentries ≡ q.capacity
  pub used : q.read_sem ≡ q.nentries

-- Less than twice round the array, `%` is at most one subtraction.
pub mod_once : (x c : ℕ) → x < c + c → x % c ≡ (if ltb x c then x else x - c)
mod_once x c h = elim (Bool-cases (ltb x c)) [
  | inl below ↦ rw below (mod-eq_of_lt (ltb→lt x c below))
  | inr above ↦ rw above (
      mod-eq-sub-mod {n = x} {m = c} (ground arith)
      ∙ mod-eq_of_lt {n = x - c} {m = c} (ground arith))
]

-- The write index stays behind the entries when one is added, and when the oldest is removed.
step_write : (r n c : ℕ) → r < c → n < c → ((r + n) % c + 1) % c ≡ (r + (n + 1)) % c
step_write r n c hr hn =
    ground (arith, mod_once (r + n) c, mod_once ((r + n) % c + 1) c, mod_once (r + (n + 1)) c)

step_read : (r n c : ℕ) → r < c → 0 < n → n ≤ c → (r + n) % c ≡ ((r + 1) % c + (n - 1)) % c
step_read r n c hr h hn =
    ground (arith, mod_once (r + n) c, mod_once (r + 1) c, mod_once ((r + 1) % c + (n - 1)) c)

pub to_int-suc : (n : ℕ) → n < 2 ^ 31 → to_int (n + 1) ≡ n + 1
to_int-suc n h = omega arith

pub to_int-pred : (n : ℕ) → 0 < n → n < 2 ^ 31 → to_int (n + (2 ^ 32 - 1)) ≡ n - 1
to_int-pred n p h = omega arith

module _ {ℓ} {A : Type ℓ} where
  -- Within the invariant `advance_idx` is `(idx + 1) % capacity`, with no wrap of `int` or `size_t`.
  pub advance_idx_lem :
      (q : Streamq A) (idx : ℕ)
      → idx < q.capacity
      → q.capacity < 2 ^ 31
      → advance_idx q idx ≡ (idx + 1) % q.capacity
  unfolding advance_idx
  advance_idx_lem q idx h small = ground (arith, mod_once (idx + 1) q.capacity)

  pub push_store-IsRing :
      {q : Streamq A} (m : Option A) → IsRing q → q.nentries < q.capacity → IsRing (push_store q m)
  unfolding push_store
  push_store-IsRing {q} m v room = record {
    array = omega (arith, v.array, length-set q.msg (int_to_size q.write_idx) m);
    small = v.small;
    write_in = ground (arith, advance_idx_lem q q.write_idx, mod_once (q.write_idx + 1) q.capacity);
    read_in = v.read_in;
    count = ground arith;
    tail =
        rw
          (
            advance_idx_lem q q.write_idx v.write_in v.small,
            to_int-suc q.nentries (omega arith),
            v.tail,
          )
          (step_write q.read_idx q.nentries q.capacity v.read_in room);
  }

  pub pop_take-IsRing : {q : Streamq A} → IsRing q → 0 < q.nentries → IsRing (pop_take q)
  unfolding pop_take
  pop_take-IsRing {q} v some_left = record {
    array = v.array;
    small = v.small;
    write_in = v.write_in;
    read_in = ground (arith, advance_idx_lem q q.read_idx, mod_once (q.read_idx + 1) q.capacity);
    count = ground arith;
    tail =
        rw
          (
            advance_idx_lem q q.read_idx v.read_in v.small,
            to_int-pred q.nentries some_left (omega arith),
            v.tail,
          )
          (step_read q.read_idx q.nentries q.capacity v.read_in some_left v.count);
  }

  -- `io4e_streamq_new` with both allocations made gives a valid empty queue.
  pub streamq_new-IsValid :
      (alloc : Calloc) (capacity : ℕ) {q : Streamq A}
      → 0 < capacity
      → capacity < 2 ^ 31
      → (streamq_new alloc capacity).1 ≡ some q
      → IsValid q × (q.nentries ≡ 0) × (q.capacity ≡ capacity)
  unfolding streamq_new
  streamq_new-IsValid alloc capacity p small e =
      ground (arith, length-replicate {A = Option A} capacity none)

  -- A post below SEM_VALUE_MAX counts up, and touches nothing else.
  pub push_post_lem :
      (q : Streamq A)
      → q.read_sem < sem_value_max
      → push_post q ≡ record q { read_sem = q.read_sem + 1 }
  unfolding push_post
  push_post_lem q h = ground arith

  pub pop_post_lem :
      (q : Streamq A)
      → q.write_sem < sem_value_max
      → pop_post q ≡ record q { write_sem = q.write_sem + 1 }
  unfolding pop_post
  pop_post_lem q h = ground arith

  -- The queue after a push that got past its wait.
  abbrev pub pushed : Streamq A → Option A → Streamq A
  pushed q m = push_post (push_store (record q { write_sem = q.write_sem - 1 }) m)

  abbrev pub popped : Streamq A → Streamq A
  popped q = pop_post (pop_take (record q { read_sem = q.read_sem - 1 }))

  pub push-eq :
      (time_size : ℕ) (q : Streamq A) (m : Option A) (timeout now : ℕ)
      → push time_size q m timeout now ≡ (
          if q.write_sem == 0
          then (err_timeout, q, max now (get_timeout time_size now timeout))
          else (ok, pushed q m, now))
  unfolding push
  push-eq time_size q m timeout now = ground arith

  pub pop-eq :
      (time_size : ℕ) (q : Streamq A) (timeout now : ℕ)
      → pop time_size q timeout now ≡ (
          if q.read_sem == 0
          then (err_timeout, none, q, max now (get_timeout time_size now timeout))
          else (ok, some (oldest (record q { read_sem = q.read_sem - 1 })), popped q, now))
  unfolding pop
  pop-eq time_size q timeout now = ground arith

  pub pushed-IsValid :
      {q : Streamq A} (m : Option A) → IsValid q → 0 < q.write_sem → IsValid (pushed q m)
  unfolding push_store
  pushed-IsValid {q} m v room =
      let ring =
        push_store-IsRing {q = record q { write_sem = q.write_sem - 1 }} m (omega arith)
          (omega arith) in
      rw (push_post_lem (push_store (record q { write_sem = q.write_sem - 1 }) m) (omega arith))
        (omega arith)

  -- A push keeps a valid queue valid, whatever its timeout and whether or not it times out.
  pub push-IsValid :
      (time_size : ℕ) {q : Streamq A} (m : Option A) (timeout now : ℕ)
      → IsValid q
      → IsValid (push time_size q m timeout now).1
  push-IsValid time_size {q} m timeout now v = elim (Bool-cases (q.write_sem == 0)) [
    | inl e ↦ rw (push-eq time_size q m timeout now, e) v
    | inr e ↦ rw (push-eq time_size q m timeout now, e) (pushed-IsValid m v (ground arith))
  ]

  pub popped-IsValid : {q : Streamq A} → IsValid q → 0 < q.read_sem → IsValid (popped q)
  unfolding pop_take
  popped-IsValid {q} v some_left =
      let ring =
        pop_take-IsRing {q = record q { read_sem = q.read_sem - 1 }} (omega arith) (omega arith) in
      rw (pop_post_lem (pop_take (record q { read_sem = q.read_sem - 1 })) (omega arith))
        (omega arith)

  -- A pop keeps a valid queue valid, whatever its timeout and whether or not it times out.
  pub pop-IsValid :
      (time_size : ℕ) {q : Streamq A} (timeout now : ℕ)
      → IsValid q
      → IsValid (pop time_size q timeout now).2
  pop-IsValid time_size {q} timeout now v = elim (Bool-cases (q.read_sem == 0)) [
    | inl e ↦ rw (pop-eq time_size q timeout now, e) v
    | inr e ↦ rw (pop-eq time_size q timeout now, e) (popped-IsValid v (ground arith))
  ]

  -- Between calls `io4e_streamq_entries` is the number of messages, and never exceeds the capacity.
  pub entries_lem :
      {q : Streamq A} → IsValid q → (entries q ≡ q.nentries) × (entries q ≤ q.capacity)
  unfolding entries
  entries_lem v = ground arith
