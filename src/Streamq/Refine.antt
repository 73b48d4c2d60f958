-- ===== src/Streamq/Refine.antt =====
-- A valid queue behaves as the bounded FIFO of the messages that it holds.
use io4edge_client_c.Base.{
  ℕ, zero, suc, ◌+◌, ◌-◌, ◌%◌, ◌^◌, ◌≤◌, ◌<◌, ◌≡◌, ◌≢◌, refl, ap, ap₂, ◌∙◌, Option, none, true,
  false, List, [], ◌∷◌, ◌++◌, length, length-append, get_or, set, get_or-set_self, get_or-set_ne,
  arith, ltb, ◌==◌, Bool-cases, inl, inr,
}
use io4edge_client_c.Err.{Err, ok}
use io4edge_client_c.Streamq.{
  Streamq, to_int, int_to_size, push_store, push_post, oldest, pop_take, pop_post, advance_idx,
  push, pop,
}
use io4edge_client_c.Streamq.Fifo.{Call, put, get, put_spec, get_spec, run_spec}
use io4edge_client_c.Streamq.Valid.{
  IsRing, IsValid, mod_once, advance_idx_lem, to_int-pred, push_post_lem, pop_post_lem, pushed,
  popped, push-eq, pop-eq, push-IsValid, pop-IsValid,
}

-- The `n` messages from slot `r` on, round the array of `c` slots.
abbrev pub slots {ℓ} : {A : Type ℓ} → List (Option A) → ℕ → ℕ → ℕ → List (Option A)
slots buf c r zero = []
slots buf c r (suc n) = slots buf c r n ++ (get_or buf ((r + n) % c) none ∷ [])

-- Two entries of the ring never share a slot.
slot_ne : (r j n c : ℕ) → r < c → j < n → n < c → (r + n) % c ≢ (r + j) % c
slot_ne r j n c hr hj hn = ground (arith, mod_once (r + n) c, mod_once (r + j) c)

shift : (r n c : ℕ) → r < c → suc n < c → (r + suc n) % c ≡ ((r + 1) % c + n) % c
shift r n c hr hn =
    ground (arith, mod_once (r + suc n) c, mod_once (r + 1) c, mod_once ((r + 1) % c + n) c)

at_start : (r c : ℕ) → r < c → (r + 0) % c ≡ r
at_start r c h = ground (arith, mod_once (r + 0) c)

module _ {ℓ} {A : Type ℓ} where
  length-slots : (buf : List (Option A)) (c r n : ℕ) → length (slots buf c r n) ≡ n
  length-slots buf c r zero = refl
  length-slots buf c r (suc n) = omega (
    arith,
    length-slots buf c r n,
    length-append {ℓ} (slots buf c r n) (get_or buf ((r + n) % c) none ∷ []),
  )

  -- A write to the first free slot leaves the entries as they are.
  slots-set :
      (buf : List (Option A)) (c r k n : ℕ) (m : Option A)
      → r < c
      → k ≤ n
      → n < c
      → slots (set buf ((r + n) % c) m) c r k ≡ slots buf c r k
  slots-set buf c r zero n m hr hk hn = refl
  slots-set buf c r (suc k) n m hr hk hn =
      ap₂ ◌++◌ (slots-set buf c r k n m hr (omega arith) hn)
        (ap (λ x. x ∷ []) (get_or-set_ne buf _ _ m none (slot_ne r k n c hr (omega arith) hn)))

  -- The oldest entry first, then the rest from the next slot on.
  slots_head :
      (buf : List (Option A)) (c r n : ℕ)
      → r < c
      → n < c
      → slots buf c r (suc n) ≡ get_or buf r none ∷ slots buf c ((r + 1) % c) n
  slots_head buf c r zero hr hn = ap (λ k. get_or buf k none ∷ []) (at_start r c hr)
  slots_head buf c r (suc n) hr hn = rw (slots_head buf c r n hr (omega arith), shift r n c hr hn)

  slots_pos :
      (buf : List (Option A)) (c r n : ℕ)
      → r < c
      → 0 < n
      → n ≤ c
      → slots buf c r n ≡ get_or buf r none ∷ slots buf c ((r + 1) % c) (n - 1)
  slots_pos buf c r zero hr h hn = absurd (omega arith)
  slots_pos buf c r (suc n) hr h hn =
      let e : suc n - 1 ≡ n = omega arith in rw e (slots_head buf c r n hr hn)

int_to_size-eq : (w : ℕ) → w < 2 ^ 31 → int_to_size w ≡ w
int_to_size-eq w h = ground arith

-- The messages of a queue, oldest first.
abbrev pub contents {ℓ} : {A : Type ℓ} → Streamq A → List (Option A)
contents q = slots q.msg q.capacity q.read_idx q.nentries

module _ {ℓ} {A : Type ℓ} where
  pub length-contents : (q : Streamq A) → length (contents q) ≡ q.nentries
  length-contents q = length-slots q.msg q.capacity q.read_idx q.nentries

  -- Within the invariant the two sections are plain updates, with no wrap.
  push_store-eq :
      {q : Streamq A} (m : Option A)
      → IsRing q
      → q.nentries < q.capacity
      → push_store q m ≡ record q {
        msg = set q.msg ((q.read_idx + q.nentries) % q.capacity) m;
        write_idx = advance_idx q q.write_idx;
        nentries = suc q.nentries;
      }
  unfolding push_store
  push_store-eq {q} m v room =
      let grown : to_int (q.nentries + 1) ≡ suc q.nentries = omega arith in
      let index : int_to_size q.write_idx ≡ (q.read_idx + q.nentries) % q.capacity =
        int_to_size-eq q.write_idx (omega arith) ∙ v.tail in
      λ i. record q {
        msg = set q.msg (index i) m;
        write_idx = advance_idx q q.write_idx;
        nentries = grown i;
      }

  -- The section of a push under the mutex appends its message.
  pub contents-push_store :
      {q : Streamq A} (m : Option A)
      → IsRing q
      → q.nentries < q.capacity
      → contents (push_store q m) ≡ contents q ++ (m ∷ [])
  contents-push_store {q} m v room = rw (
    push_store-eq m v room,
    slots-set q.msg q.capacity q.read_idx q.nentries q.nentries m v.read_in (omega arith) room,
    get_or-set_self q.msg ((q.read_idx + q.nentries) % q.capacity) m none (omega arith),
  )

  -- The section of a pop under the mutex removes the oldest message.
  pub contents-pop_take :
      {q : Streamq A} → IsRing q → 0 < q.nentries → contents q ≡ oldest q ∷ contents (pop_take q)
  unfolding oldest pop_take
  contents-pop_take {q} v some_left =
      rw
        (
          to_int-pred q.nentries some_left (omega arith),
          int_to_size-eq q.read_idx (omega arith),
          advance_idx_lem q q.read_idx v.read_in v.small,
        )
        (slots_pos q.msg q.capacity q.read_idx q.nentries v.read_in some_left v.count)

  pub contents-pushed :
      {q : Streamq A} (m : Option A)
      → IsValid q
      → 0 < q.write_sem
      → contents (pushed q m) ≡ contents q ++ (m ∷ [])
  contents-pushed {q} m v room =
      let waited = record q { write_sem = q.write_sem - 1 } in
      rw (push_post_lem (push_store waited m) (unfold push_store in omega arith))
        (contents-push_store {q = waited} m (omega arith) (omega arith))

  pub contents-popped :
      {q : Streamq A}
      → IsValid q
      → 0 < q.read_sem
      → contents q ≡ oldest (record q { read_sem = q.read_sem - 1 }) ∷ contents (popped q)
  contents-popped {q} v some_left =
      let waited = record q { read_sem = q.read_sem - 1 } in
      rw (pop_post_lem (pop_take waited) (unfold pop_take in omega arith))
        (contents-pop_take {q = waited} (omega arith) (omega arith))

  -- A push by one thread gives the code and the messages of `put_spec`.
  pub push_refines :
      (time_size : ℕ) {q : Streamq A} (m : Option A) (timeout now : ℕ)
      → IsValid q
      → let (e, q', later) = push time_size q m timeout now in
        (e, contents q') ≡ put_spec q.capacity (contents q) m
  unfolding put_spec
  push_refines time_size {q} m timeout now v = elim (Bool-cases (q.write_sem == 0)) [
    | inl full ↦
        let t : ltb (length (contents q)) q.capacity ≡ false = ground (arith, length-contents q) in
        rw (push-eq time_size q m timeout now, full, t)
    | inr room ↦
        let t : ltb (length (contents q)) q.capacity ≡ true = ground (arith, length-contents q) in
        rw (push-eq time_size q m timeout now, room, t)
          (ap (λ ms. (ok, ms)) (contents-pushed m v (ground arith)))
  ]

  pub pop_refines :
      (time_size : ℕ) {q : Streamq A} (timeout now : ℕ)
      → IsValid q
      → let (e, m, q', later) = pop time_size q timeout now in
        (e, m, contents q') ≡ get_spec (contents q)
  unfolding get_spec
  pop_refines time_size {q} timeout now v = elim (Bool-cases (q.read_sem == 0)) [
    | inl none_left ↦
        rw (pop-eq time_size q timeout now, none_left)
          (let e : q.nentries ≡ 0 = ground arith in rw e)
    | inr some_left ↦
        rw (pop-eq time_size q timeout now, some_left) (rw (contents-popped v (ground arith)))
  ]

-- A sequence of calls from the time `now` on, with what each returns.
pub run {ℓ} : {A : Type ℓ} → ℕ → ℕ → Streamq A → List (Call A) → List (Err × Option (Option A))
run time_size now q [] = []
run time_size now q (put m t ∷ cs) =
    let (e, q', later) = push time_size q m t now in (e, none) ∷ run time_size later q' cs
run time_size now q (get t ∷ cs) =
    let (e, m, q', later) = pop time_size q t now in (e, m) ∷ run time_size later q' cs

module _ {ℓ} {A : Type ℓ} where
  pub capacity-push_post : (q : Streamq A) → (push_post q).capacity ≡ q.capacity
  unfolding push_post
  capacity-push_post q = ground arith

  pub capacity-pop_post : (q : Streamq A) → (pop_post q).capacity ≡ q.capacity
  unfolding pop_post
  capacity-pop_post q = ground arith

  capacity-push :
      (time_size : ℕ) (q : Streamq A) (m : Option A) (timeout now : ℕ)
      → (push time_size q m timeout now).1.capacity ≡ q.capacity
  unfolding push_store
  capacity-push time_size q m timeout now = elim (Bool-cases (q.write_sem == 0)) [
    | inl e ↦ rw (push-eq time_size q m timeout now, e)
    | inr e ↦ rw (push-eq time_size q m timeout now, e, capacity-push_post)
  ]

  capacity-pop :
      (time_size : ℕ) (q : Streamq A) (timeout now : ℕ)
      → (pop time_size q timeout now).2.capacity ≡ q.capacity
  unfolding pop_take
  capacity-pop time_size q timeout now = elim (Bool-cases (q.read_sem == 0)) [
    | inl e ↦ rw (pop-eq time_size q timeout now, e)
    | inr e ↦ rw (pop-eq time_size q timeout now, e, capacity-pop_post)
  ]

  -- No sequence of calls by one thread, whatever the timeouts and the clock, tells a valid queue
  -- from the bounded FIFO of its messages.
  pub run_refines :
      (time_size now : ℕ) (cs : List (Call A)) {q : Streamq A}
      → IsValid q
      → run time_size now q cs ≡ run_spec q.capacity (contents q) cs
  unfolding run run_spec
  run_refines time_size now [] v = refl
  run_refines time_size now (put m t ∷ cs) {q} v = rw (
    run_refines time_size (push time_size q m t now).2 cs (push-IsValid time_size m t now v),
    ← push_refines time_size m t now v,
    capacity-push,
  )
  run_refines time_size now (get t ∷ cs) {q} v = rw (
    run_refines time_size (pop time_size q t now).3 cs (pop-IsValid time_size t now v),
    ← pop_refines time_size t now v,
    capacity-pop,
  )
