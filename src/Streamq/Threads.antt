-- ===== src/Streamq/Threads.antt =====
-- Any number of threads that push and pop at once. A step is one of the parts between which the
-- operating system may switch: the wait on a semaphore, the section under the mutex, the post.
use io4edge_client_c.Base.{
  ℕ, ◌+◌, ◌-◌, ◌^◌, ◌≤◌, ◌<◌, ◌≡◌, refl, ap, ◌∙◌, Option, List, [], ◌∷◌, ◌++◌, append_assoc, length,
  length-append, arith,
}
use io4edge_client_c.Streamq.{Streamq, to_int, push_store, push_post, oldest, pop_take, pop_post}
use io4edge_client_c.Streamq.Valid.{
  IsRing, IsValid, push_store-IsRing, pop_take-IsRing, push_post_lem, pop_post_lem,
}
use io4edge_client_c.Streamq.Refine.{contents, contents-push_store, contents-pop_take}

-- The queue, where the threads inside a call stand, and what has gone in and out so far.
pub record System {ℓ} (A : Type ℓ) : Type ℓ where
  pub q : Streamq A
  pub storing : List (Option A)  -- messages of pushes between their wait and their section
  pub posting : ℕ  -- pushes between their section and their post
  pub taking : ℕ  -- pops between their wait and their section
  pub releasing : ℕ  -- pops between their section and their post
  pub stored : List (Option A)  -- every message stored, in order
  pub taken : List (Option A)  -- every message taken, in order

module _ {ℓ} {A : Type ℓ} where
  -- A thread that waits in vain, or whose wait times out, changes nothing, and is no step.
  pub data Step (s : System A) : System A → Type ℓ where
    push_waits :
        (m : Option A)
        → 0 < s.q.write_sem
        → Step s (record s {
          q = record (s.q) { write_sem = s.q.write_sem - 1 };
          storing = m ∷ s.storing;
        })
    push_stores :
        (xs : List (Option A)) (m : Option A) (ys : List (Option A))
        → s.storing ≡ xs ++ (m ∷ ys)
        → Step s (record s {
          q = push_store s.q m;
          storing = xs ++ ys;
          posting = s.posting + 1;
          stored = s.stored ++ (m ∷ []);
        })
    push_posts : 0 < s.posting → Step s (record s { q = push_post s.q; posting = s.posting - 1 })
    pop_waits :
        0 < s.q.read_sem
        → Step s
            (record s { q = record (s.q) { read_sem = s.q.read_sem - 1 }; taking = s.taking + 1 })
    pop_takes :
        0 < s.taking
        → Step s (record s {
          q = pop_take s.q;
          taking = s.taking - 1;
          releasing = s.releasing + 1;
          taken = s.taken ++ (oldest s.q ∷ []);
        })
    pop_posts :
        0 < s.releasing → Step s (record s { q = pop_post s.q; releasing = s.releasing - 1 })

  pub data Reach (s : System A) : System A → Type ℓ where
    here : Reach s s
    next : {t u : System A} → Reach s t → Step t u → Reach s u

  -- Every slot and every message is accounted for.
  pub record Inv (s : System A) : Type ℓ where
    pub ring : IsRing s.q
    pub open ring use *
    pub free : s.q.write_sem + length s.storing + s.q.nentries + s.releasing ≡ s.q.capacity
    pub used : s.q.read_sem + s.taking + s.posting ≡ s.q.nentries
    pub order : s.stored ≡ s.taken ++ contents s.q

  length_drop_middle :
      (l xs : List (Option A)) (m : Option A) (ys : List (Option A))
      → l ≡ xs ++ (m ∷ ys)
      → length l ≡ length (xs ++ ys) + 1
  length_drop_middle l xs m ys e =
      rw e (omega (arith, length-append {ℓ} xs (m ∷ ys), length-append {ℓ} xs ys))

  push_store_sems :
      (q : Streamq A) (m : Option A)
      → ((push_store q m).write_sem ≡ q.write_sem)
        × ((push_store q m).read_sem ≡ q.read_sem)
        × ((push_store q m).capacity ≡ q.capacity)
        × ((push_store q m).nentries ≡ to_int (q.nentries + 1))
  unfolding push_store
  push_store_sems q m = (refl, refl, refl, refl)

  pop_take_sems :
      (q : Streamq A)
      → ((pop_take q).write_sem ≡ q.write_sem)
        × ((pop_take q).read_sem ≡ q.read_sem)
        × ((pop_take q).capacity ≡ q.capacity)
        × ((pop_take q).nentries ≡ to_int (q.nentries + (2 ^ 32 - 1)))
  unfolding pop_take
  pop_take_sems q = (refl, refl, refl, refl)

  -- Every step of any thread keeps the invariant.
  pub Step-Inv : {s t : System A} → Step s t → Inv s → Inv t
  Step-Inv {s} (push_waits m h) v = record {
    ring = omega arith;
    free = omega arith;
    used = v.used;
    order = v.order;
  }
  Step-Inv {s} (push_stores xs m ys e) v =
      let gone = length_drop_middle s.storing xs m ys e in
      record {
        ring = push_store-IsRing m v.ring (omega arith);
        free = omega (arith, push_store_sems s.q m);
        used = omega (arith, push_store_sems s.q m);
        order =
            rw (contents-push_store m v.ring (omega arith), v.order)
              (append_assoc s.taken (contents s.q) (m ∷ []));
      }
  Step-Inv {s} (push_posts h) v =
      rw (push_post_lem s.q (omega arith))
        (record { ring = omega arith; free = v.free; used = omega arith; order = v.order })
  Step-Inv {s} (pop_waits h) v = record {
    ring = omega arith;
    free = v.free;
    used = omega arith;
    order = v.order;
  }
  Step-Inv {s} (pop_takes h) v = record {
    ring = pop_take-IsRing v.ring (omega arith);
    free = omega (arith, pop_take_sems s.q);
    used = omega (arith, pop_take_sems s.q);
    order =
        rw (append_assoc s.taken (oldest s.q ∷ []) (contents (pop_take s.q)))
          (v.order ∙ ap (λ l. s.taken ++ l) (contents-pop_take v.ring (omega arith)));
  }
  Step-Inv {s} (pop_posts h) v =
      rw (pop_post_lem s.q (omega arith))
        (record { ring = omega arith; free = omega arith; used = v.used; order = v.order })

  -- The system at rest round a queue, with no thread in a call.
  abbrev pub at_rest : Streamq A → System A
  at_rest q = record {
    q = q;
    storing = [];
    posting = 0;
    taking = 0;
    releasing = 0;
    stored = contents q;
    taken = [];
  }

  Reach-Inv : {q : Streamq A} {s : System A} → IsValid q → Reach (at_rest q) s → Inv s
  Reach-Inv v here = record { ring = v.ring; free = omega arith; used = omega arith; order = refl }
  Reach-Inv v (next r st) = Step-Inv st (Reach-Inv v r)

  -- From a valid queue, in every state that any interleaving of pushing and popping threads reaches:
  -- what has been stored is what has been taken followed by what the queue holds, so messages come
  -- out in the order in which they went in, none lost and none twice; and the queue holds at most
  -- `capacity` messages.
  pub threads_fifo :
      {q : Streamq A} {s : System A}
      → IsValid q
      → Reach (at_rest q) s
      → (s.stored ≡ s.taken ++ contents s.q) × (s.q.nentries ≤ s.q.capacity)
  threads_fifo v r = let inv = Reach-Inv v r in (inv.order, inv.count)

  -- A thread past its wait finds what it waited for: for each push there is a free slot of its own,
  -- for each pop a message of its own.
  pub threads_no_overrun :
      {q : Streamq A} {s : System A}
      → IsValid q
      → Reach (at_rest q) s
      → (s.q.nentries + length s.storing ≤ s.q.capacity) × (s.taking ≤ s.q.nentries)
  threads_no_overrun v r = let inv = Reach-Inv v r in omega arith

  -- No semaphore leaks: once no thread is in a call, the queue is valid again.
  threads_rest :
      {q : Streamq A} {s : System A}
      → IsValid q
      → Reach (at_rest q) s
      → length s.storing ≡ 0
      → s.posting ≡ 0
      → s.taking ≡ 0
      → s.releasing ≡ 0
      → IsValid s.q
  threads_rest v r a b c d =
      let inv = Reach-Inv v r in record { ring = inv.ring; free = omega arith; used = omega arith }
