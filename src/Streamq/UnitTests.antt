-- ===== src/Streamq/UnitTests.antt =====
-- The calls of the single-threaded cases of tests/test_streamq.cc, and what the queue answers.
use io4edge_client_c.Base.{
  ℕ, zero, suc, ◌≡◌, refl, true, Option, none, some, List, [], ◌∷◌, ◌++◌, arith,
}
use io4edge_client_c.Err.{Err, ok, err_timeout}
use io4edge_client_c.Streamq.{Streamq, streamq_new, entries}
use io4edge_client_c.Streamq.Valid.{IsValid}
use io4edge_client_c.Streamq.Fifo.{Call, put, get, put_spec, get_spec, run_spec}
use io4edge_client_c.Streamq.Refine.{run, run_refines}

-- `(void *)i`: 0 is NULL.
abbrev pointer : ℕ → Option ℕ
pointer zero = none
pointer (suc n) = some (suc n)

abbrev range : ℕ → ℕ → List ℕ
range i zero = []
range i (suc n) = i ∷ range (suc i) n

abbrev map : {A B : Type 0} → (A → B) → List A → List B
map f [] = []
map f (x ∷ xs) = f x ∷ map f xs

-- The two kinds of loops, and the test `PushPop`.
abbrev fill : List (Call ℕ)
fill = map (λ i. put (pointer i) 0) (range 0 5)

abbrev drain : List (Call ℕ)
drain = map (λ i. get 0) (range 0 5)

abbrev push_pop : List (Call ℕ)
push_pop = fill ++ (drain ++ (fill ++ (put (pointer 6) 0 ∷ drain ++ (get 0 ∷ []))))

-- What its lines `EXPECT_EQ` say.
abbrev pushed : List (Err × Option (Option ℕ))
pushed = map (λ i. (ok, none)) (range 0 5)

abbrev popped : List (Err × Option (Option ℕ))
popped = map (λ i. (ok, some (pointer i))) (range 0 5)

abbrev expected : List (Err × Option (Option ℕ))
expected =
    pushed ++ (popped ++ (pushed ++ ((err_timeout, none) ∷ popped ++ ((err_timeout, none) ∷ []))))

-- The queue of five that each test makes.
abbrev queue_of_five : Streamq ℕ
queue_of_five = record {
  msg = none ∷ none ∷ none ∷ none ∷ none ∷ [];
  capacity = 5;
  write_idx = 0;
  read_idx = 0;
  nentries = 0;
  write_sem = 5;
  read_sem = 0;
}

initial_empty :
    (streamq_new (record { queue = true; array = true }) 5 ≡ (ok, some queue_of_five))
    × (entries queue_of_five ≡ 0)
unfolding streamq_new entries
initial_empty = (refl, refl)

queue_of_five-IsValid : IsValid queue_of_five
queue_of_five-IsValid = record {
  ring = record {
    array = refl;
    small = omega arith;
    write_in = omega arith;
    read_in = omega arith;
    count = omega arith;
    tail = refl;
  };
  free = refl;
  used = refl;
}

as_expected : run_spec 5 [] push_pop ≡ expected
unfolding run_spec put_spec get_spec
as_expected = refl

passes : (now : ℕ) → run 8 now queue_of_five push_pop ≡ expected
passes now = rw (run_refines 8 now push_pop queue_of_five-IsValid) as_expected
