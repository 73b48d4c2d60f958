-- ===== src/Streamq/Fifo.antt =====
-- What a queue of `capacity` messages promises its users: a bounded FIFO that holds its messages
-- oldest first, for the calls of one thread.
use io4edge_client_c.Base.{ℕ, Option, none, some, List, [], ◌∷◌, ◌++◌, length, ltb, if◌then◌else◌}
use io4edge_client_c.Err.{Err, ok, err_timeout}

-- A call of the queue with its timeout in seconds.
pub data Call {ℓ} (A : Type ℓ) : Type ℓ where
  put : Option A → ℕ → Call A
  get : ℕ → Call A

module _ {ℓ} {A : Type ℓ} where
  -- Append, unless the queue is full.
  unfoldable pub put_spec : ℕ → List (Option A) → Option A → Err × List (Option A)
  put_spec capacity ms m =
      if ltb (length ms) capacity then (ok, ms ++ (m ∷ [])) else (err_timeout, ms)

  -- Remove the oldest message, unless the queue is empty.
  unfoldable pub get_spec : List (Option A) → Err × Option (Option A) × List (Option A)
  get_spec [] = (err_timeout, none, [])
  get_spec (m ∷ ms) = (ok, some m, ms)

  -- The answers to a sequence of calls.
  unfoldable pub run_spec : ℕ → List (Option A) → List (Call A) → List (Err × Option (Option A))
  run_spec capacity ms [] = []
  run_spec capacity ms (put m t ∷ cs) =
      let (e, ms') = put_spec capacity ms m in (e, none) ∷ run_spec capacity ms' cs
  run_spec capacity ms (get t ∷ cs) =
      let (e, m, ms') = get_spec ms in (e, m) ∷ run_spec capacity ms' cs
