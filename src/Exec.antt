-- ===== src/Exec.antt =====
-- How a call may end: it returns, it never does, or it reads through a NULL pointer or past the end
-- of a table.
pub data Exec {ℓ} (A : Type ℓ) : Type ℓ where
  returns : A → Exec A
  hangs : Exec A
  fault : Exec A
