-- ===== src/Demo/Control.antt =====
-- What holds after the tests, loops and early returns of a program.
use io4edge_client_c.Base.{
  ℕ, ◌+◌, ◌≡◌, inl, inr, refl, Bool, true, false, Option, none, some, List, [], ◌∷◌, ◌++◌,
  Bool-cases, arith,
}
use io4edge_client_c.Err.{Err, is_ok}
use io4edge_client_c.Demo.{Run, Act, ◌>>=◌, pure, print, when, unless_ok, follow}
use io4edge_client_c.Demo.{each}
use io4edge_client_c.Demo.Ensures.{
  count, Owes, Ended, printed-Owes, ReadDone, Ensures, >>=-Ensures, weaken, pure-Ensures,
}

module _ {S L : Type 0} {P : Run S L → Type 0} where
  pub when-Ensures :
      (test : Bool) {act : Act S L (Unit {0})}
      → Ensures P act (λ u. P)
      → Ensures P (when test act) (λ u. P)
  unfolding when
  when-Ensures true e = e
  when-Ensures false e = weaken (pure-Ensures tt) (λ a r q. q.1)

  pub each-Ensures :
      {A : Type 0} (items : List A) {body : A → Act S L (Unit {0})}
      → ((a : A) → Ensures P (body a) (λ u. P))
      → Ensures P (each items body) (λ u. P)
  unfolding each
  each-Ensures [] e = weaken (pure-Ensures tt) (λ a r q. q.1)
  each-Ensures (a ∷ items) e = >>=-Ensures (e a) (λ u. each-Ensures items e)

  pub follow-Ensures :
      {A : Type 0} (o : Option A) {rest : A → Act S L ℕ} {Q : ℕ → Run S L → Type 0}
      → ((a : A) → o ≡ some a → Ensures P (rest a) Q)
      → Ensures P (follow o rest) Q
  unfolding follow
  follow-Ensures none e = record { holds = λ r p a r' eq. absurd (ground arith) }
  follow-Ensures (some a) e = e a refl

  pub unless_ok-Ensures :
      (err : Err) (line : Err → L) {rest : Act S L ℕ} {Q : ℕ → Run S L → Type 0}
      → (is_ok err ≡ true → Ensures P rest Q)
      → (is_ok err ≡ false
          → (r : Run S L) → P r
          → Q 1 (record r { printed = r.printed ++ line err ∷ [] }))
      → Ensures P (unless_ok err line rest) Q
  unfolding unless_ok print pure ◌>>=◌
  unless_ok-Ensures err line {rest} {Q} fine failed = elim (Bool-cases (is_ok err)) [
    | inl good ↦ rw (unless_ok, good) (fine good)
    | inr bad ↦
        rw (unless_ok, bad)
          (record {
            holds = λ r p a r' eq.
                let given : a ≡ 1 = ground arith in
                let same : r' ≡ record r { printed = r.printed ++ line err ∷ [] } = ground arith in
                rw (given, same) (failed bad r p);
          })
  ]

module _ {S L : Type 0} (values blocks k : ℕ) where
  -- A return after a read that failed.
  pub early_return :
      {V : Type 0} (err : Err) (x : Option V) (lines : List L) (r : Run S L)
      → is_ok err ≡ false
      → ReadDone 0 values blocks k (err, x) r
      → Ended values blocks k 1 (record r { printed = lines })
  unfolding ReadDone Ended
  early_return err none lines r bad (bad', inl o) = inr (refl, inl (printed-Owes lines o))
  early_return err none lines r bad (bad', inr o) = inr (refl, inr (printed-Owes lines o))
  early_return err (some x) lines r bad (good, o) = absurd (ground arith)

-- A message that a read handed out.
pub handed :
    {S L V : Type 0} (out values blocks k : ℕ) (err : Err) (x : Option V) (m : V) (r : Run S L)
    → x ≡ some m
    → ReadDone out values blocks k (err, x) r
    → Owes (out + 1) (values + 1) blocks k r
unfolding ReadDone
handed out values blocks k err none m r e d = absurd (ground arith)
handed out values blocks k err (some x) m r e (good, o) = o

-- What holds where a program returns 0.
pub record Kept {S L : Type 0} (out values blocks k ret : ℕ) (r : Run S L) : Type 0 where
  pub kept : ret ≡ 0 → Owes out values blocks k r

module _ {S L : Type 0} {P : Run S L → Type 0} {out values blocks k : ℕ} where
  pub unless_ok-Kept :
      (err : Err) (line : Err → L) {rest : Act S L ℕ}
      → (is_ok err ≡ true → Ensures P rest (Kept out values blocks k))
      → Ensures P (unless_ok err line rest) (Kept out values blocks k)
  unless_ok-Kept err line fine =
      unless_ok-Ensures err line fine (λ bad r p. record { kept = λ z. absurd (ground arith) })

-- A message that a call handed out is held.
pub fetched :
    {S L V : Type 0} (out values blocks k : ℕ) (x : Option V) (m : V) (r : Run S L)
    → x ≡ some m
    → Owes out (values + count x) blocks k r
    → Owes out (values + 1) blocks k r
fetched out values blocks k none m r e o = absurd (ground arith)
fetched out values blocks k (some x) m r e o = o

-- A return of 0.
pub pure-Kept :
    {S L : Type 0} {out values blocks k : ℕ}
    → Ensures {S = S} {L = L} (Owes out values blocks k) (pure 0) (Kept out values blocks k)
pure-Kept = weaken (pure-Ensures 0) (λ ret r q. record { kept = λ z. q.1 })
