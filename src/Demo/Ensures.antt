-- ===== src/Demo/Ensures.antt =====
-- What holds after a program's call, given what held before it, and how that carries over to whole
-- programs.
use io4edge_client_c.Base.{
  ℕ, ◌+◌, ◌-◌, ◌≡◌, ◌⊎◌, refl, true, false, Option, none, some, List, [], ◌∷◌, ◌++◌, arith,
}
use io4edge_client_c.Err.{Err, is_ok}
use io4edge_client_c.Exec.{Exec, returns, hangs, fault}
use io4edge_client_c.Client.{Client, Around, freed}
use io4edge_client_c.Client.Ledger.{IsBalanced}
use io4edge_client_c.Demo.{Turn, Run, Act, ◌>>=◌, pure, print, free_value, free_stream_data}

-- Where `act` starts in a state with `P` and returns, it returns a value and a state with `Q`.
pub record Ensures {S L A : Type 0} (P : Run S L → Type 0) (act : Act S L A)
    (Q : A → Run S L → Type 0) : Type 0 where
  pub holds : (r : Run S L) → P r → (a : A) → (r' : Run S L) → act r ≡ returns (a, r') → Q a r'

-- How many steps the read thread may make in the turns that are left.
abbrev pub turn_steps : List Turn → ℕ
turn_steps [] = 0
turn_steps (turn ∷ turns) =
    turn.steps_before + (turn.around.wait_steps + turn.around.take_steps) + turn_steps turns

-- Every live message has one owner, of which the program holds `out`; it holds `values` unpacked values and
-- `blocks` blocks, and the semaphore can count the thread's steps and `k` more.
pub record Owes {S L : Type 0} (out values blocks k : ℕ) (r : Run S L) : Type 0 where
  pub balanced : IsBalanced out (turn_steps r.turns + k) r.client
  pub unpacked : r.values ≡ values
  pub allocated : r.blocks ≡ blocks

module _ {S L : Type 0} where
  pub >>=-Ensures :
      {A B : Type 0} {P : Run S L → Type 0} {m : Act S L A} {Q : A → Run S L → Type 0}
      {f : A → Act S L B} {R : B → Run S L → Type 0}
      → Ensures P m Q
      → ((a : A) → Ensures (Q a) (f a) R)
      → Ensures P (m >>= f) R
  unfolding ◌>>=◌
  >>=-Ensures {A} {B} {P} {m} {Q} {f} {R} first rest = record {
    holds = λ r p b r'' eq. from r p b r'' _ refl eq;
  }
    where
      from :
          (r : Run S L)
          → P r
          → (b : B) → (r'' : Run S L) → (e : Exec (A × Run S L)) → m r ≡ e
          → (m >>= f) r ≡ returns (b, r'')
          → R b r''
      from r p b r'' (returns (a, r')) c eq =
          (rest a).holds r' (first.holds r p a r' c) b r'' (ground arith)
      from r p b r'' hangs c eq = absurd (ground arith)
      from r p b r'' fault c eq = absurd (ground arith)

module _ {S L A : Type 0} {P : Run S L → Type 0} where
  pub weaken :
      {m : Act S L A} {Q R : A → Run S L → Type 0}
      → Ensures P m Q
      → ((a : A) (r : Run S L) → Q a r → R a r)
      → Ensures P m R
  weaken e sub = record { holds = λ r p a r' eq. sub a r' (e.holds r p a r' eq) }

  pub strengthen :
      {P' : Run S L → Type 0} {m : Act S L A} {Q : A → Run S L → Type 0}
      → ((r : Run S L) → P r → P' r)
      → Ensures P' m Q
      → Ensures P m Q
  strengthen sub e = record { holds = λ r p a r' eq. e.holds r (sub r p) a r' eq }

  pub pure-Ensures : (a : A) → Ensures P (pure a) (λ b r. (b ≡ a) × P r)
  unfolding pure
  pure-Ensures a = record {
    holds = λ r p b r' eq.
        let same : r' ≡ r = ground arith in
        let given : b ≡ a = ground arith in rw (same, given) (refl, p);
  }

-- A condition with a parameter that is not known.
pub some-Ensures :
    {S L A X : Type 0} {B : X → Type 0} {P : X → Run S L → Type 0} {m : Act S L A}
    {Q : A → Run S L → Type 0}
    → ((x : X) → B x → Ensures (P x) m Q)
    → Ensures (λ r. (x : X) × B x × P x r) m Q
some-Ensures e = record { holds = λ r p a r' eq. let (x, b, q) = p in (e x b).holds r q a r' eq }

-- A call that adds to the messages without an owner, or in the program's hands, as many as `Q` says of its
-- result, and leaves every other one with one owner.
pub record Settles {S R : Type 0} (op : Around → Client S → Exec (R × Client S))
    (Q : R → ℕ → Type 0) : Type 0 where
  pub settles :
      (w : Around)
      → (out n : ℕ) → (h : Client S) → (result : R) → (h' : Client S)
      → op w h ≡ returns (result, h')
      → IsBalanced out (w.wait_steps + w.take_steps + n) h
      → (more : ℕ) × Q result more × IsBalanced (out + more) n h'

-- What a program that keeps nothing but for a message that its last read lost leaves where it returns.
unfoldable pub Ended : {S L : Type 0} → (values blocks k : ℕ) → ℕ → Run S L → Type 0
Ended values blocks k ret r =
    (ret ≡ 0) × Owes 0 values blocks k r
    ⊎ (ret ≡ 1) × (Owes 0 values blocks k r ⊎ Owes 1 values blocks k r)

-- A line more changes nothing of that.
pub printed-Owes :
    {S L : Type 0} {out values blocks k : ℕ} {r : Run S L} (lines : List L)
    → Owes out values blocks k r
    → Owes out values blocks k (record r { printed = lines })
printed-Owes lines o = record {
  balanced = o.balanced;
  unpacked = o.unpacked;
  allocated = o.allocated;
}

-- How many unpacked values a call hands out.
abbrev pub count : {V : Type 0} → Option V → ℕ
count none = 0
count (some v) = 1

-- After a read: it failed, and may have lost a message, or it handed out one message with its value.
unfoldable pub ReadDone :
    {S L V : Type 0} → (out values blocks k : ℕ) → Err × Option V → Run S L → Type 0
ReadDone out values blocks k (e, none) r =
    (is_ok e ≡ false) × (Owes out values blocks k r ⊎ Owes (out + 1) values blocks k r)
ReadDone out values blocks k (e, some x) r =
    (is_ok e ≡ true) × Owes (out + 1) (values + 1) blocks k r

module _ {S L : Type 0} {out values blocks k : ℕ} where
  pub print-Ensures :
      (line : L)
      → Ensures {S = S} (Owes out values blocks k) (print line) (λ _. Owes out values blocks k)
  unfolding print
  print-Ensures line = record {
    holds = λ r o a r' eq.
        let same : r' ≡ record r { printed = r.printed ++ line ∷ [] } = ground arith in
        rw same (record { balanced = o.balanced; unpacked = o.unpacked; allocated = o.allocated });
  }

  pub free_value-Ensures :
      Ensures {S = S} {L = L}
        (Owes out (values + 1) blocks k)
        free_value
        (λ _. Owes out values blocks k)
  unfolding free_value
  free_value-Ensures = record {
    holds = λ r o a r' eq.
        let same : r' ≡ record r { values = r.values - 1 } = ground arith in
        let had = o.unpacked in
        rw same (record { balanced = o.balanced; unpacked = omega arith; allocated = o.allocated });
  }

  pub free_stream_data-Ensures :
      Ensures {S = S} {L = L}
        (Owes (out + 1) values blocks k)
        free_stream_data
        (λ _. Owes out values blocks k)
  unfolding free_stream_data
  free_stream_data-Ensures = record {
    holds = λ r o a r' eq.
        let same : r' ≡ record r { client = freed r.client } = ground arith in
        let b = o.balanced in
        rw same (record {
          balanced = record { queue = b.queue; counts = b.counts; owned = omega (arith, b.owned) };
          unpacked = o.unpacked;
          allocated = o.allocated;
        });
  }
