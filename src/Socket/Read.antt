-- ===== src/Socket/Read.antt =====
-- Reading: the loop of `read_complete` and the branches of `read_msg`, for every way in which the
-- bytes may be cut into segments.
use io4edge_client_c.Base.{
  ℕ, zero, suc, ◌-◌, ◌≤◌, ◌<◌, ◌≡◌, refl, sym, ap, ◌∙◌, true, false, Option, none, some, List, [],
  ◌∷◌, ◌++◌, append_assoc, length, length-append, length-take, take, drop, take-append-drop,
  take-append_le, drop-append_le, arith, leb, ◌==◌, leb→le, Bool-cases, inl, inr,
}
use io4edge_client_c.Err.{Err, ok}
use io4edge_client_c.Socket.{
  Arrival, segment, quiet, closed, failing, unread, behind, read_complete, select,
}

-- The bytes that are still to be read before the connection closes or a `read` fails.
abbrev pub stream : List Arrival → List ℕ
stream [] = []
stream (segment x xs ∷ rest) = (x ∷ xs) ++ stream rest
stream (quiet n ∷ rest) = stream rest
stream (closed ∷ rest) = []
stream (failing n ∷ rest) = []

stream-unread : (bs : List ℕ) (rest : List Arrival) → stream (unread bs rest) ≡ bs ++ stream rest
stream-unread [] rest = refl
stream-unread (x ∷ xs) rest = refl

-- A wait for readability loses no byte.
pub stream-select : (t : ℕ) (inc : List Arrival) → stream (select t inc).1 ≡ stream inc
unfolding select
stream-select t [] = refl
stream-select t (segment x xs ∷ rest) = refl
stream-select t (quiet n ∷ rest) = elim (Bool-cases (leb t n)) [
  | inl e ↦ rw e
  | inr e ↦ rw e (stream-select (t - n) rest)
]
stream-select t (closed ∷ rest) = refl
stream-select t (failing n ∷ rest) = refl

-- What a successful read of `len` bytes is: those bytes, and the rest still to come.
pub record Reads (len : ℕ) (bytes : List ℕ) (out : Option (Err × List ℕ × List Arrival))
    : Type 0 where
  pub rest : List Arrival
  pub result : out ≡ some (ok, take len bytes, rest)
  pub left : stream rest ≡ drop len bytes

pub read_none : (inc : List Arrival) → read_complete 0 inc ≡ some (ok, [], inc)
unfolding read_complete
read_none [] = refl
read_none (segment x xs ∷ rest) = refl
read_none (quiet n ∷ rest) = refl
read_none (closed ∷ rest) = refl
read_none (failing n ∷ rest) = refl

take-append_more {ℓ} :
    {A : Type ℓ} (n : ℕ) (xs ys : List A)
    → length xs ≤ n
    → take n (xs ++ ys) ≡ xs ++ take (n - length xs) ys
take-append_more n [] ys h = ap (λ k. take k ys) (omega arith)
take-append_more zero (x ∷ xs) ys h = absurd (omega arith)
take-append_more (suc n) (x ∷ xs) ys h =
    ap (λ t. x ∷ t)
      (take-append_more n xs ys (omega arith) ∙ ap (λ k. xs ++ take k ys) (omega arith))

drop-append_more {ℓ} :
    {A : Type ℓ} (n : ℕ) (xs ys : List A)
    → length xs ≤ n
    → drop n (xs ++ ys) ≡ drop (n - length xs) ys
drop-append_more n [] ys h = ap (λ k. drop k ys) (omega arith)
drop-append_more zero (x ∷ xs) ys h = absurd (omega arith)
drop-append_more (suc n) (x ∷ xs) ys h =
    drop-append_more n xs ys (omega arith) ∙ ap (λ k. drop k ys) (omega arith)

suc_eq_zero : (k : ℕ) → (suc k == 0) ≡ false
suc_eq_zero k = ground arith

-- `read_complete` over one segment: the segment whole, or the part of it that is wanted.
read_whole :
    (k x : ℕ) (xs : List ℕ) (rest : List Arrival)
    → leb (length (x ∷ xs)) (suc k) ≡ true
    → read_complete (suc k) (segment x xs ∷ rest)
      ≡ behind (x ∷ xs) (read_complete (suc k - length (x ∷ xs)) rest)
unfolding read_complete
read_whole k x xs rest h = rw (suc_eq_zero k, h)

read_part :
    (k x : ℕ) (xs : List ℕ) (rest : List Arrival)
    → leb (length (x ∷ xs)) (suc k) ≡ false
    → read_complete (suc k) (segment x xs ∷ rest)
      ≡ some (ok, take (suc k) (x ∷ xs), unread (drop (suc k) (x ∷ xs)) rest)
unfolding read_complete
read_part k x xs rest h = rw (suc_eq_zero k, h)

read_quiet :
    (k n : ℕ) (rest : List Arrival)
    → read_complete (suc k) (quiet n ∷ rest) ≡ read_complete (suc k) rest
unfolding read_complete
read_quiet k n rest = rw (suc_eq_zero k)

-- `read_complete` returns the next `len` bytes if so many come, however they are cut into segments,
-- and leaves the rest.
pub read_complete_enough :
    (len : ℕ) (inc : List Arrival)
    → len ≤ length (stream inc)
    → Reads len (stream inc) (read_complete len inc)
read_complete_enough zero inc h = record { rest = inc; result = read_none inc; left = refl }
read_complete_enough (suc k) [] h = absurd (omega arith)
read_complete_enough (suc k) (segment x xs ∷ rest) h =
    elim (Bool-cases (leb (length (x ∷ xs)) (suc k))) [
      | inl all ↦
          let fits = leb→le (length (x ∷ xs)) (suc k) all in
          let r =
            read_complete_enough (suc k - length (x ∷ xs)) rest
              (omega (arith, length-append {0} (x ∷ xs) (stream rest))) in
          record {
            rest = r.rest;
            result = rw (
              read_whole k x xs rest all,
              r.result,
              take-append_more (suc k) (x ∷ xs) (stream rest) fits,
            );
            left = r.left ∙ sym (drop-append_more (suc k) (x ∷ xs) (stream rest) fits);
          }
      | inr part ↦
          let fits : suc k ≤ length (x ∷ xs) = ground arith in
          record {
            rest = unread (drop (suc k) (x ∷ xs)) rest;
            result =
                rw (read_part k x xs rest part, take-append_le (suc k) (x ∷ xs) (stream rest) fits);
            left =
                stream-unread (drop (suc k) (x ∷ xs)) rest
                ∙ sym (drop-append_le (suc k) (x ∷ xs) (stream rest) fits);
          }
    ]
read_complete_enough (suc k) (quiet n ∷ rest) h =
    let r = read_complete_enough (suc k) rest h in
    record { rest = r.rest; result = read_quiet k n rest ∙ r.result; left = r.left }
read_complete_enough (suc k) (closed ∷ rest) h = absurd (omega arith)
read_complete_enough (suc k) (failing n ∷ rest) h = absurd (omega arith)

part_lt : (k x : ℕ) (xs : List ℕ) → leb (length (x ∷ xs)) (suc k) ≡ false → suc k < length (x ∷ xs)
part_lt k x xs h = ground arith

triple_eq :
    {e e' : Err} {bs bs' : List ℕ} {r r' : List Arrival}
    → ◌≡◌ {A = Option (Err × List ℕ × List Arrival)} (some (e, bs, r)) (some (e', bs', r'))
    → (e ≡ e') × (bs ≡ bs') × (r ≡ r')
triple_eq h = ground arith

-- What a successful loop over several segments has read.
behind-eq-some :
    (bs : List ℕ) (o : Option (Err × List ℕ × List Arrival)) {e : Err} {all : List ℕ}
    {rest : List Arrival}
    → behind bs o ≡ some (e, all, rest)
    → (more : List ℕ) × (o ≡ some (e, more, rest)) × (all ≡ bs ++ more)
behind-eq-some bs none h = cc
behind-eq-some bs (some (e, more, rest)) h = (more, ground arith, ground arith)

-- A successful read has the length asked for, and has consumed exactly its bytes.
pub read_complete_sound :
    (len : ℕ) (inc : List Arrival) {bytes : List ℕ} {rest : List Arrival}
    → read_complete len inc ≡ some (ok, bytes, rest)
    → (length bytes ≡ len) × (stream inc ≡ bytes ++ stream rest)
unfolding read_complete
read_complete_sound zero inc h = ground (arith, read_none inc)
read_complete_sound (suc k) [] h = ground arith
read_complete_sound (suc k) (segment x xs ∷ rest) {bytes} {rest = left} h =
    elim (Bool-cases (leb (length (x ∷ xs)) (suc k))) [
      | inl all ↦
          let (more, e, f) = behind-eq-some (x ∷ xs) _ (sym (read_whole k x xs rest all) ∙ h) in
          let ih = read_complete_sound (suc k - length (x ∷ xs)) rest e in
          (
            omega (
              arith,
              ap length f,
              length-append {0} (x ∷ xs) more,
              ih.0,
              leb→le (length (x ∷ xs)) (suc k) all,
            ),
            rw (f, ih.1) (sym (append_assoc (x ∷ xs) more (stream left))),
          )
      | inr part ↦
          let (e, b, l) = triple_eq (sym (read_part k x xs rest part) ∙ h) in
          (
            rw (← b) (omega (arith, length-take (suc k) (x ∷ xs), part_lt k x xs part)),
            rw (← b, ← l, stream-unread (drop (suc k) (x ∷ xs)) rest)
                (ap (λ t. t ++ stream rest) (sym (take-append-drop (suc k) (x ∷ xs)))
                  ∙ append_assoc (take (suc k) (x ∷ xs)) (drop (suc k) (x ∷ xs)) (stream rest)),
          )
    ]
read_complete_sound (suc k) (quiet n ∷ rest) h =
    read_complete_sound (suc k) rest (sym (read_quiet k n rest) ∙ h)
read_complete_sound (suc k) (closed ∷ rest) h = ground arith
read_complete_sound (suc k) (failing n ∷ rest) h = ground arith
