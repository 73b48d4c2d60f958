-- ===== src/Demo/Text/Overrun.antt =====
-- Texts that do not fit, appended one after another with `snprintf`: the `size_t` that says how many bytes
-- are left runs below zero, and the next text is stored behind the buffer.
use io4edge_client_c.Base.{
  ℕ, zero, suc, ◌+◌, ◌^◌, ◌≤◌, ◌<◌, ◌≡◌, ◌⊎◌, inl, inr, refl, ◌∙◌, true, none, some, List, [], ◌∷◌,
  ◌++◌, length, take, ltb, lt→ltb, le_or_lt, length-append, length-take, length-replicate, arith,
}
use io4edge_client_c.Demo.Text.{Buffer, stored, append, append_all, blank}
use io4edge_client_c.Demo.Text.Room.{concat, length-overwrite, append_lem, append_all-cons}

stored-bounds : (n : ℕ) (s : List ℕ) → (length (stored n s) ≤ n) × (0 < n → 0 < length (stored n s))
stored-bounds zero s = (omega arith, λ p. absurd (omega arith))
stored-bounds (suc room) s =
    let len = length-append (take room s) (0 ∷ []) in
    let cut = length-take room s in (omega arith, λ p. omega arith)

-- The place is in the buffer, and what is left is known.
record Inside (size : ℕ) (b : Buffer) : Type 0 where
  sized : length b.bytes ≡ size
  rest : b.pos + b.left ≡ size

-- The place is behind the buffer, and what is left has wrapped.
record Beyond (size : ℕ) (b : Buffer) : Type 0 where
  sized : length b.bytes ≡ size
  behind : size < b.pos
  wrapped : b.pos + b.left ≡ size + 2 ^ 64
  some_left : 0 < b.left

append-Beyond : (size : ℕ) (s : List ℕ) (b : Buffer) → Beyond size b → append s b ≡ none
unfolding append
append-Beyond size s b v =
    let some_stored = (stored-bounds b.left s).1 v.some_left in
    let out : ltb (length b.bytes) (b.pos + length (stored b.left s)) ≡ true =
      lt→ltb _ _ (omega (arith, v.sized, v.behind)) in
    rw out refl

append-Inside :
    (size : ℕ) (s : List ℕ) (b : Buffer)
    → size + length s < 2 ^ 64
    → Inside size b
    → (b' : Buffer) × (append s b ≡ some b')
      × (b'.pos ≡ b.pos + length s)
      × (Inside size b' ⊎ Beyond size b')
append-Inside size s b small v =
    let most = (stored-bounds b.left s).0 in
    let fits : b.pos + length (stored b.left s) ≤ length b.bytes = omega (arith, v.sized, v.rest) in
    let sized = length-overwrite b.bytes b.pos (stored b.left s) fits ∙ v.sized in
    (
      _,
      append_lem s b (stored b.left s) refl fits,
      refl,
      elim (le_or_lt (length s) b.left) [
        | inl le ↦ inl (record { sized = sized; rest = omega (arith, v.rest) })
        | inr gt ↦ inr (record {
          sized = sized;
          behind = omega (arith, v.rest);
          wrapped = omega (arith, v.rest);
          some_left = omega (arith, v.rest);
        })
      ],
    )

overruns :
    (size : ℕ) (front : List (List ℕ)) (last : List ℕ) (more : List (List ℕ)) (b : Buffer)
    → size + length (concat front) < 2 ^ 64
    → size < b.pos + length (concat front)
    → Inside size b ⊎ Beyond size b
    → append_all (front ++ last ∷ more) b ≡ none
unfolding append_all
overruns size [] last more b small long (inl v) = absurd (omega (arith, v.rest))
overruns size [] last more b small long (inr v) = rw (append_all, append-Beyond size last b v) refl
overruns size (s ∷ front) last more b small long (inr v) =
    rw (append_all, append-Beyond size s b v) refl
overruns size (s ∷ front) last more b small long (inl v) =
    let len = length-append s (concat front) in
    let (b', one, further, v') = append-Inside size s b (omega arith) v in
    append_all-cons s (front ++ last ∷ more) b one
    ∙ overruns size front last more b' (omega arith) (omega arith) v'

-- Where texts are together longer than the buffer and another one follows, a byte is stored behind the
-- buffer.
pub append_all-overruns :
    (size : ℕ) (front : List (List ℕ)) (last : List ℕ) (more : List (List ℕ))
    → size + length (concat front) < 2 ^ 64
    → size < length (concat front)
    → append_all (front ++ last ∷ more) (blank size) ≡ none
append_all-overruns size front last more small long =
    overruns size front last more (blank size) small (omega arith)
      (inl (record { sized = length-replicate size 0; rest = omega arith }))
