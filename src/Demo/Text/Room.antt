-- ===== src/Demo/Text/Room.antt =====
-- Texts appended one after another with `snprintf`: which ones stay inside the buffer.
use io4edge_client_c.Base.{
  ℕ, zero, suc, ◌+◌, ◌-◌, ◌%◌, ◌^◌, ◌≤◌, ◌<◌, ◌≡◌, refl, ap, sym, ◌∙◌, some, List, [], ◌∷◌, ◌++◌,
  length, take, drop, append_assoc, append-nil, length-append, length-take, length-drop,
  length-replicate, take-append, take-length_le, arith,
}
use io4edge_client_c.Demo.Text.{Buffer, overwrite, stored, append, append_all, blank}

abbrev pub concat : List (List ℕ) → List ℕ
concat [] = []
concat (s ∷ more) = s ++ concat more

-- The buffer of `size` bytes holds `sofar` and a NUL, and knows what is left.
pub record Holds (size : ℕ) (sofar : List ℕ) (b : Buffer) : Type 0 where
  pub sized : length b.bytes ≡ size
  pub place : b.pos ≡ length sofar
  pub rest : b.pos + b.left ≡ size
  pub room : length sofar < size
  pub held : take b.pos b.bytes ≡ sofar
  pub ended : take (b.pos + 1) b.bytes ≡ sofar ++ 0 ∷ []

pub length-overwrite :
    (bytes : List ℕ) (pos : ℕ) (w : List ℕ)
    → pos + length w ≤ length bytes
    → length (overwrite bytes pos w) ≡ length bytes
length-overwrite bytes pos w h = omega (
  arith,
  length-append (take pos bytes) (w ++ drop (pos + length w) bytes),
  length-append w (drop (pos + length w) bytes),
  length-take pos bytes,
  length-drop (pos + length w) bytes,
)

take_front : (xs ys : List ℕ) (n : ℕ) → n ≡ length xs → take n (xs ++ ys) ≡ xs
take_front xs ys n e = rw e (take-append xs ys)

-- What stands in front of a place behind the first `s` of the bytes stored.
take-overwrite :
    (bytes : List ℕ) (pos : ℕ) (s rest : List ℕ)
    → pos ≤ length bytes
    → take (pos + length s) (overwrite bytes pos (s ++ rest)) ≡ take pos bytes ++ s
take-overwrite bytes pos s rest h =
    let tail = drop (pos + length (s ++ rest)) bytes in
    let regroup : overwrite bytes pos (s ++ rest) ≡ (take pos bytes ++ s) ++ (rest ++ tail) =
      ap (λ t. take pos bytes ++ t) (append_assoc s rest tail)
      ∙ sym (append_assoc (take pos bytes) s (rest ++ tail)) in
    rw regroup (
      take_front (take pos bytes ++ s) (rest ++ tail) (pos + length s)
        (omega (arith, length-append (take pos bytes) s, length-take pos bytes)))

stored-whole : (n : ℕ) (s : List ℕ) → length s < n → stored n s ≡ s ++ 0 ∷ []
stored-whole zero s h = absurd (omega arith)
stored-whole (suc room) s h = ap (λ t. t ++ 0 ∷ []) (take-length_le room s (omega arith))

pub append_lem :
    (s : List ℕ) (b : Buffer) (w : List ℕ)
    → stored b.left s ≡ w
    → b.pos + length w ≤ length b.bytes
    → append s b
      ≡ some (record {
        bytes = overwrite b.bytes b.pos w;
        pos = b.pos + length s;
        left = (b.left + 2 ^ 64 - length s) % 2 ^ 64;
      })
unfolding append
append_lem s b w e h = rw e (ground arith)

-- A text that fits with its NUL.
append-Holds :
    (size : ℕ) (sofar s : List ℕ) (b : Buffer)
    → size < 2 ^ 64
    → Holds size sofar b
    → length sofar + length s < size
    → (b' : Buffer) × (append s b ≡ some b') × Holds size (sofar ++ s) b'
append-Holds size sofar s b small v fits =
    let len = length-append s (0 ∷ []) in
    let whole : stored b.left s ≡ s ++ 0 ∷ [] =
      stored-whole b.left s (omega (arith, v.rest, v.place)) in
    let inside : b.pos + length (s ++ 0 ∷ []) ≤ length b.bytes =
      omega (arith, v.sized, v.place, len) in
    let front = take-overwrite b.bytes b.pos s (0 ∷ []) (omega (arith, inside, len)) in
    let all : take (b.pos + length (s ++ 0 ∷ [])) (overwrite b.bytes b.pos (s ++ 0 ∷ []))
        ≡ take b.pos b.bytes ++ (s ++ 0 ∷ []) =
      ap (λ t. take (b.pos + length (s ++ 0 ∷ [])) (overwrite b.bytes b.pos t))
        (sym (append-nil (s ++ 0 ∷ [])))
      ∙ take-overwrite b.bytes b.pos (s ++ 0 ∷ []) [] (omega (arith, inside, len)) in
    let one_more : b.pos + length s + 1 ≡ b.pos + length (s ++ 0 ∷ []) = omega (arith, len) in
    (
      _,
      append_lem s b _ whole inside,
      record {
        sized = length-overwrite b.bytes b.pos (s ++ 0 ∷ []) inside ∙ v.sized;
        place = omega (arith, v.place, length-append sofar s);
        rest = omega (arith, v.rest, v.place);
        room = omega (arith, length-append sofar s);
        held = front ∙ ap (λ t. t ++ s) v.held;
        ended =
            ap (λ n. take n (overwrite b.bytes b.pos (s ++ 0 ∷ []))) one_more
            ∙ all
            ∙ ap (λ t. t ++ (s ++ 0 ∷ [])) v.held
            ∙ sym (append_assoc sofar s (0 ∷ []));
      },
    )

pub append_all-cons :
    (s : List ℕ) (texts : List (List ℕ)) (b : Buffer) {b' : Buffer}
    → append s b ≡ some b'
    → append_all (s ∷ texts) b ≡ append_all texts b'
unfolding append_all
append_all-cons s texts b e = ground arith

append_all-Holds :
    (size : ℕ) (sofar : List ℕ) (texts : List (List ℕ)) (b : Buffer)
    → size < 2 ^ 64
    → Holds size sofar b
    → length sofar + length (concat texts) < size
    → (b' : Buffer) × (append_all texts b ≡ some b') × Holds size (sofar ++ concat texts) b'
unfolding append_all
append_all-Holds size sofar [] b small v fits = (b, refl, rw (append-nil sofar) v)
append_all-Holds size sofar (s ∷ texts) b small v fits =
    let len = length-append s (concat texts) in
    let (b', one, v') = append-Holds size sofar s b small v (omega (arith, len)) in
    let (b'', more, v'') =
      append_all-Holds size (sofar ++ s) texts b' small v'
        (omega (arith, len, length-append sofar s)) in
    (b'', append_all-cons s texts b one ∙ more, rw (sym (append_assoc sofar s (concat texts))) v'')

blank-Holds : (size : ℕ) → 0 < size → Holds size [] (blank size)
blank-Holds zero h = absurd (omega arith)
blank-Holds (suc n) h = record {
  sized = length-replicate (suc n) 0;
  place = refl;
  rest = omega arith;
  room = h;
  held = refl;
  ended = refl;
}

-- Texts that are together shorter than the buffer stay inside it: it holds them, one behind the other, and a
-- NUL.
pub append_all-fits :
    (size : ℕ) (texts : List (List ℕ))
    → size < 2 ^ 64
    → length (concat texts) < size
    → (b : Buffer) × (append_all texts (blank size) ≡ some b)
      × (take (length (concat texts) + 1) b.bytes ≡ concat texts ++ 0 ∷ [])
append_all-fits size texts small fits =
    let (b, done, v) =
      append_all-Holds size [] texts (blank size) small (blank-Holds size (omega arith))
        (omega arith) in
    (b, done, ap (λ n. take (n + 1) b.bytes) (sym v.place) ∙ v.ended)
