-- ===== src/Demo/Text.antt =====
-- Lines that the examples put together with `snprintf` in a buffer of fixed size.
pub mod Room
pub mod Overrun
pub mod Width
pub use io4edge_client_c.Base.{text}
use io4edge_client_c.Base.{
  ℕ, zero, suc, ◌+◌, ◌-◌, ◌/◌, ◌%◌, ◌^◌, min, Bool, Option, none, some, List, [], ◌∷◌, ◌++◌, length,
  take, drop, get_or, replicate, ltb, ◌==◌, if◌then◌else◌,
}

-- Digits from the first on, `ten` being the letter for the digit 10; `n` of them are enough below
-- `base ^ n`.
abbrev pub digit : ℕ → ℕ → ℕ
digit ten d = if ltb d 10 then b'0' + d else ten + (d - 10)

unfoldable pub digits : ℕ → ℕ → ℕ → ℕ → List ℕ
digits base ten zero v = []
digits base ten (suc n) v =
    let front = digits base ten n (v / base) in
    if ltb v base then digit ten v ∷ [] else front ++ digit ten (v % base) ∷ []

-- A field of at least `width` characters.
unfoldable pub padded : ℕ → ℕ → List ℕ → List ℕ
padded fill width s = replicate (width - length s) fill ++ s

-- `%PRIu64`; `%x` and `%X` of a `uint32_t`; `%02x` and `%02X` of a `uint8_t`.
unfoldable pub decimal : ℕ → List ℕ
decimal v = digits 10 b'a' 20 v

unfoldable pub hex : ℕ → List ℕ
hex v = digits 16 b'a' 8 v

unfoldable pub hex_upper : ℕ → List ℕ
hex_upper v = digits 16 b'A' 8 v

unfoldable pub hex_byte : ℕ → List ℕ
hex_byte v = padded b'0' 2 (digits 16 b'a' 2 v)

unfoldable pub hex_byte_upper : ℕ → List ℕ
hex_byte_upper v = padded b'0' 2 (digits 16 b'A' 2 v)

-- The name that a descriptor's table has for a value, and `"unknown"` past its end.
unfoldable pub name_of : List (List ℕ) → ℕ → List ℕ
name_of names value = if ltb value (length names) then get_or names value [] else text "unknown"

-- A buffer, the place behind the last text, and the `size_t` that says how many bytes are left.
pub record Buffer : Type 0 where
  pub bytes : List ℕ
  pub pos : ℕ
  pub left : ℕ

-- Bytes stored from `pos` on.
abbrev pub overwrite : List ℕ → ℕ → List ℕ → List ℕ
overwrite bytes pos w = take pos bytes ++ (w ++ drop (pos + length w) bytes)

-- What `snprintf(p, left, …)` stores of a text: as much as fits in front of a NUL. A size beyond INT_MAX is
-- taken as it is.
abbrev pub stored : ℕ → List ℕ → List ℕ
stored zero s = []
stored (suc room) s = take room s ++ 0 ∷ []

-- `len = snprintf(p, left, …); left -= len; p += len;`. `none`: it stores a byte outside the buffer.
unfoldable pub append : List ℕ → Buffer → Option Buffer
append s b =
    let w = stored b.left s in
    if ltb (length b.bytes) (b.pos + length w)
    then none
    else some (record {
      bytes = overwrite b.bytes b.pos w;
      pos = b.pos + length s;
      left = (b.left + 2 ^ 64 - length s) % 2 ^ 64;
    })

-- The same for one text after another.
unfoldable pub append_all : List (List ℕ) → Buffer → Option Buffer
append_all [] b = some b
append_all (s ∷ more) b = elim (append s b) [ none ↦ none | some b' ↦ append_all more b' ]

-- A buffer of `size` bytes, before the first text.
abbrev pub blank : ℕ → Buffer
blank size = record { bytes = replicate size 0; pos = 0; left = size }
