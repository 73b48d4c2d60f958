-- ===== src/Base/Literals.antt =====
-- String literals of the source as lists of bytes.
use Prim.Native.Nat.{ℕ, zero, suc, ◌+◌}
use Prim.Native.Char.{code}
use Prim.Native.String.{String, count, char_at}
use mathlib.Core.List.{List, [], ◌∷◌}

-- The characters of a literal, all of them ASCII.
abbrev pub characters : String → ℕ → ℕ → List ℕ
characters s i zero = []
characters s i (suc n) = code (char_at s i) ∷ characters s (i + 1) n

abbrev pub text : String → List ℕ
text s = characters s 0 (count s)
