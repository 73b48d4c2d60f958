-- ===== src/Base/Bits.antt =====
-- `|` of fields that do not overlap is their sum.
use Prim.Native.Nat.{
  ℕ, zero, suc, ◌+◌, ◌*◌, ◌/◌, ◌%◌, ◌^◌, ◌≤◌, ◌<◌, max, bit_or, digits, bit_or-bitwise,
}
use mathlib.Core.Path.{◌≡◌, refl}
use native.Mathlib.Nat.{pow-suc}
use native.Mathlib.Omega.{arith}

-- The recursion on binary digits that `bit_or` stands for, on fuel `n`.
abbrev or_digits : ℕ → ℕ → ℕ → ℕ
or_digits n a b = digits (λ b. b) max n a b

-- Any fuel from `a` on gives the same digits.
or_digits-eq : (n m a b : ℕ) → a ≤ n → a ≤ m → or_digits n a b ≡ or_digits m a b
or_digits-eq zero zero a b p q = refl
or_digits-eq zero (suc m) zero b p q = refl
or_digits-eq zero (suc m) (suc a) b p q = absurd (omega arith)
or_digits-eq (suc n) zero zero b p q = refl
or_digits-eq (suc n) zero (suc a) b p q = absurd (omega arith)
or_digits-eq (suc n) (suc m) zero b p q = refl
or_digits-eq (suc n) (suc m) (suc a) b p q =
    omega (arith, or_digits-eq n m (suc a / 2) (b / 2) (omega arith) (omega arith))

zero-bit_or : (b : ℕ) → bit_or 0 b ≡ b
zero-bit_or b = bit_or-bitwise 0 b

bit_or_halves : (a b : ℕ) → bit_or a b ≡ bit_or (a / 2) (b / 2) * 2 + max (a % 2) (b % 2)
bit_or_halves zero b = omega (arith, zero-bit_or b, zero-bit_or (b / 2))
bit_or_halves (suc a) b = omega (
  arith,
  bit_or-bitwise (suc a) b,
  bit_or-bitwise (suc a / 2) (b / 2),
  or_digits-eq a (suc a / 2) (suc a / 2) (b / 2) (omega arith) (omega arith),
)

-- A value of `k` bits and one shifted left by `k`.
pub bit_or-shifted : (k r q : ℕ) → r < 2 ^ k → bit_or r (q * 2 ^ k) ≡ r + q * 2 ^ k
bit_or-shifted zero zero q h = omega (arith, zero-bit_or (q * 1))
bit_or-shifted zero (suc r) q h = absurd (omega arith)
bit_or-shifted (suc k) r q h =
    let double : q * 2 ^ suc k ≡ 2 * (q * 2 ^ k) = rw pow-suc (omega arith) in
    let half : q * 2 ^ suc k / 2 ≡ q * 2 ^ k = omega arith in
    let step = rw half at (bit_or_halves r (q * 2 ^ suc k)) in
    omega (arith, step, double, bit_or-shifted k (r / 2) q (omega (arith, pow-suc 2 k)))
