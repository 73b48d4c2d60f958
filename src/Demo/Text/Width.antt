-- ===== src/Demo/Text/Width.antt =====
-- How many characters a formatted number takes.
use io4edge_client_c.Base.{
  ℕ, zero, suc, ◌-◌, ◌/◌, ◌%◌, ◌≤◌, ◌≡◌, inl, inr, List, [], ◌∷◌, length, ltb, replicate,
  Bool-cases, length-append, length-replicate, max, arith,
}
use io4edge_client_c.Demo.Text.{
  digit, digits, padded, decimal, hex, hex_upper, hex_byte, hex_byte_upper,
}

pub length-digits : (base ten n v : ℕ) → length (digits base ten n v) ≤ n
unfolding digits
length-digits base ten zero v = omega arith
length-digits base ten (suc n) v =
    let front = length-digits base ten n (v / base) in
    let both = length-append (digits base ten n (v / base)) (digit ten (v % base) ∷ []) in
    elim (Bool-cases (ltb v base)) [
      | inl short ↦ rw short (omega arith)
      | inr long ↦ rw long (omega arith)
    ]

pub length-padded :
    (fill width : ℕ) (s : List ℕ) → length (padded fill width s) ≡ max width (length s)
unfolding padded
length-padded fill width s = omega (
  arith,
  length-append (replicate (width - length s) fill) s,
  length-replicate (width - length s) fill,
)

pub length-hex_byte : (v : ℕ) → length (hex_byte v) ≡ 2
unfolding hex_byte
length-hex_byte v =
    omega (arith, length-padded b'0' 2 (digits 16 b'a' 2 v), length-digits 16 b'a' 2 v)

pub length-hex_byte_upper : (v : ℕ) → length (hex_byte_upper v) ≡ 2
unfolding hex_byte_upper
length-hex_byte_upper v =
    omega (arith, length-padded b'0' 2 (digits 16 b'A' 2 v), length-digits 16 b'A' 2 v)

pub length-decimal : (v : ℕ) → length (decimal v) ≤ 20
unfolding decimal
length-decimal v = length-digits 10 b'a' 20 v

pub length-hex : (v : ℕ) → length (hex v) ≤ 8
unfolding hex
length-hex v = length-digits 16 b'a' 8 v

pub length-hex_upper : (v : ℕ) → length (hex_upper v) ≤ 8
unfolding hex_upper
length-hex_upper v = length-digits 16 b'A' 8 v
