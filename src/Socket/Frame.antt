-- ===== src/Socket/Frame.antt =====
-- The frame header: what `write_msg` encodes and what `read_msg` decodes.
use io4edge_client_c.Base.{
  ℕ, ◌+◌, ◌*◌, ◌/◌, ◌%◌, ◌^◌, ◌<◌, ◌≡◌, ◌↔◌, refl, List, [], ◌∷◌, ◌++◌, length, bit_or-shifted,
  arith,
}
use io4edge_client_c.Socket.{header_len, put_header, fstream_header_size}

-- The header that `write_msg` puts before a payload of `n` bytes.
abbrev pub header : ℕ → List ℕ
header n =
    0xFE
    ∷ 0xED
    ∷ (n % 2 ^ 8)
    ∷ (n / 2 ^ 8 % 2 ^ 8)
    ∷ (n / 2 ^ 16 % 2 ^ 8)
    ∷ (n / 2 ^ 16 % 2 ^ 8)
    ∷ []

-- Whatever stood in the room for the header, `write_msg` replaces it and leaves the payload alone.
pub put_header_lem :
    (room payload : List ℕ) (n : ℕ)
    → length room ≡ fstream_header_size
    → put_header (room ++ payload) n ≡ header n ++ payload
unfolding put_header
put_header_lem (a ∷ b ∷ c ∷ d ∷ e ∷ f ∷ []) payload n h = refl
put_header_lem [] payload n h = absurd (omega arith)
put_header_lem (a ∷ []) payload n h = absurd (omega arith)
put_header_lem (a ∷ b ∷ []) payload n h = absurd (omega arith)
put_header_lem (a ∷ b ∷ c ∷ []) payload n h = absurd (omega arith)
put_header_lem (a ∷ b ∷ c ∷ d ∷ []) payload n h = absurd (omega arith)
put_header_lem (a ∷ b ∷ c ∷ d ∷ e ∷ []) payload n h = absurd (omega arith)
put_header_lem (a ∷ b ∷ c ∷ d ∷ e ∷ f ∷ g ∷ r) payload n h = absurd (omega arith)

-- `len |= byte << k` adds up four bytes.
pub header_len_bytes :
    (m0 m1 a b c d : ℕ) (rest : List ℕ)
    → a < 2 ^ 8
    → b < 2 ^ 8
    → c < 2 ^ 8
    → d < 2 ^ 8
    → header_len (m0 ∷ m1 ∷ a ∷ b ∷ c ∷ d ∷ rest) ≡ a + b * 2 ^ 8 + c * 2 ^ 16 + d * 2 ^ 24
unfolding header_len
header_len_bytes m0 m1 a b c d rest ha hb hc hd =
    let eb : (b * 2 ^ 8) % 2 ^ 32 ≡ b * 2 ^ 8 = omega arith in
    let ec : (c * 2 ^ 16) % 2 ^ 32 ≡ c * 2 ^ 16 = omega arith in
    let ed : (d * 2 ^ 24) % 2 ^ 32 ≡ d * 2 ^ 24 = omega arith in
    rw (
      eb,
      ec,
      ed,
      bit_or-shifted 8 a b ha,
      bit_or-shifted 16 (a + b * 2 ^ 8) c (omega arith),
      bit_or-shifted 24 (a + b * 2 ^ 8 + c * 2 ^ 16) d (omega arith),
    )

-- What a receiver reads from the header of a payload of `n` bytes: the lower three bytes of `n`, and
-- the third of them again in the place of the fourth.
pub header_len-header : (n : ℕ) → header_len (header n) ≡ n % 2 ^ 24 + n / 2 ^ 16 % 2 ^ 8 * 2 ^ 24
header_len-header n = omega (
  arith,
  header_len_bytes 0xFE 0xED (n % 2 ^ 8) (n / 2 ^ 8 % 2 ^ 8) (n / 2 ^ 16 % 2 ^ 8)
      (n / 2 ^ 16 % 2 ^ 8) [] (omega arith) (omega arith) (omega arith) (omega arith),
)

-- For a length that fits `uint32_t` the header decodes to the length exactly when the two upper bytes
-- of the length are equal.
pub header_len_iff :
    (n : ℕ) → n < 2 ^ 32 → ((header_len (header n) ≡ n) ↔ (n / 2 ^ 24 ≡ n / 2 ^ 16 % 2 ^ 8))
header_len_iff n h =
    (λ e. omega (arith, header_len-header n), λ e. omega (arith, header_len-header n))
