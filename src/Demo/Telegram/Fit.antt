-- ===== src/Demo/Telegram/Fit.antt =====
-- Which telegrams fit into the 200 bytes of examples/mvbsniffer/main.c.
use Prim.Native.String.{String}
use io4edge_client_c.Base.{
  ℕ, ◌+◌, ◌*◌, ◌≤◌, ◌<◌, ◌≡◌, inl, inr, refl, sym, ◌∙◌, some, Option-cases, List, [], ◌∷◌, ◌++◌,
  map, length, lt→ltb, length-append, take, arith,
}
use io4edge_client_c.Demo.Text.{text, hex, hex_byte, name_of, Buffer, append, append_all, blank}
use io4edge_client_c.Demo.Text.Room.{concat, append_all-cons, append_all-fits}
use io4edge_client_c.Demo.Text.Width.{length-decimal, length-hex, length-padded, length-hex_byte}
use io4edge_client_c.Demo.Telegram.{
  Telegram, heading, append_bytes, append_data, telegram_to_string, main_addr, reconnect_addr,
  reconnect_telegram_to_string,
}

abbrev byte_text : ℕ → List ℕ
byte_text byte = text " " ++ hex_byte byte

-- The texts that `telegram_to_string` appends.
abbrev pub data_texts : List ℕ → List (List ℕ)
data_texts [] = []
data_texts (byte ∷ rest) = text " data=" ∷ map byte_text (byte ∷ rest)

abbrev pub texts : String → List (List ℕ) → Telegram → List (List ℕ)
texts addr names t = heading addr names t ∷ data_texts t.data_bytes

append_bytes-all :
    (bytes : List ℕ) (b : Buffer) → append_bytes bytes b ≡ append_all (map byte_text bytes) b
unfolding append_bytes append_all
append_bytes-all [] b = refl
append_bytes-all (byte ∷ rest) b = elim (Option-cases (append (byte_text byte) b)) [
  | inl out ↦ rw (append_bytes, append_all, out) refl
  | inr (b', one) ↦ rw (append_bytes, append_all, one) (append_bytes-all rest b')
]

append_data-all :
    (bytes : List ℕ) (b : Buffer) → append_data bytes b ≡ append_all (data_texts bytes) b
unfolding append_data append_all
append_data-all [] b = refl
append_data-all (byte ∷ rest) b = elim (Option-cases (append (text " data=") b)) [
  | inl out ↦ ground arith
  | inr (b', one) ↦
      let opened : append_data (byte ∷ rest) b ≡ append_bytes (byte ∷ rest) b' =
        rw (append_data, lt→ltb 0 (length (byte ∷ rest)) (omega arith), one) refl in
      opened
      ∙ append_bytes-all (byte ∷ rest) b'
      ∙ sym (append_all-cons (text " data=") (map byte_text (byte ∷ rest)) b one)
]

-- The function is one text after another.
telegram_to_string-all :
    (addr : String) (names : List (List ℕ)) (buf_len : ℕ) (t : Telegram)
    → telegram_to_string addr names buf_len t ≡ append_all (texts addr names t) (blank buf_len)
unfolding telegram_to_string append_all
telegram_to_string-all addr names buf_len t =
    elim (Option-cases (append (heading addr names t) (blank buf_len))) [
      | inl out ↦ rw (telegram_to_string, append_all, out) refl
      | inr (b', one) ↦ rw (telegram_to_string, append_all, one) (append_data-all t.data_bytes b')
    ]

length-byte_texts : (bytes : List ℕ) → length (concat (map byte_text bytes)) ≡ 3 * length bytes
length-byte_texts [] = refl
length-byte_texts (byte ∷ rest) = omega (
  arith,
  length-append (byte_text byte) (concat (map byte_text rest)),
  length-append (text " ") (hex_byte byte),
  length-hex_byte byte,
  length-byte_texts rest,
)

length-heading :
    (names : List (List ℕ)) (t : Telegram)
    → (length (heading main_addr names t) ≤ 50 + length (name_of names t.type))
      × (25 + length (name_of names t.type) ≤ length (heading main_addr names t))
      × (length (heading reconnect_addr names t) ≤ 51 + length (name_of names t.type))
unfolding heading
length-heading names t =
    let a = length-decimal t.timestamp in
    let b = length-hex t.address in
    let c = length-padded b'0' 3 (hex t.address) in
    (
      simp (length-append) (omega arith),
      simp (length-append) (omega arith),
      simp (length-append) (omega arith),
    )

length-data_texts :
    (bytes : List ℕ) → 0 < length bytes → length (concat (data_texts bytes)) ≡ 6 + 3 * length bytes
length-data_texts [] h = absurd (omega arith)
length-data_texts (byte ∷ rest) h = omega (arith, length-byte_texts (byte ∷ rest))

length-data_most : (bytes : List ℕ) → length (concat (data_texts bytes)) ≤ 6 + 3 * length bytes
length-data_most [] = omega arith
length-data_most (byte ∷ rest) = omega (arith, length-data_texts (byte ∷ rest) (omega arith))

-- `telegram_to_string` of main.c on its 200 bytes: if the telegram's data and the name of its type are short,
-- 3 characters for each byte and the name together under 144, all texts are in the buffer in their order, with a NUL
-- behind them, and nothing is stored outside.
pub telegram_fits :
    (names : List (List ℕ)) (t : Telegram)
    → length (name_of names t.type) + 3 * length t.data_bytes < 144
    → (b : Buffer) × (telegram_to_string main_addr names 200 t ≡ some b)
      × (take (length (concat (texts main_addr names t)) + 1) b.bytes
          ≡ concat (texts main_addr names t) ++ 0 ∷ [])
telegram_fits names t short =
    let (most, least, reconnect_most) = length-heading names t in
    let rest = length-data_most t.data_bytes in
    let both = length-append (heading main_addr names t) (concat (data_texts t.data_bytes)) in
    let (b, done, content) =
      append_all-fits 200 (texts main_addr names t) (omega arith) (omega arith) in
    (b, telegram_to_string-all main_addr names 200 t ∙ done, content)

-- The same for the function of reconnect.c, with one character less for the data and the name.
reconnect_telegram_fits :
    (names : List (List ℕ)) (t : Telegram)
    → length (name_of names t.type) + 3 * length t.data_bytes < 143
    → (b : Buffer) × (reconnect_telegram_to_string names 200 t ≡ some b)
      × (take (length (concat (texts reconnect_addr names t)) + 1) b.bytes
          ≡ concat (texts reconnect_addr names t) ++ 0 ∷ [])
reconnect_telegram_fits names t short =
    let (most, least, reconnect_most) = length-heading names t in
    let rest = length-data_most t.data_bytes in
    let both = length-append (heading reconnect_addr names t) (concat (data_texts t.data_bytes)) in
    let (b, done, content) =
      append_all-fits 200 (texts reconnect_addr names t) (omega arith) (omega arith) in
    (b, telegram_to_string-all reconnect_addr names 200 t ∙ done, content)
