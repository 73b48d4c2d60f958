-- ===== src/Demo/Telegram.antt =====
-- A telegram as a line of text: `telegram_to_string` of examples/mvbsniffer/main.c and of
-- examples/mvbsniffer/reconnect.c.
pub mod Fit
use Prim.Native.String.{String}
use io4edge_client_c.Base.{
  ℕ, ◌<◌, Option, none, some, List, [], ◌∷◌, ◌++◌, length, ltb, if◌then◌else◌,
}
use io4edge_client_c.Demo.Text.{
  text, padded, decimal, hex, hex_byte, name_of, Buffer, append, blank,
}

-- `MvbSniffer__Telegram`
pub record Telegram : Type 0 where
  pub timestamp : ℕ
  pub address : ℕ
  pub type : ℕ
  pub state : ℕ
  pub data_bytes : List ℕ

-- The text of the first `snprintf`; `addr` is what stands between the timestamp and the address. `names`
-- are the names in `mvb_sniffer__telegram__type__descriptor`.
unfoldable pub heading : String → List (List ℕ) → Telegram → List ℕ
heading addr names t =
    text "Telegram: ts="
    ++ decimal t.timestamp
    ++ text addr
    ++ padded b'0' 3 (hex t.address)
    ++ text ", "
    ++ name_of names t.type
    ++ text ","

-- The loop over the data.
unfoldable pub append_bytes : List ℕ → Buffer → Option Buffer
append_bytes [] b = some b
append_bytes (byte ∷ rest) b = elim (append (text " " ++ hex_byte byte) b) [
  | none ↦ none
  | some b' ↦ append_bytes rest b'
]

-- The tail of the function, from the test of `data.len` on.
unfoldable pub append_data : List ℕ → Buffer → Option Buffer
append_data bytes b =
    if ltb 0 (length bytes)
    then elim (append (text " data=") b) [ none ↦ none | some b' ↦ append_bytes bytes b' ]
    else some b

-- `telegram_to_string` on a buffer of `buf_len` bytes. `none`: it stores a byte outside the buffer.
unfoldable pub telegram_to_string : String → List (List ℕ) → ℕ → Telegram → Option Buffer
telegram_to_string addr names buf_len t = elim (append (heading addr names t) (blank buf_len)) [
  | none ↦ none
  | some b ↦ append_data t.data_bytes b
]

-- The two files' functions differ in what stands in front of the address; nothing calls the one of reconnect.c.
abbrev pub main_addr : String
main_addr = " addr="

abbrev pub reconnect_addr : String
reconnect_addr = ", addr="

abbrev pub reconnect_telegram_to_string : List (List ℕ) → ℕ → Telegram → Option Buffer
reconnect_telegram_to_string = telegram_to_string reconnect_addr
