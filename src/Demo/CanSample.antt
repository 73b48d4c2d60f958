-- ===== src/Demo/CanSample.antt =====
-- A sample of the CAN block as a line of text: `sample_to_string` of examples/canl2/dumpstream.c.
pub mod Fit
use io4edge_client_c.Base.{
  ℕ, Bool, true, false, Option, none, some, List, [], ◌∷◌, ◌++◌, map, if◌then◌else◌,
}
use io4edge_client_c.Demo.Text.{
  text, padded, decimal, hex_upper, hex_byte_upper, name_of, Buffer, append_all, blank,
}

-- `CanL2__Frame`
pub record CanFrame : Type 0 where
  pub messageid : ℕ
  pub extendedframeformat : Bool
  pub remoteframe : Bool
  pub data_bytes : List ℕ

-- `CanL2__Sample`; the frame is `none` where the pointer is NULL.
pub record Sample : Type 0 where
  pub timestamp : ℕ
  pub isdataframe : Bool
  pub frame : Option CanFrame
  pub error : ℕ
  pub controllerstate : ℕ

-- The names in `can_l2__error_event__descriptor` and `can_l2__controller_state__descriptor`.
pub record Names : Type 0 where
  pub error_events : List (List ℕ)
  pub controller_states : List (List ℕ)

-- The text of each `snprintf`.
unfoldable pub timestamp_text : Sample → List ℕ
timestamp_text s = padded b' ' 10 (decimal s.timestamp) ++ text " us: "

unfoldable pub id_text : CanFrame → List ℕ
id_text frame =
    text "ID: "
    ++ padded b'0' (if frame.extendedframeformat then 8 else 3) (hex_upper frame.messageid)

abbrev pub byte_text : ℕ → List ℕ
byte_text byte = text " " ++ hex_byte_upper byte

abbrev pub remote_texts : CanFrame → List (List ℕ)
remote_texts frame = if frame.remoteframe then text " R" ∷ [] else []

abbrev pub frame_texts : CanFrame → List (List ℕ)
frame_texts frame =
    id_text frame
    ∷ (remote_texts frame ++ text " DATA:" ∷ (map byte_text frame.data_bytes ++ text " " ∷ []))

-- The texts for the frame; `none` where it is read through a NULL pointer.
unfoldable pub data_texts : Sample → Option (List (List ℕ))
data_texts s =
    if s.isdataframe
    then elim s.frame [ none ↦ none | some frame ↦ some (frame_texts frame) ]
    else some []

unfoldable pub error_text : Names → Sample → List ℕ
error_text names s = text "ERROR: " ++ name_of names.error_events s.error

unfoldable pub state_text : Names → Sample → List ℕ
state_text names s = text " STATE: " ++ name_of names.controller_states s.controllerstate

-- `sample_to_string` on a buffer of `buf_len` bytes: one `snprintf` after another. `none`: it stores a byte outside
-- the buffer, or reads through a NULL pointer.
unfoldable pub sample_to_string : Names → ℕ → Sample → Option Buffer
sample_to_string names buf_len s = elim (data_texts s) [
  | none ↦ none
  | some middle ↦
      append_all (timestamp_text s ∷ (middle ++ error_text names s ∷ state_text names s ∷ []))
        (blank buf_len)
]
