-- ===== src/Demo/CanSample/Fit.antt =====
-- Which samples of the CAN block fit into the 200 bytes of examples/canl2/dumpstream.c.
use io4edge_client_c.Base.{
  ℕ, ◌+◌, ◌*◌, ◌^◌, ◌≤◌, ◌<◌, ◌≡◌, inl, inr, refl, sym, ap, ◌∙◌, Bool-cases, true, none, some, List,
  [], ◌∷◌, ◌++◌, map, length, length-append, take, append_assoc, arith,
}
use io4edge_client_c.Demo.Text.{
  text, padded, decimal, hex_upper, hex_byte_upper, name_of, Buffer, append_all, blank,
}
use io4edge_client_c.Demo.Text.Room.{concat, append_all-fits}
use io4edge_client_c.Demo.Text.Overrun.{append_all-overruns}
use io4edge_client_c.Demo.Text.Width.{
  length-decimal, length-hex_upper, length-padded, length-hex_byte_upper,
}
use io4edge_client_c.Demo.CanSample.{
  CanFrame, Sample, Names, timestamp_text, id_text, byte_text, remote_texts, frame_texts,
  data_texts, error_text, state_text, sample_to_string,
}

-- All that is in front of the last text.
abbrev before_state : Names → CanFrame → Sample → List (List ℕ)
before_state names frame s = timestamp_text s ∷ (frame_texts frame ++ error_text names s ∷ [])

-- The whole line of a sample with a frame.
abbrev pub line : Names → CanFrame → Sample → List ℕ
line names frame s = concat (before_state names frame s ++ state_text names s ∷ [])

data_sample :
    (names : Names) (n : ℕ) (s : Sample) (frame : CanFrame)
    → s.isdataframe ≡ true
    → s.frame ≡ some frame
    → sample_to_string names n s
      ≡ append_all (before_state names frame s ++ state_text names s ∷ []) (blank n)
unfolding sample_to_string data_texts timestamp_text error_text state_text
data_sample names n s frame is_data f =
    rw (is_data, f)
      (ap (λ t. append_all (timestamp_text s ∷ t) (blank n))
        (sym
          (append_assoc (frame_texts frame) (error_text names s ∷ []) (state_text names s ∷ []))))

concat-append :
    (a b : List (List ℕ)) → length (concat (a ++ b)) ≡ length (concat a) + length (concat b)
concat-append [] b = omega arith
concat-append (s ∷ a) b =
    omega (arith, length-append s (concat (a ++ b)), length-append s (concat a), concat-append a b)

length-byte_texts : (bytes : List ℕ) → length (concat (map byte_text bytes)) ≡ 3 * length bytes
length-byte_texts [] = refl
length-byte_texts (byte ∷ rest) = omega (
  arith,
  length-append (byte_text byte) (concat (map byte_text rest)),
  length-append (text " ") (hex_byte_upper byte),
  length-hex_byte_upper byte,
  length-byte_texts rest,
)

length-timestamp :
    (s : Sample) → (15 ≤ length (timestamp_text s)) × (length (timestamp_text s) ≤ 25)
unfolding timestamp_text
length-timestamp s =
    let a = length-decimal s.timestamp in
    let b = length-padded b' ' 10 (decimal s.timestamp) in
    let c = length-append (padded b' ' 10 (decimal s.timestamp)) (text " us: ") in
    (omega arith, omega arith)

length-id : (frame : CanFrame) → (7 ≤ length (id_text frame)) × (length (id_text frame) ≤ 12)
unfolding id_text
length-id frame =
    let a = length-hex_upper frame.messageid in
    let b = length-padded b'0' 8 (hex_upper frame.messageid) in
    let c = length-padded b'0' 3 (hex_upper frame.messageid) in
    elim (Bool-cases frame.extendedframeformat) [
      | inl ext ↦ rw ext (omega arith, omega arith)
      | inr std ↦ rw std (omega arith, omega arith)
    ]

length-frame_texts :
    (frame : CanFrame)
    → (14 + 3 * length frame.data_bytes ≤ length (concat (frame_texts frame)))
      × (length (concat (frame_texts frame)) ≤ 21 + 3 * length frame.data_bytes)
length-frame_texts frame =
    let (least, most) = length-id frame in
    let rest = text " DATA:" ∷ (map byte_text frame.data_bytes ++ text " " ∷ []) in
    let a = length-append (id_text frame) (concat (remote_texts frame ++ rest)) in
    let b = concat-append (remote_texts frame) rest in
    let c = concat-append (map byte_text frame.data_bytes) (text " " ∷ []) in
    let d = length-byte_texts frame.data_bytes in
    let e : length (concat (remote_texts frame)) ≤ 2 = ground arith in (omega arith, omega arith)

length-line :
    (names : Names) (frame : CanFrame) (s : Sample)
    → (36 + 3 * length frame.data_bytes ≤ length (concat (before_state names frame s)))
      × (length (concat (before_state names frame s))
          ≤ 53 + 3 * length frame.data_bytes + length (name_of names.error_events s.error))
      × (length (line names frame s)
          ≡ length (concat (before_state names frame s))
            + (8 + length (name_of names.controller_states s.controllerstate)))
unfolding error_text state_text
length-line names frame s =
    let (least, most) = length-frame_texts frame in
    let (shortest, longest) = length-timestamp s in
    let a =
      length-append (timestamp_text s) (concat (frame_texts frame ++ error_text names s ∷ [])) in
    let b = concat-append (frame_texts frame) (error_text names s ∷ []) in
    let c = length-append (error_text names s) [] in
    let d = concat-append (before_state names frame s) (state_text names s ∷ []) in
    let e = length-append (state_text names s) [] in (omega arith, omega arith, omega arith)

-- `sample_to_string` on the 200 bytes of dumpstream.c: for a sample with a frame, if 3 characters for each byte of its
-- data and the names of its error and state are together under 139, all texts are in the buffer in their order, with a
-- NUL behind them, and nothing is stored outside. A CAN frame's 8 bytes leave 115 characters to the names.
pub sample_fits :
    (names : Names) (s : Sample) (frame : CanFrame)
    → s.isdataframe ≡ true
    → s.frame ≡ some frame
    → length (name_of names.error_events s.error)
        + length (name_of names.controller_states s.controllerstate)
        + 3 * length frame.data_bytes
      < 139
    → (b : Buffer) × (sample_to_string names 200 s ≡ some b)
      × (take (length (line names frame s) + 1) b.bytes ≡ line names frame s ++ 0 ∷ [])
sample_fits names s frame is_data f short =
    let (least, most, all) = length-line names frame s in
    let (b, done, content) =
      append_all-fits 200 (before_state names frame s ++ state_text names s ∷ []) (omega arith)
        (omega arith) in
    (b, data_sample names 200 s frame is_data f ∙ done, content)

-- The same for a frame with 55 or more bytes of data, which the message may have: a byte is stored behind the buffer.
pub sample_overruns :
    (names : Names) (s : Sample) (frame : CanFrame)
    → s.isdataframe ≡ true
    → s.frame ≡ some frame
    → 55 ≤ length frame.data_bytes
    → length frame.data_bytes < 2 ^ 32
    → length (name_of names.error_events s.error) < 2 ^ 32
    → sample_to_string names 200 s ≡ none
sample_overruns names s frame is_data f long small short =
    let (least, most, all) = length-line names frame s in
    data_sample names 200 s frame is_data f
    ∙ append_all-overruns 200 (before_state names frame s) (state_text names s) [] (omega arith)
        (omega arith)
