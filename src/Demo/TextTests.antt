-- ===== src/Demo/TextTests.antt =====
-- Lines of text that fit, and one that does not.
use io4edge_client_c.Base.{
  ℕ, ◌+◌, ◌≡◌, refl, true, false, none, some, [], ◌∷◌, ◌++◌, length, take, replicate, arith,
}
use io4edge_client_c.Demo.Text.{text, decimal, digits, hex, hex_byte, padded, name_of, Buffer}
use io4edge_client_c.Demo.Text.Room.{concat}
use io4edge_client_c.Demo.Telegram.{Telegram, heading, telegram_to_string, main_addr}
use io4edge_client_c.Demo.Telegram.Fit.{texts, telegram_fits}
use io4edge_client_c.Demo.CanSample.{Names, Sample, CanFrame, sample_to_string}
use io4edge_client_c.Demo.CanSample.Fit.{line, sample_fits, sample_overruns}

abbrev telegram : ℕ → Telegram
telegram n = record {
  timestamp = 12;
  address = 1;
  type = 9;
  state = 0;
  data_bytes = replicate n 0x2f;
}

spelled_out :
    concat (texts main_addr [] (telegram 2)) ≡ text "Telegram: ts=12 addr=001, unknown, data= 2f 2f"
unfolding heading decimal digits hex hex_byte padded name_of
spelled_out = refl

unknown_type : (n : ℕ) → length (name_of [] (telegram n).type) ≡ 7
unfolding name_of
unknown_type n = refl

telegram_fits_example :
    (b : Buffer) × (telegram_to_string main_addr [] 200 (telegram 2) ≡ some b)
    × (take (length (concat (texts main_addr [] (telegram 2))) + 1) b.bytes
        ≡ concat (texts main_addr [] (telegram 2)) ++ 0 ∷ [])
telegram_fits_example = telegram_fits [] (telegram 2) (omega (arith, unknown_type 2))

abbrev names : Names
names = record { error_events = text "NONE" ∷ []; controller_states = text "OK" ∷ [] }

abbrev frame : ℕ → CanFrame
frame n = record {
  messageid = 0x100;
  extendedframeformat = false;
  remoteframe = false;
  data_bytes = replicate n 1;
}

abbrev sample : ℕ → Sample
sample n = record {
  timestamp = 5;
  isdataframe = true;
  frame = some (frame n);
  error = 0;
  controllerstate = 0;
}

error_name : (n : ℕ) → length (name_of names.error_events (sample n).error) ≡ 4
unfolding name_of
error_name n = refl

state_name : (n : ℕ) → length (name_of names.controller_states (sample n).controllerstate) ≡ 2
unfolding name_of
state_name n = refl

sample_fits_example :
    (b : Buffer) × (sample_to_string names 200 (sample 8) ≡ some b)
    × (take (length (line names (frame 8) (sample 8)) + 1) b.bytes
        ≡ line names (frame 8) (sample 8) ++ 0 ∷ [])
sample_fits_example =
    sample_fits names (sample 8) (frame 8) refl refl (omega (arith, error_name 8, state_name 8))

sample_overruns_example : sample_to_string names 200 (sample 55) ≡ none
sample_overruns_example =
    sample_overruns names (sample 55) (frame 55) refl refl (omega arith) (omega arith)
      (omega (arith, error_name 55))
