-- ===== src/Demo/Sniffer.antt =====
-- What examples/mvbsniffer/main.c and examples/mvbsniffer/reconnect.c share: the messages, the settings, the
-- lines that they print, and the report on one telegram.
use Prim.Native.Nat.{bit_and}
use io4edge_client_c.Base.{ℕ, Bool, false, not, none, List, [], ◌∷◌, ◌==◌}
use io4edge_client_c.Err.{Err}
use io4edge_client_c.Proto.{StreamControlStart, Unpack}
use io4edge_client_c.Blocks.MvbSniffer
use io4edge_client_c.Demo.{Act, ◌>>◌, print, when}
use io4edge_client_c.Demo.Text.{text}
use io4edge_client_c.Demo.Telegram.{Telegram}

-- TEST_PATTERN
abbrev pub test_pattern : List ℕ
test_pattern =
    text
      "034H`@`@`@`@a@`@`Cl@`BbH`@`@`@`@b@`@`Cl@aBbH`@`@`@`@c@`@`Cl@bBbH`@`@`@`@d@`@`Cl@cBbH`@`@`@`@e@a@`Cl@dBb1"

-- `MvbSniffer__FilterMask`
pub record FilterMask : Type 0 where
  pub f_code_mask : ℕ
  pub address : ℕ
  pub mask : ℕ
  pub include_timedout_frames : Bool

-- `MvbSniffer__StreamControlStart`; `n_filter` is the length.
pub record StreamConfig : Type 0 where
  pub filter : List FilterMask

-- `MvbSniffer__TelegramCollection`; `n_entry` is the length.
pub record TelegramCollection : Type 0 where
  pub entry : List Telegram

-- The generated code that the programs use: the block's messages, the `unpack` of a telegram collection, the values of
-- `MvbSniffer__Telegram__State`, and the names of `mvb_sniffer__telegram__type__descriptor`.
pub record Generated : Type 0 where
  pub messages : MvbSniffer.Messages StreamConfig
  pub telegram_collection_unpack : Unpack TelegramCollection
  pub successful : ℕ
  pub timed_out : ℕ
  pub missed_mvb_frames : ℕ
  pub missed_telegrams : ℕ
  pub type_names : List (List ℕ)

-- A line on the standard output.
pub data Line : Type 0 where
  reconnecting : Line
  failed_client failed_pattern failed_start failed_read : Err → Line
  failed_stream : Line
  received : (telegrams sequence : ℕ) → Line
  no_slave_frame mvb_frames_lost telegrams_lost : Line
  telegram : List ℕ → Line

abbrev pub stream_attr : StreamControlStart
stream_attr = record {
  bucketsamples = 100;
  bufferedsamples = 200;
  keepaliveinterval = 1000;
  low_latency_mode = false;
  functionspecificstreamcontrolstart = none;
}

abbrev pub config : StreamConfig
config = record {
  filter =
      record { f_code_mask = 0xfff; address = 0; mask = 0; include_timedout_frames = false } ∷ [];
}

-- `state & flag`
abbrev pub flagged : ℕ → ℕ → Bool
flagged state flag = not (bit_and state flag == 0)

module _ {S : Type 0} (pb : Generated) where
  -- The check of one telegram for errors.
  unfoldable pub check_telegram : Telegram → Act S Line (Unit {0})
  check_telegram t = when (not (t.state == pb.successful)) (do
    when (flagged t.state pb.timed_out) (print no_slave_frame)
    when (flagged t.state pb.missed_mvb_frames) (print mvb_frames_lost)
    when (flagged t.state pb.missed_telegrams) (print telegrams_lost))
