-- ===== src/Demo/BinaryIo.antt =====
-- The program examples/binaryiotypea/main.c: the main thread, and the one that toggles an output meanwhile.
pub mod Frees
use io4edge_client_c.Base.{
  ℕ, zero, suc, ◌+◌, Bool, true, false, not, Option, none, some, List, [], ◌∷◌,
}
use io4edge_client_c.Err.{Err, is_ok}
use io4edge_client_c.Transport.{Transport}
use io4edge_client_c.Proto.{StreamData, Codec, Unpack, StreamControlStart}
use io4edge_client_c.Blocks.BinaryIoTypeA
use io4edge_client_c.Blocks.BinaryIoTypeA.{
  upload_configuration, download_configuration, set_output, set_all_outputs, input, all_inputs,
  start_stream,
}
use io4edge_client_c.Exec.{Exec}
use io4edge_client_c.Socket.{socket_transport}
use io4edge_client_c.Lifecycle.{Held, World}
use io4edge_client_c.Demo.{Turn}
use io4edge_client_c.Demo.Main.{Finished, run_main}
use io4edge_client_c.Demo.{
  Act, pure, ◌>>=◌, ◌>>◌, print, each, free_value, free_stream_data, unless_ok, follow, ask, fetch,
  tell, read_stream,
}

-- `BinaryIoTypeA__ConfigurationSet`, and `BinaryIoTypeA__ConfigurationGetResponse`, with the fields that the program sets
-- and prints.
pub record Configuration : Type 0 where
  pub outputwatchdogmask : ℕ
  pub outputwatchdogtimeout : ℕ

-- `BinaryIoTypeA__Sample`; a `BinaryIoTypeA__StreamData` is the list of its samples.
pub record Sample : Type 0 where
  pub channel : ℕ
  pub value : Bool

-- The generated code.
pub record Generated (Described : Type 0) : Type 0 where
  pub messages : BinaryIoTypeA.Messages Configuration Configuration Described
  pub stream_data_unpack : Unpack (List Sample)

-- A line on the standard output. A configuration that is not downloaded reads as one that is not uploaded.
pub data Line : Type 0 where
  failed_client failed_upload failed_output failed_outputs failed_start : Err → Line
  failed_input failed_inputs failed_read : Err → Line
  downloaded : Configuration → Line
  input_state : Bool → Line
  input_states : ℕ → Line
  received : (timestamp sequence : ℕ) → Line
  channel_value : Sample → Line

abbrev pub config : Configuration
config = record { outputwatchdogmask = 1; outputwatchdogtimeout = 1000 }

abbrev pub stream_attr : StreamControlStart
stream_attr = record {
  bucketsamples = 10;
  bufferedsamples = 20;
  keepaliveinterval = 1000;
  low_latency_mode = true;
  functionspecificstreamcontrolstart = none;
}

-- Where `stim_thread` stands: the state that it sets next, or `none` once it has returned.
abbrev pub Stim : Type 0
Stim = Option Bool

-- `if (err != IO4E_OK) { printf(…, err); return NULL; }` in `stim_thread`, and the rest of it.
unfoldable pub stim_unless_ok : {S : Type 0} → Err → Act S Line Stim → Act S Line Stim
stim_unless_ok err rest = elim (is_ok err) [
  | true ↦ rest
  | false ↦ print (failed_output err) >> pure none
]

module _ {S Described : Type 0} (pb : Generated Described) (codec : Codec) (tr : Transport S) where
  -- The next `n` calls of `stim_thread`. The mutex keeps each one whole.
  unfoldable pub stim : ℕ → Stim → Act S Line Stim
  stim zero st = pure st
  stim (suc n) none = pure none
  stim (suc n) (some state) = do
    (err, nothing) ← ask codec tr (set_output pb.messages codec tr 0 state)
    stim_unless_ok err (stim n (some (not state)))

  -- `meanwhile c` is how many calls `stim_thread` makes before the main thread's call number `c`.
  module _ (meanwhile : ℕ → ℕ) where
    -- The loop over the inputs, `n` times from call `c` on, and the `rest` of the program.
    unfoldable pub input_loop : (n c : ℕ) → Stim → (ℕ → Stim → Act S Line ℕ) → Act S Line ℕ
    input_loop zero c st rest = rest c st
    input_loop (suc n) c st rest = do
      st ← stim (meanwhile c) st
      (err, state) ← ask codec tr (input pb.messages codec tr 0)
      unless_ok err failed_input (
          follow state (λ state. do
            print (input_state state)
            st ← stim (meanwhile (c + 1)) st
            (err, states) ← ask codec tr (all_inputs pb.messages codec tr 0xf)
            unless_ok err failed_inputs (
                follow states
                  (λ states. do print (input_states states); input_loop n (c + 2) st rest))))

    -- What the second loop does with one message.
    unfoldable pub take_message : StreamData × List Sample → Act S Line (Unit {0})
    take_message (stream_data, samples) = do
      print (received stream_data.deliverytimestampus stream_data.sequence)
      each samples (λ s. print (channel_value s))
      free_value
      free_stream_data

    -- The loop over `n` messages from call `c` on; then `stim_thread` is cancelled.
    unfoldable pub read_loop : (n c : ℕ) → Stim → Act S Line ℕ
    read_loop zero c st = pure 0
    read_loop (suc n) c st = do
      st ← stim (meanwhile c) st
      (err, message) ← read_stream codec tr pb.stream_data_unpack 2000
      unless_ok err failed_read (follow message (λ m. take_message m >> read_loop n (c + 1) st))

    -- From the creation of `stim_thread` on.
    unfoldable pub with_stim : Act S Line ℕ
    with_stim = do
      st ← stim (meanwhile 0) (some true)
      err ← tell codec tr (start_stream pb.messages codec tr 0xf stream_attr)
      unless_ok err failed_start (input_loop 10 1 st (λ c st. read_loop 10 c st))

    -- `main` from the new client on to its deletion.
    unfoldable pub body : Act S Line ℕ
    body = do
      err ← tell codec tr (upload_configuration pb.messages codec tr config)
      unless_ok err failed_upload (do
        (err, dl_config) ← fetch codec tr (download_configuration pb.messages codec tr)
        unless_ok err failed_upload (
            follow dl_config (λ c. do
              print (downloaded c)
              free_value
              (err, nothing) ← ask codec tr (set_output pb.messages codec tr 1 true)
              unless_ok err failed_output (do
                (err, nothing) ← ask codec tr (set_all_outputs pb.messages codec tr 0x3 0x3)
                unless_ok err failed_outputs with_stim))))

module _ {Described : Type 0} (pb : Generated Described) (codec : Codec) (malloc : ℕ → Bool)
    (meanwhile : ℕ → ℕ) where
  -- `main`
  abbrev pub main : World → List Turn → Held → Exec (Finished Line)
  main w turns = run_main w turns failed_client (body pb codec (socket_transport malloc) meanwhile)
