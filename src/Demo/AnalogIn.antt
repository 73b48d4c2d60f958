-- ===== src/Demo/AnalogIn.antt =====
-- The program examples/analogintypea/main.c. A `float` stands for its bits.
pub mod Frees
use io4edge_client_c.Base.{ℕ, zero, suc, Bool, false, none, List}
use io4edge_client_c.Err.{Err}
use io4edge_client_c.Transport.{Transport}
use io4edge_client_c.Proto.{StreamData, Codec, Unpack, StreamControlStart}
use io4edge_client_c.Blocks.AnalogInTypeA
use io4edge_client_c.Blocks.AnalogInTypeA.{
  upload_configuration, download_configuration, value, start_stream,
}
use io4edge_client_c.Exec.{Exec}
use io4edge_client_c.Socket.{socket_transport}
use io4edge_client_c.Lifecycle.{Held, World}
use io4edge_client_c.Demo.{Turn}
use io4edge_client_c.Demo.Main.{Finished, run_main}
use io4edge_client_c.Demo.{
  Act, pure, ◌>>=◌, ◌>>◌, print, each, free_value, free_stream_data, unless_ok, follow, ask, fetch,
  tell, read_stream,
}

-- `AnalogInTypeA__ConfigurationSet`, and `AnalogInTypeA__ConfigurationGetResponse`
pub record Configuration : Type 0 where
  pub sample_rate : ℕ

-- The generated code; an `AnalogInTypeA__StreamData` is the list of its samples' values.
pub record Generated : Type 0 where
  pub messages : AnalogInTypeA.Messages Configuration Configuration
  pub stream_data_unpack : Unpack (List ℕ)

-- A line on the standard output. A configuration that is not downloaded reads as one that is not uploaded.
pub data Line : Type 0 where
  failed_client failed_upload failed_start failed_value failed_read : Err → Line
  downloaded : Configuration → Line
  input_value : ℕ → Line
  received : (timestamp sequence : ℕ) → Line
  sample_value : ℕ → Line

abbrev pub config : Configuration
config = record { sample_rate = 1000 }

abbrev pub stream_attr : StreamControlStart
stream_attr = record {
  bucketsamples = 100;
  bufferedsamples = 200;
  keepaliveinterval = 1000;
  low_latency_mode = false;
  functionspecificstreamcontrolstart = none;
}

module _ {S : Type 0} (pb : Generated) (codec : Codec) (tr : Transport S) where
  -- The loop over the input's value, `n` times, and the `rest` of the program.
  unfoldable pub value_loop : ℕ → Act S Line ℕ → Act S Line ℕ
  value_loop zero rest = rest
  value_loop (suc n) rest = do
    (err, v) ← ask codec tr (value pb.messages codec tr)
    unless_ok err failed_value (follow v (λ v. print (input_value v) >> value_loop n rest))

  -- What the second loop does with one message.
  unfoldable pub take_message : StreamData × List ℕ → Act S Line (Unit {0})
  take_message (stream_data, samples) = do
    print (received stream_data.deliverytimestampus stream_data.sequence)
    each samples (λ v. print (sample_value v))
    free_value
    free_stream_data

  -- The loop over `n` messages.
  unfoldable pub read_loop : ℕ → Act S Line ℕ
  read_loop zero = pure 0
  read_loop (suc n) = do
    (err, message) ← read_stream codec tr pb.stream_data_unpack 2000
    unless_ok err failed_read (follow message (λ m. take_message m >> read_loop n))

  -- `main` from the new client on to its deletion.
  unfoldable pub body : Act S Line ℕ
  body = do
    err ← tell codec tr (upload_configuration pb.messages codec tr config)
    unless_ok err failed_upload (do
      (err, dl_config) ← fetch codec tr (download_configuration pb.messages codec tr)
      unless_ok err failed_upload (
          follow dl_config (λ c. do
            print (downloaded c)
            free_value
            err ← tell codec tr (start_stream pb.messages codec tr stream_attr)
            unless_ok err failed_start (value_loop 10 (read_loop 100)))))

-- `main`
abbrev pub main : Generated → Codec → (ℕ → Bool) → World → List Turn → Held → Exec (Finished Line)
main pb codec malloc w turns =
    run_main w turns failed_client (body pb codec (socket_transport malloc))
