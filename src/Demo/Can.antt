-- ===== src/Demo/Can.antt =====
-- The programs of examples/canl2: dumpstream.c, send.c and config.c.
pub mod Frees
pub mod Send
use Prim.Native.String.{String}
use io4edge_client_c.Base.{
  ℕ, zero, suc, ◌+◌, ◌-◌, ◌%◌, Bool, true, false, Option, none, some, List, [], ◌∷◌, ◌++◌, length,
  replicate,
}
use io4edge_client_c.Err.{Err}
use io4edge_client_c.Exec.{returns, fault}
use io4edge_client_c.Transport.{Transport}
use io4edge_client_c.Proto.{StreamData, Codec, Unpack, StreamControlStart, c_string}
use io4edge_client_c.Blocks.CanL2
use io4edge_client_c.Blocks.CanL2.{
  upload_configuration, download_configuration, send_frames, start_stream,
}
use io4edge_client_c.Exec.{Exec}
use io4edge_client_c.Socket.{socket_transport}
use io4edge_client_c.Lifecycle.{Held, World}
use io4edge_client_c.Demo.{Turn}
use io4edge_client_c.Demo.Main.{Finished, run_main}
use io4edge_client_c.Demo.{
  Run, Act, pure, ◌>>=◌, ◌>>◌, print, each, free_value, unless_ok, follow, ask, fetch, tell,
  read_stream,
}
use io4edge_client_c.Demo.CanSample.{CanFrame, Sample, Names, sample_to_string}

-- `CanL2__ConfigurationSet`, and `CanL2__ConfigurationGetResponse`
pub record Configuration : Type 0 where
  pub baud : ℕ
  pub samplepoint : ℕ
  pub sjw : ℕ
  pub listenonly : Bool

-- `CanL2__StreamControlStart`
pub record StreamConfig : Type 0 where
  pub acceptancecode : ℕ
  pub acceptancemask : ℕ

-- The generated code; a `CanL2__StreamData` is the list of its samples.
pub record Generated (ControllerState : Type 0) : Type 0 where
  pub messages : CanL2.Messages Configuration Configuration CanFrame ControllerState StreamConfig
  pub stream_data_unpack : Unpack (List Sample)
  pub names : Names

-- A line on the standard output. A configuration that is not downloaded reads as one that is not uploaded.
pub data Line : Type 0 where
  failed_client failed_start failed_read failed_send failed_upload : Err → Line
  received : (telegrams sequence : ℕ) → Line
  sample : List ℕ → Line
  actual : Configuration → Line

-- dumpstream.c
abbrev pub dump_attr : StreamControlStart
dump_attr = record {
  bucketsamples = 100;
  bufferedsamples = 200;
  keepaliveinterval = 1000;
  low_latency_mode = true;
  functionspecificstreamcontrolstart = none;
}

abbrev pub accept_all : StreamConfig
accept_all = record { acceptancecode = 0; acceptancemask = 0 }

-- config.c
abbrev pub can_config : Configuration
can_config = record { baud = 1000000; samplepoint = 800; sjw = 1; listenonly = true }

-- The frame that send.c fills in for one message of a bucket.
abbrev pub frame_of : (bucket message : ℕ) → CanFrame
frame_of bucket message = record {
  messageid = 0x100 + bucket % 0xff;
  extendedframeformat = false;
  remoteframe = false;
  data_bytes = replicate (message % 8) (message % 0xff);
}

module _ {S : Type 0} where
  -- `printf("%s\n", sample_to_string(buf, sizeof(buf), sample))` with `char buf[200]`.
  unfoldable pub print_sample : Names → Sample → Act S Line (Unit {0})
  print_sample names s = elim (sample_to_string names 200 s) [
    | none ↦ λ r. fault
    | some b ↦ print (sample (c_string b.bytes))
  ]

  -- `malloc` and the setting of one frame; the result is used unchecked.
  unfoldable pub new_frame : Bool → CanFrame → Act S Line CanFrame
  new_frame granted frame r = elim granted [
    | true ↦ returns (frame, record r { blocks = r.blocks + 1 })
    | false ↦ fault
  ]

  -- `free(frames[i])`
  unfoldable pub free_frame : CanFrame → Act S Line (Unit {0})
  free_frame frame r = returns (tt, record r { blocks = r.blocks - 1 })

  -- The loop over the messages of a bucket, from `message` on, `n` of them.
  unfoldable pub new_frames : Bool → (bucket n message : ℕ) → Act S Line (List CanFrame)
  new_frames granted bucket zero message = pure []
  new_frames granted bucket (suc n) message = do
    frame ← new_frame granted (frame_of bucket message)
    more ← new_frames granted bucket n (message + 1)
    pure (frame ∷ more)

module _ {S ControllerState : Type 0} (pb : Generated ControllerState) (codec : Codec)
    (tr : Transport S) where
  -- dumpstream.c: what the loop does with one message.
  unfoldable pub dump_message : StreamData × List Sample → Act S Line (Unit {0})
  dump_message (stream_data, samples) = do
    print (received (length samples) stream_data.sequence)
    each samples (print_sample pb.names)

  -- `n` rounds of the endless loop; 0 where it goes on after them.
  unfoldable pub dump_loop : ℕ → Act S Line ℕ
  dump_loop zero = pure 0
  dump_loop (suc n) = do
    (err, message) ← read_stream codec tr pb.stream_data_unpack 2
    unless_ok err failed_read (follow message (λ m. dump_message m >> dump_loop n))

  -- `main` of dumpstream.c from the new client on, up to `n` rounds.
  unfoldable pub dump : ℕ → Act S Line ℕ
  dump n = do
    err ← tell codec tr (start_stream pb.messages codec tr accept_all dump_attr)
    unless_ok err failed_start (dump_loop n)

  -- send.c: one bucket of 5 messages, and what follows it.
  unfoldable pub send_bucket : Bool → ℕ → Act S Line ℕ → Act S Line ℕ
  send_bucket granted bucket rest = do
    frames ← new_frames granted bucket 5 0
    (err, nothing) ← ask codec tr (send_frames pb.messages codec tr frames)
    each frames free_frame
    unless_ok err failed_send rest

  -- The loop over the buckets, from `bucket` on, `n` of them.
  unfoldable pub send_buckets : Bool → (n bucket : ℕ) → Act S Line ℕ
  send_buckets granted zero bucket = pure 0
  send_buckets granted (suc n) bucket =
      send_bucket granted bucket (send_buckets granted n (bucket + 1))

  -- `main` of send.c from the new client on to its deletion.
  unfoldable pub send : Bool → Act S Line ℕ
  send granted = send_buckets granted 10 0

  -- `main` of config.c from the new client on to its deletion.
  unfoldable pub configure : Act S Line ℕ
  configure = do
    err ← tell codec tr (upload_configuration pb.messages codec tr can_config)
    unless_ok err failed_upload (do
      (err, dl_config) ← fetch codec tr (download_configuration pb.messages codec tr)
      unless_ok err failed_upload (follow dl_config (λ c. do print (actual c); free_value; pure 0)))

module _ {ControllerState : Type 0} (pb : Generated ControllerState) (codec : Codec)
    (malloc : ℕ → Bool) where
  -- `main` of dumpstream.c, up to `n` rounds of its loop
  abbrev pub dump_main : ℕ → World → List Turn → Held → Exec (Finished Line)
  dump_main n w turns = run_main w turns failed_client (dump pb codec (socket_transport malloc) n)

  -- `main` of send.c
  abbrev pub send_main : Bool → World → List Turn → Held → Exec (Finished Line)
  send_main granted w turns =
      run_main w turns failed_client (send pb codec (socket_transport malloc) granted)

  -- `main` of config.c
  abbrev pub configure_main : World → List Turn → Held → Exec (Finished Line)
  configure_main w turns =
      run_main w turns failed_client (configure pb codec (socket_transport malloc))
