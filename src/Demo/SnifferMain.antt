-- ===== src/Demo/SnifferMain.antt =====
-- The program examples/mvbsniffer/main.c: one session, with a line for each telegram.
pub mod Frees
use io4edge_client_c.Base.{ℕ, zero, suc, Bool, Option, none, some, List, length}
use io4edge_client_c.Err.{Err}
use io4edge_client_c.Exec.{fault}
use io4edge_client_c.Transport.{Transport}
use io4edge_client_c.Proto.{StreamData, Codec, c_string}
use io4edge_client_c.Blocks.MvbSniffer.{send_pattern, start_stream}
use io4edge_client_c.Exec.{Exec}
use io4edge_client_c.Socket.{socket_transport}
use io4edge_client_c.Lifecycle.{Held, World}
use io4edge_client_c.Demo.{Turn}
use io4edge_client_c.Demo.Main.{Finished, run_main}
use io4edge_client_c.Demo.{
  Act, pure, ◌>>=◌, ◌>>◌, print, each, free_value, free_stream_data, unless_ok, follow, ask, tell,
  read_stream,
}
use io4edge_client_c.Demo.Text.{Buffer}
use io4edge_client_c.Demo.Telegram.{Telegram, telegram_to_string, main_addr}
use io4edge_client_c.Demo.Sniffer.{
  test_pattern, TelegramCollection, Generated, Line, failed_client, failed_pattern, failed_start,
  failed_read, received, telegram, stream_attr, config, check_telegram,
}

module _ {S : Type 0} where
  -- `printf("%s\n", …)` of a line; a byte stored outside the buffer is a fault.
  unfoldable pub print_line : Option Buffer → Act S Line (Unit {0})
  print_line none = λ r. fault
  print_line (some b) = print (telegram (c_string b.bytes))

module _ {S : Type 0} (pb : Generated) (codec : Codec) (tr : Transport S) where
  -- What the loop does with one telegram; `char buf[200]`.
  unfoldable pub show_telegram : Telegram → Act S Line (Unit {0})
  show_telegram t = do
    check_telegram pb t
    print_line (telegram_to_string main_addr pb.type_names 200 t)

  -- What the loop does with one message.
  unfoldable pub take_message : StreamData × TelegramCollection → Act S Line (Unit {0})
  take_message (stream_data, fs_stream_data) = do
    print (received (length fs_stream_data.entry) stream_data.sequence)
    each fs_stream_data.entry show_telegram
    free_value
    free_stream_data

  -- The loop over `n` messages.
  unfoldable pub read_loop : ℕ → Act S Line ℕ
  read_loop zero = pure 0
  read_loop (suc n) = do
    (err, message) ← read_stream codec tr pb.telegram_collection_unpack 2
    unless_ok err failed_read (follow message (λ m. take_message m >> read_loop n))

  -- `main` from the new client on to its deletion.
  unfoldable pub body : Act S Line ℕ
  body = do
    (err, nothing) ← ask codec tr (send_pattern pb.messages codec tr test_pattern)
    unless_ok err failed_pattern (do
      err ← tell codec tr (start_stream pb.messages codec tr config stream_attr)
      unless_ok err failed_start (read_loop 5))

-- `main`
abbrev pub main : Generated → Codec → (ℕ → Bool) → World → List Turn → Held → Exec (Finished Line)
main pb codec malloc w turns =
    run_main w turns failed_client (body pb codec (socket_transport malloc))
