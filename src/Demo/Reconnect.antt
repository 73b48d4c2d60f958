-- ===== src/Demo/Reconnect.antt =====
-- The program examples/mvbsniffer/reconnect.c: sessions with a client each, for ever.
pub mod Frees
pub mod Rounds
use io4edge_client_c.Base.{
  ℕ, zero, suc, ◌+◌, not, Bool, Option, none, some, List, [], ◌∷◌, ◌++◌, length, ◌==◌,
  if◌then◌else◌,
}
use io4edge_client_c.Err.{Err, is_ok}
use io4edge_client_c.Exec.{Exec, returns, hangs, fault}
use io4edge_client_c.Transport.{Transport}
use io4edge_client_c.Proto.{StreamData, Codec}
use io4edge_client_c.Socket.{Socket, socket_transport}
use io4edge_client_c.Client.{Client}
use io4edge_client_c.Lifecycle.{Held, World, client_new, client_delete}
use io4edge_client_c.Blocks.MvbSniffer.{send_pattern, start_stream}
use io4edge_client_c.Demo.{
  Turn, Run, Act, pure, ◌>>=◌, ◌>>◌, print, each, free_value, free_stream_data, unless_ok, follow,
  ask, tell, read_stream,
}
use io4edge_client_c.Demo.Sniffer.{
  test_pattern, TelegramCollection, Generated, Line, reconnecting, failed_client, failed_pattern,
  failed_start, failed_read, failed_stream, received, stream_attr, config, check_telegram,
}

module _ {S : Type 0} (pb : Generated) (codec : Codec) (tr : Transport S) where
  -- What the loop does with one message.
  unfoldable pub take_message : StreamData × TelegramCollection → Act S Line (Unit {0})
  take_message (stream_data, fs_stream_data) = do
    print (received (length fs_stream_data.entry) stream_data.sequence)
    each fs_stream_data.entry (check_telegram pb)
    free_value
    free_stream_data

  -- The loop over `n` messages, and the `return 0` behind it.
  unfoldable pub read_loop : ℕ → Act S Line ℕ
  read_loop zero = pure 0
  read_loop (suc n) = do
    (err, message) ← read_stream codec tr pb.telegram_collection_unpack 2
    unless_ok err failed_read (follow message (λ m. take_message m >> read_loop n))

  -- `handle_session`
  unfoldable pub handle_session : Act S Line ℕ
  handle_session = do
    (err, nothing) ← ask codec tr (send_pattern pb.messages codec tr test_pattern)
    unless_ok err failed_pattern (do
      err ← tell codec tr (start_stream pb.messages codec tr config stream_attr)
      unless_ok err failed_start (read_loop 500))

-- A session's first state.
abbrev pub opened : {S L : Type 0} → Client S → List Turn → List L → Run S L
opened client turns printed = record {
  client = client;
  turns = turns;
  values = 0;
  blocks = 0;
  printed = printed;
}

module _ (pb : Generated) (codec : Codec) (malloc : ℕ → Bool) where
  -- The end of a round: the line on a failed session, and `io4edge_functionblock_client_delete`, which
  -- leaves some unpacked messages.
  abbrev pub close : ℕ → Run Socket Line → Held → Held × ℕ × List Line
  close ret r held =
      let (err, held', left) = client_delete (some r.client) held in
      (held', left, if ret == 0 then r.printed else r.printed ++ failed_stream ∷ [])

  -- The body of the endless loop in `main`, in a world that does `w` when the client is created and `turns` in the
  -- session; what is held, the messages that the round leaves allocated, and the lines printed so far.
  unfoldable pub round : World → List Turn → Held → List Line → Exec (Held × ℕ × List Line)
  round w turns held printed =
      let (err, client, held') = client_new w 5 held in
      let printed' = printed ++ reconnecting ∷ [] in
      if not (is_ok err)
      then returns (held', 0, printed' ++ failed_client err ∷ [])
      else elim client [
        | none ↦ fault
        | some h ↦
            elim (handle_session pb codec (socket_transport malloc) (opened h turns printed')) [
              | returns (ret, r) ↦ returns (close ret r held')
              | hangs ↦ hangs
              | fault ↦ fault
            ]
      ]

  -- Some rounds of the loop, with the messages that they leave in all.
  unfoldable pub rounds : List (World × List Turn) → Held → List Line → Exec (Held × ℕ × List Line)
  rounds [] held printed = returns (held, 0, printed)
  rounds ((w, turns) ∷ more) held printed = elim (round w turns held printed) [
    | returns (held', left, printed') ↦ elim (rounds more held' printed') [
      | returns (held'', left', printed'') ↦ returns (held'', left + left', printed'')
      | hangs ↦ hangs
      | fault ↦ fault
    ]
    | hangs ↦ hangs
    | fault ↦ fault
  ]
