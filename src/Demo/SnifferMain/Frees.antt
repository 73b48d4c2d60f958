-- ===== src/Demo/SnifferMain/Frees.antt =====
-- What examples/mvbsniffer/main.c frees.
use io4edge_client_c.Base.{ℕ, zero, suc, Option, none, some}
use io4edge_client_c.Transport.{Transport}
use io4edge_client_c.Proto.{StreamData, Codec}
use io4edge_client_c.Demo.Text.{Buffer}
use io4edge_client_c.Demo.Telegram.{Telegram}
use io4edge_client_c.Demo.Sniffer.{
  TelegramCollection, Generated, Line, failed_pattern, failed_start, failed_read,
}
use io4edge_client_c.Demo.Sniffer.{failed_client}
use io4edge_client_c.Demo.SnifferMain.{
  print_line, show_telegram, take_message, read_loop, body, main,
}
use io4edge_client_c.Demo.Ensures.{
  Ensures, >>=-Ensures, weaken, strengthen, Owes, print-Ensures, free_value-Ensures,
  free_stream_data-Ensures,
}
use io4edge_client_c.Demo.Control.{
  Kept, unless_ok-Kept, pure-Kept, each-Ensures, follow-Ensures, handed,
}
use io4edge_client_c.Demo.Calls.{
  ask-Ensures, tell-Ensures, read_stream-Ensures, request-Settles, order-Settles,
}
use io4edge_client_c.Demo.Reconnect.Frees.{check_telegram-Ensures}
use io4edge_client_c.Demo.{Turn}
use io4edge_client_c.Demo.Ensures.{turn_steps}
use io4edge_client_c.Demo.Main.{Finished}
use io4edge_client_c.Demo.Main.Clean.{IsClean, clean}
use io4edge_client_c.Lifecycle.{Held, World}
use io4edge_client_c.Sem.{sem_value_max}
use io4edge_client_c.Exec.{returns}
use io4edge_client_c.Socket.{socket_transport}
use io4edge_client_c.Base.{◌≤◌}
use io4edge_client_c.Base.{Bool, List, ◌+◌, ◌≡◌, arith}

module _ {S : Type 0} {out values blocks k : ℕ} (pb : Generated) where
  print_line-Ensures :
      (o : Option Buffer)
      → Ensures {S = S} (Owes out values blocks k) (print_line o) (λ u. Owes out values blocks k)
  unfolding print_line
  print_line-Ensures none = record { holds = λ r p a r' eq. absurd (ground arith) }
  print_line-Ensures (some b) = print-Ensures _

  show_telegram-Ensures :
      (codec : Codec) (tr : Transport S) (t : Telegram)
      → Ensures {S = S}
          (Owes out values blocks k)
          (show_telegram pb codec tr t)
          (λ u. Owes out values blocks k)
  unfolding show_telegram
  show_telegram-Ensures codec tr t =
      >>=-Ensures (check_telegram-Ensures pb t) (λ u. print_line-Ensures _)

module _ {S : Type 0} {out values blocks k : ℕ} (pb : Generated) where
  take_message-Ensures :
      (codec : Codec) (tr : Transport S) (m : StreamData × TelegramCollection)
      → Ensures
          (Owes (out + 1) (values + 1) blocks k)
          (take_message pb codec tr m)
          (λ u. Owes out values blocks k)
  unfolding take_message
  take_message-Ensures codec tr m = >>=-Ensures (print-Ensures _) (λ u.
      >>=-Ensures (each-Ensures _ (λ t. show_telegram-Ensures pb codec tr t))
        (λ u. >>=-Ensures free_value-Ensures (λ u. free_stream_data-Ensures)))

module _ {S : Type 0} {k : ℕ} (pb : Generated) (codec : Codec) (tr : Transport S) where
  read_loop-Kept : (n : ℕ) → Ensures {S = S} (Owes 0 0 0 k) (read_loop pb codec tr n) (Kept 0 0 0 k)
  unfolding read_loop
  read_loop-Kept zero = pure-Kept
  read_loop-Kept (suc n) =
      >>=-Ensures (read_stream-Ensures codec tr pb.telegram_collection_unpack 2) (λ a.
        unless_ok-Kept a.0 failed_read (λ good. follow-Ensures a.1 (λ m e.
          strengthen (λ r d. handed 0 0 0 k a.0 a.1 m r e d)
            (>>=-Ensures (take_message-Ensures pb codec tr m) (λ u. read_loop-Kept n)))))

  body-Kept : Ensures {S = S} (Owes 0 0 0 k) (body pb codec tr) (Kept 0 0 0 k)
  unfolding body
  body-Kept = >>=-Ensures (ask-Ensures codec tr _ (request-Settles codec tr _ _ _)) (λ a.
      unless_ok-Kept a.0 failed_pattern (λ good.
        >>=-Ensures (tell-Ensures codec tr _ (order-Settles codec tr _))
          (λ err. unless_ok-Kept err failed_start (λ good. read_loop-Kept 5))))

-- examples/mvbsniffer/main.c: where its `main` returns 0, it holds no block, socket or thread of the library more than
-- before, and no unpacked telegrams; of the unpacked messages those are left that its client still had when it was deleted.
pub sniffer_main-IsClean :
    (pb : Generated) (codec : Codec) (malloc : ℕ → Bool) (w : World) (turns : List Turn)
    (held : Held) {f : Finished Line}
    → turn_steps turns ≤ sem_value_max
    → main pb codec malloc w turns held ≡ returns f
    → f.ret ≡ 0
    → IsClean held f
sniffer_main-IsClean pb codec malloc w turns held few =
    clean w turns failed_client _ held few
      (weaken (body-Kept pb codec (socket_transport malloc)) (λ ret r q. q.kept))
