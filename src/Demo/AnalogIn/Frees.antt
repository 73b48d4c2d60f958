-- ===== src/Demo/AnalogIn/Frees.antt =====
-- What examples/analogintypea/main.c frees.
use io4edge_client_c.Base.{ℕ, zero, suc, ◌+◌, Bool, List}
use io4edge_client_c.Transport.{Transport}
use io4edge_client_c.Proto.{StreamData, Codec}
use io4edge_client_c.Blocks.AnalogInTypeA.{value}
use io4edge_client_c.Demo.{Act}
use io4edge_client_c.Demo.AnalogIn.{
  Generated, Line, failed_client, failed_upload, failed_start, failed_value, failed_read,
  value_loop, take_message, read_loop, body, main,
}
use io4edge_client_c.Demo.Ensures.{
  Ensures, >>=-Ensures, weaken, strengthen, Owes, print-Ensures, free_value-Ensures,
  free_stream_data-Ensures,
}
use io4edge_client_c.Demo.Control.{
  Kept, unless_ok-Kept, pure-Kept, each-Ensures, follow-Ensures, handed, fetched,
}
use io4edge_client_c.Demo.Calls.{
  ask-Ensures, fetch-Ensures, tell-Ensures, read_stream-Ensures, request-Settles, value_of-Settles,
  order-Settles,
}
use io4edge_client_c.Demo.{Turn}
use io4edge_client_c.Demo.Ensures.{turn_steps}
use io4edge_client_c.Demo.Main.{Finished}
use io4edge_client_c.Demo.Main.Clean.{IsClean, clean}
use io4edge_client_c.Lifecycle.{Held, World}
use io4edge_client_c.Sem.{sem_value_max}
use io4edge_client_c.Exec.{returns}
use io4edge_client_c.Socket.{socket_transport}
use io4edge_client_c.Base.{◌≡◌, ◌≤◌}

module _ {S : Type 0} {k : ℕ} (pb : Generated) (codec : Codec) (tr : Transport S) where
  take_message-Ensures :
      (m : StreamData × List ℕ)
      → Ensures (Owes (0 + 1) (0 + 1) 0 k) (take_message pb codec tr m) (λ u. Owes 0 0 0 k)
  unfolding take_message
  take_message-Ensures m = >>=-Ensures (print-Ensures _) (λ u.
      >>=-Ensures (each-Ensures _ (λ v. print-Ensures _))
        (λ u. >>=-Ensures free_value-Ensures (λ u. free_stream_data-Ensures)))

  read_loop-Kept : (n : ℕ) → Ensures {S = S} (Owes 0 0 0 k) (read_loop pb codec tr n) (Kept 0 0 0 k)
  unfolding read_loop
  read_loop-Kept zero = pure-Kept
  read_loop-Kept (suc n) =
      >>=-Ensures (read_stream-Ensures codec tr pb.stream_data_unpack 2000) (λ a.
        unless_ok-Kept a.0 failed_read (λ good. follow-Ensures a.1 (λ m e.
          strengthen (λ r d. handed 0 0 0 k a.0 a.1 m r e d)
            (>>=-Ensures (take_message-Ensures m) (λ u. read_loop-Kept n)))))

  value_loop-Kept :
      (n : ℕ) {rest : Act S Line ℕ}
      → Ensures (Owes 0 0 0 k) rest (Kept 0 0 0 k)
      → Ensures (Owes 0 0 0 k) (value_loop pb codec tr n rest) (Kept 0 0 0 k)
  unfolding value_loop value
  value_loop-Kept zero then_rest = then_rest
  value_loop-Kept (suc n) then_rest =
      >>=-Ensures (ask-Ensures codec tr _ (value_of-Settles codec tr _ _ _ _)) (λ a.
        unless_ok-Kept a.0 failed_value (λ good.
          follow-Ensures a.1
            (λ v e. >>=-Ensures (print-Ensures _) (λ u. value_loop-Kept n then_rest))))

  pub body-Kept : Ensures {S = S} (Owes 0 0 0 k) (body pb codec tr) (Kept 0 0 0 k)
  unfolding body
  body-Kept = >>=-Ensures (tell-Ensures codec tr _ (order-Settles codec tr _)) (λ err.
      unless_ok-Kept err failed_upload (λ good.
        >>=-Ensures (fetch-Ensures codec tr _ (request-Settles codec tr _ _ _)) (λ a.
          unless_ok-Kept a.0 failed_upload (λ good. follow-Ensures a.1 (λ c e.
            strengthen (λ r o. fetched 0 0 0 k a.1 c r e o)
              (>>=-Ensures (print-Ensures _) (λ u. >>=-Ensures free_value-Ensures (λ u.
                >>=-Ensures (tell-Ensures codec tr _ (order-Settles codec tr _)) (λ err.
                  unless_ok-Kept err failed_start
                    (λ good. value_loop-Kept 10 (read_loop-Kept 100)))))))))))

-- examples/analogintypea/main.c: where its `main` returns 0, it holds no block, socket or thread more than before, and no
-- unpacked value; of the unpacked messages those are left that its client still had when it was deleted.
pub analog_main-IsClean :
    (pb : Generated) (codec : Codec) (malloc : ℕ → Bool) (w : World) (turns : List Turn)
    (held : Held) {f : Finished Line}
    → turn_steps turns ≤ sem_value_max
    → main pb codec malloc w turns held ≡ returns f
    → f.ret ≡ 0
    → IsClean held f
analog_main-IsClean pb codec malloc w turns held few =
    clean w turns failed_client _ held few
      (weaken (body-Kept pb codec (socket_transport malloc)) (λ ret r q. q.kept))
