-- ===== src/Demo/Reconnect/Frees.antt =====
-- A session of examples/mvbsniffer/reconnect.c frees what it is handed.
use io4edge_client_c.Base.{ℕ, zero, suc, ◌+◌}
use io4edge_client_c.Exec.{returns}
use io4edge_client_c.Transport.{Transport}
use io4edge_client_c.Proto.{StreamData, Codec}
use io4edge_client_c.Demo.{Run}
use io4edge_client_c.Demo.Sniffer.{
  TelegramCollection, Generated, Line, failed_pattern, failed_start, failed_read, check_telegram,
}
use io4edge_client_c.Demo.Ensures.{
  Ensures, >>=-Ensures, weaken, strengthen, pure-Ensures, Owes, Ended, printed-Owes, print-Ensures,
  free_value-Ensures, free_stream_data-Ensures,
}
use io4edge_client_c.Demo.Control.{
  early_return, handed, when-Ensures, each-Ensures, follow-Ensures, unless_ok-Ensures,
}
use io4edge_client_c.Demo.Calls.{
  ask-Ensures, tell-Ensures, read_stream-Ensures, request-Settles, order-Settles,
}
use io4edge_client_c.Demo.Reconnect.{take_message, read_loop, handle_session}
use io4edge_client_c.Base.{◌≡◌, ◌⊎◌, inl, inr, refl}
use io4edge_client_c.Demo.Telegram.{Telegram}

module _ {S : Type 0} {out values blocks k : ℕ} (pb : Generated) where
  pub check_telegram-Ensures :
      (t : Telegram)
      → Ensures {S = S}
          (Owes out values blocks k)
          (check_telegram pb t)
          (λ u. Owes out values blocks k)
  unfolding check_telegram
  check_telegram-Ensures t = when-Ensures _ (
      >>=-Ensures (when-Ensures _ (print-Ensures _)) (λ u.
        >>=-Ensures (when-Ensures _ (print-Ensures _)) (λ u. when-Ensures _ (print-Ensures _))))

module _ {S : Type 0} {out values blocks k : ℕ} (pb : Generated) (codec : Codec)
    (tr : Transport S) where
  take_message-Ensures :
      (m : StreamData × TelegramCollection)
      → Ensures
          (Owes (out + 1) (values + 1) blocks k)
          (take_message pb codec tr m)
          (λ u. Owes out values blocks k)
  unfolding take_message
  take_message-Ensures m = >>=-Ensures (print-Ensures _) (λ u.
      >>=-Ensures (each-Ensures _ (λ t. check_telegram-Ensures pb t))
        (λ u. >>=-Ensures free_value-Ensures (λ u. free_stream_data-Ensures)))

module _ {S : Type 0} {values blocks k : ℕ} (pb : Generated) (codec : Codec)
    (tr : Transport S) where
  read_loop-Ensures :
      (n : ℕ)
      → Ensures {S = S} (Owes 0 values blocks k) (read_loop pb codec tr n) (Ended values blocks k)
  unfolding read_loop Ended
  read_loop-Ensures zero = weaken (pure-Ensures 0) (λ ret r q. inl q)
  read_loop-Ensures (suc n) =
      >>=-Ensures (read_stream-Ensures codec tr pb.telegram_collection_unpack 2) (λ a.
        unless_ok-Ensures a.0 failed_read
          (λ good. follow-Ensures a.1 (λ m e.
            strengthen (λ r d. handed 0 values blocks k a.0 a.1 m r e d)
              (>>=-Ensures (take_message-Ensures pb codec tr m) (λ u. read_loop-Ensures n))))
          (λ bad r d. early_return values blocks k a.0 a.1 _ r bad d))

  handle_session-Ensures :
      Ensures {S = S} (Owes 0 values blocks k) (handle_session pb codec tr) (Ended values blocks k)
  unfolding handle_session Ended
  handle_session-Ensures =
      >>=-Ensures (ask-Ensures codec tr _ (request-Settles codec tr _ _ _)) (λ a.
        unless_ok-Ensures a.0 failed_pattern
          (λ good. >>=-Ensures (tell-Ensures codec tr _ (order-Settles codec tr _)) (λ err.
            unless_ok-Ensures err failed_start (λ good. read_loop-Ensures 500)
              (λ bad r o. inr (refl, inl (printed-Owes _ o)))))
          (λ bad r o. inr (refl, inl (printed-Owes _ o))))

  -- A session of reconnect.c that returns, from a state where every live message has one owner and none is in the
  -- program's hands: if it returns 0, the same holds again; if it returns 1, at most one message more is live, lost by
  -- the read that failed. The unpacked telegrams are all freed on either way.
  pub session_frees :
      (r : Run S Line) {ret : ℕ} {r' : Run S Line}
      → handle_session pb codec tr r ≡ returns (ret, r')
      → Owes 0 values blocks k r
      → (ret ≡ 0) × Owes 0 values blocks k r'
        ⊎ (ret ≡ 1) × (Owes 0 values blocks k r' ⊎ Owes 1 values blocks k r')
  unfolding Ended
  session_frees r {ret} {r'} eq o = handle_session-Ensures.holds r o ret r' eq
