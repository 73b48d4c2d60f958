-- ===== src/Demo/BinaryIo/Frees.antt =====
-- What examples/binaryiotypea/main.c frees.
use io4edge_client_c.Base.{ℕ, zero, suc, ◌+◌, Bool, not, none, some, List}
use io4edge_client_c.Err.{Err, is_ok}
use io4edge_client_c.Transport.{Transport}
use io4edge_client_c.Proto.{StreamData, Codec}
use io4edge_client_c.Blocks.BinaryIoTypeA.{set_output, set_all_outputs, input, all_inputs}
use io4edge_client_c.Demo.{Act}
use io4edge_client_c.Demo.BinaryIo.{
  Generated, Line, Sample, Stim, failed_client, failed_upload, failed_output, failed_outputs,
  failed_start, failed_input, failed_inputs, failed_read, main, stim_unless_ok, stim, input_loop,
  take_message, read_loop, with_stim, body,
}
use io4edge_client_c.Demo.Ensures.{
  Ensures, >>=-Ensures, weaken, strengthen, pure-Ensures, Owes, print-Ensures, free_value-Ensures,
  free_stream_data-Ensures,
}
use io4edge_client_c.Demo.Control.{
  Kept, unless_ok-Kept, pure-Kept, each-Ensures, follow-Ensures, handed, fetched,
}
use io4edge_client_c.Demo.Calls.{
  ask-Ensures, fetch-Ensures, tell-Ensures, read_stream-Ensures, request-Settles, value_of-Settles,
  order-Settles,
}
use io4edge_client_c.Demo.{Turn}
use io4edge_client_c.Demo.Ensures.{turn_steps}
use io4edge_client_c.Demo.Main.{Finished}
use io4edge_client_c.Demo.Main.Clean.{IsClean, clean}
use io4edge_client_c.Lifecycle.{Held, World}
use io4edge_client_c.Sem.{sem_value_max}
use io4edge_client_c.Exec.{returns}
use io4edge_client_c.Socket.{socket_transport}
use io4edge_client_c.Base.{◌≡◌, ◌≤◌, inl, inr, Bool-cases}

stim_unless_ok-Ensures :
    {S : Type 0} {k : ℕ} (err : Err) {rest : Act S Line Stim}
    → Ensures (Owes 0 0 0 k) rest (λ st. Owes 0 0 0 k)
    → Ensures (Owes 0 0 0 k) (stim_unless_ok err rest) (λ st. Owes 0 0 0 k)
unfolding stim_unless_ok
stim_unless_ok-Ensures err e = elim (Bool-cases (is_ok err)) [
  | inl good ↦ rw (stim_unless_ok, good) e
  | inr bad ↦
      rw (stim_unless_ok, bad)
        (>>=-Ensures (print-Ensures _) (λ u. weaken (pure-Ensures none) (λ a r q. q.1)))
]

module _ {S Described : Type 0} {k : ℕ} (pb : Generated Described) (codec : Codec)
    (tr : Transport S) where
  stim-Ensures :
      (n : ℕ) (st : Stim)
      → Ensures {S = S} (Owes 0 0 0 k) (stim pb codec tr n st) (λ st. Owes 0 0 0 k)
  unfolding stim set_output
  stim-Ensures zero st = weaken (pure-Ensures st) (λ a r q. q.1)
  stim-Ensures (suc n) none = weaken (pure-Ensures none) (λ a r q. q.1)
  stim-Ensures (suc n) (some state) =
      >>=-Ensures (ask-Ensures codec tr _ (request-Settles codec tr _ _ _))
        (λ a. stim_unless_ok-Ensures a.0 (stim-Ensures n (some (not state))))

  module _ (meanwhile : ℕ → ℕ) where
    take_message-Ensures :
        (m : StreamData × List Sample)
        → Ensures
            (Owes (0 + 1) (0 + 1) 0 k)
            (take_message pb codec tr meanwhile m)
            (λ u. Owes 0 0 0 k)
    unfolding take_message
    take_message-Ensures m = >>=-Ensures (print-Ensures _) (λ u.
        >>=-Ensures (each-Ensures _ (λ v. print-Ensures _))
          (λ u. >>=-Ensures free_value-Ensures (λ u. free_stream_data-Ensures)))

    read_loop-Kept :
        (n c : ℕ) (st : Stim)
        → Ensures {S = S} (Owes 0 0 0 k) (read_loop pb codec tr meanwhile n c st) (Kept 0 0 0 k)
    unfolding read_loop
    read_loop-Kept zero c st = pure-Kept
    read_loop-Kept (suc n) c st = >>=-Ensures (stim-Ensures _ st) (λ st.
        >>=-Ensures (read_stream-Ensures codec tr pb.stream_data_unpack 2000) (λ a.
          unless_ok-Kept a.0 failed_read (λ good. follow-Ensures a.1 (λ m e.
            strengthen (λ r d. handed 0 0 0 k a.0 a.1 m r e d)
              (>>=-Ensures (take_message-Ensures m) (λ u. read_loop-Kept n (c + 1) st))))))

    input_loop-Kept :
        (n c : ℕ) (st : Stim) {rest : ℕ → Stim → Act S Line ℕ}
        → ((c : ℕ) → (st : Stim) → Ensures (Owes 0 0 0 k) (rest c st) (Kept 0 0 0 k))
        → Ensures (Owes 0 0 0 k) (input_loop pb codec tr meanwhile n c st rest) (Kept 0 0 0 k)
    unfolding input_loop input all_inputs
    input_loop-Kept zero c st then_rest = then_rest c st
    input_loop-Kept (suc n) c st then_rest = >>=-Ensures (stim-Ensures _ st) (λ st.
        >>=-Ensures (ask-Ensures codec tr _ (value_of-Settles codec tr _ _ _ _)) (λ a.
          unless_ok-Kept a.0 failed_input (λ good. follow-Ensures a.1 (λ v e.
            >>=-Ensures (print-Ensures _) (λ u. >>=-Ensures (stim-Ensures _ st) (λ st.
              >>=-Ensures (ask-Ensures codec tr _ (value_of-Settles codec tr _ _ _ _)) (λ a.
                unless_ok-Kept a.0 failed_inputs (λ good. follow-Ensures a.1 (λ v e.
                  >>=-Ensures (print-Ensures _)
                    (λ u. input_loop-Kept n (c + 2) st then_rest))))))))))

    with_stim-Kept : Ensures {S = S} (Owes 0 0 0 k) (with_stim pb codec tr meanwhile) (Kept 0 0 0 k)
    unfolding with_stim
    with_stim-Kept = >>=-Ensures (stim-Ensures _ _) (λ st.
        >>=-Ensures (tell-Ensures codec tr _ (order-Settles codec tr _)) (λ err.
          unless_ok-Kept err failed_start
            (λ good. input_loop-Kept 10 1 st (λ c st. read_loop-Kept 10 c st))))

    pub body-Kept : Ensures {S = S} (Owes 0 0 0 k) (body pb codec tr meanwhile) (Kept 0 0 0 k)
    unfolding body set_output set_all_outputs
    body-Kept = >>=-Ensures (tell-Ensures codec tr _ (order-Settles codec tr _)) (λ err.
        unless_ok-Kept err failed_upload (λ good.
          >>=-Ensures (fetch-Ensures codec tr _ (request-Settles codec tr _ _ _)) (λ a.
            unless_ok-Kept a.0 failed_upload (λ good. follow-Ensures a.1 (λ c e.
              strengthen (λ r o. fetched 0 0 0 k a.1 c r e o)
                (>>=-Ensures (print-Ensures _) (λ u. >>=-Ensures free_value-Ensures (λ u.
                  >>=-Ensures (ask-Ensures codec tr _ (request-Settles codec tr _ _ _)) (λ a.
                    unless_ok-Kept a.0 failed_output (λ good.
                      >>=-Ensures (ask-Ensures codec tr _ (request-Settles codec tr _ _ _))
                        (λ a. unless_ok-Kept a.0 failed_outputs (λ good. with_stim-Kept))))))))))))

-- examples/binaryiotypea/main.c, whatever commands its second thread gets in between: where its `main` returns 0, it holds
-- no block, socket or thread of the library more than before, and no unpacked value; of the unpacked messages those
-- are left that its client still had when it was deleted.
pub binary_main-IsClean :
    {Described : Type 0} (pb : Generated Described) (codec : Codec) (malloc : ℕ → Bool)
    (meanwhile : ℕ → ℕ) (w : World) (turns : List Turn) (held : Held) {f : Finished Line}
    → turn_steps turns ≤ sem_value_max
    → main pb codec malloc meanwhile w turns held ≡ returns f
    → f.ret ≡ 0
    → IsClean held f
binary_main-IsClean pb codec malloc meanwhile w turns held few =
    clean w turns failed_client _ held few
      (weaken (body-Kept pb codec (socket_transport malloc) meanwhile) (λ ret r q. q.kept))
