-- ===== src/Demo/Can/Frees.antt =====
-- What the programs of examples/canl2 free, and what dumpstream.c does not.
use io4edge_client_c.Base.{ℕ, zero, suc, ◌+◌, Bool, Option, none, some, List}
use io4edge_client_c.Exec.{returns, fault}
use io4edge_client_c.Transport.{Transport}
use io4edge_client_c.Proto.{Codec, c_string}
use io4edge_client_c.Demo.{Run, print}
use io4edge_client_c.Demo.CanSample.{Sample, Names, sample_to_string}
use io4edge_client_c.Demo.Can.{
  Generated, Line, failed_start, failed_read, failed_upload, sample, print_sample, dump_message,
  dump_loop, dump, configure,
}
use io4edge_client_c.Demo.Ensures.{
  Ensures, >>=-Ensures, weaken, strengthen, Owes, print-Ensures, free_value-Ensures,
}
use io4edge_client_c.Demo.Control.{
  Kept, unless_ok-Kept, pure-Kept, each-Ensures, follow-Ensures, handed, fetched,
}
use io4edge_client_c.Demo.Calls.{
  fetch-Ensures, tell-Ensures, read_stream-Ensures, request-Settles, order-Settles,
}
use io4edge_client_c.Base.{◌≡◌, refl, arith}
use io4edge_client_c.Demo.Text.{Buffer}
use io4edge_client_c.Demo.{Turn}
use io4edge_client_c.Demo.Ensures.{turn_steps}
use io4edge_client_c.Demo.Main.{Finished}
use io4edge_client_c.Demo.Main.Clean.{IsClean, clean}
use io4edge_client_c.Lifecycle.{Held, World}
use io4edge_client_c.Sem.{sem_value_max}
use io4edge_client_c.Exec.{returns}
use io4edge_client_c.Socket.{socket_transport}
use io4edge_client_c.Base.{◌≤◌}
use io4edge_client_c.Demo.Can.{failed_client, configure_main}

module _ {S : Type 0} {out values blocks k : ℕ} where
  print_sample-Ensures :
      (names : Names) (s : Sample)
      → Ensures {S = S}
          (Owes out values blocks k)
          (print_sample names s)
          (λ u. Owes out values blocks k)
  unfolding print_sample
  print_sample-Ensures names s = from (sample_to_string names 200 s)
    where
      from :
          (o : Option Buffer)
          → Ensures {S = S} {L = Line}
              (Owes out values blocks k)
              (elim o [ none ↦ λ r. fault | some b ↦ print (sample (c_string b.bytes)) ])
              (λ u. Owes out values blocks k)
      from none = record { holds = λ r p a r' eq. absurd (ground arith) }
      from (some b) = print-Ensures _

module _ {S ControllerState : Type 0} {k : ℕ} (pb : Generated ControllerState) (codec : Codec)
    (tr : Transport S) where
  dump_loop-Kept :
      (n out v : ℕ)
      → Ensures {S = S} (Owes out v 0 k) (dump_loop pb codec tr n) (Kept (out + n) (v + n) 0 k)
  unfolding dump_loop dump_message
  dump_loop-Kept zero out v =
      let same_out : out + 0 ≡ out = omega arith in
      let same_values : v + 0 ≡ v = omega arith in rw (same_out, same_values) pure-Kept
  dump_loop-Kept (suc n) out v =
      let out_next : out + 1 + n ≡ out + suc n = omega arith in
      let values_next : v + 1 + n ≡ v + suc n = omega arith in
      >>=-Ensures (read_stream-Ensures codec tr pb.stream_data_unpack 2) (λ a.
        unless_ok-Kept a.0 failed_read (λ good. follow-Ensures a.1 (λ m e.
          strengthen (λ r d. handed out v 0 k a.0 a.1 m r e d)
            (>>=-Ensures
              (>>=-Ensures (print-Ensures _)
                (λ u. each-Ensures _ (λ s. print_sample-Ensures pb.names s)))
              (λ u. rw (out_next, values_next) at (dump_loop-Kept n (out + 1) (v + 1)))))))

  -- dumpstream.c: after `n` rounds of its loop the program holds `n` messages with their samples, and has freed none; all
  -- other live messages have one owner, as before.
  pub dump_leaks :
      (n : ℕ) (r : Run S Line) {r' : Run S Line}
      → dump pb codec tr n r ≡ returns (0, r')
      → Owes 0 0 0 k r
      → Owes n n 0 k r'
  unfolding dump
  dump_leaks n r {r'} eq o =
      let keeps : Ensures (Owes 0 0 0 k) (dump pb codec tr n) (Kept (0 + n) (0 + n) 0 k) =
        >>=-Ensures (tell-Ensures codec tr _ (order-Settles codec tr _))
          (λ err. unless_ok-Kept err failed_start (λ good. dump_loop-Kept n 0 0)) in
      let all : 0 + n ≡ n = omega arith in rw all at ((keeps.holds r o 0 r' eq).kept refl)

  configure-Kept : Ensures {S = S} (Owes 0 0 0 k) (configure pb codec tr) (Kept 0 0 0 k)
  unfolding configure
  configure-Kept = >>=-Ensures (tell-Ensures codec tr _ (order-Settles codec tr _)) (λ err.
      unless_ok-Kept err failed_upload (λ good.
        >>=-Ensures (fetch-Ensures codec tr _ (request-Settles codec tr _ _ _)) (λ a.
          unless_ok-Kept a.0 failed_upload (λ good. follow-Ensures a.1 (λ c e.
            strengthen (λ r o. fetched 0 0 0 k a.1 c r e o)
              (>>=-Ensures (print-Ensures _)
                (λ u. >>=-Ensures free_value-Ensures (λ u. pure-Kept))))))))

-- examples/canl2/config.c: where its `main` returns 0, it holds no block, socket or thread of the library more than
-- before, and not the configuration that it has downloaded.
pub configure_main-IsClean :
    {ControllerState : Type 0} (pb : Generated ControllerState) (codec : Codec) (malloc : ℕ → Bool)
    (w : World) (turns : List Turn) (held : Held) {f : Finished Line}
    → turn_steps turns ≤ sem_value_max
    → configure_main pb codec malloc w turns held ≡ returns f
    → f.ret ≡ 0
    → IsClean held f
configure_main-IsClean pb codec malloc w turns held few =
    clean w turns failed_client _ held few
      (weaken (configure-Kept pb codec (socket_transport malloc)) (λ ret r q. q.kept))
