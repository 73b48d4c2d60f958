-- ===== src/Demo/Can/Send.antt =====
-- What examples/canl2/send.c allocates and frees.
use io4edge_client_c.Base.{ℕ, zero, suc, ◌+◌, ◌-◌, Bool, true, false, List, [], ◌∷◌, length}
use io4edge_client_c.Exec.{returns}
use io4edge_client_c.Transport.{Transport}
use io4edge_client_c.Proto.{Codec}
use io4edge_client_c.Demo.{Act, each}
use io4edge_client_c.Demo.CanSample.{CanFrame}
use io4edge_client_c.Demo.Can.{
  Generated, Line, failed_send, frame_of, new_frame, free_frame, new_frames, send_bucket,
  send_buckets, send,
}
use io4edge_client_c.Demo.Ensures.{Ensures, >>=-Ensures, weaken, strengthen, pure-Ensures, Owes}
use io4edge_client_c.Demo.Control.{Kept, unless_ok-Kept, pure-Kept}
use io4edge_client_c.Demo.Calls.{ask-Ensures, request-Settles}
use io4edge_client_c.Base.{◌≡◌, ap, ◌∙◌, arith}
use io4edge_client_c.Demo.{Turn}
use io4edge_client_c.Demo.Ensures.{turn_steps}
use io4edge_client_c.Demo.Main.{Finished}
use io4edge_client_c.Demo.Main.Clean.{IsClean, clean}
use io4edge_client_c.Lifecycle.{Held, World}
use io4edge_client_c.Sem.{sem_value_max}
use io4edge_client_c.Exec.{returns}
use io4edge_client_c.Socket.{socket_transport}
use io4edge_client_c.Base.{◌≤◌}
use io4edge_client_c.Demo.Can.{failed_client, send_main}

module _ {S : Type 0} {out values blocks k : ℕ} where
  new_frame-Ensures :
      (granted : Bool) (frame : CanFrame)
      → Ensures {S = S}
          (Owes out values blocks k)
          (new_frame granted frame)
          (λ a. Owes out values (blocks + 1) k)
  unfolding new_frame
  new_frame-Ensures true frame = record {
    holds = λ r o a r' eq.
        let same : r' ≡ record r { blocks = r.blocks + 1 } = ground arith in
        rw same (record {
          balanced = o.balanced;
          unpacked = o.unpacked;
          allocated = omega (arith, o.allocated);
        });
  }
  new_frame-Ensures false frame = record { holds = λ r o a r' eq. absurd (ground arith) }

  free_frame-Ensures :
      (frame : CanFrame)
      → Ensures {S = S}
          (Owes out values (blocks + 1) k)
          (free_frame frame)
          (λ u. Owes out values blocks k)
  unfolding free_frame
  free_frame-Ensures frame = record {
    holds = λ r o a r' eq.
        let same : r' ≡ record r { blocks = r.blocks - 1 } = ground arith in
        rw same (record {
          balanced = o.balanced;
          unpacked = o.unpacked;
          allocated = omega (arith, o.allocated);
        });
  }

module _ {S : Type 0} {out values k : ℕ} where
  new_frames-Ensures :
      (granted : Bool) (bucket n message blocks : ℕ)
      → Ensures {S = S}
          (Owes out values blocks k)
          (new_frames granted bucket n message)
          (λ frames r. (length frames ≡ n) × Owes out values (blocks + n) k r)
  unfolding new_frames
  new_frames-Ensures granted bucket zero message blocks =
      weaken (pure-Ensures [])
        (λ frames r q. let same : blocks + 0 ≡ blocks = omega arith in (ap length q.0, rw same q.1))
  new_frames-Ensures granted bucket (suc n) message blocks =
      >>=-Ensures (new_frame-Ensures granted (frame_of bucket message)) (λ frame.
        >>=-Ensures (new_frames-Ensures granted bucket n (message + 1) (blocks + 1)) (λ more.
          weaken (pure-Ensures (frame ∷ more)) (λ frames r q.
            let next : blocks + 1 + n ≡ blocks + suc n = omega arith in
            (ap length q.0 ∙ ap suc q.1.0, rw next at q.1.1))))

  free_frames-Ensures :
      (frames : List CanFrame) (blocks : ℕ)
      → Ensures {S = S}
          (Owes out values (blocks + length frames) k)
          (each frames free_frame)
          (λ u. Owes out values blocks k)
  unfolding each
  free_frames-Ensures [] blocks =
      weaken (pure-Ensures tt)
        (λ a r q. let same : blocks + 0 ≡ blocks = omega arith in rw same at q.1)
  free_frames-Ensures (frame ∷ frames) blocks =
      let next : blocks + suc (length frames) ≡ blocks + length frames + 1 = omega arith in
      rw next (>>=-Ensures (free_frame-Ensures frame) (λ u. free_frames-Ensures frames blocks))

module _ {S ControllerState : Type 0} {k : ℕ} (pb : Generated ControllerState) (codec : Codec)
    (tr : Transport S) where
  send_bucket-Kept :
      (granted : Bool) (bucket : ℕ) {rest : Act S Line ℕ}
      → Ensures (Owes 0 0 0 k) rest (Kept 0 0 0 k)
      → Ensures (Owes 0 0 0 k) (send_bucket pb codec tr granted bucket rest) (Kept 0 0 0 k)
  unfolding send_bucket
  send_bucket-Kept granted bucket then_rest =
      >>=-Ensures (new_frames-Ensures granted bucket 5 0 0) (λ frames.
        strengthen
          (λ r q. let owed : 0 + 5 ≡ 0 + length frames = omega (arith, q.0) in rw owed at q.1)
          (>>=-Ensures (ask-Ensures codec tr _ (request-Settles codec tr _ _ _)) (λ a.
            >>=-Ensures (free_frames-Ensures frames 0)
              (λ u. unless_ok-Kept a.0 failed_send (λ good. then_rest)))))

  send_buckets-Kept :
      (granted : Bool) (n bucket : ℕ)
      → Ensures (Owes 0 0 0 k) (send_buckets pb codec tr granted n bucket) (Kept 0 0 0 k)
  unfolding send_buckets
  send_buckets-Kept granted zero bucket = pure-Kept
  send_buckets-Kept granted (suc n) bucket =
      send_bucket-Kept granted bucket (send_buckets-Kept granted n (bucket + 1))

  send-Kept : (granted : Bool) → Ensures (Owes 0 0 0 k) (send pb codec tr granted) (Kept 0 0 0 k)
  unfolding send
  send-Kept granted = send_buckets-Kept granted 10 0

-- examples/canl2/send.c: where its `main` returns 0, all its frames are freed, it holds no block, socket or thread of the
-- library more than before, and of the unpacked messages those are left that its client still had when it was deleted.
pub send_main-IsClean :
    {ControllerState : Type 0} (pb : Generated ControllerState) (codec : Codec) (malloc : ℕ → Bool)
    (granted : Bool) (w : World) (turns : List Turn) (held : Held) {f : Finished Line}
    → turn_steps turns ≤ sem_value_max
    → send_main pb codec malloc granted w turns held ≡ returns f
    → f.ret ≡ 0
    → IsClean held f
send_main-IsClean pb codec malloc granted w turns held few =
    clean w turns failed_client _ held few
      (weaken (send-Kept pb codec (socket_transport malloc) granted) (λ ret r q. q.kept))
