-- ===== src/Demo/Reconnect/Rounds.antt =====
-- The endless loop of examples/mvbsniffer/reconnect.c holds no more from round to round.
use io4edge_client_c.Base.{ℕ, Bool, some, List, [], ◌∷◌, ◌++◌, ◌==◌, if◌then◌else◌}
use io4edge_client_c.Exec.{Exec, returns, hangs, fault}
use io4edge_client_c.Proto.{Codec}
use io4edge_client_c.Socket.{Socket, socket_transport}
use io4edge_client_c.Client.{Client}
use io4edge_client_c.Lifecycle.{Held, World, client_new, fresh}
use io4edge_client_c.Demo.{Turn, Run}
use io4edge_client_c.Demo.Sniffer.{Generated, Line, reconnecting, failed_stream}
use io4edge_client_c.Demo.Reconnect.{handle_session, opened, close, round, rounds}
use io4edge_client_c.Lifecycle.Balance.{client_new_cases, new_delete}
use io4edge_client_c.Session.Life.{delete_same}
use io4edge_client_c.Err.{ok}
use io4edge_client_c.Base.{◌≡◌, inl, inr, refl, ap, ◌∙◌, arith}

module _ (pb : Generated) (codec : Codec) (malloc : ℕ → Bool) where
  -- A round whose client has been created.
  used :
      (w : World) (turns : List Turn) (held held' : Held) (printed : List Line) (h : Client Socket)
      (e : Exec (ℕ × Run Socket Line)) {after : Held} {left : ℕ} {lines : List Line}
      → client_new w 5 held ≡ (ok, some h, held')
      → handle_session pb codec
          (socket_transport malloc)
          (opened h turns (printed ++ reconnecting ∷ []))
        ≡ e
      → round pb codec malloc w turns held printed ≡ returns (after, left, lines)
      → after ≡ held
  unfolding round
  used w turns held held' printed h hangs made c eq = absurd (ground arith)
  used w turns held held' printed h fault made c eq = absurd (ground arith)
  used w turns held held' printed h (returns (ret, r)) {after} made c eq =
      let deleted = delete_same h r.client held' (new_delete w 5 held made) in
      let to_close : round pb codec malloc w turns held printed
          ≡ returns (close pb codec malloc ret r held') =
        ground arith in
      let ended : round pb codec malloc w turns held printed
          ≡ returns (
            held,
            r.client.live,
            if ret == 0 then r.printed else r.printed ++ failed_stream ∷ [],
          ) =
        to_close ∙ ap returns (rw deleted refl) in
      ground arith

  round-held :
      (w : World) (turns : List Turn) (held : Held) (printed : List Line) {after : Held} {left : ℕ}
      {lines : List Line}
      → round pb codec malloc w turns held printed ≡ returns (after, left, lines)
      → after ≡ held
  unfolding round
  round-held w turns held printed {after} eq = elim (client_new_cases w 5 held) [
    | inl (c, held', done, m) ↦
        let made : client_new w 5 held ≡ (ok, some (fresh w.connection m.queue 5), held') =
          done ∙ ap (λ x. (ok, x, held')) m.client in
        used w turns held held' printed (fresh w.connection m.queue 5) _ made refl eq
    | inr (e, bad, failed) ↦ ground arith
  ]

  round_then :
      (w : World) (turns : List Turn) (more : List (World × List Turn)) (held : Held)
      (printed : List Line) (e : Exec (Held × ℕ × List Line)) {after : Held} {left : ℕ}
      {lines : List Line}
      → round pb codec malloc w turns held printed ≡ e
      → rounds pb codec malloc ((w, turns) ∷ more) held printed ≡ returns (after, left, lines)
      → (held' : Held) × (left' : ℕ) × (printed' : List Line) × (left'' : ℕ) × (round pb codec
            malloc w turns held printed
          ≡ returns (held', left', printed'))
        × (rounds pb codec malloc more held' printed' ≡ returns (after, left'', lines))
  unfolding rounds
  round_then w turns more held printed hangs c eq = absurd (ground arith)
  round_then w turns more held printed fault c eq = absurd (ground arith)
  round_then w turns more held printed (returns (held', left', printed')) {after} {left} {lines} c
        eq =
      further _ refl eq
    where
      further :
          (e : Exec (Held × ℕ × List Line))
          → rounds pb codec malloc more held' printed' ≡ e
          → rounds pb codec malloc ((w, turns) ∷ more) held printed ≡ returns (after, left, lines)
          → (held' : Held) × (left' : ℕ) × (printed' : List Line) × (left'' : ℕ) × (round pb codec
                malloc w turns held printed
              ≡ returns (held', left', printed'))
            × (rounds pb codec malloc more held' printed' ≡ returns (after, left'', lines))
      further hangs d eq = absurd (ground arith)
      further fault d eq = absurd (ground arith)
      further (returns (held'', left'', printed'')) d eq =
          (held', left', printed', left'', c, ground arith)

  -- After any number of rounds, in each of which the connection may fail or the session break off, the program holds
  -- just the blocks, sockets and threads that it held at first.
  pub rounds_hold_nothing :
      (ws : List (World × List Turn)) (held : Held) (printed : List Line) {after : Held} {left : ℕ}
      {lines : List Line}
      → rounds pb codec malloc ws held printed ≡ returns (after, left, lines)
      → after ≡ held
  unfolding rounds
  rounds_hold_nothing [] held printed eq = ground arith
  rounds_hold_nothing ((w, turns) ∷ more) held printed eq =
      let (held', left', printed', left'', one, rest) =
        round_then w turns more held printed _ refl eq in
      rounds_hold_nothing more held' printed' rest ∙ round-held w turns held printed one
