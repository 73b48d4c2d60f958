-- ===== src/Session/Life.antt =====
-- From `io4edge_functionblock_client_new_from_host_port` to `io4edge_functionblock_client_delete`.
use io4edge_client_c.Base.{ℕ, ◌+◌, ◌≡◌, ◌≤◌, ap, ◌∙◌, Bool, some, List, arith}
use io4edge_client_c.Err.{ok}
use io4edge_client_c.Exec.{returns}
use io4edge_client_c.Sem.{sem_value_max}
use io4edge_client_c.Proto.{Codec}
use io4edge_client_c.Socket.{Socket, socket_transport}
use io4edge_client_c.Client.{Client}
use io4edge_client_c.Client.Ledger.{in_slot, in_hand}
use io4edge_client_c.Lifecycle.{Held, World, client_new, client_delete, destroy, streamq_delete}
use io4edge_client_c.Lifecycle.Balance.{new_delete, client_new-IsBalanced}
use io4edge_client_c.Session.{Event, Account, session, all_steps}
use io4edge_client_c.Session.Accounts.{session-IsBalanced}

-- A deletion releases the same, whatever the client went through.
pub delete_same :
    (h g : Client Socket) (r' : Held) {r : Held} {n : ℕ}
    → client_delete (some h) r' ≡ (ok, r, n)
    → client_delete (some g) r' ≡ (ok, r, g.live)
unfolding client_delete destroy streamq_delete
delete_same h g r' e = let held = ap (λ p. p.1) e in ap (λ k. (ok, k, g.live)) held

-- The whole life of a client over TCP: created, used in any session whose thread steps the semaphore can
-- count and that returns, and deleted. The blocks, the socket and the thread are all released; of the
-- messages, those stay allocated that were still in the response slot, in the thread's hands or in the
-- queue, besides those that the program was handed and those that failed reads lost.
pub life :
    {M : Type 0} (codec : Codec) (malloc : ℕ → Bool) (w : World) (timeout : ℕ) (r : Held)
    (events : List (Event M)) {h : Client Socket} {r' : Held} {a : Account Socket}
    → client_new w timeout r ≡ (ok, some h, r')
    → all_steps events ≤ sem_value_max
    → session codec (socket_transport malloc) events (record { client = h; handed = 0; lost = 0 })
      ≡ returns a
    → client_delete (some a.client) r' ≡ (
      ok,
      r,
      in_slot a.client.cmd_response
          + in_hand a.client.thread
          + a.client.streamq.nentries
          + (a.handed + a.lost),
    )
life codec malloc w timeout r events {h} {r'} {a} made few used =
    let (fresh, context, place, empty) =
      client_new-IsBalanced w timeout (all_steps events + 0) r (omega arith) made in
    let after =
      session-IsBalanced codec (socket_transport malloc) events
        (record { client = h; handed = 0; lost = 0 }) 0 used fresh in
    delete_same h a.client r' (new_delete w timeout r made) ∙ ap (λ n. (ok, r, n)) after.owned
