-- ===== src/Demo/Main/Clean.antt =====
-- A program that returns 0 has released everything but what its client still had.
use io4edge_client_c.Base.{
  ℕ, zero, suc, ◌+◌, ◌≡◌, ◌≤◌, inl, inr, refl, ap, ◌∙◌, sym, some, List, arith,
}
use io4edge_client_c.Err.{Err, ok}
use io4edge_client_c.Sem.{sem_value_max}
use io4edge_client_c.Exec.{Exec, returns, hangs, fault}
use io4edge_client_c.Socket.{Socket}
use io4edge_client_c.Client.{Client}
use io4edge_client_c.Client.Ledger.{in_slot, in_hand}
use io4edge_client_c.Lifecycle.{Held, World, client_new, fresh}
use io4edge_client_c.Lifecycle.Balance.{client_new_cases, new_delete, client_new-IsBalanced}
use io4edge_client_c.Session.Life.{delete_same}
use io4edge_client_c.Demo.{Turn, Run, Act}
use io4edge_client_c.Demo.Ensures.{Ensures, Owes, turn_steps}
use io4edge_client_c.Demo.Main.{Finished, at_first, leave, run_main}

-- A program's end as it should be: no socket and no thread is left, and no block; what is left of the unpacked messages
-- is what one client had in its response slot, in its thread's hands and in its queue when it was deleted.
pub record IsClean {L : Type 0} (held : Held) (f : Finished L) : Type 0 where
  pub released : f.held ≡ held
  pub no_values : f.values ≡ 0
  pub no_blocks : f.blocks ≡ 0
  pub client : Client Socket
  pub its_last : f.last ≡ some client
  pub rest : f.left ≡ in_slot client.cmd_response + in_hand client.thread + client.streamq.nentries

module _ {L : Type 0} (w : World) (turns : List Turn) (failed_client : Err → L)
    (body : Act Socket L ℕ) where
  worked :
      (held held' : Held) (h : Client Socket) (e : Exec (ℕ × Run Socket L)) {f : Finished L}
      → turn_steps turns ≤ sem_value_max
      → Ensures (Owes 0 0 0 0) body (λ ret r. ret ≡ 0 → Owes 0 0 0 0 r)
      → client_new w 5 held ≡ (ok, some h, held')
      → body (at_first h turns) ≡ e
      → run_main w turns failed_client body held ≡ returns f
      → f.ret ≡ 0
      → IsClean held f
  unfolding run_main leave
  worked held held' h hangs few keeps made c eq z = absurd (ground arith)
  worked held held' h fault few keeps made c eq z = absurd (ground arith)
  worked held held' h (returns (ret, r)) {f} few keeps made c eq z =
      let ended : f ≡ leave ret r held' = ground arith in
      left_well ret c (ap (λ f. f.ret) (sym ended) ∙ z) ended
    where
      left_well :
          (ret : ℕ)
          → body (at_first h turns) ≡ returns (ret, r)
          → (leave ret r held').ret ≡ 0
          → f ≡ leave ret r held'
          → IsClean held f
      left_well zero c z ended =
          let (new, context, place, empty) =
            client_new-IsBalanced w 5 (turn_steps turns + 0) held (omega arith) made in
          let first : Owes 0 0 0 0 (at_first {L = L} h turns) = record {
            balanced = new;
            unpacked = refl;
            allocated = refl;
          } in
          let o = keeps.holds (at_first h turns) first zero r c refl in
          let deleted = delete_same h r.client held' (new_delete w 5 held made) in
          let b = o.balanced in
          let done : f ≡ record {
            ret = 0;
            held = held;
            last = some r.client;
            left = r.client.live;
            values = r.values;
            blocks = r.blocks;
            printed = r.printed;
          } =
            ended ∙ rw (leave, deleted) refl in
          rw done (record {
            released = refl;
            no_values = o.unpacked;
            no_blocks = o.allocated;
            client = r.client;
            its_last = refl;
            rest = omega (arith, b.owned);
          })
      left_well (suc n) c z ended = absurd (ground arith)

  -- A body that returns 0 only with nothing in the program's hands makes a clean program.
  pub clean :
      (held : Held) {f : Finished L}
      → turn_steps turns ≤ sem_value_max
      → Ensures (Owes 0 0 0 0) body (λ ret r. ret ≡ 0 → Owes 0 0 0 0 r)
      → run_main w turns failed_client body held ≡ returns f
      → f.ret ≡ 0
      → IsClean held f
  unfolding run_main
  clean held few keeps eq z = elim (client_new_cases w 5 held) [
    | inl (c, held', done, m) ↦
        let made : client_new w 5 held ≡ (ok, some (fresh w.connection m.queue 5), held') =
          done ∙ ap (λ x. (ok, x, held')) m.client in
        worked held held' (fresh w.connection m.queue 5) _ few keeps made refl eq z
    | inr (e, bad, failed) ↦ absurd (ground arith)
  ]
