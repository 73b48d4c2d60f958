-- ===== src/Client/Frame.antt =====
-- What the read thread leaves alone: the context and the command timeout are the caller's.
use io4edge_client_c.Base.{
  ℕ, zero, suc, ◌≡◌, refl, ◌∙◌, inl, inr, Bool, false, some, Option-cases, arith,
}
use io4edge_client_c.Transport.{Transport}
use io4edge_client_c.Proto.{
  Response, ResponseType, of_configuration, of_function_control, of_stream, of_other, Codec,
}
use io4edge_client_c.Client.{
  Client, deliver, dispatch, receive, push_stream, thread_step, run_thread,
}

context-deliver :
    {S : Type 0} (res : Response) (h : Client S) → (deliver res h).cmd_context ≡ h.cmd_context
unfolding deliver
context-deliver res h = ground arith

context-dispatch :
    {S : Type 0} (res : Response) (type : ResponseType) (h : Client S)
    → (dispatch res type h).cmd_context ≡ h.cmd_context
unfolding dispatch
context-dispatch res (of_stream sd) h = refl
context-dispatch res (of_configuration c) h = context-deliver res h
context-dispatch res (of_function_control c) h = context-deliver res h
context-dispatch res (of_other n) h = context-deliver res h

module _ {S : Type 0} (codec : Codec) (tr : Transport S) where
  context-receive :
      (h : Client S) {h' : Client S} → receive codec tr h ≡ some h' → h'.cmd_context ≡ h.cmd_context
  unfolding receive
  context-receive h e = grind (arith, context-dispatch)

  context-push_stream :
      (ts now : ℕ) (expired : Bool) (h : Client S) {h' : Client S} (sd : _)
      → push_stream codec tr ts now expired sd h ≡ some h'
      → h'.cmd_context ≡ h.cmd_context
  unfolding push_stream
  context-push_stream ts now expired h sd e = ground arith

  context-thread_step :
      (ts now : ℕ) (expired : Bool) (h : Client S) {h' : Client S}
      → thread_step codec tr ts now expired h ≡ some h'
      → h'.cmd_context ≡ h.cmd_context
  unfolding thread_step
  context-thread_step ts now expired h e = grind (arith, context-receive, context-push_stream)

  -- An invariant of the steps of the read thread, which may speak of how many steps are to come, holds
  -- when the thread has made them or is blocked.
  pub run_thread_inv {ℓ} :
      (P : ℕ → Client S → Type ℓ) (ts now : ℕ)
      → ((n : ℕ) (h : Client S) → P n h → P 0 h)
      → ((n : ℕ) (h h' : Client S)
          → thread_step codec tr ts now false h ≡ some h'
          → P (suc n) h
          → P n h')
      → (n : ℕ) (h : Client S) → P n h
      → P 0 (run_thread codec tr ts now n h)
  unfolding run_thread
  run_thread_inv P ts now stop keep zero h p = p
  run_thread_inv P ts now stop keep (suc n) h p =
      elim (Option-cases (thread_step codec tr ts now false h)) [
        | inl blocked ↦ rw (blocked, run_thread) (stop (suc n) h p)
        | inr (h', e) ↦
            rw (e, run_thread) (run_thread_inv P ts now stop keep n h' (keep n h h' e p))
      ]

  -- No step of the read thread changes the context.
  pub context-run_thread :
      (ts now n : ℕ) (h : Client S) → (run_thread codec tr ts now n h).cmd_context ≡ h.cmd_context
  context-run_thread ts now n h =
      run_thread_inv (λ _ g. g.cmd_context ≡ h.cmd_context) ts now (λ n g p. p)
        (λ n g g' e p. context-thread_step ts now false g e ∙ p) n h refl
