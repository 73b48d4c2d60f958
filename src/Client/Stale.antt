-- ===== src/Client/Stale.antt =====
-- What becomes of the client after one response that came too late.
use io4edge_client_c.Base.{ℕ, ◌≡◌, true, false, none, some, List, [], ◌∷◌}
use io4edge_client_c.Err.{Err}
use io4edge_client_c.Exec.{returns, hangs, fault}
use io4edge_client_c.Transport.{Transport}
use io4edge_client_c.Proto.{CommandType, Response, Codec}
use io4edge_client_c.Client.{Client, deliver, Around, command}

-- No response is waiting.
pub record IsIdle {S : Type 0} (h : Client S) : Type 0 where
  pub unposted : h.cmd_sem ≡ 0
  pub empty : h.cmd_response ≡ none

-- The response to the last command is waiting, though nobody waits for it any more.
pub record IsLagging {S : Type 0} (h : Client S) : Type 0 where
  pub posted : h.cmd_sem ≡ 1
  pub res : Response
  pub waiting : h.cmd_response ≡ some res
  pub of_last : res.context ≡ some (h.cmd_context ∷ [])

-- A command whose caller wakes, or gives up, before the read thread gets to the command's response.
abbrev pub hurried : Around
hurried = record { lock_ok = true; time_size = 8; now = 0; wait_steps = 0; take_steps = 0 }

module _ {S : Type 0} (codec : Codec) (tr : Transport S) where
  -- Commands one after another, the response to each delivered after the command has returned and
  -- before the next is sent: the codes that the caller sees.
  pub rounds : (CommandType → ℕ → Response) → List CommandType → Client S → List Err
  rounds reply [] h = []
  rounds reply (type ∷ types) h = elim (command codec tr false type hurried h) [
    | returns (e, given, h') ↦ e ∷ rounds reply types (deliver (reply type h'.cmd_context) h')
    | hangs ↦ []
    | fault ↦ []
  ]
