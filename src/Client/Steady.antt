-- ===== src/Client/Steady.antt =====
-- Commands to a device that answers each in time: `command` of src/functionblock.c.
use io4edge_client_c.Base.{ℕ, ◌≡◌, true, false, some, List, [], ◌∷◌, length, ◌==◌}
use io4edge_client_c.Err.{Err, ok}
use io4edge_client_c.Exec.{returns, hangs, fault}
use io4edge_client_c.Transport.{Transport}
use io4edge_client_c.Proto.{CommandType, Response, Codec, status_ok}
use io4edge_client_c.Client.{Client, next_char, Around, command}
use io4edge_client_c.Client.Reading.{is_stream}
use io4edge_client_c.Client.Exchange.{outgoing, outgoing_len}

-- The response arrives while the caller waits for it, and nothing else does.
abbrev pub in_time : Around
in_time = record { lock_ok = true; time_size = 8; now = 0; wait_steps = 1; take_steps = 0 }

-- How a device answers a command of the client: the bytes are taken, and the next message is a response
-- that carries the command's context and status OK.
pub record Served {S : Type 0} (codec : Codec) (tr : Transport S) (type : CommandType)
    (h : Client S) : Type 0 where
  pub sent : S
  pub received : S
  pub buf : List ℕ
  pub res : Response
  pub takes :
      tr.write_msg h.transport (outgoing codec tr type h) (outgoing_len codec tr type h)
      ≡ some (ok, sent)
  pub gives : tr.read_msg sent 1 ≡ some (ok, buf, received)
  pub full : (length buf == 0) ≡ false
  pub unpacks : codec.unpack buf ≡ some res
  pub answers : is_stream res.type ≡ false
  pub context : res.context ≡ some (next_char h.cmd_context ∷ [])
  pub status : res.status ≡ status_ok

module _ {S : Type 0} (codec : Codec) (tr : Transport S) where
  -- Commands one after another, each with its response in time: the codes that the caller sees.
  pub in_turn : List CommandType → Client S → List Err
  in_turn [] h = []
  in_turn (type ∷ types) h = elim (command codec tr false type in_time h) [
    | returns (e, given, h') ↦ e ∷ in_turn types h'
    | hangs ↦ []
    | fault ↦ []
  ]
