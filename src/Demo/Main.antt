-- ===== src/Demo/Main.antt =====
-- The frame of `main` in the examples that run once: create a client, work with it, delete it.
pub mod Clean
use io4edge_client_c.Base.{ℕ, zero, suc, not, Option, none, some, List, [], ◌∷◌, if◌then◌else◌}
use io4edge_client_c.Err.{Err, is_ok}
use io4edge_client_c.Exec.{Exec, returns, hangs, fault}
use io4edge_client_c.Socket.{Socket}
use io4edge_client_c.Client.{Client}
use io4edge_client_c.Lifecycle.{Held, World, client_new, client_delete}
use io4edge_client_c.Demo.{Turn, Run, Act}

-- How a program ends: its return code, what it holds of the library and of the system, its
-- client as it was last, the unpacked messages of the
-- function block and of the block's own that are still allocated, its own blocks, and its output.
pub record Finished (L : Type 0) : Type 0 where
  pub ret : ℕ
  pub held : Held
  pub last : Option (Client Socket)
  pub left : ℕ
  pub values : ℕ
  pub blocks : ℕ
  pub printed : List L

-- A program's state when its client is new.
abbrev pub at_first : {S L : Type 0} → Client S → List Turn → Run S L
at_first client turns = record {
  client = client;
  turns = turns;
  values = 0;
  blocks = 0;
  printed = [];
}

module _ {L : Type 0} where
  -- Where the body has returned 0, `io4edge_functionblock_client_delete(&client); return 0;` follows. Where it has
  -- returned 1, `main` has returned 1 without that.
  unfoldable pub leave : ℕ → Run Socket L → Held → Finished L
  leave zero r held =
      let (err, held', left) = client_delete (some r.client) held in
      record {
        ret = 0;
        held = held';
        last = some r.client;
        left = left;
        values = r.values;
        blocks = r.blocks;
        printed = r.printed;
      }
  leave (suc n) r held = record {
    ret = 1;
    held = held;
    last = some r.client;
    left = r.client.live;
    values = r.values;
    blocks = r.blocks;
    printed = r.printed;
  }

  -- `main` with the given body behind the creation of the client.
  unfoldable pub run_main :
      World → List Turn → (Err → L) → Act Socket L ℕ → Held → Exec (Finished L)
  run_main w turns failed_client body held =
      let (err, client, held') = client_new w 5 held in
      if not (is_ok err)
      then returns (record {
        ret = 1;
        held = held';
        last = none;
        left = 0;
        values = 0;
        blocks = 0;
        printed = failed_client err ∷ [];
      })
      else elim client [
        | none ↦ fault
        | some h ↦ elim (body (at_first h turns)) [
          | returns (ret, r) ↦ returns (leave ret r held')
          | hangs ↦ hangs
          | fault ↦ fault
        ]
      ]
