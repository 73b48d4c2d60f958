-- ===== src/Demo.antt =====
-- What the programs under examples share: they are the library's callers, one call after another, with
-- the read thread at work before and during each call.
-- A program that has returned from `main` is gone with all that it holds; what matters is what a program
-- holds while it runs.
pub mod Ensures
pub mod Device
mod Tests
mod TextTests
mod MainTests
mod RoundTests
pub mod Control
pub mod Calls
pub mod Text
pub mod Main
pub mod Telegram
pub mod Sniffer
pub mod Reconnect
pub mod SnifferMain
pub mod CanSample
pub mod Can
pub mod BinaryIo
pub mod AnalogIn
use io4edge_client_c.Base.{ℕ, ◌+◌, ◌-◌, Bool, true, false, Option, none, some, List, [], ◌∷◌, ◌++◌}
use io4edge_client_c.Err.{Err, is_ok}
use io4edge_client_c.Exec.{Exec, returns, hangs, fault}
use io4edge_client_c.Transport.{Transport}
use io4edge_client_c.Proto.{StreamData, Codec, Unpack}
use io4edge_client_c.Client.{Client, Around, run_thread, freed}
use io4edge_client_c.Functionblock
use io4edge_client_c.Functionblock.{Answer, Plain}

-- What the world does for one call: the read thread's steps before it, and what a command meets.
pub record Turn : Type 0 where
  pub steps_before : ℕ
  pub around : Around

-- A program at work: its client, what the world will do in its next calls, how many values unpacked from
-- the block's own messages it holds, how many blocks of its own from `malloc`, and what it has printed.
pub record Run (S L : Type 0) : Type 0 where
  pub client : Client S
  pub turns : List Turn
  pub values : ℕ
  pub blocks : ℕ
  pub printed : List L

abbrev pub Act : Type 0 → Type 0 → Type 0 → Type 0
Act S L A = Run S L → Exec (A × Run S L)

infixl 5 ◌>>=◌ ◌>>◌
unfoldable pub ◌>>=◌ : {S L A B : Type 0} → Act S L A → (A → Act S L B) → Act S L B
◌>>=◌ m f r = elim (m r) [ returns (a, r') ↦ f a r' | hangs ↦ hangs | fault ↦ fault ]

abbrev pub ◌>>◌ : {S L A B : Type 0} → Act S L A → Act S L B → Act S L B
m >> k = m >>= λ _. k

unfoldable pub pure : {S L A : Type 0} → A → Act S L A
pure a r = returns (a, r)

-- What a call returns, beside the client that it leaves.
abbrev pub paired : {A B C : Type 0} → Exec (A × B × C) → Exec ((A × B) × C)
paired (returns (a, b, c)) = returns ((a, b), c)
paired hangs = hangs
paired fault = fault

abbrev pub untimed : {A B C T : Type 0} → Exec (A × B × C × T) → Exec ((A × B) × C)
untimed (returns (a, b, c, t)) = returns ((a, b), c)
untimed hangs = hangs
untimed fault = fault

-- The client at the beginning of a call.
abbrev pub before : {S : Type 0} → Codec → Transport S → Turn → Client S → Client S
before codec tr turn h =
    run_thread codec tr turn.around.time_size turn.around.now turn.steps_before h

module _ {S L : Type 0} where
  -- `printf`
  unfoldable pub print : L → Act S L (Unit {0})
  print line r = returns (tt, record r { printed = r.printed ++ line ∷ [] })

  -- The program has got what a call unpacked for it.
  unfoldable pub hold : {V : Type 0} → Option V → Act S L (Unit {0})
  hold none r = returns (tt, r)
  hold (some v) r = returns (tt, record r { values = r.values + 1 })

  -- The `…__free_unpacked` of a block's own message.
  unfoldable pub free_value : Act S L (Unit {0})
  free_value r = returns (tt, record r { values = r.values - 1 })

  -- `functionblock__stream_data__free_unpacked`
  unfoldable pub free_stream_data : Act S L (Unit {0})
  free_stream_data r = returns (tt, record r { client = freed r.client })

  -- `if (test) act`
  unfoldable pub when : Bool → Act S L (Unit {0}) → Act S L (Unit {0})
  when true act = act
  when false act = pure tt

  -- `for (int i = 0; i < n; i++)` over an array of `n` pointers
  unfoldable pub each : {A : Type 0} → List A → (A → Act S L (Unit {0})) → Act S L (Unit {0})
  each [] body = pure tt
  each (a ∷ items) body = do body a; each items body

  -- `if (err != IO4E_OK) { printf(…, err); return 1; }`, and the rest of the function.
  unfoldable pub unless_ok : Err → (Err → L) → Act S L ℕ → Act S L ℕ
  unless_ok err line rest = elim (is_ok err) [ true ↦ rest | false ↦ do print (line err); pure 1 ]

  -- The use of a pointer that a call has set where it returned IO4E_OK.
  unfoldable pub follow : {A : Type 0} → Option A → (A → Act S L ℕ) → Act S L ℕ
  follow none rest = λ r. fault
  follow (some a) rest = rest a

  module _ (codec : Codec) (tr : Transport S) where
    -- One call. Where the world does no more, the program blocks.
    unfoldable pub take_turn : {R : Type 0} → (Around → Client S → Exec (R × Client S)) → Act S L R
    take_turn op r = elim r.turns [
      | [] ↦ hangs
      | turn ∷ turns ↦ elim (op turn.around (before codec tr turn r.client)) [
        | returns (result, h) ↦ returns (result, record r { client = h; turns = turns })
        | hangs ↦ hangs
        | fault ↦ fault
      ]
    ]

    -- A call of an operation that sends a command and stores a plain value, or nothing.
    unfoldable pub ask : {V : Type 0} → (Around → Client S → Answer S V) → Act S L (Err × Option V)
    ask op = take_turn (λ w h. paired (op w h))

    -- The same for an operation that hands out a message which the caller has to free.
    unfoldable pub fetch :
        {V : Type 0} → (Around → Client S → Answer S V) → Act S L (Err × Option V)
    fetch op = do (err, v) ← ask op; hold v; pure (err, v)

    -- The same for one that stores nothing.
    unfoldable pub tell : (Around → Client S → Plain S) → Act S L Err
    tell op = take_turn op

    -- A call of `io4edge_functionblock_read_stream`.
    unfoldable pub read_stream :
        {V : Type 0} → Unpack V → ℕ → Act S L (Err × Option (StreamData × V))
    read_stream unpack timeout = do
      (err, x) ←
          take_turn (λ w h. untimed (Functionblock.read_stream w.time_size unpack timeout w.now h))
      hold x
      pure (err, x)
