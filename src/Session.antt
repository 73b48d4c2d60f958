-- ===== src/Session.antt =====
-- What a program does with a client of src/functionblock.c over its life: commands, stream reads, and
-- steps of the read thread in between, in any order.
pub mod Accounts
pub mod Life
mod Tests
use io4edge_client_c.Base.{ℕ, ◌+◌, Option, none, some, List, [], ◌∷◌, if◌then◌else◌}
use io4edge_client_c.Base.Int.{eq_ℤ}
use io4edge_client_c.Err.{Err, err_protobuf}
use io4edge_client_c.Exec.{Exec, returns, hangs, fault}
use io4edge_client_c.Transport.{Transport}
use io4edge_client_c.Proto.{Any, CommandType, ResponseType, StreamData, Codec, Unpack}
use io4edge_client_c.Client.{Client, Around, run_thread}
use io4edge_client_c.Functionblock.{request, order, read_stream}

-- An operation with a response, one without, a read of the stream at a time `now`, or some steps of
-- the read thread while the program does something else.
pub data Event (M : Type 0) : Type 0 where
  ask : CommandType → (ResponseType → Option Any) → Option (Unpack M) → Around → Event M
  tell : CommandType → Around → Event M
  read : ℕ → Unpack M → ℕ → ℕ → Event M
  idle : ℕ → ℕ → ℕ → Event M

-- A client, with the number of stream messages that the program was handed, and of those that a read
-- took from the queue without handing them out.
pub record Account (S : Type 0) : Type 0 where
  pub client : Client S
  pub handed : ℕ
  pub lost : ℕ

-- A read that hands nothing out and returns IO4E_ERR_PROTOBUF has lost the message that it took.
abbrev pub after_read :
    {S M : Type 0} → Account S → Err → Option (StreamData × M) → Client S → Account S
after_read a e (some x) h = record { client = h; handed = a.handed + 1; lost = a.lost }
after_read a e none h = record {
  client = h;
  handed = a.handed;
  lost = if eq_ℤ e err_protobuf then a.lost + 1 else a.lost;
}

module _ {S M : Type 0} (codec : Codec) (tr : Transport S) where
  -- One event.
  unfoldable pub happen : Event M → Account S → Exec (Account S)
  happen (ask type member unpack w) a = elim (request codec tr type member unpack w a.client) [
    | returns (e, r, h) ↦ returns (record a { client = h })
    | hangs ↦ hangs
    | fault ↦ fault
  ]
  happen (tell type w) a = elim (order codec tr type w a.client) [
    | returns (e, h) ↦ returns (record a { client = h })
    | hangs ↦ hangs
    | fault ↦ fault
  ]
  happen (read time_size unpack timeout now) a =
      elim (read_stream time_size unpack timeout now a.client) [
        | returns (e, x, h, later) ↦ returns (after_read a e x h)
        | hangs ↦ hangs
        | fault ↦ fault
      ]
  happen (idle time_size now n) a =
      returns (record a { client = run_thread codec tr time_size now n a.client })

  -- A whole session.
  unfoldable pub session : List (Event M) → Account S → Exec (Account S)
  session [] a = returns a
  session (event ∷ events) a = elim (happen event a) [
    | returns a' ↦ session events a'
    | hangs ↦ hangs
    | fault ↦ fault
  ]

-- How many steps the read thread may make during an event, and during a session.
abbrev pub steps : {M : Type 0} → Event M → ℕ
steps (ask type member unpack w) = w.wait_steps + w.take_steps
steps (tell type w) = w.wait_steps + w.take_steps
steps (read time_size unpack timeout now) = 0
steps (idle time_size now n) = n

abbrev pub all_steps : {M : Type 0} → List (Event M) → ℕ
all_steps [] = 0
all_steps (event ∷ events) = steps event + all_steps events
