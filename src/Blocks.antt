-- ===== src/Blocks.antt =====
-- What the clients of the four function blocks share: the macros of src/io4edge_internal.h that pack
-- their requests, and the way in which they take a value out of a response.
-- The messages' `pack` and `unpack` are generated code and parameters.
pub mod Values
pub mod BinaryIoTypeA
pub mod AnalogInTypeA
pub mod CanL2
pub mod MvbSniffer
pub mod Wire
mod Tests
use io4edge_client_c.Base.{ℕ, List, Option, none, some, not, if◌then◌else◌}
use io4edge_client_c.Err.{Err, ok, err_protobuf, is_ok}
use io4edge_client_c.Exec.{Exec, returns, hangs, fault}
use io4edge_client_c.Proto.{ProtoMsg}
use io4edge_client_c.Client.{Client}
use io4edge_client_c.Functionblock.{Answer}

-- The generated `…__pack` of one message type, and its `…__descriptor.name`.
pub record Packer (M : Type 0) : Type 0 where
  pub pack : M → List ℕ
  pub name : List ℕ

-- `IO4E_PACK_PROTOMSG` and `IO4E_PACK_PROTOMSG_P`
abbrev pub pack_protomsg : {M : Type 0} → Packer M → M → ProtoMsg
pack_protomsg p m = record { marshaled_msg = p.pack m; proto_name = p.name }

-- The message of `IO4E_MAKE_EMPTY_REQUEST`: one whose fields are all at their defaults.
pub data EmptyRequest : Type 0 where
  empty_request : EmptyRequest

-- What the getters do with the answer to their request: an error is passed on; a response of another
-- kind than the one asked for (`none`) is IO4E_ERR_PROTOBUF; the value is stored otherwise. The
-- unpacked response is freed on both paths.
unfoldable pub value_of : {S R V : Type 0} → (R → Option V) → Answer S R → Answer S V
value_of member (returns (err, response, h)) =
    if not (is_ok err) then returns (err, none, h) else elim response [
      | none ↦ fault
      | some r ↦ elim (member r) [
        | none ↦ returns (err_protobuf, none, h)
        | some v ↦ returns (ok, some v, h)
      ]
    ]
value_of member hangs = hangs
value_of member fault = fault
