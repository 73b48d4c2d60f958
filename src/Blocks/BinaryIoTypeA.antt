-- ===== src/Blocks/BinaryIoTypeA.antt =====
-- The client of the binary I/O block: src/binaryiotypea.c.
use io4edge_client_c.Base.{ℕ, Bool, Option, none, some}
use io4edge_client_c.Transport.{Transport}
use io4edge_client_c.Proto.{Codec, Unpack, StreamControlStart}
use io4edge_client_c.Client.{Client, Around}
use io4edge_client_c.Functionblock
use io4edge_client_c.Functionblock.{Answer, Plain}
use io4edge_client_c.Blocks.{Packer, pack_protomsg, EmptyRequest, empty_request, value_of}

-- `BinaryIoTypeA__FunctionControlSet`
pub data OutputSet : Type 0 where
  set_single : ℕ → Bool → OutputSet
  set_all : ℕ → ℕ → OutputSet
  exit_error : OutputSet

-- `BinaryIoTypeA__FunctionControlGet`
pub data InputGet : Type 0 where
  get_single : ℕ → InputGet
  get_all : ℕ → InputGet

-- `BinaryIoTypeA__FunctionControlGetResponse`
pub data InputResponse : Type 0 where
  single : Bool → InputResponse
  all : ℕ → InputResponse
  other_type : ℕ → InputResponse

-- The generated code of the block's messages; those that the client only passes on are opaque.
pub record Messages (ConfigurationSet Got Described : Type 0) : Type 0 where
  pub configuration_set : Packer ConfigurationSet
  pub configuration_get : Packer EmptyRequest
  pub configuration_get_response : Unpack Got
  pub configuration_describe : Packer EmptyRequest
  pub configuration_describe_response : Unpack Described
  pub function_control_set : Packer OutputSet
  pub function_control_get : Packer InputGet
  pub function_control_get_response : Unpack InputResponse
  pub stream_control_start : Packer ℕ

-- The members that `input` and `all_inputs` read.
abbrev pub single_state : InputResponse → Option Bool
single_state (single state) = some state
single_state _ = none

abbrev pub all_states : InputResponse → Option ℕ
all_states (all inputs) = some inputs
all_states _ = none

module _ {ConfigurationSet Got Described S : Type 0} (pb : Messages ConfigurationSet Got Described)
    (codec : Codec) (tr : Transport S) where
  -- `io4edge_binaryiotypea_upload_configuration`
  abbrev pub upload_configuration : ConfigurationSet → Around → Client S → Plain S
  upload_configuration c =
      Functionblock.upload_configuration codec tr (pack_protomsg pb.configuration_set c)

  -- `io4edge_binaryiotypea_download_configuration`
  abbrev pub download_configuration : Around → Client S → Answer S Got
  download_configuration =
      Functionblock.download_configuration codec tr
        (pack_protomsg pb.configuration_get empty_request) pb.configuration_get_response

  -- `io4edge_binaryiotypea_describe`
  abbrev pub describe : Around → Client S → Answer S Described
  describe =
      Functionblock.describe codec tr (pack_protomsg pb.configuration_describe empty_request)
        pb.configuration_describe_response

  -- The call that ends the three functions that set outputs.
  abbrev pub set_outputs : OutputSet → Around → Client S → Answer S InputResponse
  set_outputs set =
      Functionblock.function_control_set codec tr (pack_protomsg pb.function_control_set set) none

  -- `io4edge_binaryiotypea_set_output`
  unfoldable pub set_output : ℕ → Bool → Around → Client S → Answer S InputResponse
  set_output channel state = set_outputs (set_single channel state)

  -- `io4edge_binaryiotypea_set_all_outputs`
  unfoldable pub set_all_outputs : ℕ → ℕ → Around → Client S → Answer S InputResponse
  set_all_outputs states mask = set_outputs (set_all states mask)

  -- `io4edge_binaryiotypea_exit_error_state`
  unfoldable pub exit_error_state : Around → Client S → Answer S InputResponse
  exit_error_state = set_outputs exit_error

  -- `io4edge_binaryiotypea_input`
  unfoldable pub input : ℕ → Around → Client S → Answer S Bool
  input channel w h = value_of single_state (
      Functionblock.function_control_get codec tr
        (pack_protomsg pb.function_control_get (get_single channel))
        pb.function_control_get_response w h)

  -- `io4edge_binaryiotypea_all_inputs`
  unfoldable pub all_inputs : ℕ → Around → Client S → Answer S ℕ
  all_inputs mask w h = value_of all_states (
      Functionblock.function_control_get codec tr
        (pack_protomsg pb.function_control_get (get_all mask)) pb.function_control_get_response w h)

  -- `io4edge_binaryiotypea_start_stream`
  abbrev pub start_stream : ℕ → StreamControlStart → Around → Client S → Plain S
  start_stream channelfiltermask =
      Functionblock.start_stream codec tr (pack_protomsg pb.stream_control_start channelfiltermask)
