-- ===== src/Proto.antt =====
-- The messages that src/functionblock.c builds and reads, as far as it touches their fields, and the
-- generated code that packs and unpacks them, which is a parameter. A `char *` is the list of its
-- bytes without the final NUL.
use io4edge_client_c.Base.{ℕ, Bool, Option, List, [], ◌∷◌, ◌==◌, ◌&&◌, true, false, if◌then◌else◌}

-- `Google__Protobuf__Any`
pub record Any : Type 0 where
  pub type_url : List ℕ
  pub value : List ℕ

-- `io4e_protomsg_t` of src/io4edge_internal.h; its length is that of the list.
pub record ProtoMsg : Type 0 where
  pub marshaled_msg : List ℕ
  pub proto_name : List ℕ

-- `Functionblock__StreamControlStart`, with the fields that applications set.
pub record StreamControlStart : Type 0 where
  pub bucketsamples : ℕ
  pub bufferedsamples : ℕ
  pub keepaliveinterval : ℕ
  pub low_latency_mode : Bool
  pub functionspecificstreamcontrolstart : Option Any

-- The `oneof`s of a command: the tag that is set, with its member.
pub data Configuration : Type 0 where
  config_set config_get config_describe : Any → Configuration

pub data FunctionControl : Type 0 where
  control_set control_get : Any → FunctionControl

pub data StreamControl : Type 0 where
  start : StreamControlStart → StreamControl
  stop : StreamControl

pub data CommandType : Type 0 where
  configuration : Configuration → CommandType
  function_control : FunctionControl → CommandType
  stream_control : StreamControl → CommandType

-- `Functionblock__Command`, with `context->value`.
pub record Command : Type 0 where
  pub context : List ℕ
  pub type : CommandType

-- `Functionblock__Status`; a receiver may also meet a number that its enum does not name.
pub data Status : Type 0 where
  status_ok unspecific_error unknown_command not_implemented wrong_client : Status
  invalid_parameter hw_fault stream_already_started stream_already_stopped : Status
  stream_start_failed temporarily_unavailable : Status
  other_status : ℕ → Status

-- The `oneof`s of a response. A tag that the source does not test is an `other`.
pub data ConfigurationResponse : Type 0 where
  got_config : Any → ConfigurationResponse
  described : Any → ConfigurationResponse
  other_config : ℕ → ConfigurationResponse

pub data FunctionControlResponse : Type 0 where
  set_done : Any → FunctionControlResponse
  get_done : Any → FunctionControlResponse
  other_control : ℕ → FunctionControlResponse

-- `Functionblock__StreamData`
pub record StreamData : Type 0 where
  pub deliverytimestampus : ℕ
  pub sequence : ℕ
  pub functionspecificstreamdata : Option Any

pub data ResponseType : Type 0 where
  of_configuration : ConfigurationResponse → ResponseType
  of_function_control : FunctionControlResponse → ResponseType
  of_stream : StreamData → ResponseType
  of_other : ℕ → ResponseType

-- `Functionblock__Response`: `context->value` and `error->error`, each `none` where the pointer to
-- the submessage is NULL.
pub record Response : Type 0 where
  pub type : ResponseType
  pub context : Option (List ℕ)
  pub status : Status
  pub error : Option (List ℕ)

-- The generated code: pack a command, unpack a response (`none` for NULL), and whether
-- `functionblock__status__descriptor.values[status]` is an entry of the descriptor's table.
pub record Codec : Type 0 where
  pub pack : Command → List ℕ
  pub unpack : List ℕ → Option Response
  pub in_table : Status → Bool

-- `io4edge_unpack_t` for messages of type `M`.
abbrev pub Unpack : Type 0 → Type 0
Unpack M = List ℕ → Option M

-- A C string ends at its first NUL.
abbrev pub c_string : List ℕ → List ℕ
c_string [] = []
c_string (c ∷ s) = if c == 0 then [] else c ∷ c_string s

abbrev pub bytes_eq : List ℕ → List ℕ → Bool
bytes_eq [] [] = true
bytes_eq (a ∷ s) (b ∷ t) = (a == b) && bytes_eq s t
bytes_eq _ _ = false

-- `strcmp(a, b) == 0`
abbrev pub strcmp_eq : List ℕ → List ℕ → Bool
strcmp_eq a b = bytes_eq (c_string a) (c_string b)
