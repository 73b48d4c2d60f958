-- ===== src/Demo/Device.antt =====
-- A scripted device for the tests of the programs.
use io4edge_client_c.Base.{
  ℕ, zero, suc, ◌+◌, Bool, true, replicate, Option, none, some, List, [], ◌∷◌, ◌==◌, if◌then◌else◌,
}
use io4edge_client_c.Exec.{Exec, returns}
use io4edge_client_c.Socket.{Arrival, segment, takes}
use io4edge_client_c.Lifecycle.{Held, World}
use io4edge_client_c.Proto.{
  Any, Response, ResponseType, of_configuration, of_function_control, of_stream, of_other,
  got_config, set_done, get_done, status_ok, Codec,
}
use io4edge_client_c.Demo.{Turn, Run}

-- A response is written as its context, its kind and the bytes of its value.
abbrev pub response : ResponseType → ℕ → Response
response type c = record { type = type; context = some (c ∷ []); status = status_ok; error = none }

abbrev pub type_of : (kind context : ℕ) → List ℕ → ResponseType
type_of kind context v =
    let any : Any = record { type_url = []; value = v } in
    if kind == 0
    then of_configuration (got_config any)
    else if kind == 1
    then of_function_control (set_done any)
    else if kind == 2
    then of_function_control (get_done any)
    else if kind == 3
    then of_other 0
    else of_stream (record {
      deliverytimestampus = 7;
      sequence = context;
      functionspecificstreamdata = some any;
    })

abbrev pub unpack : List ℕ → Option Response
unpack (c ∷ kind ∷ v) = some (response (type_of kind c v) c)
unpack _ = none

abbrev pub codec : Codec
codec = record { pack = λ c. c.context; unpack = unpack; in_table = λ s. true }

-- A call to whose command the read thread gets the response, and a read before which it has got a message.
abbrev pub prompt : Turn
prompt = record {
  steps_before = 0;
  around = record { lock_ok = true; time_size = 8; now = 0; wait_steps = 1; take_steps = 0 };
}

abbrev pub pushed : Turn
pushed = record {
  steps_before = 2;
  around = record { lock_ok = true; time_size = 8; now = 0; wait_steps = 0; take_steps = 0 };
}

abbrev pub late : Turn
late = record pushed { steps_before = 0 }

-- The state in which a call that returns ends.
abbrev pub end : {S L A : Type 0} → Exec (A × Run S L) → Run S L → Run S L
end (returns (a, r)) other = r
end _ other = other

-- The frame of a response with one byte of value, and a device that sends the given ones.
abbrev pub frame : (context kind value : ℕ) → Arrival
frame context kind value = segment 0xFE (0xED ∷ 3 ∷ 0 ∷ 0 ∷ 0 ∷ context ∷ kind ∷ value ∷ [])

abbrev pub grants : ℕ → Bool
grants n = true

abbrev pub device : List Arrival → World
device incoming = record {
  client_block = true;
  handle_block = true;
  queue_blocks = record { queue = true; array = true };
  resolves = true;
  socket = true;
  connects = true;
  connection = record { incoming = incoming; rooms = replicate 40 (takes 100); sent = [] };
  thread_created = true;
}

abbrev pub nothing_held : Held
nothing_held = record { blocks = 0; sockets = 0; threads = 0 }

-- `n` responses of one kind, from the context `c` on.
abbrev pub frames : (n c kind : ℕ) → List Arrival
frames zero c kind = []
frames (suc n) c kind = frame c kind 0 ∷ frames n (c + 2) kind
