-- ===== src/Lifecycle.antt =====
-- How a client comes and goes: `io4edge_functionblock_client_new_from_host_port` and `_delete` of
-- src/functionblock.c, `io4edge_transport_new`, `transport_connect` and `destroy` of
-- src/unix/socket_transport.c, `io4e_streamq_delete` of src/streamq.c.
pub mod Balance
mod Tests
use io4edge_client_c.Base.{ℕ, ◌+◌, ◌-◌, Bool, true, false, not, Option, none, some, if◌then◌else◌}
use io4edge_client_c.Err.{Err, ok, fail, err_no_mem, is_ok}
use io4edge_client_c.Sem.{sem_init}
use io4edge_client_c.Proto.{StreamData}
use io4edge_client_c.Streamq.{Streamq, Calloc, streamq_new}
use io4edge_client_c.Socket.{Socket}
use io4edge_client_c.Client.{Client, reading}

-- CONFIG_STREAMQ_CAPACITY
abbrev pub config_streamq_capacity : ℕ
config_streamq_capacity = 100

-- What the process holds: blocks from `calloc`, open sockets, running read threads.
pub record Held : Type 0 where
  pub blocks : ℕ
  pub sockets : ℕ
  pub threads : ℕ

-- How the system answers the calls that set up a client, and the connection that it gives.
pub record World : Type 0 where
  pub client_block : Bool
  pub handle_block : Bool
  pub queue_blocks : Calloc
  pub resolves : Bool
  pub socket : Bool
  pub connects : Bool
  pub connection : Socket
  pub thread_created : Bool

abbrev pub allocated : ℕ → Held → Held
allocated n r = record r { blocks = r.blocks + n }

abbrev pub released : ℕ → Held → Held
released n r = record r { blocks = r.blocks - n }

-- `transport_connect`: the code, the connection on success, and what is held.
unfoldable pub transport_connect : World → Held → Err × Option Socket × Held
transport_connect w r =
    if not w.resolves
    then (fail, none, r)
    else if not w.socket
    then (fail, none, r)
    else let open_socket = record r { sockets = r.sockets + 1 } in
      if not w.connects
      then (fail, none, record open_socket { sockets = open_socket.sockets - 1 })
      else (ok, some w.connection, open_socket)

-- `io4edge_transport_new`; the handle is `none` where `*handle_p` is NULL.
unfoldable pub transport_new : World → Held → Err × Option Socket × Held
transport_new w r =
    if not w.handle_block
    then (err_no_mem, none, r)
    else let (ret, socket, r') = transport_connect w (allocated 1 r) in
      if not (is_ok ret) then (ret, none, released 1 r') else (ok, socket, r')

-- `destroy`
unfoldable pub destroy : Option Socket → Held → Held
destroy none r = r
destroy (some h) r = record (released 1 r) { sockets = r.sockets - 1 }

-- `io4e_streamq_delete`: the queue's array and the queue itself. Messages in it are not freed.
unfoldable pub streamq_delete : Option (Streamq StreamData) → Held → Held
streamq_delete none r = r
streamq_delete (some q) r = released 1 (released 1 r)

-- The end of `client_new` at `ERREXIT` with an error.
unfoldable pub give_up :
    Err → Option Socket → Option (Streamq StreamData) → Held → Err × Option (Client Socket) × Held
give_up err transport queue r = (err, none, released 1 (streamq_delete queue (destroy transport r)))

-- The client that `client_new` fills in, once its thread runs.
abbrev pub fresh : Socket → Streamq StreamData → ℕ → Client Socket
fresh transport queue cmd_timeout_seconds = record {
  transport = transport;
  cmd_context = b'A';
  cmd_timeout = cmd_timeout_seconds;
  cmd_response = none;
  cmd_sem = sem_init 0;
  streamq = queue;
  thread = reading;
  live = 0;
}

-- `io4edge_functionblock_client_new_from_host_port` from the creation of the thread on.
unfoldable pub with_thread :
    World → ℕ → Socket → Streamq StreamData → Held → Err × Option (Client Socket) × Held
with_thread w cmd_timeout_seconds transport queue r =
    if not w.thread_created then give_up fail (some transport) (some queue) r else (
      ok,
      some (fresh transport queue cmd_timeout_seconds),
      record r { threads = r.threads + 1 },
    )

-- The same from the queue on.
unfoldable pub with_transport : World → ℕ → Socket → Held → Err × Option (Client Socket) × Held
with_transport w cmd_timeout_seconds transport r =
    let (err, queue) = streamq_new w.queue_blocks config_streamq_capacity in
    elim queue [
      | none ↦ give_up err (some transport) none r
      | some q ↦ with_thread w cmd_timeout_seconds transport q (allocated 2 r)
    ]

-- `io4edge_functionblock_client_new_from_host_port`: the code, the handle (`none` where it is not
-- stored), and what is held. The calls store a handle exactly where they return IO4E_OK.
unfoldable pub client_new : World → ℕ → Held → Err × Option (Client Socket) × Held
client_new w cmd_timeout_seconds r =
    if not w.client_block
    then (err_no_mem, none, r)
    else let (err, transport, r') = transport_new w (allocated 1 r) in
      elim transport [
        | none ↦ give_up err none none r'
        | some socket ↦ with_transport w cmd_timeout_seconds socket r'
      ]

-- `io4edge_functionblock_client_delete`: the code, what is held, and the unpacked messages that are
-- still allocated.
unfoldable pub client_delete : Option (Client Socket) → Held → Err × Held × ℕ
client_delete none r = (ok, r, 0)
client_delete (some h) r =
    let joined = record r { threads = r.threads - 1 } in
    (ok, released 1 (destroy (some h.transport) (streamq_delete (some h.streamq) joined)), h.live)
