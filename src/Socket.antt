-- ===== src/Socket.antt =====
-- The TCP transport: src/unix/socket_transport.c. A byte is a number below 256.
-- The kernel's side of the connection is a script: what arrives, and how much each `write` takes.
-- Every run of the program against a kernel is a run against some script.
pub mod Frame
pub mod Read
pub mod Write
pub mod RoundTrip
pub mod Errors
pub mod Truncated
pub mod Sequence
pub mod Reference
mod Tests
use io4edge_client_c.Base.{
  ℕ, zero, suc, ◌+◌, ◌-◌, ◌*◌, ◌/◌, ◌%◌, ◌^◌, bit_or, Bool, true, false, not, ◌&&◌, ◌||◌, Option,
  none, some, List, [], ◌∷◌, ◌++◌, length, take, drop, get_or, set, leb, ltb, ◌==◌, if◌then◌else◌,
}
use io4edge_client_c.Base.Int.{ℤ, pos, eq_ℤ}
use io4edge_client_c.Err.{Err, ok, fail, err_timeout, err_no_mem, err_connection_closed, is_ok}
use io4edge_client_c.Transport.{Transport}

-- What the peer and the network do next: bytes arrive (one or more; a `read` takes no more than
-- these), nothing happens for some seconds, the peer has closed, or a `read` fails. An errno is
-- positive: `failing n` stands for the errno n + 1.
pub data Arrival : Type 0 where
  segment : ℕ → List ℕ → Arrival
  quiet : ℕ → Arrival
  closed : Arrival
  failing : ℕ → Arrival

-- What one call of `write` answers: it takes at most so many bytes, or it fails with an errno.
pub data Room : Type 0 where
  takes : ℕ → Room
  refuses : ℕ → Room

-- `handle_t`: the connection behind the socket, and the bytes written to it.
pub record Socket : Type 0 where
  pub incoming : List Arrival
  pub rooms : List Room
  pub sent : List ℕ

-- Linux errno values that the source names.
abbrev pub eintr : ℕ
eintr = 4

abbrev pub eagain : ℕ
eagain = 11

abbrev pub ewouldblock : ℕ
ewouldblock = 11

-- FSTREAM_HEADER_SIZE
abbrev pub fstream_header_size : ℕ
fstream_header_size = 6

-- The bytes of a segment that a `read` left behind.
abbrev pub unread : List ℕ → List Arrival → List Arrival
unread [] rest = rest
unread (x ∷ xs) rest = segment x xs ∷ rest

-- Put bytes in front of those that the rest of a successful loop reads.
abbrev pub behind :
    List ℕ → Option (Err × List ℕ × List Arrival) → Option (Err × List ℕ × List Arrival)
behind bs none = none
behind bs (some (e, more, rest)) = some (e, bs ++ more, rest)

-- `read_complete` for `len` bytes. The bytes count on success only. `none`: a `read` blocks for ever.
unfoldable pub read_complete : ℕ → List Arrival → Option (Err × List ℕ × List Arrival)
read_complete len [] = if len == 0 then some (ok, [], []) else none
read_complete len (segment x xs ∷ rest) =
    if len == 0
    then some (ok, [], segment x xs ∷ rest)
    else if leb (length (x ∷ xs)) len
    then behind (x ∷ xs) (read_complete (len - length (x ∷ xs)) rest)
    else some (ok, take len (x ∷ xs), unread (drop len (x ∷ xs)) rest)
read_complete len (quiet n ∷ rest) =
    if len == 0 then some (ok, [], quiet n ∷ rest) else read_complete len rest
read_complete len (closed ∷ rest) =
    if len == 0
    then some (ok, [], closed ∷ rest)
    else some (err_connection_closed, [], closed ∷ rest)
read_complete len (failing n ∷ rest) =
    if len == 0 then some (ok, [], failing n ∷ rest) else some (pos (suc n), [], rest)

-- `select` for reading: whether the socket is readable within the timeout, and what is left to come.
-- A `select` that fails lets the code go on to the `read`, as a readable one does.
unfoldable pub select : ℕ → List Arrival → Bool × List Arrival
select timeout [] = (false, [])
select timeout (quiet n ∷ rest) =
    if leb timeout n then (false, quiet (n - timeout) ∷ rest) else select (timeout - n) rest
select timeout (a ∷ rest) = (true, a ∷ rest)

-- `memcmp(hdr, magic_bytes, 2) == 0`
abbrev pub magic_ok : List ℕ → Bool
magic_ok hdr = (get_or hdr 0 0 == 0xFE) && (get_or hdr 1 0 == 0xED)

-- The `len` that `read_msg` puts together from the header's bytes 2 to 5.
unfoldable pub header_len : List ℕ → ℕ
header_len hdr =
    bit_or
      (bit_or (bit_or (get_or hdr 2 0) ((get_or hdr 3 0 * 2 ^ 8) % 2 ^ 32))
        ((get_or hdr 4 0 * 2 ^ 16) % 2 ^ 32))
      ((get_or hdr 5 0 * 2 ^ 24) % 2 ^ 32)

-- The second half of `read_msg`, from the header on; `malloc` says which sizes it grants.
unfoldable pub read_payload : (ℕ → Bool) → ℕ → List Arrival → Option (Err × List ℕ × List Arrival)
read_payload malloc len incoming =
    if ltb 0 len
    then (if malloc len
        then elim (read_complete len incoming) [
          | none ↦ none
          | some (ret, payload, rest) ↦
              if eq_ℤ ret err_connection_closed
              then some (err_connection_closed, [], rest)
              else if not (is_ok ret)
              then some (ret, [], rest)
              else some (ok, payload, rest)
        ]
        else some (err_no_mem, [], incoming))
    else some (ok, [], incoming)

-- `read_msg` from the header's `read_complete` on.
unfoldable pub read_frame : (ℕ → Bool) → List Arrival → Option (Err × List ℕ × List Arrival)
read_frame malloc incoming = elim (read_complete fstream_header_size incoming) [
  | none ↦ none
  | some (ret, hdr, rest) ↦
      if eq_ℤ ret err_connection_closed
      then some (err_connection_closed, [], rest)
      else if eq_ℤ ret (pos eagain) || eq_ℤ ret (pos ewouldblock)
      then some (err_timeout, [], rest)
      else if not (is_ok ret)
      then some (ret, [], rest)
      else if not (magic_ok hdr)
      then some (fail, [], rest)
      else read_payload malloc (header_len hdr) rest
]

-- `read_msg`: the code, the payload (empty for NULL), the socket.
unfoldable pub read_msg : (ℕ → Bool) → Socket → ℕ → Option (Err × List ℕ × Socket)
read_msg malloc h timeout_seconds =
    let (ready, incoming) = select timeout_seconds h.incoming in
    if ready
    then elim (read_frame malloc incoming) [
      | none ↦ none
      | some (e, payload, rest) ↦ some (e, payload, record h { incoming = rest })
    ]
    else some (err_timeout, [], record h { incoming = incoming })

-- The header that `write_msg` writes over the first six bytes of its buffer.
unfoldable pub put_header : List ℕ → ℕ → List ℕ
put_header buf payload_len =
    let b0 = set (set buf 0 0xFE) 1 0xED in
    let b1 = set b0 2 (payload_len % 2 ^ 8) in
    let b2 = set b1 3 (payload_len / 2 ^ 8 % 2 ^ 8) in
    let b3 = set b2 4 (payload_len / 2 ^ 16 % 2 ^ 8) in set b3 5 (payload_len / 2 ^ 16 % 2 ^ 8)

-- Put bytes in front of those that the rest of the `write` loop sends.
abbrev pub after : List ℕ → Option (Err × List ℕ × List Room) → Option (Err × List ℕ × List Room)
after bs none = none
after bs (some (e, more, rest)) = some (e, bs ++ more, rest)

-- The `write` loop: the code, the bytes that went out, and the answers left. `none`: no answer comes.
unfoldable pub send_all : List ℕ → List Room → Option (Err × List ℕ × List Room)
send_all buf [] = if length buf == 0 then some (ok, [], []) else none
send_all buf (takes n ∷ rest) =
    let later = send_all (drop n buf) rest in
    if length buf == 0 then some (ok, [], takes n ∷ rest) else after (take n buf) later
send_all buf (refuses errno ∷ rest) =
    let later = send_all buf rest in
    if length buf == 0
    then some (ok, [], refuses errno ∷ rest)
    else if not (errno == eintr) && not (errno == eagain) && not (errno == ewouldblock)
    then some (fail, [], rest)
    else later

-- `write_msg`: `len` counts the header, for which the caller has left room.
unfoldable pub write_msg : Socket → List ℕ → ℕ → Option (Err × Socket)
write_msg h buf len =
    if ltb len fstream_header_size
    then some (fail, h)
    else elim (send_all (take len (put_header buf (len - fstream_header_size))) h.rooms) [
      | none ↦ none
      | some (e, out, left) ↦ some (e, record h { rooms = left; sent = h.sent ++ out })
    ]

-- `io4edge_transport_new` fills the table of functions.
abbrev pub socket_transport : (ℕ → Bool) → Transport Socket
socket_transport malloc = record {
  write_msg = write_msg;
  read_msg = read_msg malloc;
  get_write_offset = λ h. fstream_header_size;
}
