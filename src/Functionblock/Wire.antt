-- ===== src/Functionblock/Wire.antt =====
-- An operation over the TCP transport, from the request's bytes to the value: src/functionblock.c on
-- src/unix/socket_transport.c.
use io4edge_client_c.Base.{
  ℕ, ◌+◌, ◌^◌, ◌≤◌, ◌<◌, ◌≡◌, true, false, Bool, Option, some, List, [], ◌∷◌, ◌++◌, length, ◌==◌,
}
use io4edge_client_c.Socket.{Socket, fstream_header_size, select}
use io4edge_client_c.Socket.Frame.{header}
use io4edge_client_c.Socket.Read.{stream}
use io4edge_client_c.Socket.Write.{room_total}
use io4edge_client_c.Proto.{
  Any, CommandType, Response, ResponseType, Codec, status_ok, Unpack, c_string,
}
use io4edge_client_c.Client.{Client, next_char}
use io4edge_client_c.Client.Reading.{is_stream}

-- The packed command that a client sends next.
abbrev pub packed : {S : Type 0} → Codec → CommandType → Client S → List ℕ
packed codec type h =
    codec.pack (record { context = c_string (next_char h.cmd_context ∷ []); type = type })

-- The kernel takes the whole frame of the next command, whose length fits `uint32_t`.
pub record CanSend (codec : Codec) (type : CommandType) (h : Client Socket) : Type 0 where
  pub room : fstream_header_size + length (packed codec type h) ≤ room_total h.transport.rooms
  pub fits : fstream_header_size + length (packed codec type h) < 2 ^ 32

-- The next bytes to arrive, within the second that the read thread waits, are the frame of `buf`,
-- before `more`.
pub record Arrives (malloc : ℕ → Bool) (buf more : List ℕ) (s : Socket) : Type 0 where
  pub ready : (select 1 s.incoming).0 ≡ true
  pub framed : stream s.incoming ≡ header (length buf) ++ (buf ++ more)
  pub small : length buf < 2 ^ 16
  pub full : (length buf == 0) ≡ false
  pub granted : malloc (length buf) ≡ true

-- A response that answers the client's next command with a value that `f` reads as `m`.
pub record Answers {S M : Type 0} (member : ResponseType → Option Any) (f : Unpack M) (m : M)
    (h : Client S) (res : Response) : Type 0 where
  pub context : res.context ≡ some (next_char h.cmd_context ∷ [])
  pub status : res.status ≡ status_ok
  pub answers : is_stream res.type ≡ false
  pub any : Any
  pub holds : member res.type ≡ some any
  pub value : f any.value ≡ some m
