-- ===== src/Socket/Truncated.antt =====
-- A `read_msg` that is cut off inside the payload.
use io4edge_client_c.Base.{
  ℕ, zero, suc, ◌^◌, ◌<◌, ◌≡◌, true, Bool, some, List, [], ◌∷◌, drop, arith,
}
use io4edge_client_c.Err.{ok}
use io4edge_client_c.Socket.{
  Arrival, segment, Socket, fstream_header_size, read_complete, select, header_len, read_payload,
  read_frame, read_msg,
}
use io4edge_client_c.Socket.Frame.{header, header_len-header}
use io4edge_client_c.Socket.Read.{read_none}
use io4edge_client_c.Socket.Errors.{
  pieces, total, Break, at_close, at_errno, broken, outcome, bytes, read_complete_cut,
}

-- A whole header in one segment, then part of the payload, then a break.
abbrev pub truncated : ℕ → List (ℕ × List ℕ) → Break → List Arrival
truncated n ps b = segment 0xFE (drop 1 (header n)) ∷ pieces ps (broken b)

header_taken :
    (n : ℕ) (inc : List Arrival)
    → read_complete fstream_header_size (segment 0xFE (drop 1 (header n)) ∷ inc)
      ≡ some (ok, header n, inc)
unfolding read_complete
header_taken n inc = rw (read_none inc)

payload_cut :
    (malloc : ℕ → Bool) (n : ℕ) (ps : List (ℕ × List ℕ)) (b : Break)
    → total ps < n
    → malloc n ≡ true
    → let (e, got, rest) = outcome b (bytes ps) in
      read_payload malloc n (pieces ps (broken b)) ≡ some (e, [], rest)
unfolding read_payload
payload_cut malloc zero ps b short g = absurd (omega arith)
payload_cut malloc (suc n) ps (at_close rest) short g =
    let cut = read_complete_cut (suc n) ps (at_close rest) short in ground arith
payload_cut malloc (suc n) ps (at_errno k rest) short g =
    let cut = read_complete_cut (suc n) ps (at_errno k rest) short in ground arith

-- If the peer closes, or a `read` fails, inside the payload of a frame of less than 2 ^ 16 bytes whose header came
-- in one piece and whose size `malloc` grants, `read_msg` returns IO4E_ERR_CONNECTION_CLOSED, or the errno
-- itself, EAGAIN included, without a payload; the bytes that had come are gone.
pub read_msg_truncated :
    (malloc : ℕ → Bool) (h : Socket) (t n : ℕ) (ps : List (ℕ × List ℕ)) (b : Break)
    → h.incoming ≡ truncated n ps b
    → n < 2 ^ 16
    → total ps < n
    → malloc n ≡ true
    → let (e, got, rest) = outcome b (bytes ps) in
      read_msg malloc h t ≡ some (e, [], record h { incoming = rest })
unfolding read_msg read_frame select
read_msg_truncated malloc h t n ps b e small short g =
    let size : header_len (header n) ≡ n = omega (arith, header_len-header n) in
    rw (e, header_taken n (pieces ps (broken b)), size, payload_cut malloc n ps b short g)
