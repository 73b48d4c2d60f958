-- ===== src/Socket/Tests.antt =====
-- The theorems of the transport at concrete connections: src/unix/socket_transport.c.
use io4edge_client_c.Base.{
  ℕ, ◌^◌, ◌≤◌, ◌<◌, ◌≡◌, ◌≢◌, refl, Bool, true, false, some, List, [], ◌∷◌, ◌++◌, length, replicate,
  length-replicate, drop, take, arith,
}
use io4edge_client_c.Err.{ok, err_connection_closed}
use io4edge_client_c.Socket.{
  eagain, Arrival, segment, quiet, closed, failing, Room, takes, refuses, Socket, read_complete,
  select, header_len, read_payload, read_frame, read_msg, put_header, send_all, write_msg,
}
use io4edge_client_c.Socket.Frame.{header}
use io4edge_client_c.Socket.Read.{stream}
use io4edge_client_c.Socket.Reference.{Head, AreBytes, decode, read_msg-decode}
use io4edge_client_c.Socket.Write.{Sent, write_msg_sends, write_msg_sound}
use io4edge_client_c.Socket.RoundTrip.{write_read, IsFrame, read_msg_sound, large_payload_lost}
use io4edge_client_c.Base.Int.{pos}
use io4edge_client_c.Socket.Sequence.{no_more, one_more, read_frames, write_frames, connection_fifo}
use io4edge_client_c.Socket.Truncated.{read_msg_truncated}
use io4edge_client_c.Socket.Errors.{at_errno, read_msg_closed, read_msg_failing}

-- `malloc` grants every size.
abbrev grants : ℕ → Bool
grants n = true

-- Three seconds without news, a frame with the payload 7, 8, 9 in two pieces, and one byte more.
abbrev peer : Socket
peer = record {
  incoming =
      quiet 3 ∷ segment 0xFE (0xED ∷ 3 ∷ 0 ∷ []) ∷ segment 0 (0 ∷ 7 ∷ 8 ∷ 9 ∷ 0xFE ∷ []) ∷ [];
  rooms = [];
  sent = [];
}

-- The kernel takes four bytes, then is interrupted, then takes twenty.
abbrev writer : Socket
writer = record { incoming = []; rooms = takes 4 ∷ refuses 4 ∷ takes 20 ∷ []; sent = 1 ∷ [] }

abbrev writer_after : Socket
writer_after = record {
  incoming = [];
  rooms = [];
  sent = 1 ∷ 0xFE ∷ 0xED ∷ 3 ∷ 0 ∷ 0 ∷ 0 ∷ 7 ∷ 8 ∷ 9 ∷ [];
}

abbrev room_and_payload : List ℕ
room_and_payload = replicate 6 0 ++ (7 ∷ 8 ∷ 9 ∷ [])

write_msg_ok : write_msg writer room_and_payload 9 ≡ some (ok, writer_after)
unfolding write_msg send_all put_header
write_msg_ok = refl

peer_ready : (select 5 peer.incoming).0 ≡ true
unfolding select
peer_ready = refl

write_read_example :
    (rest : List Arrival) × (read_msg grants peer 5
      ≡ some (ok, 7 ∷ 8 ∷ 9 ∷ [], record peer { incoming = rest }))
    × (stream rest ≡ 0xFE ∷ [])
write_read_example =
    write_read grants writer writer_after peer 5 (replicate 6 0) (7 ∷ 8 ∷ 9 ∷ []) (0xFE ∷ []) refl
      write_msg_ok (omega arith) refl peer_ready refl

read_msg_ok :
    read_msg grants peer 5
    ≡ some (ok, 7 ∷ 8 ∷ 9 ∷ [], record peer { incoming = segment 0xFE [] ∷ [] })
unfolding read_msg read_frame read_payload read_complete select header_len
read_msg_ok = refl

read_msg_sound_example :
    IsFrame (stream peer.incoming) (7 ∷ 8 ∷ 9 ∷ []) (0xFE ∷ []) × (peer.sent ≡ [])
read_msg_sound_example = read_msg_sound grants peer 5 read_msg_ok

write_msg_sends_example :
    (left : List Room) × (write_msg writer room_and_payload 9
      ≡ some
          (ok, record writer { rooms = left; sent = (1 ∷ []) ++ (header 3 ++ (7 ∷ 8 ∷ 9 ∷ [])) }))
write_msg_sends_example = write_msg_sends writer (replicate 6 0) (7 ∷ 8 ∷ 9 ∷ []) refl (omega arith)

write_msg_sound_example :
    (out : List ℕ) × (writer_after.sent ≡ (1 ∷ []) ++ out)
    × (writer_after.incoming ≡ writer.incoming)
    × Sent (take 9 (put_header room_and_payload 3)) ok out
write_msg_sound_example = write_msg_sound writer room_and_payload 9 (omega arith) write_msg_ok

-- A peer that sends one payload behind its header, in one segment.
abbrev sender : List ℕ → Socket
sender payload = record {
  incoming = segment 0xFE (drop 1 (header (length payload) ++ payload)) ∷ [];
  rooms = [];
  sent = [];
}

stream-sender :
    (payload : List ℕ)
    → stream (sender payload).incoming ≡ header (length payload) ++ (payload ++ [])
stream-sender payload = refl

-- 2 ^ 16 zeros.
abbrev large : List ℕ
large = replicate (2 ^ 16) 0

large_size : length large ≡ 2 ^ 16
large_size = length-replicate {A = ℕ} (2 ^ 16) 0

large_payload_lost_example :
    read_msg grants (sender large) 5 ≢ some (ok, large, record (sender large) { incoming = [] })
large_payload_lost_example =
    large_payload_lost grants (sender large) (record (sender large) { incoming = [] }) 5 large []
      (stream-sender large) (at_least large_size) (at_most large_size)
  where
    at_least : {n : ℕ} → n ≡ 2 ^ 16 → 2 ^ 16 ≤ n
    at_least e = omega arith

    at_most : {n : ℕ} → n ≡ 2 ^ 16 → n < 2 ^ 24
    at_most e = omega arith

-- Four bytes of a header, and then the end, or a read that EINTR interrupts.
abbrev hung_up : Socket
hung_up = record {
  incoming = segment 0xFE (0xED ∷ []) ∷ segment 3 (0 ∷ []) ∷ closed ∷ [];
  rooms = [];
  sent = [];
}

abbrev interrupted : Socket
interrupted = record {
  incoming =
      segment 0xFE (0xED ∷ []) ∷ segment 3 (0 ∷ []) ∷ failing 3 ∷ segment 0 (0 ∷ 7 ∷ []) ∷ [];
  rooms = [];
  sent = [];
}

read_msg_closed_example :
    (read_msg grants hung_up 5
      ≡ some (err_connection_closed, [], record hung_up { incoming = closed ∷ [] }))
    × (read_msg grants (record hung_up { incoming = closed ∷ [] }) 5
        ≡ some (err_connection_closed, [], record hung_up { incoming = closed ∷ [] }))
read_msg_closed_example =
    read_msg_closed grants hung_up 5 ((0xFE, 0xED ∷ []) ∷ (3, 0 ∷ []) ∷ []) [] refl (omega arith)

read_msg_failing_example :
    read_msg grants interrupted 5
    ≡ some
        (err_connection_closed, [], record interrupted { incoming = segment 0 (0 ∷ 7 ∷ []) ∷ [] })
read_msg_failing_example =
    read_msg_failing grants interrupted 5 3 ((0xFE, 0xED ∷ []) ∷ (3, 0 ∷ []) ∷ [])
      (segment 0 (0 ∷ 7 ∷ []) ∷ []) refl (omega arith)

peer_late : (select 2 peer.incoming).0 ≡ false
unfolding select
peer_late = refl

-- A header that announces three bytes, two of them, and then EAGAIN.
abbrev starved : Socket
starved = record {
  incoming = segment 0xFE (0xED ∷ 3 ∷ 0 ∷ 0 ∷ 0 ∷ []) ∷ segment 7 (8 ∷ []) ∷ failing 10 ∷ [];
  rooms = [];
  sent = [];
}

read_msg_truncated_example :
    read_msg grants starved 5 ≡ some (pos eagain, [], record starved { incoming = [] })
read_msg_truncated_example =
    read_msg_truncated grants starved 5 3 ((7, 8 ∷ []) ∷ []) (at_errno 10 []) refl (omega arith)
      (omega arith) refl

-- Two messages from one end to the other, whose bytes arrive in one segment.
abbrev two_messages : List (List ℕ)
two_messages = (7 ∷ 8 ∷ []) ∷ [] ∷ []

abbrev two_sent : Socket
two_sent = record {
  incoming = [];
  rooms = [];
  sent = 0xFE ∷ 0xED ∷ 2 ∷ 0 ∷ 0 ∷ 0 ∷ 7 ∷ 8 ∷ 0xFE ∷ 0xED ∷ 0 ∷ 0 ∷ 0 ∷ 0 ∷ [];
}

two_written :
    write_frames two_messages (record { incoming = []; rooms = takes 8 ∷ takes 8 ∷ []; sent = [] })
    ≡ some two_sent
unfolding write_frames write_msg send_all put_header
two_written = refl

connection_fifo_example :
    read_frames grants 2 (segment 0xFE (drop 1 (two_sent.sent)) ∷ []) ≡ two_messages
connection_fifo_example =
    connection_fifo grants (λ n small. refl) two_messages
      (record { incoming = []; rooms = takes 8 ∷ takes 8 ∷ []; sent = [] }) two_sent
      (segment 0xFE (drop 1 (two_sent.sent)) ∷ []) []
      (one_more (omega arith) (one_more (omega arith) no_more)) two_written refl

-- A frame of three bytes in three segments, with a pause in its header, and a byte behind it.
abbrev split : Socket
split = record {
  incoming =
      segment 0xFE (0xED ∷ 3 ∷ [])
      ∷ quiet 1
      ∷ segment 0 (0 ∷ 0 ∷ 7 ∷ [])
      ∷ segment 8 (9 ∷ 5 ∷ [])
      ∷ [];
  rooms = [];
  sent = [];
}

abbrev split_head : Head
split_head = record { magic0 = 0xFE; magic1 = 0xED; len0 = 3; len1 = 0; len2 = 0; len3 = 0 }

split_head-AreBytes : AreBytes split_head
split_head-AreBytes = record {
  byte0 = omega arith;
  byte1 = omega arith;
  byte2 = omega arith;
  byte3 = omega arith;
}

split_ready : (select 5 split.incoming).0 ≡ true
unfolding select
split_ready = refl

read_msg-decode_example :
    (left : List Arrival) × (read_msg grants split 5
      ≡ some (
        (decode grants split_head (7 ∷ 8 ∷ 9 ∷ 5 ∷ [])).0,
        (decode grants split_head (7 ∷ 8 ∷ 9 ∷ 5 ∷ [])).1,
        record split { incoming = left },
      ))
    × (stream left ≡ (decode grants split_head (7 ∷ 8 ∷ 9 ∷ 5 ∷ [])).2)
read_msg-decode_example =
    read_msg-decode grants split 5 split_head (7 ∷ 8 ∷ 9 ∷ 5 ∷ []) refl split_head-AreBytes
      (omega arith) split_ready
