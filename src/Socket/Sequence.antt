-- ===== src/Socket/Sequence.antt =====
-- Several messages over one connection: calls of `write_msg` at one end and of `read_msg`, from its header
-- on, at the other.
use io4edge_client_c.Base.{
  ℕ, zero, suc, ◌+◌, ◌^◌, ◌<◌, ◌≡◌, inl, inr, refl, sym, ap, ◌∙◌, true, Bool, Option, none, some,
  List, [], ◌∷◌, ◌++◌, append_assoc, append-nil, length, drop, replicate, drop-append, arith,
  if◌then◌else◌,
}
use io4edge_client_c.Err.{Err, ok, is_ok}
use io4edge_client_c.Socket.{Arrival, Socket, fstream_header_size, read_frame, write_msg}
use io4edge_client_c.Socket.Frame.{header}
use io4edge_client_c.Socket.Read.{stream}
use io4edge_client_c.Socket.Write.{sent_frame, write_msg_sound}
use io4edge_client_c.Socket.RoundTrip.{read_frame_delivers}

-- The bytes of messages one after another.
abbrev pub frames : List (List ℕ) → List ℕ
frames [] = []
frames (p ∷ ps) = (header (length p) ++ p) ++ frames ps

-- Every message has less than 2 ^ 16 bytes.
pub data IsSmall : List (List ℕ) → Type 0 where
  no_more : IsSmall []
  one_more : {p : List ℕ} {ps : List (List ℕ)} → length p < 2 ^ 16 → IsSmall ps → IsSmall (p ∷ ps)

-- Read `n` messages: those that came with IO4E_OK, up to the first failure.
pub read_frames : (ℕ → Bool) → ℕ → List Arrival → List (List ℕ)
read_frames malloc zero inc = []
read_frames malloc (suc n) inc = elim (read_frame malloc inc) [
  | none ↦ []
  | some (e, payload, rest) ↦ if is_ok e then payload ∷ read_frames malloc n rest else []
]

-- Write messages, each behind room for its header: the socket after the last one, `none` if a call
-- fails or blocks.
unfoldable pub write_frames : List (List ℕ) → Socket → Option Socket
write_frames [] h = some h
write_frames (p ∷ ps) h = elim (write_msg h (replicate 6 0 ++ p) (fstream_header_size + length p)) [
  | none ↦ none
  | some (e, h') ↦ if is_ok e then write_frames ps h' else none
]

write_frames_first :
    (p : List ℕ) (ps : List (List ℕ)) (h : Socket) (o : Option (Err × Socket)) {h' : Socket}
    → write_msg h (replicate 6 0 ++ p) (fstream_header_size + length p) ≡ o
    → write_frames (p ∷ ps) h ≡ some h'
    → (g : Socket) × (write_msg h (replicate 6 0 ++ p) (fstream_header_size + length p)
        ≡ some (ok, g))
      × (write_frames ps g ≡ some h')
unfolding write_frames
write_frames_first p ps h none o e = absurd (ground arith)
write_frames_first p ps h (some (err, g)) o e = (g, ground arith, ground arith)

-- What goes out for messages that are all written.
write_frames_sent :
    (ps : List (List ℕ)) (h : Socket) {h' : Socket}
    → write_frames ps h ≡ some h'
    → h'.sent ≡ h.sent ++ frames ps
unfolding write_frames
write_frames_sent [] h {h'} e =
    let same : h' ≡ h = ground arith in rw same (sym (append-nil h.sent))
write_frames_sent (p ∷ ps) h {h'} e =
    let (g, one, others) = write_frames_first p ps h _ refl e in
    let (out, grown, unread, how) = write_msg_sound h _ _ (omega arith) one in
    let whole : out ≡ header (length p) ++ p = elim how [
      | inl (fine, all) ↦ all ∙ sent_frame (replicate 6 0) p refl
      | inr (bad, rest) ↦ absurd (ground arith)
    ] in
    write_frames_sent ps g others
    ∙ ap (λ s. s ++ frames ps) (grown ∙ ap (λ s. h.sent ++ s) whole)
    ∙ append_assoc h.sent (header (length p) ++ p) (frames ps)

module _ (malloc : ℕ → Bool) (grants : (n : ℕ) → n < 2 ^ 16 → malloc n ≡ true) where
  read_frames_all :
      (ps : List (List ℕ)) (inc : List Arrival) (more : List ℕ)
      → IsSmall ps
      → stream inc ≡ frames ps ++ more
      → read_frames malloc (length ps) inc ≡ ps
  unfolding read_frames
  read_frames_all [] inc more small e = refl
  read_frames_all (p ∷ ps) inc more (one_more short small) e =
      let (rest, got, left) =
        read_frame_delivers malloc inc p (frames ps ++ more)
          (e
            ∙ append_assoc (header (length p) ++ p) (frames ps) more
            ∙ append_assoc (header (length p)) p (frames ps ++ more))
          short (grants (length p) short) in
      rw (read_frames, got) (ap (λ t. p ∷ t) (read_frames_all ps rest more small left))

  -- A connection is a FIFO of messages: if every `write_msg` of a list of messages of less than 2 ^ 16 bytes
  -- returns IO4E_OK, and the bytes that went out arrive at the other end in any segments, then reading as
  -- many messages there gives the same messages in the same order, if `malloc` grants sizes below 2 ^ 16.
  pub connection_fifo :
      (ps : List (List ℕ)) (from from' : Socket) (inc : List Arrival) (more : List ℕ)
      → IsSmall ps
      → write_frames ps from ≡ some from'
      → stream inc ≡ drop (length from.sent) from'.sent ++ more
      → read_frames malloc (length ps) inc ≡ ps
  connection_fifo ps from from' inc more small written arrives = read_frames_all ps inc more small (
      arrives
      ∙ ap (λ s. s ++ more)
          (ap (λ s. drop (length from.sent) s) (write_frames_sent ps from written)
            ∙ drop-append from.sent (frames ps)))
