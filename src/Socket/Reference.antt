-- ===== src/Socket/Reference.antt =====
-- `read_msg` against a decoder of plain byte lists, which knows nothing of segments, pauses and bit operations.
use io4edge_client_c.Base.{
  ℕ, zero, suc, ◌+◌, ◌*◌, ◌^◌, ◌≤◌, ◌<◌, ◌≡◌, refl, sym, ap, ◌∙◌, true, false, Bool, ◌&&◌, some,
  List, [], ◌∷◌, length, take, drop, ◌==◌, if◌then◌else◌, Bool-cases, inl, inr, arith,
}
use io4edge_client_c.Err.{Err, ok, fail, err_no_mem}
use io4edge_client_c.Socket.{
  Arrival, Socket, fstream_header_size, read_complete, select, magic_ok, header_len, read_payload,
  read_frame, read_msg,
}
use io4edge_client_c.Socket.Frame.{header_len_bytes}
use io4edge_client_c.Socket.Read.{stream, stream-select, read_complete_enough}
use io4edge_client_c.Socket.RoundTrip.{frame_eq, payload_eq, ready_eq}

-- The first six bytes of a stream.
pub record Head : Type 0 where
  pub magic0 : ℕ
  pub magic1 : ℕ
  pub len0 : ℕ
  pub len1 : ℕ
  pub len2 : ℕ
  pub len3 : ℕ

abbrev pub bytes_of : Head → List ℕ → List ℕ
bytes_of h rest = h.magic0 ∷ h.magic1 ∷ h.len0 ∷ h.len1 ∷ h.len2 ∷ h.len3 ∷ rest

-- A little-endian number of four bytes.
abbrev pub little_endian : Head → ℕ
little_endian h = h.len0 + h.len1 * 2 ^ 8 + h.len2 * 2 ^ 16 + h.len3 * 2 ^ 24

pub record AreBytes (h : Head) : Type 0 where
  pub byte0 : h.len0 < 2 ^ 8
  pub byte1 : h.len1 < 2 ^ 8
  pub byte2 : h.len2 < 2 ^ 8
  pub byte3 : h.len3 < 2 ^ 8

-- The code, the payload and what is left of a stream that begins with the header `h`.
unfoldable pub decode : (ℕ → Bool) → Head → List ℕ → Err × List ℕ × List ℕ
decode malloc h rest =
    if (h.magic0 == 0xFE) && (h.magic1 == 0xED)
    then (if little_endian h == 0
        then (ok, [], rest)
        else if malloc (little_endian h)
        then (ok, take (little_endian h) rest, drop (little_endian h) rest)
        else (err_no_mem, [], rest))
    else (fail, [], rest)

-- What `read_frame` makes of a stream that begins with this header is what `decode` says.
Decodes : (ℕ → Bool) → List Arrival → Head → List ℕ → Type 0
Decodes malloc inc h rest =
    (left : List Arrival) × (read_frame malloc inc
      ≡ some ((decode malloc h rest).0, (decode malloc h rest).1, left))
    × (stream left ≡ (decode malloc h rest).2)

decoded :
    (malloc : ℕ → Bool) (inc : List Arrival) (h : Head) (rest : List ℕ) (e : Err)
    (payload more : List ℕ) (left : List Arrival)
    → decode malloc h rest ≡ (e, payload, more)
    → read_frame malloc inc ≡ some (e, payload, left)
    → stream left ≡ more
    → Decodes malloc inc h rest
unfolding Decodes
decoded malloc inc h rest e payload more left d f s =
    (left, f ∙ ap (λ r. some (r.0, r.1, left)) (sym d), s ∙ ap (λ r. r.2) (sym d))

unequal_magic :
    (malloc : ℕ → Bool) (inc : List Arrival) {hdr : List ℕ} {rest : List Arrival}
    → read_complete fstream_header_size inc ≡ some (ok, hdr, rest)
    → magic_ok hdr ≡ false
    → read_frame malloc inc ≡ some (fail, [], rest)
unfolding read_frame
unequal_magic malloc inc e m = ground arith

-- The payload of the length `len` in the header.
payload-Decodes :
    (malloc : ℕ → Bool) (inc : List Arrival) (h : Head) (rest : List ℕ) (len : ℕ)
    (behind : List Arrival)
    → little_endian h ≡ len
    → ((h.magic0 == 0xFE) && (h.magic1 == 0xED)) ≡ true
    → read_frame malloc inc ≡ read_payload malloc len behind
    → stream behind ≡ rest
    → len ≤ length rest
    → Decodes malloc inc h rest
unfolding decode read_payload
payload-Decodes malloc inc h rest zero behind size magic f s enough =
    let d : decode malloc h rest ≡ (ok, [], rest) = ground arith in
    decoded malloc inc h rest ok [] rest behind d f s
payload-Decodes malloc inc h rest (suc n) behind size magic f s enough =
    let positive : (suc n == 0) ≡ false = ground arith in
    elim (Bool-cases (malloc (suc n))) [
      | inr refused ↦
          let d : decode malloc h rest ≡ (err_no_mem, [], rest) =
            rw (decode, magic, size, positive, refused) refl in
          let p : read_payload malloc (suc n) behind ≡ some (err_no_mem, [], behind) =
            ground arith in
          decoded malloc inc h rest err_no_mem [] rest behind d (f ∙ p) s
      | inl granted ↦
          let r = read_complete_enough (suc n) behind (rw s enough) in
          let body : read_complete (suc n) behind ≡ some (ok, take (suc n) rest, r.rest) =
            r.result ∙ ap (λ s. some (ok, take (suc n) s, r.rest)) s in
          let d : decode malloc h rest ≡ (ok, take (suc n) rest, drop (suc n) rest) =
            rw (decode, magic, size, positive, granted) refl in
          decoded malloc inc h rest ok (take (suc n) rest) (drop (suc n) rest) r.rest d
            (f ∙ payload_eq malloc (suc n) behind granted body)
            (r.left ∙ ap (λ s. drop (suc n) s) s)
    ]

frame-Decodes :
    (malloc : ℕ → Bool) (inc : List Arrival) (h : Head) (rest : List ℕ)
    → stream inc ≡ bytes_of h rest
    → AreBytes h
    → little_endian h ≤ length rest
    → Decodes malloc inc h rest
unfolding decode
frame-Decodes malloc inc h rest e bytes enough =
    let r = read_complete_enough fstream_header_size inc (rw e (omega arith)) in
    let hdr : read_complete fstream_header_size inc ≡ some (ok, bytes_of h [], r.rest) =
      r.result ∙ ap (λ s. some (ok, take fstream_header_size s, r.rest)) e in
    let behind : stream r.rest ≡ rest = r.left ∙ ap (λ s. drop fstream_header_size s) e in
    let size : header_len (bytes_of h []) ≡ little_endian h =
      header_len_bytes h.magic0 h.magic1 h.len0 h.len1 h.len2 h.len3 [] bytes.byte0 bytes.byte1
        bytes.byte2 bytes.byte3 in
    elim (Bool-cases ((h.magic0 == 0xFE) && (h.magic1 == 0xED))) [
      | inl good ↦
          payload-Decodes malloc inc h rest (little_endian h) r.rest refl good
            (frame_eq malloc inc hdr good ∙ ap (λ n. read_payload malloc n r.rest) size) behind
            enough
      | inr bad ↦
          let d : decode malloc h rest ≡ (fail, [], rest) = rw (decode, bad) refl in
          decoded malloc inc h rest fail [] rest r.rest d (unequal_magic malloc inc hdr bad) behind
    ]

-- `read_msg` is a decoder of byte streams: where a header and the whole payload that it announces will arrive, in
-- whatever segments and with whatever pauses, at a socket that is readable in time, it returns the code and the payload
-- that `decode` finds in the bytes, and leaves those behind them, for a good and a bad magic, with and without a payload,
-- and whether or not `malloc` grants its size.
pub read_msg-decode :
    (malloc : ℕ → Bool) (s : Socket) (t : ℕ) (h : Head) (rest : List ℕ)
    → stream s.incoming ≡ bytes_of h rest
    → AreBytes h
    → little_endian h ≤ length rest
    → (select t s.incoming).0 ≡ true
    → (left : List Arrival) × (read_msg malloc s t
        ≡ some ((decode malloc h rest).0, (decode malloc h rest).1, record s { incoming = left }))
      × (stream left ≡ (decode malloc h rest).2)
unfolding Decodes
read_msg-decode malloc s t h rest e bytes enough ready =
    let (left, f, after) =
      frame-Decodes malloc (select t s.incoming).1 h rest (stream-select t s.incoming ∙ e) bytes
        enough in
    (left, ready_eq malloc s t ready f, after)
