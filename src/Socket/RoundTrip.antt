-- ===== src/Socket/RoundTrip.antt =====
-- Whole frames: what one side writes, the other side reads.
use io4edge_client_c.Base.{
  ℕ, zero, suc, ◌+◌, ◌^◌, ◌≤◌, ◌<◌, ◌≡◌, ◌≢◌, refl, sym, ap, ◌∙◌, true, Bool, Option, none, some,
  List, ◌++◌, append_assoc, length, length-append, take, drop, take-append, drop-append, arith, inl,
  inr,
}
use io4edge_client_c.Err.{Err, ok}
use io4edge_client_c.Socket.{
  Arrival, Socket, fstream_header_size, read_complete, select, magic_ok, header_len, read_payload,
  read_frame, read_msg, write_msg,
}
use io4edge_client_c.Socket.Frame.{header, header_len-header}
use io4edge_client_c.Socket.Write.{sent_frame, write_msg_sound}
use io4edge_client_c.Socket.Read.{
  stream, stream-select, read_none, read_complete_enough, read_complete_sound,
}

-- `read_msg` once its header is there.
pub frame_eq :
    (malloc : ℕ → Bool) (inc : List Arrival) {hdr : List ℕ} {rest : List Arrival}
    → read_complete fstream_header_size inc ≡ some (ok, hdr, rest)
    → magic_ok hdr ≡ true
    → read_frame malloc inc ≡ read_payload malloc (header_len hdr) rest
unfolding read_frame
frame_eq malloc inc e m = ground arith

pub payload_eq :
    (malloc : ℕ → Bool) (len : ℕ) (inc : List Arrival) {payload : List ℕ} {rest : List Arrival}
    → malloc len ≡ true
    → read_complete len inc ≡ some (ok, payload, rest)
    → read_payload malloc len inc ≡ some (ok, payload, rest)
unfolding read_payload
payload_eq malloc zero inc g e = sym (read_none inc) ∙ e
payload_eq malloc (suc k) inc g e = ground arith

-- A payload of less than 2 ^ 16 bytes, framed as `write_msg` frames it and arriving in any segments,
-- is read back whole, and the bytes behind the frame stay for the next call.
pub read_frame_delivers :
    (malloc : ℕ → Bool) (inc : List Arrival) (payload more : List ℕ)
    → stream inc ≡ header (length payload) ++ (payload ++ more)
    → length payload < 2 ^ 16
    → malloc (length payload) ≡ true
    → (rest : List Arrival) × (read_frame malloc inc ≡ some (ok, payload, rest))
      × (stream rest ≡ more)
read_frame_delivers malloc inc payload more e small g =
    let n = length payload in
    let r = read_complete_enough fstream_header_size inc (rw e (omega arith)) in
    let hdr : read_complete fstream_header_size inc ≡ some (ok, header n, r.rest) =
      r.result ∙ ap (λ s. some (ok, take fstream_header_size s, r.rest)) e in
    let left : stream r.rest ≡ payload ++ more = r.left ∙ ap (λ s. drop fstream_header_size s) e in
    let p =
      read_complete_enough n r.rest (rw left (omega (arith, length-append {0} payload more))) in
    let body : read_complete n r.rest ≡ some (ok, payload, p.rest) =
      p.result
      ∙ ap (λ s. some (ok, s, p.rest)) (ap (λ s. take n s) left ∙ take-append payload more) in
    let size : header_len (header n) ≡ n = omega (arith, header_len-header n) in
    (
      p.rest,
      frame_eq malloc inc hdr refl ∙ rw size (payload_eq malloc n r.rest g body),
      p.left ∙ ap (λ s. drop n s) left ∙ drop-append payload more,
    )

-- `read_msg` once the socket is readable.
pub ready_eq :
    (malloc : ℕ → Bool) (h : Socket) (t : ℕ) {e : Err} {payload : List ℕ} {rest : List Arrival}
    → (select t h.incoming).0 ≡ true
    → read_frame malloc (select t h.incoming).1 ≡ some (e, payload, rest)
    → read_msg malloc h t ≡ some (e, payload, record h { incoming = rest })
unfolding read_msg
ready_eq malloc h t r f = ground arith

-- A payload of less than 2 ^ 16 bytes, framed as `write_msg` frames it and arriving in any segments
-- at a socket that becomes readable in time, is what `read_msg` returns with IO4E_OK, if `malloc`
-- grants its size; the bytes behind the frame stay for the next call.
pub read_msg_delivers :
    (malloc : ℕ → Bool) (h : Socket) (t : ℕ) (payload more : List ℕ)
    → stream h.incoming ≡ header (length payload) ++ (payload ++ more)
    → length payload < 2 ^ 16
    → malloc (length payload) ≡ true
    → (select t h.incoming).0 ≡ true
    → (rest : List Arrival) × (read_msg malloc h t
        ≡ some (ok, payload, record h { incoming = rest }))
      × (stream rest ≡ more)
read_msg_delivers malloc h t payload more e small g ready =
    let (rest, f, left) =
      read_frame_delivers malloc (select t h.incoming).1 payload more
        (stream-select t h.incoming ∙ e) small g in
    (rest, ready_eq malloc h t ready f, left)

-- From one end of a connection to the other: if `write_msg` returns IO4E_OK for a payload of less than
-- 2 ^ 16 bytes behind room for the header, and the bytes that it sent arrive, in any segments, at a socket
-- that becomes readable in time and whose `malloc` grants the payload's size, then `read_msg` returns
-- IO4E_OK and the payload there; the bytes behind the frame stay for the next call.
pub write_read :
    (malloc : ℕ → Bool) (from from' to : Socket) (t : ℕ) (room payload more : List ℕ)
    → length room ≡ fstream_header_size
    → write_msg from (room ++ payload) (fstream_header_size + length payload) ≡ some (ok, from')
    → length payload < 2 ^ 16
    → malloc (length payload) ≡ true
    → (select t to.incoming).0 ≡ true
    → stream to.incoming ≡ drop (length from.sent) from'.sent ++ more
    → (rest : List Arrival) × (read_msg malloc to t
        ≡ some (ok, payload, record to { incoming = rest }))
      × (stream rest ≡ more)
write_read malloc from from' to t room payload more six written small g ready arrives =
    let (out, grown, same, how) = write_msg_sound from _ _ (omega arith) written in
    let whole : out ≡ header (length payload) ++ payload = elim how [
      | inl (fine, all) ↦ all ∙ sent_frame room payload six
      | inr (bad, rest) ↦ absurd (ground arith)
    ] in
    let gone : drop (length from.sent) from'.sent ≡ out =
      ap (λ s. drop (length from.sent) s) grown ∙ drop-append from.sent out in
    read_msg_delivers malloc to t payload more
      (arrives
        ∙ ap (λ s. s ++ more) (gone ∙ whole)
        ∙ append_assoc (header (length payload)) payload more)
      small g ready

-- A frame as `read_msg` takes it: six bytes with the magic, then as many bytes as they announce.
pub record IsFrame (bytes payload more : List ℕ) : Type 0 where
  pub hdr : List ℕ
  pub six : length hdr ≡ fstream_header_size
  pub magic : magic_ok hdr ≡ true
  pub announced : header_len hdr ≡ length payload
  pub cut : bytes ≡ hdr ++ (payload ++ more)

payload_inv :
    (malloc : ℕ → Bool) (len : ℕ) (inc : List Arrival) {payload : List ℕ} {rest : List Arrival}
    → read_payload malloc len inc ≡ some (ok, payload, rest)
    → read_complete len inc ≡ some (ok, payload, rest)
unfolding read_payload
payload_inv malloc zero inc eq = read_none inc ∙ eq
payload_inv malloc (suc k) inc eq = ground arith

frame_inv :
    (malloc : ℕ → Bool) (inc : List Arrival) (o : Option (Err × List ℕ × List Arrival))
    {payload : List ℕ} {rest : List Arrival}
    → read_complete fstream_header_size inc ≡ o
    → read_frame malloc inc ≡ some (ok, payload, rest)
    → (hdr : List ℕ) × (mid : List Arrival) × (read_complete fstream_header_size inc
        ≡ some (ok, hdr, mid))
      × (magic_ok hdr ≡ true)
      × (read_payload malloc (header_len hdr) mid ≡ some (ok, payload, rest))
unfolding read_frame
frame_inv malloc inc none e eq = absurd (ground arith)
frame_inv malloc inc (some (ret, hdr, mid)) e eq =
    (hdr, mid, ground arith, ground arith, ground arith)

msg_inv :
    (malloc : ℕ → Bool) (h : Socket) (t : ℕ) (o : Option (Err × List ℕ × List Arrival))
    {payload : List ℕ} {h' : Socket}
    → read_frame malloc (select t h.incoming).1 ≡ o
    → read_msg malloc h t ≡ some (ok, payload, h')
    → (read_frame malloc (select t h.incoming).1 ≡ some (ok, payload, h'.incoming))
      × (h'.sent ≡ h.sent)
unfolding read_msg
msg_inv malloc h t none e eq = absurd (ground arith)
msg_inv malloc h t (some (ret, p, rest)) e eq = (ground arith, ground arith)

-- Every payload that `read_msg` returns with IO4E_OK is cut out of the incoming bytes as a frame, and
-- exactly that frame is consumed; nothing is sent.
pub read_msg_sound :
    (malloc : ℕ → Bool) (h : Socket) (t : ℕ) {payload : List ℕ} {h' : Socket}
    → read_msg malloc h t ≡ some (ok, payload, h')
    → IsFrame (stream h.incoming) payload (stream h'.incoming) × (h'.sent ≡ h.sent)
read_msg_sound malloc h t {payload} {h'} eq =
    let (f, unsent) = msg_inv malloc h t _ refl eq in
    let (hdr, mid, first, magic, second) = frame_inv malloc (select t h.incoming).1 _ refl f in
    let (six, head) = read_complete_sound fstream_header_size _ first in
    let (long, tail) =
      read_complete_sound (header_len hdr) mid (payload_inv malloc (header_len hdr) mid second) in
    (
      record {
        hdr = hdr;
        six = six;
        magic = magic;
        announced = sym long;
        cut = sym (stream-select t h.incoming) ∙ head ∙ ap (λ s. hdr ++ s) tail;
      },
      unsent,
    )

same_hdr :
    (hdr hdr' xs ys : List ℕ) → length hdr ≡ length hdr' → hdr ++ xs ≡ hdr' ++ ys → hdr ≡ hdr'
same_hdr hdr hdr' xs ys l e =
    sym (take-append hdr xs)
    ∙ ap (λ s. take (length hdr) s) e
    ∙ ap (λ k. take k (hdr' ++ ys)) l
    ∙ take-append hdr' ys

-- A payload of 2 ^ 16 bytes or more, up to 2 ^ 24, framed as `write_msg` frames it, is never what
-- `read_msg` returns with IO4E_OK, whatever follows it on the connection.
pub large_payload_lost :
    (malloc : ℕ → Bool) (h h' : Socket) (t : ℕ) (payload more : List ℕ)
    → stream h.incoming ≡ header (length payload) ++ (payload ++ more)
    → 2 ^ 16 ≤ length payload
    → length payload < 2 ^ 24
    → read_msg malloc h t ≢ some (ok, payload, h')
large_payload_lost malloc h h' t payload more e large small eq =
    let (f, unsent) = read_msg_sound malloc h t eq in
    let same = same_hdr f.hdr (header (length payload)) _ _ f.six (sym f.cut ∙ e) in
    let size : header_len (header (length payload)) ≡ length payload =
      ap header_len (sym same) ∙ f.announced in
    omega (arith, header_len-header (length payload))
