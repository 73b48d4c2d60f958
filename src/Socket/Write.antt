-- ===== src/Socket/Write.antt =====
-- Writing: the loop of `write_msg`, for every way in which the kernel may take the bytes.
use io4edge_client_c.Base.{
  ℕ, suc, ◌+◌, ◌-◌, ◌≤◌, ◌≡◌, refl, sym, ap, ◌∙◌, ◌⊎◌, inl, inr, true, false, Bool, not, ◌&&◌,
  Option, none, some, List, [], ◌∷◌, ◌++◌, append_assoc, length, length-drop, take, drop,
  take-append-drop, take-length_le, arith, ltb, ◌==◌, if◌then◌else◌, Bool-cases,
}
use io4edge_client_c.Err.{Err, ok, fail}
use io4edge_client_c.Socket.{
  Room, takes, refuses, Socket, eintr, eagain, ewouldblock, fstream_header_size, put_header, after,
  send_all, write_msg,
}
use io4edge_client_c.Socket.Frame.{header, put_header_lem}

-- The errno values after which `write_msg` tries again.
abbrev pub transient : ℕ → Bool
transient errno = not (not (errno == eintr) && not (errno == eagain) && not (errno == ewouldblock))

-- The bytes that the kernel takes before it refuses for good.
abbrev pub room_total : List Room → ℕ
room_total [] = 0
room_total (takes n ∷ rest) = n + room_total rest
room_total (refuses errno ∷ rest) = if transient errno then room_total rest else 0

send_nothing : (ws : List Room) → send_all [] ws ≡ some (ok, [], ws)
unfolding send_all
send_nothing [] = refl
send_nothing (takes n ∷ ws) = refl
send_nothing (refuses e ∷ ws) = refl

some_left : (b : ℕ) (bs : List ℕ) → (length (b ∷ bs) == 0) ≡ false
some_left b bs = ground arith

send_part :
    (b : ℕ) (bs : List ℕ) (n : ℕ) (ws : List Room)
    → send_all (b ∷ bs) (takes n ∷ ws) ≡ after (take n (b ∷ bs)) (send_all (drop n (b ∷ bs)) ws)
unfolding send_all
send_part b bs n ws = rw (some_left b bs)

send_again :
    (b : ℕ) (bs : List ℕ) (e : ℕ) (ws : List Room)
    → transient e ≡ true
    → send_all (b ∷ bs) (refuses e ∷ ws) ≡ send_all (b ∷ bs) ws
unfolding send_all
send_again b bs e ws h = ground arith

send_fatal :
    (b : ℕ) (bs : List ℕ) (e : ℕ) (ws : List Room)
    → transient e ≡ false
    → send_all (b ∷ bs) (refuses e ∷ ws) ≡ some (fail, [], ws)
unfolding send_all
send_fatal b bs e ws h = ground arith

-- If the kernel takes at least as many bytes as there are, the loop ends with success, whatever the
-- portions, the empty writes and the transient errors.
pub send_all_enough :
    (buf : List ℕ) (ws : List Room)
    → length buf ≤ room_total ws
    → (left : List Room) × (send_all buf ws ≡ some (ok, buf, left))
send_all_enough [] ws h = (ws, send_nothing ws)
send_all_enough (b ∷ bs) [] h = absurd (omega arith)
send_all_enough (b ∷ bs) (takes n ∷ ws) h =
    let (left, e) = send_all_enough (drop n (b ∷ bs)) ws (omega (arith, length-drop n (b ∷ bs))) in
    (left, rw (send_part b bs n ws, e, take-append-drop n (b ∷ bs)))
send_all_enough (b ∷ bs) (refuses e ∷ ws) h = elim (Bool-cases (transient e)) [
  | inl again ↦
      let (left, r) = send_all_enough (b ∷ bs) ws (rw again at h) in
      (left, send_again b bs e ws again ∙ r)
  | inr fatal ↦ absurd (few (b ∷ bs) (rw fatal at h) refl)
]
  where
    few : (xs : List ℕ) → length xs ≤ 0 → (length xs ≡ suc (length bs)) → ⊥
    few xs p q = omega arith

-- How a run of the loop ends: all bytes are out, or not all of them and the
-- code is IO4E_FAIL.
abbrev pub Sent : List ℕ → Err → List ℕ → Type 0
Sent buf e out =
    (e ≡ ok) × (out ≡ buf) ⊎ (e ≡ fail) × ((b : ℕ) × (tail : List ℕ) × (buf ≡ out ++ (b ∷ tail)))

after-eq-some :
    (bs : List ℕ) (o : Option (Err × List ℕ × List Room)) {e : Err} {all : List ℕ}
    {rest : List Room}
    → after bs o ≡ some (e, all, rest)
    → (more : List ℕ) × (o ≡ some (e, more, rest)) × (all ≡ bs ++ more)
after-eq-some bs none h = cc
after-eq-some bs (some (e, more, rest)) h = (more, ground arith, ground arith)

Sent-after :
    (n : ℕ) (buf : List ℕ) {e : Err} {more : List ℕ}
    → Sent (drop n buf) e more
    → Sent buf e (take n buf ++ more)
Sent-after n buf (inl (p, q)) = inl (p, rw q (take-append-drop n buf))
Sent-after n buf {more} (inr (p, (b, tail, q))) = inr (
  p,
  (
    b,
    tail,
    sym (take-append-drop n buf)
        ∙ ap (λ t. take n buf ++ t) q
        ∙ sym (append_assoc (take n buf) more (b ∷ tail)),
  ),
)

Sent-nothing :
    (ws : List Room) {e : Err} {out : List ℕ} {left : List Room}
    → send_all [] ws ≡ some (e, out, left)
    → Sent [] e out
Sent-nothing ws h = ground (arith, send_nothing ws)

-- Whenever the loop returns, it has sent a first part of the buffer in order, the whole of it if
-- and only if the code is IO4E_OK; the only other code is IO4E_FAIL.
pub send_all_sound :
    (buf : List ℕ) (ws : List Room) {e : Err} {out : List ℕ} {left : List Room}
    → send_all buf ws ≡ some (e, out, left)
    → Sent buf e out
send_all_sound [] ws h = Sent-nothing ws h
send_all_sound (b ∷ bs) [] h = absurd (unfold send_all in ground arith)
send_all_sound (b ∷ bs) (takes n ∷ ws) h =
    let (more, e, f) = after-eq-some (take n (b ∷ bs)) _ (sym (send_part b bs n ws) ∙ h) in
    rw f (Sent-after n (b ∷ bs) (send_all_sound (drop n (b ∷ bs)) ws e))
send_all_sound (b ∷ bs) (refuses errno ∷ ws) h = elim (Bool-cases (transient errno)) [
  | inl again ↦ send_all_sound (b ∷ bs) ws (sym (send_again b bs errno ws again) ∙ h)
  | inr fatal ↦
      let h' = sym (send_fatal b bs errno ws fatal) ∙ h in inr (ground arith, (b, bs, ground arith))
]

write_msg_eq :
    (h : Socket) (buf : List ℕ) (len : ℕ) {bytes : List ℕ}
    → ltb len fstream_header_size ≡ false
    → take len (put_header buf (len - fstream_header_size)) ≡ bytes
    → {e : Err} {out : List ℕ} {left : List Room} → send_all bytes h.rooms ≡ some (e, out, left)
    → write_msg h buf len ≡ some (e, record h { rooms = left; sent = h.sent ++ out })
unfolding write_msg
write_msg_eq h buf len long framed loop = rw (long, framed, loop)

-- What `write_msg` hands to its loop for a buffer with room for the header in front of the payload.
pub sent_frame :
    (room payload : List ℕ)
    → length room ≡ fstream_header_size
    → take
        (fstream_header_size + length payload)
        (put_header (room ++ payload) (fstream_header_size + length payload - fstream_header_size))
      ≡ header (length payload) ++ payload
sent_frame room payload six =
    let n : fstream_header_size + length payload - fstream_header_size ≡ length payload =
      omega arith in
    rw (n, put_header_lem room payload (length payload) six)
      (take-length_le _ (header (length payload) ++ payload) (omega arith))

-- `write_msg` on a buffer with room for the header in front and a payload: if the kernel takes
-- enough bytes it returns IO4E_OK, and the header and the payload have gone out, in this order and
-- nothing else.
pub write_msg_sends :
    (h : Socket) (room payload : List ℕ)
    → length room ≡ fstream_header_size
    → fstream_header_size + length payload ≤ room_total h.rooms
    → (left : List Room) × (write_msg h (room ++ payload) (fstream_header_size + length payload)
        ≡ some
            (ok, record h { rooms = left; sent = h.sent ++ (header (length payload) ++ payload) }))
write_msg_sends h room payload six enough =
    let frame = header (length payload) ++ payload in
    let (left, loop) = send_all_enough frame h.rooms (omega arith) in
    (
      left,
      write_msg_eq h (room ++ payload) (fstream_header_size + length payload) (ground arith)
          (sent_frame room payload six) loop,
    )

write_msg_cases :
    (h : Socket) (len : ℕ) (bytes : List ℕ) (o : Option (Err × List ℕ × List Room))
    → send_all bytes h.rooms ≡ o
    → {e : Err} {h' : Socket}
    → elim o as (λ _. Option (Err × Socket)) [
      | none ↦ none
      | some (e, out, left) ↦ some (e, record h { rooms = left; sent = h.sent ++ out })
    ]
      ≡ some (e, h')
    → (out : List ℕ) × (h'.sent ≡ h.sent ++ out) × (h'.incoming ≡ h.incoming) × Sent bytes e out
write_msg_cases h len bytes none loop eq = cc
write_msg_cases h len bytes (some (e, out, left)) loop eq =
    (out, ground arith, ground arith, rw (code eq) at (send_all_sound bytes h.rooms loop))
  where
    code :
        {a b : Err} {s t : Socket}
        → ◌≡◌ {A = Option (Err × Socket)} (some (a, s)) (some (b, t))
        → a ≡ b
    code q = ground arith

-- Whenever `write_msg` returns, it has sent a first part of the buffer with the header written over
-- its first six bytes: all of it if the code is IO4E_OK, not all of it if it is IO4E_FAIL.
pub write_msg_sound :
    (h : Socket) (buf : List ℕ) (len : ℕ) {e : Err} {h' : Socket}
    → fstream_header_size ≤ len
    → write_msg h buf len ≡ some (e, h')
    → (out : List ℕ) × (h'.sent ≡ h.sent ++ out)
      × (h'.incoming ≡ h.incoming)
      × Sent (take len (put_header buf (len - fstream_header_size))) e out
unfolding write_msg
write_msg_sound h buf len long eq =
    let l : ltb len fstream_header_size ≡ false = ground arith in
    write_msg_cases h len (take len (put_header buf (len - fstream_header_size))) _ refl
      (rw l at eq)
