-- ===== src/Functionblock/Reads.antt =====
-- Reading a stream, and one exchange from end to end: src/functionblock.c.
use io4edge_client_c.Base.{
  ℕ, suc, ◌+◌, ◌-◌, ◌≡◌, ◌<◌, ◌^◌, sym, ap, ◌∙◌, true, false, Option, none, some, List, [], ◌∷◌,
  length, get_or, drop, ◌==◌, arith,
}
use io4edge_client_c.Err.{Err, ok, err_timeout, err_protobuf}
use io4edge_client_c.Exec.{returns}
use io4edge_client_c.Transport.{Transport}
use io4edge_client_c.Streamq
use io4edge_client_c.Streamq.{Streamq, oldest}
use io4edge_client_c.Streamq.Valid.{IsValid, popped, popped-IsValid, pop-eq}
use io4edge_client_c.Streamq.Refine.{contents, length-contents, contents-popped}
use io4edge_client_c.Streamq.Timeout.{pop_times_out}
use io4edge_client_c.Proto.{
  Any, CommandType, Response, ResponseType, Codec, status_ok, Unpack, StreamData,
}
use io4edge_client_c.Client.{Client, reading, next_char, advance_context, check_status, Around}
use io4edge_client_c.Client.Reading.{is_stream}
use io4edge_client_c.Client.Exchange.{outgoing, outgoing_len, exchange}
use io4edge_client_c.Functionblock.{finish, request, take_stream, read_stream}

module _ {S M : Type 0} (codec : Codec) (tr : Transport S) where
  -- An operation of an idle client, whose write goes through and whose response is the next message to
  -- arrive, repeats the context, has status OK and carries the member asked for, with a value that
  -- `unpack` reads as `m`, returns IO4E_OK and `m`; the response is freed and the client is idle again,
  -- with its context advanced.
  pub request_answered :
      (type : CommandType) (member : ResponseType → Option Any) (f : Unpack M) (w : Around)
      (h : Client S) (s s' : S) (buf : List ℕ) (res : Response) (any : Any) (m : M)
      → w.lock_ok ≡ true
      → w.wait_steps ≡ 1
      → w.take_steps ≡ 0
      → h.thread ≡ reading
      → h.cmd_sem ≡ 0
      → h.cmd_response ≡ none
      → tr.write_msg h.transport (outgoing codec tr type h) (outgoing_len codec tr type h)
        ≡ some (ok, s)
      → tr.read_msg s 1 ≡ some (ok, buf, s')
      → (length buf == 0) ≡ false
      → codec.unpack buf ≡ some res
      → is_stream res.type ≡ false
      → res.context ≡ some (next_char h.cmd_context ∷ [])
      → res.status ≡ status_ok
      → member res.type ≡ some any
      → f any.value ≡ some m
      → request codec tr type member (some f) w h
        ≡ returns (
          ok,
          some m,
          record h {
            transport = s';
            cmd_context = advance_context (next_char h.cmd_context);
            cmd_sem = 0;
            cmd_response = none;
            live = h.live;
          },
        )
  unfolding request finish check_status
  request_answered type member f w h s s' buf res any m lock one zero_steps reads idle empty wr rd
        full unp k ctx fine holds good =
      let called =
        exchange codec tr true type w h s s' buf res lock one zero_steps reads idle empty wr rd full
          unp k ctx in
      let count : h.live + 1 - 1 ≡ h.live = omega arith in
      rw (request, called, check_status, fine, finish, holds, good, count)

-- What a reader gets from a popped stream message: the message and its data, or IO4E_ERR_PROTOBUF.
unfoldable pub taken_spec : {M : Type 0} → Unpack M → StreamData → Err × Option (StreamData × M)
taken_spec unpack sd = elim sd.functionspecificstreamdata [
  | none ↦ (err_protobuf, none)
  | some any ↦ elim (unpack any.value) [
    | none ↦ (err_protobuf, none)
    | some fs_data ↦ (ok, some (sd, fs_data))
  ]
]

module _ {S M : Type 0} where
  take_stream_lem :
      (unpack : Unpack M) (sd : StreamData) (h : Client S) (later : ℕ)
      → take_stream unpack (some sd) h later
        ≡ returns ((taken_spec unpack sd).0, (taken_spec unpack sd).1, h, later)
  unfolding take_stream taken_spec
  take_stream_lem unpack sd h later = ground arith

  -- Once a message has been waited for, `read_stream` takes it.
  pub read_stream_pops :
      (time_size : ℕ) (unpack : Unpack M) (timeout now : ℕ) (h : Client S)
      → (h.streamq.read_sem == 0) ≡ false
      → read_stream time_size unpack timeout now h
        ≡ take_stream unpack
            (oldest (record h.streamq { read_sem = h.streamq.read_sem - 1 }))
            (record h { streamq = popped h.streamq })
            now
  unfolding read_stream
  read_stream_pops time_size unpack timeout now h some_left =
      let past : Streamq.pop time_size h.streamq timeout now ≡ (
        ok,
        some (oldest (record h.streamq { read_sem = h.streamq.read_sem - 1 })),
        popped h.streamq,
        now,
      ) =
        pop-eq time_size h.streamq timeout now ∙ rw some_left in
      ground (arith, past)

  -- Reading from a queue that is not empty returns at once. The oldest message leaves the queue whatever
  -- the code is, and nothing is freed: a message without data, or with data that `unpack` refuses,
  -- is handed to nobody and stays allocated.
  pub read_stream_lem :
      (time_size : ℕ) (unpack : Unpack M) (timeout now : ℕ) (h : Client S) (sd : StreamData)
      (rest : List (Option StreamData))
      → IsValid h.streamq
      → contents h.streamq ≡ some sd ∷ rest
      → (q : Streamq StreamData) × (contents q ≡ rest)
        × IsValid q
        × (read_stream time_size unpack timeout now h
            ≡ returns
                ((taken_spec unpack sd).0, (taken_spec unpack sd).1, record h { streamq = q }, now))
  read_stream_lem time_size unpack timeout now h sd rest v front =
      let counted : h.streamq.nentries ≡ suc (length rest) =
        sym (length-contents h.streamq) ∙ ap length front in
      let some_left : 0 < h.streamq.read_sem = omega arith in
      let split = contents-popped v some_left in
      let first : oldest (record h.streamq { read_sem = h.streamq.read_sem - 1 }) ≡ some sd =
        ap (λ l. get_or l 0 none) (sym split ∙ front) in
      let others : contents (popped h.streamq) ≡ rest = ap (drop 1) (sym split ∙ front) in
      (
        popped h.streamq,
        others,
        popped-IsValid v some_left,
        read_stream_pops time_size unpack timeout now h (ground arith)
            ∙ ap (λ m. take_stream unpack m (record h { streamq = popped h.streamq }) now) first
            ∙ take_stream_lem unpack sd (record h { streamq = popped h.streamq }) now,
      )

  -- Reading from an empty queue gives IO4E_ERR_TIMEOUT once the timeout is over, with the client as it was.
  pub read_stream_times_out :
      (unpack : Unpack M) (timeout now : ℕ) (h : Client S)
      → IsValid h.streamq
      → h.streamq.nentries ≡ 0
      → now + timeout < 2 ^ 63
      → read_stream 8 unpack timeout now h ≡ returns (err_timeout, none, h, now + timeout)
  unfolding read_stream
  read_stream_times_out unpack timeout now h v empty early =
      rw (pop_times_out timeout now v empty early)
