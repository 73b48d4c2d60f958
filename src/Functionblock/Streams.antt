-- ===== src/Functionblock/Streams.antt =====
-- A stream message on its way from the transport to the queue: `read_thread` of src/functionblock.c.
use io4edge_client_c.Base.{
  ℕ, ◌+◌, ◌≡◌, ◌<◌, refl, ◌∙◌, false, some, List, [], ◌∷◌, ◌++◌, length, ◌==◌, arith,
}
use io4edge_client_c.Err.{ok}
use io4edge_client_c.Transport.{Transport}
use io4edge_client_c.Streamq
use io4edge_client_c.Streamq.{Streamq}
use io4edge_client_c.Streamq.Valid.{IsValid, push-eq, pushed, pushed-IsValid}
use io4edge_client_c.Streamq.Refine.{contents, contents-pushed}
use io4edge_client_c.Proto.{Response, of_stream, StreamData, Codec}
use io4edge_client_c.Client.{
  Client, reading, pushing, io4e_forever, dispatch, push_stream, thread_step, run_thread,
}
use io4edge_client_c.Client.Reading.{receive_response}

module _ {S : Type 0} (codec : Codec) (tr : Transport S) where
  thread_takes :
      (ts now : ℕ) (h : Client S) (buf : List ℕ) (s : S) (res : Response) (sd : StreamData)
      → h.thread ≡ reading
      → tr.read_msg h.transport 1 ≡ some (ok, buf, s)
      → (length buf == 0) ≡ false
      → codec.unpack buf ≡ some res
      → res.type ≡ of_stream sd
      → thread_step codec tr ts now false h
        ≡ some (record h { transport = s; live = h.live + 1; thread = pushing sd })
  unfolding thread_step dispatch
  thread_takes ts now h buf s res sd reads rd full unp stream =
      ground (arith, receive_response codec tr h buf s res rd full unp)

  thread_pushes :
      (ts now : ℕ) (h : Client S) (sd : StreamData)
      → h.thread ≡ pushing sd
      → (h.streamq.write_sem == 0) ≡ false
      → thread_step codec tr ts now false h
        ≡ some (record h { streamq = pushed h.streamq (some sd); thread = reading })
  unfolding thread_step push_stream
  thread_pushes ts now h sd hands room =
      let queued : Streamq.push ts h.streamq (some sd) io4e_forever now
          ≡ (ok, pushed h.streamq (some sd), now) =
        push-eq ts h.streamq (some sd) io4e_forever now ∙ rw room in
      ground (arith, queued)

  run_thread_two :
      (ts now : ℕ) (h : Client S) {g h' : Client S}
      → thread_step codec tr ts now false h ≡ some g
      → thread_step codec tr ts now false g ≡ some h'
      → run_thread codec tr ts now 2 h ≡ h'
  unfolding run_thread
  run_thread_two ts now h e e' = ground arith

  -- A stream message that arrives while the queue has room: two steps of the read thread, and it is the
  -- last message in the queue, behind those that were there; the queue is still valid, the message is
  -- live, the thread is back at its loop's head, and the response slot and semaphore are as they were.
  pub thread_appends :
      (ts now : ℕ) (h : Client S) (buf : List ℕ) (s : S) (res : Response) (sd : StreamData)
      → IsValid h.streamq
      → 0 < h.streamq.write_sem
      → h.thread ≡ reading
      → tr.read_msg h.transport 1 ≡ some (ok, buf, s)
      → (length buf == 0) ≡ false
      → codec.unpack buf ≡ some res
      → res.type ≡ of_stream sd
      → (q : Streamq StreamData) × (run_thread codec tr ts now 2 h
          ≡ record h { transport = s; live = h.live + 1; streamq = q; thread = reading })
        × (contents q ≡ contents h.streamq ++ (some sd ∷ []))
        × IsValid q
  thread_appends ts now h buf s res sd v room reads rd full unp stream =
      let held = record h { transport = s; live = h.live + 1; thread = pushing sd } in
      (
        pushed h.streamq (some sd),
        run_thread_two ts now h (thread_takes ts now h buf s res sd reads rd full unp stream)
            (thread_pushes ts now held sd refl (ground arith)),
        contents-pushed (some sd) v room,
        pushed-IsValid (some sd) v room,
      )
