-- ===== src/Lifecycle/Balance.antt =====
-- What setting up and deleting a client allocates and releases.
use io4edge_client_c.Base.{
  ℕ, ◌+◌, ◌≤◌, ◌≡◌, ◌⊎◌, inl, inr, refl, ap, ◌∙◌, false, Option, none, some, Bool-cases,
  Option-cases, arith,
}
use io4edge_client_c.Err.{Err, ok, fail, err_no_mem, is_ok}
use io4edge_client_c.Sem.{sem_value_max}
use io4edge_client_c.Proto.{StreamData}
use io4edge_client_c.Streamq.{Streamq, Calloc, streamq_new}
use io4edge_client_c.Streamq.Valid.{streamq_new-IsValid}
use io4edge_client_c.Socket.{Socket}
use io4edge_client_c.Client.{Client, reading}
use io4edge_client_c.Client.Ledger.{IsBalanced}
use io4edge_client_c.Lifecycle.{
  Held, World, config_streamq_capacity, allocated, transport_connect, transport_new, destroy,
  streamq_delete, give_up, fresh, with_thread, with_transport, client_new, client_delete,
}

-- A transport is set up with one block and one socket, or not at all.
transport_new_cases :
    (w : World) (r : Held)
    → (transport_new w r
        ≡ (ok, some w.connection, record r { blocks = r.blocks + 1; sockets = r.sockets + 1 }))
      ⊎ (e : Err) × (is_ok e ≡ false) × (transport_new w r ≡ (e, none, r))
unfolding transport_new transport_connect
transport_new_cases w r = elim (Bool-cases w.handle_block) [
  | inr no_block ↦ inr (err_no_mem, refl, ground arith)
  | inl block ↦ elim (Bool-cases w.resolves) [
    | inr unknown ↦ inr (fail, refl, ground arith)
    | inl known ↦ elim (Bool-cases w.socket) [
      | inr no_socket ↦ inr (fail, refl, ground arith)
      | inl socket ↦ elim (Bool-cases w.connects) [
        | inr refused ↦ inr (fail, refl, ground arith)
        | inl connected ↦ inl (ground arith)
      ]
    ]
  ]
]

-- A queue is made, or none is.
streamq_new_cases :
    (alloc : Calloc) (capacity : ℕ)
    → ((q : Streamq StreamData) × (streamq_new alloc capacity ≡ (ok, some q)))
      ⊎ (streamq_new {A = StreamData} alloc capacity ≡ (err_no_mem, none))
unfolding streamq_new
streamq_new_cases alloc capacity =
    elim (Option-cases (streamq_new {A = StreamData} alloc capacity).1) [
      | inl absent ↦ inr (ground arith)
      | inr (q, given) ↦
          let made : streamq_new alloc capacity ≡ (ok, some q) = ground arith in inl (q, made)
    ]

-- What `client_new` made: a client on the new connection, with a new queue.
pub record Made (w : World) (timeout : ℕ) (r : Held) (c : Option (Client Socket)) (r' : Held)
    : Type 0 where
  pub queue : Streamq StreamData
  pub queue_new : streamq_new w.queue_blocks config_streamq_capacity ≡ (ok, some queue)
  pub client : c ≡ some (fresh w.connection queue timeout)
  pub more :
      r' ≡ record r { blocks = r.blocks + 4; sockets = r.sockets + 1; threads = r.threads + 1 }

with_transport_cases :
    (w : World) (timeout : ℕ) (r : Held)
    → ((c : Option (Client Socket)) × (r' : Held) × (with_transport w timeout w.connection
            (record r { blocks = r.blocks + 2; sockets = r.sockets + 1 })
          ≡ (ok, c, r'))
        × Made w timeout r c r')
      ⊎ ((e : Err) × (is_ok e ≡ false)
          × (with_transport w timeout w.connection
                (record r { blocks = r.blocks + 2; sockets = r.sockets + 1 })
              ≡ (e, none, r)))
unfolding with_transport with_thread give_up destroy streamq_delete
with_transport_cases w timeout r = elim (streamq_new_cases w.queue_blocks config_streamq_capacity) [
  | inr no_queue ↦ inr (err_no_mem, refl, ground arith)
  | inl (q, queue_new) ↦ elim (Bool-cases w.thread_created) [
    | inr no_thread ↦ inr (fail, refl, ground arith)
    | inl thread ↦ inl (
      some (fresh w.connection q timeout),
      record r { blocks = r.blocks + 4; sockets = r.sockets + 1; threads = r.threads + 1 },
      ground arith,
      record { queue = q; queue_new = queue_new; client = refl; more = refl },
    )
  ]
]

-- `client_new` either returns IO4E_OK with a client on the new connection, whose queue is new, for four
-- blocks, a socket and a thread more; or it returns an error and no client, and holds nothing that
-- was not held before. So none of its error paths leaks.
pub client_new_cases :
    (w : World) (timeout : ℕ) (r : Held)
    → ((c : Option (Client Socket)) × (r' : Held) × (client_new w timeout r ≡ (ok, c, r'))
        × Made w timeout r c r')
      ⊎ ((e : Err) × (is_ok e ≡ false) × (client_new w timeout r ≡ (e, none, r)))
unfolding client_new give_up destroy streamq_delete
client_new_cases w timeout r = elim (Bool-cases w.client_block) [
  | inr no_block ↦ inr (err_no_mem, refl, ground arith)
  | inl block ↦ elim (transport_new_cases w (allocated 1 r)) [
    | inr (e, bad, failed) ↦ inr (e, bad, ground arith)
    | inl set_up ↦
        let two : r.blocks + 1 + 1 ≡ r.blocks + 2 = omega arith in
        let further : client_new w timeout r
            ≡ with_transport w timeout w.connection
                (record r { blocks = r.blocks + 2; sockets = r.sockets + 1 }) =
          ground arith in
        elim (with_transport_cases w timeout r) [
          | inl (c, r', done, made) ↦ inl (c, r', further ∙ done, made)
          | inr (e, bad, failed) ↦ inr (e, bad, further ∙ failed)
        ]
  ]
]

made :
    (w : World) (timeout : ℕ) (r : Held) {h : Client Socket} {r' : Held}
    → client_new w timeout r ≡ (ok, some h, r')
    → Made w timeout r (some h) r'
made w timeout r {h} {r'} e = elim (client_new_cases w timeout r) [
  | inl (c, g, done, m) ↦
      let same_client : c ≡ some h = ground arith in
      let same : g ≡ r' = ground arith in rw (same_client, same) at m
  | inr (e', bad, failed) ↦ absurd (ground arith)
]

-- A client that `client_new` gives, deleted before it is used, leaves nothing allocated.
pub new_delete :
    (w : World) (timeout : ℕ) (r : Held) {h : Client Socket} {r' : Held}
    → client_new w timeout r ≡ (ok, some h, r')
    → client_delete (some h) r' ≡ (ok, r, 0)
unfolding client_delete destroy streamq_delete
new_delete w timeout r {h} {r'} e =
    let m = made w timeout r e in
    let unused : h.live ≡ 0 = ground arith in rw (m.more, unused) (ground arith)

-- A new client has its first context, its thread at the head of the loop, an empty queue, and no live
-- message without an owner.
pub client_new-IsBalanced :
    (w : World) (timeout n : ℕ) (r : Held) {h : Client Socket} {r' : Held}
    → n ≤ sem_value_max
    → client_new w timeout r ≡ (ok, some h, r')
    → IsBalanced 0 n h × (h.cmd_context ≡ b'A') × (h.thread ≡ reading) × (h.streamq.nentries ≡ 0)
client_new-IsBalanced w timeout n r {h} small e =
    let m = made w timeout r e in
    let same : h ≡ fresh w.connection m.queue timeout = ground arith in
    let (valid, empty, capacity) =
      streamq_new-IsValid w.queue_blocks config_streamq_capacity {q = m.queue} (omega arith)
        (omega arith) (ap (λ p. p.1) m.queue_new) in
    rw same (record { queue = valid; counts = omega arith; owned = omega arith }, refl, refl, empty)
