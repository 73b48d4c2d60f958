-- ===== src/Handoff/Calm.antt =====
-- Callers whose wait never times out: the response passes from one thread to the other.
use io4edge_client_c.Base.{ℕ, ◌-◌, ◌<◌, ◌≡◌, ◌⊎◌, inl, inr, refl, true, none, some, arith}
use io4edge_client_c.Handoff.{
  outside, locked, waiting, woken, fetched, holding, leaving, listening, arrived, storing, posting,
  Shared, with_live, Step, by_caller, by_thread, lock, send, send_fails, wake, time_out, fetch,
  clear_slot, find_null, discard, hand_out, unlock, receive, find_full, find_empty, free_old, store,
  post, post_fails, Reach, here, next, IsQuiet,
}

-- The caller owes nobody anything: before the write, and after the response.
abbrev Resting : Shared → Type 0
Resting s =
    ((s.caller ≡ outside) ⊎ ((s.caller ≡ locked) ⊎ (s.caller ≡ leaving)))
    × (s.reader ≡ listening)
    × (s.owed ≡ 0)
    × (s.sem ≡ 0)
    × (s.slot ≡ none)

-- The caller waits, and the response is under way.
abbrev Coming : Shared → Type 0
Coming s =
    (s.caller ≡ waiting)
    × (s.sem ≡ 0)
    × ((s.reader ≡ listening) × (s.owed ≡ 1) × (s.slot ≡ none)
        ⊎ (r : ℕ) × (s.owed ≡ 0)
          × (s.live r ≡ true)
          × (((s.reader ≡ arrived r) ⊎ (s.reader ≡ storing r)) × (s.slot ≡ none)
              ⊎ (s.reader ≡ posting r) × (s.slot ≡ some r)))

-- The response is the caller's: in the slot, or in hand.
abbrev Come : Shared → Type 0
Come s =
    (s.reader ≡ listening)
    × (s.owed ≡ 0)
    × ((r : ℕ) × (s.live r ≡ true)
        × ((s.slot ≡ some r)
              × ((s.caller ≡ waiting) × (s.sem ≡ 1)
                  ⊎ ((s.caller ≡ woken) ⊎ (s.caller ≡ fetched (some r))) × (s.sem ≡ 0))
            ⊎ (s.slot ≡ none) × (s.caller ≡ holding (some r)) × (s.sem ≡ 0)))

-- One response is in play, and one thread has it.
abbrev pub IsCalm : Shared → Type 0
IsCalm s = Resting s ⊎ (Coming s ⊎ Come s)

-- A response is allocated only when a caller waits for it.
due :
    (s : Shared)
    → s.reader ≡ listening
    → 0 < s.owed
    → IsCalm s
    → (s.caller ≡ waiting) × (s.sem ≡ 0) × (s.slot ≡ none) × (s.owed ≡ 1)
due s e p c = ground arith

pub Step-IsCalm : {s t : Shared} → Step true s t → IsCalm s → IsCalm t
Step-IsCalm (by_caller (lock e)) c = ground arith
Step-IsCalm (by_caller (send e)) c = ground arith
Step-IsCalm (by_caller (send_fails e)) c = ground arith
Step-IsCalm (by_caller (wake e p)) c = ground arith
Step-IsCalm (by_caller (time_out n e p)) c = absurd (ground arith)
Step-IsCalm (by_caller (fetch e)) c = ground arith
Step-IsCalm (by_caller (clear_slot o e)) c = ground arith
Step-IsCalm (by_caller (find_null e)) c = ground arith
Step-IsCalm (by_caller (discard r e)) c = ground arith
Step-IsCalm (by_caller (hand_out r e)) c = ground arith
Step-IsCalm (by_caller (unlock e)) c = ground arith
Step-IsCalm {s = s} (by_thread (receive e p)) c =
    let (waits, unposted, free, one) = due s e p c in
    let nothing : s.owed - 1 ≡ 0 = ground arith in
    let fresh : with_live s.next true s.live s.next ≡ true = ground arith in
    inr (inl (waits, unposted, inr (s.next, nothing, fresh, inl (inl refl, free))))
Step-IsCalm (by_thread (find_full r old e p)) c = ground arith
Step-IsCalm (by_thread (find_empty r e p)) c = ground arith
Step-IsCalm (by_thread (free_old r e)) c = ground arith
Step-IsCalm (by_thread (store r e)) c = ground arith
Step-IsCalm (by_thread (post r e p)) c = ground arith
Step-IsCalm (by_thread (post_fails r e p)) c = ground arith

quiet-IsCalm : {s : Shared} → IsQuiet s → IsCalm s
quiet-IsCalm q =
    let c = q.unused in
    let l = q.listens in let e = q.empty in let u = q.unposted in let o = q.settled in ground arith

pub Reach-IsCalm : {s t : Shared} → Reach true s t → IsQuiet s → IsCalm t
Reach-IsCalm here q = quiet-IsCalm q
Reach-IsCalm (next run st) q = Step-IsCalm st (Reach-IsCalm run q)
