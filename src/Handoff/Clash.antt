-- ===== src/Handoff/Clash.antt =====
-- A wait that times out: the response that comes late meets the next command's.
use io4edge_client_c.Base.{ap, ℕ, ◌<◌, ◌≡◌, refl, true, false, none, some, arith}
use io4edge_client_c.Handoff.{
  waiting, holding, listening, Shared, by_caller, by_thread, lock, send, wake, time_out, fetch,
  clear_slot, unlock, receive, find_full, find_empty, free_old, store, post, Reach, here, next,
  IsQuiet, IsSound,
}

-- One command gives up, the next one is under way, and the first one's response is in the slot.
IsLate : Shared → Type 0
IsLate s =
    (s.caller ≡ waiting)
    × (s.reader ≡ listening)
    × (s.sem ≡ 1)
    × (s.owed ≡ 1)
    × ((r : ℕ) × (s.slot ≡ some r) × (s.live r ≡ true) × (r < s.next))

late : (s : Shared) → IsQuiet s → (t : Shared) × Reach false s t × IsLate t
unfolding IsLate
late s q =
    let out = q.unused in
    let l = q.listens in
    let e = q.empty in
    let u = q.unposted in
    let o = q.settled in
    let r1 : Reach false s _ = next here (by_caller (lock out)) in
    let r2 : Reach false s _ = next r1 (by_caller (send refl)) in
    let r3 : Reach false s _ = next r2 (by_caller (time_out refl refl u)) in
    let r4 : Reach false s _ = next r3 (by_caller (unlock refl)) in
    let r5 : Reach false s _ = next r4 (by_caller (lock refl)) in
    let r6 : Reach false s _ = next r5 (by_caller (send refl)) in
    let r7 : Reach false s _ = next r6 (by_thread (receive l (ground arith))) in
    let r8 : Reach false s _ = next r7 (by_thread (find_empty s.next refl e)) in
    let r9 : Reach false s _ = next r8 (by_thread (store s.next refl)) in
    let r10 : Reach false s _ = next r9 (by_thread (post s.next refl (ground arith))) in
    (_, r10, (refl, refl, ground arith, ground arith, (s.next, refl, ground arith, ground arith)))

-- The caller has taken a response that is freed, and the one to its command is lost.
pub IsClash : Shared → Type 0
IsClash s =
    (s.reader ≡ listening)
    × (s.slot ≡ none)
    × ((freed : ℕ) × (s.caller ≡ holding (some freed)) × (s.live freed ≡ false))
    × ((lost : ℕ) × (s.live lost ≡ true))

clash : (s : Shared) → IsLate s → (t : Shared) × Reach false s t × IsClash t
unfolding IsLate IsClash
clash s (w, l, z, o, (r, e, v, lt)) =
    let r1 : Reach false s _ = next here (by_caller (wake w (ground arith))) in
    let r2 : Reach false s _ = next r1 (by_caller (fetch refl)) in
    let r3 : Reach false s _ = next r2 (by_thread (receive l (ground arith))) in
    let r4 : Reach false s _ = next r3 (by_thread (find_full s.next r refl e)) in
    let r5 : Reach false s _ = next r4 (by_thread (free_old s.next refl)) in
    let r6 : Reach false s _ = next r5 (by_thread (store s.next refl)) in
    let r7 : Reach false s _ = next r6 (by_thread (post s.next refl (ground arith))) in
    let r8 : Reach false s _ = next r7 (by_caller (clear_slot s.slot refl)) in
    (_, r8, (refl, refl, (r, ap holding e, ground arith), (s.next, ground arith)))

Reach-trans : {s t u : Shared} → Reach false s t → Reach false t u → Reach false s u
Reach-trans run here = run
Reach-trans run (next more st) = next (Reach-trans run more) st

-- From every quiet state, if waits may time out, a state can be reached in which the caller has taken
-- from the slot a response that the read thread has freed, while a live response is left that neither
-- the slot nor a thread holds; so what the caller reads next is not live.
pub timeout-IsClash :
    (s : Shared) → IsQuiet s → (t : Shared) × Reach false s t × IsClash t × (¬ IsSound t)
unfolding IsClash
timeout-IsClash s q =
    let (t, to_t, is_late) = late s q in
    let (u, to_u, is_clash) = clash t is_late in
    let (l, e, (r, h, dead), lost) = is_clash in
    (u, Reach-trans to_t to_u, is_clash, λ sound. let ok = sound.caller_safe r h in ground arith)
