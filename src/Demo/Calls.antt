-- ===== src/Demo/Calls.antt =====
-- What a call of the library leaves, for a program that accounts for its messages.
use io4edge_client_c.Base.{
  ℕ, ◌+◌, ◌≡◌, ◌⊎◌, inl, inr, refl, true, false, Option, none, some, List, [], ◌∷◌, arith,
}
use io4edge_client_c.Err.{Err, is_ok}
use io4edge_client_c.Exec.{Exec, returns, hangs, fault}
use io4edge_client_c.Transport.{Transport}
use io4edge_client_c.Proto.{StreamData, Codec, Unpack}
use io4edge_client_c.Client.{Client, Around}
use io4edge_client_c.Client.Ledger.{IsBalanced, run_thread-IsBalanced}
use io4edge_client_c.Functionblock
use io4edge_client_c.Session.{Account}
use io4edge_client_c.Session.Accounts.{
  ReadCase, timed_out, lost_one, handed_one, ReadCase-read_stream, IsBalanced-ReadCase,
}
use io4edge_client_c.Functionblock.{Answer, Plain, request, order}
use io4edge_client_c.Functionblock.Requests.{request-IsBalanced, order-IsBalanced}
use io4edge_client_c.Blocks.{value_of}
use io4edge_client_c.Proto.{Any, CommandType, ResponseType}
use io4edge_client_c.Demo.{
  Turn, Run, hold, before, ask, fetch, tell, read_stream, take_turn, paired, untimed,
}
use io4edge_client_c.Demo.Ensures.{
  Ensures, >>=-Ensures, some-Ensures, turn_steps, Owes, Settles, weaken, pure-Ensures, count,
  ReadDone,
}

module _ {S : Type 0} (codec : Codec) (tr : Transport S) where
  before-IsBalanced :
      (out k : ℕ) (turn : Turn) (turns : List Turn) (h : Client S)
      → IsBalanced out (turn_steps (turn ∷ turns) + k) h
      → IsBalanced out
          (turn.around.wait_steps + turn.around.take_steps + (turn_steps turns + k))
          (before codec tr turn h)
  before-IsBalanced out k turn turns h b =
      run_thread-IsBalanced codec tr turn.around.time_size turn.around.now out turn.steps_before _ h
        (record { queue = b.queue; counts = omega (arith, b.counts); owned = b.owned })

module _ {S L : Type 0} {out values blocks k : ℕ} (codec : Codec) (tr : Transport S) where
  take_turn-Ensures :
      {R : Type 0} (op : Around → Client S → Exec (R × Client S)) {Q : R → ℕ → Type 0}
      → Settles op Q
      → Ensures {L = L}
          (Owes out values blocks k)
          (take_turn codec tr op)
          (λ a r. (more : ℕ) × Q a more × Owes (out + more) values blocks k r)
  unfolding take_turn
  take_turn-Ensures {R} op {Q} settles = record {
    holds = λ r o a r' eq. called r o a r' r.turns refl eq;
  }
    where
      came_back :
          (r : Run S L) (o : Owes out values blocks k r) (a : R) (r' : Run S L) (turn : Turn)
          (turns : List Turn)
          → r.turns ≡ turn ∷ turns
          → (e : Exec (R × Client S)) → op turn.around (before codec tr turn r.client) ≡ e
          → take_turn codec tr op r ≡ returns (a, r')
          → (more : ℕ) × Q a more × Owes (out + more) values blocks k r'
      came_back r o a r' turn turns t (returns (result, h)) c eq =
          let same : r' ≡ record r { client = h; turns = turns } = ground arith in
          let given : a ≡ result = ground arith in
          let b = before-IsBalanced codec tr out k turn turns r.client (rw t at o.balanced) in
          let (more, q, after) =
            settles.settles turn.around out (turn_steps turns + k) _ result h c b in
          rw (given, same)
            (more, q, record { balanced = after; unpacked = o.unpacked; allocated = o.allocated })
      came_back r o a r' turn turns t hangs c eq = absurd (ground arith)
      came_back r o a r' turn turns t fault c eq = absurd (ground arith)

      called :
          (r : Run S L)
          → Owes out values blocks k r
          → (a : R) → (r' : Run S L) → (ts : List Turn) → r.turns ≡ ts
          → take_turn codec tr op r ≡ returns (a, r')
          → (more : ℕ) × Q a more × Owes (out + more) values blocks k r'
      called r o a r' [] t eq = absurd (ground arith)
      called r o a r' (turn ∷ turns) t eq = came_back r o a r' turn turns t _ refl eq

-- How many messages a read leaves to the program or to nobody.
unfoldable pub ReadMore : {V : Type 0} → Err × Option V → ℕ → Type 0
ReadMore (e, none) more = (is_ok e ≡ false) × ((more ≡ 0) ⊎ (more ≡ 1))
ReadMore (e, some x) more = (is_ok e ≡ true) × (more ≡ 1)

paired-eq :
    {A B C : Type 0} (e : Exec (A × B × C)) {p : A × B} {c : C}
    → paired e ≡ returns (p, c)
    → e ≡ returns (p.0, p.1, c)
paired-eq (returns (a, b, d)) eq = ground arith
paired-eq hangs eq = absurd (ground arith)
paired-eq fault eq = absurd (ground arith)

as_before :
    {S L : Type 0} {out values blocks k : ℕ} (r : Run S L)
    → (more : ℕ) × (more ≡ 0) × Owes (out + more) values blocks k r
    → Owes out values blocks k r
as_before r (more, none_more, o) =
    let b = o.balanced in
    record {
      balanced = record { queue = b.queue; counts = b.counts; owned = omega (arith, b.owned) };
      unpacked = o.unpacked;
      allocated = o.allocated;
    }

-- None more.
settled : {S : Type 0} (out n : ℕ) (h : Client S) → IsBalanced out n h → IsBalanced (out + 0) n h
settled out n h b = record { queue = b.queue; counts = b.counts; owned = omega (arith, b.owned) }

untimed-eq :
    {A B C T : Type 0} (e : Exec (A × B × C × T)) {p : A × B} {c : C}
    → untimed e ≡ returns (p, c)
    → (t : T) × (e ≡ returns (p.0, p.1, c, t))
untimed-eq (returns (a, b, d, t)) eq = (t, ground arith)
untimed-eq hangs eq = absurd (ground arith)
untimed-eq fault eq = absurd (ground arith)

-- The getters leave the client of their request.
value_of-client :
    {S R V : Type 0} (member : R → Option V) (e : Answer S R) {err : Err} {v : Option V}
    {h : Client S}
    → value_of member e ≡ returns (err, v, h)
    → (code : Err) × (r : Option R) × (e ≡ returns (code, r, h))
unfolding value_of
value_of-client member (returns (code, r, g)) eq = (code, r, ground arith)
value_of-client member hangs eq = absurd (ground arith)
value_of-client member fault eq = absurd (ground arith)

module _ {S : Type 0} (codec : Codec) (tr : Transport S) where
  pub request-Settles :
      {V : Type 0} (type : CommandType) (member : ResponseType → Option Any)
      (unpack : Option (Unpack V))
      → Settles (λ w h. paired (request codec tr type member unpack w h)) (λ a more. more ≡ 0)
  request-Settles type member unpack = record {
    settles = λ w out n h a h' eq b. (
      0,
      refl,
      settled out n h'
          (request-IsBalanced codec tr type member unpack w out n h (paired-eq _ eq) b),
    );
  }

  pub value_of-Settles :
      {R V : Type 0} (pick : R → Option V) (type : CommandType) (member : ResponseType → Option Any)
      (unpack : Option (Unpack R))
      → Settles
          (λ w h. paired (value_of pick (request codec tr type member unpack w h)))
          (λ a more. more ≡ 0)
  value_of-Settles pick type member unpack = record {
    settles = λ w out n h a h' eq b.
        let (code, r, same) =
          value_of-client pick (request codec tr type member unpack w h) (paired-eq _ eq) in
        (
          0,
          refl,
          settled out n h' (request-IsBalanced codec tr type member unpack w out n h same b),
        );
  }

  pub order-Settles : (type : CommandType) → Settles (order codec tr type) (λ a more. more ≡ 0)
  order-Settles type = record {
    settles = λ w out n h a h' eq b.
        (0, refl, settled out n h' (order-IsBalanced codec tr type w out n h eq b));
  }

  ReadMore-case :
      {V : Type 0} {h h' : Client S} {e : Err} {x : Option (StreamData × V)} (out n : ℕ)
      → ReadCase h e x h'
      → IsBalanced out n h
      → (more : ℕ) × ReadMore (e, x) more × IsBalanced (out + more) n h'
  unfolding ReadMore
  ReadMore-case {h = h} out n timed_out b = (0, (refl, inl refl), settled out n h b)
  ReadMore-case {V} {h = h} out n (lost_one left) b =
      let at_first : Account S = record { client = h; handed = out; lost = 0 } in
      let after = IsBalanced-ReadCase {M = V} at_first (lost_one left) (settled out n h b) in
      (
        1,
        (refl, inr refl),
        record { queue = after.queue; counts = after.counts; owned = omega (arith, after.owned) },
      )
  ReadMore-case {h = h} out n (handed_one x left) b =
      let at_first : Account S = record { client = h; handed = out; lost = 0 } in
      let after = IsBalanced-ReadCase at_first (handed_one x left) (settled out n h b) in
      (
        1,
        (refl, refl),
        record { queue = after.queue; counts = after.counts; owned = omega (arith, after.owned) },
      )

  pub read-Settles :
      {V : Type 0} (unpack : Unpack V) (timeout : ℕ)
      → Settles {S = S}
          (λ w h. untimed (Functionblock.read_stream w.time_size unpack timeout w.now h))
          ReadMore
  read-Settles unpack timeout = record {
    settles = λ w out n h a h' eq b.
        let (t, same) =
          untimed-eq (Functionblock.read_stream w.time_size unpack timeout w.now h) eq in
        ReadMore-case out n (ReadCase-read_stream w.time_size unpack timeout w.now h same)
          (record { queue = b.queue; counts = omega (arith, b.counts); owned = b.owned });
  }

module _ {S L : Type 0} {out values blocks k : ℕ} (codec : Codec) (tr : Transport S) where
  -- A call that stores a plain value or nothing leaves the program with what it had.
  pub ask-Ensures :
      {V : Type 0} (op : Around → Client S → Answer S V)
      → Settles (λ w h. paired (op w h)) (λ a more. more ≡ 0)
      → Ensures {L = L} (Owes out values blocks k) (ask codec tr op) (λ a. Owes out values blocks k)
  unfolding ask
  ask-Ensures op settles = weaken (take_turn-Ensures codec tr _ settles) (λ a r q. as_before r q)

  pub tell-Ensures :
      (op : Around → Client S → Plain S)
      → Settles op (λ a more. more ≡ 0)
      → Ensures {L = L}
          (Owes out values blocks k)
          (tell codec tr op)
          (λ a. Owes out values blocks k)
  unfolding tell
  tell-Ensures op settles = weaken (take_turn-Ensures codec tr _ settles) (λ a r q. as_before r q)

  hold-Ensures :
      {V : Type 0} (x : Option V)
      → Ensures {S = S} {L = L}
          (Owes out values blocks k)
          (hold x)
          (λ u. Owes out (values + count x) blocks k)
  unfolding hold
  hold-Ensures none = record {
    holds = λ r o a r' eq.
        let same : r' ≡ r = ground arith in
        rw same (record {
          balanced = o.balanced;
          unpacked = omega (arith, o.unpacked);
          allocated = o.allocated;
        });
  }
  hold-Ensures (some v) = record {
    holds = λ r o a r' eq.
        let same : r' ≡ record r { values = r.values + 1 } = ground arith in
        rw same (record {
          balanced = o.balanced;
          unpacked = omega (arith, o.unpacked);
          allocated = o.allocated;
        });
  }

module _ {S L : Type 0} (out values blocks k : ℕ) where
  done :
      {V : Type 0} (a : Err × Option V) (more : ℕ) (r : Run S L)
      → ReadMore a more
      → Owes (out + more) (values + count a.1) blocks k r
      → ReadDone out values blocks k a r
  unfolding ReadMore ReadDone
  done (e, none) more r (bad, inl nothing) o = (bad, inl (ground arith))
  done (e, none) more r (bad, inr one) o = (bad, inr (ground arith))
  done (e, some x) more r (good, one) o = (good, ground arith)

module _ {S L : Type 0} {out values blocks k : ℕ} (codec : Codec) (tr : Transport S) where
  -- A call that hands out a message adds it to what the program holds.
  pub fetch-Ensures :
      {V : Type 0} (op : Around → Client S → Answer S V)
      → Settles (λ w h. paired (op w h)) (λ a more. more ≡ 0)
      → Ensures {L = L}
          (Owes out values blocks k)
          (fetch codec tr op)
          (λ a. Owes out (values + count a.1) blocks k)
  unfolding fetch
  fetch-Ensures op settles = >>=-Ensures (ask-Ensures codec tr op settles) (λ a.
      >>=-Ensures (hold-Ensures codec tr a.1) (λ u. weaken (pure-Ensures a) (λ b r q. rw q.0 q.1)))

  -- A read fails, and may have lost a message, or hands out one message with its value.
  pub read_stream-Ensures :
      {V : Type 0} (unpack : Unpack V) (timeout : ℕ)
      → Ensures {L = L}
          (Owes out values blocks k)
          (read_stream codec tr unpack timeout)
          (ReadDone out values blocks k)
  unfolding read_stream
  read_stream-Ensures unpack timeout =
      >>=-Ensures (take_turn-Ensures codec tr _ (read-Settles codec tr unpack timeout)) (λ a.
        some-Ensures (λ more how. >>=-Ensures (hold-Ensures codec tr a.1) (λ u.
          weaken (pure-Ensures a) (λ b r q. rw q.0 (done out values blocks k a more r how q.1)))))
