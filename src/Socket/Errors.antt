-- ===== src/Socket/Errors.antt =====
-- The error branches of `read_msg`: what they return, and what they leave on the connection.
use io4edge_client_c.Base.{
  ℕ, suc, ◌+◌, ◌-◌, ◌<◌, ◌≡◌, refl, ap, ◌∙◌, true, false, Bool, some, List, [], ◌∷◌, ◌++◌, length,
  arith, leb, ◌==◌, if◌then◌else◌,
}
use io4edge_client_c.Base.Int.{pos, eq_ℤ}
use io4edge_client_c.Err.{Err, err_timeout, err_connection_closed}
use io4edge_client_c.Socket.{
  Arrival, segment, closed, failing, Socket, eagain, fstream_header_size, read_complete, behind,
  select, read_frame, read_msg,
}
use io4edge_client_c.Socket.Read.{stream, stream-select}

-- Bytes that arrive in pieces, none of them empty, each given as its first byte and the others.
abbrev pub pieces : List (ℕ × List ℕ) → List Arrival → List Arrival
pieces [] inc = inc
pieces ((x, xs) ∷ ps) inc = segment x xs ∷ pieces ps inc

abbrev pub total : List (ℕ × List ℕ) → ℕ
total [] = 0
total ((x, xs) ∷ ps) = length (x ∷ xs) + total ps

-- How a read ends before it is complete: the code, and what is left to come.
pub data Break : Type 0 where
  at_close : List Arrival → Break
  at_errno : ℕ → List Arrival → Break

abbrev pub broken : Break → List Arrival
broken (at_close rest) = closed ∷ rest
broken (at_errno n rest) = failing n ∷ rest

-- The result of a `read_complete` that got the bytes `got`, which count on success only.
abbrev pub outcome : Break → List ℕ → Err × List ℕ × List Arrival
outcome (at_close rest) got = (err_connection_closed, got, closed ∷ rest)
outcome (at_errno n rest) got = (pos (suc n), got, rest)

abbrev pub bytes : List (ℕ × List ℕ) → List ℕ
bytes [] = []
bytes ((x, xs) ∷ ps) = (x ∷ xs) ++ bytes ps

behind-outcome :
    (b : Break) (xs got : List ℕ) → behind xs (some (outcome b got)) ≡ some (outcome b (xs ++ got))
behind-outcome (at_close rest) xs got = refl
behind-outcome (at_errno n rest) xs got = refl

pub read_complete_cut :
    (len : ℕ) (ps : List (ℕ × List ℕ)) (b : Break)
    → total ps < len
    → read_complete len (pieces ps (broken b)) ≡ some (outcome b (bytes ps))
unfolding read_complete
read_complete_cut len [] (at_close rest) h = ground arith
read_complete_cut len [] (at_errno n rest) h = ground arith
read_complete_cut len ((x, xs) ∷ ps) b h =
    let later = read_complete_cut (len - length (x ∷ xs)) ps b (omega arith) in
    let wanted : (len == 0) ≡ false = ground arith in
    let fits : leb (length (x ∷ xs)) len ≡ true = ground arith in
    rw (wanted, fits, later) (behind-outcome b (x ∷ xs) (bytes ps))

select-pieces :
    (t : ℕ) (ps : List (ℕ × List ℕ)) (b : Break)
    → select t (pieces ps (broken b)) ≡ (true, pieces ps (broken b))
unfolding select
select-pieces t [] (at_close rest) = refl
select-pieces t [] (at_errno n rest) = refl
select-pieces t ((x, xs) ∷ ps) b = refl

-- `read_msg` on a header that is cut off.
read_msg_cut :
    (malloc : ℕ → Bool) (h : Socket) (t : ℕ) (ps : List (ℕ × List ℕ)) (b : Break)
    → h.incoming ≡ pieces ps (broken b)
    → total ps < fstream_header_size
    → let (e, got, rest) = outcome b (bytes ps) in
      read_msg malloc h t
      ≡ some (
        (if eq_ℤ e err_connection_closed
            then err_connection_closed
            else if eq_ℤ e (pos eagain)
            then err_timeout
            else e),
        [],
        record h { incoming = rest },
      )
unfolding read_msg read_frame
read_msg_cut malloc h t ps (at_close rest) e short =
    let ready = ap (select t) e ∙ select-pieces t ps (at_close rest) in
    let cut = read_complete_cut fstream_header_size ps (at_close rest) short in rw (ready, cut)
read_msg_cut malloc h t ps (at_errno n rest) e short =
    let ready = ap (select t) e ∙ select-pieces t ps (at_errno n rest) in
    let cut = read_complete_cut fstream_header_size ps (at_errno n rest) short in ground arith

-- The code for an errno n + 1 in the header: the errno itself, but for EAGAIN.
abbrev pub reported : ℕ → Err
reported n = if suc n == eagain then err_timeout else pos (suc n)

-- If the peer closes before six bytes of a header have come, `read_msg` returns
-- IO4E_ERR_CONNECTION_CLOSED without a payload, and so does another call after it, which leaves the same
-- socket again.
pub read_msg_closed :
    (malloc : ℕ → Bool) (h : Socket) (t : ℕ) (ps : List (ℕ × List ℕ)) (rest : List Arrival)
    → h.incoming ≡ pieces ps (closed ∷ rest)
    → total ps < fstream_header_size
    → let h' = record h { incoming = closed ∷ rest } in
      (read_msg malloc h t ≡ some (err_connection_closed, [], h'))
      × (read_msg malloc h' t ≡ some (err_connection_closed, [], h'))
read_msg_closed malloc h t ps rest e short = (
  read_msg_cut malloc h t ps (at_close rest) e short,
  read_msg_cut malloc (record h { incoming = closed ∷ rest }) t [] (at_close rest) refl
      (omega arith),
)

-- If a `read` fails before six bytes of a header have come, `read_msg` returns the errno as its code,
-- but IO4E_ERR_TIMEOUT for EAGAIN; the bytes that had come are gone.
pub read_msg_failing :
    (malloc : ℕ → Bool) (h : Socket) (t n : ℕ) (ps : List (ℕ × List ℕ)) (rest : List Arrival)
    → h.incoming ≡ pieces ps (failing n ∷ rest)
    → total ps < fstream_header_size
    → read_msg malloc h t ≡ some (reported n, [], record h { incoming = rest })
read_msg_failing malloc h t n ps rest e short =
    read_msg_cut malloc h t ps (at_errno n rest) e short ∙ ground arith

-- A `read_msg` on a connection that is not readable in time returns IO4E_ERR_TIMEOUT, and no byte is lost.
read_msg_quiet :
    (malloc : ℕ → Bool) (h : Socket) (t : ℕ)
    → (select t h.incoming).0 ≡ false
    → (h' : Socket) × (read_msg malloc h t ≡ some (err_timeout, [], h'))
      × (stream h'.incoming ≡ stream h.incoming)
unfolding read_msg
read_msg_quiet malloc h t late =
    (record h { incoming = (select t h.incoming).1 }, ground arith, stream-select t h.incoming)
