-- ===== src/Client/Wrap.antt =====
-- The command context: the character that a command carries and a response must repeat.
use io4edge_client_c.Base.{ℕ, zero, suc, ◌+◌, ◌*◌, ◌%◌, ◌≡◌, ◌≢◌, arith}
use io4edge_client_c.Client.{next_char, advance_context}

-- The context after `n` commands that each got the response that fits, from the context `c` on.
-- A command steps the context twice: before it is sent, and on the response.
pub context_after : ℕ → ℕ → ℕ
context_after c zero = c
context_after c (suc n) = advance_context (next_char (context_after c n))

-- From the initial context 'A', 65, after `n` commands that each got their response the next one is
-- sent with the character 66 + 2 n, modulo 256; and the step after its response never finds 'Z', so
-- the context is never set back to 'A'.
pub context_never_reset :
    (n : ℕ)
    → (context_after b'A' n ≡ (65 + 2 * n) % 256)
      × (next_char (context_after b'A' n) ≡ (66 + 2 * n) % 256)
      × (next_char (next_char (context_after b'A' n)) ≢ b'Z')
unfolding context_after
context_never_reset zero = ground arith
context_never_reset (suc n) = ground (arith, context_never_reset n)
