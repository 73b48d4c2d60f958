-- ===== src/Client/Codes.antt =====
-- The mapping of function block statuses to return codes: `map_fb_error` of src/functionblock.c.
use io4edge_client_c.Base.{ℕ, ◌≡◌, ◌⊎◌, ◌↔◌, inl, inr, refl, arith}
use io4edge_client_c.Err.{ok}
use io4edge_client_c.Proto.{Status, status_ok, other_status}
use io4edge_client_c.Client.{map_fb_error}

-- IO4E_OK is returned for the status OK alone.
pub map_fb_error-ok : (s : Status) → (map_fb_error s ≡ ok) ↔ (s ≡ status_ok)
unfolding map_fb_error
map_fb_error-ok s = ground arith

-- No two statuses share a code, but those that the client does not know share IO4E_ERR_FB_UNKNOWN.
map_fb_error_injective :
    (s t : Status)
    → map_fb_error s ≡ map_fb_error t
    → (s ≡ t) ⊎ ((n : ℕ) × (m : ℕ) × (s ≡ other_status n) × (t ≡ other_status m))
unfolding map_fb_error
map_fb_error_injective (other_status n) (other_status m) h = inr (n, m, refl, refl)
map_fb_error_injective s t h = inl (ground arith)
