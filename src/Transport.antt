-- ===== src/Transport.antt =====
-- The transport interface `transport_t` of src/io4edge_internal.h: a table of functions over a
-- handle, which `Socket` fills and the function block client calls. `none` is a call that does not
-- return.
use io4edge_client_c.Base.{ℕ, Option, List}
use io4edge_client_c.Err.{Err}

pub record Transport (S : Type 0) : Type 0 where
  pub write_msg : S → List ℕ → ℕ → Option (Err × S)
  pub read_msg : S → ℕ → Option (Err × List ℕ × S)
  pub get_write_offset : S → ℕ
