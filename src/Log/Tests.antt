-- ===== src/Log/Tests.antt =====
-- Log lines of every level, and timestamps around the 49 days that they have room for.
use io4edge_client_c.Base.{◌*◌, ◌+◌, ◌/◌, ◌^◌, ◌<◌, ◌≤◌, ◌≡◌, ◌⊎◌, refl, none, some, text, arith}
use io4edge_client_c.Log.{
  LogWrite, log_info, log_write, log_level, log_level_local, logi, logd, log_timestamp,
  log_timestamp_lem,
}

info_line :
    (w : LogWrite) × (logi (text "client") (text "up") 7 ≡ some w)
    × (log_write (λ format now tag. format) w
        ≡ log_write (λ format now tag. format) (log_level log_info (text "a") (text "up") 0))
unfolding log_level_local log_level
info_line = (_, refl, refl)

debug_line : logd (text "client") (text "up") 7 ≡ none
unfolding log_level_local
debug_line = refl

last_second : log_timestamp (some (4294967, 295999999)) ≡ some (4294967295)
unfolding log_timestamp
last_second = refl

log_timestamp_lem_example :
    (log_timestamp (some (4294967, 296000000)) ≡ some ((4294967 * 10 ^ 9 + 296000000) / 10 ^ 6))
      × (4294967 < 4294968)
    ⊎ (log_timestamp (some (4294967, 296000000)) ≡ none) × (4294967 ≤ 4294967)
log_timestamp_lem_example = log_timestamp_lem 4294967 296000000 (ground arith)
