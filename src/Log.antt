-- ===== src/Log.antt =====
-- Log lines: the macros of src/logging.h, `io4e_log_write` of src/logging.c and `io4e_log_timestamp` of
-- src/unix/logging.c. `vprintf` is a parameter.
mod Tests
use io4edge_client_c.Base.{
  ℕ, ◌+◌, ◌*◌, ◌/◌, ◌^◌, ◌<◌, ◌≤◌, ◌≡◌, ◌≢◌, ◌⊎◌, inl, inr, refl, Bool, true, Option, none, some,
  List, [], ◌∷◌, ◌++◌, append_assoc, ltb, leb, if◌then◌else◌, text, Bool-cases, ltb→lt, sym, ap,
  ◌∙◌, arith,
}

-- `io4e_log_level_t`, with the numbers of its constants.
pub data LogLevel : Type 0 where
  log_none log_error log_warn log_info log_debug : LogLevel

abbrev pub number : LogLevel → ℕ
number log_none = 0
number log_error = 1
number log_warn = 2
number log_info = 3
number log_debug = 4

-- LOG_LOCAL_LEVEL
abbrev pub log_local_level : LogLevel
log_local_level = log_info

-- LOG_COLOR
abbrev pub log_color : List ℕ → List ℕ
log_color color = 27 ∷ text "[0;" ++ color ++ text "m"

-- LOG_FORMAT, with the color of the letter: none for D.
abbrev pub log_format : (color letter format : List ℕ) → List ℕ
log_format color letter format =
    color ++ letter ++ text " (%u) %s: " ++ (format ++ (27 ∷ text "[0m" ++ 10 ∷ []))

-- A call of `io4e_log_write`; the timestamp and the tag are its first two arguments behind the
-- format, and those of the caller follow.
pub record LogWrite : Type 0 where
  pub level : LogLevel
  pub tag : List ℕ
  pub format : List ℕ
  pub timestamp : ℕ

-- IO4E_LOG_LEVEL
unfoldable pub log_level : LogLevel → (tag format : List ℕ) → ℕ → LogWrite
log_level log_error tag format now = record {
  level = log_error;
  tag = tag;
  format = log_format (log_color (text "31")) (text "E") format;
  timestamp = now;
}
log_level log_warn tag format now = record {
  level = log_warn;
  tag = tag;
  format = log_format (log_color (text "33")) (text "W") format;
  timestamp = now;
}
log_level log_debug tag format now = record {
  level = log_debug;
  tag = tag;
  format = log_format [] (text "D") format;
  timestamp = now;
}
log_level _ tag format now = record {
  level = log_info;
  tag = tag;
  format = log_format (log_color (text "32")) (text "I") format;
  timestamp = now;
}

-- io4e_log_write and io4e_log_writev: neither the level nor the tag of the call is looked at.
abbrev pub log_write :
    {A : Type 0} → (vprintf : (format : List ℕ) (now : ℕ) (tag : List ℕ) → A) → LogWrite → A
log_write vprintf w = vprintf w.format w.timestamp w.tag

-- IO4E_LOG_LEVEL_LOCAL; `none` where nothing is written.
unfoldable pub log_level_local : LogLevel → (tag format : List ℕ) → ℕ → Option LogWrite
log_level_local level tag format now =
    if leb (number level) (number log_local_level)
    then some (log_level level tag format now)
    else none

-- IO4E_LOGE, IO4E_LOGW, IO4E_LOGI and IO4E_LOGD. IO4E_LOGV names a level that does not exist.
abbrev pub loge : (tag format : List ℕ) → ℕ → Option LogWrite
loge = log_level_local log_error

abbrev pub logw : (tag format : List ℕ) → ℕ → Option LogWrite
logw = log_level_local log_warn

abbrev pub logi : (tag format : List ℕ) → ℕ → Option LogWrite
logi = log_level_local log_info

abbrev pub logd : (tag format : List ℕ) → ℕ → Option LogWrite
logd = log_level_local log_debug

-- `io4e_log_timestamp` where `clock_gettime` gives `sec` and `nsec`, or fails (`none`). The sum is a `double`, exact
-- enough below 2 ^ 33 that its integer part is that of the true sum; `none` as the answer: its conversion to `uint32_t`
-- is undefined.
unfoldable pub log_timestamp : Option (ℕ × ℕ) → Option ℕ
log_timestamp none = some 0
log_timestamp (some (sec, nsec)) =
    let ms = sec * 1000 + nsec / 10 ^ 6 in if ltb ms (2 ^ 32) then some ms else none

-- Debug lines are the only ones that are not written. A line that is written carries the tag and the time, and the
-- caller's format between what is put in front of it and behind it.
pub log_level_local_lem :
    (level : LogLevel) (tag format : List ℕ) (now : ℕ)
    → (level ≡ log_debug) × (log_level_local level tag format now ≡ none)
      ⊎ (level ≢ log_debug)
        × ((w : LogWrite) × (log_level_local level tag format now ≡ some w)
            × (w.tag ≡ tag)
            × (w.timestamp ≡ now)
            × ((front : List ℕ) × (back : List ℕ) × (w.format ≡ front ++ (format ++ back))))
unfolding log_level_local log_level
log_level_local_lem log_debug tag format now = inl (refl, refl)
log_level_local_lem log_none tag format now = inr (
  λ e. cc,
  (
    _,
    refl,
    refl,
    refl,
    (log_color (text "32") ++ text "I (%u) %s: ", 27 ∷ text "[0m" ++ 10 ∷ [], refl),
  ),
)
log_level_local_lem log_error tag format now = inr (
  λ e. cc,
  (
    _,
    refl,
    refl,
    refl,
    (log_color (text "31") ++ text "E (%u) %s: ", 27 ∷ text "[0m" ++ 10 ∷ [], refl),
  ),
)
log_level_local_lem log_warn tag format now = inr (
  λ e. cc,
  (
    _,
    refl,
    refl,
    refl,
    (log_color (text "33") ++ text "W (%u) %s: ", 27 ∷ text "[0m" ++ 10 ∷ [], refl),
  ),
)
log_level_local_lem log_info tag format now = inr (
  λ e. cc,
  (
    _,
    refl,
    refl,
    refl,
    (log_color (text "32") ++ text "I (%u) %s: ", 27 ∷ text "[0m" ++ 10 ∷ [], refl),
  ),
)

-- With `nsec` below 10 ^ 9, and up to 4294966 seconds, some 49 days, the timestamp is the time in full milliseconds.
-- A second and a half later, from 4294968 seconds on, it is undefined.
pub log_timestamp_lem :
    (sec nsec : ℕ)
    → nsec < 10 ^ 9
    → (log_timestamp (some (sec, nsec)) ≡ some ((sec * 10 ^ 9 + nsec) / 10 ^ 6)) × (sec < 4294968)
      ⊎ (log_timestamp (some (sec, nsec)) ≡ none) × (4294967 ≤ sec)
unfolding log_timestamp
log_timestamp_lem sec nsec small = elim (Bool-cases (ltb (sec * 1000 + nsec / 10 ^ 6) (2 ^ 32))) [
  | inl fits ↦
      let early : sec * 1000 + nsec / 10 ^ 6 < 2 ^ 32 = ltb→lt _ _ fits in
      let whole : (sec * 10 ^ 9 + nsec) / 10 ^ 6 ≡ sec * 1000 + nsec / 10 ^ 6 = omega arith in
      inl (rw (fits, whole) refl, omega arith)
  | inr full ↦ inr (rw full refl, ground arith)
]
