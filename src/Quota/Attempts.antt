-- ===== src/Quota/Attempts.antt =====
-- The authentication attempts of an address in crates/asp-server/src/main.rs: `auth_attempt_allowed`,
-- `record_auth_failure` and `record_auth_success`, where authentication is required. An `Instant` is its
-- number of nanoseconds, an address is a number. The counters of the metrics are left out.
pub mod Table
pub mod Deeds
pub mod Lockout
mod Tests
use asp.Base.{
  ℕ, ◌+◌, ◌-◌, Bool, true, false, not, ◌&&◌, ◌||◌, Option, none, some, List, [], ◌∷◌, length, min,
  ltb, leb, if◌then◌else◌, u32_max,
}
use asp.Base.Keys.{Map, lookup, insert, remove, retain, uuid_key}

-- sixty seconds
abbrev pub auth_failure_window : ℕ
auth_failure_window = 60000000000

abbrev pub auth_failure_limit : ℕ
auth_failure_limit = 32

-- thirty seconds
abbrev pub auth_failure_block : ℕ
auth_failure_block = 30000000000

abbrev pub max_auth_failure_sources : ℕ
max_auth_failure_sources = 4096

pub record AuthFailureWindow : Type 0 where
  pub started : ℕ
  pub failures : ℕ
  pub blocked_until : Option ℕ

-- blocked_until.is_some_and(|until| until > now)
abbrev pub is_blocked : ℕ → Option ℕ → Bool
is_blocked now none = false
is_blocked now (some until) = ltb now until

-- blocked_until.is_some_and(|until| until <= now)
abbrev pub was_blocked : ℕ → Option ℕ → Bool
was_blocked now none = false
was_blocked now (some until) = leb until now

abbrev pub new_window : ℕ → AuthFailureWindow
new_window now = record { started = now; failures = 0; blocked_until = none }

unfoldable pub is_kept : ℕ → AuthFailureWindow → Bool
is_kept now w = is_blocked now w.blocked_until || ltb (now - w.started) auth_failure_window

-- The window is started anew where its block or its time is over.
unfoldable pub renewed : ℕ → AuthFailureWindow → AuthFailureWindow
renewed now w =
    if was_blocked now w.blocked_until || leb auth_failure_window (now - w.started)
    then new_window now
    else w

-- The first of the addresses whose window started earliest.
unfoldable pub oldest : Map ℕ AuthFailureWindow → Option (ℕ × ℕ)
oldest [] = none
oldest ((address, w) ∷ windows) = elim (oldest windows) [
  | none ↦ some (address, w.started)
  | some (other, started) ↦
      if ltb started w.started then some (other, started) else some (address, w.started)
]

unfoldable pub make_room : Map ℕ AuthFailureWindow → Map ℕ AuthFailureWindow
unfolding oldest
make_room windows =
    if leb max_auth_failure_sources (length windows)
    then elim (oldest windows) [ none ↦ windows | some (address, started) ↦ remove windows address ]
    else windows

-- The live windows, with one for the address, and that one.
unfoldable pub with_source :
    ℕ → Map ℕ AuthFailureWindow → ℕ → Map ℕ AuthFailureWindow × AuthFailureWindow
unfolding is_kept make_room
with_source now windows source =
    let live = retain (λ _ w. is_kept now w) windows in
    elim (lookup live source) [
      | some w ↦ (live, w)
      | none ↦ (insert (make_room live) source (new_window now), new_window now)
    ]

-- The new table, and whether the attempt is allowed.
unfoldable pub auth_attempt_allowed :
    ℕ → Map ℕ AuthFailureWindow → ℕ → Map ℕ AuthFailureWindow × Bool
unfolding with_source renewed
auth_attempt_allowed now windows source =
    let opened = with_source now windows source in
    let w = renewed now opened.1 in
    if is_blocked now opened.1.blocked_until
    then (opened.0, false)
    else if leb auth_failure_limit w.failures
    then (
      insert opened.0 source (record w { blocked_until = some (now + auth_failure_block) }),
      false,
    )
    else (insert opened.0 source w, true)

-- One more failure, saturating as a `u32`.
unfoldable pub failed_once : ℕ → AuthFailureWindow → AuthFailureWindow
failed_once now w =
    let failures = min (w.failures + 1) u32_max in
    if leb auth_failure_limit failures
    then record w { failures = failures; blocked_until = some (now + auth_failure_block) }
    else record w { failures = failures }

unfoldable pub record_auth_failure : ℕ → Map ℕ AuthFailureWindow → ℕ → Map ℕ AuthFailureWindow
unfolding with_source renewed failed_once
record_auth_failure now windows source =
    let opened = with_source now windows source in
    insert opened.0 source (failed_once now (renewed now opened.1))

unfoldable pub record_auth_success : Map ℕ AuthFailureWindow → ℕ → Map ℕ AuthFailureWindow
record_auth_success windows source = remove windows source
