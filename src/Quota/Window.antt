-- ===== src/Quota/Window.antt =====
-- The byte budgets of crates/asp-server/src/main.rs: `admit_request_bytes_for_owner` and
-- `admit_response_bytes`. They keep tables of one shape, which `admit_bytes` is written for once. An
-- `Instant` is its number of nanoseconds. The counters of the metrics are left out.
pub mod Ledger
pub mod Budget
use asp.Base.{
  ℕ, ◌+◌, ◌-◌, ◌*◌, ◌≡◌, refl, ap, ap₂, Bool, true, false, ◌&&◌, Option, none, some, List, [], ◌∷◌,
  length, ltb, leb, bytes_eq, if◌then◌else◌, saturating_add, Result, ok, err, ◌↔◌, bytes_eq_iff,
  arith,
}
use asp.Base.Keys.{Key, Map, lookup, insert, retain, string_key}
use asp.Event.{Bytes}

-- sixty seconds
abbrev pub principal_request_byte_window : ℕ
principal_request_byte_window = 60000000000

abbrev pub max_principal_byte_budget_keys : ℕ
max_principal_byte_budget_keys = 8192

pub record ByteBudgetWindow : Type 0 where
  pub started : ℕ
  pub bytes : ℕ

pub data QuotaError : Type 0 where
  table_full over_budget missing_entry : QuotaError

-- now.duration_since(window.started) < PRINCIPAL_REQUEST_BYTE_WINDOW
unfoldable pub is_open : ℕ → ByteBudgetWindow → Bool
is_open now w = ltb (now - w.started) principal_request_byte_window

-- The window is started anew where it has ended.
unfoldable pub current : ℕ → ByteBudgetWindow → ByteBudgetWindow
unfolding is_open
current now w = if is_open now w then w else record { started = now; bytes = 0 }

module _ {K : Type 0} ⦃k : Key K⦄ where
  -- The table with an entry for the key, unless it is full.
  unfoldable pub with_entry : ℕ → Map K ByteBudgetWindow → K → Option (Map K ByteBudgetWindow)
  with_entry now windows key = elim (lookup windows key) [
    | some w ↦ some windows
    | none ↦
        if leb max_principal_byte_budget_keys (length windows)
        then none
        else some (insert windows key (record { started = now; bytes = 0 }))
  ]

  unfoldable pub charge :
      ℕ
      → Map K ByteBudgetWindow
      → K
      → ByteBudgetWindow
      → ℕ
      → Map K ByteBudgetWindow × Result QuotaError (Unit {0})
  charge limit windows key w bytes =
      if ltb limit (saturating_add w.bytes bytes)
      then (insert windows key w, err over_budget)
      else (insert windows key (record w { bytes = saturating_add w.bytes bytes }), ok tt)

  -- `.expect` on a missing entry would panic.
  unfoldable pub admit_bytes :
      ℕ → ℕ → Map K ByteBudgetWindow → K → ℕ → Map K ByteBudgetWindow × Result QuotaError (Unit {0})
  unfolding is_open with_entry current charge
  admit_bytes limit now windows key bytes =
      let live = retain (λ _ w. is_open now w) windows in
      elim (with_entry now live key) [
        | none ↦ (live, err table_full)
        | some opened ↦ elim (lookup opened key) [
          | none ↦ (opened, err missing_entry)
          | some w ↦ charge limit opened key (current now w) bytes
        ]
      ]

-- The request budgets are kept for each owner and operation.
abbrev pub both_eq : Bytes × Bytes → Bytes × Bytes → Bool
both_eq a b = bytes_eq a.0 b.0 && bytes_eq a.1 b.1

pub both_eq_iff : (a b : Bytes × Bytes) → (both_eq a b ≡ true) ↔ (a ≡ b)
both_eq_iff (a, b) (c, d) = (
  λ h.
      ap₂ (λ x y. (x, y)) ((bytes_eq_iff a c).0 (ground arith))
        ((bytes_eq_iff b d).0 (ground arith)),
  λ e.
      let first = (bytes_eq_iff a c).1 (ap (λ x. x.0) e) in
      let second = (bytes_eq_iff b d).1 (ap (λ x. x.1) e) in ground (arith, first, second),
)

instance abbrev pub operation_key : Key (Bytes × Bytes)
operation_key = record { key_eq = both_eq; key_eq_iff = both_eq_iff }

unfoldable pub admit_request_bytes_for_owner :
    ℕ
    → ℕ
    → Map (Bytes × Bytes) ByteBudgetWindow
    → Bytes
    → Bytes
    → ℕ
    → Map (Bytes × Bytes) ByteBudgetWindow × Result QuotaError (Unit {0})
unfolding admit_bytes
admit_request_bytes_for_owner limit now windows owner operation bytes =
    admit_bytes limit now windows (owner, operation) bytes

unfoldable pub admit_response_bytes :
    ℕ
    → ℕ
    → Map Bytes ByteBudgetWindow
    → Bytes
    → ℕ
    → Map Bytes ByteBudgetWindow × Result QuotaError (Unit {0})
unfolding admit_bytes
admit_response_bytes limit now windows owner bytes = admit_bytes limit now windows owner bytes
