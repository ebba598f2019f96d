-- ===== src/Quota/Tests.antt =====
-- Budgets and leases at concrete requests.
use asp.Base.{ℕ, ◌+◌, ◌≤◌, ◌≡◌, refl, some, List, [], ◌∷◌, arith}
use asp.Base.Keys.{lookup, insert, remove, retain, string_key, uuid_key}
use asp.Event.{Bytes}
use asp.Quota.Window.{
  is_open, with_entry, current, charge, admit_bytes, operation_key, principal_request_byte_window,
}
use asp.Quota.Window.Ledger.{Request, Ledger, admit_one, admit_all, spent}
use asp.Quota.Window.Budget.{admitted-Twice}
use asp.Quota.Slots.{SessionSlots, running_of, reserve, release, slots_after}
use asp.Quota.Slots.Bounded.{EachBounded, OwnersBounded, slots_after-Bounded}
use asp.Quota.Lease.{
  AuthPrincipal, Action, hello, revoked, closed, no_connections, act, act_all, or_new, guard,
  drop_guard, install_connection_principal, principal_identity_conflicts, install_lease,
  principal_connection_guard, max_active_connections_per_principal,
}
use asp.Quota.Lease.Table.{counted, leases}
use asp.Quota.Lease.Exact.{Bound, act_all_exact}

-- Owner 1 and operation 2, or operation 3.
abbrev uploads : ℕ → ℕ → Request (Bytes × Bytes)
uploads at size = record { at = at; key = (1 ∷ [], 2 ∷ []); size = size }

abbrev downloads : ℕ → ℕ → Request (Bytes × Bytes)
downloads at size = record { at = at; key = (1 ∷ [], 3 ∷ []); size = size }

-- Of the uploads, the second goes beyond the budget and the third opens a new window.
abbrev traffic : List (Request (Bytes × Bytes))
traffic =
    uploads 0 60
    ∷ downloads 5 90
    ∷ uploads 10 60
    ∷ uploads 59999999999 40
    ∷ uploads 60000000000 70
    ∷ []

abbrev ledger : Ledger (Bytes × Bytes)
ledger = admit_all 100 (record { windows = []; admitted = [] }) traffic

admitted-Twice_example :
    spent (1 ∷ [], 2 ∷ []) 59999999999 (59999999999 + principal_request_byte_window) ledger.admitted
    ≤ 100 + 100
admitted-Twice_example =
    admitted-Twice 100 (1 ∷ [], 2 ∷ []) traffic 59999999999 (omega arith)
      (omega arith, (omega arith, (omega arith, (omega arith, (omega arith, tt)))))

one_refused :
    ledger.admitted
    ≡ uploads 60000000000 70 ∷ uploads 59999999999 40 ∷ downloads 5 90 ∷ uploads 0 60 ∷ []
unfolding admit_all admit_one admit_bytes is_open with_entry current charge lookup insert remove
    retain
one_refused = refl

abbrev ann : AuthPrincipal
ann = record { id = 97 ∷ []; credential = 1 ∷ [] }

abbrev bob : AuthPrincipal
bob = record { id = 98 ∷ []; credential = 2 ∷ [] }

-- The second connection asks twice, and then for another principal; the first one ends.
abbrev actions : List Action
actions =
    hello 1 ann ∷ hello 2 ann ∷ hello 2 ann ∷ revoked 2 ∷ hello 2 bob ∷ hello 3 bob ∷ closed 1 ∷ []

act_all_exact_example :
    let s = act_all no_connections actions in
    ((p : Bytes)
      → (lookup s.active p ≡ counted (leases p s.connections))
        × (leases p s.connections ≤ max_active_connections_per_principal))
    × ((id : ℕ) → Bound (or_new (lookup s.connections id)))
act_all_exact_example = act_all_exact actions

ann_has_one : lookup (act_all no_connections actions).active (97 ∷ []) ≡ some 1
unfolding act_all act install_connection_principal principal_identity_conflicts install_lease
    principal_connection_guard guard drop_guard lookup insert remove
ann_has_one = refl

-- Two sessions of one owner.
abbrev two_sessions : List SessionSlots
two_sessions =
    record { owner = 97 ∷ []; running = 63 } ∷ record { owner = 97 ∷ []; running = 0 } ∷ []

two_sessions-OwnersBounded : OwnersBounded two_sessions
unfolding running_of
two_sessions-OwnersBounded p = ground arith

slots_after-Bounded_example :
    EachBounded (slots_after two_sessions (reserve 0 ∷ reserve 0 ∷ reserve 1 ∷ release 1 ∷ []))
    × OwnersBounded (slots_after two_sessions (reserve 0 ∷ reserve 0 ∷ reserve 1 ∷ release 1 ∷ []))
slots_after-Bounded_example =
    slots_after-Bounded two_sessions (reserve 0 ∷ reserve 0 ∷ reserve 1 ∷ release 1 ∷ [])
      (omega arith, (omega arith, tt)) two_sessions-OwnersBounded
