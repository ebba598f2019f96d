-- ===== src/Quota/Slots/Bounded.antt =====
-- Neither a session nor an owner has more running processes than it may have.
use asp.Base.{
  ℕ, zero, suc, ◌+◌, ◌-◌, ◌≤◌, ◌≡◌, subst, Bool-cases, Option-cases, inl, inr, some, List, [], ◌∷◌,
  ltb, leb, bytes_eq, bytes_eq→eq, if◌then◌else◌, arith,
}
use asp.Event.{Bytes}
use asp.Quota.Slots.{
  max_running_processes, max_running_processes_per_principal, SessionSlots, running_of, session_at,
  with_running, reserve_session_slot, reserve_process_slot, release_process_slot, SlotAction,
  reserve, release, slots_after,
}

abbrev pub EachBounded : List SessionSlots → Type 0
EachBounded [] = Unit {0}
EachBounded (s ∷ sessions) = (s.running ≤ max_running_processes) × EachBounded sessions

abbrev pub OwnersBounded : List SessionSlots → Type 0
OwnersBounded sessions = (p : Bytes) → running_of p sessions ≤ max_running_processes_per_principal

EachBounded-with_running :
    (sessions : List SessionSlots) (i n : ℕ)
    → n ≤ max_running_processes
    → EachBounded sessions
    → EachBounded (with_running sessions i n)
EachBounded-with_running [] i n le b = b
EachBounded-with_running (s ∷ sessions) zero n le b = (le, b.1)
EachBounded-with_running (s ∷ sessions) (suc i) n le b =
    (b.0, EachBounded-with_running sessions i n le b.1)

-- What one session adds to its owner.
running-with_running :
    (sessions : List SessionSlots) (i n : ℕ) (s : SessionSlots) (p : Bytes)
    → session_at sessions i ≡ some s
    → running_of p (with_running sessions i n) + (if bytes_eq s.owner p then s.running else 0)
      ≡ running_of p sessions + (if bytes_eq s.owner p then n else 0)
unfolding running_of
running-with_running [] i n s p h = absurd (cc)
running-with_running (c ∷ sessions) zero n s p h =
    let e : c ≡ s = ground arith in rw⁻¹ e (ground arith)
running-with_running (c ∷ sessions) (suc i) n s p h =
    ground (arith, running-with_running sessions i n s p h)

running_at :
    (sessions : List SessionSlots) (i : ℕ) (s : SessionSlots)
    → session_at sessions i ≡ some s
    → EachBounded sessions
    → s.running ≤ max_running_processes
running_at [] i s h b = absurd (cc)
running_at (c ∷ sessions) zero s h b =
    let e : c ≡ s = ground arith in subst (λ x. x.running ≤ max_running_processes) e b.0
running_at (c ∷ sessions) (suc i) s h b = running_at sessions i s h b.1

abbrev Bounded : List SessionSlots → Type 0
Bounded sessions = EachBounded sessions × OwnersBounded sessions

with_running-Bounded :
    (sessions : List SessionSlots) (i n : ℕ) (s : SessionSlots)
    → Bounded sessions
    → session_at sessions i ≡ some s
    → n ≤ max_running_processes
    → running_of s.owner sessions + n ≤ max_running_processes_per_principal + s.running
    → Bounded (with_running sessions i n)
with_running-Bounded sessions i n s b at le room = (
  EachBounded-with_running sessions i n le b.0,
  λ p. elim (Bool-cases (bytes_eq s.owner p)) [
    | inr other ↦ ground (arith, running-with_running sessions i n s p at, other, b.1 p)
    | inl own ↦
        let here : running_of p sessions + n ≤ max_running_processes_per_principal + s.running =
          subst (λ q. running_of q sessions + n ≤ max_running_processes_per_principal + s.running)
            (bytes_eq→eq s.owner p own) room in
        ground (arith, running-with_running sessions i n s p at, own, here)
  ],
)

reserve-Bounded :
    (sessions : List SessionSlots) (i : ℕ)
    → Bounded sessions
    → Bounded (reserve_process_slot sessions i).0
unfolding reserve_process_slot reserve_session_slot
reserve-Bounded sessions i b = elim (Option-cases (session_at sessions i)) [
  | inl e ↦ rw (e, reserve_process_slot) b
  | inr (s, e) ↦
      elim (Bool-cases (leb max_running_processes_per_principal (running_of s.owner sessions))) [
        | inl full ↦ rw (e, reserve_process_slot, full) b
        | inr room ↦ elim (Bool-cases (ltb s.running max_running_processes)) [
          | inr busy ↦ rw (e, reserve_process_slot, room, busy) b
          | inl idle ↦
              rw (e, reserve_process_slot, room, idle)
                (with_running-Bounded sessions i (s.running + 1) s b e (ground (arith, idle))
                  (ground (arith, room)))
        ]
      ]
]

release-Bounded :
    (sessions : List SessionSlots) (i : ℕ)
    → Bounded sessions
    → Bounded (release_process_slot sessions i)
unfolding release_process_slot
release-Bounded sessions i b = elim (Option-cases (session_at sessions i)) [
  | inl e ↦ rw (e, release_process_slot) b
  | inr (s, e) ↦ elim (Bool-cases (ltb 0 s.running)) [
    | inr idle ↦ rw (e, release_process_slot, idle) b
    | inl busy ↦
        rw (e, release_process_slot, busy)
          (let small = running_at sessions i s e b.0 in
            with_running-Bounded sessions i (s.running - 1) s b e (omega arith)
              (omega (arith, b.1 s.owner)))
  ]
]

-- At the start no session has more than 64 running processes and no owner more than 256. Then, after
-- whatever slots are asked for and released, in whichever sessions, that is still so.
pub slots_after-Bounded :
    (sessions : List SessionSlots) (actions : List SlotAction)
    → EachBounded sessions
    → OwnersBounded sessions
    → EachBounded (slots_after sessions actions) × OwnersBounded (slots_after sessions actions)
unfolding slots_after
slots_after-Bounded sessions [] each owners = (each, owners)
slots_after-Bounded sessions (reserve i ∷ actions) each owners =
    let b = reserve-Bounded sessions i (each, owners) in
    slots_after-Bounded (reserve_process_slot sessions i).0 actions b.0 b.1
slots_after-Bounded sessions (release i ∷ actions) each owners =
    let b = release-Bounded sessions i (each, owners) in
    slots_after-Bounded (release_process_slot sessions i) actions b.0 b.1
