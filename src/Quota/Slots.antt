-- ===== src/Quota/Slots.antt =====
-- Slots for running processes in crates/asp-server/src/main.rs: `reserve_process_slot` of the session
-- and of the store, which counts the sessions of one owner, and `release_process_slot`. The store's
-- sessions are a list; the counters of the metrics are left out.
pub mod Bounded
use asp.Base.{
  ℕ, zero, suc, ◌+◌, ◌-◌, Option, none, some, List, [], ◌∷◌, ltb, leb, bytes_eq, if◌then◌else◌,
  Result, ok, err,
}
use asp.Event.{Bytes}

abbrev pub max_running_processes : ℕ
max_running_processes = 64

abbrev pub max_running_processes_per_principal : ℕ
max_running_processes_per_principal = 256

pub record SessionSlots : Type 0 where
  pub owner : Bytes
  pub running : ℕ

pub data SlotError : Type 0 where
  session_limit principal_limit unknown_session : SlotError

-- candidate.owner == session.owner, and their sum
unfoldable pub running_of : Bytes → List SessionSlots → ℕ
running_of owner [] = 0
running_of owner (s ∷ sessions) =
    let rest = running_of owner sessions in
    if bytes_eq s.owner owner then s.running + rest else rest

abbrev pub session_at : List SessionSlots → ℕ → Option SessionSlots
session_at [] i = none
session_at (s ∷ sessions) zero = some s
session_at (s ∷ sessions) (suc i) = session_at sessions i

abbrev pub with_running : List SessionSlots → ℕ → ℕ → List SessionSlots
with_running [] i n = []
with_running (s ∷ sessions) zero n = record s { running = n } ∷ sessions
with_running (s ∷ sessions) (suc i) n = s ∷ with_running sessions i n

-- Session::reserve_process_slot
unfoldable pub reserve_session_slot : ℕ → Option ℕ
reserve_session_slot running =
    if ltb running max_running_processes then some (running + 1) else none

-- SessionStore::reserve_process_slot, for the session at `i`
unfoldable pub reserve_process_slot :
    List SessionSlots → ℕ → List SessionSlots × Result SlotError (Unit {0})
unfolding running_of reserve_session_slot
reserve_process_slot sessions i = elim (session_at sessions i) [
  | none ↦ (sessions, err unknown_session)
  | some s ↦
      if leb max_running_processes_per_principal (running_of s.owner sessions)
      then (sessions, err principal_limit)
      else elim (reserve_session_slot s.running) [
        | none ↦ (sessions, err session_limit)
        | some running ↦ (with_running sessions i running, ok tt)
      ]
]

-- Nothing is released where nothing runs.
unfoldable pub release_process_slot : List SessionSlots → ℕ → List SessionSlots
release_process_slot sessions i = elim (session_at sessions i) [
  | none ↦ sessions
  | some s ↦ if ltb 0 s.running then with_running sessions i (s.running - 1) else sessions
]

pub data SlotAction : Type 0 where
  reserve release : ℕ → SlotAction

unfoldable pub slots_after : List SessionSlots → List SlotAction → List SessionSlots
unfolding reserve_process_slot release_process_slot
slots_after sessions [] = sessions
slots_after sessions (reserve i ∷ actions) = slots_after (reserve_process_slot sessions i).0 actions
slots_after sessions (release i ∷ actions) = slots_after (release_process_slot sessions i) actions
