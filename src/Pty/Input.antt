-- ===== src/Pty/Input.antt =====
-- Terminal input in crates/asp-server/src/main.rs: `PtyInputSequencer::accept` and what `handle_pty`
-- does with each `PtyInputSequenced` of a stream. How the checks of the principal and of the storage come
-- out, how much of a write the terminal takes and whether the acknowledgement is sent are arguments.
-- The stream's other requests are not modelled.
pub mod Once
pub mod InOrder
use asp.Base.{
  ℕ, zero, suc, ◌+◌, ◌≤◌, ◌≡◌, refl, ap, sym, subst, ◌∙◌, Bool, true, false, Option, none, some,
  List, [], ◌∷◌, ◌++◌, length, take, not, arith, ltb, leb, ◌==◌, if◌then◌else◌, saturating_add,
  u64_max, Result, ok, err, Result-cases, Option-cases, Bool-cases, inl, inr, ◌⊎◌,
}
use asp.Event.{Bytes}

abbrev pub pty_input_max_bytes : ℕ
pty_input_max_bytes = 65536

-- The sequencer's new `last` and whether the bytes should be written, or the expected sequence.
unfoldable pub accept : Option ℕ → ℕ → Result ℕ (Option ℕ × Bool)
accept none sequence = if sequence == 0 then ok (some sequence, true) else err 0
accept (some last) sequence =
    if leb sequence last
    then ok (some last, false)
    else if sequence == saturating_add last 1
    then ok (some sequence, true)
    else err (saturating_add last 1)

pub record PtyInputSequenced : Type 0 where
  pub sequence : ℕ
  pub bytes : Bytes

pub record PtyInput : Type 0 where
  pub last : Option ℕ
  pub written : Bytes
  pub acknowledged : List ℕ

-- A request as it arrives: how its checks come out; where its write fails or times out, how many bytes
-- the terminal takes of it; and whether the acknowledgement can be sent.
pub record Arrival : Type 0 where
  pub request : PtyInputSequenced
  pub principal_current : Bool
  pub in_scope : Bool
  pub within_budget : Bool
  pub headroom : Bool
  pub cut_at : Option ℕ
  pub ack_sent : Bool

pub data InputError : Type 0 where
  authentication_revoked out_of_scope principal_byte_budget pty_input_too_large : InputError
  storage_headroom pty_input_gap pty_write_failed ack_failed : InputError

abbrev acknowledge : PtyInput → Arrival → PtyInput × Option InputError
acknowledge t m =
    if m.ack_sent
    then (record t { acknowledged = m.request.sequence ∷ t.acknowledged }, none)
    else (t, some ack_failed)

-- The bytes are written if they should be, and the sequence is acknowledged.
unfoldable pub write_and_acknowledge :
    PtyInput → Arrival → Option ℕ → Bool → PtyInput × Option InputError
write_and_acknowledge t m last false = acknowledge (record t { last = last }) m
write_and_acknowledge t m last true = elim m.cut_at [
  | none ↦ acknowledge (record t { last = last; written = t.written ++ m.request.bytes }) m
  | some n ↦ (
    record t { last = last; written = t.written ++ take n m.request.bytes },
    some pty_write_failed,
  )
]

unfoldable pub receive_input : PtyInput → Arrival → PtyInput × Option InputError
unfolding accept write_and_acknowledge
receive_input t m =
    if not m.principal_current
    then (t, some authentication_revoked)
    else if not m.in_scope
    then (t, some out_of_scope)
    else if not m.within_budget
    then (t, some principal_byte_budget)
    else if ltb pty_input_max_bytes (length m.request.bytes)
    then (t, some pty_input_too_large)
    else if not m.headroom
    then (t, some storage_headroom)
    else elim (accept t.last m.request.sequence) [
      | err expected ↦ (t, some pty_input_gap)
      | ok (last, should_write) ↦ write_and_acknowledge t m last should_write
    ]

-- The stream's loop, which ends at the first error.
unfoldable pub receive_inputs : PtyInput → List Arrival → PtyInput × Option InputError
unfolding receive_input
receive_inputs t [] = (t, none)
receive_inputs t (m ∷ messages) =
    let (u, failure) = receive_input t m in
    let rest = receive_inputs u messages in elim failure [ some e ↦ (u, some e) | none ↦ rest ]

-- A stream's start, before any input.
abbrev pub no_input : PtyInput
no_input = record { last = none; written = []; acknowledged = [] }

-- How many chunks were accepted.
abbrev pub accepted : Option ℕ → ℕ
accepted none = 0
accepted (some last) = last + 1

-- The chunks below `n`, in order.
abbrev pub typed : (ℕ → Bytes) → ℕ → Bytes
typed chunk zero = []
typed chunk (suc n) = typed chunk n ++ chunk n

abbrev pub AllBelow : ℕ → List ℕ → Type 0
AllBelow n [] = Unit {0}
AllBelow n (k ∷ ks) = (k + 1 ≤ n) × AllBelow n ks

-- Every message carries the chunk of its sequence number.
abbrev pub Carries : (ℕ → Bytes) → List Arrival → Type 0
Carries chunk [] = Unit {0}
Carries chunk (m ∷ messages) = (m.request.bytes ≡ chunk m.request.sequence) × Carries chunk messages

pub typed-suc : (chunk : ℕ → Bytes) (n : ℕ) → typed chunk (n + 1) ≡ typed chunk n ++ chunk n
typed-suc chunk n = let e : n + 1 ≡ suc n = omega arith in ap (typed chunk) e

pub receive_inputs-more :
    (t : PtyInput) (m : Arrival) (messages : List Arrival)
    → ((failure : InputError) × ((receive_input t m).1 ≡ some failure)
        × (receive_inputs t (m ∷ messages) ≡ receive_input t m))
      ⊎ (((receive_input t m).1 ≡ none)
          × (receive_inputs t (m ∷ messages) ≡ receive_inputs (receive_input t m).0 messages))
unfolding receive_inputs
receive_inputs-more t m messages = elim (Option-cases (receive_input t m).1) [
  | inr (failure, e) ↦ inl (failure, e, ground (arith, e))
  | inl e ↦ inr (e, ground (arith, e))
]
