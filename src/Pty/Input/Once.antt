-- ===== src/Pty/Input/Once.antt =====
-- Whatever arrives, the terminal is given the chunks in order and each of them once.
use asp.Base.{
  ℕ, ◌+◌, ◌≤◌, ◌≡◌, refl, ap, sym, subst, ◌∙◌, Bool, true, false, Option, none, some, List, [], ◌∷◌,
  ◌++◌, length, take, arith, ltb, ok, Result-cases, Option-cases, Bool-cases, inl, inr, ◌⊎◌,
}
use asp.Event.{Bytes}
use asp.Pty.Input.{
  PtyInput, Arrival, InputError, authentication_revoked, out_of_scope, principal_byte_budget,
  pty_input_too_large, storage_headroom, pty_input_gap, pty_write_failed, pty_input_max_bytes,
  accept, write_and_acknowledge, receive_input, receive_inputs, receive_inputs-more, no_input,
  accepted, typed, typed-suc, AllBelow, Carries,
}

AllBelow-mono : (n m : ℕ) (ks : List ℕ) → n ≤ m → AllBelow n ks → AllBelow m ks
AllBelow-mono n m [] le below = tt
AllBelow-mono n m (k ∷ ks) le below = (omega (arith, below.0), AllBelow-mono n m ks le below.1)

-- What an accepted sequence does to the number of accepted chunks.
accept-cases :
    (last : Option ℕ) (sequence : ℕ) (next : Option ℕ) (should_write : Bool)
    → accept last sequence ≡ ok (next, should_write)
    → ((should_write ≡ true) × (sequence ≡ accepted last) × (next ≡ some sequence))
      ⊎ ((should_write ≡ false) × (sequence + 1 ≤ accepted last) × (next ≡ last))
unfolding accept
accept-cases none sequence next true h = inl (ground arith)
accept-cases none sequence next false h = absurd (ground arith)
accept-cases (some last) sequence next true h = inl (ground arith)
accept-cases (some last) sequence next false h = inr (ground arith)

abbrev Written : (ℕ → Bytes) → PtyInput → Type 0
Written chunk t =
    (t.written ≡ typed chunk (accepted t.last)) × AllBelow (accepted t.last) t.acknowledged

-- The write of the chunk `k` failed, and the terminal has a part of it after those before.
abbrev pub Cut : (ℕ → Bytes) → PtyInput × Option InputError → Type 0
Cut chunk (t, failure) =
    (k : ℕ) × (n : ℕ) × (failure ≡ some pty_write_failed)
    × (accepted t.last ≡ k + 1)
    × (t.written ≡ typed chunk k ++ take n (chunk k))
    × AllBelow k t.acknowledged

write_and_acknowledge-Written :
    (chunk : ℕ → Bytes) (t : PtyInput) (m : Arrival) (last : Option ℕ) (should_write : Bool)
    → m.request.bytes ≡ chunk m.request.sequence
    → Written chunk t
    → accept t.last m.request.sequence ≡ ok (last, should_write)
    → Written chunk (write_and_acknowledge t m last should_write).0
      ⊎ Cut chunk (write_and_acknowledge t m last should_write)
unfolding write_and_acknowledge
write_and_acknowledge-Written chunk t m last should_write carries (all, below) e =
    let sequence = m.request.sequence in
    elim (accept-cases t.last sequence last should_write e) [
      | inl (on, new, next_is) ↦
          let written : t.written ≡ typed chunk sequence = all ∙ ap (typed chunk) (sym new) in
          let earlier : AllBelow sequence t.acknowledged =
            subst (λ n. AllBelow n t.acknowledged) (sym new) below in
          let grown : t.written ++ m.request.bytes ≡ typed chunk (sequence + 1) =
            rw (carries, written, typed-suc) refl in
          let later = AllBelow-mono sequence (sequence + 1) t.acknowledged (omega arith) earlier in
          rw (on, next_is)
            (elim (Option-cases m.cut_at) [
              | inr (n, cut) ↦
                  rw cut (inr (sequence, n, refl, refl, (rw (carries, written) refl), earlier))
              | inl whole ↦ rw whole (elim (Bool-cases m.ack_sent) [
                | inl sent ↦ rw sent (inl (grown, (omega arith, later)))
                | inr lost ↦ rw lost (inl (grown, later))
              ])
            ])
      | inr (off, old, next_is) ↦
          rw (off, next_is)
            (elim (Bool-cases m.ack_sent) [
              | inl sent ↦ rw sent (inl (all, (old, below)))
              | inr lost ↦ rw lost (inl (all, below))
            ])
    ]

-- A request is refused before anything is done, or it comes to the write.
receive_input-cases :
    (t : PtyInput) (m : Arrival)
    → ((failure : InputError) × (receive_input t m ≡ (t, some failure)))
      ⊎ ((last : Option ℕ) × (should_write : Bool) × (accept t.last m.request.sequence
            ≡ ok (last, should_write))
          × (receive_input t m ≡ write_and_acknowledge t m last should_write))
unfolding receive_input
receive_input-cases t m = elim (Bool-cases m.principal_current) [
  | inr revoked ↦ inl (authentication_revoked, ground (arith, revoked))
  | inl current ↦ elim (Bool-cases m.in_scope) [
    | inr outside ↦ inl (out_of_scope, ground (arith, current, outside))
    | inl scope ↦ elim (Bool-cases m.within_budget) [
      | inr spent ↦ inl (principal_byte_budget, ground (arith, current, scope, spent))
      | inl budget ↦ elim (Bool-cases (ltb pty_input_max_bytes (length m.request.bytes))) [
        | inl large ↦ inl (pty_input_too_large, ground (arith, current, scope, budget, large))
        | inr small ↦ elim (Bool-cases m.headroom) [
          | inr tight ↦ inl (storage_headroom, ground (arith, current, scope, budget, small, tight))
          | inl room ↦ elim (Result-cases (accept t.last m.request.sequence)) [
            | inr (expected, e) ↦
                inl (pty_input_gap, ground (arith, current, scope, budget, small, room, e))
            | inl ((last, should_write), e) ↦
                inr (last, should_write, e, ground (arith, current, scope, budget, small, room, e))
          ]
        ]
      ]
    ]
  ]
]

receive_input-Written :
    (chunk : ℕ → Bytes) (t : PtyInput) (m : Arrival)
    → m.request.bytes ≡ chunk m.request.sequence
    → Written chunk t
    → Written chunk (receive_input t m).0 ⊎ Cut chunk (receive_input t m)
receive_input-Written chunk t m carries inv = elim (receive_input-cases t m) [
  | inl (failure, e) ↦ rw e (inl inv)
  | inr (last, should_write, accepts, e) ↦
      rw e (write_and_acknowledge-Written chunk t m last should_write carries inv accepts)
]

receive_inputs-Written :
    (chunk : ℕ → Bytes) (t : PtyInput) (messages : List Arrival)
    → Carries chunk messages
    → Written chunk t
    → Written chunk (receive_inputs t messages).0 ⊎ Cut chunk (receive_inputs t messages)
unfolding receive_inputs
receive_inputs-Written chunk t [] carries inv = inl inv
receive_inputs-Written chunk t (m ∷ messages) carries inv =
    let step = receive_input-Written chunk t m carries.0 inv in
    elim (receive_inputs-more t m messages) [
      | inl (failure, failed, e) ↦ subst (λ o. Written chunk o.0 ⊎ Cut chunk o) (sym e) step
      | inr (goes_on, e) ↦
          subst (λ o. Written chunk o.0 ⊎ Cut chunk o) (sym e)
            (elim step [
              | inl more ↦
                  receive_inputs-Written chunk (receive_input t m).0 messages carries.1 more
              | inr (k, n, failed, at, cut, below) ↦ absurd (ground (arith, goes_on, failed))
            ])
    ]

-- Every message carries the chunk of its sequence number. Then, in whatever order the messages come,
-- however often, whatever their checks say and wherever the stream fails, the terminal is given a
-- prefix of the chunks, each once and in order, and whatever is acknowledged is among them. Where the
-- stream ends because a write failed, the terminal has a part of one more chunk after those.
pub receive_inputs-once :
    (chunk : ℕ → Bytes) (messages : List Arrival)
    → Carries chunk messages
    → let out = receive_inputs no_input messages in
      let t = out.0 in
      ((t.written ≡ typed chunk (accepted t.last)) × AllBelow (accepted t.last) t.acknowledged)
      ⊎ Cut chunk out
receive_inputs-once chunk messages carries =
    receive_inputs-Written chunk no_input messages carries (refl, tt)
