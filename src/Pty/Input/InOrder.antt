-- ===== src/Pty/Input/InOrder.antt =====
-- Input that a client sends in order, where nothing outside the sequencer stands in its way.
use asp.Base.{
  ℕ, zero, suc, ◌+◌, ◌≤◌, ◌≡◌, refl, ap, sym, subst, ◌∙◌, true, none, some, List, [], ◌∷◌, ◌++◌,
  length, arith, u64_max, ok, Option-cases, inl, inr,
}
use asp.Event.{Bytes}
use asp.Pty.Input.{
  PtyInputSequenced, PtyInput, Arrival, pty_input_max_bytes, accept, write_and_acknowledge,
  receive_input, receive_inputs, receive_inputs-more, no_input, accepted, typed, typed-suc,
}

-- A request that meets no obstacle.
abbrev pub arriving : PtyInputSequenced → Arrival
arriving request = record {
  request = request;
  principal_current = true;
  in_scope = true;
  within_budget = true;
  headroom = true;
  cut_at = none;
  ack_sent = true;
}

-- `count` chunks in order, from `sequence` on
abbrev pub in_order : (ℕ → Bytes) → ℕ → ℕ → List Arrival
in_order chunk sequence zero = []
in_order chunk sequence (suc count) =
    arriving (record { sequence = sequence; bytes = chunk sequence })
    ∷ in_order chunk (sequence + 1) count

-- The stream took the chunks below `sequence`.
abbrev Took : (ℕ → Bytes) → ℕ → PtyInput → Type 0
Took chunk sequence t = (t.written ≡ typed chunk sequence) × (accepted t.last ≡ sequence)

receive_input-Took :
    (chunk : ℕ → Bytes) (t : PtyInput) (sequence : ℕ)
    → sequence ≤ u64_max
    → length (chunk sequence) ≤ pty_input_max_bytes
    → Took chunk sequence t
    → let out =
        receive_input t (arriving (record { sequence = sequence; bytes = chunk sequence })) in
      (out.1 ≡ none) × Took chunk (sequence + 1) out.0
unfolding receive_input accept write_and_acknowledge
receive_input-Took chunk t sequence bound fits (all, at) =
    let v : PtyInput = record {
      last = some sequence;
      written = t.written ++ chunk sequence;
      acknowledged = sequence ∷ t.acknowledged;
    } in
    let accepts : accept t.last sequence ≡ ok (some sequence, true) = elim (Option-cases t.last) [
      | inl e ↦ ground (arith, e)
      | inr (last, e) ↦ ground (arith, e)
    ] in
    let same : receive_input t (arriving (record { sequence = sequence; bytes = chunk sequence }))
        ≡ (v, none) =
      ground (arith, accepts) in
    subst (λ o. (o.1 ≡ none) × Took chunk (sequence + 1) o.0) (sym same)
      (refl, (ap (λ w. w ++ chunk sequence) all ∙ sym (typed-suc chunk sequence), refl))

receive_inputs-Took :
    (chunk : ℕ → Bytes) (sequence count : ℕ) (t : PtyInput)
    → sequence + count ≤ u64_max
    → ((k : ℕ) → length (chunk k) ≤ pty_input_max_bytes)
    → Took chunk sequence t
    → ((receive_inputs t (in_order chunk sequence count)).1 ≡ none)
      × Took chunk (sequence + count) (receive_inputs t (in_order chunk sequence count)).0
unfolding receive_inputs
receive_inputs-Took chunk sequence zero t bound fits start =
    (refl, subst (λ n. Took chunk n t) (let e : sequence ≡ sequence + 0 = omega arith in e) start)
receive_inputs-Took chunk sequence (suc count) t bound fits start =
    let m = arriving (record { sequence = sequence; bytes = chunk sequence }) in
    let (goes_on, more) = receive_input-Took chunk t sequence (omega arith) (fits sequence) start in
    let messages = in_order chunk (sequence + 1) count in
    let rest =
      receive_inputs-Took chunk (sequence + 1) count (receive_input t m).0 (omega arith) fits
        more in
    let sum : sequence + 1 + count ≡ sequence + suc count = omega arith in
    elim (receive_inputs-more t m messages) [
      | inl (failure, failed, e) ↦ absurd (ground (arith, goes_on, failed))
      | inr (_, e) ↦
          subst (λ o. (o.1 ≡ none) × Took chunk (sequence + suc count) o.0) (sym e)
            (
              rest.0,
              subst (λ n. Took chunk n (receive_inputs (receive_input t m).0 messages).0) sum
                  rest.1,
            )
    ]

-- A client sends its chunks in order, each no longer than the bound. For every one the credential is
-- current and in scope, the principal's budget and the storage have room, the terminal takes the whole
-- write and the acknowledgement is sent. Then the stream meets no error, and the terminal is given all
-- of them.
pub receive_inputs-all :
    (chunk : ℕ → Bytes) (count : ℕ)
    → count ≤ u64_max
    → ((k : ℕ) → length (chunk k) ≤ pty_input_max_bytes)
    → ((receive_inputs no_input (in_order chunk 0 count)).1 ≡ none)
      × ((receive_inputs no_input (in_order chunk 0 count)).0.written ≡ typed chunk count)
receive_inputs-all chunk count bound fits =
    let (fine, (all, at)) =
      receive_inputs-Took chunk 0 count no_input (omega arith) fits (refl, refl) in
    (fine, all ∙ ap (typed chunk) (let e : 0 + count ≡ count = omega arith in e))
