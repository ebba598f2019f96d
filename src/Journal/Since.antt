-- ===== src/Journal/Since.antt =====
-- `since` replays the log exactly, or says that it cannot.
use asp.Base.{
  ℕ, ◌+◌, ◌≤◌, ◌<◌, ◌≡◌, refl, ap, sym, subst, true, false, List, [], ◌∷◌, ◌++◌, length, arith,
  u64_max, Bool-cases, inl, inr, ltb, if◌then◌else◌,
}
use asp.Event.{Event}
use asp.Journal.{Journal, after_id, since, retained_from_event_id}
use asp.Journal.Log.{Numbered, Represents, Numbered-append}

-- Events up to the cursor are not replayed.
after_id-append :
    (from last after : ℕ) (xs ys : List Event)
    → Numbered from last (xs ++ ys)
    → from + length xs ≤ after + 1
    → after_id after (xs ++ ys) ≡ after_id after ys
after_id-append from last after [] ys h le = refl
after_id-append from last after (x ∷ xs) ys h le =
    ground (arith, after_id-append (from + 1) last after xs ys h.1)

after_id_all :
    (from last after : ℕ) (events : List Event)
    → Numbered from last events
    → after < from
    → after_id after events ≡ events
after_id_all from last after [] h lt = refl
after_id_all from last after (e ∷ events) h lt =
    ground (arith, after_id_all (from + 1) last after events h.1)

-- What is replayed after a cursor is numbered from the next id on.
after_id-Numbered :
    (from last after : ℕ) (events : List Event)
    → Numbered from last events
    → from ≤ after + 1
    → after ≤ last
    → Numbered (after + 1) last (after_id after events)
after_id-Numbered from last after [] h le in_log = omega arith
after_id-Numbered from last after (e ∷ events) h le in_log = elim (Bool-cases (ltb after e.id)) [
  | inl later ↦
      let eq : from ≡ after + 1 = ground arith in
      rw later (
        ground arith,
        subst (λ l. Numbered (after + 1 + 1) last l)
            (sym (after_id_all (from + 1) last after events h.1 (omega arith)))
            (subst (λ k. Numbered (k + 1) last events) eq h.1),
      )
  | inr earlier ↦
      rw earlier (after_id-Numbered (from + 1) last after events h.1 (ground arith) in_log)
]

module _ (j : Journal) (log : List Event) (r : Represents log j) where
  window-Numbered : Numbered (1 + length r.evicted) j.next_id j.events
  window-Numbered =
      Numbered-append 1 j.next_id r.evicted j.events
        (subst (Numbered 1 j.next_id) r.split r.numbered)

  retained_from :
      (events : List Event)
      → j.events ≡ events
      → j.next_id < u64_max
      → retained_from_event_id j ≡ length r.evicted + 1
  unfolding retained_from_event_id
  retained_from [] e small =
      let w : 1 + length r.evicted ≡ j.next_id + 1 =
        subst (Numbered (1 + length r.evicted) j.next_id) e window-Numbered in
      rw (e, retained_from_event_id) (omega arith)
  retained_from (d ∷ events) e small =
      let w : Numbered (1 + length r.evicted) j.next_id (d ∷ events) =
        subst (Numbered (1 + length r.evicted) j.next_id) e window-Numbered in
      rw (e, retained_from_event_id) (omega (arith, w.0))

  -- For a cursor within the log the journal replays exactly the events after it, numbered from the
  -- next id without a gap; it reports compaction exactly when one of them has been evicted.
  pub since_exact :
      (after : ℕ)
      → after ≤ j.next_id
      → j.next_id < u64_max
      → (since j after
          ≡ (if ltb after (length r.evicted) then ([], true) else (after_id after log, false)))
        × Numbered (after + 1) j.next_id (after_id after log)
  unfolding since
  since_exact after in_log small = (
    elim (Bool-cases (ltb after (length r.evicted))) [
      | inl gone ↦ ground (arith, retained_from j.events refl small)
      | inr kept ↦ ground (
        arith,
        retained_from j.events refl small,
        ap (after_id after) r.split,
        after_id-append 1 j.next_id after r.evicted j.events
            (subst (Numbered 1 j.next_id) r.split r.numbered),
      )
    ],
    after_id-Numbered 1 j.next_id after log r.numbered (omega arith) in_log,
  )
