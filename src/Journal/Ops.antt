-- ===== src/Journal/Ops.antt =====
-- `append`, `enforce_bounds` and `rollback` as operations on the unbounded log.
use asp.Base.{
  ℕ, zero, suc, ◌+◌, ◌≤◌, ◌<◌, ◌≡◌, refl, ap, ◌∙◌, sym, subst, ◌||◌, some, List, [], ◌∷◌, ◌++◌,
  append_assoc, length, arith, u64_max, Bool-cases, inl, inr, ltb,
}
use asp.Event.{Event, EventKind, event_approx_bytes}
use asp.Journal.{
  Journal, append, evict, enforce_bounds, rollback, back, pop_back, total_bytes, front_unix_ms,
  journal_max_events, journal_max_bytes,
}
use asp.Journal.Log.{Numbered, Represents, total_bytes-append, Numbered-snoc}

-- Appending extends the log by the event, whose id is the next one. (The id and the charge are `u64`
-- and `usize` sums, which must not reach their limits.)
pub append-Represents :
    (now : ℕ) (j : Journal) (kind : EventKind) (log : List Event)
    → Represents log j
    → j.next_id < u64_max
    → total_bytes j.events + event_approx_bytes (append now j kind).0 ≤ u64_max
    → Represents (log ++ ((append now j kind).0 ∷ [])) (append now j kind).1
      × ((append now j kind).0.id ≡ j.next_id + 1)
unfolding append
append-Represents now j kind log r ids room = (
  record {
    evicted = r.evicted;
    split =
        ap (λ l. l ++ ((append now j kind).0 ∷ [])) r.split
        ∙ append_assoc r.evicted j.events ((append now j kind).0 ∷ []);
    numbered =
        subst (λ k. Numbered 1 k (log ++ ((append now j kind).0 ∷ []))) {x = j.next_id + 1}
          (omega arith)
          (Numbered-snoc 1 j.next_id log (append now j kind).0 r.numbered (omega arith));
    charged = omega (arith, r.charged, total_bytes-append j.events ((append now j kind).0 ∷ []));
  },
  omega arith,
)

-- What the eviction loop leaves: a suffix within both limits.
pub record Evicts (events : List Event) (out : List Event × ℕ) : Type 0 where
  pub gone : List Event
  pub split : events ≡ gone ++ out.0
  pub charged : out.1 ≡ total_bytes out.0
  pub few : length out.0 ≤ journal_max_events
  pub light : out.1 ≤ journal_max_bytes

pub evict_lem :
    (fuel : ℕ) (events : List Event)
    → length events < fuel
    → (out : List Event × ℕ) × (evict fuel events (total_bytes events) ≡ some out)
      × Evicts events out
unfolding evict
evict_lem zero events h = absurd (omega arith)
evict_lem (suc fuel) [] h = (
  ([], 0),
  refl,
  record { gone = []; split = refl; charged = refl; few = omega arith; light = omega arith },
)
evict_lem (suc fuel) (old ∷ events) h =
    elim (Bool-cases (
      ltb journal_max_events (length (old ∷ events))
      || ltb journal_max_bytes (total_bytes (old ∷ events)))) [
        | inl over ↦
            let (out, e, v) = evict_lem fuel events (omega arith) in
            (
              out,
              rw over (ap (evict fuel events) {y = total_bytes events} (omega arith) ∙ e),
              record {
                gone = old ∷ v.gone;
                split = ap (λ l. old ∷ l) v.split;
                charged = v.charged;
                few = v.few;
                light = v.light;
              },
            )
        | inr within ↦ (
          (old ∷ events, total_bytes (old ∷ events)),
          rw within,
          record {
            gone = [];
            split = refl;
            charged = refl;
            few = ground arith;
            light = ground arith;
          },
        )
      ]

-- `enforce_bounds` ends, keeps the window on the same log, and brings it within both limits.
pub enforce_bounds-Represents :
    (j : Journal) (log : List Event)
    → Represents log j
    → (j' : Journal) × (enforce_bounds j ≡ some j')
      × Represents log j'
      × (length j'.events ≤ journal_max_events)
      × (j'.approx_bytes ≤ journal_max_bytes)
      × (j'.next_id ≡ j.next_id)
      × (j'.oldest_event_unix_ms ≡ front_unix_ms j'.events)
unfolding enforce_bounds
enforce_bounds-Represents j log r =
    let (out, e, v) = evict_lem (length j.events + 1) j.events (omega arith) in
    (
      record j { events = out.0; approx_bytes = out.1; oldest_event_unix_ms = front_unix_ms out.0 },
      let e' : evict (length j.events + 1) j.events j.approx_bytes ≡ some out =
            ap (evict (length j.events + 1) j.events) r.charged ∙ e in
          rw (e', enforce_bounds),
      record {
        evicted = r.evicted ++ v.gone;
        split =
            r.split ∙ ap (λ l. r.evicted ++ l) v.split ∙ sym (append_assoc r.evicted v.gone out.0);
        numbered = r.numbered;
        charged = v.charged;
      },
      v.few,
      v.light,
      refl,
      refl,
    )

back_snoc : (events : List Event) (e : Event) → back (events ++ (e ∷ [])) ≡ some e
back_snoc [] e = refl
back_snoc (d ∷ []) e = refl
back_snoc (d ∷ c ∷ events) e = back_snoc (c ∷ events) e

pop_back_snoc : (events : List Event) (e : Event) → pop_back (events ++ (e ∷ [])) ≡ events
pop_back_snoc [] e = refl
pop_back_snoc (d ∷ []) e = refl
pop_back_snoc (d ∷ c ∷ events) e = ap (λ l. d ∷ l) (pop_back_snoc (c ∷ events) e)

-- A rolled-back append leaves the journal as it was, if the age that it records is that of its first
-- event.
pub rollback-append :
    (now : ℕ) (j : Journal) (kind : EventKind)
    → j.next_id < u64_max
    → j.approx_bytes + event_approx_bytes (append now j kind).0 ≤ u64_max
    → j.oldest_event_unix_ms ≡ front_unix_ms j.events
    → rollback (append now j kind).1 (append now j kind).0 ≡ j
unfolding append rollback
rollback-append now j kind ids room oldest = rw (back_snoc, pop_back_snoc) (ground (arith, oldest))
