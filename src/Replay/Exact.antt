-- ===== src/Replay/Exact.antt =====
-- When a bounded replay is complete.
use asp.Base.{
  ℕ, ◌≤◌, ◌<◌, ◌≡◌, refl, ap, sym, subst, ◌∙◌, Bool, true, false, ◌||◌, List, [], ◌∷◌, ◌++◌,
  append_assoc, append-nil, length, length-append, arith, ltb, leb, saturating_add, Bool-cases, ◌⊎◌,
  inl, inr,
}
use asp.Event.{Event, event_approx_bytes}
use asp.Journal.{after_id, total_bytes}
use asp.Journal.Log.{total_bytes-append}
use asp.Replay.{
  EventReplayBuffer, new, push, push_all, max_durable_replay_events, max_durable_replay_bytes,
}

pub after_id_++ :
    (after : ℕ) (xs ys : List Event)
    → after_id after (xs ++ ys) ≡ after_id after xs ++ after_id after ys
after_id_++ after [] ys = refl
after_id_++ after (e ∷ xs) ys = ground (arith, after_id_++ after xs ys)

-- The buffer holds the part of `seen` that comes after the cursor, within both limits.
pub record Holds (seen : List Event) (b : EventReplayBuffer) : Type 0 where
  pub kept : b.events ≡ after_id b.after_event_id seen
  pub charged : b.bytes ≡ total_bytes b.events
  pub few : length b.events ≤ max_durable_replay_events
  pub light : b.bytes ≤ max_durable_replay_bytes
  pub within : b.limit_reached ≡ false

-- The scan was refused since what comes after the cursor exceeds a limit.
pub record Refused (after : ℕ) (seen : List Event) (b : EventReplayBuffer) : Type 0 where
  pub reached : b.limit_reached ≡ true
  pub exceeds :
      (max_durable_replay_events < length (after_id after seen))
      ⊎ (max_durable_replay_bytes < total_bytes (after_id after seen))
  pub few : length b.events ≤ max_durable_replay_events
  pub light : total_bytes b.events ≤ max_durable_replay_bytes

module _ (b : EventReplayBuffer) (seen : List Event) (h : Holds seen b) (e : Event) where
  skip-Holds : leb e.id b.after_event_id ≡ true → Holds (seen ++ (e ∷ [])) b
  skip-Holds old = record {
    kept = h.kept ∙ sym (append-nil _) ∙ ground (arith, after_id_++ b.after_event_id seen (e ∷ []));
    charged = h.charged;
    few = h.few;
    light = h.light;
    within = h.within;
  }

  kept_snoc :
      leb e.id b.after_event_id ≡ false
      → after_id b.after_event_id (seen ++ (e ∷ [])) ≡ b.events ++ (e ∷ [])
  kept_snoc later = ground (arith, after_id_++ b.after_event_id seen (e ∷ []), h.kept)

  more :
      (events : List Event)
      → leb e.id b.after_event_id ≡ false
      → after_id b.after_event_id (seen ++ (e ∷ events))
        ≡ (b.events ++ (e ∷ [])) ++ after_id b.after_event_id events
  more events later =
      ap (after_id b.after_event_id) (sym (append_assoc seen (e ∷ []) events))
      ∙ after_id_++ b.after_event_id (seen ++ (e ∷ [])) events
      ∙ ap (λ l. l ++ after_id b.after_event_id events) (kept_snoc later)

  full : Bool
  full =
      leb max_durable_replay_events (length b.events)
      || ltb max_durable_replay_bytes (saturating_add b.bytes (event_approx_bytes e))

  take-Holds :
      leb e.id b.after_event_id ≡ false
      → full ≡ false
      → Holds (seen ++ (e ∷ [])) (record b {
        bytes = saturating_add b.bytes (event_approx_bytes e);
        events = b.events ++ (e ∷ []);
      })
  unfolding full
  take-Holds later room = record {
    kept = sym (kept_snoc later);
    charged = ground (arith, total_bytes-append b.events (e ∷ []), h.charged, h.light);
    few = ground (arith, length-append b.events (e ∷ []));
    light = ground arith;
    within = h.within;
  }

  refuse-Refused :
      (events : List Event)
      → leb e.id b.after_event_id ≡ false
      → full ≡ true
      → Refused b.after_event_id (seen ++ (e ∷ events)) (record b { limit_reached = true })
  unfolding full
  refuse-Refused events later over = record {
    reached = refl;
    exceeds = ground (
      arith,
      ap length (more events later),
      ap total_bytes (more events later),
      length-append (b.events ++ (e ∷ [])) (after_id b.after_event_id events),
      length-append b.events (e ∷ []),
      total_bytes-append (b.events ++ (e ∷ [])) (after_id b.after_event_id events),
      total_bytes-append b.events (e ∷ []),
      h.charged,
    );
    few = h.few;
    light = omega (arith, h.light, h.charged);
  }

-- How a scan from the buffer `b` ends.
abbrev Ends : EventReplayBuffer → List Event → EventReplayBuffer → Type 0
Ends b seen out =
    (out.after_event_id ≡ b.after_event_id) × (Holds seen out ⊎ Refused b.after_event_id seen out)

push_all-Ends :
    (events : List Event) (b : EventReplayBuffer) (seen : List Event)
    → Holds seen b
    → Ends b (seen ++ events) (push_all b events)
unfolding push full
push_all-Ends [] b seen h = (refl, inl (subst (λ l. Holds l b) (sym (append-nil seen)) h))
push_all-Ends (e ∷ events) b seen h = elim (Bool-cases (leb e.id b.after_event_id)) [
  | inl old ↦ rw old (
      subst (λ l. Ends b l (push_all b events)) (append_assoc seen (e ∷ []) events)
        (push_all-Ends events b (seen ++ (e ∷ [])) (skip-Holds b seen h e old)))
  | inr later ↦ elim (Bool-cases (full b seen h e)) [
    | inl over ↦ rw (later, over, push) (refl, inr (refuse-Refused b seen h e events later over))
    | inr room ↦
        rw (later, room, push)
          (subst
            (λ l. Ends b l (
              push_all
                (record b {
                  bytes = saturating_add b.bytes (event_approx_bytes e);
                  events = b.events ++ (e ∷ []);
                })
                events))
            (append_assoc seen (e ∷ []) events)
            (push_all-Ends events _ (seen ++ (e ∷ [])) (take-Holds b seen h e later room)))
  ]
]

-- A scan of any events collects exactly those after the cursor, or is refused; it is refused only
-- where those exceed the limit on their number or that on their bytes, and what it holds is within
-- both limits either way.
pub replay_exact :
    (after : ℕ) (events : List Event)
    → Holds events (push_all (new after) events)
      ⊎ Refused after events (push_all (new after) events)
unfolding new
replay_exact after events =
    (push_all-Ends events (new after) [] (record {
      kept = refl;
      charged = refl;
      few = omega arith;
      light = omega arith;
      within = refl;
    })).1
