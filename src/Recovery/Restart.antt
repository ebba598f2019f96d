-- ===== src/Recovery/Restart.antt =====
-- The journal that a restarted daemon makes of the events it has loaded.
use asp.Base.{
  ℕ, ◌+◌, ◌≤◌, ◌≡◌, refl, ap, subst, ◌∙◌, sym, none, some, Option, List, [], ◌∷◌, ◌++◌,
  append_assoc, length, arith, Option-cases, inl, inr, max, append-nil,
}
use asp.Base.Keys.{lookup, uuid_key}
use asp.Event.{Bytes, Event, EventKind, event_approx_bytes, process_output, process_exited}
use asp.Journal.{
  Journal, from_loaded, total_bytes, evict, journal_max_events, journal_max_bytes, front_unix_ms,
}
use asp.Journal.Log.{Numbered, Represents, Numbered-snoc, total_bytes-append}
use asp.Journal.Ops.{evict_lem}
use asp.Recovery.{
  LoadedSession, SessionSnapshotData, from_snapshot, apply, apply_kind, push, evict_loaded, noted,
  appended,
}

-- Journal::from_loaded(loaded.events, loaded.next_id, loaded.oldest_event_unix_ms)
abbrev pub journal_of : LoadedSession → Journal
journal_of s = from_loaded s.events s.next_id s.oldest_event_unix_ms

-- What `apply` leaves alone.
record SameWindow (s t : LoadedSession) : Type 0 where
  pub same_events : t.events ≡ s.events
  pub same_next_id : t.next_id ≡ s.next_id
  pub same_charge : t.approx_bytes ≡ s.approx_bytes

module _ (sha256 : Bytes → Bytes) where
  apply_kind-SameWindow :
      (s : LoadedSession) (id now : ℕ) (kind : EventKind)
      → SameWindow s (apply_kind sha256 s id now kind)
  unfolding apply_kind
  apply_kind-SameWindow s id now (process_output process_id stream offset bytes) =
      elim (Option-cases (lookup s.processes process_id)) [
        | inl e ↦
            rw (e, apply_kind)
              (record { same_events = refl; same_next_id = refl; same_charge = refl })
        | inr (p, e) ↦
            rw (e, apply_kind)
              (record { same_events = refl; same_next_id = refl; same_charge = refl })
      ]
  apply_kind-SameWindow s id now (process_exited process_id code) =
      elim (Option-cases (lookup s.processes process_id)) [
        | inl e ↦
            rw (e, apply_kind)
              (record { same_events = refl; same_next_id = refl; same_charge = refl })
        | inr (p, e) ↦
            rw (e, apply_kind)
              (record { same_events = refl; same_next_id = refl; same_charge = refl })
      ]
  apply_kind-SameWindow s id now kind = record {
    same_events = refl;
    same_next_id = refl;
    same_charge = refl;
  }

abbrev pub window : LoadedSession → Journal
window s = record {
  events = s.events;
  next_id = s.next_id;
  approx_bytes = s.approx_bytes;
  oldest_event_unix_ms = s.oldest_event_unix_ms;
}

-- The session stands for `log`, within the journal's limits.
pub record Loads (log : List Event) (s : LoadedSession) : Type 0 where
  pub represents : Represents log (window s)
  pub few : length s.events ≤ journal_max_events
  pub light : s.approx_bytes ≤ journal_max_bytes

-- Each event is charged less than 4 GiB.
abbrev pub AllLight : List Event → Type 0
AllLight [] = Unit {0}
AllLight (e ∷ events) = (event_approx_bytes e ≤ 4294967295) × AllLight events

-- What eviction makes of a session.
evict_loaded-Loads :
    (s : LoadedSession) (log : List Event)
    → Represents log (window s)
    → (t : LoadedSession) × (evict_loaded s ≡ some t) × Loads log t × (t.next_id ≡ s.next_id)
evict_loaded-Loads s log r =
    let (out, e, v) = evict_lem (length s.events + 1) s.events (omega arith) in
    (
      record s { events = out.0; approx_bytes = out.1; oldest_event_unix_ms = front_unix_ms out.0 },
      let e' : evict (length s.events + 1) s.events s.approx_bytes ≡ some out =
            ap (evict (length s.events + 1) s.events) r.charged ∙ e in
          rw (e', evict_loaded) refl,
      record {
        represents = record {
          evicted = r.evicted ++ v.gone;
          split =
              r.split
              ∙ ap (λ l. r.evicted ++ l) v.split
              ∙ sym (append_assoc r.evicted v.gone out.0);
          numbered = r.numbered;
          charged = v.charged;
        };
        few = v.few;
        light = v.light;
      },
      refl,
    )

-- One more event at the end of the window.
extended :
    (s : LoadedSession) (log : List Event) (e : Event) (t : LoadedSession)
    → Loads log s
    → e.id ≡ s.next_id + 1
    → event_approx_bytes e ≤ 4294967295
    → SameWindow (noted s e) t
    → Represents (log ++ (e ∷ [])) (window (appended t e))
extended s log e t h next small w = record {
  evicted = h.represents.evicted;
  split =
      ap (λ l. l ++ (e ∷ [])) h.represents.split
      ∙ append_assoc h.represents.evicted s.events (e ∷ [])
      ∙ ap (λ l. h.represents.evicted ++ (l ++ (e ∷ []))) (sym w.same_events);
  numbered =
      subst (λ k. Numbered 1 k (log ++ (e ∷ []))) {x = s.next_id + 1}
        (omega (arith, w.same_next_id, next))
        (Numbered-snoc 1 s.next_id log e h.represents.numbered next);
  charged = omega (
    arith,
    w.same_charge,
    ap total_bytes w.same_events,
    h.represents.charged,
    h.light,
    total_bytes-append t.events (e ∷ []),
  );
}

evict_loaded-next_id : (s t : LoadedSession) → evict_loaded s ≡ some t → t.next_id ≡ s.next_id
evict_loaded-next_id s t h =
    elim (Option-cases (evict (length s.events + 1) s.events s.approx_bytes)) [
      | inl e ↦ absurd (ground (arith, e))
      | inr (out, e) ↦ ground (arith, e)
    ]

module _ (sha256 : Bytes → Bytes) where
  apply-SameWindow : (s : LoadedSession) (e : Event) → SameWindow s (apply sha256 s e)
  unfolding apply
  apply-SameWindow s e = apply_kind-SameWindow sha256 s e.id e.unix_ms e.kind

  pub push-next_id :
      (s : LoadedSession) (e : Event) (t : LoadedSession)
      → push sha256 s e ≡ some t
      → t.next_id ≡ max s.next_id e.id
  unfolding push
  push-next_id s e t h =
      evict_loaded-next_id (appended (apply sha256 (noted s e) e) e) t h
      ∙ (apply-SameWindow (noted s e) e).same_next_id

  pub push-Loads :
      (s : LoadedSession) (log : List Event) (e : Event)
      → Loads log s
      → e.id ≡ s.next_id + 1
      → event_approx_bytes e ≤ 4294967295
      → (t : LoadedSession) × (push sha256 s e ≡ some t)
        × Loads (log ++ (e ∷ [])) t
        × (t.next_id ≡ e.id)
  unfolding push
  push-Loads s log e h next small =
      let w = apply-SameWindow (noted s e) e in
      let (t, done, loads, last) =
        evict_loaded-Loads (appended (apply sha256 (noted s e) e) e) (log ++ (e ∷ []))
          (extended s log e (apply sha256 (noted s e) e) h next small w) in
      (t, done, loads, omega (arith, last, w.same_next_id))

  -- the events of the log files, one after the other
  abbrev pub push_all : LoadedSession → List Event → Option LoadedSession
  push_all s [] = some s
  push_all s (e ∷ events) = elim (push sha256 s e) [ none ↦ none | some t ↦ push_all t events ]

  push_all-Loads :
      (events : List Event) (s : LoadedSession) (log : List Event) (last : ℕ)
      → Loads log s
      → Numbered (s.next_id + 1) last events
      → AllLight events
      → (t : LoadedSession) × (push_all s events ≡ some t)
        × Loads (log ++ events) t
        × (t.next_id ≡ last)
  push_all-Loads [] s log last h numbered small =
      (s, refl, subst (λ l. Loads l s) (sym (append-nil log)) h, omega (arith, numbered))
  push_all-Loads (e ∷ events) s log last h numbered small =
      let (t, done, loads, at) = push-Loads s log e h numbered.0 small.0 in
      let (u, done', loads', at') =
        push_all-Loads events t (log ++ (e ∷ [])) last loads
          (subst (λ k. Numbered (k + 1) last events) (sym at)
            (subst (λ k. Numbered (k + 1) last events) (sym numbered.0) numbered.1))
          small.1 in
      (
        u,
        rw (done, push_all) done',
        subst (λ l. Loads l u) (append_assoc log (e ∷ []) events) loads',
        at',
      )

  -- A daemon that starts with nothing loaded at the boundary of a snapshot, and reads the events after
  -- it, each charged less than 4 GiB, makes a journal that is a window on the whole log, within both
  -- limits.
  pub restart-Represents :
      (d : SessionSnapshotData) (earlier events : List Event) (last : ℕ)
      → Numbered 1 d.through_event_id earlier
      → Numbered (d.through_event_id + 1) last events
      → AllLight events
      → (t : LoadedSession) × (push_all (from_snapshot sha256 d) events ≡ some t)
        × Represents (earlier ++ events) (journal_of t)
        × (t.next_id ≡ last)
        × (length t.events ≤ journal_max_events)
        × (total_bytes t.events ≤ journal_max_bytes)
  unfolding from_snapshot from_loaded
  restart-Represents d earlier events last numbered after small =
      let (t, done, loads, at) =
        push_all-Loads events (from_snapshot sha256 d) earlier last
          (record {
            represents = record {
              evicted = earlier;
              split = sym (append-nil earlier);
              numbered = numbered;
              charged = refl;
            };
            few = omega arith;
            light = omega arith;
          })
          after small in
      (
        t,
        done,
        record {
          evicted = loads.represents.evicted;
          split = loads.represents.split;
          numbered = loads.represents.numbered;
          charged = refl;
        },
        at,
        loads.few,
        omega (arith, loads.light, loads.represents.charged),
      )
