-- ===== src/Wal/Scan/Sound.antt =====
-- What a scan accepts, whatever the file holds.
use asp.Base.{
  ℕ, zero, suc, ◌+◌, ◌≤◌, ◌<◌, ◌≡◌, refl, sym, subst, ◌∙◌, true, false, Option, none, some, List,
  [], ◌∷◌, arith, Bool-cases, Option-cases, ◌⊎◌, inl, inr, ok, err, ok_chain, ok_or, ok-injective,
  ok-err, ltb, saturating_add,
}
use asp.Event.{Event, Bytes}
use asp.Journal.Log.{Numbered}
use asp.Wire.Frame.Stream.{Codec}
use asp.Recovery.{LoadedSession}
use asp.Recovery as Recovery
use asp.Recovery.Restart.{push_all, push-next_id}
use asp.Wal.Scan.{
  out_of_fuel, not_decoded, Mode, Scan, check_id, load_event, accept_event, note_id, decode_event,
  take_frame, scan, read_frame, advance, collect,
}

-- `check_id` lets an event through only in order.
check_id_lem :
    (m : Mode) (s : Scan) (id : ℕ)
    → check_id m s id ≡ ok tt
    → m.snapshot_boundary < id
    → id ≡ saturating_add s.last_event_id 1
unfolding check_id
check_id_lem m s id h later = ground arith

-- A scan at startup: events are materialized and none are collected, and the last id is that of the
-- session.
pub record InStep (m : Mode) (s : Scan) : Type 0 where
  pub materializes : m.materialize ≡ true
  pub collects_none : s.collected ≡ none
  pub unlimited : s.collection_limited ≡ false
  pub same_last : s.loaded.next_id ≡ s.last_event_id
  pub past_boundary : m.snapshot_boundary ≤ s.last_event_id

pub rest-InStep :
    (m : Mode) (s : Scan) (rest : Bytes) → InStep m s → InStep m (record s { rest = rest })
rest-InStep m s rest i = record {
  materializes = i.materializes;
  collects_none = i.collects_none;
  unlimited = i.unlimited;
  same_last = i.same_last;
  past_boundary = i.past_boundary;
}

module _ (sha256 : Bytes → Bytes) where
  -- What one event does to a session: nothing, or it is the next one and is pushed.
  abbrev Step : Scan → Event → Scan → Type 0
  Step s e t =
      ((t.loaded ≡ s.loaded) × (t.last_event_id ≡ s.last_event_id))
      ⊎ ((Recovery.push sha256 s.loaded e ≡ some t.loaded)
          × (e.id ≡ s.last_event_id + 1)
          × (t.last_event_id ≡ e.id))

  -- The scan after the next event, where the session has become `l`.
  abbrev pub loaded_scan : Scan → Event → LoadedSession → Scan
  loaded_scan s e l = record (note_id s e.id) { loaded = l; last_event_id = l.next_id }

  pub accept_new :
      (m : Mode) (s : Scan) (e : Event) (l : LoadedSession)
      → InStep m s
      → ltb s.loaded.next_id e.id ≡ true
      → Recovery.push sha256 s.loaded e ≡ some l
      → accept_event sha256 m s e ≡ ok (loaded_scan s e l)
  unfolding accept_event load_event advance collect
  accept_new m s e l i new p =
      rw (i.collects_none, i.materializes, new, p, accept_event, load_event, advance, collect) refl

  accept_failed :
      (m : Mode) (s : Scan) (e : Event)
      → InStep m s
      → ltb s.loaded.next_id e.id ≡ true
      → Recovery.push sha256 s.loaded e ≡ none
      → accept_event sha256 m s e ≡ err out_of_fuel
  unfolding accept_event load_event advance collect
  accept_failed m s e i new p =
      rw (i.collects_none, i.materializes, new, p, accept_event, load_event, advance, collect) refl

  accept_old :
      (m : Mode) (s : Scan) (e : Event)
      → ltb s.loaded.next_id e.id ≡ false
      → accept_event sha256 m s e ≡ ok (note_id s e.id)
  unfolding accept_event
  accept_old m s e old = rw (old, accept_event) refl

  pub loaded_scan-InStep :
      (m : Mode) (s : Scan) (e : Event) (l : LoadedSession)
      → InStep m s
      → Recovery.push sha256 s.loaded e ≡ some l
      → InStep m (loaded_scan s e l)
  loaded_scan-InStep m s e l i p = record {
    materializes = i.materializes;
    collects_none = i.collects_none;
    unlimited = i.unlimited;
    same_last = refl;
    past_boundary = omega (arith, push-next_id sha256 s.loaded e l p, i.same_last, i.past_boundary);
  }

  note_id-InStep : (m : Mode) (s : Scan) (id : ℕ) → InStep m s → InStep m (note_id s id)
  note_id-InStep m s id i = record {
    materializes = i.materializes;
    collects_none = i.collects_none;
    unlimited = i.unlimited;
    same_last = i.same_last;
    past_boundary = i.past_boundary;
  }

  accept_event-Step :
      (m : Mode) (s : Scan) (e : Event) (t : Scan)
      → InStep m s
      → check_id m s e.id ≡ ok tt
      → accept_event sha256 m s e ≡ ok t
      → InStep m t × Step s e t
  accept_event-Step m s e t i checked h = elim (Bool-cases (ltb s.loaded.next_id e.id)) [
    | inl new ↦ elim (Option-cases (Recovery.push sha256 s.loaded e)) [
      | inl p ↦ absurd (ok-err (sym h ∙ accept_failed m s e i new p))
      | inr (l, p) ↦
          subst (λ t. InStep m t × Step s e t) (ok-injective (sym (accept_new m s e l i new p) ∙ h))
            (
              loaded_scan-InStep m s e l i p,
              inr (
                p,
                ground (arith, check_id_lem m s e.id checked, i.same_last, i.past_boundary),
                push-next_id sha256 s.loaded e l p ∙ ground arith,
              ),
            )
    ]
    | inr old ↦
        subst (λ t. InStep m t × Step s e t) (ok-injective (sym (accept_old m s e old) ∙ h))
          (note_id-InStep m s e.id i, inl (refl, refl))
  ]

-- What a scan of any bytes loads: events whose ids follow the last one without a gap.
pub record Accepts (sha256 : Bytes → Bytes) (m : Mode) (s out : Scan) : Type 0 where
  pub events : List Event
  pub pushed : push_all sha256 s.loaded events ≡ some out.loaded
  pub numbered : Numbered (s.last_event_id + 1) out.last_event_id events
  pub in_step : InStep m out

module _ (sha256 : Bytes → Bytes) (crc32 : Bytes → ℕ) (postcard : Codec Event) where
  decode_event-check_id :
      (m : Mode) (s : Scan) (payload : Bytes) (e : Event)
      → decode_event sha256 crc32 postcard m s payload ≡ ok e
      → check_id m s e.id ≡ ok tt
  unfolding decode_event
  decode_event-check_id m s payload e h =
      let (d, e1, h1) = ok_chain (ok_or (postcard.decode_message payload) not_decoded) _ h in
      let (u, e2, h2) = ok_chain (check_id m s d.id) _ h1 in
      subst (λ (e : Event). check_id m s e.id ≡ ok tt) (ok-injective h2) e2

  Step-Accepts :
      (m : Mode) (s : Scan) (e : Event) (t : Scan) (rest : Bytes) (out : Scan)
      → Step sha256 s e t
      → Accepts sha256 m (record t { rest = rest }) out
      → Accepts sha256 m s out
  Step-Accepts m s e t rest out (inl (same, last)) a = record {
    events = a.events;
    pushed = subst (λ l. push_all sha256 l a.events ≡ some out.loaded) same a.pushed;
    numbered = subst (λ k. Numbered (k + 1) out.last_event_id a.events) last a.numbered;
    in_step = a.in_step;
  }
  Step-Accepts m s e t rest out (inr (p, next, last)) a = record {
    events = e ∷ a.events;
    pushed = rw (p, push_all) a.pushed;
    numbered =
        (next, subst (λ k. Numbered (k + 1) out.last_event_id a.events) (last ∙ next) a.numbered);
    in_step = a.in_step;
  }

  -- One turn of the loop ends the scan, or takes one event.
  Turn : ℕ → Mode → Scan → Scan → Type 0
  Turn fuel m s out =
      (s ≡ out)
      ⊎ ((e : Event) × (t : Scan) × (rest : Bytes) × InStep m t
          × Step sha256 s e t
          × (scan sha256 crc32 postcard fuel m (record t { rest = rest }) ≡ ok out))

  after_frame :
      (fuel : ℕ) (m : Mode) (s out : Scan) (frame : Option (Bytes × Bytes))
      → InStep m s
      → take_frame sha256 crc32 postcard (scan sha256 crc32 postcard fuel m) m s frame ≡ ok out
      → Turn fuel m s out
  unfolding take_frame Turn
  after_frame fuel m s out none i h = inl (ok-injective h)
  after_frame fuel m s out (some (payload, rest)) i h =
      let (e, d, h1) = ok_chain (decode_event sha256 crc32 postcard m s payload) _ h in
      let (t, a, h2) = ok_chain (accept_event sha256 m s e) _ h1 in
      let (j, step) =
        accept_event-Step sha256 m s e t i (decode_event-check_id m s payload e d) a in
      inr (e, t, rest, j, step, (rw j.unlimited at h2))

  scan-Turn :
      (fuel : ℕ) (m : Mode) (s out : Scan)
      → InStep m s
      → scan sha256 crc32 postcard (suc fuel) m s ≡ ok out
      → Turn fuel m s out
  unfolding scan
  scan-Turn fuel m s out i h =
      let (frame, f, h1) = ok_chain (read_frame crc32 m s.rest) _ h in
      after_frame fuel m s out frame i h1

  pub scan-Accepts :
      (fuel : ℕ) (m : Mode) (s out : Scan)
      → InStep m s
      → scan sha256 crc32 postcard fuel m s ≡ ok out
      → Accepts sha256 m s out
  unfolding scan Turn
  scan-Accepts zero m s out i h = absurd (cc)
  scan-Accepts (suc fuel) m s out i h = elim (scan-Turn fuel m s out i h) [
    | inl same ↦
        subst (Accepts sha256 m s) same
          (record { events = []; pushed = refl; numbered = refl; in_step = i })
    | inr (e, t, rest, j, step, h') ↦
        Step-Accepts m s e t rest out step
          (scan-Accepts fuel m (record t { rest = rest }) out (rest-InStep m t rest j) h')
  ]
