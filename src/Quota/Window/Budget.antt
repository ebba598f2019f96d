-- ===== src/Quota/Window/Budget.antt =====
-- No key is granted more than twice its budget in any interval of a window's length.
use asp.Base.{
  ℕ, ◌+◌, ◌≤◌, ◌<◌, ◌≡◌, refl, sym, ap, subst, ◌∙◌, true, false, ◌&&◌, Bool-cases, Option-cases,
  inl, inr, Option, none, some, List, [], ◌∷◌, length, ltb, leb, if◌then◌else◌, saturating_add,
  u64_max, Result, err, arith,
}
use asp.Base.Keys.{
  Key, Map, IsMap, lookup, insert, retain, lookup-insert, lookup-insert_self, lookup-retain,
  IsMap-insert, IsMap-retain,
}
use asp.Quota.Window.{
  ByteBudgetWindow, QuotaError, is_open, with_entry, current, charge, admit_bytes,
  principal_request_byte_window, table_full, max_principal_byte_budget_keys,
}
use asp.Quota.Window.Ledger.{
  Request, Ordered, Ledger, entered, admit_one, admit_all, spent, spent_since, spent-split,
  spent-le, spent_since_mono,
}

abbrev window : ℕ
window = principal_request_byte_window

module _ {K : Type 0} ⦃k : Key K⦄ (limit : ℕ) (key : K) where
  -- The key has no window: what it spent in the last one is within the limit.
  record Closed (clock : ℕ) (log : List (Request K)) : Type 0 where
    recent : (a : ℕ) → clock ≤ a + window → spent_since key a log ≤ limit
    ended : spent_since key clock log ≡ 0

  -- The key has a window, which counts what was spent since it started.
  record Counts (w : ByteBudgetWindow) (clock : ℕ) (log : List (Request K)) : Type 0 where
    started : w.started ≤ clock
    counted : spent_since key w.started log ≡ w.bytes
    within : w.bytes ≤ limit
    recent : (a : ℕ) → w.started ≤ a + window → spent key a w.started log ≤ limit
    ended : spent_since key (w.started + window) log ≡ 0

  Closed-later :
      (clock now : ℕ) (log : List (Request K)) → clock ≤ now → Closed clock log → Closed now log
  Closed-later clock now log h c = record {
    recent = λ a g. c.recent a (omega arith);
    ended = omega (arith, spent_since_mono key clock now log h, c.ended);
  }

  Counts-later :
      (w : ByteBudgetWindow) (clock now : ℕ) (log : List (Request K))
      → clock ≤ now
      → Counts w clock log
      → Counts w now log
  Counts-later w clock now log h c = record {
    started = omega (arith, c.started);
    counted = c.counted;
    within = c.within;
    recent = c.recent;
    ended = c.ended;
  }

  Counts-ended :
      (w : ByteBudgetWindow) (clock now : ℕ) (log : List (Request K))
      → Counts w clock log
      → is_open now w ≡ false
      → Closed now log
  unfolding is_open
  Counts-ended w clock now log c over =
      let past : w.started + window ≤ now = ground (arith, over) in
      record {
        recent = λ a g.
            omega (arith, spent_since_mono key w.started a log (omega arith), c.counted, c.within);
        ended = omega (arith, spent_since_mono key (w.started + window) now log past, c.ended);
      }

  Closed-opened :
      (now : ℕ) (log : List (Request K))
      → Closed now log
      → Counts (record { started = now; bytes = 0 }) now log
  Closed-opened now log c = record {
    started = omega arith;
    counted = c.ended;
    within = omega arith;
    recent = λ a g. omega (arith, spent-le key a now log, c.recent a g);
    ended = omega (arith, spent_since_mono key now (now + window) log (omega arith), c.ended);
  }

  -- A request of the key that is admitted into its window.
  Counts-charged :
      (w : ByteBudgetWindow) (r : Request K) (log : List (Request K))
      → k.key_eq r.key key ≡ true
      → Counts w r.at log
      → is_open r.at w ≡ true
      → w.bytes + r.size ≤ limit
      → Counts (record w { bytes = w.bytes + r.size }) r.at (r ∷ log)
  unfolding is_open spent spent_since
  Counts-charged w r log own c open_ fits = record {
    started = c.started;
    counted = ground (arith, c.started, c.counted, own);
    within = fits;
    recent = λ a g. ground (arith, c.recent a g, c.started);
    ended = ground (arith, c.ended, open_);
  }

  abbrev Twice : List (Request K) → Type 0
  Twice log = (a : ℕ) → spent key a (a + window) log ≤ limit + limit

  Twice-charged :
      (w : ByteBudgetWindow) (r : Request K) (log : List (Request K))
      → k.key_eq r.key key ≡ true
      → Counts w r.at log
      → w.bytes + r.size ≤ limit
      → Twice log
      → Twice (r ∷ log)
  unfolding spent
  Twice-charged w r log own c fits twice a =
      elim (Bool-cases (leb a r.at && ltb r.at (a + window))) [
        | inr outside ↦ ground (arith, outside, twice a)
        | inl inside ↦
            let reached : w.started ≤ a + window = ground (arith, inside, c.started) in
            let before : spent key a (a + window) log ≤ limit + w.bytes =
              elim (Bool-cases (leb a w.started)) [
                | inl early ↦ ground (
                  arith,
                  early,
                  spent-split key a w.started (a + window) log,
                  c.recent a reached,
                  spent-le key w.started (a + window) log,
                  c.counted,
                )
                | inr late ↦ ground (
                  arith,
                  late,
                  spent-le key a (a + window) log,
                  spent_since_mono key w.started a log,
                  c.counted,
                )
              ] in
            ground (arith, before, fits, own)
      ]

  -- What is known of a key, by its entry in the table.
  Shape : Option ByteBudgetWindow → ℕ → List (Request K) → Type 0
  Shape none clock log = Closed clock log
  Shape (some w) clock log = Counts w clock log

  record Known (windows : Map K ByteBudgetWindow) (clock : ℕ) (log : List (Request K))
      : Type 0 where
    distinct : IsMap windows
    shape : Shape (lookup windows key) clock log
    twice : Twice log

  Shape-live :
      (o : Option ByteBudgetWindow) (clock now : ℕ) (log : List (Request K))
      → clock ≤ now
      → Shape o clock log
      → Shape (elim o [ none ↦ none | some w ↦ if is_open now w then some w else none ]) now log
  unfolding Shape
  Shape-live none clock now log h s = Closed-later clock now log h s
  Shape-live (some w) clock now log h s = elim (Bool-cases (is_open now w)) [
    | inl open_ ↦ rw open_ (Counts-later w clock now log h s)
    | inr over ↦ rw over (Counts-ended w clock now log s over)
  ]

  Known-live :
      (windows : Map K ByteBudgetWindow) (clock now : ℕ) (log : List (Request K))
      → clock ≤ now
      → Known windows clock log
      → Known (retain (λ _ w. is_open now w) windows) now log
  Known-live windows clock now log h s = record {
    distinct = IsMap-retain (λ _ w. is_open now w) windows s.distinct;
    shape =
        subst (λ o. Shape o now log)
          (sym (lookup-retain (λ _ w. is_open now w) windows key s.distinct))
          (Shape-live (lookup windows key) clock now log h s.shape);
    twice = s.twice;
  }

  Known-insert :
      (windows : Map K ByteBudgetWindow) (a : K) (v : ByteBudgetWindow) (clock : ℕ)
      (log : List (Request K))
      → IsMap windows
      → Twice log
      → (k.key_eq a key ≡ true → Counts v clock log)
      → (k.key_eq a key ≡ false → Shape (lookup windows key) clock log)
      → Known (insert windows a v) clock log
  unfolding Shape
  Known-insert windows a v clock log distinct twice own other =
      let at = lookup-insert windows a key v in
      record {
        distinct = IsMap-insert windows a v distinct;
        shape = elim (Bool-cases (k.key_eq a key)) [
          | inl same ↦
              let e : some v ≡ lookup (insert windows a v) key = ground (arith, at, same) in
              subst (λ o. Shape o clock log) e (own same)
          | inr differs ↦
              let e : lookup windows key ≡ lookup (insert windows a v) key =
                ground (arith, at, differs) in
              subst (λ o. Shape o clock log) e (other differs)
        ];
        twice = twice;
      }

  -- What another key is granted changes nothing for this one.
  Shape-other :
      (o : Option ByteBudgetWindow) (clock : ℕ) (r : Request K) (log : List (Request K))
      → k.key_eq r.key key ≡ false
      → Shape o clock log
      → Shape o clock (r ∷ log)
  unfolding Shape spent spent_since
  Shape-other none clock r log other s = record {
    recent = λ a g. rw other (s.recent a g);
    ended = rw other s.ended;
  }
  Shape-other (some w) clock r log other s = record {
    started = s.started;
    counted = rw other s.counted;
    within = s.within;
    recent = λ a g. rw other (s.recent a g);
    ended = rw other s.ended;
  }

  Twice-other :
      (r : Request K) (log : List (Request K))
      → k.key_eq r.key key ≡ false
      → Twice log
      → Twice (r ∷ log)
  unfolding spent
  Twice-other r log other twice a = rw other (twice a)

  Counts-of :
      (windows : Map K ByteBudgetWindow) (a : K) (w : ByteBudgetWindow) (clock : ℕ)
      (log : List (Request K))
      → Known windows clock log
      → lookup windows a ≡ some w
      → k.key_eq a key ≡ true
      → Counts w clock log
  unfolding Shape
  Counts-of windows a w clock log s found same =
      subst (λ o. Shape o clock log)
        (ap (lookup windows) (sym ((k.key_eq_iff a key).0 same)) ∙ found) s.shape

  Closed-of :
      (windows : Map K ByteBudgetWindow) (a : K) (clock : ℕ) (log : List (Request K))
      → Known windows clock log
      → lookup windows a ≡ none
      → k.key_eq a key ≡ true
      → Closed clock log
  unfolding Shape
  Closed-of windows a clock log s missing same =
      subst (λ o. Shape o clock log)
        (ap (lookup windows) (sym ((k.key_eq_iff a key).0 same)) ∙ missing) s.shape

  charge-Known :
      (windows : Map K ByteBudgetWindow) (w : ByteBudgetWindow) (r : Request K)
      (log : List (Request K))
      → limit < u64_max
      → Known windows r.at log
      → lookup windows r.key ≡ some w
      → is_open r.at w ≡ true
      → Known
          (charge limit windows r.key w r.size).0
          r.at
          (entered log r (charge limit windows r.key w r.size).1)
  unfolding charge
  charge-Known windows w r log small s found open_ =
      elim (Bool-cases (ltb limit (saturating_add w.bytes r.size))) [
        | inl over ↦ rw over (
            Known-insert windows r.key w r.at log s.distinct s.twice
              (Counts-of windows r.key w r.at log s found) (λ differs. s.shape))
        | inr fits ↦
            let total : w.bytes + r.size ≤ limit = ground (arith, fits) in
            let plain : saturating_add w.bytes r.size ≡ w.bytes + r.size = omega arith in
            rw fits (
              rw plain (
                Known-insert windows r.key (record w { bytes = w.bytes + r.size }) r.at (r ∷ log)
                  s.distinct
                  (elim (Bool-cases (k.key_eq r.key key)) [
                    | inl same ↦
                        Twice-charged w r log same (Counts-of windows r.key w r.at log s found same)
                          total s.twice
                    | inr differs ↦ Twice-other r log differs s.twice
                  ])
                  (λ same.
                    Counts-charged w r log same (Counts-of windows r.key w r.at log s found same)
                      open_ total)
                  (λ differs. Shape-other (lookup windows key) r.at r log differs s.shape)))
      ]

  live-open :
      (windows : Map K ByteBudgetWindow) (now : ℕ) (a : K) (w : ByteBudgetWindow)
      → IsMap windows
      → lookup (retain (λ _ w. is_open now w) windows) a ≡ some w
      → is_open now w ≡ true
  live-open windows now a w distinct found =
      let at = lookup-retain (λ _ w. is_open now w) windows a distinct in
      elim (Option-cases (lookup windows a)) [
        | inl e ↦ absurd (ground (arith, at, e))
        | inr (v, e) ↦ elim (Bool-cases (is_open now v)) [
          | inl open_ ↦ ground (arith, at, e, open_)
          | inr over ↦ absurd (ground (arith, at, e, over))
        ]
      ]

  new-open : (now : ℕ) → is_open now (record { started = now; bytes = 0 }) ≡ true
  unfolding is_open
  new-open now = ground arith

  admit-Known :
      (windows : Map K ByteBudgetWindow) (clock : ℕ) (r : Request K) (log : List (Request K))
      → limit < u64_max
      → clock ≤ r.at
      → Known windows clock log
      → Known
          (admit_bytes limit r.at windows r.key r.size).0
          r.at
          (entered log r (admit_bytes limit r.at windows r.key r.size).1)
  unfolding admit_bytes with_entry current
  admit-Known windows clock r log small later s =
      let live = retain (λ _ w. is_open r.at w) windows in
      let kept = Known-live windows clock r.at log later s in
      let Goes = λ (p : Map K ByteBudgetWindow × Result QuotaError (Unit {0})).
        Known p.0 r.at (entered log r p.1) in
      elim (Option-cases (lookup live r.key)) [
        | inr (w, found) ↦
            let open_ = live-open windows r.at r.key w s.distinct found in
            let e : charge limit live r.key w r.size ≡ admit_bytes limit r.at windows r.key r.size =
              ground (arith, found, open_) in
            subst Goes e (charge-Known live w r log small kept found open_)
        | inl missing ↦ elim (Bool-cases (leb max_principal_byte_budget_keys (length live))) [
          | inl full ↦
              let e : (live, err table_full) ≡ admit_bytes limit r.at windows r.key r.size =
                ground (arith, missing, full) in
              subst Goes e kept
          | inr room ↦
              let new : ByteBudgetWindow = record { started = r.at; bytes = 0 } in
              let found = lookup-insert_self live r.key new in
              let opened =
                Known-insert live r.key new r.at log kept.distinct kept.twice
                  (λ same. Closed-opened r.at log (Closed-of live r.key r.at log kept missing same))
                  (λ differs. kept.shape) in
              let e : charge limit (insert live r.key new) r.key new r.size
                  ≡ admit_bytes limit r.at windows r.key r.size =
                ground (arith, missing, room, found, new-open r.at) in
              subst Goes e
                (charge-Known (insert live r.key new) new r log small opened found (new-open r.at))
        ]
      ]

  admit_all-Known :
      (requests : List (Request K)) (clock : ℕ) (l : Ledger K)
      → limit < u64_max
      → Ordered clock requests
      → Known l.windows clock l.admitted
      → Twice (admit_all limit l requests).admitted
  unfolding admit_all admit_one
  admit_all-Known [] clock l small ordered s = s.twice
  admit_all-Known (r ∷ requests) clock l small ordered s =
      admit_all-Known requests r.at (admit_one limit l r) small ordered.1
        (admit-Known l.windows clock r l.admitted small ordered.0 s)

  -- The clock does not go back and the limit is below the machine's largest number. Then, of all the
  -- requests of all keys, in the order in which they come, those of one key that are admitted in the
  -- sixty seconds from any instant on sum up to at most twice the limit.
  pub admitted-Twice :
      (requests : List (Request K)) (from : ℕ)
      → limit < u64_max
      → Ordered 0 requests
      → spent key from
          (from + principal_request_byte_window)
          (admit_all limit (record { windows = []; admitted = [] }) requests).admitted
        ≤ limit + limit
  unfolding Shape spent spent_since lookup
  admitted-Twice requests from small ordered =
      admit_all-Known requests 0 (record { windows = []; admitted = [] }) small ordered
        (record {
          distinct = tt;
          shape = record { recent = λ a g. omega arith; ended = refl };
          twice = λ a. omega arith;
        })
        from
