-- ===== src/Pty/Converge/Invariant.antt =====
-- The client's screen is always one that the terminal showed.
use asp.Base.{
  In, ℕ, ◌≡◌, ap, sym, subst, ◌∙◌, ◌⊎◌, inl, inr, true, false, ◌&&◌, Option, none, some, List,
  length, arith, ok, Result-cases, Option-cases, Bool-cases, ltb, leb, ◌==◌,
}
use asp.Event.{Bytes}
use asp.Wire.Frame.{Zlib}
use asp.Wire.Frame.Stream.{Codec}
use asp.Pty.Datagram.{
  PtyStateDatagram, PtyStateDeltaDatagram, PtyStateRichDatagram, PtyRowDelta, starts_with,
  pty_delta_datagram_magic, pty_rich_datagram_magic, pty_rich_compressed_datagram_magic,
  encode_pty_state_delta_datagram, decode_pty_state_delta_datagram, decode_pty_rich_datagram,
  decode_pty_state_datagram, pty_datagram_max_decoded_bytes, pty_datagram_max_rows,
}
use asp.Pty.Datagram.RoundTrip.{decode-encode_delta}
use asp.Pty.Server.{
  Snapshot, PtyDatagramState, Link, full_of, delta_of, derive_pty_row_deltas,
  send_pty_state_delta_or_full, send_delta, send_full, delta_for, smaller_delta,
}
use asp.Pty.Client.{
  Shell, Attachment, PlainPtyScreenState, apply_delta, base_matches, receive_delta, receive_plain,
  receive_datagram, record_pty_generation,
}
use asp.Pty.Delta.{view, apply_delta-derive}
use asp.Pty.Converge.{
  World, add, attached, Shown, Step, tick, lagged, deliver, output, ready, Reach, here, next,
  receive_ready, receive_output,
}

-- Postcard writes a datagram with its session's identifier first, whose length is no letter `P`.
abbrev pub Unmarked : Codec PtyStateDatagram → Type 0
Unmarked codec =
    (d : PtyStateDatagram) (b : Bytes)
    → codec.encode_message d ≡ some b
    → (starts_with b pty_delta_datagram_magic ≡ false)
      × (starts_with b pty_rich_datagram_magic ≡ false)
      × (starts_with b pty_rich_compressed_datagram_magic ≡ false)

module _ (z : Zlib) (plain_codec : Codec PtyStateDatagram)
    (delta_codec : Codec PtyStateDeltaDatagram) (rich_codec : Codec PtyStateRichDatagram)
    (history : ℕ → Snapshot) (a : Attachment) where
  abbrev IsShown : Snapshot → Type 0
  IsShown s = Shown z plain_codec delta_codec rich_codec history a s

  -- A datagram is a screen that the terminal showed, or what one such screen changed in another.
  abbrev pub Truthful : Bytes → Type 0
  Truthful p =
      ((s : Snapshot) × IsShown s × (plain_codec.encode_message (full_of a.session_id s) ≡ some p))
      ⊎ ((previous : Snapshot) × (s : Snapshot) × (changes : List PtyRowDelta) × (max_size : ℕ)
          × IsShown previous
          × IsShown s
          × (derive_pty_row_deltas previous s ≡ some changes)
          × (encode_pty_state_delta_datagram delta_codec (delta_of a.session_id previous s changes)
                max_size
              ≡ ok (some p)))

  -- The screen that a client keeps.
  abbrev pub Holds : Shell → Type 0
  Holds shell =
      (c : PlainPtyScreenState)
      → shell.plain_screen_state ≡ some c
      → (s : Snapshot) × IsShown s × (c ≡ view s)

  pub record Inv (w : World) : Type 0 where
    pub base : (s : Snapshot) → w.server.last ≡ some s → IsShown s
    pub truthful : (p : Bytes) → In p w.sent → Truthful p
    pub published : (s : Snapshot) → In s w.stream → IsShown s
    pub held : Holds w.shell

  plain-truth :
      (s : Snapshot) (p : Bytes)
      → IsShown s
      → plain_codec.encode_message (full_of a.session_id s) ≡ some p
      → Truthful p
  plain-truth s p shown e = inl (s, shown, e)

  send_full-truth :
      (link : Link) (max_size : ℕ) (s : Snapshot) (full p : Bytes)
      → IsShown s
      → plain_codec.encode_message (full_of a.session_id s) ≡ some full
      → (send_full plain_codec delta_codec link max_size s full).1 ≡ some p
      → Truthful p
  unfolding send_full
  send_full-truth link max_size s full p shown e h =
      elim (Bool-cases (leb (length full) max_size && link.send_datagram full)) [
        | inr refused ↦ absurd (ground (arith, refused))
        | inl sent ↦ plain-truth s p shown (e ∙ ground (arith, sent))
      ]

  smaller_delta-truth :
      (max_size : ℕ) (previous s : Snapshot) (full p : Bytes)
      → IsShown previous
      → IsShown s
      → smaller_delta plain_codec delta_codec a.session_id max_size previous s full ≡ some p
      → Truthful p
  unfolding smaller_delta
  smaller_delta-truth max_size previous s full p old new h =
      elim (Option-cases (derive_pty_row_deltas previous s)) [
        | inl none_derived ↦ absurd (ground (arith, none_derived))
        | inr (changes, d) ↦
            elim (Result-cases (
              encode_pty_state_delta_datagram delta_codec (delta_of a.session_id previous s changes)
                max_size)) [
                  | inr (failure, e) ↦ absurd (ground (arith, d, e))
                  | inl (none, e) ↦ absurd (ground (arith, d, e))
                  | inl (some q, e) ↦
                      let same : q ≡ p = ground (arith, d, e) in
                      inr (
                        previous,
                        s,
                        changes,
                        max_size,
                        old,
                        new,
                        d,
                        e ∙ ap (λ x. ok (some x)) same,
                      )
                ]
      ]

  delta_for-truth :
      (max_size : ℕ) (state : PtyDatagramState) (s : Snapshot) (full p : Bytes)
      → ((previous : Snapshot) → state.last ≡ some previous → IsShown previous)
      → IsShown s
      → delta_for plain_codec delta_codec a.session_id max_size state s full ≡ some p
      → Truthful p
  unfolding delta_for
  delta_for-truth max_size state s full p base shown h = elim (Option-cases state.last) [
    | inl e ↦ absurd (ground (arith, e))
    | inr (previous, e) ↦
        smaller_delta-truth max_size previous s full p (base previous e) shown (ground (arith, e))
  ]

  send_full-base :
      (link : Link) (max_size : ℕ) (s : Snapshot) (full : Bytes) (x : Snapshot)
      → IsShown s
      → (send_full plain_codec delta_codec link max_size s full).0.last ≡ some x
      → IsShown x
  unfolding send_full
  send_full-base link max_size s full x shown h =
      elim (Bool-cases (leb (length full) max_size && link.send_datagram full)) [
        | inr refused ↦ absurd (ground (arith, refused))
        | inl sent ↦ let same : s ≡ x = ground (arith, sent) in subst (λ y. IsShown y) same shown
      ]

  -- What one call sends is truthful, and what it keeps as its base was shown.
  abbrev Kept : PtyDatagramState × Option Bytes → Type 0
  Kept r =
      ((x : Snapshot) → r.0.last ≡ some x → IsShown x) × ((p : Bytes) → r.1 ≡ some p → Truthful p)

  send_delta-Kept :
      (link : Link) (max_size : ℕ) (state : PtyDatagramState) (s : Snapshot) (full : Bytes)
      (delta : Option Bytes)
      → IsShown s
      → plain_codec.encode_message (full_of a.session_id s) ≡ some full
      → ((p : Bytes) → delta ≡ some p → Truthful p)
      → Kept (send_delta plain_codec delta_codec link max_size state s delta full)
  unfolding send_delta
  send_delta-Kept link max_size state s full none shown e truth = (
    λ x. send_full-base link max_size s full x shown,
    λ p. send_full-truth link max_size s full p shown e,
  )
  send_delta-Kept link max_size state s full (some payload) shown e truth =
      elim (Bool-cases (link.send_datagram payload)) [
        | inr refused ↦ rw refused (
          (λ x. send_full-base link max_size s full x shown),
          (λ p. send_full-truth link max_size s full p shown e),
        )
        | inl sent ↦ rw sent (
          (λ x h. let same : s ≡ x = ground arith in subst (λ y. IsShown y) same shown),
          (λ p h. truth p h),
        )
      ]

  send-Kept :
      (link : Link) (state : PtyDatagramState) (s : Snapshot)
      → ((x : Snapshot) → state.last ≡ some x → IsShown x)
      → IsShown s
      → Kept (send_pty_state_delta_or_full plain_codec delta_codec a.session_id link state s)
  unfolding send_pty_state_delta_or_full
  send-Kept link state s base shown = elim (Option-cases link.max_datagram_size) [
    | inl e ↦ rw (e, send_pty_state_delta_or_full) (base, λ p h. absurd (ground arith))
    | inr (max_size, m) ↦
        elim (Option-cases (plain_codec.encode_message (full_of a.session_id s))) [
          | inl e ↦ rw (m, send_pty_state_delta_or_full, e) (base, λ p h. absurd (ground arith))
          | inr (full, e) ↦
              rw (m, send_pty_state_delta_or_full, e)
                (send_delta-Kept link max_size state s full
                  (delta_for plain_codec delta_codec a.session_id max_size state s full) shown e
                  (λ p. delta_for-truth max_size state s full p base shown))
        ]
  ]

  apply_delta-base :
      (c r : PlainPtyScreenState) (d : PtyStateDeltaDatagram)
      → apply_delta c d ≡ some r
      → d.base_generation ≡ c.generation
  unfolding apply_delta base_matches
  apply_delta-base c r d h = ground arith

  applied-Shown :
      (screen r : PlainPtyScreenState) (x previous s : Snapshot) (changes : List PtyRowDelta)
      → IsShown x
      → screen ≡ view x
      → IsShown previous
      → IsShown s
      → derive_pty_row_deltas previous s ≡ some changes
      → apply_delta screen (delta_of a.session_id previous s changes) ≡ some r
      → r ≡ view s
  applied-Shown screen r x previous s changes held is_view old new d g =
      let generation : x.generation ≡ previous.generation = sym (
        apply_delta-base screen r (delta_of a.session_id previous s changes) g
        ∙ ap (λ v. v.generation) is_view) in
      let base : x ≡ previous = held.1 ∙ ap history generation ∙ sym old.1 in
      let applied : apply_delta screen (delta_of a.session_id previous s changes) ≡ some (view s) =
        ap (λ v. apply_delta v (delta_of a.session_id previous s changes)) (is_view ∙ ap view base)
        ∙ apply_delta-derive a.session_id previous s changes old.0 new.0 d in
      ground (arith, g, applied)

  receive_delta-Holds :
      (shell : Shell) (previous s : Snapshot) (changes : List PtyRowDelta)
      → Holds shell
      → IsShown previous
      → IsShown s
      → derive_pty_row_deltas previous s ≡ some changes
      → Holds (receive_delta a shell (delta_of a.session_id previous s changes))
  unfolding receive_delta
  receive_delta-Holds shell previous s changes held old new d c h =
      elim (Option-cases shell.plain_screen_state) [
        | inl e ↦ absurd (ground (arith, e))
        | inr (screen, e) ↦ elim (Bool-cases (leb shell.newest_generation s.generation)) [
          | inr stale ↦ held c (ground (arith, e, stale))
          | inl fresh ↦
              elim (Option-cases (apply_delta screen (delta_of a.session_id previous s changes))) [
                | inl g ↦ held c (ground (arith, e, fresh, g))
                | inr (r, g) ↦ elim (Bool-cases (a.session_id == a.session_id)) [
                  | inr other ↦ held c (ground (arith, e, fresh, other))
                  | inl own ↦
                      let same : r ≡ c = ground (arith, e, fresh, g, own) in
                      let (x, shown, is_view) = held screen e in
                      (
                        s,
                        new,
                        sym same
                            ∙ applied-Shown screen r x previous s changes shown is_view old new d g,
                      )
                ]
              ]
        ]
      ]

  receive_plain-Holds :
      (shell : Shell) (s : Snapshot)
      → Holds shell
      → IsShown s
      → Holds (receive_plain a shell (full_of a.session_id s))
  unfolding receive_plain
  receive_plain-Holds shell s held shown c h =
      elim (Bool-cases (
        a.session_id == a.session_id
        && (record_pty_generation shell.newest_generation s.generation).1)) [
          | inr refused ↦ held c (ground (arith, refused))
          | inl taken ↦ let same : view s ≡ c = ground (arith, taken) in (s, shown, sym same)
        ]

  -- The full form is taken as it was sent, or fails to be decoded.
  receive_datagram-plain :
      (shell : Shell) (s : Snapshot) (p : Bytes)
      → Unmarked plain_codec
      → plain_codec.encode_message (full_of a.session_id s) ≡ some p
      → (receive_datagram z plain_codec delta_codec rich_codec a shell p
          ≡ receive_plain a shell (full_of a.session_id s))
        ⊎ (receive_datagram z plain_codec delta_codec rich_codec a shell p ≡ shell)
  unfolding receive_datagram decode_pty_state_delta_datagram decode_pty_rich_datagram
      decode_pty_state_datagram
  receive_datagram-plain shell s p unmarked e =
      let (not_delta, not_rich, not_compressed) = unmarked (full_of a.session_id s) p e in
      let back = plain_codec.decode-encode (full_of a.session_id s) p e in
      let d : decode_pty_state_delta_datagram delta_codec p ≡ ok none = ground (arith, not_delta) in
      let r : decode_pty_rich_datagram z rich_codec p a.pty_rich_compression ≡ ok none =
        ground (arith, not_rich, not_compressed) in
      elim (Bool-cases (ltb pty_datagram_max_decoded_bytes (length p))) [
        | inl long ↦ inr (ground (arith, d, r, long))
        | inr fits ↦ elim (Bool-cases (ltb pty_datagram_max_rows (length s.screen))) [
          | inl tall ↦ inr (ground (arith, d, r, fits, back, tall))
          | inr low ↦ inl (ground (arith, d, r, fits, back, low))
        ]
      ]

  datagram-Holds :
      (shell : Shell) (p : Bytes)
      → Unmarked plain_codec
      → a.pty_state_delta ≡ true
      → Holds shell
      → Truthful p
      → Holds (receive_datagram z plain_codec delta_codec rich_codec a shell p)
  unfolding receive_datagram
  datagram-Holds shell p unmarked on held (inl (s, shown, e)) =
      elim (receive_datagram-plain shell s p unmarked e) [
        | inl taken ↦ subst Holds (sym taken) (receive_plain-Holds shell s held shown)
        | inr ignored ↦ subst Holds (sym ignored) held
      ]
  datagram-Holds shell p unmarked on held (inr (previous, s, changes, max_size, old, new, d, e)) =
      let (back, fits, few) =
        decode-encode_delta delta_codec (delta_of a.session_id previous s changes) max_size p e in
      let taken : receive_datagram z plain_codec delta_codec rich_codec a shell p
          ≡ receive_delta a shell (delta_of a.session_id previous s changes) =
        ground (arith, on, back) in
      subst Holds (sym taken) (receive_delta-Holds shell previous s changes held old new d)

  add-Truthful :
      (o : Option Bytes) (sent : List Bytes)
      → ((p : Bytes) → o ≡ some p → Truthful p)
      → ((p : Bytes) → In p sent → Truthful p)
      → (p : Bytes) → In p (add o sent)
      → Truthful p
  add-Truthful none sent new old p at = old p at
  add-Truthful (some q) sent new old p (inl e) = new p (ap (λ x. some x) (sym e))
  add-Truthful (some q) sent new old p (inr at) = old p at

  ready-Holds :
      (shell : Shell) (s : Snapshot) → Holds shell → IsShown s → Holds (receive_ready shell s)
  unfolding receive_ready
  ready-Holds shell s held shown c h =
      elim (Bool-cases (record_pty_generation shell.newest_generation s.generation).1) [
        | inr refused ↦ held c (ground (arith, refused))
        | inl taken ↦ let same : view s ≡ c = ground (arith, taken) in (s, shown, sym same)
      ]

  Step-Inv :
      {w v : World}
      → Unmarked plain_codec
      → a.pty_state_delta ≡ true
      → Inv w
      → Step z plain_codec delta_codec rich_codec history a w v
      → Inv v
  unfolding receive_output
  Step-Inv {w} {v} unmarked on inv (tick link s shown e) =
      let kept = send-Kept link w.server s inv.base shown in
      subst Inv (sym e) (record {
        base = kept.0;
        truthful =
            add-Truthful
              (send_pty_state_delta_or_full plain_codec delta_codec a.session_id link w.server s).1
              w.sent kept.1 inv.truthful;
        published = inv.published;
        held = inv.held;
      })
  Step-Inv {w} {v} unmarked on inv (lagged s shown e) = subst Inv (sym e) (record {
    base = λ x h. let same : s ≡ x = ground arith in subst IsShown same shown;
    truthful = inv.truthful;
    published = λ x at. elim at [
      | inl same ↦ subst IsShown (sym same) shown
      | inr old ↦ inv.published x old
    ];
    held = inv.held;
  })
  Step-Inv {w} {v} unmarked on inv (deliver p at e) = subst Inv (sym e) (record {
    base = inv.base;
    truthful = inv.truthful;
    published = inv.published;
    held = datagram-Holds w.shell p unmarked on inv.held (inv.truthful p at);
  })
  Step-Inv {w} {v} unmarked on inv (output generation e) = subst Inv (sym e) (record {
    base = inv.base;
    truthful = inv.truthful;
    published = inv.published;
    held = inv.held;
  })
  Step-Inv {w} {v} unmarked on inv (ready s at e) = subst Inv (sym e) (record {
    base = inv.base;
    truthful = inv.truthful;
    published = inv.published;
    held = ready-Holds w.shell s inv.held (inv.published s at);
  })

  Reach-Inv :
      {w v : World}
      → Unmarked plain_codec
      → a.pty_state_delta ≡ true
      → Inv w
      → Reach z plain_codec delta_codec rich_codec history a w v
      → Inv v
  Reach-Inv unmarked on inv here = inv
  Reach-Inv unmarked on inv (next r step) = Step-Inv unmarked on (Reach-Inv unmarked on inv r) step

  -- The client attached with a screen that the terminal showed, deltas were negotiated, no plain
  -- datagram's bytes start like another kind's, and the snapshots that are sent are what `history` has at their generation.
  -- Then whatever datagrams are lost, repeated or reordered, before or after whatever output, the
  -- screen that the client keeps is one that the terminal showed, with its generation and its cursor.
  pub plain_screen_state-Shown :
      (s : Snapshot) (v : World)
      → Unmarked plain_codec
      → a.pty_state_delta ≡ true
      → Shown z plain_codec delta_codec rich_codec history a s
      → Reach z plain_codec delta_codec rich_codec history a (attached s) v
      → (c : PlainPtyScreenState) → v.shell.plain_screen_state ≡ some c
      → (x : Snapshot) × Shown z plain_codec delta_codec rich_codec history a x × (c ≡ view x)
  plain_screen_state-Shown s v unmarked on shown r =
      (Reach-Inv unmarked on
        (record {
          base = λ x h. let same : s ≡ x = ground arith in subst IsShown same shown;
          truthful = λ p at. absurd at;
          published = λ x at. absurd at;
          held = λ c h. let same : view s ≡ c = ground arith in (s, shown, sym same);
        })
        r).held
