-- ===== src/Wal/Disk/Rotation.antt =====
-- A rotation, whether it succeeds or fails at whatever step, keeps what the logs hold.
use asp.Base.{
  ◌≤◌, ◌≡◌, refl, ap, sym, ◌∙◌, Bool, true, false, not, ◌||◌, Option, none, some, List, [], ◌∷◌,
  ◌++◌, append_assoc, append-nil, length, length-take, length-drop, take, drop, arith, Bool-cases,
  Option-cases, inl, inr,
}
use asp.Event.{Bytes}
use asp.Wal.Scan.{log_header}
use asp.Wal.Disk.{
  Io, SessionDisk, Segment, Place, at_active, moved, rename_active, left, open_active, rotate,
  refresh_total_bytes,
}

-- What the segments and the log of the open descriptor hold after their headers.
abbrev pub segment_contents : List Segment → Bytes
segment_contents [] = []
segment_contents (s ∷ segments) = drop 9 s.file ++ segment_contents segments

abbrev pub contents : SessionDisk → Bytes
contents d = segment_contents d.segments ++ drop 9 d.active.file

abbrev pub WithoutEvents : Place → Type 0
WithoutEvents at_active = Unit {0}
WithoutEvents (moved listed none) = Unit {0}
WithoutEvents (moved listed (some fresh)) = length fresh ≤ 9

-- The active log has its header, and an events.log that is not the descriptor's has no more than one.
abbrev pub IsValid : SessionDisk → Type 0
IsValid d = (9 ≤ length d.active.file) × WithoutEvents d.place

segment_contents-append :
    (xs ys : List Segment)
    → segment_contents (xs ++ ys) ≡ segment_contents xs ++ segment_contents ys
segment_contents-append [] ys = refl
segment_contents-append (x ∷ xs) ys =
    ap (λ b. drop 9 x.file ++ b) (segment_contents-append xs ys)
    ∙ sym (append_assoc (drop 9 x.file) (segment_contents xs) (segment_contents ys))

drop_short : (file : Bytes) → length file ≤ 9 → drop 9 file ≡ []
drop_short file short = empty (drop 9 file) (omega (arith, length-drop 9 file))
  where
    empty : (xs : Bytes) → length xs ≡ 0 → xs ≡ []
    empty [] h = refl
    empty (x ∷ xs) h = absurd (omega (arith, h))

some-injective : {A : Type 0} {a b : A} → some a ≡ some b → a ≡ b
some-injective h = cc

abbrev pub Same : SessionDisk → SessionDisk → Type 0
Same d d' = (contents d' ≡ contents d) × IsValid d'

rename_active-contents :
    (place : Place) (segments : List Segment) (to : Bool → Bool × List Segment) (listed : Bool)
    → WithoutEvents place
    → rename_active place segments ≡ some to
    → segment_contents (to listed).1 ≡ segment_contents segments
unfolding rename_active
rename_active-contents at_active segments to listed small h =
    let e : (λ b. (b, segments)) ≡ to = some-injective h in
    ap (λ f. segment_contents (f listed).1) (sym e)
rename_active-contents (moved earlier none) segments to listed small h = absurd (ground arith)
rename_active-contents (moved earlier (some file)) segments to listed small h =
    let e : (λ b. (earlier, segments ++ (record { file = file; listed = b } ∷ []))) ≡ to =
      some-injective h in
    ap (λ f. segment_contents (f listed).1) (sym e)
    ∙ segment_contents-append segments (record { file = file; listed = listed } ∷ [])
    ∙ ap (λ b. segment_contents segments ++ (b ++ [])) (drop_short file small)
    ∙ append-nil (segment_contents segments)

module _ (io : Io) (d : SessionDisk) (valid : IsValid d) where
  left-Same :
      (to : Bool × List Segment) (fresh : Option Bytes)
      → segment_contents to.1 ≡ segment_contents d.segments
      → WithoutEvents (moved to.0 fresh)
      → Same d (left d to fresh)
  left-Same to fresh same small = (ap (λ b. b ++ drop 9 d.active.file) same, (valid.0, small))

  open_active-Same :
      (to : Bool × List Segment)
      → segment_contents to.1 ≡ segment_contents d.segments
      → Same d (open_active io d to).1
  unfolding open_active
  open_active-Same to same = elim (Bool-cases io.opens) [
    | inr closed ↦ rw (closed, open_active) (left-Same to none same tt)
    | inl opens ↦ elim (Option-cases io.header_cut) [
      | inr (n, cut) ↦
          rw (opens, cut, open_active)
            (left-Same to (some (take n log_header)) same (omega (arith, length-take n log_header)))
      | inl whole ↦ elim (Bool-cases io.syncs_header) [
        | inr unsynced ↦
            rw (opens, whole, unsynced, open_active)
              (left-Same to (some log_header) same (omega arith))
        | inl synced ↦
            rw (opens, whole, synced, open_active)
              (
                append-nil (
                      segment_contents
                        (to.1 ++ (record { file = d.active.file; listed = to.0 } ∷ [])))
                    ∙ segment_contents-append to.1
                        (record { file = d.active.file; listed = to.0 } ∷ [])
                    ∙ ap (λ b. segment_contents to.1 ++ b) (append-nil (drop 9 d.active.file))
                    ∙ ap (λ b. b ++ drop 9 d.active.file) same,
                (omega arith, tt),
              )
      ]
    ]
  ]

  pub rotate-Same : Same d (rotate io d).1
  unfolding rotate
  rotate-Same = elim (Bool-cases (not io.syncs_old || not io.renames)) [
    | inl stays ↦ rw (stays, rotate) (refl, valid)
    | inr goes ↦ elim (Option-cases (rename_active d.place d.segments)) [
      | inl missing ↦ rw (goes, missing, rotate) (refl, valid)
      | inr (to, renamed) ↦ elim (Bool-cases io.syncs_directory) [
        | inr unsynced ↦
            rw (goes, renamed, unsynced, rotate)
              (left-Same (to false) none
                (rename_active-contents d.place d.segments to false valid.1 renamed) tt)
        | inl synced ↦
            rw (goes, renamed, synced, rotate)
              (open_active-Same (to true)
                (rename_active-contents d.place d.segments to true valid.1 renamed))
      ]
    ]
  ]

  pub refresh_total_bytes-Same : Same d (refresh_total_bytes io d).1
  unfolding refresh_total_bytes
  refresh_total_bytes-Same = elim (Bool-cases io.refreshes) [
    | inl counts ↦ rw (counts, refresh_total_bytes) (refl, valid)
    | inr fails ↦ rw (fails, refresh_total_bytes) (refl, valid)
  ]
