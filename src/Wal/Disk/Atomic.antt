-- ===== src/Wal/Disk/Atomic.antt =====
-- An append writes its frame, or it fails and leaves at most a part of the frame that the file system
-- would not cut off.
use asp.Base.{
  ℕ, ◌+◌, ◌≤◌, ◌≡◌, refl, ap, sym, subst, ◌∙◌, false, ◌||◌, some, ◌++◌, append_assoc, length,
  length-append, take, drop, take_all, drop-append_le, ltb, leb, saturating_add, u32_max, ok, err,
  arith, Bool-cases, Option-cases, Result-cases, ◌⊎◌, inl, inr,
}
use asp.Event.{Event, Bytes}
use asp.Wire.Frame.Stream.{Codec}
use asp.Wal.Scan.{event_log_max_bytes}
use asp.Wal.Disk.Rotation.{
  segment_contents, contents, IsValid, WithoutEvents, rotate-Same, refresh_total_bytes-Same,
}
use asp.Wal.Disk.{
  DiskError, not_encoded, exceeds_frame, metadata_failed, storage_full, write_failed, sync_failed,
  Io, SessionDisk, Step, and_then, rotate, refresh_total_bytes, frame_of, frame_bytes, written,
  cut_back, unwritten, partly_written, sync_written, force_sync, event_sync_bytes, write_event,
  rotate_and_write, append_payload, append, needs_rotation,
}

-- The append succeeded and the frame of `payload` stands at the end; the counter of bytes is within the
-- limit on storage.
abbrev pub Wrote : (Bytes → ℕ) → Bytes → Bytes → Step → Type 0
Wrote crc32 before payload (r, d) =
    (r ≡ ok tt)
    × (contents d ≡ before ++ frame_of crc32 d.active payload)
    × (d.total_bytes ≤ event_log_max_bytes)

-- The logs hold what they held; or the file could not be cut back, and a part of the frame, at most the
-- whole, stands at the end.
abbrev pub Left : (Bytes → ℕ) → Codec Event → Io → Bytes → Event → SessionDisk → Type 0
Left crc32 postcard io before e d =
    (contents d ≡ before)
    ⊎ ((io.truncates ≡ false)
        × (payload : Bytes) × (n : ℕ) × (postcard.encode_message e ≡ some payload)
        × (contents d ≡ before ++ take n (frame_of crc32 d.active payload)))

abbrev pub Outcome : (Bytes → ℕ) → Codec Event → Io → Bytes → Event → Step → Type 0
Outcome crc32 postcard io before e out =
    IsValid out.1
    × (((payload : Bytes) × (postcard.encode_message e ≡ some payload)
          × Wrote crc32 before payload out)
        ⊎ ((failure : DiskError) × (out.0 ≡ err failure) × Left crc32 postcard io before e out.1))

and_then-err :
    (out : Step) (failure : DiskError) (next : SessionDisk → Step)
    → out.0 ≡ err failure
    → and_then out next ≡ (err failure, out.1)
and_then-err (err f, d) failure next h = ap (λ r. (r, d)) h
and_then-err (ok done, d) failure next h = absurd (ground arith)

and_then-ok :
    (out : Step) (next : SessionDisk → Step) {done : Unit {0}}
    → out.0 ≡ ok done
    → and_then out next ≡ next out.1
and_then-ok (err f, d) next h = absurd (ground arith)
and_then-ok (ok done, d) next h = refl

module _ (crc32 : Bytes → ℕ) (postcard : Codec Event) (io : Io) (e : Event) (payload : Bytes)
    (encoded : postcard.encode_message e ≡ some payload) where
  abbrev OutcomeFrom : Bytes → Step → Type 0
  OutcomeFrom before out = Outcome crc32 postcard io before e out

  -- A file that grows at its end.
  contents-grown :
      (d d' : SessionDisk) (added : Bytes)
      → 9 ≤ length d.active.file
      → d'.segments ≡ d.segments
      → d'.active.file ≡ d.active.file ++ added
      → contents d' ≡ contents d ++ added
  contents-grown d d' added header segments file =
      rw (segments, file)
        (ap (λ b. segment_contents d.segments ++ b) (drop-append_le 9 d.active.file added header)
          ∙ sym (append_assoc (segment_contents d.segments) (drop 9 d.active.file) added))

  failed-Outcome :
      (d : SessionDisk) (failure : DiskError) (before : Bytes)
      → IsValid d
      → contents d ≡ before
      → OutcomeFrom before (err failure, d)
  failed-Outcome d failure before valid same = (valid, inr (failure, refl, inl same))

  -- The file is cut back to `start`, or it keeps a part of the frame.
  cut_back-Outcome :
      (d d' : SessionDisk) (failure : DiskError) (n : ℕ)
      → IsValid d
      → d'.segments ≡ d.segments
      → d'.place ≡ d.place
      → d'.active.checksummed ≡ d.active.checksummed
      → d'.active.file ≡ cut_back io d.active.file (take n (frame_of crc32 d.active payload))
      → OutcomeFrom (contents d) (err failure, d')
  cut_back-Outcome d d' failure n valid segments place sums file =
      let stays = subst WithoutEvents (sym place) valid.1 in
      elim (Bool-cases io.truncates) [
        | inl cut ↦
            let same : d'.active.file ≡ d.active.file = ground (arith, file, cut) in
            (
              (subst (λ f. 9 ≤ length f) (sym same) valid.0, stays),
              inr (failure, refl, inl (rw (segments, same) refl)),
            )
        | inr uncut ↦
            let added = take n (frame_of crc32 d.active payload) in
            let grown : d'.active.file ≡ d.active.file ++ added = ground (arith, file, uncut) in
            (
              (
                subst (λ f. 9 ≤ length f) (sym grown)
                    (omega (arith, valid.0, length-append d.active.file added)),
                stays,
              ),
              inr (
                failure,
                refl,
                inr (
                  uncut,
                  payload,
                  n,
                  encoded,
                  contents-grown d d' added valid.0 segments grown ∙ (rw sums refl),
                ),
              ),
            )
      ]

  sync_written-Outcome :
      (frame : ℕ) (d : SessionDisk)
      → IsValid d
      → d.total_bytes + frame ≤ event_log_max_bytes
      → OutcomeFrom
          (contents d)
          (sync_written crc32 io d (written crc32 frame d e payload) e payload)
  unfolding sync_written
  sync_written-Outcome frame d valid room =
      let w = written crc32 frame d e payload in
      let all = frame_of crc32 d.active payload in
      let longer : 9 ≤ length w.active.file =
        omega (arith, valid.0, length-append d.active.file all) in
      let grown = contents-grown d w all valid.0 refl refl in
      elim (Bool-cases
        (force_sync e.kind || leb event_sync_bytes w.active.dirty_bytes || io.sync_due)) [
          | inr later ↦
              rw (later, sync_written)
                ((longer, valid.1), inl (payload, encoded, (refl, grown, omega arith)))
          | inl due ↦ elim (Bool-cases io.syncs) [
            | inl syncs ↦
                rw (due, syncs, sync_written)
                  ((longer, valid.1), inl (payload, encoded, (refl, grown, omega arith)))
            | inr fails ↦
                rw (due, fails, sync_written)
                  (cut_back-Outcome d (unwritten crc32 io d w payload) sync_failed (length all)
                    valid refl refl refl
                    (ap (λ b. cut_back io d.active.file b)
                      (sym (take_all (length all) all (omega arith)))))
          ]
        ]

  write_event-Outcome :
      (frame : ℕ) (d : SessionDisk)
      → IsValid d
      → OutcomeFrom (contents d) (write_event crc32 io d e payload frame)
  unfolding write_event
  write_event-Outcome frame d valid =
      elim (Bool-cases (ltb event_log_max_bytes (saturating_add d.total_bytes frame))) [
        | inl over ↦ rw (over, write_event) (failed-Outcome d storage_full (contents d) valid refl)
        | inr room ↦ elim (Option-cases io.write_cut) [
          | inl whole ↦
              rw (room, whole, write_event) (sync_written-Outcome frame d valid (ground arith))
          | inr (n, cut) ↦
              rw (room, cut, write_event)
                (cut_back-Outcome d (partly_written crc32 io d payload n) write_failed n valid refl
                  refl refl refl)
        ]
      ]

  rotate_and_write-Outcome :
      (frame : ℕ) (d : SessionDisk)
      → IsValid d
      → OutcomeFrom (contents d) (rotate_and_write crc32 io d e payload frame)
  unfolding rotate_and_write
  rotate_and_write-Outcome frame d valid =
      let rotated = (rotate io d).1 in
      let counted = (refresh_total_bytes io rotated).1 in
      let (same, valid1) = rotate-Same io d valid in
      let (same2, valid2) = refresh_total_bytes-Same io rotated valid1 in
      elim (Result-cases (rotate io d).0) [
        | inr (failure, e1) ↦
            subst (OutcomeFrom (contents d)) (sym (and_then-err (rotate io d) failure _ e1))
              (failed-Outcome rotated failure (contents d) valid1 same)
        | inl (_, e1) ↦ elim (Result-cases (refresh_total_bytes io rotated).0) [
          | inr (failure, e2) ↦
              subst (OutcomeFrom (contents d))
                (sym (
                  and_then-ok (rotate io d) _ e1
                  ∙ and_then-err (refresh_total_bytes io rotated) failure _ e2))
                (failed-Outcome counted failure (contents d) valid2 (same2 ∙ same))
          | inl (_, e2) ↦
              subst (OutcomeFrom (contents d))
                (sym (
                  and_then-ok (rotate io d) _ e1
                  ∙ and_then-ok (refresh_total_bytes io rotated) _ e2))
                (elim (Bool-cases io.remeasures) [
                  | inr unknown ↦
                      rw unknown
                        (failed-Outcome counted metadata_failed (contents d) valid2 (same2 ∙ same))
                  | inl known ↦ rw known (
                      subst (λ b. OutcomeFrom b (write_event crc32 io counted e payload frame))
                        (same2 ∙ same) (write_event-Outcome frame counted valid2))
                ])
        ]
      ]

  append_payload-Outcome :
      (d : SessionDisk) → IsValid d → OutcomeFrom (contents d) (append_payload crc32 io d e payload)
  unfolding append_payload
  append_payload-Outcome d valid = elim (Bool-cases (ltb u32_max (length payload))) [
    | inl long ↦ rw (long, append_payload) (failed-Outcome d exceeds_frame (contents d) valid refl)
    | inr fits ↦ elim (Bool-cases io.measures) [
      | inr unknown ↦
          rw (fits, unknown, append_payload)
            (failed-Outcome d metadata_failed (contents d) valid refl)
      | inl measures ↦ elim (Bool-cases (needs_rotation d.active payload)) [
        | inl full ↦
            rw (fits, measures, full, append_payload)
              (rotate_and_write-Outcome (frame_bytes d.active payload) d valid)
        | inr room ↦
            rw (fits, measures, room, append_payload)
              (write_event-Outcome (frame_bytes d.active payload) d valid)
      ]
    ]
  ]

append-encoded :
    (crc32 : Bytes → ℕ) (postcard : Codec Event) (io : Io) (d : SessionDisk) (e : Event)
    (payload : Bytes)
    → postcard.encode_message e ≡ some payload
    → append crc32 postcard io d e ≡ append_payload crc32 io d e payload
unfolding append
append-encoded crc32 postcard io d e payload encoded = rw (encoded, append) refl

-- The active log has its header, and an events.log that a failed rotation left holds no event. Then
-- this holds again after an append, whichever calls of the file system fail, those of a rotation
-- included: an append that succeeds adds exactly one frame, that of the event, to what the logs
-- hold, and leaves the counter of bytes within the limit on storage; one that fails leaves what they hold
-- as it was, unless the file cannot be cut back after a failed write or sync, when a part of the
-- event's frame or all of it stands at the end. (The cursor of the file can be moved to its end.)
pub append-atomic :
    (crc32 : Bytes → ℕ) (postcard : Codec Event) (io : Io) (d : SessionDisk) (e : Event)
    → IsValid d
    → Outcome crc32 postcard io (contents d) e (append crc32 postcard io d e)
unfolding append
append-atomic crc32 postcard io d e valid = elim (Option-cases (postcard.encode_message e)) [
  | inl lost ↦ rw (lost, append) (valid, inr (not_encoded, refl, inl refl))
  | inr (payload, encoded) ↦
      subst (Outcome crc32 postcard io (contents d) e)
        (sym (append-encoded crc32 postcard io d e payload encoded))
        (append_payload-Outcome crc32 postcard io e payload encoded d valid)
]
