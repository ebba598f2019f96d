-- ===== src/Session/Commit.antt =====
-- A commit is in the journal exactly if its append to the log on disk succeeded.
use asp.Base.{
  ℕ, ◌+◌, ◌≤◌, ◌<◌, ◌≡◌, refl, ap, ◌∙◌, sym, subst, Option, some, List, [], ◌∷◌, ◌++◌, length,
  Result, ok, err, arith, u64_max, ◌⊎◌, inl, inr,
}
use asp.Event.{Bytes, Event, EventKind, event_approx_bytes}
use asp.Journal.{
  Journal, total_bytes, front_unix_ms, rollback, enforce_bounds, journal_max_events,
  journal_max_bytes,
}
use asp.Journal as Journal
use asp.Journal.Log.{Represents}
use asp.Journal.Ops.{append-Represents, rollback-append, enforce_bounds-Represents}
use asp.Wire.Frame.Stream.{Codec}
use asp.Wal.Disk.{SessionDisk, DiskError, Io, frame_of}
use asp.Wal.Disk as Disk
use asp.Wal.Disk.Rotation.{contents, IsValid}
use asp.Wal.Disk.Atomic.{Left, append-atomic}
use asp.Session.{Session, persist, publish, after_write, append_locked}

-- The event is in the log that the journal stands for, and its frame is on disk.
pub record Commits (crc32 : Bytes → ℕ) (postcard : Codec Event) (log : List Event) (d : SessionDisk)
    (e : Event) (out : Result DiskError Event × Session) : Type 0 where
  pub done : out.0 ≡ ok e
  pub logged : Represents (log ++ (e ∷ [])) out.1.journal
  pub few : length out.1.journal.events ≤ journal_max_events
  pub light : out.1.journal.approx_bytes ≤ journal_max_bytes
  pub disk : SessionDisk
  pub on_disk : out.1.disk ≡ some disk
  pub valid : IsValid disk
  pub payload : Bytes
  pub encoded : postcard.encode_message e ≡ some payload
  pub framed : contents disk ≡ contents d ++ frame_of crc32 disk.active payload

-- The session is as it was but for its disk, on which at most a part of the frame was added, where the
-- file could not be cut back.
pub record Aborts (crc32 : Bytes → ℕ) (postcard : Codec Event) (io : Io) (s : Session)
    (d : SessionDisk) (e : Event) (out : Result DiskError Event × Session) : Type 0 where
  pub failure : DiskError
  pub failed : out.0 ≡ err failure
  pub disk : SessionDisk
  pub same_session : out.1 ≡ record s { disk = some disk }
  pub valid : IsValid disk
  pub left : Left crc32 postcard io (contents d) e disk

publish-journal :
    (resolve : Bytes → Option Bytes) (s : Session) (kind : EventKind)
    → ((publish resolve s kind).journal ≡ s.journal) × ((publish resolve s kind).disk ≡ s.disk)
unfolding publish
publish-journal resolve s EventKind.session_created = (refl, refl)
publish-journal resolve s (EventKind.process_started process_id command pid request_id) =
    (refl, refl)
publish-journal resolve s (EventKind.process_output process_id stream offset bytes) = (refl, refl)
publish-journal resolve s (EventKind.process_exited process_id code) = (refl, refl)
publish-journal resolve s EventKind.pty_started = (refl, refl)
publish-journal resolve s (EventKind.pty_state_advanced generation) = (refl, refl)
publish-journal resolve s (EventKind.file_changed path version) = (refl, refl)
publish-journal resolve s (EventKind.file_mutation request_id hash path version sha256) =
    (refl, refl)
publish-journal resolve s
      (EventKind.signal_applied request_id hash process_id signal success message) =
    (refl, refl)
publish-journal resolve s (EventKind.artifact_created request_id hash artifact_id total_size name) =
    (refl, refl)
publish-journal resolve s (EventKind.artifact_deleted artifact_id total_size) = (refl, refl)

module _ (resolve : Bytes → Option Bytes) (crc32 : Bytes → ℕ) (postcard : Codec Event) (io : Io)
    (now : ℕ) (s : Session) (d : SessionDisk) (kind : EventKind) (log : List Event)
    (has_disk : s.disk ≡ some d) where
  persist-some :
      (e : Event) (r : Result DiskError (Unit {0}))
      → (Disk.append crc32 postcard io d e).0 ≡ r
      → persist crc32 postcard io s.disk e ≡ (r, some (Disk.append crc32 postcard io d e).1)
  unfolding persist
  persist-some e r h =
      ap (λ k. persist crc32 postcard io k e) has_disk
      ∙ ap (λ k. (k, some (Disk.append crc32 postcard io d e).1)) h

  append_locked-ok :
      (j : Journal) (written : Option SessionDisk)
      → persist crc32 postcard io s.disk (Journal.append now s.journal kind).0 ≡ (ok tt, written)
      → enforce_bounds (Journal.append now s.journal kind).1 ≡ some j
      → append_locked resolve crc32 postcard io now s kind
        ≡ some (
          ok (Journal.append now s.journal kind).0,
          publish resolve (record s { journal = j; disk = written }) kind,
        )
  unfolding append_locked after_write
  append_locked-ok j written p b =
      ap
        (after_write resolve s kind (Journal.append now s.journal kind).0
          (Journal.append now s.journal kind).1)
        p
      ∙ rw (b, after_write) refl

  append_locked-err :
      (failure : DiskError) (written : Option SessionDisk)
      → persist crc32 postcard io s.disk (Journal.append now s.journal kind).0
        ≡ (err failure, written)
      → rollback (Journal.append now s.journal kind).1 (Journal.append now s.journal kind).0
        ≡ s.journal
      → append_locked resolve crc32 postcard io now s kind
        ≡ some (err failure, record s { disk = written })
  unfolding append_locked after_write
  append_locked-err failure written p b =
      ap
        (after_write resolve s kind (Journal.append now s.journal kind).0
          (Journal.append now s.journal kind).1)
        p
      ∙ rw (b, after_write) refl

  -- The journal stands for the log, its age is that of its first event, its sums stay below their limits;
  -- the active log has its header, and an events.log that a failed rotation left holds no event.
  -- Then a commit returns, whichever calls of the file system fail, those of a rotation included. Either
  -- it succeeds with the next event in the journal, the journal within its limits, and the event's
  -- frame on disk. Or it fails, and the session is as it was, and so is what its disk holds, unless the
  -- file cannot be cut back after a failed write or sync, when a part of the event's frame or all of it
  -- stands at the end. On disk, what was said of the logs' headers holds again. (The cursor of the file
  -- can be moved to its end.)
  pub append_locked-atomic :
      Represents log s.journal
      → s.journal.next_id < u64_max
      → total_bytes s.journal.events + event_approx_bytes (Journal.append now s.journal kind).0
        ≤ u64_max
      → s.journal.oldest_event_unix_ms ≡ front_unix_ms s.journal.events
      → IsValid d
      → (out : Result DiskError Event × Session) × (append_locked resolve crc32 postcard io now s
            kind
          ≡ some out)
        × (Commits crc32 postcard log d (Journal.append now s.journal kind).0 out
            ⊎ Aborts crc32 postcard io s d (Journal.append now s.journal kind).0 out)
  append_locked-atomic r ids room oldest valid =
      let e = (Journal.append now s.journal kind).0 in
      let (extended, id) = append-Represents now s.journal kind log r ids room in
      let (j, bounded, window, few, light, same_id, same_age) =
        enforce_bounds-Represents (Journal.append now s.journal kind).1 (log ++ (e ∷ []))
          extended in
      let (_, d') = Disk.append crc32 postcard io d e in
      let (still_valid, outcome) = append-atomic crc32 postcard io d e valid in
      elim outcome [
        | inl (payload, encoded, wrote) ↦
            let t : Session = record s { journal = j; disk = some d' } in
            (
              (ok e, publish resolve t kind),
              append_locked-ok j (some d') (persist-some e (ok tt) wrote.0) bounded,
              inl (record {
                done = refl;
                logged =
                    subst (Represents (log ++ (e ∷ []))) (sym (publish-journal resolve t kind).0)
                      window;
                few =
                    subst (λ k. length k.events ≤ journal_max_events)
                      (sym (publish-journal resolve t kind).0) few;
                light =
                    subst (λ k. k.approx_bytes ≤ journal_max_bytes)
                      (sym (publish-journal resolve t kind).0) light;
                disk = d';
                on_disk = (publish-journal resolve t kind).1;
                valid = still_valid;
                payload = payload;
                encoded = encoded;
                framed = wrote.1;
              }),
            )
        | inr (failure, failed, remains) ↦ (
          (err failure, record s { disk = some d' }),
          append_locked-err failure (some d') (persist-some e (err failure) failed)
              (rollback-append now s.journal kind ids (omega (arith, r.charged)) oldest),
          inr (record {
            failure = failure;
            failed = refl;
            disk = d';
            same_session = refl;
            valid = still_valid;
            left = remains;
          }),
        )
      ]
