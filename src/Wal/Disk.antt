-- ===== src/Wal/Disk.antt =====
-- `SessionDisk::append`, `rotate_locked` and `refresh_total_bytes_locked` of
-- crates/asp-server/src/main.rs, on the bytes of the files. What each call of the file system does is an
-- argument, but for the moving of the cursor to the file's end, which succeeds.
pub mod Rotation
pub mod Atomic
use asp.Base.{
  ℕ, ◌+◌, ◌-◌, ◌%◌, Bool, true, false, not, ◌&&◌, ◌||◌, Option, none, some, List, [], ◌∷◌, ◌++◌,
  length, take, ltb, leb, if◌then◌else◌, saturating_add, to_be_bytes, u32_max, Result, ok, err,
  ◌>>=◌, bail_if, ok_or,
}
use asp.Event.{Event, EventKind, Bytes, process_output, pty_state_advanced}
use asp.Recovery.{wrapping_add}
use asp.Wire.Frame.Stream.{Codec}
use asp.Wal.Scan.{log_header, event_log_max_bytes, get_or_insert}

abbrev pub event_segment_max_bytes : ℕ
event_segment_max_bytes = 67108864

abbrev pub event_sync_bytes : ℕ
event_sync_bytes = 262144

pub data DiskError : Type 0 where
  not_encoded exceeds_frame metadata_failed rotate_failed : DiskError
  storage_full write_failed sync_failed : DiskError

-- An open log; `last_sync` stands in `Io.sync_due`.
pub record EventFile : Type 0 where
  pub file : Bytes
  pub checksummed : Bool
  pub first_event_id : Option ℕ
  pub dirty_bytes : ℕ

-- A file under a segment's name, and whether `SessionDisk.segments` lists its path.
pub record Segment : Type 0 where
  pub file : Bytes
  pub listed : Bool

-- Where the file of the open descriptor stands: as events.log; or a rotation moved it under a
-- segment's name, which is listed or not, and failed later. Then another events.log may be there.
pub data Place : Type 0 where
  at_active : Place
  moved : Bool → Option Bytes → Place

pub record SessionDisk : Type 0 where
  pub active : EventFile
  pub place : Place
  pub segments : List Segment
  pub total_bytes : ℕ

-- What the file system does with the calls of one append. `write_cut` and `header_cut` say after how
-- many bytes the write fails, if it does; `readable` says of which segments the length can be read; and
-- `sync_due` whether the last sync is EVENT_SYNC_INTERVAL ago.
pub record Io : Type 0 where
  pub measures : Bool
  pub syncs_old : Bool
  pub renames : Bool
  pub syncs_directory : Bool
  pub opens : Bool
  pub header_cut : Option ℕ
  pub syncs_header : Bool
  pub refreshes : Bool
  pub readable : ℕ → Bool
  pub remeasures : Bool
  pub write_cut : Option ℕ
  pub truncates : Bool
  pub syncs : Bool
  pub sync_due : Bool

-- An operation's result, and the disk as it leaves it.
abbrev pub Step : Type 0
Step = Result DiskError (Unit {0}) × SessionDisk

abbrev pub and_then : Step → (SessionDisk → Step) → Step
and_then (err failure, d) next = (err failure, d)
and_then (ok done, d) next = next d

-- fs::rename of events.log, where it is there: whether the descriptor's file is then listed, and the
-- other files, for whether the new name is listed.
unfoldable pub rename_active : Place → List Segment → Option (Bool → Bool × List Segment)
rename_active at_active segments = some (λ listed. (listed, segments))
rename_active (moved earlier none) segments = none
rename_active (moved earlier (some file)) segments =
    some (λ listed. (earlier, segments ++ (record { file = file; listed = listed } ∷ [])))

-- The disk of a rotation that fails after the renaming, with the events.log that it made.
abbrev pub left : SessionDisk → Bool × List Segment → Option Bytes → SessionDisk
left d (listed, segments) fresh = record d { place = moved listed fresh; segments = segments }

-- What rotate_locked does when the old log is among the segments.
unfoldable pub open_active : Io → SessionDisk → Bool × List Segment → Step
open_active io d to =
    if not io.opens then (err rotate_failed, left d to none) else elim io.header_cut [
      | some n ↦ (err rotate_failed, left d to (some (take n log_header)))
      | none ↦ if not io.syncs_header then (err rotate_failed, left d to (some log_header)) else (
        ok tt,
        record d {
          active = record {
            file = log_header;
            checksummed = true;
            first_event_id = none;
            dirty_bytes = 0;
          };
          place = at_active;
          segments = to.1 ++ (record { file = d.active.file; listed = to.0 } ∷ []);
        },
      )
    ]

unfoldable pub rotate : Io → SessionDisk → Step
unfolding rename_active open_active
rotate io d =
    if not io.syncs_old || not io.renames
    then (err rotate_failed, d)
    else elim (rename_active d.place d.segments) [
      | none ↦ (err rotate_failed, d)
      | some to ↦
          if not io.syncs_directory
          then (err rotate_failed, left d (to false) none)
          else open_active io d (to true)
    ]

-- A length that cannot be read counts as zero.
abbrev pub segment_bytes : (ℕ → Bool) → ℕ → List Segment → ℕ
segment_bytes readable i [] = 0
segment_bytes readable i (s ∷ segments) =
    saturating_add (if s.listed && readable i then length s.file else 0)
      (segment_bytes readable (i + 1) segments)

unfoldable pub refresh_total_bytes : Io → SessionDisk → Step
refresh_total_bytes io d =
    if io.refreshes
    then (
      ok tt,
      record d {
        total_bytes =
            saturating_add (length d.active.file) (segment_bytes io.readable 0 d.segments);
      },
    )
    else (err metadata_failed, d)

abbrev pub checksum_bytes : EventFile → ℕ
checksum_bytes f = if f.checksummed then 4 else 0

abbrev pub frame_bytes : EventFile → Bytes → ℕ
frame_bytes f payload = saturating_add (saturating_add 4 (checksum_bytes f)) (length payload)

-- The bytes that one event adds to the file.
abbrev pub frame_of : (Bytes → ℕ) → EventFile → Bytes → Bytes
frame_of crc32 f payload =
    to_be_bytes (length payload)
    ++ ((if f.checksummed then to_be_bytes (crc32 payload) else []) ++ payload)

unfoldable pub needs_rotation : EventFile → Bytes → Bool
needs_rotation f payload =
    ltb 9 (length f.file)
    && ltb event_segment_max_bytes (saturating_add (length f.file) (frame_bytes f payload))

-- Output and terminal states may wait for the next sync.
abbrev pub force_sync : EventKind → Bool
force_sync (process_output process_id stream offset bytes) = false
force_sync (pty_state_advanced generation) = false
force_sync _ = true

abbrev pub clean : SessionDisk → SessionDisk
clean d = record d { active = record d.active { dirty_bytes = 0 } }

-- The file after a write, before it is synced.
abbrev pub written : (Bytes → ℕ) → ℕ → SessionDisk → Event → Bytes → SessionDisk
written crc32 frame d e payload = record d {
  active = record d.active {
    file = d.active.file ++ frame_of crc32 d.active payload;
    first_event_id = get_or_insert d.active.first_event_id e.id;
    dirty_bytes = saturating_add d.active.dirty_bytes frame;
  };
  total_bytes = wrapping_add d.total_bytes frame;
}

-- `let _ = set_len(start)`: the file as it was, or with what was added to it
abbrev pub cut_back : Io → Bytes → Bytes → Bytes
cut_back io start added = if io.truncates then start else start ++ added

-- What `set_len(start)` and `fetch_sub` make of the disk `w` where the sync of the write failed.
abbrev pub unwritten : (Bytes → ℕ) → Io → SessionDisk → SessionDisk → Bytes → SessionDisk
unwritten crc32 io d w payload = record d {
  active = record w.active {
    file = cut_back io d.active.file (frame_of crc32 d.active payload);
    dirty_bytes = 0;
  };
}

unfoldable pub sync_written : (Bytes → ℕ) → Io → SessionDisk → SessionDisk → Event → Bytes → Step
sync_written crc32 io d w e payload =
    if force_sync e.kind || leb event_sync_bytes w.active.dirty_bytes || io.sync_due
    then (if io.syncs then (ok tt, clean w) else (err sync_failed, unwritten crc32 io d w payload))
    else (ok tt, w)

-- A write that fails after `n` bytes.
abbrev pub partly_written : (Bytes → ℕ) → Io → SessionDisk → Bytes → ℕ → SessionDisk
partly_written crc32 io d payload n = record d {
  active = record d.active {
    file = cut_back io d.active.file (take n (frame_of crc32 d.active payload));
    dirty_bytes = 0;
  };
}

-- The frame is written to the active log, rotated or not.
unfoldable pub write_event : (Bytes → ℕ) → Io → SessionDisk → Event → Bytes → ℕ → Step
unfolding sync_written
write_event crc32 io d e payload frame =
    if ltb event_log_max_bytes (saturating_add d.total_bytes frame)
    then (err storage_full, d)
    else elim io.write_cut [
      | none ↦ sync_written crc32 io d (written crc32 frame d e payload) e payload
      | some n ↦ (err write_failed, partly_written crc32 io d payload n)
    ]

-- The rotation, the recount and the write to the new log.
unfoldable pub rotate_and_write : (Bytes → ℕ) → Io → SessionDisk → Event → Bytes → ℕ → Step
unfolding rotate refresh_total_bytes write_event
rotate_and_write crc32 io d e payload frame = and_then (rotate io d) (λ rotated.
    and_then (refresh_total_bytes io rotated) (λ counted.
      if io.remeasures
      then write_event crc32 io counted e payload frame
      else (err metadata_failed, counted)))

unfoldable pub append_payload : (Bytes → ℕ) → Io → SessionDisk → Event → Bytes → Step
unfolding needs_rotation rotate_and_write write_event
append_payload crc32 io d e payload =
    if ltb u32_max (length payload)
    then (err exceeds_frame, d)
    else if not io.measures
    then (err metadata_failed, d)
    else if needs_rotation d.active payload
    then rotate_and_write crc32 io d e payload (frame_bytes d.active payload)
    else write_event crc32 io d e payload (frame_bytes d.active payload)

unfoldable pub append : (Bytes → ℕ) → Codec Event → Io → SessionDisk → Event → Step
unfolding append_payload
append crc32 postcard io d e = elim (postcard.encode_message e) [
  | none ↦ (err not_encoded, d)
  | some payload ↦ append_payload crc32 io d e payload
]
