-- ===== src/Session.antt =====
-- The commit path of a session: `append_locked` of crates/asp-server/src/main.rs, which joins the
-- journal, the log on disk and the materialized state. The clock, the file system's answers and
-- `workspace_event_path` are arguments; the broadcast to live subscribers is not modelled.
pub mod Commit
mod Tests
use asp.Base.{
  ℕ, Bool, true, false, Option, none, some, List, [], ◌∷◌, ◌-◌, max, ltb, if◌then◌else◌, Result, ok,
  err,
}
use asp.Base.Keys.{Map, lookup, insert, string_key}
use asp.Event.{
  Bytes, Event, EventKind, session_created, process_started, process_output, process_exited,
  pty_started, pty_state_advanced, file_changed, file_mutation, signal_applied, artifact_created,
  artifact_deleted,
}
use asp.Journal.{Journal, rollback, enforce_bounds}
use asp.Journal as Journal
use asp.Wire.Frame.Stream.{Codec}
use asp.Wal.Disk.{SessionDisk, DiskError, Io}
use asp.Wal.Disk as Disk

-- The part of `Session` that a commit changes.
pub record Session : Type 0 where
  pub journal : Journal
  pub disk : Option SessionDisk
  pub file_versions : Map Bytes ℕ
  pub pty_started : Bool
  pub pty_generation : ℕ
  pub running_processes : ℕ

-- .and_modify(|current| *current = (*current).max(*version)).or_insert(*version)
abbrev pub raise : Option ℕ → ℕ → ℕ
raise none version = version
raise (some current) version = max current version

abbrev pub raise_version : (Bytes → Option Bytes) → Map Bytes ℕ → Bytes → ℕ → Map Bytes ℕ
raise_version resolve versions path version = elim (resolve path) [
  | none ↦ versions
  | some resolved ↦ insert versions resolved (raise (lookup versions resolved) version)
]

-- What a commit makes of the materialized state, after the event is written.
unfoldable pub publish : (Bytes → Option Bytes) → Session → EventKind → Session
publish resolve s (file_changed path version) = record s {
  file_versions = raise_version resolve s.file_versions path version;
}
publish resolve s (file_mutation request_id request_hash path version sha256) = record s {
  file_versions = raise_version resolve s.file_versions path version;
}
publish resolve s pty_started = record s { pty_started = true }
publish resolve s (pty_state_advanced generation) = record s { pty_generation = generation }
publish resolve s (process_exited process_id code) = record s {
  running_processes = s.running_processes - 1;
}
publish resolve s _ = s

-- `disk.append`, where the session has a disk
unfoldable pub persist :
    (Bytes → ℕ)
    → Codec Event
    → Io
    → Option SessionDisk
    → Event
    → Result DiskError (Unit {0}) × Option SessionDisk
persist crc32 postcard io none e = (ok tt, none)
persist crc32 postcard io (some d) e =
    ((Disk.append crc32 postcard io d e).0, some (Disk.append crc32 postcard io d e).1)

-- What follows the write: `j` is the journal with the event `e`. `none` says that the fuel of
-- `enforce_bounds` ran out.
unfoldable pub after_write :
    (Bytes → Option Bytes)
    → Session
    → EventKind
    → Event
    → Journal
    → Result DiskError (Unit {0}) × Option SessionDisk
    → Option (Result DiskError Event × Session)
after_write resolve s kind e j (err failure, disk) =
    some (err failure, record s { journal = rollback j e; disk = disk })
after_write resolve s kind e j (ok done, disk) = elim (enforce_bounds j) [
  | none ↦ none
  | some journal ↦ some (ok e, publish resolve (record s { journal = journal; disk = disk }) kind)
]

unfoldable pub append_locked :
    (Bytes → Option Bytes)
    → (Bytes → ℕ)
    → Codec Event
    → Io
    → ℕ
    → Session
    → EventKind
    → Option (Result DiskError Event × Session)
append_locked resolve crc32 postcard io now s kind =
    let appended = Journal.append now s.journal kind in
    after_write resolve s kind appended.0 appended.1 (persist crc32 postcard io s.disk appended.0)
