-- ===== src/Files/Recover.antt =====
-- `recover_pending_file_mutations` and `cleanup_pending_file_mutation` of crates/asp-server/src/main.rs,
-- for one intent file: what a start makes of a transaction that a crash interrupted. The session knows
-- the event of the transaction where it was appended, since its journal is loaded first.
use asp.Base.{
  Bool, true, false, not, ◌&&◌, ◌||◌, Option, none, some, [], length, leb, ◌==◌, bytes_eq,
  if◌then◌else◌, ok, err,
}
use asp.Base.Keys.{lookup, uuid_key}
use asp.Event.{Bytes}
use asp.Recovery.{FileRequest}
use asp.Files.Transaction.{
  PendingFileMutation, Workspace, Effects, FileError, invalid_pending, conflicting_event,
  target_missing, stale_version, unexpected_target, corrupt_backup, lost_files, no_recoverable_file,
  effect_failed, History, after, valid_sha256, same_digest, committed, clear_pending,
}

abbrev pub valid_digest : Option Bytes → Bool
unfolding valid_sha256
valid_digest none = true
valid_digest (some digest) = valid_sha256 digest

unfoldable pub pending_valid : PendingFileMutation → Bool
unfolding valid_digest valid_sha256
pending_valid p =
    valid_sha256 p.sha256
    && not (length p.path == 0)
    && not (length p.temporary_path == 0)
    && not (length p.request_hash == 0)
    && valid_digest p.previous_sha256

unfoldable pub event_conflicts : FileRequest → PendingFileMutation → Bool
event_conflicts previous p =
    not (bytes_eq previous.request_hash p.request_hash)
    || not (bytes_eq previous.path p.path)
    || not (bytes_eq previous.sha256 p.sha256)

-- The temporary is removed, where there is one, and then the intent.
unfoldable pub drop_temporary : Effects → Workspace → History (Unit {0})
unfolding clear_pending
drop_temporary io s = elim s.temporary [
  | none ↦ clear_pending io s
  | some contents ↦
      let removed = record s { temporary = none } in
      if io.temporary_removed
      then after removed (clear_pending io removed)
      else ([], err effect_failed)
]

-- cleanup_pending_file_mutation, after the temporary
unfoldable pub drop_backup : Effects → Workspace → History (Unit {0})
unfolding clear_pending
drop_backup io s = elim s.backup [
  | none ↦ clear_pending io s
  | some contents ↦
      let removed = record s { backup = none } in
      if io.backup_removed
      then after removed (clear_pending io removed)
      else ([], err effect_failed)
]

unfoldable pub cleanup_pending_file_mutation : Effects → Workspace → History (Unit {0})
unfolding drop_backup
cleanup_pending_file_mutation io s = elim s.temporary [
  | none ↦ drop_backup io s
  | some contents ↦
      let removed = record s { temporary = none } in
      if io.temporary_removed
      then after removed (drop_backup io removed)
      else ([], err effect_failed)
]

-- The new file is in place: its event is appended. The removals may fail.
unfoldable pub finish_mutation : Effects → PendingFileMutation → Workspace → History (Unit {0})
unfolding clear_pending
finish_mutation io p s =
    let done = committed p.request_id p.request_hash p.path p.version p.sha256 s in
    let without_backup = if io.backup_removed then record done { backup = none } else done in
    let without_both =
      if io.temporary_removed then record without_backup { temporary = none } else without_backup in
    if leb p.version s.version
    then ([], err stale_version)
    else if not io.appended
    then ([], err effect_failed)
    else after done (after without_backup (after without_both (clear_pending io without_both)))

module _ (hash : Bytes → Bytes) where
  abbrev pub digest_of : Option Bytes → Option Bytes
  digest_of none = none
  digest_of (some contents) = some (hash contents)

  -- Both are there and equal.
  abbrev pub equal_digests : Option Bytes → Option Bytes → Bool
  equal_digests digest none = false
  equal_digests digest (some expected) = same_digest digest expected

  -- The target is there, and is not the new file.
  unfoldable pub keep_target : Effects → PendingFileMutation → Workspace → History (Unit {0})
  unfolding drop_temporary
  keep_target io p s = elim s.backup [
    | some contents ↦ ([], err unexpected_target)
    | none ↦
        if equal_digests (digest_of s.target) p.previous_sha256
        then drop_temporary io s
        else ([], err unexpected_target)
  ]

  abbrev pub unless_lost : Effects → FileError → Workspace → History (Unit {0})
  unfolding drop_temporary
  unless_lost io failure s = elim s.temporary [
    | none ↦ ([], err failure)
    | some contents ↦ drop_temporary io s
  ]

  -- The target is missing.
  unfoldable pub restore_target : Effects → PendingFileMutation → Workspace → History (Unit {0})
  unfolding drop_temporary unless_lost
  restore_target io p s = elim p.backup_path [
    | none ↦ unless_lost io no_recoverable_file s
    | some path ↦ elim s.backup [
      | none ↦ unless_lost io lost_files s
      | some contents ↦
          let restored = record s { target = some contents; backup = none } in
          if not (equal_digests (some (hash contents)) p.previous_sha256)
          then ([], err corrupt_backup)
          else if io.backup_restored
          then after restored (drop_temporary io restored)
          else ([], err effect_failed)
    ]
  ]

  unfoldable pub undo_mutation : Effects → PendingFileMutation → Workspace → History (Unit {0})
  unfolding keep_target restore_target
  undo_mutation io p s = elim s.target [
    | some contents ↦ keep_target io p s
    | none ↦ restore_target io p s
  ]

  unfoldable pub recover_pending : Effects → PendingFileMutation → Workspace → History (Unit {0})
  unfolding event_conflicts cleanup_pending_file_mutation finish_mutation undo_mutation
  recover_pending io p s = elim (lookup s.requests p.request_id) [
    | some previous ↦
        if event_conflicts previous p
        then ([], err conflicting_event)
        else if same_digest (digest_of s.target) p.sha256
        then cleanup_pending_file_mutation io s
        else ([], err target_missing)
    | none ↦
        if same_digest (digest_of s.target) p.sha256
        then finish_mutation io p s
        else undo_mutation io p s
  ]

  unfoldable pub recover_pending_file_mutations : Effects → Workspace → History (Unit {0})
  unfolding pending_valid recover_pending
  recover_pending_file_mutations io s = elim s.intent [
    | none ↦ ([], ok tt)
    | some p ↦ if pending_valid p then recover_pending io p s else ([], err invalid_pending)
  ]
