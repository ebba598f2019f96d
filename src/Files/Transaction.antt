-- ===== src/Files/Transaction.antt =====
-- `commit_file_transaction`, `rollback_file_transaction` and what they call, of
-- crates/asp-server/src/main.rs, for a session that is kept on disk and a caller that holds the
-- reservation of its request's record; nothing else changes the workspace meanwhile. A history lists
-- the state after each effect on the file system or the event log, so that a crash of the daemon is a
-- state of the history. Effects are durable when they are made. Whether an effect succeeds is an
-- argument.
use asp.Base.{
  ℕ, Bool, true, false, not, ◌&&◌, ◌||◌, Option, none, some, List, [], ◌∷◌, length, leb, ◌==◌,
  bytes_eq, if◌then◌else◌, saturating_add, checked_add, Result, ok, err,
}
use asp.Base.Keys.{Map, lookup, insert, uuid_key}
use asp.Event.{Uuid, Bytes, EventKind, file_mutation}
use asp.Recovery.{FileRequest}

pub record PendingFileMutation : Type 0 where
  pub request_id : Uuid
  pub request_hash : Bytes
  pub path : Bytes
  pub version : ℕ
  pub sha256 : Bytes
  pub temporary_path : Bytes
  pub backup_path : Option Bytes
  pub previous_sha256 : Option Bytes

-- The contents of the target, of the uploaded temporary and of the backup, the intent file, and the
-- session's version of the target, its file requests and its file events, the newest first.
pub record Workspace : Type 0 where
  pub target : Option Bytes
  pub temporary : Option Bytes
  pub backup : Option Bytes
  pub intent : Option PendingFileMutation
  pub version : ℕ
  pub requests : Map ℕ FileRequest
  pub events : List EventKind

-- The arguments of a transaction, and the names that it draws.
pub record Mutation : Type 0 where
  pub request_id : Uuid
  pub request_hash : Bytes
  pub path : Bytes
  pub digest : Bytes
  pub expected_sha256 : Option Bytes
  pub allow_blind : Bool
  pub temporary_path : Bytes
  pub backup_name : Bytes

-- Which effects succeed. A write of the intent that fails may leave it behind: its file is renamed into
-- place before the directory is synced.
pub record Effects : Type 0 where
  pub permissions_applied : Bool
  pub intent_written : Bool
  pub intent_left : Bool
  pub backup_moved : Bool
  pub backup_synced : Bool
  pub installed : Bool
  pub install_synced : Bool
  pub appended : Bool
  pub backup_removed : Bool
  pub intent_cleared : Bool
  pub target_removed : Bool
  pub backup_restored : Bool
  pub temporary_removed : Bool
  pub rollback_synced : Bool

pub data FileError : Type 0 where
  idempotency_conflict temporary_missing precondition_required : FileError
  invalid_sha256 version_conflict version_overflow version_changed : FileError
  target_changed effect_failed : FileError
  invalid_pending conflicting_event target_missing stale_version : FileError
  unexpected_target corrupt_backup lost_files no_recoverable_file : FileError

-- Response::FileStored
pub record FileStored : Type 0 where
  pub path : Bytes
  pub version : ℕ
  pub sha256 : Bytes

-- The states after each effect, and the result.
abbrev pub History : Type 0 → Type 0
History A = List Workspace × Result FileError A

abbrev pub after : {A : Type 0} → Workspace → History A → History A
after s h = (s ∷ h.0, h.1)

abbrev pub is_hexdigit : ℕ → Bool
is_hexdigit c =
    (leb b'0' c && leb c b'9') || (leb b'a' c && leb c b'f') || (leb b'A' c && leb c b'F')

abbrev pub all_hex : Bytes → Bool
all_hex [] = true
all_hex (c ∷ cs) = is_hexdigit c && all_hex cs

unfoldable pub valid_sha256 : Bytes → Bool
valid_sha256 value = length value == 64 && all_hex value

abbrev pub same_digest : Option Bytes → Bytes → Bool
same_digest none expected = false
same_digest (some current) expected = bytes_eq current expected

unfoldable pub validate_file_precondition :
    Option Bytes → Option Bytes → Bool → Result FileError (Unit {0})
unfolding valid_sha256
validate_file_precondition current (some expected) allow_blind =
    if not (valid_sha256 expected)
    then err invalid_sha256
    else if same_digest current expected
    then ok tt
    else err version_conflict
validate_file_precondition (some current) none allow_blind =
    if allow_blind then ok tt else err precondition_required
validate_file_precondition none none allow_blind = ok tt

unfoldable pub cached_file_response : Workspace → Mutation → Result FileError (Option FileStored)
cached_file_response s t = elim (lookup s.requests t.request_id) [
  | none ↦ ok none
  | some previous ↦
      if not (bytes_eq previous.request_hash t.request_hash)
      then err idempotency_conflict
      else ok (
          some
            (record { path = previous.path; version = previous.version; sha256 = previous.sha256 }))
]

-- The event is durable and the session knows it.
abbrev pub committed : Uuid → Bytes → Bytes → ℕ → Bytes → Workspace → Workspace
committed request_id request_hash path version sha256 s = record s {
  version = version;
  requests =
      insert s.requests request_id
        (record { request_hash = request_hash; path = path; version = version; sha256 = sha256 });
  events = file_mutation request_id request_hash path version sha256 ∷ s.events;
}

unfoldable pub clear_pending : Effects → Workspace → History (Unit {0})
clear_pending io s =
    if io.intent_cleared then (record s { intent = none } ∷ [], ok tt) else ([], err effect_failed)

-- The last efforts on a path that fails before the backup is made: `let _` passes over what they
-- cannot remove.
unfoldable pub abandon : {A : Type 0} → Effects → FileError → Workspace → History A
abandon io failure s =
    let cleared = if io.intent_cleared then record s { intent = none } else s in
    let dropped = if io.temporary_removed then record cleared { temporary = none } else cleared in
    (cleared ∷ dropped ∷ [], err failure)

-- rollback_file_transaction, from its last effects to its first
unfoldable pub discard_temporary : Effects → Workspace → History (Unit {0})
unfolding clear_pending
discard_temporary io s =
    let synced = λ (v : Workspace).
      if io.rollback_synced then clear_pending io v else ([], err effect_failed) in
    elim s.temporary [
      | none ↦ synced s
      | some contents ↦
          if io.temporary_removed
          then after (record s { temporary = none }) (synced (record s { temporary = none }))
          else ([], err effect_failed)
    ]

unfoldable pub restore_backup : Effects → Workspace → History (Unit {0})
unfolding discard_temporary
restore_backup io s = elim s.backup [
  | none ↦ discard_temporary io s
  | some contents ↦
      let restored = record s { target = some contents; backup = none } in
      if io.backup_restored
      then after restored (discard_temporary io restored)
      else ([], err effect_failed)
]

module _ (hash : Bytes → Bytes) where
  unfoldable pub rollback_file_transaction : Effects → Bytes → Workspace → History (Unit {0})
  unfolding restore_backup
  rollback_file_transaction io expected_digest s = elim s.target [
    | none ↦ restore_backup io s
    | some contents ↦
        let removed = record s { target = none } in
        if not (bytes_eq (hash contents) expected_digest)
        then ([], err target_changed)
        else if io.target_removed
        then after removed (restore_backup io removed)
        else ([], err effect_failed)
  ]

  -- The transaction fails, after its rollback.
  unfoldable pub failed : Effects → Mutation → FileError → Workspace → History FileStored
  unfolding rollback_file_transaction
  failed io t failure s = ((rollback_file_transaction io t.digest s).0, err failure)

  -- What follows the event: failures are only logged.
  unfoldable pub clean_up : Effects → FileStored → Workspace → History FileStored
  clean_up io stored s =
      let cleaned = if io.backup_removed then record s { backup = none } else s in
      let cleared = if io.intent_cleared then record cleaned { intent = none } else cleaned in
      (cleaned ∷ cleared ∷ [], ok stored)

  unfoldable pub append_mutation : Effects → Mutation → ℕ → Workspace → History FileStored
  unfolding failed clean_up
  append_mutation io t version s =
      let done = committed t.request_id t.request_hash t.path version t.digest s in
      if not (saturating_add s.version 1 == version)
      then failed io t version_changed s
      else if not io.appended
      then failed io t effect_failed s
      else after done
          (clean_up io (record { path = t.path; version = version; sha256 = t.digest }) done)

  unfoldable pub install : Effects → Mutation → ℕ → Workspace → History FileStored
  unfolding failed append_mutation
  install io t version s =
      let installed = record s { target = s.temporary; temporary = none } in
      if not io.installed
      then failed io t effect_failed s
      else after installed (
          if io.install_synced
          then append_mutation io t version installed
          else failed io t effect_failed installed)

  -- `let _ = tokio::fs::remove_file(&temporary)`
  abbrev pub discarded : Effects → Workspace → Workspace
  discarded io s = if io.temporary_removed then record s { temporary = none } else s

  unfoldable pub move_backup :
      Effects → Mutation → ℕ → Option Bytes → Workspace → History FileStored
  unfolding install failed abandon
  move_backup io t version none s = install io t version s
  move_backup io t version (some previous_sha256) s =
      let moved = record s { backup = s.target; target = none } in
      if not io.backup_moved
      then abandon io effect_failed s
      else after moved
          (if io.backup_synced then install io t version moved else failed io t effect_failed moved)

  -- `previous_sha256.as_ref().map(|_| …)`
  abbrev pub backup_path_of : Option Bytes → Mutation → Option Bytes
  backup_path_of none t = none
  backup_path_of (some previous_sha256) t = some t.backup_name

  abbrev pub pending_of : Mutation → ℕ → Option Bytes → PendingFileMutation
  pending_of t version previous_sha256 = record {
    request_id = t.request_id;
    request_hash = t.request_hash;
    path = t.path;
    version = version;
    sha256 = t.digest;
    temporary_path = t.temporary_path;
    backup_path = backup_path_of previous_sha256 t;
    previous_sha256 = previous_sha256;
  }

  unfoldable pub write_intent :
      Effects → Mutation → ℕ → Option Bytes → Workspace → History FileStored
  unfolding move_backup abandon
  write_intent io t version previous_sha256 s =
      let intended = record s { intent = some (pending_of t version previous_sha256) } in
      if io.intent_written
      then after intended (move_backup io t version previous_sha256 intended)
      else if io.intent_left
      then after intended (abandon io effect_failed intended)
      else abandon io effect_failed s

  unfoldable pub prepare : Effects → Mutation → Option Bytes → Workspace → History FileStored
  unfolding write_intent abandon
  prepare io t previous_sha256 s =
      if not io.permissions_applied
      then abandon io effect_failed s
      else elim (checked_add s.version 1) [
        | none ↦ abandon io version_overflow s
        | some version ↦ write_intent io t version previous_sha256 s
      ]

  -- The old digest is read only for a caller that expects one.
  abbrev pub previous_of : Option Bytes → Option Bytes → Option Bytes
  previous_of (some contents) (some expected) = some (hash contents)
  previous_of _ _ = none

  abbrev pub is_blind : Option Bytes → Mutation → Bool
  is_blind none t = false
  is_blind (some contents) t = elim t.expected_sha256 [
    | none ↦ not t.allow_blind
    | some expected ↦ false
  ]

  unfoldable pub commit_file_transaction : Effects → Mutation → Workspace → History FileStored
  unfolding cached_file_response validate_file_precondition prepare
  commit_file_transaction io t s = elim (cached_file_response s t) [
    | err failure ↦ ([], err failure)
    | ok (some cached) ↦ (discarded io s ∷ [], ok cached)
    | ok none ↦ elim s.temporary [
      | none ↦ ([], err temporary_missing)
      | some contents ↦
          if is_blind s.target t
          then ([], err precondition_required)
          else elim (validate_file_precondition (previous_of s.target t.expected_sha256)
              t.expected_sha256 t.allow_blind) [
                | err failure ↦ ([], err failure)
                | ok valid ↦ prepare io t (previous_of s.target t.expected_sha256) s
              ]
    ]
  ]
