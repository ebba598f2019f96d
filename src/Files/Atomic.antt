-- ===== src/Files/Atomic.antt =====
-- Replacing a file whose digest the caller knows: the stages that the workspace can be in, whatever
-- effect fails and wherever the daemon crashes.
pub mod Steps
pub mod Crash
use asp.Base.{
  ◌+◌, ◌≤◌, ◌≡◌, true, false, not, Option, none, some, List, [], ◌∷◌, length, bytes_eq,
  if◌then◌else◌, u64_max,
}
use asp.Base.Keys.{lookup, uuid_key}
use asp.Event.{Bytes}
use asp.Files.Transaction.{
  Workspace, Mutation, Effects, committed, pending_of, valid_sha256, PendingFileMutation,
}

pub data Stage : Type 0 where
  before intended moved installed removed restored undone : Stage
  published cleaned finished kept : Stage

-- A caller that knows the old contents `old` and uploaded `new`.
pub record Guarded (hash : Bytes → Bytes) (base : Workspace) (t : Mutation) (old new : Bytes)
    : Type 0 where
  pub target : base.target ≡ some old
  pub temporary : base.temporary ≡ some new
  pub backup : base.backup ≡ none
  pub intent : base.intent ≡ none
  pub expected : t.expected_sha256 ≡ some (hash old)
  pub digest : t.digest ≡ hash new
  pub differs : bytes_eq (hash old) (hash new) ≡ false
  pub unknown : lookup base.requests t.request_id ≡ none
  pub small : base.version + 1 ≤ u64_max
  pub valid_old : valid_sha256 (hash old) ≡ true
  pub valid_new : valid_sha256 (hash new) ≡ true
  pub path : 1 ≤ length t.path
  pub temporary_path : 1 ≤ length t.temporary_path
  pub request_hash : 1 ≤ length t.request_hash

module _ (hash : Bytes → Bytes) (base : Workspace) (t : Mutation) (old new : Bytes) where
  abbrev pub pending : PendingFileMutation
  pending = pending_of hash t (base.version + 1) (some (hash old))

  abbrev pub uncommitted :
      Option Bytes → Option Bytes → Option Bytes → Option PendingFileMutation → Workspace
  uncommitted target temporary backup intent = record base {
    target = target;
    temporary = temporary;
    backup = backup;
    intent = intent;
  }

  abbrev pub with_event : Option Bytes → Option PendingFileMutation → Workspace
  with_event backup intent =
      committed t.request_id t.request_hash t.path (base.version + 1) t.digest
        (uncommitted (some new) none backup intent)

  unfoldable pub state_of : Stage → Workspace
  state_of before = uncommitted (some old) (some new) none none
  state_of intended = uncommitted (some old) (some new) none (some pending)
  state_of moved = uncommitted none (some new) (some old) (some pending)
  state_of installed = uncommitted (some new) none (some old) (some pending)
  state_of removed = uncommitted none none (some old) (some pending)
  state_of restored = uncommitted (some old) none none (some pending)
  state_of undone = uncommitted (some old) none none none
  state_of published = with_event (some old) (some pending)
  state_of cleaned = with_event none (some pending)
  state_of finished = with_event none none
  state_of kept = with_event (some old) none

abbrev pub all_succeed : Effects
all_succeed = record {
  permissions_applied = true;
  intent_written = true;
  intent_left = false;
  backup_moved = true;
  backup_synced = true;
  installed = true;
  install_synced = true;
  appended = true;
  backup_removed = true;
  intent_cleared = true;
  target_removed = true;
  backup_restored = true;
  temporary_removed = true;
  rollback_synced = true;
}

-- The stages of each function's history.
abbrev pub cleared : Effects → Stage → List Stage
cleared io stage = if io.intent_cleared then stage ∷ [] else []

abbrev pub synced : Effects → List Stage
synced io = if io.rollback_synced then cleared io undone else []

abbrev pub rolled_back : Effects → Stage → List Stage
rolled_back io moved =
    if io.backup_restored
    then intended ∷ (if io.temporary_removed then restored ∷ synced io else [])
    else []
rolled_back io _ =
    if io.target_removed
    then removed ∷ (if io.backup_restored then restored ∷ synced io else [])
    else []

abbrev pub cleanups : Effects → List Stage
cleanups io =
    if io.backup_removed
    then cleaned ∷ (if io.intent_cleared then finished else cleaned) ∷ []
    else published ∷ (if io.intent_cleared then kept else published) ∷ []

abbrev pub installs : Effects → List Stage
installs io =
    if not io.installed
    then rolled_back io moved
    else installed
      ∷ (if io.install_synced
          then (if not io.appended then rolled_back io installed else published ∷ cleanups io)
          else rolled_back io installed)

abbrev pub abandoned : Effects → Stage → List Stage
abandoned io intended =
    if io.intent_cleared
    then before ∷ (if io.temporary_removed then undone else before) ∷ []
    else intended ∷ (if io.temporary_removed then restored else intended) ∷ []
abandoned io _ = before ∷ (if io.temporary_removed then undone else before) ∷ []

abbrev pub commit_stages : Effects → List Stage
commit_stages io =
    if not io.permissions_applied
    then abandoned io before
    else if io.intent_written
    then intended
      ∷ (if not io.backup_moved
          then abandoned io intended
          else moved ∷ (if io.backup_synced then installs io else rolled_back io moved))
    else if io.intent_left
    then intended ∷ abandoned io intended
    else abandoned io before

abbrev pub dropped : Effects → List Stage
dropped io = if io.temporary_removed then restored ∷ cleared io undone else []

abbrev pub recover_stages : Effects → Stage → List Stage
recover_stages io intended = dropped io
recover_stages io moved = if io.backup_restored then intended ∷ dropped io else []
recover_stages io installed =
    if not io.appended
    then []
    else published
      ∷ (if io.backup_removed
          then cleaned ∷ cleaned ∷ cleared io finished
          else published ∷ published ∷ cleared io kept)
recover_stages io removed = if io.backup_restored then restored ∷ cleared io undone else []
recover_stages io restored = cleared io undone
recover_stages io published = if io.backup_removed then cleaned ∷ cleared io finished else []
recover_stages io cleaned = cleared io finished
recover_stages io _ = []
