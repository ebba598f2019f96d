-- ===== src/Files/Blind.antt =====
-- Transactions of callers that state no digest: a file that is replaced blindly, and a new file.
use asp.Base.{
  ◌+◌, ◌≤◌, ◌≡◌, refl, ap, ◌∙◌, true, false, Option, none, some, [], ◌∷◌, length, bytes_eq,
  bytes_eq_refl, checked_add, saturating_add, u64_max, err, arith,
}
use asp.Base.Keys.{lookup, uuid_key}
use asp.Event.{Bytes}
use asp.Files.Transaction.{
  Workspace, Mutation, Effects, unexpected_target, no_recoverable_file, pending_of, valid_sha256,
  clear_pending, discard_temporary, restore_backup, rollback_file_transaction, failed,
  append_mutation, install, move_backup, write_intent, prepare, cached_file_response,
  validate_file_precondition, commit_file_transaction,
}
use asp.Files.Recover.{
  pending_valid, keep_target, restore_target, undo_mutation, recover_pending,
  recover_pending_file_mutations,
}
use asp.Files.Atomic.{all_succeed}
use asp.Files.Atomic.Crash.{final}

-- A caller without a digest that uploaded `new`, where the target holds `current`.
pub record Unguarded (hash : Bytes → Bytes) (start : Workspace) (t : Mutation)
    (current : Option Bytes) (new : Bytes) : Type 0 where
  pub target : start.target ≡ current
  pub temporary : start.temporary ≡ some new
  pub backup : start.backup ≡ none
  pub expected : t.expected_sha256 ≡ none
  pub allow_blind : t.allow_blind ≡ true
  pub digest : t.digest ≡ hash new
  pub unknown : lookup start.requests t.request_id ≡ none
  pub small : start.version + 1 ≤ u64_max
  pub valid_new : valid_sha256 (hash new) ≡ true
  pub path : 1 ≤ length t.path
  pub temporary_path : 1 ≤ length t.temporary_path
  pub request_hash : 1 ≤ length t.request_hash

-- Every effect succeeds but the append of the event.
abbrev pub unappended : Effects
unappended = record all_succeed { appended = false }

module _ (hash : Bytes → Bytes) (start : Workspace) (t : Mutation) (new : Bytes) where
  -- Only the intent is written.
  abbrev pub intended : Workspace
  intended = record start { intent = some (pending_of hash t (start.version + 1) none) }

  succ : start.version + 1 ≤ u64_max → checked_add start.version 1 ≡ some (start.version + 1)
  succ small = ground (arith, small)

  succ_saturating : start.version + 1 ≤ u64_max → saturating_add start.version 1 ≡ start.version + 1
  succ_saturating small = omega (arith, small)

  commit_installs :
      (io : Effects) (current : Option Bytes)
      → Unguarded hash start t current new
      → io.permissions_applied ≡ true
      → io.intent_written ≡ true
      → (commit_file_transaction hash io t start).0
        ≡ intended ∷ (install hash io t (start.version + 1) intended).0
  unfolding commit_file_transaction cached_file_response validate_file_precondition prepare
      write_intent move_backup
  commit_installs io none u set on =
      ground
        (arith, u.target, u.temporary, u.expected, u.allow_blind, u.unknown, succ u.small, set, on)
  commit_installs io (some contents) u set on =
      ground
        (arith, u.target, u.temporary, u.expected, u.allow_blind, u.unknown, succ u.small, set, on)

  -- The rollback has removed the new file, and has not removed the intent yet.
  abbrev pub removed : Workspace
  removed = record intended { target = none; temporary = none }

  install_fails :
      (current : Option Bytes)
      → Unguarded hash start t current new
      → (install hash unappended t (start.version + 1) intended).0
        ≡ record intended { target = some new; temporary = none }
          ∷ removed
          ∷ record removed { intent = none }
          ∷ []
  unfolding install append_mutation failed rollback_file_transaction restore_backup
      discard_temporary clear_pending
  install_fails current u =
      ground
        (arith, u.temporary, u.backup, u.digest, succ_saturating u.small, bytes_eq_refl (hash new))

  -- An existing file is replaced by a caller that states no digest but allows a blind overwrite, by a
  -- request that the session does not know; digest, paths and hashes are well formed. Where every
  -- effect succeeds but the append of the event, the rollback leaves neither the old file nor
  -- the new one, nor a backup.
  pub blind_overwrite_loses :
      (old : Bytes)
      → Unguarded hash start t (some old) new
      → let v = final start (commit_file_transaction hash unappended t start).0 in
        (v.target ≡ none) × (v.temporary ≡ none) × (v.backup ≡ none)
  blind_overwrite_loses old u =
      let e =
        commit_installs unappended (some old) u refl refl
        ∙ ap (λ l. intended ∷ l) (install_fails (some old) u) in
      rw e (refl, refl, u.backup)

  pending-valid :
      (current : Option Bytes)
      → Unguarded hash start t current new
      → pending_valid (pending_of hash t (start.version + 1) none) ≡ true
  unfolding pending_valid
  pending-valid current u =
      ground (arith, u.digest, u.valid_new, u.path, u.temporary_path, u.request_hash)

  -- An existing file is replaced by one with another digest, by a caller that states no digest but
  -- allows a blind overwrite, and by a request that the session does not know; digest, paths and hashes
  -- are well formed, the upload's mode can be set and the intent can be written. Then the transaction
  -- first goes through the state in which only the intent is written, and from that state no start
  -- completes: whichever effects succeed, the recovery refuses the old file and changes nothing.
  pub blind_overwrite_stuck :
      (old : Bytes) (io : Effects)
      → Unguarded hash start t (some old) new
      → bytes_eq (hash old) (hash new) ≡ false
      → io.permissions_applied ≡ true
      → io.intent_written ≡ true
      → ((commit_file_transaction hash io t start).0
          ≡ intended ∷ (install hash io t (start.version + 1) intended).0)
        × ((again : Effects)
            → recover_pending_file_mutations hash again intended ≡ ([], err unexpected_target))
  unfolding recover_pending_file_mutations recover_pending undo_mutation keep_target
  blind_overwrite_stuck old io u differs set on = (
    commit_installs io (some old) u set on,
    λ again.
        ground
          (arith, pending-valid (some old) u, u.target, u.backup, u.unknown, u.digest, differs),
  )

  -- A new file is created by a caller that allows a blind overwrite and by a request that the session
  -- does not know; digest, paths and hashes are well formed, and every effect succeeds but the append
  -- of the event. Then the transaction writes the intent, installs the file, and its rollback removes
  -- first the file and then the intent. From the state between the two removals no start completes:
  -- whichever effects succeed, the recovery finds no file that it could take up and changes nothing.
  pub creation_stuck :
      Unguarded hash start t none new
      → ((commit_file_transaction hash unappended t start).0
          ≡ intended
            ∷ record intended { target = some new; temporary = none }
            ∷ removed
            ∷ record removed { intent = none }
            ∷ [])
        × ((again : Effects)
            → recover_pending_file_mutations hash again removed ≡ ([], err no_recoverable_file))
  unfolding recover_pending_file_mutations recover_pending undo_mutation restore_target
  creation_stuck u = (
    commit_installs unappended none u refl refl ∙ ap (λ l. intended ∷ l) (install_fails none u),
    λ again. ground (arith, pending-valid none u, u.backup, u.unknown),
  )
