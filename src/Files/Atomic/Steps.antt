-- ===== src/Files/Atomic/Steps.antt =====
-- The transaction, its rollback and its recovery go through the stages.
use asp.Base.{
  ◌+◌, ◌≡◌, refl, ap, ◌∙◌, true, not, some, ◌∷◌, map, bytes_eq_refl, if◌then◌else◌, saturating_add,
  checked_add, ok, arith,
}
use asp.Base.Keys.{lookup, uuid_key, lookup-insert_self}
use asp.Event.{Bytes}
use asp.Files.Transaction.{
  Workspace, Mutation, Effects, FileError, FileStored, effect_failed, clear_pending,
  discard_temporary, restore_backup, rollback_file_transaction, failed, clean_up, append_mutation,
  install, abandon, move_backup, write_intent, prepare, cached_file_response,
  validate_file_precondition, commit_file_transaction,
}
use asp.Files.Recover.{
  pending_valid, event_conflicts, drop_temporary, drop_backup, cleanup_pending_file_mutation,
  finish_mutation, keep_target, restore_target, undo_mutation, recover_pending,
  recover_pending_file_mutations,
}
use asp.Files.Atomic.{
  pending, state_of, all_succeed, rolled_back, cleanups, installs, abandoned, commit_stages,
  recover_stages, Guarded, Stage, before, intended, moved, installed, removed, restored, undone,
  published, cleaned, finished, kept,
}

module _ (hash : Bytes → Bytes) (base : Workspace) (t : Mutation) (old new : Bytes)
    (g : Guarded hash base t old new) where
  abbrev state : Stage → Workspace
  state stage = state_of hash base t old new stage

  pending-valid : pending_valid (pending hash base t old new) ≡ true
  unfolding pending_valid
  pending-valid =
      ground (arith, g.digest, g.valid_old, g.valid_new, g.path, g.temporary_path, g.request_hash)

  -- The request that the event left.
  known :
      lookup (state published).requests t.request_id
      ≡ some (record {
        request_hash = t.request_hash;
        path = t.path;
        version = base.version + 1;
        sha256 = t.digest;
      })
  unfolding state_of
  known = lookup-insert_self base.requests t.request_id (record {
    request_hash = t.request_hash;
    path = t.path;
    version = base.version + 1;
    sha256 = t.digest;
  })

  recover_known :
      (io : Effects) (stage : Stage)
      → (state stage).intent ≡ some (pending hash base t old new)
      → recover_pending_file_mutations hash io (state stage)
        ≡ recover_pending hash io (pending hash base t old new) (state stage)
  unfolding recover_pending_file_mutations
  recover_known io stage e = ground (arith, e, pending-valid)

  pub recover-stages :
      (io : Effects) (stage : Stage)
      → (recover_pending_file_mutations hash io (state stage)).0
        ≡ map state (recover_stages io stage)
  unfolding state_of recover_pending undo_mutation keep_target restore_target drop_temporary
      clear_pending finish_mutation cleanup_pending_file_mutation drop_backup event_conflicts
      recover_pending_file_mutations
  recover-stages io before = refl
  recover-stages io undone = refl
  recover-stages io finished = refl
  recover-stages io kept = refl
  recover-stages io intended =
      ap (λ h. h.0) (recover_known io intended refl)
      ∙ ground (arith, g.digest, g.differs, g.unknown, bytes_eq_refl (hash old))
  recover-stages io moved =
      ap (λ h. h.0) (recover_known io moved refl)
      ∙ ground (arith, g.digest, g.differs, g.unknown, bytes_eq_refl (hash old))
  recover-stages io installed =
      ap (λ h. h.0) (recover_known io installed refl)
      ∙ ground (arith, g.digest, g.unknown, bytes_eq_refl (hash new))
  recover-stages io removed =
      ap (λ h. h.0) (recover_known io removed refl)
      ∙ ground (arith, g.digest, g.differs, g.unknown, bytes_eq_refl (hash old))
  recover-stages io restored =
      ap (λ h. h.0) (recover_known io restored refl)
      ∙ ground (arith, g.digest, g.differs, g.unknown, bytes_eq_refl (hash old))
  recover-stages io published =
      ap (λ h. h.0) (recover_known io published refl)
      ∙ ground (
        arith,
        known,
        g.digest,
        bytes_eq_refl (hash new),
        bytes_eq_refl t.request_hash,
        bytes_eq_refl t.path,
        bytes_eq_refl t.digest,
      )
  recover-stages io cleaned =
      ap (λ h. h.0) (recover_known io cleaned refl)
      ∙ ground (
        arith,
        known,
        g.digest,
        bytes_eq_refl (hash new),
        bytes_eq_refl t.request_hash,
        bytes_eq_refl t.path,
        bytes_eq_refl t.digest,
      )

  pub recover-succeeds :
      (stage : Stage) → (recover_pending_file_mutations hash all_succeed (state stage)).1 ≡ ok tt
  unfolding state_of recover_pending undo_mutation keep_target restore_target drop_temporary
      clear_pending finish_mutation cleanup_pending_file_mutation drop_backup event_conflicts
      recover_pending_file_mutations
  recover-succeeds before = refl
  recover-succeeds undone = refl
  recover-succeeds finished = refl
  recover-succeeds kept = refl
  recover-succeeds intended =
      ap (λ h. h.1) (recover_known all_succeed intended refl)
      ∙ ground (arith, g.digest, g.differs, g.unknown, bytes_eq_refl (hash old))
  recover-succeeds moved =
      ap (λ h. h.1) (recover_known all_succeed moved refl)
      ∙ ground (arith, g.digest, g.differs, g.unknown, bytes_eq_refl (hash old))
  recover-succeeds installed =
      ap (λ h. h.1) (recover_known all_succeed installed refl)
      ∙ ground (arith, g.digest, g.unknown, bytes_eq_refl (hash new))
  recover-succeeds removed =
      ap (λ h. h.1) (recover_known all_succeed removed refl)
      ∙ ground (arith, g.digest, g.differs, g.unknown, bytes_eq_refl (hash old))
  recover-succeeds restored =
      ap (λ h. h.1) (recover_known all_succeed restored refl)
      ∙ ground (arith, g.digest, g.differs, g.unknown, bytes_eq_refl (hash old))
  recover-succeeds published =
      ap (λ h. h.1) (recover_known all_succeed published refl)
      ∙ ground (
        arith,
        known,
        g.digest,
        bytes_eq_refl (hash new),
        bytes_eq_refl t.request_hash,
        bytes_eq_refl t.path,
        bytes_eq_refl t.digest,
      )
  recover-succeeds cleaned =
      ap (λ h. h.1) (recover_known all_succeed cleaned refl)
      ∙ ground (
        arith,
        known,
        g.digest,
        bytes_eq_refl (hash new),
        bytes_eq_refl t.request_hash,
        bytes_eq_refl t.path,
        bytes_eq_refl t.digest,
      )

  rolled_back_moved :
      (io : Effects)
      → (rollback_file_transaction hash io t.digest (state moved)).0
        ≡ map state (rolled_back io moved)
  unfolding state_of rollback_file_transaction restore_backup discard_temporary clear_pending
  rolled_back_moved io = ground arith

  rolled_back_installed :
      (io : Effects)
      → (rollback_file_transaction hash io t.digest (state installed)).0
        ≡ map state (rolled_back io installed)
  unfolding state_of rollback_file_transaction restore_backup discard_temporary clear_pending
  rolled_back_installed io = ground (arith, g.digest, bytes_eq_refl (hash new))

  append-stages :
      (io : Effects)
      → (append_mutation hash io t (base.version + 1) (state installed)).0
        ≡ map state (if not io.appended then rolled_back io installed else published ∷ cleanups io)
  unfolding append_mutation failed clean_up state_of
  append-stages io =
      let succ : saturating_add base.version 1 ≡ base.version + 1 = omega (arith, g.small) in
      ground (arith, succ, rolled_back_installed io)

  install-stages :
      (io : Effects)
      → (install hash io t (base.version + 1) (state moved)).0 ≡ map state (installs io)
  unfolding install failed state_of
  install-stages io =
      ground (arith, rolled_back_moved io, rolled_back_installed io, append-stages io)

  abandon-stages :
      (io : Effects) (failure : FileError)
      → ((abandon {A = FileStored} io failure (state intended)).0
          ≡ map state (abandoned io intended))
        × ((abandon {A = FileStored} io failure (state before)).0 ≡ map state (abandoned io before))
  unfolding abandon state_of
  abandon-stages io failure = (ground arith, ground arith)

  move-stages :
      (io : Effects)
      → (move_backup hash io t (base.version + 1) (some (hash old)) (state intended)).0
        ≡ map state (
            if not io.backup_moved
            then abandoned io intended
            else moved ∷ (if io.backup_synced then installs io else rolled_back io moved))
  unfolding move_backup failed state_of
  move-stages io =
      ground (arith, rolled_back_moved io, install-stages io, (abandon-stages io effect_failed).0)

  commit_prepares :
      (io : Effects)
      → commit_file_transaction hash io t (state before)
        ≡ prepare hash io t (some (hash old)) (state before)
  unfolding commit_file_transaction cached_file_response validate_file_precondition state_of
  commit_prepares io = ground (arith, g.unknown, g.expected, g.valid_old, bytes_eq_refl (hash old))

  succ : checked_add base.version 1 ≡ some (base.version + 1)
  succ = ground (arith, g.small)

  pub commit-stages :
      (io : Effects)
      → (commit_file_transaction hash io t (state before)).0 ≡ map state (commit_stages io)
  unfolding prepare write_intent state_of
  commit-stages io =
      let left = abandon-stages io effect_failed in
      ap (λ h. h.0) (commit_prepares io) ∙ ground (arith, succ, move-stages io, left.0, left.1)
