-- ===== src/Files/Atomic/Crash.antt =====
-- Crashes in a transaction, in its rollback and in the recovery of either, again and again.
use asp.Base.{
  ◌+◌, ◌≡◌, ◌⊎◌, refl, sym, ap, subst, ◌∙◌, inl, inr, none, some, List, [], ◌∷◌, map, In, In-map,
  ok, arith,
}
use asp.Event.{Bytes, file_mutation}
use asp.Files.Transaction.{Workspace, Mutation, Effects, commit_file_transaction}
use asp.Files.Recover.{recover_pending_file_mutations}
use asp.Files.Atomic.Steps.{commit-stages, recover-stages, recover-succeeds}
use asp.Files.Atomic.{
  Stage, before, intended, moved, installed, removed, restored, undone, published, cleaned,
  finished, kept, Guarded, state_of, commit_stages, recover_stages, all_succeed,
}

-- The workspaces that a crash leaves, of a transaction that began at `start`.
pub data Crashed (hash : Bytes → Bytes) (t : Mutation) (start : Workspace)
    : Workspace → Type 0 where
  unharmed : Crashed hash t start start
  in_commit :
      (io : Effects) {s : Workspace}
      → In s (commit_file_transaction hash io t start).0
      → Crashed hash t start s
  in_recovery :
      (io : Effects) {r s : Workspace}
      → Crashed hash t start r
      → In s (recover_pending_file_mutations hash io r).0
      → Crashed hash t start s

-- The last state of a history that began at `s`.
abbrev pub final : Workspace → List Workspace → Workspace
final s [] = s
final s (v ∷ history) = final v history

module _ (hash : Bytes → Bytes) (start : Workspace) (t : Mutation) (old new : Bytes) where
  abbrev state : Stage → Workspace
  state stage = state_of hash start t old new stage

  -- Nothing of the transaction is left.
  abbrev pub Undone : Workspace → Type 0
  Undone v =
      (v.target ≡ some old)
      × (v.version ≡ start.version)
      × (v.requests ≡ start.requests)
      × (v.events ≡ start.events)

  -- The new file is in place and its event is in the log.
  abbrev pub Done : Workspace → Type 0
  Done v =
      (v.target ≡ some new)
      × (v.version ≡ start.version + 1)
      × (v.events
          ≡ file_mutation t.request_id t.request_hash t.path (start.version + 1) t.digest
            ∷ start.events)

  module _ (g : Guarded hash start t old new) where
    start_before : start ≡ state before
    unfolding state_of
    start_before = ground (arith, g.target, g.temporary, g.backup, g.intent)

    Crashed-stage : {s : Workspace} → Crashed hash t start s → (stage : Stage) × (s ≡ state stage)
    Crashed-stage unharmed = (before, start_before)
    Crashed-stage {s} (in_commit io at) = In-map state (commit_stages io) s (
        subst (In s)
          (ap (λ b. (commit_file_transaction hash io t b).0) start_before
            ∙ commit-stages hash start t old new g io)
          at)
    Crashed-stage {s} (in_recovery io crashed at) =
        let (stage, e) = Crashed-stage crashed in
        In-map state (recover_stages io stage) s (
          subst (In s)
            (ap (λ b. (recover_pending_file_mutations hash io b).0) e
              ∙ recover-stages hash start t old new g io stage)
            at)

    -- The last stage of a start whose effects all succeed.
    Undone-or-Done :
        (stage : Stage)
        → let v = final (state stage) (map state (recover_stages all_succeed stage)) in
          (v.intent ≡ none) × (Undone v ⊎ Done v)
    unfolding state_of
    Undone-or-Done before = (refl, inl (refl, refl, refl, refl))
    Undone-or-Done intended = (refl, inl (refl, refl, refl, refl))
    Undone-or-Done moved = (refl, inl (refl, refl, refl, refl))
    Undone-or-Done installed = (refl, inr (refl, refl, refl))
    Undone-or-Done removed = (refl, inl (refl, refl, refl, refl))
    Undone-or-Done restored = (refl, inl (refl, refl, refl, refl))
    Undone-or-Done undone = (refl, inl (refl, refl, refl, refl))
    Undone-or-Done published = (refl, inr (refl, refl, refl))
    Undone-or-Done cleaned = (refl, inr (refl, refl, refl))
    Undone-or-Done finished = (refl, inr (refl, refl, refl))
    Undone-or-Done kept = (refl, inr (refl, refl, refl))

    recovers :
        (stage : Stage)
        → let h = recover_pending_file_mutations hash all_succeed (state stage) in
          (h.1 ≡ ok tt)
          × ((final (state stage) h.0).intent ≡ none)
          × (Undone (final (state stage) h.0) ⊎ Done (final (state stage) h.0))
    recovers stage =
        let e = sym (recover-stages hash start t old new g all_succeed stage) in
        let h = recover_pending_file_mutations hash all_succeed (state stage) in
        let last =
          subst
            (λ l.
              ((final (state stage) l).intent ≡ none)
              × (Undone (final (state stage) l) ⊎ Done (final (state stage) l)))
            e (Undone-or-Done stage) in
        (recover-succeeds hash start t old new g stage, last.0, last.1)

  -- A file with a known digest is replaced by one with another digest, by a request that the session
  -- does not know; digests, paths and hashes are well formed, and the version is not at the machine's
  -- limit. Whichever effects fail, and wherever the daemon crashes in the transaction, in its rollback
  -- and, again and again, in the recovery of either, the next start whose effects succeed completes: no
  -- intent is left, and either the old file is in place and the session is as before, or the new file
  -- is in place with the next version and its event in the log.
  pub Crashed-recovers :
      (s : Workspace)
      → Guarded hash start t old new
      → Crashed hash t start s
      → let h = recover_pending_file_mutations hash all_succeed s in
        (h.1 ≡ ok tt) × ((final s h.0).intent ≡ none) × (Undone (final s h.0) ⊎ Done (final s h.0))
  Crashed-recovers s g crashed =
      let (stage, e) = Crashed-stage g crashed in
      subst
        (λ v.
          let h = recover_pending_file_mutations hash all_succeed v in
          (h.1 ≡ ok tt)
          × ((final v h.0).intent ≡ none)
          × (Undone (final v h.0) ⊎ Done (final v h.0)))
        (sym e) (recovers g stage)
