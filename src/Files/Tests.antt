-- ===== src/Files/Tests.antt =====
-- Transactions on one small file.
use asp.Base.{
  ◌≡◌, ◌⊎◌, refl, true, false, inl, inr, none, some, [], ◌∷◌, length, replicate, ◌==◌,
  if◌then◌else◌, ok, err, arith,
}
use asp.Base.Keys.{lookup}
use asp.Event.{Bytes}
use asp.Files.Transaction.{
  Workspace, Mutation, valid_sha256, commit_file_transaction, unexpected_target,
  no_recoverable_file, Effects, install, prepare, write_intent, move_backup, cached_file_response,
  validate_file_precondition, pending_of,
}
use asp.Files.Recover.{recover_pending_file_mutations}
use asp.Files.Atomic.{Guarded, all_succeed}
use asp.Files.Atomic.Crash.{Crashed, in_commit, final, Undone, Done, Crashed-recovers}
use asp.Files.Blind.{
  Unguarded, unappended, intended, removed, blind_overwrite_loses, blind_overwrite_stuck,
  creation_stuck,
}

-- A stand-in for SHA-256, which tells files of one byte from others.
abbrev hash : Bytes → Bytes
hash xs = (if length xs == 1 then 49 else 48) ∷ replicate 63 48

abbrev start : Workspace
start = record {
  target = some (1 ∷ []);
  temporary = some (2 ∷ 3 ∷ []);
  backup = none;
  intent = none;
  version = 4;
  requests = [];
  events = [];
}

abbrev guarded : Mutation
guarded = record {
  request_id = 7;
  request_hash = 5 ∷ [];
  path = 6 ∷ [];
  digest = hash (2 ∷ 3 ∷ []);
  expected_sha256 = some (hash (1 ∷ []));
  allow_blind = false;
  temporary_path = 8 ∷ [];
  backup_name = 9 ∷ [];
}

guarded-Guarded : Guarded hash start guarded (1 ∷ []) (2 ∷ 3 ∷ [])
unfolding valid_sha256 lookup
guarded-Guarded = record {
  target = refl;
  temporary = refl;
  backup = refl;
  intent = refl;
  expected = refl;
  digest = refl;
  differs = refl;
  unknown = refl;
  small = omega arith;
  valid_old = refl;
  valid_new = refl;
  path = omega arith;
  temporary_path = omega arith;
  request_hash = omega arith;
}

-- The daemon crashed when the old file was moved away.
abbrev moved_away : Workspace
moved_away = record start {
  target = none;
  backup = some (1 ∷ []);
  intent = some (pending_of hash guarded 5 (some (hash (1 ∷ []))));
}

moved_away-Crashed : Crashed hash guarded start moved_away
unfolding commit_file_transaction cached_file_response validate_file_precondition prepare
    write_intent move_backup valid_sha256 lookup
moved_away-Crashed = in_commit all_succeed (inr (inl refl))

Crashed-recovers_example :
    let h = recover_pending_file_mutations hash all_succeed moved_away in
    (h.1 ≡ ok tt)
    × ((final moved_away h.0).intent ≡ none)
    × (Undone hash start guarded (1 ∷ []) (2 ∷ 3 ∷ []) (final moved_away h.0)
        ⊎ Done hash start guarded (1 ∷ []) (2 ∷ 3 ∷ []) (final moved_away h.0))
Crashed-recovers_example =
    Crashed-recovers hash start guarded (1 ∷ []) (2 ∷ 3 ∷ []) moved_away guarded-Guarded
      moved_away-Crashed

abbrev blind : Mutation
blind = record guarded { expected_sha256 = none; allow_blind = true }

blind-Unguarded : Unguarded hash start blind (some (1 ∷ [])) (2 ∷ 3 ∷ [])
unfolding valid_sha256 lookup
blind-Unguarded = record {
  target = refl;
  temporary = refl;
  backup = refl;
  expected = refl;
  allow_blind = refl;
  digest = refl;
  unknown = refl;
  small = omega arith;
  valid_new = refl;
  path = omega arith;
  temporary_path = omega arith;
  request_hash = omega arith;
}

blind_overwrite_loses_example :
    let v =
      final start
        (commit_file_transaction hash (record all_succeed { appended = false }) blind start).0 in
    (v.target ≡ none) × (v.temporary ≡ none) × (v.backup ≡ none)
blind_overwrite_loses_example =
    blind_overwrite_loses hash start blind (2 ∷ 3 ∷ []) (1 ∷ []) blind-Unguarded

blind_overwrite_stuck_example :
    ((commit_file_transaction hash all_succeed blind start).0
      ≡ intended hash start blind (2 ∷ 3 ∷ [])
        ∷ (install hash all_succeed blind 5 (intended hash start blind (2 ∷ 3 ∷ []))).0)
    × ((again : Effects)
        → recover_pending_file_mutations hash again (intended hash start blind (2 ∷ 3 ∷ []))
          ≡ ([], err unexpected_target))
blind_overwrite_stuck_example =
    blind_overwrite_stuck hash start blind (2 ∷ 3 ∷ []) (1 ∷ []) all_succeed blind-Unguarded refl
      refl refl

abbrev empty_place : Workspace
empty_place = record start { target = none }

creation-Unguarded : Unguarded hash empty_place blind none (2 ∷ 3 ∷ [])
unfolding valid_sha256 lookup
creation-Unguarded = record {
  target = refl;
  temporary = refl;
  backup = refl;
  expected = refl;
  allow_blind = refl;
  digest = refl;
  unknown = refl;
  small = omega arith;
  valid_new = refl;
  path = omega arith;
  temporary_path = omega arith;
  request_hash = omega arith;
}

creation_stuck_example :
    let written = intended hash empty_place blind (2 ∷ 3 ∷ []) in
    let between = removed hash empty_place blind (2 ∷ 3 ∷ []) in
    ((commit_file_transaction hash unappended blind empty_place).0
      ≡ written
        ∷ record written { target = some (2 ∷ 3 ∷ []); temporary = none }
        ∷ between
        ∷ record between { intent = none }
        ∷ [])
    × ((again : Effects)
        → recover_pending_file_mutations hash again between ≡ ([], err no_recoverable_file))
creation_stuck_example = creation_stuck hash empty_place blind (2 ∷ 3 ∷ []) creation-Unguarded
