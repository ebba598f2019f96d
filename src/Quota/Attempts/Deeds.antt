-- ===== src/Quota/Attempts/Deeds.antt =====
-- What other addresses do leaves a blocked address blocked.
use asp.Base.{
  ℕ, suc, ◌+◌, ◌<◌, ◌≡◌, ◌⊎◌, sym, ap, subst, true, false, Bool-cases, inl, inr, some, List, [],
  ◌∷◌, leb, ◌==◌, arith,
}
use asp.Base.Keys.{Map, insert, retain, uuid_key, lookup-remove, IsMap-remove}
use asp.Quota.Attempts.{
  auth_failure_limit, auth_failure_block, AuthFailureWindow, is_blocked, is_kept, renewed,
  with_source, auth_attempt_allowed, record_auth_failure, record_auth_success,
}
use asp.Quota.Attempts.Table.{
  length-remove, Has, Has-retain, Has-insert_other, Has-fewer, with_source_own, with_source-Has,
}

-- What addresses do, and when.
pub data Deed : Type 0 where
  attempt failure success : ℕ → ℕ → Deed

unfoldable pub after_deed : Map ℕ AuthFailureWindow → Deed → Map ℕ AuthFailureWindow
unfolding auth_attempt_allowed record_auth_failure record_auth_success
after_deed windows (attempt now address) = (auth_attempt_allowed now windows address).0
after_deed windows (failure now address) = record_auth_failure now windows address
after_deed windows (success now address) = record_auth_success windows address

unfoldable pub after_deeds : Map ℕ AuthFailureWindow → List Deed → Map ℕ AuthFailureWindow
unfolding after_deed
after_deeds windows [] = windows
after_deeds windows (d ∷ deeds) = after_deeds (after_deed windows d) deeds

-- Attempts of any address, and failures and successes of others, before the block ends.
abbrev pub Outside : ℕ → ℕ → Deed → Type 0
Outside until source (attempt now address) = now < until
Outside until source (failure now address) = (now < until) × ((address == source) ≡ false)
Outside until source (success now address) = (now < until) × ((address == source) ≡ false)

abbrev pub AllOutside : ℕ → ℕ → List Deed → Type 0
AllOutside until source [] = Unit {0}
AllOutside until source (d ∷ deeds) = Outside until source d × AllOutside until source deeds

pub blocked-kept :
    (now until : ℕ) (w : AuthFailureWindow)
    → w.blocked_until ≡ some until
    → now < until
    → (is_kept now w ≡ true) × (is_blocked now w.blocked_until ≡ true)
unfolding is_kept
blocked-kept now until w b lt = ground (arith, b)

pub refused :
    (now until : ℕ) (windows : Map ℕ AuthFailureWindow) (source room : ℕ) (w : AuthFailureWindow)
    → w.blocked_until ≡ some until
    → now < until
    → Has windows source room w
    → auth_attempt_allowed now windows source ≡ (retain (λ _ v. is_kept now v) windows, false)
unfolding auth_attempt_allowed
refused now until windows source room w b lt h =
    let (kept, blocked) = blocked-kept now until w b lt in
    ground (arith, with_source_own now windows source room w kept h, blocked)

pub attempt_table :
    (now : ℕ) (windows : Map ℕ AuthFailureWindow) (address : ℕ)
    → ((auth_attempt_allowed now windows address).0 ≡ (with_source now windows address).0)
      ⊎ ((v : AuthFailureWindow) × ((auth_attempt_allowed now windows address).0
            ≡ insert (with_source now windows address).0 address v))
unfolding auth_attempt_allowed
attempt_table now windows address =
    let opened = with_source now windows address in
    let w = renewed now opened.1 in
    elim (Bool-cases (is_blocked now opened.1.blocked_until)) [
      | inl blocked ↦ inl (ground (arith, blocked))
      | inr free ↦ elim (Bool-cases (leb auth_failure_limit w.failures)) [
        | inl many ↦ inr (
          record w { blocked_until = some (now + auth_failure_block) },
          ground (arith, free, many),
        )
        | inr few ↦ inr (w, ground (arith, free, few))
      ]
    ]

pub after_deed-Has :
    (windows : Map ℕ AuthFailureWindow) (source room until : ℕ) (w : AuthFailureWindow) (d : Deed)
    → w.blocked_until ≡ some until
    → Outside until source d
    → Has windows source (suc (suc room)) w
    → Has (after_deed windows d) source room w
unfolding after_deed auth_attempt_allowed record_auth_failure record_auth_success
after_deed-Has windows source room until w (attempt now address) b lt h =
    let (kept, blocked) = blocked-kept now until w b lt in
    elim (Bool-cases (address == source)) [
      | inl own ↦
          let e : address ≡ source = ground (arith, own) in
          rw e (
            rw (ap (λ r. r.0) (refused now until windows source (suc (suc room)) w b lt h)) (
              Has-fewer (retain (λ _ v. is_kept now v) windows) source (suc (suc room)) room w
                (omega arith) (Has-retain now windows source (suc (suc room)) w kept h)))
      | inr differs ↦
          let k = with_source-Has now windows source (suc room) address w kept differs h in
          elim (attempt_table now windows address) [
            | inl same ↦
                subst (λ m. Has m source room w) (sym same)
                  (Has-fewer (with_source now windows address).0 source (suc room) room w
                    (omega arith) k)
            | inr (v, same) ↦
                subst (λ m. Has m source room w) (sym same)
                  (Has-insert_other (with_source now windows address).0 source room address w v
                    differs k)
          ]
    ]
after_deed-Has windows source room until w (failure now address) b (lt, differs) h =
    let (kept, blocked) = blocked-kept now until w b lt in
    let k = with_source-Has now windows source (suc room) address w kept differs h in
    Has-insert_other _ source room address w _ differs k
after_deed-Has windows source room until w (success now address) b (lt, differs) h = record {
  distinct = IsMap-remove windows address h.distinct;
  found = ground (arith, lookup-remove windows address source, differs, h.found);
  size = omega (arith, length-remove windows address, h.size);
}

-- Twice the number of deeds, which may each add an entry.
abbrev pub twice : List Deed → ℕ
twice [] = 0
twice (d ∷ deeds) = suc (suc (twice deeds))

pub after_deeds-Has :
    (windows : Map ℕ AuthFailureWindow) (source until : ℕ) (w : AuthFailureWindow)
    (deeds : List Deed)
    → w.blocked_until ≡ some until
    → AllOutside until source deeds
    → Has windows source (twice deeds) w
    → Has (after_deeds windows deeds) source 0 w
unfolding after_deeds
after_deeds-Has windows source until w [] b out h = h
after_deeds-Has windows source until w (d ∷ deeds) b out h =
    after_deeds-Has (after_deed windows d) source until w deeds b out.1
      (after_deed-Has windows source (twice deeds) until w d b out.0 h)
