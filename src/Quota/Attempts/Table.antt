-- ===== src/Quota/Attempts/Table.antt =====
-- The table of windows: an address keeps its window while there is room for others.
use asp.Base.{
  ℕ, suc, ◌+◌, ◌≤◌, ◌<◌, ◌≡◌, subst, Bool, true, false, Option-cases, inl, inr, some, [], ◌∷◌,
  length, ◌==◌, arith,
}
use asp.Base.Keys.{
  Map, IsMap, lookup, insert, remove, retain, uuid_key, lookup-insert, lookup-insert_self,
  lookup-retain, IsMap-insert, IsMap-retain,
}
use asp.Quota.Attempts.{
  max_auth_failure_sources, AuthFailureWindow, new_window, is_kept, make_room, with_source,
}

pub length-retain :
    (keep : ℕ → AuthFailureWindow → Bool) (m : Map ℕ AuthFailureWindow)
    → length (retain keep m) ≤ length m
unfolding retain
length-retain keep [] = omega arith
length-retain keep ((a, w) ∷ m) = ground (arith, length-retain keep m)

pub length-remove : (m : Map ℕ AuthFailureWindow) (a : ℕ) → length (remove m a) ≤ length m
unfolding remove
length-remove [] a = omega arith
length-remove ((b, w) ∷ m) a = ground (arith, length-remove m a)

pub length-insert :
    (m : Map ℕ AuthFailureWindow) (a : ℕ) (w : AuthFailureWindow)
    → length (insert m a w) ≤ length m + 1
unfolding insert
length-insert m a w = omega (arith, length-remove m a)

-- The address has this window, and the table has room for `room` more.
pub record Has (windows : Map ℕ AuthFailureWindow) (source room : ℕ) (w : AuthFailureWindow)
    : Type 0 where
  pub distinct : IsMap windows
  pub found : lookup windows source ≡ some w
  pub size : length windows + room ≤ max_auth_failure_sources

pub Has-retain :
    (now : ℕ) (windows : Map ℕ AuthFailureWindow) (source room : ℕ) (w : AuthFailureWindow)
    → is_kept now w ≡ true
    → Has windows source room w
    → Has (retain (λ _ v. is_kept now v) windows) source room w
Has-retain now windows source room w kept h = record {
  distinct = IsMap-retain (λ _ v. is_kept now v) windows h.distinct;
  found =
      ground (arith, lookup-retain (λ _ v. is_kept now v) windows source h.distinct, h.found, kept);
  size = omega (arith, length-retain (λ _ v. is_kept now v) windows, h.size);
}

pub Has-insert_other :
    (windows : Map ℕ AuthFailureWindow) (source room other : ℕ) (w v : AuthFailureWindow)
    → (other == source) ≡ false
    → Has windows source (suc room) w
    → Has (insert windows other v) source room w
Has-insert_other windows source room other w v differs h = record {
  distinct = IsMap-insert windows other v h.distinct;
  found = ground (arith, lookup-insert windows other source v, differs, h.found);
  size = omega (arith, length-insert windows other v, h.size);
}

pub Has-insert :
    (windows : Map ℕ AuthFailureWindow) (source room : ℕ) (w v : AuthFailureWindow)
    → Has windows source (suc room) w
    → Has (insert windows source v) source room v
Has-insert windows source room w v h = record {
  distinct = IsMap-insert windows source v h.distinct;
  found = lookup-insert_self windows source v;
  size = omega (arith, length-insert windows source v, h.size);
}

pub Has-fewer :
    (windows : Map ℕ AuthFailureWindow) (source room less : ℕ) (w : AuthFailureWindow)
    → less ≤ room
    → Has windows source room w
    → Has windows source less w
Has-fewer windows source room less w le h = record {
  distinct = h.distinct;
  found = h.found;
  size = omega (arith, h.size);
}

pub with_source_own :
    (now : ℕ) (windows : Map ℕ AuthFailureWindow) (source room : ℕ) (w : AuthFailureWindow)
    → is_kept now w ≡ true
    → Has windows source room w
    → with_source now windows source ≡ (retain (λ _ v. is_kept now v) windows, w)
unfolding with_source
with_source_own now windows source room w kept h =
    let found = (Has-retain now windows source room w kept h).found in ground (arith, found)

pub make_room_not :
    (windows : Map ℕ AuthFailureWindow)
    → length windows < max_auth_failure_sources
    → make_room windows ≡ windows
unfolding make_room
make_room_not windows room = ground arith

pub with_source-Has :
    (now : ℕ) (windows : Map ℕ AuthFailureWindow) (source room other : ℕ) (w : AuthFailureWindow)
    → is_kept now w ≡ true
    → (other == source) ≡ false
    → Has windows source (suc room) w
    → Has (with_source now windows other).0 source room w
unfolding with_source
with_source-Has now windows source room other w kept differs h =
    let live = retain (λ _ v. is_kept now v) windows in
    let k = Has-retain now windows source (suc room) w kept h in
    let e = make_room_not live (omega (arith, k.size)) in
    elim (Option-cases (lookup live other)) [
      | inr (v, f) ↦
          let same : live ≡ (with_source now windows other).0 = ground (arith, f) in
          subst (λ m. Has m source room w) same
            (Has-fewer live source (suc room) room w (omega arith) k)
      | inl f ↦
          let same : insert live other (new_window now) ≡ (with_source now windows other).0 =
            ground (arith, f, e) in
          subst (λ m. Has m source room w) same
            (Has-insert_other live source room other w (new_window now) differs k)
    ]
