-- ===== src/Quota/Attempts/Lockout.antt =====
-- An address is locked out by its failures, whatever other addresses do.
use asp.Base.{
  ℕ, suc, ◌+◌, ◌≤◌, ◌<◌, ◌≡◌, refl, ap, subst, true, false, none, some, List, [], ◌∷◌, length,
  arith,
}
use asp.Base.Keys.{
  Map, IsMap, lookup, insert, retain, uuid_key, lookup-insert_self, lookup-retain, IsMap-insert,
  IsMap-retain,
}
use asp.Quota.Attempts.{
  auth_failure_window, auth_failure_limit, auth_failure_block, max_auth_failure_sources,
  AuthFailureWindow, new_window, is_kept, renewed, with_source, auth_attempt_allowed, failed_once,
  record_auth_failure,
}
use asp.Quota.Attempts.Table.{
  length-retain, length-insert, Has, Has-retain, Has-insert, Has-fewer, with_source_own,
  make_room_not,
}
use asp.Quota.Attempts.Deeds.{Deed, after_deeds, AllOutside, refused, twice, after_deeds-Has}

-- The failures of one address.
unfoldable pub fail_all : Map ℕ AuthFailureWindow → ℕ → List ℕ → Map ℕ AuthFailureWindow
unfolding record_auth_failure
fail_all windows source [] = windows
fail_all windows source (now ∷ times) =
    fail_all (record_auth_failure now windows source) source times

abbrev pub AllWithin : ℕ → List ℕ → Type 0
AllWithin first [] = Unit {0}
AllWithin first (now ∷ times) =
    (first ≤ now) × (now < first + auth_failure_window) × AllWithin first times

abbrev counted_window : ℕ → ℕ → AuthFailureWindow
counted_window first n = record { started = first; failures = n; blocked_until = none }

abbrev locked_window : ℕ → ℕ → AuthFailureWindow
locked_window first last = record {
  started = first;
  failures = 32;
  blocked_until = some (last + auth_failure_block);
}

open_window :
    (first now n : ℕ)
    → first ≤ now
    → now < first + auth_failure_window
    → (is_kept now (counted_window first n) ≡ true)
      × (renewed now (counted_window first n) ≡ counted_window first n)
unfolding is_kept renewed
open_window first now n le lt = ground arith

fail_again :
    (windows : Map ℕ AuthFailureWindow) (source room first now n : ℕ)
    → first ≤ now
    → now < first + auth_failure_window
    → Has windows source (suc room) (counted_window first n)
    → Has
        (record_auth_failure now windows source)
        source
        room
        (failed_once now (counted_window first n))
unfolding record_auth_failure
fail_again windows source room first now n le lt h =
    let (kept, same) = open_window first now n le lt in
    let e = with_source_own now windows source (suc room) (counted_window first n) kept h in
    let live = retain (λ _ v. is_kept now v) windows in
    let table : insert live source (failed_once now (counted_window first n))
        ≡ record_auth_failure now windows source =
      ground (arith, e, same) in
    subst (λ m. Has m source room (failed_once now (counted_window first n))) table
      (Has-insert live source room (counted_window first n)
        (failed_once now (counted_window first n))
        (Has-retain now windows source (suc room) (counted_window first n) kept h))

fail_counted :
    (windows : Map ℕ AuthFailureWindow) (source room first now n : ℕ)
    → first ≤ now
    → now < first + auth_failure_window
    → n + 1 < auth_failure_limit
    → Has windows source (suc room) (counted_window first n)
    → Has (record_auth_failure now windows source) source room (counted_window first (n + 1))
unfolding failed_once
fail_counted windows source room first now n le lt few h =
    let e : failed_once now (counted_window first n) ≡ counted_window first (n + 1) =
      ground (arith, few) in
    subst (Has (record_auth_failure now windows source) source room) e
      (fail_again windows source room first now n le lt h)

fail_locked :
    (windows : Map ℕ AuthFailureWindow) (source room first now : ℕ)
    → first ≤ now
    → now < first + auth_failure_window
    → Has windows source (suc room) (counted_window first 31)
    → Has (record_auth_failure now windows source) source room (locked_window first now)
unfolding failed_once
fail_locked windows source room first now le lt h =
    let e : failed_once now (counted_window first 31) ≡ locked_window first now = refl in
    subst (Has (record_auth_failure now windows source) source room) e
      (fail_again windows source room first now 31 le lt h)

fail_all-Has :
    (times : List ℕ) (windows : Map ℕ AuthFailureWindow) (source room first n : ℕ)
    → AllWithin first times
    → n + length times < auth_failure_limit
    → Has windows source (length times + room) (counted_window first n)
    → Has (fail_all windows source times) source room (counted_window first (n + length times))
unfolding fail_all
fail_all-Has [] windows source room first n within few h =
    let e : n ≡ n + length {A = ℕ} [] = omega arith in
    subst (λ k. Has windows source room (counted_window first k)) e
      (Has-fewer windows source (length {A = ℕ} [] + room) room (counted_window first n)
        (omega arith) h)
fail_all-Has (now ∷ times) windows source room first n (le, lt, within) few h =
    let next = fail_counted windows source (length times + room) first now n le lt (omega arith) (
      Has-fewer windows source (length (now ∷ times) + room) (suc (length times + room))
        (counted_window first n) (omega arith) h) in
    let e : n + 1 + length times ≡ n + length (now ∷ times) = omega arith in
    subst (λ k. Has (fail_all windows source (now ∷ times)) source room (counted_window first k)) e
      (fail_all-Has times (record_auth_failure now windows source) source room first (n + 1) within
        (omega arith) next)

first_counted :
    (first : ℕ) → failed_once first (renewed first (new_window first)) ≡ counted_window first 1
unfolding failed_once renewed
first_counted first = ground arith

first_failure :
    (windows : Map ℕ AuthFailureWindow) (source room first : ℕ)
    → IsMap windows
    → lookup windows source ≡ none
    → length windows + suc (suc room) ≤ max_auth_failure_sources
    → Has (record_auth_failure first windows source) source room (counted_window first 1)
unfolding record_auth_failure with_source
first_failure windows source room first distinct missing size =
    let live = retain (λ _ v. is_kept first v) windows in
    let gone : lookup live source ≡ none =
      ground (arith, lookup-retain (λ _ v. is_kept first v) windows source distinct, missing) in
    let small = length-retain (λ _ v. is_kept first v) windows in
    let kept = make_room_not live (omega arith) in
    let opened = insert live source (new_window first) in
    let once : failed_once first (renewed first (new_window first)) ≡ counted_window first 1 =
      first_counted first in
    let table : insert opened source (counted_window first 1)
        ≡ record_auth_failure first windows source =
      ground (arith, gone, kept, once) in
    subst (λ m. Has m source room (counted_window first 1)) table
      (record {
        distinct = IsMap-insert opened source (counted_window first 1) (
            IsMap-insert live source (new_window first)
              (IsMap-retain (λ _ v. is_kept first v) windows distinct));
        found = lookup-insert_self opened source (counted_window first 1);
        size = omega (
          arith,
          small,
          length-insert live source (new_window first),
          length-insert opened source (counted_window first 1),
        );
      })

-- An address without a window fails 32 times, within sixty seconds of the first time, and then other
-- addresses try, fail and succeed and it tries itself, all within thirty seconds of the last failure,
-- where the table has room for 33 more entries and for twice as many as there are deeds. Then its next
-- attempt within the thirty seconds is refused.
pub locked_out :
    (windows : Map ℕ AuthFailureWindow) (source first last now : ℕ) (times : List ℕ)
    (deeds : List Deed)
    → IsMap windows
    → lookup windows source ≡ none
    → length times ≡ 30
    → AllWithin first (last ∷ times)
    → AllOutside (last + auth_failure_block) source deeds
    → length windows + 33 + twice deeds ≤ max_auth_failure_sources
    → now < last + auth_failure_block
    → (auth_attempt_allowed now
        (after_deeds
          (record_auth_failure last
            (fail_all (record_auth_failure first windows source) source times)
            source)
          deeds)
        source).1
      ≡ false
locked_out windows source first last now times deeds distinct missing thirty (le, lt, within) out
      size soon =
    let room = suc (twice deeds) in
    let one =
      first_failure windows source (length times + room) first distinct missing (omega arith) in
    let many =
      fail_all-Has times (record_auth_failure first windows source) source room first 1 within
        (omega arith) one in
    let e : 1 + length times ≡ 31 = omega arith in
    let full =
      subst
        (λ k.
          Has (fail_all (record_auth_failure first windows source) source times) source room
            (counted_window first k))
        e many in
    let locked =
      fail_locked (fail_all (record_auth_failure first windows source) source times) source
        (twice deeds) first last le lt full in
    let still =
      after_deeds-Has _ source (last + auth_failure_block) (locked_window first last) deeds refl out
        locked in
    ap (λ r. r.1)
      (refused now (last + auth_failure_block) _ source 0 (locked_window first last) refl soon
        still)
