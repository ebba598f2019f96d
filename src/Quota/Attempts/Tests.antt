-- ===== src/Quota/Attempts/Tests.antt =====
-- An address that fails thirty-two times.
use asp.Base.{ℕ, zero, suc, ◌<◌, ◌≡◌, refl, false, List, [], ◌∷◌, replicate, arith}
use asp.Base.Keys.{lookup, uuid_key}
use asp.Quota.Attempts.{auth_attempt_allowed, record_auth_failure, auth_failure_window}
use asp.Quota.Attempts.Deeds.{Deed, attempt, failure, success, after_deeds}
use asp.Quota.Attempts.Lockout.{fail_all, AllWithin, locked_out}

AllWithin-replicate : (n now : ℕ) → now < auth_failure_window → AllWithin 0 (replicate n now)
AllWithin-replicate zero now lt = tt
AllWithin-replicate (suc n) now lt = (omega arith, omega arith, AllWithin-replicate n now lt)

abbrev deeds : List Deed
deeds = attempt 200 6 ∷ failure 300 6 ∷ attempt 400 5 ∷ success 500 6 ∷ []

locked_out_example :
    (auth_attempt_allowed 30000000099
      (after_deeds
        (record_auth_failure 100 (fail_all (record_auth_failure 0 [] 5) 5 (replicate 30 50)) 5)
        deeds)
      5).1
    ≡ false
locked_out_example =
    locked_out [] 5 0 100 30000000099 (replicate 30 50) deeds tt (unfold lookup in refl) refl
      (omega arith, omega arith, AllWithin-replicate 30 50 (omega arith))
      (omega arith, ((omega arith, refl), (omega arith, ((omega arith, refl), tt)))) (omega arith)
      (omega arith)
