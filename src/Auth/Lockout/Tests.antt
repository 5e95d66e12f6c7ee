-- ===== src/Auth/Lockout/Tests.antt =====
-- The lockout at concrete inputs.
use regent_backend.Base.{◌≡◌, refl, true, false, none, some, List, [], ◌∷◌}
use regent_backend.Auth.Lockout.{
  Lockout, Attempt, failure, attempt, attempt_all, check_locked, failed_row, record_failure,
  is_after,
}
use regent_backend.Auth.Lockout.Attempts.{is_locked, streak, check_locked-attempt_all}

-- Nine failures, the last at time 9.
abbrev nine : List Attempt
nine =
    failure true 1
    ∷ failure true 2
    ∷ failure true 3
    ∷ failure true 4
    ∷ failure true 5
    ∷ failure true 6
    ∷ failure true 7
    ∷ failure true 8
    ∷ failure true 9
    ∷ []

nine_unlocked : check_locked true 11 (attempt_all nine none) ≡ false
unfolding check_locked attempt_all is_after attempt record_failure failed_row
nine_unlocked = refl

ten_locked : check_locked true 11 (attempt_all (failure true 0 ∷ nine) none) ≡ true
unfolding check_locked attempt_all is_after attempt record_failure failed_row
ten_locked = refl

check_locked-attempt_all_example :
    check_locked true 11 (attempt_all (failure true 0 ∷ nine) none)
    ≡ is_locked 11 (streak (failure true 0 ∷ nine) (0, 0))
check_locked-attempt_all_example = check_locked-attempt_all (failure true 0 ∷ nine) 11

abbrev expired : Lockout
expired = record { failed_attempts = 10; locked_until = some 500 }
