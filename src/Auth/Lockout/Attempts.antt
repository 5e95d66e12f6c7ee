-- ===== src/Auth/Lockout/Attempts.antt =====
-- When an email is locked, by the history of its attempts.
use regent_backend.Base.{
  ℕ, ◌+◌, ◌≤◌, ◌<◌, ◌≡◌, refl, sym, ap, ◌∙◌, inl, inr, Bool, true, false, ◌&&◌, Option, none, some,
  List, [], ◌∷◌, arith, ltb, leb, if◌then◌else◌, Bool-cases,
}
use regent_backend.Auth.Lockout.{
  Lockout, Attempt, failure, success, attempt, attempt_all, check_locked, is_after, failed_row,
  record_failure, clear_lockout, max_failed_attempts, lockout_duration,
}

-- The failures since the last success, and the time of the last of them; attempts whose SQL is not
-- run do not count.
abbrev pub Streak : Type 0
Streak = ℕ × ℕ

abbrev pub after_attempt : Attempt → Streak → Streak
after_attempt (failure true now) (n, t) = (n + 1, now)
after_attempt (failure false now) s = s
after_attempt (success true) s = (0, 0)
after_attempt (success false) s = s

abbrev pub streak : List Attempt → Streak → Streak
streak [] s = s
streak (a ∷ rest) s = streak rest (after_attempt a s)

-- Locked until half an hour after the last of ten or more failures.
abbrev pub is_locked : (now : ℕ) → Streak → Bool
is_locked now (n, t) = leb max_failed_attempts n && ltb now (t + lockout_duration)

-- The row tells the streak.
abbrev pub Tells : Streak → Option Lockout → Type 0
Tells (n, t) none = n ≡ 0
Tells (n, t) (some row) =
    (n ≡ row.failed_attempts)
    × (row.locked_until ≡ (if leb max_failed_attempts n then some (t + lockout_duration) else none))

leb_below : (n : ℕ) → leb max_failed_attempts (n + 1) ≡ false → leb max_failed_attempts n ≡ false
leb_below n m = ground arith

failed_row-Tells :
    (now n t : ℕ) (row : Lockout)
    → n ≡ row.failed_attempts
    → row.locked_until ≡ (if leb max_failed_attempts n then some (t + lockout_duration) else none)
    → (failed_row now (some row)).locked_until
      ≡ (if leb max_failed_attempts (n + 1) then some (now + lockout_duration) else none)
unfolding failed_row
failed_row-Tells now n t row h l = elim (Bool-cases (leb max_failed_attempts (n + 1))) [
  | inl y ↦ rw (sym h, y) refl
  | inr m ↦
      rw (sym h, m) (l ∙ ap (λ b. if b then some (t + lockout_duration) else none) (leb_below n m))
]

attempt-Tells :
    (a : Attempt) (s : Streak) (o : Option Lockout)
    → Tells s o
    → Tells (after_attempt a s) (attempt a o)
unfolding attempt record_failure failed_row clear_lockout
attempt-Tells (failure true now) (n, t) none h = (omega (arith, h), rw h refl)
attempt-Tells (failure true now) (n, t) (some row) (h, l) =
    (omega (arith, h), failed_row-Tells now n t row h l)
attempt-Tells (failure false now) s o h = h
attempt-Tells (success true) s o h = refl
attempt-Tells (success false) s o h = h

attempt_all-Tells :
    (attempts : List Attempt) (s : Streak) (o : Option Lockout)
    → Tells s o
    → Tells (streak attempts s) (attempt_all attempts o)
unfolding attempt_all
attempt_all-Tells [] s o h = h
attempt_all-Tells (a ∷ rest) s o h =
    attempt_all-Tells rest (after_attempt a s) (attempt a o) (attempt-Tells a s o h)

Tells-is_locked :
    (now : ℕ) (s : Streak) (o : Option Lockout)
    → Tells s o
    → check_locked true now o ≡ is_locked now s
unfolding check_locked is_after
Tells-is_locked now (n, t) none h = ground (arith, h)
Tells-is_locked now (n, t) (some row) (h, l) = elim (Bool-cases (leb max_failed_attempts n)) [
  | inl y ↦ rw (l, y) refl
  | inr m ↦ rw (l, m) refl
]

-- An email without a row at first is locked, at any time, exactly if it has had ten failures or more
-- since its last success, and the last of them is less than half an hour ago.
pub check_locked-attempt_all :
    (attempts : List Attempt) (now : ℕ)
    → check_locked true now (attempt_all attempts none) ≡ is_locked now (streak attempts (0, 0))
check_locked-attempt_all attempts now =
    Tells-is_locked now (streak attempts (0, 0)) (attempt_all attempts none)
      (attempt_all-Tells attempts (0, 0) none refl)

-- With ten failures or more in the row, one failure more locks the email for the half hour after it,
-- even where the lock has run out.
pub check_locked-after_lock :
    (row : Lockout) (now later : ℕ)
    → max_failed_attempts ≤ row.failed_attempts
    → later < now + lockout_duration
    → check_locked true later (record_failure true now (some row)).0 ≡ true
unfolding check_locked is_after record_failure failed_row
check_locked-after_lock row now later h l = ground (arith, h, l)
