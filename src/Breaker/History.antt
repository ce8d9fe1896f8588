-- ===== src/Breaker/History.antt =====
-- The state of the circuit breaker in terms of what was reported to it.
use pentaract.Prelude.{
  ℕ, suc, ◌-◌, ◌≡◌, refl, ◌&&◌, none, some, List, [], ◌∷◌, if◌then◌else◌, leb, ltb, arith, ◌==◌,
}
use pentaract.Breaker.{
  new, record_success, record_failure, wait_if_tripped, Report, success, failure, after_reports,
  verify_cb_cooldown_duration,
}

-- The failures since the last success.
abbrev pub failures : List Report → ℕ
failures [] = 0
failures (success ∷ rs) = 0
failures (failure now ∷ rs) = suc (failures rs)

-- The time of the failure that was the third in a row, the last such time.
abbrev pub third_at : List Report → ℕ
third_at [] = 0
third_at (success ∷ rs) = third_at rs
third_at (failure now ∷ rs) = if failures rs == 2 then now else third_at rs

-- After any reports the breaker counts the failures since the last success, is tripped exactly when
-- there are three or more of them, and then remembers the time of the third one.
pub after_reports-state :
    (rs : List Report)
    → ((after_reports rs).consecutive_failures ≡ failures rs)
      × ((after_reports rs).tripped ≡ leb 3 (failures rs))
      × ((after_reports rs).last_tripped_at ≡ third_at rs)
      × ((after_reports rs).failure_threshold ≡ 3)
      × ((after_reports rs).cooldown ≡ verify_cb_cooldown_duration)
unfolding after_reports new record_success record_failure
after_reports-state [] = (refl, refl, refl, refl, refl)
after_reports-state (success ∷ rs) = ground (arith, after_reports-state rs)
after_reports-state (failure now ∷ rs) = ground (arith, after_reports-state rs)

-- A verification waits only within the cooldown after the third failure in a row, for the rest of it;
-- later failures, before any success, lengthen no wait.
pub wait_if_tripped-reports :
    (now : ℕ) (rs : List Report)
    → wait_if_tripped now (after_reports rs) ≡ (
        if leb 3 (failures rs) && ltb (now - third_at rs) verify_cb_cooldown_duration
        then some (verify_cb_cooldown_duration - (now - third_at rs))
        else none)
unfolding wait_if_tripped
wait_if_tripped-reports now rs = ground (arith, after_reports-state rs)
