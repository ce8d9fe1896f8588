-- ===== src/Breaker/Examples.antt =====
-- Witnesses of the circuit breaker: three failures in a row, at 5, 6 and 7 seconds.
use pentaract.Prelude.{◌-◌, ◌≡◌, some, none, List, [], ◌∷◌, leb, ltb, ◌&&◌, if◌then◌else◌}
use pentaract.Breaker.{
  Report, success, failure, after_reports, wait_if_tripped, verify_cb_cooldown_duration,
}
use pentaract.Breaker.History.{after_reports-state, wait_if_tripped-reports}

abbrev three : List Report
three = failure 7000000000 ∷ failure 6000000000 ∷ failure 5000000000 ∷ success ∷ []

after_reports-state_example :
    ((after_reports three).consecutive_failures ≡ 3)
    × ((after_reports three).tripped ≡ leb 3 3)
    × ((after_reports three).last_tripped_at ≡ 7000000000)
    × ((after_reports three).failure_threshold ≡ 3)
    × ((after_reports three).cooldown ≡ verify_cb_cooldown_duration)
after_reports-state_example = after_reports-state three

wait_if_tripped-reports_run : wait_if_tripped 8000000000 (after_reports three) ≡ (
    if leb 3 3 && ltb (8000000000 - 7000000000) verify_cb_cooldown_duration
    then some (verify_cb_cooldown_duration - (8000000000 - 7000000000))
    else none)
wait_if_tripped-reports_run = wait_if_tripped-reports 8000000000 three
