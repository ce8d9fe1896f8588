-- ===== src/Breaker.antt =====
-- internal/service/verify_circuit_breaker.go: the circuit breaker of an upload's verifications. Each
-- operation under the mutex is one step; times are nanoseconds given by the clock.
pub mod History
mod Examples
use pentaract.Prelude.{
  ℕ, zero, suc, ◌+◌, ◌-◌, Bool, true, false, ◌&&◌, not, Option, none, some, List, [], ◌∷◌,
  if◌then◌else◌, leb, ltb,
}

pub record Breaker : Type 0 where
  pub consecutive_failures : ℕ
  pub tripped : Bool
  pub last_tripped_at : ℕ
  pub cooldown : ℕ
  pub failure_threshold : ℕ

abbrev pub verify_cb_failure_threshold : ℕ
verify_cb_failure_threshold = 3

abbrev pub verify_cb_cooldown_duration : ℕ
verify_cb_cooldown_duration = 30000000000

unfoldable pub new : Breaker
new = record {
  consecutive_failures = 0;
  tripped = false;
  last_tripped_at = 0;
  cooldown = verify_cb_cooldown_duration;
  failure_threshold = verify_cb_failure_threshold;
}

unfoldable pub record_success : Breaker → Breaker
record_success cb = record cb { consecutive_failures = 0; tripped = false }

unfoldable pub record_failure : ℕ → Breaker → Breaker
record_failure now cb =
    let counted : Breaker = record cb { consecutive_failures = suc cb.consecutive_failures } in
    if leb cb.failure_threshold counted.consecutive_failures && not cb.tripped
    then record counted { tripped = true; last_tripped_at = now }
    else counted

-- How long `WaitIfTripped` sleeps, unless the context ends first: `cooldown - (now - last_tripped_at)`
-- where it is positive, and the clock does not go back.
unfoldable pub wait_if_tripped : ℕ → Breaker → Option ℕ
wait_if_tripped now cb =
    if not cb.tripped
    then none
    else if ltb (now - cb.last_tripped_at) cb.cooldown
    then some (cb.cooldown - (now - cb.last_tripped_at))
    else none

-- What a verification reports, with the time.
pub data Report : Type 0 where
  success : Report
  failure : ℕ → Report

-- The breaker after the reports, the newest first.
unfoldable pub after_reports : List Report → Breaker
unfolding new record_success record_failure
after_reports [] = new
after_reports (success ∷ rs) = record_success (after_reports rs)
after_reports (failure now ∷ rs) = record_failure now (after_reports rs)
