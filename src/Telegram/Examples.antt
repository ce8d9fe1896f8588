-- ===== src/Telegram/Examples.antt =====
-- A call that is rate-limited, then cut off, then answered.
use pentaract.Prelude.{ℕ, ◌≡◌, refl, ◌↔◌, true, false, none, some, [], ◌∷◌, ◌==◌, if◌then◌else◌}
use pentaract.Prelude.Int.{pos, negsuc}
use pentaract.OrderedJobs.Spec.{ok}
use pentaract.Telegram.{
  Failure, Response, no_response, response, Trip, do_with_retry, delete_message, convert_chat_id,
}
use pentaract.Telegram.Retry.{Reaches, do_with_retry-Reaches}

abbrev cut_off : Failure
cut_off = record { code = 1; is_cancelled = false; is_cut_short = true; is_network = false }

abbrev trip : Response → Trip
trip r = record {
  ended = none;
  request_failure = none;
  answer = r;
  ended_after = false;
  wait_ended = none;
}

abbrev trips : ℕ → Trip
trips n =
    if n == 0
    then trip (response 429 (some 2) (ok []))
    else if n == 1
    then trip (no_response cut_off)
    else trip (response 200 none (ok (7 ∷ [])))

answered : do_with_retry trips ≡ (ok (200, 7 ∷ []), 3000)
unfolding do_with_retry
answered = refl

deleted : delete_message trips ≡ none
unfolding delete_message
deleted = refl

channel : convert_chat_id (pos 3696691277) ≡ negsuc 1003696691276
unfolding convert_chat_id
channel = refl

do_with_retry-Reaches_example :
    ((do_with_retry trips).0 ≡ ok (200, 7 ∷ [])) ↔ Reaches trips (200, 7 ∷ [])
do_with_retry-Reaches_example = do_with_retry-Reaches trips (200, 7 ∷ [])
