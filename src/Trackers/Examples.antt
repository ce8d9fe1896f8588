-- ===== src/Trackers/Examples.antt =====
-- A download that is requested, cancelled, requested again under its id and lost.
use pentaract.Prelude.{◌≡◌, refl, true, false, arith}
use pentaract.Trackers.{
  State, failed, is_cancelled, is_interrupted, put, mark_cancelled, status_of, cancel_previous,
  setup_tracker, cancel_download, interrupt_tracker, fail_tracker,
}
use pentaract.Trackers.Live.{
  Reach, here, next, setup, fail, IsSound, start, Reach-IsSound, cancel_download-Ends,
}
use pentaract.Trackers.Cancelled.{Reach-cancelled}

abbrev requested : State
requested = setup_tracker 5 1 start

abbrev stopped : State
stopped = (cancel_download 5 requested).1

abbrev again : State
again = setup_tracker 5 1 stopped

abbrev lost : State
lost = fail_tracker 1 false true (failed 2) again

lost_reached : Reach stopped lost
unfolding setup_tracker cancel_download
lost_reached = next (next here (setup 5 1)) (fail 1 false true (failed 2) (omega arith))

requested_reached : Reach start requested
unfolding setup_tracker cancel_download
requested_reached = next here (setup 5 1)

resumable : status_of (lost.tracker 1) ≡ is_interrupted
unfolding setup_tracker cancel_download cancel_previous put fail_tracker interrupt_tracker status_of
    mark_cancelled
resumable = refl

Reach-IsSound_example : IsSound requested
Reach-IsSound_example = Reach-IsSound requested_reached

cancel_download-Ends_run : ((cancel_download 5 requested).1.tracker 0).done ≡ true
unfolding setup_tracker cancel_previous put
cancel_download-Ends_run = cancel_download-Ends 5 0 requested_reached (omega arith) refl

Reach-cancelled_example : status_of (lost.tracker 0) ≡ is_cancelled
unfolding setup_tracker cancel_previous put status_of mark_cancelled cancel_download
Reach-cancelled_example = Reach-cancelled 0 lost_reached (omega arith) refl
