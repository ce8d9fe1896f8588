-- ===== src/Trackers.antt =====
-- internal/handler/download_handler.go and internal/handler/progress_tracker.go: the trackers of downloads. A
-- tracker is an address in a store, the handler's map leads from a download id to one, and each step under
-- the mutex is a step of the machine: requests, cancellations, ends, and the timers in any order.
pub mod Live
pub mod Cancelled
mod Examples
use pentaract.Prelude.{
  ℕ, zero, suc, ◌+◌, ◌<◌, ◌≡◌, ◌⊎◌, Bool, true, false, ◌&&◌, ◌||◌, not, Option, none, some, List,
  [], ◌∷◌, ◌==◌, if◌then◌else◌,
}

pub data Error : Type 0 where
  client_disconnected : Error
  failed : ℕ → Error

-- downloadTracker, with the download id that its closures hold.
pub record Tracker : Type 0 where
  pub download : ℕ
  pub storage : ℕ
  pub canceled : Bool
  pub interrupted : Bool
  pub error : Option Error
  pub done : Bool

pub record State : Type 0 where
  pub next : ℕ
  pub tracker : ℕ → Tracker
  pub downloads : ℕ → Option ℕ

-- A value put into a map or into the store.
unfoldable pub put : {A : Type 0} → (ℕ → A) → ℕ → A → ℕ → A
put f k v j = if j == k then v else f j

unfoldable pub mark_cancelled : Tracker → Tracker
mark_cancelled t = record t { canceled = true; done = true }

-- The status that the progress stream reports.
pub data Status : Type 0 where
  is_cancelled is_error is_done is_interrupted is_downloading : Status

unfoldable pub status_of : Tracker → Status
status_of t = if t.done && t.canceled then is_cancelled else elim (t.done) [
  | true ↦ elim t.error [ some e ↦ is_error | none ↦ is_done ]
  | false ↦ if t.interrupted then is_interrupted else is_downloading
]

-- The address in the map is that of a tracker.
unfoldable pub is_current : State → ℕ → Bool
is_current s a = elim (s.downloads (s.tracker a).download) [ none ↦ false | some b ↦ b == a ]

-- `setupDownloadTracker`.
unfoldable pub cancel_previous : Option ℕ → (ℕ → Tracker) → ℕ → Tracker
unfolding put mark_cancelled
cancel_previous none f = f
cancel_previous (some a) f = put f a (mark_cancelled (f a))

unfoldable pub setup_tracker : ℕ → ℕ → State → State
unfolding cancel_previous put
setup_tracker id storage s =
    let new : Tracker = record {
      download = id;
      storage = storage;
      canceled = false;
      interrupted = false;
      error = none;
      done = false;
    } in
    record {
      next = suc s.next;
      tracker = put (cancel_previous (s.downloads id) s.tracker) s.next new;
      downloads = put s.downloads id (some s.next);
    }

-- `CancelDownload`; the answer is whether there was a download.
unfoldable pub cancel_download : ℕ → State → Bool × State
unfolding cancel_previous
cancel_download id s = (
  elim (s.downloads id) [ none ↦ false | some a ↦ true ],
  record s { tracker = cancel_previous (s.downloads id) s.tracker },
)

unfoldable pub finish_tracker : ℕ → Option Error → State → State
unfolding put
finish_tracker a e s = record s {
  tracker = put s.tracker a (record (s.tracker a) { done = true; error = e });
}

-- The first part of `interruptTracker`, and what its timer does.
unfoldable pub interrupt_tracker : ℕ → State → State
unfolding put
interrupt_tracker a s = record s {
  tracker = put s.tracker a (record (s.tracker a) { interrupted = true });
}

unfoldable pub grace_ends : ℕ → State → State
unfolding is_current put
grace_ends a s =
    if is_current s a && not (s.tracker a).done
    then record s {
      tracker =
          put s.tracker a (record (s.tracker a) { done = true; error = some client_disconnected });
    }
    else s

-- `failTracker`, with the `canceled` that it has read and whether the client had gone.
unfoldable pub fail_tracker : ℕ → Bool → Bool → Error → State → State
unfolding finish_tracker interrupt_tracker
fail_tracker a canceled disconnected e s =
    if not canceled && disconnected then interrupt_tracker a s else finish_tracker a (some e) s

-- `cleanupDownloadTracker`.
unfoldable pub cleanup_tracker : ℕ → State → State
unfolding is_current put
cleanup_tracker a s =
    if is_current s a && not ((s.tracker a).interrupted && not (s.tracker a).done)
    then record s { downloads = put s.downloads (s.tracker a).download none }
    else s
