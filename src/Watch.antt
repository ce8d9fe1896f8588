-- ===== src/Watch.antt =====
-- internal/service/watch_progress.go over internal/repository/watch_progress.go: what a user has
-- played. The table is a list with one row for a file and a user (the ON CONFLICT target). Times are
-- natural numbers of microseconds; the rounding of floating-point seconds is not modelled.
pub mod Marks
mod Examples
use pentaract.Prelude.{
  ℕ, ◌*◌, min, Bool, true, false, ◌&&◌, ◌||◌, not, Option, none, some, List, [], ◌∷◌, ◌==◌,
  if◌then◌else◌, ltb,
}
use pentaract.OrderedJobs.Spec.{Outcome, ok, err}

-- A float64 of a request.
pub data Seconds : Type 0 where
  finite : ℕ → Seconds
  negative not_a_number infinite : Seconds

pub record WatchProgress : Type 0 where
  pub position : ℕ
  pub duration : ℕ
  pub watched : Bool

pub record Row : Type 0 where
  pub user : ℕ
  pub file : ℕ
  pub progress : WatchProgress

pub data Error : Type 0 where
  bad_request : Error
  access : ℕ → Error
  database : ℕ → Error

-- WatchResumeMinSeconds, in microseconds.
abbrev pub watch_resume_min : ℕ
watch_resume_min = 30000000

-- The fraction 0.9 is 9 / 10.
unfoldable pub watch_progress_at : ℕ → ℕ → WatchProgress
watch_progress_at position duration =
    let p : WatchProgress = record {
      position = min position duration;
      duration = duration;
      watched = false;
    } in
    if ltb (9 * duration) (10 * p.position)
    then record p { watched = true; position = 0 }
    else if ltb p.position watch_resume_min
    then record p { position = 0 }
    else p

unfoldable pub valid_seconds : Seconds → Option ℕ
valid_seconds (finite n) = some n
valid_seconds _ = none

is_row : ℕ → ℕ → Row → Bool
is_row user file r = r.user == user && r.file == file

-- The upsert of `Save`, which keeps an older `watched`.
unfoldable pub save_row : ℕ → ℕ → WatchProgress → List Row → List Row
unfolding is_row
save_row user file p [] = record { user = user; file = file; progress = p } ∷ []
save_row user file p (r ∷ rs) =
    let rest = save_row user file p rs in
    if is_row user file r
    then record r { progress = record p { watched = r.progress.watched || p.watched } } ∷ rs
    else r ∷ rest

-- The upsert of `SetWatched`; a new row has the column's default duration, 0.
unfoldable pub set_watched_row : ℕ → ℕ → Bool → List Row → List Row
unfolding is_row
set_watched_row user file watched [] =
    record {
      user = user;
      file = file;
      progress = record { position = 0; duration = 0; watched = watched };
    }
    ∷ []
set_watched_row user file watched (r ∷ rs) =
    let rest = set_watched_row user file watched rs in
    if is_row user file r
    then record r { progress = record r.progress { position = 0; watched = watched } } ∷ rs
    else r ∷ rest

unfoldable pub delete_all : ℕ → List Row → List Row
delete_all user [] = []
delete_all user (r ∷ rs) =
    let rest = delete_all user rs in if r.user == user then rest else r ∷ rest

unfoldable pub find : ℕ → ℕ → List Row → Option WatchProgress
unfolding is_row
find user file [] = none
find user file (r ∷ rs) =
    let rest = find user file rs in if is_row user file r then some r.progress else rest

-- `readable` is the answer of `readableFile`, `written` that of the statement.
save_valid :
    Outcome Error ℕ
    → Option Error
    → ℕ
    → WatchProgress
    → List Row
    → Outcome Error WatchProgress × List Row
unfolding save_row
save_valid (err e) written user p rows = (err e, rows)
save_valid (ok file) (some e) user p rows = (err e, rows)
save_valid (ok file) none user p rows = (ok p, save_row user file p rows)

save_checked :
    Outcome Error ℕ
    → Option Error
    → ℕ
    → Option ℕ
    → Option ℕ
    → List Row
    → Outcome Error WatchProgress × List Row
unfolding save_valid watch_progress_at
save_checked readable written user (some position) (some duration) rows =
    if duration == 0
    then (err bad_request, rows)
    else save_valid readable written user (watch_progress_at position duration) rows
save_checked readable written user _ _ rows = (err bad_request, rows)

unfoldable pub save :
    Outcome Error ℕ
    → Option Error
    → ℕ
    → Seconds
    → Seconds
    → List Row
    → Outcome Error WatchProgress × List Row
unfolding save_checked valid_seconds
save readable written user position duration rows =
    save_checked readable written user (valid_seconds position) (valid_seconds duration) rows
