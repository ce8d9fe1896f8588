-- ===== src/Watch/Marks.antt =====
-- Resume points, and how the mark of a watched file changes.
use pentaract.Prelude.{
  ℕ, ◌*◌, ◌≤◌, min, ◌≡◌, refl, ◌⊎◌, inl, inr, false, ◌&&◌, ◌||◌, Option, none, some, List, [], ◌∷◌,
  ◌==◌, if◌then◌else◌, ltb, arith, Bool-cases,
}
use pentaract.OrderedJobs.Spec.{Outcome, ok, err}
use pentaract.Watch.{
  Seconds, WatchProgress, Row, Error, bad_request, watch_resume_min, watch_progress_at,
  valid_seconds, is_row, save_row, find, save, save_valid, save_checked,
}

-- The rules of a resume point: a file counts as watched beyond nine tenths of it; a file that does not is
-- resumed at 0 or where it was left, at least 30 seconds in; a watched one has nothing to resume.
pub watch_progress_at-rules :
    (position duration : ℕ)
    → ((watch_progress_at position duration).watched
        ≡ ltb (9 * duration) (10 * min position duration))
      × ((watch_progress_at position duration).duration ≡ duration)
      × (((watch_progress_at position duration).position ≡ 0)
          ⊎ (((watch_progress_at position duration).position ≡ min position duration)
              × (watch_resume_min ≤ (watch_progress_at position duration).position)
              × ((watch_progress_at position duration).watched ≡ false)))
unfolding watch_progress_at
watch_progress_at-rules position duration = ground arith

-- What a save does to a row.
abbrev pub merged : WatchProgress → Option WatchProgress → WatchProgress
merged p none = p
merged p (some old) = record p { watched = old.watched || p.watched }

find-save_row :
    (u f v g : ℕ) (p : WatchProgress) (rows : List Row)
    → find v g (save_row u f p rows)
      ≡ (if u == v && f == g then some (merged p (find u f rows)) else find v g rows)
unfolding find save_row is_row
find-save_row u f v g p [] = ground arith
find-save_row u f v g p (r ∷ rs) = ground (arith, find-save_row u f v g p rs)

-- Either an error and the old rows, or an answer and the rows that hold it.
abbrev pub IsSaved :
    Outcome Error ℕ → ℕ → List Row → Outcome Error WatchProgress × List Row → Type 0
IsSaved readable user rows r =
    ((e : Error) × (r.0 ≡ err e) × (r.1 ≡ rows))
    ⊎ ((p : WatchProgress) × (file : ℕ) × (r.0 ≡ ok p)
        × (readable ≡ ok file)
        × ((v g : ℕ)
            → find v g r.1 ≡ (
                if user == v && file == g
                then some (merged p (find user file rows))
                else find v g rows)))

save_valid-IsSaved :
    (readable : Outcome Error ℕ) (written : Option Error) (user : ℕ) (p : WatchProgress)
    (rows : List Row)
    → IsSaved readable user rows (save_valid readable written user p rows)
unfolding save_valid
save_valid-IsSaved (err e) written user p rows = inl (e, refl, refl)
save_valid-IsSaved (ok file) (some e) user p rows = inl (e, refl, refl)
save_valid-IsSaved (ok file) none user p rows =
    inr (p, file, refl, refl, λ v g. find-save_row user file v g p rows)

save_checked-IsSaved :
    (readable : Outcome Error ℕ) (written : Option Error) (user : ℕ) (position duration : Option ℕ)
    (rows : List Row)
    → IsSaved readable user rows (save_checked readable written user position duration rows)
unfolding save_checked
save_checked-IsSaved readable written user none none rows = inl (bad_request, refl, refl)
save_checked-IsSaved readable written user none (some d) rows = inl (bad_request, refl, refl)
save_checked-IsSaved readable written user (some x) none rows = inl (bad_request, refl, refl)
save_checked-IsSaved readable written user (some x) (some d) rows = elim (Bool-cases (d == 0)) [
  | inl e ↦ rw (save_checked, e) (inl (bad_request, refl, refl))
  | inr e ↦
      rw (save_checked, e) (save_valid-IsSaved readable written user (watch_progress_at x d) rows)
]

-- A successful save stores the answer, but for a file that was marked as watched, which stays so;
-- no other user's and no other file's progress changes, and a failed save changes nothing.
pub save-IsSaved :
    (readable : Outcome Error ℕ) (written : Option Error) (user : ℕ) (position duration : Seconds)
    (rows : List Row)
    → IsSaved readable user rows (save readable written user position duration rows)
unfolding save
save-IsSaved readable written user position duration rows =
    save_checked-IsSaved readable written user (valid_seconds position) (valid_seconds duration)
      rows
