-- ===== src/Watch/Examples.antt =====
-- Witnesses of the watch progress: user 1 plays file 2, of 100 seconds.
use pentaract.Prelude.{◌≤◌, ◌≡◌, refl, ◌⊎◌, true, false, none, some, List, [], ◌∷◌, ltb}
use pentaract.OrderedJobs.Spec.{ok}
use pentaract.Watch.{finite, Row, watch_progress_at, watch_resume_min, save, find}
use pentaract.Watch.Marks.{IsSaved, watch_progress_at-rules, save-IsSaved}

abbrev seen : List Row
seen =
    record {
      user = 1;
      file = 2;
      progress = record { position = 0; duration = 100000000; watched = true };
    }
    ∷ []

-- Playing a watched file again answers with a mark that is not set, and keeps the one that is stored.
plays_again :
    ((save (ok 2) none 1 (finite 50000000) (finite 100000000) seen).0
      ≡ ok (record { position = 50000000; duration = 100000000; watched = false }))
    × (find 1 2 (save (ok 2) none 1 (finite 50000000) (finite 100000000) seen).1
        ≡ some (record { position = 50000000; duration = 100000000; watched = true }))
unfolding save find
plays_again = (refl, refl)

save-IsSaved_example :
    IsSaved (ok 2) 1 seen (save (ok 2) none 1 (finite 50000000) (finite 100000000) seen)
save-IsSaved_example = save-IsSaved (ok 2) none 1 (finite 50000000) (finite 100000000) seen

watch_progress_at-rules_run :
    ((watch_progress_at 91000000 100000000).watched ≡ ltb 900000000 910000000)
    × ((watch_progress_at 91000000 100000000).duration ≡ 100000000)
    × (((watch_progress_at 91000000 100000000).position ≡ 0)
        ⊎ (((watch_progress_at 91000000 100000000).position ≡ 91000000)
            × (watch_resume_min ≤ (watch_progress_at 91000000 100000000).position)
            × ((watch_progress_at 91000000 100000000).watched ≡ false)))
watch_progress_at-rules_run = watch_progress_at-rules 91000000 100000000
