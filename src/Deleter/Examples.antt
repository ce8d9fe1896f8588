-- ===== src/Deleter/Examples.antt =====
-- A witness: worker 1 may not delete, worker 2 may.
use pentaract.Prelude.{◌≡◌, refl, length, none, some, List, [], ◌∷◌, ◌==◌, if◌then◌else◌}
use pentaract.OrderedJobs.Spec.{ok}
use pentaract.Domain.{FileChunk}
use pentaract.Deleter.{failed, Telegram, Progress, delete_from_telegram}
use pentaract.Deleter.Complete.{AllDeleted, messages, delete_from_telegram_complete}

abbrev telegram : Telegram
telegram = record {
  token = λ _. ok 1;
  workers = ok (1 ∷ 2 ∷ []);
  delete_message = λ worker _. if worker == 2 then none else some (failed 403);
  ended = λ _ _. none;
}

abbrev chunks : List FileChunk
chunks =
    record { id = 1; file_id = 7; telegram_file_id = []; telegram_message_id = 40; position = 0 }
    ∷ record { id = 2; file_id = 7; telegram_file_id = []; telegram_message_id = 0; position = 1 }
    ∷ []

abbrev start : Progress
start = record { total_chunks = 0; deleted_chunks = 0 }

deleted : (delete_from_telegram telegram chunks start).0 ≡ none
unfolding delete_from_telegram
deleted = refl

delete_from_telegram_complete_example :
    AllDeleted telegram chunks
    × ((delete_from_telegram telegram chunks start).1.total_chunks ≡ length (messages chunks))
    × ((delete_from_telegram telegram chunks start).1.deleted_chunks ≡ length (messages chunks))
delete_from_telegram_complete_example =
    delete_from_telegram_complete telegram chunks start refl deleted
