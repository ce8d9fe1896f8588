-- ===== src/Workers/Examples.antt =====
-- Workers, batches and cleanups at concrete tables.
use pentaract.Prelude.{ℕ, ◌+◌, ◌*◌, length, ◌≤◌, ◌≡◌, refl, true, none, some, List, [], ◌∷◌, arith}
use pentaract.Workers.{Worker, get_token_batch, list_tokens_by_storage, has_workers}
use pentaract.Workers.Count.{occurrences}
use pentaract.Workers.Rate.{
  Event, batch, cleanup, play, in_window, start, last_time, overlapping, play-within_limit,
}

abbrev bot_a : Worker
bot_a = record { id = 1; name = []; user = 5; token = 11; storage = some 9 }

abbrev bot_b : Worker
bot_b = record { id = 2; name = []; user = 5; token = 22; storage = none }

abbrev bot_c : Worker
bot_c = record { id = 3; name = []; user = 6; token = 33; storage = some 8 }

abbrev bots : List Worker
bots = bot_a ∷ bot_b ∷ bot_c ∷ []

-- The least used worker comes first, and a batch is cut at the free slots.
first_batch :
    (get_token_batch 9 2 3 70000
      (record { workers = bots; usages = record { worker = 1; created_at = 69000 } ∷ [] })).0
    ≡ 22 ∷ 22 ∷ 11 ∷ []
unfolding get_token_batch
first_batch = refl

tokens_of_storage : list_tokens_by_storage 9 bots ≡ 11 ∷ 22 ∷ []
unfolding list_tokens_by_storage
tokens_of_storage = refl

served_by_all : has_workers 7 bots ≡ true
unfolding has_workers
served_by_all = refl

abbrev busy : List Event
busy = batch 9 5 1000 ∷ batch 9 5 2000 ∷ cleanup 61500 ∷ batch 8 1 62000 ∷ []

play-within_limit_example :
    (in_window 1 500 (play 2 busy (start bots)).log ≤ 2)
    × ((now storage count : ℕ) (bs : List (ℕ × ℕ))
        → last_time 0 busy ≤ now
        → in_window 1 500 (
            overlapping 2 now
              (play 2 busy (start bots)).tables
              ((storage, count) ∷ bs)
              (play 2 busy (start bots)).log)
          ≤ 2 + length bs * 2)
play-within_limit_example =
    play-within_limit 1 2 bots busy 500 (unfold occurrences in omega arith) (omega arith)
