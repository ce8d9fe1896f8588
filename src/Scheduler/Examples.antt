-- ===== src/Scheduler/Examples.antt =====
-- Witnesses of the scheduler: storage 1, which waits one turn and then gets a batch of three.
use pentaract.Prelude.{◌≡◌, ◌≢◌, refl, none, some, [], ◌∷◌, arith}
use pentaract.OrderedJobs.Spec.{ok}
use pentaract.Scheduler.{Scheduler, Turn, get_token}
use pentaract.Scheduler.Buffer.{tokens, get_token-waiting, get_token-batch}

abbrev idle : Scheduler
idle = record { waiting = λ _. 0; token_buf = λ _. [] }

abbrev empty : Turn
empty = record { ended = none; batch = ok []; ended_waiting = none }

abbrev full : Turn
full = record { ended = none; batch = ok (7 ∷ 8 ∷ 9 ∷ []); ended_waiting = none }

returned : (get_token 1 (empty ∷ full ∷ []) idle).0 ≢ none
unfolding get_token
returned h = ground arith

get_token-waiting_example : (get_token 1 (empty ∷ full ∷ []) idle).1.waiting 1 ≡ 0
get_token-waiting_example = get_token-waiting 1 (empty ∷ full ∷ []) idle 1 returned

get_token-batch_run :
    ((get_token 1 (full ∷ []) idle).0 ≡ some (ok 7))
    × (tokens 1 2 (get_token 1 (full ∷ []) idle).1 ≡ 8 ∷ 9 ∷ [])
get_token-batch_run = get_token-batch 1 7 (8 ∷ 9 ∷ []) [] idle full refl refl refl
