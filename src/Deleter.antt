-- ===== src/Deleter.antt =====
-- internal/service/chunk_deleter.go: removing the messages of chunks from Telegram. A worker's token is a
-- number, and 0 is the empty token. The answers of Telegram, of the scheduler (per message) and of the
-- context are given by `Telegram`; the deletions run in parallel and share nothing but the progress.
pub mod Complete
mod Examples
use pentaract.Prelude.{
  ℕ, zero, suc, Bool, true, false, Option, none, some, List, [], ◌∷◌, ◌++◌, ◌==◌, if◌then◌else◌,
}
use pentaract.OrderedJobs.Spec.{Outcome, ok, err}
use pentaract.Domain.{FileChunk}

pub data Error : Type 0 where
  no_token no_workers failed context_ended : ℕ → Error

pub record Telegram : Type 0 where
  pub token : ℕ → Outcome Error ℕ
  pub workers : Outcome Error (List ℕ)
  pub delete_message : ℕ → ℕ → Option Error
  pub ended : ℕ → ℕ → Option Error

-- DeleteProgress.
pub record Progress : Type 0 where
  pub total_chunks : ℕ
  pub deleted_chunks : ℕ

unfoldable pub has_worker : ℕ → List ℕ → Bool
has_worker worker [] = false
has_worker worker (w ∷ ws) = let rest = has_worker worker ws in if w == worker then true else rest

unfoldable pub append_unique_worker : List ℕ → ℕ → List ℕ
unfolding has_worker
append_unique_worker workers worker =
    if worker == 0
    then workers
    else if has_worker worker workers
    then workers
    else workers ++ (worker ∷ [])

unfoldable pub append_workers : List ℕ → List ℕ → List ℕ
unfolding append_unique_worker
append_workers workers [] = workers
append_workers workers (w ∷ ws) = append_workers (append_unique_worker workers w) ws

-- The loop over the workers, after `last_err`.
unfoldable pub delete_with : Telegram → ℕ → List ℕ → Error → Option Error
delete_with tg message [] last_err = some last_err
delete_with tg message (w ∷ ws) last_err = elim (tg.delete_message w message) [
  | none ↦ none
  | some e ↦ elim (tg.ended w message) [ some x ↦ some x | none ↦ delete_with tg message ws e ]
]

-- The fallback workers are none where they cannot be listed.
unfoldable pub fallback_workers : Telegram → List ℕ
fallback_workers tg = elim tg.workers [ err e ↦ [] | ok ws ↦ ws ]

unfoldable pub delete_chunk_message : Telegram → ℕ → Option Error
unfolding append_workers delete_with fallback_workers
delete_chunk_message tg message = elim (tg.token message) [
  | err e ↦ some e
  | ok worker ↦
      delete_with tg message (append_workers (append_unique_worker [] worker) (fallback_workers tg))
        (no_workers message)
]

unfoldable pub count_messages : List FileChunk → ℕ
count_messages [] = 0
count_messages (c ∷ cs) =
    let rest = count_messages cs in if c.telegram_message_id == 0 then rest else suc rest

-- The deletions, whose first error is kept.
unfoldable pub delete_messages : Telegram → List FileChunk → Progress → Option Error × Progress
unfolding delete_chunk_message
delete_messages tg [] p = (none, p)
delete_messages tg (c ∷ cs) p =
    let skipped = delete_messages tg cs p in
    let counted = delete_messages tg cs (record p { deleted_chunks = suc p.deleted_chunks }) in
    if c.telegram_message_id == 0
    then skipped
    else elim (delete_chunk_message tg c.telegram_message_id) [
      | none ↦ counted
      | some e ↦ (some e, skipped.1)
    ]

unfoldable pub delete_from_telegram : Telegram → List FileChunk → Progress → Option Error × Progress
unfolding delete_messages count_messages
delete_from_telegram tg chunks p =
    delete_messages tg chunks (record p { total_chunks = count_messages chunks })
