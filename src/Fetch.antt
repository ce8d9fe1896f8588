-- ===== src/Fetch.antt =====
-- internal/service/chunk_downloader.go, the upper half: how the bytes of one chunk come from Telegram. A
-- worker's token is a number. What Telegram, the scheduler and the clock answer is given by `Telegram`,
-- per attempt of the retry loop; the rows of the chunks are changed by `updates`.
pub mod Workers
pub mod Content
mod Examples
use pentaract.Prelude.{
  ℕ, zero, suc, ◌-◌, Bool, true, false, ◌&&◌, ◌||◌, not, Option, none, some, List, [], ◌∷◌, ◌++◌,
  ◌==◌, if◌then◌else◌, bytes_eq,
}
use pentaract.OrderedJobs.Spec.{Outcome, ok, err}
use pentaract.Domain.{FileChunk}
use pentaract.Crypto.{ChunkCipher, decrypt_chunk}

-- The errors that the code tells apart: ErrTelegramGetFileFailed, ErrTelegramResolveFailed, the error of
-- an ended context, and others.
pub data Error : Type 0 where
  get_file_failed resolve_failed context_ended no_token no_workers decryption other : ℕ → Error

unfoldable pub is_get_file_failure : Error → Bool
is_get_file_failure (get_file_failed n) = true
is_get_file_failure (resolve_failed n) = true
is_get_file_failure _ = false

pub record Telegram : Type 0 where
  pub download : ℕ → List ℕ → Outcome Error (List ℕ)
  pub resolve : ℕ → ℕ → Outcome ℕ (List ℕ)
  pub token : Outcome Error ℕ
  pub workers : Outcome Error (List ℕ)
  pub ended : ℕ → Option Error

-- `isGetFileFailure(err)` holds and the chunk has a message: the file id is resolved again.
resolved_download :
    Telegram → FileChunk → ℕ → Outcome ℕ (List ℕ) → Outcome Error (List ℕ) × List (ℕ × List ℕ)
resolved_download tg chunk worker (err e) = (err (resolve_failed e), [])
resolved_download tg chunk worker (ok file_id) = elim (tg.download worker file_id) [
  | err e ↦ (err e, [])
  | ok content ↦ (
    ok content,
    if not (bytes_eq file_id chunk.telegram_file_id) && not (chunk.id == 0)
        then (chunk.id, file_id) ∷ []
        else [],
  )
]

-- The bytes, and the file ids written to the rows. A message id or a chunk id of 0 is a missing one.
unfoldable pub download_chunk_with_worker :
    Telegram → FileChunk → ℕ → Outcome Error (List ℕ) × List (ℕ × List ℕ)
unfolding resolved_download is_get_file_failure
download_chunk_with_worker tg chunk worker = elim (tg.download worker chunk.telegram_file_id) [
  | ok content ↦ (ok content, [])
  | err e ↦
      if not (is_get_file_failure e) || chunk.telegram_message_id == 0
      then (err e, [])
      else resolved_download tg chunk worker (tg.resolve worker chunk.telegram_message_id)
]

-- The loop over the other workers, after `last_err`; `ended` is asked per worker.
unfoldable pub try_workers :
    Telegram → FileChunk → ℕ → List ℕ → Error → Outcome Error (List ℕ) × List (ℕ × List ℕ)
unfolding download_chunk_with_worker
try_workers tg chunk first [] last_err = (err last_err, [])
try_workers tg chunk first (worker ∷ workers) last_err =
    let skipped = try_workers tg chunk first workers last_err in
    let tried = download_chunk_with_worker tg chunk worker in
    if worker == first then skipped else elim tried.0 [
      | ok content ↦ (ok content, tried.1)
      | err e ↦ elim (tg.ended worker) [
        | some x ↦ (err x, [])
        | none ↦ try_workers tg chunk first workers e
      ]
    ]

-- What follows a failure of the scheduled worker.
unfoldable pub fall_back :
    Telegram → FileChunk → ℕ → Error → Outcome Error (List ℕ) × List (ℕ × List ℕ)
unfolding try_workers is_get_file_failure
fall_back tg chunk worker e = elim (tg.ended worker) [
  | some x ↦ (err x, [])
  | none ↦
      if is_get_file_failure e
      then elim tg.workers [
        | err x ↦ (err x, [])
        | ok workers ↦ try_workers tg chunk worker workers e
      ]
      else (err e, [])
]

unfoldable pub download_chunk : Telegram → FileChunk → Outcome Error (List ℕ) × List (ℕ × List ℕ)
unfolding download_chunk_with_worker fall_back
download_chunk tg chunk = elim tg.token [
  | err e ↦ (err e, [])
  | ok worker ↦ elim (download_chunk_with_worker tg chunk worker).0 [
    | ok content ↦ (ok content, (download_chunk_with_worker tg chunk worker).1)
    | err e ↦ fall_back tg chunk worker e
  ]
]

-- The answers to each attempt of the retry loop, the error of an ended context after it, and the end of
-- the backoff.
pub record Attempts : Type 0 where
  pub telegram : ℕ → Telegram
  pub ended_after : ℕ → Option Error
  pub backoff : ℕ → Option Error

abbrev pub download_chunk_max_attempts : ℕ
download_chunk_max_attempts = 3

-- After a failed attempt: the error that ends the loop, or none.
unfoldable pub gives_up : Attempts → ℕ → Bool → Error → Option Error
gives_up a attempt last e = elim (a.ended_after attempt) [
  | some x ↦ some x
  | none ↦ if last then some e else a.backoff attempt
]

-- The loop, with `left` attempts after this one.
unfoldable pub retry_from : Attempts → FileChunk → ℕ → ℕ → Outcome Error (List ℕ)
unfolding download_chunk gives_up
retry_from a chunk zero attempt = elim (download_chunk (a.telegram attempt) chunk).0 [
  | ok content ↦ ok content
  | err e ↦ elim (gives_up a attempt true e) [ some x ↦ err x | none ↦ err e ]
]
retry_from a chunk (suc left) attempt =
    let again = retry_from a chunk left (suc attempt) in
    elim (download_chunk (a.telegram attempt) chunk).0 [
      | ok content ↦ ok content
      | err e ↦ elim (gives_up a attempt false e) [ some x ↦ err x | none ↦ again ]
    ]

unfoldable pub download_chunk_with_retry : Attempts → FileChunk → Outcome Error (List ℕ)
unfolding retry_from
download_chunk_with_retry a chunk = retry_from a chunk (download_chunk_max_attempts - 1) 1

-- The content of a chunk, without the cache.
unfoldable pub download_and_decrypt_chunk :
    ChunkCipher → Attempts → List ℕ → FileChunk → Outcome Error (List ℕ)
unfolding download_chunk_with_retry decrypt_chunk
download_and_decrypt_chunk c a file_id chunk = elim (download_chunk_with_retry a chunk) [
  | err e ↦ err e
  | ok payload ↦ elim (decrypt_chunk c file_id chunk.position payload) [
    | ok content ↦ ok content
    | err e ↦ err (decryption chunk.position)
  ]
]
