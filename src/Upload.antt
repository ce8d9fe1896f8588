-- ===== src/Upload.antt =====
-- internal/service/chunk_uploader.go: the loops around one chunk. What Telegram, the worker scheduler,
-- the cipher and the clock answer is given per attempt, by the records `Sending` and `Checking`; the
-- log and the progress of one attempt are not modelled.
pub mod Run
pub mod Attempts
pub mod Sent
pub mod Verified
pub mod Stored
pub mod Cleanup
pub mod Checked
mod Examples
use pentaract.Prelude.{
  ℕ, zero, suc, ◌+◌, ◌-◌, Bool, true, false, Option, none, some, List, [], ◌∷◌, if◌then◌else◌, ltb,
  length, bytes_eq, not,
}
use pentaract.OrderedJobs.Spec.{Outcome, ok, err}
use pentaract.Domain.{max_telegram_get_file_bytes}

pub data Error : Type 0 where
  encrypting no_token sending aborted chunk_too_large verifying storage_missing reading_source
        submitting saving :
      ℕ → Error
  hash_mismatch : ℕ → Error
  second_round : Error → Error
  verification_failed : ℕ → Error

-- uploadedChunkResult.
pub record Uploaded : Type 0 where
  pub telegram_file_id : List ℕ
  pub telegram_message_id : ℕ
  pub position : ℕ
  pub plain_hash : List ℕ

-- The answers to one call of `uploadChunkWithRetry`: the cipher's, and for each attempt the worker's
-- token, Telegram's file and message id, whether the context has ended, and the end of the backoff.
pub record Sending : Type 0 where
  pub encrypted : Outcome Error (List ℕ)
  pub token : ℕ → Outcome Error ℕ
  pub sent : ℕ → ℕ → Outcome Error (List ℕ × ℕ)
  pub ended : ℕ → Bool
  pub backoff : ℕ → Option Error

abbrev pub upload_chunk_max_attempts : ℕ
upload_chunk_max_attempts = 5

abbrev pub verify_extra_attempts : ℕ
verify_extra_attempts = 2

unfoldable pub validate_encrypted_chunk_size : List ℕ → Option Error
validate_encrypted_chunk_size chunk =
    if ltb max_telegram_get_file_bytes (length chunk)
    then some (chunk_too_large (length chunk))
    else none

-- How one attempt ends: with an error before anything is sent, with Telegram's error, or sent.
pub data Attempt : Type 0 where
  stopped : Error → Attempt
  refused : Error → Attempt
  done : Uploaded → Attempt

module _ (s : Sending) (position : ℕ) (plain_hash : List ℕ) where
  abbrev pub try_once : ℕ → Attempt
  try_once attempt = elim (s.token attempt) [
    | err e ↦ stopped e
    | ok worker ↦ elim (s.sent attempt worker) [
      | err e ↦ refused e
      | ok (file_id, message_id) ↦ done (record {
        telegram_file_id = file_id;
        telegram_message_id = message_id;
        position = position;
        plain_hash = plain_hash;
      })
    ]
  ]

  -- The loop, with `left` attempts after this one: `attempt` is the last when none is left.
  unfoldable pub send_from : ℕ → ℕ → Outcome Error Uploaded
  send_from zero attempt = elim (try_once attempt) [
    | stopped e ↦ err e
    | refused e ↦ err e
    | done r ↦ ok r
  ]
  send_from (suc left) attempt =
      let again = send_from left (suc attempt) in
      elim (try_once attempt) [
        | stopped e ↦ err e
        | done r ↦ ok r
        | refused e ↦
            if s.ended attempt
            then err e
            else elim (s.backoff attempt) [ some b ↦ err b | none ↦ again ]
      ]

  unfoldable pub upload_chunk_with_retry : Outcome Error Uploaded
  unfolding send_from validate_encrypted_chunk_size
  upload_chunk_with_retry = elim s.encrypted [
    | err e ↦ err e
    | ok chunk ↦ elim (validate_encrypted_chunk_size chunk) [
      | some e ↦ err e
      | none ↦ send_from (upload_chunk_max_attempts - 1) 1
    ]
  ]

-- The answers to one call of `verifySingleChunk`: the download of each attempt, the error of an ended
-- context, and the end of the backoff before an attempt.
pub record Checking : Type 0 where
  pub downloaded : ℕ → Outcome Error (List ℕ)
  pub context_error : ℕ → Option Error
  pub backoff : ℕ → Option Error

module _ (hash : List ℕ → List ℕ) (c : Checking) (r : Uploaded) where
  -- One attempt, or `again` for the next one (there is none after the last).
  abbrev pub check_once : ℕ → Option (Option Error) → Option Error
  check_once attempt again = elim (c.downloaded attempt) [
    | ok data_ ↦
        if bytes_eq (hash data_) r.plain_hash then none else some (hash_mismatch r.position)
    | err e ↦ elim (c.context_error attempt) [
      | some x ↦ some x
      | none ↦ elim again [ none ↦ some (verifying r.position) | some next ↦ next ]
    ]
  ]

  unfoldable pub check_from : ℕ → ℕ → Option Error
  check_from zero attempt = check_once attempt none
  check_from (suc left) attempt =
      let next = check_from left (suc attempt) in
      check_once attempt (some (elim (c.backoff (suc attempt)) [ some e ↦ some e | none ↦ next ]))

  unfoldable pub verify_single_chunk : Option Error
  unfolding check_from
  verify_single_chunk = check_from verify_extra_attempts 0
