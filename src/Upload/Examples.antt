-- ===== src/Upload/Examples.antt =====
-- An upload of two chunks: the first is refused once, the second fails in the parallel phase and is sent
-- in the second round.
use pentaract.Prelude.{
  ℕ, ◌≤◌, ◌<◌, ◌≡◌, ◌↔◌, refl, false, Option, none, some, List, [], ◌∷◌, arith, length, ◌==◌,
  if◌then◌else◌, bytes_eq,
}
use pentaract.OrderedJobs.Spec.{ok, err}
use pentaract.Domain.{max_telegram_get_file_bytes}
use pentaract.Upload.{
  Error, sending, aborted, Uploaded, Sending, Checking, done, try_once, upload_chunk_with_retry,
  verify_single_chunk, validate_encrypted_chunk_size,
}
use pentaract.Upload.Attempts.{
  IsRetried, WasSent, upload_chunk_with_retry-ok, upload_chunk_with_retry_sound,
}
use pentaract.Upload.Run.{Chunk, World, upload, file_chunk}
use pentaract.Upload.Cleanup.{IsSettled, upload-IsSettled}
use pentaract.Upload.Sent.{all_sent}
use pentaract.Upload.Checked.{IsCopyOf, upload-IsChecked}
use pentaract.Prelude.Members.{In}
use pentaract.Domain.{FileChunk}

-- Telegram refuses the first attempt and takes the second.
abbrev second_try : Sending
second_try = record {
  encrypted = ok (9 ∷ []);
  token = λ _. ok 1;
  sent = λ attempt _. if attempt == 1 then err (sending 500) else ok (4 ∷ [], 77);
  ended = λ _. false;
  backoff = λ _. none;
}

abbrev never : Sending
never = record {
  encrypted = err (aborted 1);
  token = λ _. ok 1;
  sent = λ _ _. err (sending 500);
  ended = λ _. false;
  backoff = λ _. none;
}

abbrev good : Checking
good = record { downloaded = λ _. ok (1 ∷ 2 ∷ []); context_error = λ _. none; backoff = λ _. none }

abbrev world : Option Error → World
world saved = record {
  hash = λ _. 6 ∷ [];
  storage_error = none;
  sending = λ round position. if position == round then second_try else never;
  checking = λ _ _. good;
  upload_ended = λ _. false;
  submit_error = λ _ _. none;
  source_error = none;
  context_error = none;
  second_error = λ _. none;
  check_error = λ _ _. none;
  wait_error = λ _. none;
  save_error = saved;
}

abbrev chunks : List Chunk
chunks =
    record { position = 1; content = 1 ∷ 2 ∷ [] }
    ∷ record { position = 0; content = 1 ∷ 2 ∷ [] }
    ∷ []

abbrev sent_as : ℕ → Uploaded
sent_as n = record {
  telegram_file_id = 4 ∷ [];
  telegram_message_id = 77;
  position = n;
  plain_hash = 6 ∷ [];
}

uploaded :
    ((upload (world none) 3 chunks).0 ≡ none)
    × ((upload (world none) 3 chunks).1.results ≡ sent_as 0 ∷ sent_as 1 ∷ [])
unfolding upload upload_chunk_with_retry verify_single_chunk validate_encrypted_chunk_size bytes_eq
uploaded = (refl, refl)

not_saved : (upload (world (some (sending 1))) 3 chunks).1.cleaned ≡ 77 ∷ 77 ∷ []
unfolding upload upload_chunk_with_retry verify_single_chunk validate_encrypted_chunk_size bytes_eq
not_saved = refl

upload-IsChecked_example :
    ((c : Chunk)
      → In c chunks
      → (r : Uploaded) × In (file_chunk 3 r) (upload (world none) 3 chunks).1.stored
        × IsCopyOf (world none) c r)
    × ((row : FileChunk)
        → In row (upload (world none) 3 chunks).1.stored
        → (c : Chunk) × In c chunks
          × (r : Uploaded) × (row ≡ file_chunk 3 r)
          × IsCopyOf (world none) c r)
upload-IsChecked_example = upload-IsChecked (world none) 3 chunks uploaded.0

upload-IsSettled_example : IsSettled 3 (all_sent (world none) chunks) (upload (world none) 3 chunks)
upload-IsSettled_example = upload-IsSettled (world none) 3 chunks

upload_chunk_with_retry-ok_run :
    (upload_chunk_with_retry second_try 0 (6 ∷ []) ≡ ok (sent_as 0)) ↔ (
      (k : ℕ) × (1 ≤ k)
      × (k ≤ 5)
      × (try_once second_try 0 (6 ∷ []) k ≡ done (sent_as 0))
      × ((i : ℕ) → 1 ≤ i → i < k → IsRetried second_try 0 (6 ∷ []) i))
upload_chunk_with_retry-ok_run =
    upload_chunk_with_retry-ok second_try 0 (6 ∷ []) (9 ∷ []) (sent_as 0) refl (omega arith)

sent_once : upload_chunk_with_retry second_try 0 (6 ∷ []) ≡ ok (sent_as 0)
unfolding upload_chunk_with_retry validate_encrypted_chunk_size bytes_eq
sent_once = refl

upload_chunk_with_retry_sound_run :
    ((sent_as 0).position ≡ 0)
    × ((sent_as 0).plain_hash ≡ 6 ∷ [])
    × ((k : ℕ) × (1 ≤ k) × (k ≤ 5) × WasSent second_try k (sent_as 0))
    × ((chunk : List ℕ) × (second_try.encrypted ≡ ok chunk)
        × (length chunk ≤ max_telegram_get_file_bytes))
upload_chunk_with_retry_sound_run =
    upload_chunk_with_retry_sound second_try 0 (6 ∷ []) (sent_as 0) sent_once
