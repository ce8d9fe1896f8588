-- ===== src/Fetch/Examples.antt =====
-- Witnesses: worker 1 has lost the file, worker 2 still has it.
use pentaract.Prelude.{ℕ, ◌≤◌, ◌≡◌, refl, true, none, List, [], ◌∷◌, ◌==◌, if◌then◌else◌, inl, inr}
use pentaract.OrderedJobs.Spec.{ok, err}
use pentaract.Domain.{FileChunk}
use pentaract.Fetch.{
  get_file_failed, resolve_failed, is_get_file_failure, Telegram, Attempts, download_chunk,
  download_and_decrypt_chunk, download_chunk_with_worker,
}
use pentaract.Crypto.{ChunkCipher, decrypt_chunk}
use pentaract.Fetch.Content.{download_and_decrypt_chunk_sound}
use pentaract.Fetch.Workers.{CanServe, IsGenuine, download_chunk-fallback, download_chunk-IsGenuine}

abbrev telegram : Telegram
telegram = record {
  download = λ worker _. if worker == 2 then ok (5 ∷ []) else err (get_file_failed 400);
  resolve = λ _ _. err 404;
  token = ok 1;
  workers = ok (1 ∷ 2 ∷ []);
  ended = λ _. none;
}

abbrev chunk : FileChunk
chunk = record {
  id = 3;
  file_id = 7;
  telegram_file_id = 8 ∷ [];
  telegram_message_id = 9;
  position = 0;
}

lost : (download_chunk_with_worker telegram chunk 1).0 ≡ err (resolve_failed 404)
unfolding download_chunk_with_worker
lost = refl

can_serve : CanServe telegram chunk (1 ∷ 2 ∷ [])
unfolding download_chunk_with_worker
can_serve = inr (inl (5 ∷ [], refl))

is_missing : is_get_file_failure (resolve_failed 404) ≡ true
unfolding is_get_file_failure
is_missing = refl

download_chunk-fallback_example :
    (content : List ℕ) × ((download_chunk telegram chunk).0 ≡ ok content)
download_chunk-fallback_example =
    download_chunk-fallback telegram chunk 1 (1 ∷ 2 ∷ []) (resolve_failed 404) refl lost is_missing
      refl (λ _. refl) can_serve

downloaded : (download_chunk telegram chunk).0 ≡ ok (5 ∷ [])
unfolding download_chunk
downloaded = refl

download_chunk-IsGenuine_run : IsGenuine telegram chunk (5 ∷ []) (download_chunk telegram chunk).1
download_chunk-IsGenuine_run = download_chunk-IsGenuine telegram chunk (5 ∷ []) downloaded

-- The only attempt gives bytes that were stored before encryption.
abbrev attempts : Attempts
attempts = record { telegram = λ _. telegram; ended_after = λ _. none; backoff = λ _. none }

abbrev no_cipher : ChunkCipher
no_cipher = record {
  aead = record { nonce_size = 12; seal = λ _ p _. p; open_sealed = λ _ _ _. none };
  legacy = none;
}

read : download_and_decrypt_chunk no_cipher attempts (7 ∷ []) chunk ≡ ok (5 ∷ [])
unfolding download_and_decrypt_chunk
read = refl

download_and_decrypt_chunk_sound_example :
    (payload : List ℕ) × (k : ℕ) × (1 ≤ k)
    × (k ≤ 3)
    × IsGenuine telegram chunk payload (download_chunk telegram chunk).1
    × (decrypt_chunk no_cipher (7 ∷ []) 0 payload ≡ ok (5 ∷ []))
download_and_decrypt_chunk_sound_example =
    download_and_decrypt_chunk_sound no_cipher attempts (7 ∷ []) chunk (5 ∷ []) read
