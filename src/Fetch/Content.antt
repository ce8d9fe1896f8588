-- ===== src/Fetch/Content.antt =====
-- The content of a chunk is what its payload in Telegram decrypts to.
use pentaract.Prelude.{
  ℕ, zero, suc, ◌+◌, ◌≤◌, ◌≡◌, ap, ◌∙◌, inl, inr, true, false, List, arith, Option-cases,
}
use pentaract.OrderedJobs.Spec.{Outcome, ok, Outcome-cases}
use pentaract.Domain.{FileChunk}
use pentaract.Crypto.{ChunkCipher, decrypt_chunk}
use pentaract.Fetch.{
  Error, Attempts, gives_up, retry_from, download_chunk, download_chunk_with_retry,
  download_and_decrypt_chunk,
}
use pentaract.Fetch.Workers.{IsGenuine, download_chunk-IsGenuine}

retry_from_sound :
    (a : Attempts) (chunk : FileChunk) (left attempt : ℕ) (payload : List ℕ)
    → retry_from a chunk left attempt ≡ ok payload
    → (k : ℕ) × (attempt ≤ k)
      × (k ≤ attempt + left)
      × ((download_chunk (a.telegram k) chunk).0 ≡ ok payload)
unfolding retry_from
retry_from_sound a chunk zero attempt payload h =
    elim (Outcome-cases (download_chunk (a.telegram attempt) chunk).0) [
      | inr (x, d) ↦ (attempt, omega arith, omega arith, d ∙ (rw (retry_from, d) at h))
      | inl (e, d) ↦ elim (Option-cases (gives_up a attempt true e)) [
        | inl g ↦ absurd (ground arith)
        | inr (x, g) ↦ absurd (ground arith)
      ]
    ]
retry_from_sound a chunk (suc left) attempt payload h =
    elim (Outcome-cases (download_chunk (a.telegram attempt) chunk).0) [
      | inr (x, d) ↦ (attempt, omega arith, omega arith, d ∙ (rw (retry_from, d) at h))
      | inl (e, d) ↦ elim (Option-cases (gives_up a attempt false e)) [
        | inr (x, g) ↦ absurd (ground arith)
        | inl g ↦
            let (k, lo, hi, found) =
              retry_from_sound a chunk left (suc attempt) payload (rw (retry_from, d, g) at h) in
            (k, omega arith, omega arith, found)
      ]
    ]

-- The content of a chunk is the decryption, for this file and this position, of a payload that Telegram
-- gave in one of the three attempts for the chunk's file id or for the id its message was resolved to.
pub download_and_decrypt_chunk_sound :
    (c : ChunkCipher) (a : Attempts) (file_id : List ℕ) (chunk : FileChunk) (content : List ℕ)
    → download_and_decrypt_chunk c a file_id chunk ≡ ok content
    → (payload : List ℕ) × (k : ℕ) × (1 ≤ k)
      × (k ≤ 3)
      × IsGenuine (a.telegram k) chunk payload (download_chunk (a.telegram k) chunk).1
      × (decrypt_chunk c file_id chunk.position payload ≡ ok content)
unfolding download_and_decrypt_chunk download_chunk_with_retry
download_and_decrypt_chunk_sound c a file_id chunk content h =
    elim (Outcome-cases (download_chunk_with_retry a chunk)) [
      | inl (e, d) ↦ absurd (ground arith)
      | inr (payload, d) ↦ elim (Outcome-cases (decrypt_chunk c file_id chunk.position payload)) [
        | inl (e, f) ↦ absurd (ground arith)
        | inr (x, f) ↦
            let (k, lo, hi, found) = retry_from_sound a chunk 2 1 payload d in
            let got : Path (Outcome Error (List ℕ)) (ok x) (ok content) =
              (rw (download_and_decrypt_chunk, d, f) at h) in
            let same : x ≡ content = cc in
            (
              payload,
              k,
              lo,
              hi,
              download_chunk-IsGenuine (a.telegram k) chunk payload found,
              f ∙ ap ok same,
            )
      ]
    ]
