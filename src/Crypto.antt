-- ===== src/Crypto.antt =====
-- internal/service/chunk_crypto.go: the payload of an encrypted chunk. AES-GCM under the key derived
-- from a secret is a parameter; the buffer pool is not modelled.
pub mod Payload
mod Examples
use pentaract.Prelude.{
  ℕ, ◌+◌, ◌-◌, ◌/◌, ◌%◌, Bool, true, false, ◌&&◌, ◌||◌, not, Option, none, some, List, [], ◌∷◌,
  ◌++◌, if◌then◌else◌, ltb, length, take, drop, bytes, bytes_eq,
}
use pentaract.OrderedJobs.Spec.{Outcome, ok, err}

-- cipher.AEAD: `none` from `open_sealed` is an error.
pub record Aead : Type 0 where
  pub nonce_size : ℕ
  pub seal : List ℕ → List ℕ → List ℕ → List ℕ
  pub open_sealed : List ℕ → List ℕ → List ℕ → Option (List ℕ)

pub record ChunkCipher : Type 0 where
  pub aead : Aead
  pub legacy : Option Aead

pub data Error : Type 0 where
  decryption_failed invalid_payload_size nonce_failed : Error

abbrev pub chunk_cipher_magic : List ℕ
chunk_cipher_magic = 80 ∷ 84 ∷ 82 ∷ 67 ∷ 49 ∷ []

-- `derive` is `deriveAEAD`.
unfoldable pub new_chunk_cipher : (List ℕ → Aead) → List ℕ → ChunkCipher
new_chunk_cipher derive secret = record { aead = derive secret; legacy = none }

unfoldable pub new_chunk_cipher_with_fallback : (List ℕ → Aead) → List ℕ → List ℕ → ChunkCipher
unfolding new_chunk_cipher
new_chunk_cipher_with_fallback derive secret legacy_secret =
    let c = new_chunk_cipher derive secret in
    if not (bytes_eq legacy_secret []) && not (bytes_eq legacy_secret secret)
    then record c { legacy = some (derive legacy_secret) }
    else c

-- The file id and the big-endian position, which is cut to 16 bits.
unfoldable pub aad : List ℕ → ℕ → List ℕ
aad file_id position = file_id ++ (position % 65536 / 256 ∷ position % 256 ∷ [])

-- `nonce` is what the random source gave, `none` its failure.
unfoldable pub encrypt_chunk :
    ChunkCipher → List ℕ → ℕ → Option (List ℕ) → List ℕ → Outcome Error (List ℕ)
unfolding aad
encrypt_chunk c file_id position none plain = err nonce_failed
encrypt_chunk c file_id position (some nonce) plain =
    ok (chunk_cipher_magic ++ nonce ++ c.aead.seal nonce plain (aad file_id position))

unfoldable pub is_sealed : List ℕ → Bool
is_sealed payload = not (
    ltb (length payload) (length chunk_cipher_magic)
    || not (bytes_eq (take (length chunk_cipher_magic) payload) chunk_cipher_magic))

open_legacy : Option Aead → List ℕ → List ℕ → List ℕ → Outcome Error (List ℕ)
open_legacy none nonce ciphertext a = err decryption_failed
open_legacy (some l) nonce ciphertext a = elim (l.open_sealed nonce ciphertext a) [
  | some plain ↦ ok plain
  | none ↦ err decryption_failed
]

unfoldable pub open_chunk : ChunkCipher → List ℕ → List ℕ → List ℕ → Outcome Error (List ℕ)
unfolding open_legacy
open_chunk c nonce ciphertext a = elim (c.aead.open_sealed nonce ciphertext a) [
  | some plain ↦ ok plain
  | none ↦ open_legacy c.legacy nonce ciphertext a
]

unfoldable pub decrypt_chunk : ChunkCipher → List ℕ → ℕ → List ℕ → Outcome Error (List ℕ)
unfolding is_sealed open_chunk aad
decrypt_chunk c file_id position payload =
    let body = drop (length chunk_cipher_magic) payload in
    if not (is_sealed payload)
    then ok payload
    else if ltb (length payload) (length chunk_cipher_magic + c.aead.nonce_size)
    then err invalid_payload_size
    else open_chunk c (take c.aead.nonce_size body) (drop c.aead.nonce_size body)
        (aad file_id position)
