-- ===== src/Crypto/Payload.antt =====
-- What decryption gives back: the chunk that was sealed, under the current secret or an older one.
use mathlib.Core.Path.{subst}
use pentaract.Prelude.{
  ℕ, ◌+◌, ◌≡◌, refl, sym, ap, ◌∙◌, inl, inr, ◌⊎◌, true, false, Option, none, some, List, [], ◌∷◌,
  ◌++◌, ltb, arith, length, length-append, take, drop, bytes_eq, ◌/◌, ◌%◌,
}
use pentaract.OrderedJobs.Spec.{Outcome, ok, err}
use pentaract.Crypto.{
  Aead, ChunkCipher, Error, decryption_failed, chunk_cipher_magic, aad, encrypt_chunk,
  decrypt_chunk, is_sealed, open_chunk, open_legacy,
}

-- What AES-GCM promises: a sealed text opens again, and what opens was sealed with the same nonce and
-- additional data.
pub record IsAead (a : Aead) : Type 0 where
  pub opens :
      (nonce plain extra : List ℕ)
      → a.open_sealed nonce (a.seal nonce plain extra) extra ≡ some plain
  pub authentic :
      (nonce text extra plain : List ℕ)
      → a.open_sealed nonce text extra ≡ some plain
      → text ≡ a.seal nonce plain extra

pub take_front : (xs ys : List ℕ) → take (length xs) (xs ++ ys) ≡ xs
take_front [] ys = refl
take_front (x ∷ xs) ys = ap (λ t. x ∷ t) (take_front xs ys)

pub drop_front : (xs ys : List ℕ) → drop (length xs) (xs ++ ys) ≡ ys
drop_front [] ys = refl
drop_front (x ∷ xs) ys = drop_front xs ys

is_sealed-magic : (xs : List ℕ) → is_sealed (chunk_cipher_magic ++ xs) ≡ true
unfolding is_sealed bytes_eq
is_sealed-magic xs = ground arith

ok-injective : {x y : List ℕ} → Path (Outcome Error (List ℕ)) (ok x) (ok y) → x ≡ y
ok-injective h = cc

-- What decryption does with a well-formed payload.
decrypt_chunk-payload :
    (c : ChunkCipher) (file_id nonce text : List ℕ) (position : ℕ)
    → length nonce ≡ c.aead.nonce_size
    → decrypt_chunk c file_id position (chunk_cipher_magic ++ nonce ++ text)
      ≡ open_chunk c nonce text (aad file_id position)
unfolding decrypt_chunk
decrypt_chunk-payload c file_id nonce text position n =
    let long : ltb (length (chunk_cipher_magic ++ nonce ++ text)) (5 + c.aead.nonce_size) ≡ false =
      ground (arith, length-append nonce text) in
    let front : take c.aead.nonce_size (nonce ++ text) ≡ nonce =
      ap (λ k. take k (nonce ++ text)) (sym n) ∙ take_front nonce text in
    let back : drop c.aead.nonce_size (nonce ++ text) ≡ text =
      ap (λ k. drop k (nonce ++ text)) (sym n) ∙ drop_front nonce text in
    rw (is_sealed-magic (nonce ++ text), long, front, back)

-- What is encrypted under a secret is decrypted under it, whatever the file, the position, the text and
-- the older secret: where the cipher keeps its promise and the nonce has the cipher's size.
pub decrypt_chunk-encrypt_chunk :
    (c : ChunkCipher) (file_id nonce plain payload : List ℕ) (position : ℕ)
    → IsAead c.aead
    → length nonce ≡ c.aead.nonce_size
    → encrypt_chunk c file_id position (some nonce) plain ≡ ok payload
    → decrypt_chunk c file_id position payload ≡ ok plain
unfolding encrypt_chunk open_chunk open_legacy
decrypt_chunk-encrypt_chunk c file_id nonce plain payload position law n e =
    ap (decrypt_chunk c file_id position) (sym (ok-injective e))
    ∙ decrypt_chunk-payload c file_id nonce (c.aead.seal nonce plain (aad file_id position))
        position n
    ∙ opened
  where
    opened :
        open_chunk c nonce (c.aead.seal nonce plain (aad file_id position)) (aad file_id position)
        ≡ ok plain
    opened = rw (open_chunk, law.opens nonce plain (aad file_id position))

-- Where an older cipher sealed the payload, the two ciphers have one nonce size and the current cipher
-- does not open it, the cipher with that fallback still decrypts it.
pub decrypt_chunk-fallback :
    (c : ChunkCipher) (old : Aead) (file_id nonce plain payload : List ℕ) (position : ℕ)
    → IsAead old
    → c.legacy ≡ some old
    → length nonce ≡ c.aead.nonce_size
    → encrypt_chunk (record { aead = old; legacy = none }) file_id position (some nonce) plain
      ≡ ok payload
    → c.aead.open_sealed nonce (old.seal nonce plain (aad file_id position)) (aad file_id position)
      ≡ none
    → decrypt_chunk c file_id position payload ≡ ok plain
unfolding encrypt_chunk open_chunk open_legacy
decrypt_chunk-fallback c old file_id nonce plain payload position law l n e closed =
    ap (decrypt_chunk c file_id position) (sym (ok-injective e))
    ∙ decrypt_chunk-payload c file_id nonce (old.seal nonce plain (aad file_id position)) position n
    ∙ opened
  where
    opened :
        open_chunk c nonce (old.seal nonce plain (aad file_id position)) (aad file_id position)
        ≡ ok plain
    opened = rw (open_chunk, closed, l, open_legacy, law.opens nonce plain (aad file_id position))

-- A payload without the magic bytes is a chunk from before encryption and comes back unchanged.
pub decrypt_chunk-plain :
    (c : ChunkCipher) (file_id payload : List ℕ) (position : ℕ)
    → is_sealed payload ≡ false
    → decrypt_chunk c file_id position payload ≡ ok payload
unfolding decrypt_chunk
decrypt_chunk-plain c file_id payload position h = rw (h)

-- The name of a chunk: the bytes of its file's id, and the two low bytes of its position, the high one first.
pub chunk_name : List ℕ → ℕ → List ℕ
chunk_name file_id position = file_id ++ (position / 256 % 256 ∷ position % 256 ∷ [])

aad-chunk_name :
    (file_id : List ℕ) (position : ℕ) → aad file_id position ≡ chunk_name file_id position
unfolding aad chunk_name
aad-chunk_name file_id position =
    let e : position % 65536 / 256 ≡ position / 256 % 256 = omega arith in
    ap (λ x. file_id ++ (x ∷ position % 256 ∷ [])) e

-- File ids of one length and positions below 65536 that have one name are equal.
pub chunk_name-injective :
    (f g : List ℕ) (p q : ℕ)
    → length f ≡ length g
    → chunk_name f p ≡ chunk_name g q
    → (f ≡ g) × (p % 65536 ≡ q % 65536)
unfolding chunk_name
chunk_name-injective [] [] p q n e =
    let high : p / 256 % 256 ≡ q / 256 % 256 = cc in
    let low : p % 256 ≡ q % 256 = cc in (refl, omega arith)
chunk_name-injective [] (y ∷ g) p q n e = absurd (omega arith)
chunk_name-injective (x ∷ f) [] p q n e = absurd (omega arith)
chunk_name-injective (x ∷ f) (y ∷ g) p q n e =
    let tails : f ++ (p / 256 % 256 ∷ p % 256 ∷ []) ≡ g ++ (q / 256 % 256 ∷ q % 256 ∷ []) = cc in
    let heads : x ≡ y = cc in let r = chunk_name-injective f g p q (omega arith) tails in (cc, r.1)

-- What was sealed with the cipher for this chunk.
abbrev pub IsSealedBy : Option Aead → List ℕ → List ℕ → List ℕ → List ℕ → Type 0
IsSealedBy none nonce plain extra text = ⊥
IsSealedBy (some a) nonce plain extra text = text ≡ a.seal nonce plain extra

open_chunk_sound :
    (c : ChunkCipher) (nonce text extra plain : List ℕ) (o : Option (List ℕ)) (l : Option Aead)
    (q : Option (List ℕ))
    → IsAead c.aead
    → ((a : Aead) → c.legacy ≡ some a → IsAead a)
    → c.aead.open_sealed nonce text extra ≡ o
    → c.legacy ≡ l
    → elim l [ none ↦ none | some a ↦ a.open_sealed nonce text extra ] ≡ q
    → open_chunk c nonce text extra ≡ ok plain
    → (text ≡ c.aead.seal nonce plain extra) ⊎ IsSealedBy l nonce plain extra text
unfolding open_chunk open_legacy
open_chunk_sound c nonce text extra plain (some p) l q law old e f g h =
    let opened : open_chunk c nonce text extra ≡ ok p = rw (open_chunk, e) in
    let same : p ≡ plain = ok-injective (sym opened ∙ h) in
    inl (law.authentic nonce text extra plain (e ∙ ap some same))
open_chunk_sound c nonce text extra plain none none q law old e f g h =
    let closed : open_chunk c nonce text extra ≡ err decryption_failed =
      rw (open_chunk, e, f, open_legacy) in
    absurd (ground arith)
open_chunk_sound c nonce text extra plain none (some a) (some p) law old e f g h =
    let opened : open_chunk c nonce text extra ≡ ok p = rw (open_chunk, e, f, open_legacy, g) in
    let same : p ≡ plain = ok-injective (sym opened ∙ h) in
    inr ((old a f).authentic nonce text extra plain (g ∙ ap some same))
open_chunk_sound c nonce text extra plain none (some a) none law old e f g h =
    let closed : open_chunk c nonce text extra ≡ err decryption_failed =
      rw (open_chunk, e, f, open_legacy, g) in
    absurd (ground arith)

-- A payload with the magic bytes that decrypts was sealed, by the current cipher or by the fallback, where both keep
-- the promise of an AEAD, under the name of the chunk that it is decrypted for; and a chunk of a file
-- id of that length has this name only if its file id is the same and its position is, up to a
-- multiple of 65536.
pub decrypt_chunk_sound :
    (c : ChunkCipher) (file_id nonce text plain : List ℕ) (position : ℕ)
    → IsAead c.aead
    → ((a : Aead) → c.legacy ≡ some a → IsAead a)
    → length nonce ≡ c.aead.nonce_size
    → decrypt_chunk c file_id position (chunk_cipher_magic ++ nonce ++ text) ≡ ok plain
    → ((text ≡ c.aead.seal nonce plain (chunk_name file_id position))
        ⊎ IsSealedBy c.legacy nonce plain (chunk_name file_id position) text)
      × ((g : List ℕ) (q : ℕ)
          → length g ≡ length file_id
          → chunk_name g q ≡ chunk_name file_id position
          → (g ≡ file_id) × (q % 65536 ≡ position % 65536))
decrypt_chunk_sound c file_id nonce text plain position law old n h =
    let sealed =
      open_chunk_sound c nonce text (aad file_id position) plain
        (c.aead.open_sealed nonce text (aad file_id position)) c.legacy
        (elim c.legacy [ none ↦ none | some a ↦ a.open_sealed nonce text (aad file_id position) ])
        law old refl refl refl (sym (decrypt_chunk-payload c file_id nonce text position n) ∙ h) in
    (
      subst (λ x. (text ≡ c.aead.seal nonce plain x) ⊎ IsSealedBy c.legacy nonce plain x text)
          (aad-chunk_name file_id position) sealed,
      λ g q l e. chunk_name-injective g file_id q position l e,
    )
