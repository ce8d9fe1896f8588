-- ===== src/Crypto/Examples.antt =====
-- A toy AEAD that writes the additional data and its key in front, and the witnesses.
use pentaract.Prelude.{
  ℕ, ◌≡◌, ◌⊎◌, inl, inr, refl, sym, ap, ◌∙◌, ◌%◌, Option, none, some, List, [], ◌∷◌, ◌++◌,
  if◌then◌else◌, arith, length, take, drop, bytes_eq, bytes_eq_refl, bytes_eq→eq, take-append-drop,
  Bool-cases,
}
use pentaract.OrderedJobs.Spec.{ok}
use pentaract.Crypto.{
  Aead, ChunkCipher, chunk_cipher_magic, encrypt_chunk, decrypt_chunk,
  new_chunk_cipher_with_fallback,
}
use pentaract.Crypto.Payload.{
  IsAead, IsSealedBy, chunk_name, take_front, drop_front, decrypt_chunk-encrypt_chunk,
  decrypt_chunk-fallback, decrypt_chunk_sound,
}

toy_open : List ℕ → List ℕ → List ℕ → Option (List ℕ)
toy_open key text extra =
    let front = key ++ extra in
    if bytes_eq (take (length front) text) front then some (drop (length front) text) else none

abbrev toy : List ℕ → Aead
toy key = record {
  nonce_size = 1;
  seal = λ n p x. (key ++ x) ++ p;
  open_sealed = λ n t x. toy_open key t x;
}

toy-IsAead : (key : List ℕ) → IsAead (toy key)
unfolding toy_open
toy-IsAead key = record {
  opens = λ n p x.
      let front = key ++ x in
      ap (λ b. if b then some (drop (length front) (front ++ p)) else none)
        (ap (λ l. bytes_eq l front) (take_front front p) ∙ bytes_eq_refl front)
      ∙ ap some (drop_front front p);
  authentic = λ n t x p h.
      let front = key ++ x in
      elim (Bool-cases (bytes_eq (take (length front) t) front)) [
        | inr e ↦ absurd (ground arith)
        | inl e ↦
            let rest : drop (length front) t ≡ p = ground arith in
            sym (take-append-drop (length front) t)
            ∙ ap (λ l. l ++ drop (length front) t) (bytes_eq→eq (take (length front) t) front e)
            ∙ ap (λ l. front ++ l) rest
      ];
}

abbrev both : ChunkCipher
both = new_chunk_cipher_with_fallback toy (1 ∷ []) (2 ∷ [])

payload : List ℕ → List ℕ
payload key = chunk_cipher_magic ++ (9 ∷ []) ++ ((key ++ (7 ∷ 0 ∷ 3 ∷ [])) ++ (5 ∷ 6 ∷ []))

decrypt_chunk-encrypt_chunk_example :
    decrypt_chunk both (7 ∷ []) 3 (payload (1 ∷ [])) ≡ ok (5 ∷ 6 ∷ [])
unfolding payload encrypt_chunk new_chunk_cipher_with_fallback bytes_eq
decrypt_chunk-encrypt_chunk_example =
    decrypt_chunk-encrypt_chunk both (7 ∷ []) (9 ∷ []) (5 ∷ 6 ∷ []) (payload (1 ∷ [])) 3
      (toy-IsAead (1 ∷ [])) refl refl

decrypt_chunk-fallback_example : decrypt_chunk both (7 ∷ []) 3 (payload (2 ∷ [])) ≡ ok (5 ∷ 6 ∷ [])
unfolding payload encrypt_chunk new_chunk_cipher_with_fallback bytes_eq toy_open
decrypt_chunk-fallback_example =
    decrypt_chunk-fallback both (toy (2 ∷ [])) (7 ∷ []) (9 ∷ []) (5 ∷ 6 ∷ []) (payload (2 ∷ [])) 3
      (toy-IsAead (2 ∷ [])) refl refl refl refl

abbrev one_key : ChunkCipher
one_key = record { aead = toy (1 ∷ []); legacy = none }

decrypted : decrypt_chunk one_key (7 ∷ []) 3 (payload (1 ∷ [])) ≡ ok (5 ∷ 6 ∷ [])
unfolding payload decrypt_chunk toy_open bytes_eq
decrypted = refl

decrypt_chunk_sound_example :
    (((1 ∷ 7 ∷ 0 ∷ 3 ∷ 5 ∷ 6 ∷ [])
        ≡ one_key.aead.seal (9 ∷ []) (5 ∷ 6 ∷ []) (chunk_name (7 ∷ []) 3))
      ⊎ IsSealedBy none (9 ∷ []) (5 ∷ 6 ∷ []) (chunk_name (7 ∷ []) 3) (1 ∷ 7 ∷ 0 ∷ 3 ∷ 5 ∷ 6 ∷ []))
    × ((g : List ℕ) (q : ℕ)
        → length g ≡ 1
        → chunk_name g q ≡ chunk_name (7 ∷ []) 3
        → (g ≡ 7 ∷ []) × (q % 65536 ≡ 3))
unfolding payload
decrypt_chunk_sound_example =
    decrypt_chunk_sound one_key (7 ∷ []) (9 ∷ []) (1 ∷ 7 ∷ 0 ∷ 3 ∷ 5 ∷ 6 ∷ []) (5 ∷ 6 ∷ []) 3
      (toy-IsAead (1 ∷ [])) (λ a h. absurd (ground arith)) refl decrypted
