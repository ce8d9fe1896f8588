-- ===== src/Upload/Attempts.antt =====
-- What the retry loops around one chunk promise.
use mathlib.Core.Path.{subst}
use pentaract.Prelude.{
  ℕ, zero, suc, ◌+◌, ◌≤◌, ◌<◌, ◌≡◌, refl, sym, ap, ◌∙◌, ◌↔◌, ◌⊎◌, inl, inr, false, Option, none,
  some, List, ltb, length, arith, ltb→lt, bytes_eq, bytes_eq→eq, Bool-cases,
}
use pentaract.OrderedJobs.Spec.{ok, Outcome-cases}
use pentaract.Domain.{max_telegram_get_file_bytes}
use pentaract.Upload.{
  Error, Uploaded, Sending, Checking, Attempt, stopped, refused, done, try_once, send_from,
  upload_chunk_with_retry, validate_encrypted_chunk_size, check_once, check_from,
  verify_single_chunk,
}

-- The worker and the ids with which an attempt succeeded.
abbrev pub WasSent : Sending → ℕ → Uploaded → Type 0
WasSent s attempt r =
    (worker : ℕ) × (s.token attempt ≡ ok worker)
    × (s.sent attempt worker ≡ ok (r.telegram_file_id, r.telegram_message_id))

try_once-done :
    (s : Sending) (position : ℕ) (plain_hash : List ℕ) (attempt : ℕ) (r : Uploaded)
    → try_once s position plain_hash attempt ≡ done r
    → WasSent s attempt r × (r.position ≡ position) × (r.plain_hash ≡ plain_hash)
try_once-done s position plain_hash attempt r h = elim (Outcome-cases (s.token attempt)) [
  | inl (e, t) ↦ absurd (ground arith)
  | inr (worker, t) ↦ elim (Outcome-cases (s.sent attempt worker)) [
    | inl (e, u) ↦ absurd (ground arith)
    | inr ((file_id, message_id), u) ↦
        let built : Path Attempt (try_once s position plain_hash attempt) (
            done (record {
              telegram_file_id = file_id;
              telegram_message_id = message_id;
              position = position;
              plain_hash = plain_hash;
            })) =
          rw (try_once, t, u) in
        ((worker, t, cc), cc, cc)
  ]
]

Attempt-cases :
    (t : Attempt)
    → ((e : Error) × (t ≡ stopped e))
      ⊎ (((e : Error) × (t ≡ refused e)) ⊎ ((r : Uploaded) × (t ≡ done r)))
Attempt-cases (stopped e) = inl (e, refl)
Attempt-cases (refused e) = inr (inl (e, refl))
Attempt-cases (done r) = inr (inr (r, refl))

-- An attempt whose error the loop survives.
abbrev pub IsRetried : Sending → ℕ → List ℕ → ℕ → Type 0
IsRetried s position plain_hash attempt =
    ((e : Error) × (try_once s position plain_hash attempt ≡ refused e))
    × (s.ended attempt ≡ false)
    × (s.backoff attempt ≡ none)

module _ (s : Sending) (position : ℕ) (plain_hash : List ℕ) where
  send_from_sound :
      (left attempt : ℕ) (r : Uploaded)
      → send_from s position plain_hash left attempt ≡ ok r
      → (k : ℕ) × (attempt ≤ k)
        × (k ≤ attempt + left)
        × (try_once s position plain_hash k ≡ done r)
        × ((i : ℕ) → attempt ≤ i → i < k → IsRetried s position plain_hash i)
  unfolding send_from
  send_from_sound zero attempt r h = elim (Attempt-cases (try_once s position plain_hash attempt)) [
    | inl (e, t) ↦ absurd (ground arith)
    | inr (inl (e, t)) ↦ absurd (ground arith)
    | inr (inr (q, t)) ↦
        (attempt, omega arith, omega arith, ground arith, λ i a b. absurd (omega arith))
  ]
  send_from_sound (suc left) attempt r h =
      elim (Attempt-cases (try_once s position plain_hash attempt)) [
        | inl (e, t) ↦ absurd (ground arith)
        | inr (inr (q, t)) ↦
            (attempt, omega arith, omega arith, ground arith, λ i a b. absurd (omega arith))
        | inr (inl (e, t)) ↦
            let open_ : s.ended attempt ≡ false = ground arith in
            let slept : s.backoff attempt ≡ none = ground arith in
            let (k, lo, hi, d, before) = send_from_sound left (suc attempt) r (ground arith) in
            (
              k,
              omega arith,
              omega arith,
              d,
              λ i a b. elim (Bool-cases (ltb attempt i)) [
                | inl later ↦ before i (ground arith) b
                | inr here ↦
                    subst (IsRetried s position plain_hash) {x = attempt} {y = i} (ground arith)
                      ((e, t), open_, slept)
              ],
            )
      ]

  send_from_complete :
      (left attempt k : ℕ) (r : Uploaded)
      → attempt ≤ k
      → k ≤ attempt + left
      → try_once s position plain_hash k ≡ done r
      → ((i : ℕ) → attempt ≤ i → i < k → IsRetried s position plain_hash i)
      → send_from s position plain_hash left attempt ≡ ok r
  unfolding send_from
  send_from_complete zero attempt k r lo hi d before =
      let now : try_once s position plain_hash attempt ≡ done r =
        ap (try_once s position plain_hash) {x = attempt} {y = k} (omega arith) ∙ d in
      rw (send_from, now)
  send_from_complete (suc left) attempt k r lo hi d before = elim (Bool-cases (ltb attempt k)) [
    | inl later ↦
        let ((e, t), open_, slept) = before attempt (omega arith) (ltb→lt attempt k later) in
        rw (send_from, t, open_, slept)
          (send_from_complete left (suc attempt) k r (ground arith) (omega arith) d
            (λ i a b. before i (omega arith) b))
    | inr here ↦
        let now : try_once s position plain_hash attempt ≡ done r =
          ap (try_once s position plain_hash) {x = attempt} {y = k} (ground arith) ∙ d in
        rw (send_from, now)
  ]

  -- The chunk is sent exactly when one of the five attempts succeeds and the loop survives every attempt
  -- before it (Telegram refuses it, the context has not ended and the backoff is not interrupted),
  -- where the chunk is encrypted to at most the size that Telegram gives back.
  pub upload_chunk_with_retry-ok :
      (chunk : List ℕ) (r : Uploaded)
      → s.encrypted ≡ ok chunk
      → length chunk ≤ max_telegram_get_file_bytes
      → (upload_chunk_with_retry s position plain_hash ≡ ok r) ↔ (
          (k : ℕ) × (1 ≤ k)
          × (k ≤ 5)
          × (try_once s position plain_hash k ≡ done r)
          × ((i : ℕ) → 1 ≤ i → i < k → IsRetried s position plain_hash i))
  unfolding upload_chunk_with_retry validate_encrypted_chunk_size
  upload_chunk_with_retry-ok chunk r e small =
      let fits : ltb max_telegram_get_file_bytes (length chunk) ≡ false = ground arith in
      let whole : upload_chunk_with_retry s position plain_hash
          ≡ send_from s position plain_hash 4 1 =
        rw (upload_chunk_with_retry, e, fits) in
      (
        (λ h. send_from_sound 4 1 r (sym whole ∙ h)),
        λ (k, lo, hi, d, before). whole ∙ send_from_complete 4 1 k r lo hi d before,
      )

  -- What is recorded for a chunk that is sent: its position, its hash and the ids that Telegram gave for
  -- one of the five attempts; and no chunk is sent that Telegram would not give back.
  pub upload_chunk_with_retry_sound :
      (r : Uploaded)
      → upload_chunk_with_retry s position plain_hash ≡ ok r
      → (r.position ≡ position)
        × (r.plain_hash ≡ plain_hash)
        × ((k : ℕ) × (1 ≤ k) × (k ≤ 5) × WasSent s k r)
        × ((chunk : List ℕ) × (s.encrypted ≡ ok chunk)
            × (length chunk ≤ max_telegram_get_file_bytes))
  unfolding upload_chunk_with_retry validate_encrypted_chunk_size
  upload_chunk_with_retry_sound r h = elim (Outcome-cases s.encrypted) [
    | inl (e, f) ↦ absurd (ground arith)
    | inr (chunk, f) ↦ elim (Bool-cases (ltb max_telegram_get_file_bytes (length chunk))) [
      | inl large ↦ absurd (ground arith)
      | inr fits ↦
          let whole : upload_chunk_with_retry s position plain_hash
              ≡ send_from s position plain_hash 4 1 =
            rw (upload_chunk_with_retry, f, fits) in
          let (k, lo, hi, d, before) = send_from_sound 4 1 r (sym whole ∙ h) in
          let (sent_, same_position, same_hash) = try_once-done s position plain_hash k r d in
          (same_position, same_hash, (k, lo, hi, sent_), (chunk, f, ground arith))
    ]
  ]

-- The download of an attempt whose hash is the recorded one.
abbrev pub IsVerified : (List ℕ → List ℕ) → Checking → Uploaded → Type 0
IsVerified hash c r =
    (k : ℕ) × (k ≤ 2)
    × (content : List ℕ) × (c.downloaded k ≡ ok content)
    × (hash content ≡ r.plain_hash)

module _ (hash : List ℕ → List ℕ) (c : Checking) (r : Uploaded) where
  check_once_sound :
      (attempt : ℕ) (again : Option (Option Error))
      → check_once hash c r attempt again ≡ none
      → ((content : List ℕ) × (c.downloaded attempt ≡ ok content) × (hash content ≡ r.plain_hash))
        ⊎ (again ≡ some none)
  check_once_sound attempt again h = elim (Outcome-cases (c.downloaded attempt)) [
    | inr (content, d) ↦ elim (Bool-cases (bytes_eq (hash content) r.plain_hash)) [
      | inl same ↦ inl (content, d, bytes_eq→eq (hash content) r.plain_hash same)
      | inr other ↦ absurd (ground arith)
    ]
    | inl (e, d) ↦ ground arith
  ]

  check_from_sound :
      (left attempt : ℕ)
      → attempt + left ≤ 2
      → check_from hash c r left attempt ≡ none
      → IsVerified hash c r
  unfolding check_from
  check_from_sound zero attempt bound h = elim (check_once_sound attempt none h) [
    | inl (content, d, same) ↦ (attempt, omega arith, content, d, same)
    | inr none_left ↦ absurd (ground arith)
  ]
  check_from_sound (suc left) attempt bound h =
      elim (check_once_sound attempt
        (some (elim (c.backoff (suc attempt)) [
          | some e ↦ some e
          | none ↦ check_from hash c r left (suc attempt)
        ]))
        h) [
          | inl (content, d, same) ↦ (attempt, omega arith, content, d, same)
          | inr again ↦ check_from_sound left (suc attempt) (omega arith) (ground arith)
        ]

  -- A chunk passes verification only if one of three downloads gave the bytes with the recorded hash.
  pub verify_single_chunk_sound : verify_single_chunk hash c r ≡ none → IsVerified hash c r
  unfolding verify_single_chunk
  verify_single_chunk_sound h = check_from_sound 2 0 (omega arith) h
