-- ===== src/Fetch/Workers.antt =====
-- A chunk is found as long as one worker of the storage can give it.
use mathlib.Core.Path.{subst}
use pentaract.Prelude.{
  ℕ, ◌≡◌, sym, ap, ◌∙◌, ◌⊎◌, inl, inr, true, none, List, [], ◌∷◌, ◌==◌, arith, Bool-cases,
  Option-cases,
}
use pentaract.OrderedJobs.Spec.{ok, err, Outcome-cases}
use pentaract.Domain.{FileChunk}
use pentaract.Fetch.{
  Error, Telegram, is_get_file_failure, download_chunk_with_worker, resolved_download, try_workers,
  fall_back, download_chunk,
}

-- Some worker of the list gives the chunk.
abbrev pub CanServe : Telegram → FileChunk → List ℕ → Type 0
CanServe tg chunk [] = ⊥
CanServe tg chunk (worker ∷ workers) =
    ((content : List ℕ) × ((download_chunk_with_worker tg chunk worker).0 ≡ ok content))
    ⊎ CanServe tg chunk workers

try_workers-ok :
    (tg : Telegram) (chunk : FileChunk) (first : ℕ) (workers : List ℕ) (e f : Error)
    → (download_chunk_with_worker tg chunk first).0 ≡ err f
    → ((worker : ℕ) → tg.ended worker ≡ none)
    → CanServe tg chunk workers
    → (content : List ℕ) × ((try_workers tg chunk first workers e).0 ≡ ok content)
unfolding try_workers
try_workers-ok tg chunk first [] e f failed alive h = absurd h
try_workers-ok tg chunk first (worker ∷ workers) e f failed alive h =
    elim (Bool-cases (worker == first)) [
      | inl same ↦
          let rest : CanServe tg chunk workers = elim h [
            | inr later ↦ later
            | inl (content, g) ↦ absurd (
                ground (
                  arith,
                  ap (λ k. (download_chunk_with_worker tg chunk k).0) {x = worker} {y = first}
                      (ground arith),
                ))
          ] in
          let (content, g) = try_workers-ok tg chunk first workers e f failed alive rest in
          (content, rw (try_workers, same) g)
      | inr other ↦ elim (Outcome-cases (download_chunk_with_worker tg chunk worker).0) [
        | inr (content, g) ↦ (content, rw (try_workers, other, g))
        | inl (x, g) ↦
            let rest : CanServe tg chunk workers = elim h [
              | inr later ↦ later
              | inl (content, k) ↦ absurd (ground arith)
            ] in
            let (content, k) = try_workers-ok tg chunk first workers x f failed alive rest in
            (content, rw (try_workers, other, g, alive worker) k)
      ]
    ]

-- A chunk that the scheduled worker cannot get, because Telegram does not give it the file, is downloaded
-- as long as the storage's workers can be listed, one of them can serve it and no context ends.
pub download_chunk-fallback :
    (tg : Telegram) (chunk : FileChunk) (worker : ℕ) (workers : List ℕ) (e : Error)
    → tg.token ≡ ok worker
    → (download_chunk_with_worker tg chunk worker).0 ≡ err e
    → is_get_file_failure e ≡ true
    → tg.workers ≡ ok workers
    → ((w : ℕ) → tg.ended w ≡ none)
    → CanServe tg chunk workers
    → (content : List ℕ) × ((download_chunk tg chunk).0 ≡ ok content)
unfolding download_chunk fall_back
download_chunk-fallback tg chunk worker workers e token failed missing listed alive can =
    let (content, g) = try_workers-ok tg chunk worker workers e e failed alive can in
    let whole : download_chunk tg chunk ≡ try_workers tg chunk worker workers e =
      rw (download_chunk, token, failed, fall_back, alive worker, missing, listed) in
    (content, ap (λ o. o.0) whole ∙ g)

-- Where the bytes come from: Telegram gave them for the chunk's own file id, or for the id that its
-- message was resolved to, and only in the second case is the chunk's row changed, to that id.
abbrev pub IsGenuine : Telegram → FileChunk → List ℕ → List (ℕ × List ℕ) → Type 0
IsGenuine tg chunk content updates =
    (worker : ℕ) × (((tg.download worker chunk.telegram_file_id ≡ ok content) × (updates ≡ []))
      ⊎ ((file_id : List ℕ) × (tg.resolve worker chunk.telegram_message_id ≡ ok file_id)
          × (tg.download worker file_id ≡ ok content)
          × ((updates ≡ []) ⊎ (updates ≡ (chunk.id, file_id) ∷ []))))

with_worker-IsGenuine :
    (tg : Telegram) (chunk : FileChunk) (worker : ℕ) (content : List ℕ)
    → (download_chunk_with_worker tg chunk worker).0 ≡ ok content
    → IsGenuine tg chunk content (download_chunk_with_worker tg chunk worker).1
unfolding download_chunk_with_worker resolved_download
with_worker-IsGenuine tg chunk worker content h =
    elim (Outcome-cases (tg.download worker chunk.telegram_file_id)) [
      | inr (x, d) ↦ (worker, inl (ground arith, ground arith))
      | inl (e, d) ↦ elim (Outcome-cases (tg.resolve worker chunk.telegram_message_id)) [
        | inl (f, r) ↦ absurd (ground arith)
        | inr (file_id, r) ↦ elim (Outcome-cases (tg.download worker file_id)) [
          | inl (f, k) ↦ absurd (ground arith)
          | inr (x, k) ↦ (worker, inr (file_id, r, ground arith, ground arith))
        ]
      ]
    ]

try_workers-IsGenuine :
    (tg : Telegram) (chunk : FileChunk) (first : ℕ) (workers : List ℕ) (e : Error)
    (content : List ℕ)
    → (try_workers tg chunk first workers e).0 ≡ ok content
    → IsGenuine tg chunk content (try_workers tg chunk first workers e).1
unfolding try_workers
try_workers-IsGenuine tg chunk first [] e content h = absurd (ground arith)
try_workers-IsGenuine tg chunk first (worker ∷ workers) e content h =
    elim (Bool-cases (worker == first)) [
      | inl same ↦
          rw (try_workers, same)
            (try_workers-IsGenuine tg chunk first workers e content (rw (try_workers, same) at h))
      | inr other ↦ elim (Outcome-cases (download_chunk_with_worker tg chunk worker).0) [
        | inr (x, g) ↦
            rw (try_workers, other, g)
              (with_worker-IsGenuine tg chunk worker content
                (g ∙ (rw (try_workers, other, g) at h)))
        | inl (x, g) ↦ elim (Option-cases (tg.ended worker)) [
          | inr (y, f) ↦ absurd (ground arith)
          | inl f ↦
              rw (try_workers, other, g, f)
                (try_workers-IsGenuine tg chunk first workers x content
                  (rw (try_workers, other, g, f) at h))
        ]
      ]
    ]

-- Whichever worker gives a chunk in the end, its bytes are those that Telegram has for the chunk's own
-- file id or for the id that the chunk's message was resolved to; a row is changed only to such an id,
-- and only the row of this chunk.
pub download_chunk-IsGenuine :
    (tg : Telegram) (chunk : FileChunk) (content : List ℕ)
    → (download_chunk tg chunk).0 ≡ ok content
    → IsGenuine tg chunk content (download_chunk tg chunk).1
unfolding download_chunk fall_back
download_chunk-IsGenuine tg chunk content h = elim (Outcome-cases tg.token) [
  | inl (e, t) ↦ absurd (ground arith)
  | inr (worker, t) ↦ elim (Outcome-cases (download_chunk_with_worker tg chunk worker).0) [
    | inr (x, g) ↦
        let whole : download_chunk tg chunk
            ≡ (ok x, (download_chunk_with_worker tg chunk worker).1) =
          rw (download_chunk, t, g) in
        subst (λ o. IsGenuine tg chunk content o.1) (sym whole)
          (with_worker-IsGenuine tg chunk worker content (g ∙ ap (λ o. o.0) (sym whole) ∙ h))
    | inl (e, g) ↦ elim (Outcome-cases tg.workers) [
      | inl (y, l) ↦ absurd (ground arith)
      | inr (workers, l) ↦ elim (Bool-cases (is_get_file_failure e)) [
        | inr no_failure ↦ absurd (ground arith)
        | inl failure ↦ elim (Option-cases (tg.ended worker)) [
          | inr (y, f) ↦ absurd (ground arith)
          | inl f ↦
              let whole : download_chunk tg chunk ≡ try_workers tg chunk worker workers e =
                rw (download_chunk, t, g, fall_back, f, failure, l) in
              subst (λ o. IsGenuine tg chunk content o.1) (sym whole)
                (try_workers-IsGenuine tg chunk worker workers e content
                  (ap (λ o. o.0) (sym whole) ∙ h))
        ]
      ]
    ]
  ]
]
