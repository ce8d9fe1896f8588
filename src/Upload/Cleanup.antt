-- ===== src/Upload/Cleanup.antt =====
-- A failed upload gives every chunk that it has sent to the clean-up and writes no rows.
use mathlib.Core.Path.{subst}
use mathlib.Core.List.{Perm}
use mathlib.Core.List.Perm
use pentaract.Prelude.{
  ℕ, zero, suc, ◌≡◌, refl, ap, sym, ◌∙◌, append-nil, leb, Bool-cases, ◌⊎◌, inl, inr, Option, none,
  some, List, [], ◌∷◌, ◌++◌, map, arith, Option-cases, length,
}
use pentaract.OrderedJobs.Spec.{proceed, proceed-keeps}
use pentaract.Upload.{Error, verification_failed, Uploaded}
use pentaract.Upload.Run.{
  Chunk, World, Run, submit, upload_chunk, upload_all, upload_chunks, retry_failed_chunk,
  retry_failed_chunks, retry_verification, retry_round, verify, verify_all, retry_queue_once,
  retry_rounds, cleanup_all, sort, file_chunk, persist, abort, finish, after_checks, after_second,
  after_upload, upload, empty_run, insert, first, record_result, is_hash_mismatch,
}
use pentaract.Upload.Sent.{
  first_sent, first_failed, second_sent, all_sent, first-none, upload_all-results,
  upload_all-failed, retry_failed_chunks-results,
}

-- Nothing is written and nothing is given to the clean-up yet, and these results are recorded.
abbrev IsOpen : List Uploaded → Run → Type 0
IsOpen rs run = (run.stored ≡ []) × (run.cleaned ≡ []) × (run.results ≡ rs)

-- The end of an upload that has sent certain chunks: rows for all of them and no clean-up, or no row and the
-- clean-up of all.
abbrev pub IsSettled : ℕ → List Uploaded → Option Error × Run → Type 0
IsSettled file_id sent (none, run) =
    (rs : List Uploaded) × Perm rs sent
    × (run.results ≡ rs)
    × (run.stored ≡ map (file_chunk file_id) rs)
    × (run.cleaned ≡ [])
IsSettled file_id sent (some e, run) =
    (rs : List Uploaded) × Perm rs sent
    × (run.results ≡ rs)
    × (run.stored ≡ [])
    × (run.cleaned ≡ map (λ r. r.telegram_message_id) rs)

insert-perm : (r : Uploaded) (xs : List Uploaded) → Perm (insert r xs) (r ∷ xs)
unfolding insert
insert-perm r [] = Perm.rfl
insert-perm r (x ∷ xs) = elim (Bool-cases (leb r.position x.position)) [
  | inl e ↦ rw (insert, e) Perm.rfl
  | inr e ↦ rw (insert, e) (Perm.trans (Perm.cons x (insert-perm r xs)) (Perm.swap r x xs))
]

pub sort-perm : (xs : List Uploaded) → Perm (sort xs) xs
unfolding sort
sort-perm [] = Perm.rfl
sort-perm (x ∷ xs) = Perm.trans (insert-perm x (sort xs)) (Perm.cons x (sort-perm xs))

-- The same, as the code leaves the results: as they were recorded, or sorted.
abbrev pub Ends : ℕ → List Uploaded → Option Error × Run → Type 0
Ends file_id sent (none, run) =
    (rs : List Uploaded) × ((rs ≡ sent) ⊎ (rs ≡ sort sent))
    × (run.results ≡ rs)
    × (run.stored ≡ map (file_chunk file_id) rs)
    × (run.cleaned ≡ [])
Ends file_id sent (some e, run) =
    (rs : List Uploaded) × ((rs ≡ sent) ⊎ (rs ≡ sort sent))
    × (run.results ≡ rs)
    × (run.stored ≡ [])
    × (run.cleaned ≡ map (λ r. r.telegram_message_id) rs)

ends-perm : (rs sent : List Uploaded) → (rs ≡ sent) ⊎ (rs ≡ sort sent) → Perm rs sent
ends-perm rs sent (inl e) = subst (λ l. Perm l sent) (sym e) Perm.rfl
ends-perm rs sent (inr e) = subst (λ l. Perm l sent) (sym e) (sort-perm sent)

Ends-IsSettled :
    (file_id : ℕ) (sent : List Uploaded) (o : Option Error × Run)
    → Ends file_id sent o
    → IsSettled file_id sent o
Ends-IsSettled file_id sent (none, run) (rs, p, h, g, c) = (rs, ends-perm rs sent p, h, g, c)
Ends-IsSettled file_id sent (some e, run) (rs, p, h, g, c) = (rs, ends-perm rs sent p, h, g, c)

module _ (w : World) where
  upload_all-IsOpen :
      (cs : List Chunk) (run : Run)
      → (run.stored ≡ []) × (run.cleaned ≡ [])
      → ((upload_all w cs run).1.stored ≡ []) × ((upload_all w cs run).1.cleaned ≡ [])
  unfolding upload_all upload_chunk submit record_result
  upload_all-IsOpen [] run h = h
  upload_all-IsOpen (c ∷ cs) run h = upload_all-IsOpen cs (upload_chunk w c run).1 (ground arith)

  retry_failed_chunks-IsOpen :
      (cs : List Chunk) (run : Run)
      → (run.stored ≡ []) × (run.cleaned ≡ [])
      → ((retry_failed_chunks w cs run).1.stored ≡ [])
        × ((retry_failed_chunks w cs run).1.cleaned ≡ [])
  unfolding retry_failed_chunks retry_failed_chunk submit record_result
  retry_failed_chunks-IsOpen [] run h = h
  retry_failed_chunks-IsOpen (c ∷ cs) run h =
      proceed-keeps (λ run. (run.stored ≡ []) × (run.cleaned ≡ [])) (retry_failed_chunk w c run)
        (retry_failed_chunks w cs) (ground arith) (retry_failed_chunks-IsOpen cs)

  verify_all-IsOpen :
      (l rs : List Uploaded) (run : Run) → IsOpen l run → IsOpen l (verify_all w rs run).1
  unfolding verify_all verify is_hash_mismatch
  verify_all-IsOpen l [] run h = h
  verify_all-IsOpen l (r ∷ rs) run h = verify_all-IsOpen l rs (verify w r run).1 (ground arith)

  retry_queue_once-IsOpen :
      (l : List Uploaded) (round : ℕ) (rs : List Uploaded) (run : Run)
      → IsOpen l run
      → IsOpen l (retry_queue_once w round rs run).1
  unfolding retry_queue_once retry_verification is_hash_mismatch
  retry_queue_once-IsOpen l round [] run h = h
  retry_queue_once-IsOpen l round (r ∷ rs) run h =
      proceed-keeps (IsOpen l) (retry_verification w round r run) (retry_queue_once w round rs)
        (ground arith) (retry_queue_once-IsOpen l round rs)

  retry_round-IsOpen :
      (l : List Uploaded) (round : ℕ) (run : Run)
      → IsOpen l run
      → IsOpen l (retry_round w round run).1
  unfolding retry_round
  retry_round-IsOpen l round run h = elim (Option-cases (w.wait_error round)) [
    | inl e ↦
        rw (retry_round, e)
          (retry_queue_once-IsOpen l round run.retry_queue (record run { retry_queue = [] }) h)
    | inr (x, e) ↦ rw (retry_round, e) h
  ]

  retry_rounds-IsOpen :
      (l : List Uploaded) (left round : ℕ) (run : Run)
      → IsOpen l run
      → IsOpen l (retry_rounds w left round run).1
  unfolding retry_rounds
  retry_rounds-IsOpen l zero round run h = h
  retry_rounds-IsOpen l (suc left) round run h = go run.retry_queue (
      proceed-keeps (IsOpen l) (retry_round w round run) (retry_rounds w left (suc round))
        (retry_round-IsOpen l round run h) (retry_rounds-IsOpen l left (suc round)))
    where
      more : Option Error × Run
      more = proceed (retry_round w round run) (retry_rounds w left (suc round))

      go :
          (q : List Uploaded)
          → IsOpen l more.1
          → IsOpen l (elim q as (λ _. Option Error × Run) [ [] ↦ (none, run) | _ ∷ _ ↦ more ]).1
      go [] kept = h
      go (r ∷ rs) kept = kept

  module _ (file_id : ℕ) (l : List Uploaded) where
    abort-Ends : (e : Error) (run : Run) → IsOpen l run → Ends file_id l (abort e run)
    unfolding abort cleanup_all
    abort-Ends e run h = (
      l,
      inl refl,
      h.2,
      h.0,
      ap (λ m. m ++ map (λ r. r.telegram_message_id) run.results) h.1
          ∙ ap (map (λ (r : Uploaded). r.telegram_message_id)) h.2,
    )

    persist-Ends : (run : Run) → IsOpen l run → Ends file_id l (persist w file_id run)
    unfolding persist cleanup_all
    persist-Ends run h = elim (Option-cases w.save_error) [
      | inl e ↦
          rw (persist, e)
            (sort l, inr refl, ap sort h.2, ap (λ m. map (file_chunk file_id) (sort m)) h.2, h.1)
      | inr (x, e) ↦
          rw (persist, e)
            (
              sort l,
              inr refl,
              ap sort h.2,
              h.0,
              ap (λ m. m ++ map (λ r. r.telegram_message_id) (sort run.results)) h.1
                  ∙ ap (λ m. map (λ (r : Uploaded). r.telegram_message_id) (sort m)) h.2,
            )
    ]

    finish-Ends : (run : Run) → IsOpen l run → Ends file_id l (finish w file_id run)
    unfolding finish
    finish-Ends run h = go (retry_rounds w 3 1 run) (retry_rounds-IsOpen l 3 1 run h)
      where
        decided :
            (ps : List ℕ) (run : Run)
            → IsOpen l run
            → Ends file_id l (elim ps [
              | [] ↦ persist w file_id run
              | p ∷ qs ↦ abort (verification_failed (length (p ∷ qs))) run
            ])
        decided [] run h = persist-Ends run h
        decided (p ∷ ps) run h = abort-Ends (verification_failed (length (p ∷ ps))) run h

        go :
            (o : Option Error × Run)
            → IsOpen l o.1
            → Ends file_id l (elim o.0 [
              | some x ↦ abort x o.1
              | none ↦ elim o.1.failed_positions [
                | [] ↦ persist w file_id o.1
                | p ∷ qs ↦ abort (verification_failed (length (p ∷ qs))) o.1
              ]
            ])
        go (some x, run) h = abort-Ends x run h
        go (none, run) h = decided run.failed_positions run h

    after_checks-Ends :
        (o : Option Error × Run) → IsOpen l o.1 → Ends file_id l (after_checks w file_id o)
    unfolding after_checks
    after_checks-Ends (some e, run) h = abort-Ends e run h
    after_checks-Ends (none, run) h = finish-Ends run h

    after_second-Ends :
        (o : Option Error × Run) → IsOpen l o.1 → Ends file_id l (after_second w file_id o)
    unfolding after_second
    after_second-Ends (some e, run) h = abort-Ends e run h
    after_second-Ends (none, run) h =
        after_checks-Ends (verify_all w run.submitted run) (verify_all-IsOpen l run.submitted run h)

  -- The second phase adds what it has sent.
  after_upload-Ends :
      (file_id : ℕ) (first : List Uploaded) (failed : List Chunk) (o : Option Error × Run)
      → IsOpen first o.1
      → (o.0 ≡ none → o.1.failed_chunks ≡ failed)
      → Ends file_id
          (first ++ elim o.0 as (λ _. List Uploaded) [ some e ↦ [] | none ↦ second_sent w failed ])
          (after_upload w file_id o)
  unfolding after_upload
  after_upload-Ends file_id first failed (some e, run) h f =
      abort-Ends file_id (first ++ []) e run (h.0, h.1, h.2 ∙ sym (append-nil first))
  after_upload-Ends file_id first failed (none, run) h f =
      let o = retry_failed_chunks w run.failed_chunks run in
      let kept = retry_failed_chunks-IsOpen run.failed_chunks run (h.0, h.1) in
      after_second-Ends file_id (first ++ second_sent w failed) o (
        kept.0,
        kept.1,
        retry_failed_chunks-results w run.failed_chunks run
            ∙ ap (λ l. l ++ second_sent w run.failed_chunks) h.2
            ∙ ap (λ cs. first ++ second_sent w cs) (f refl),
      )

  pub upload-Ends :
      (file_id : ℕ) (cs : List Chunk) → Ends file_id (all_sent w cs) (upload w file_id cs)
  unfolding upload upload_chunks all_sent
  upload-Ends file_id cs = elim (Option-cases w.storage_error) [
    | inr (x, e) ↦ rw (upload, all_sent, e) ([], inl refl, refl, refl, refl)
    | inl e ↦
        let kept = upload_all-IsOpen cs empty_run (refl, refl) in
        rw (upload, all_sent, e)
          (after_upload-Ends file_id (first_sent w cs) (first_failed w cs)
            (upload_chunks w cs empty_run) (kept.0, kept.1, upload_all-results w cs empty_run)
            (λ n. upload_all-failed w cs empty_run (no_upload_error n)))
  ]
    where
      no_upload_error :
          (upload_chunks w cs empty_run).0 ≡ none → (upload_all w cs empty_run).0 ≡ none
      no_upload_error n =
          (first-none (upload_all w cs empty_run).0 w.context_error
            (first-none w.source_error (first (upload_all w cs empty_run).0 w.context_error) n).1).0

  -- However an upload ends, it has recorded exactly the chunks that Telegram has taken: those of the parallel phase,
  -- and, if that one ended without an error, those of the sequential phase up to its first error. If the
  -- upload succeeds, its rows are those of all these chunks and no message is given to the clean-up;
  -- if it fails, in any phase, no row is written and the messages of all these chunks, each once, are
  -- given to the clean-up.
  pub upload-IsSettled :
      (file_id : ℕ) (cs : List Chunk) → IsSettled file_id (all_sent w cs) (upload w file_id cs)
  upload-IsSettled file_id cs =
      Ends-IsSettled file_id (all_sent w cs) (upload w file_id cs) (upload-Ends file_id cs)
