-- ===== src/Upload/Stored.antt =====
-- The whole upload: what it stores has been checked.
use mathlib.Core.Path.{subst}
use pentaract.Prelude.{
  ℕ, zero, suc, ◌+◌, ◌≤◌, ◌≡◌, ◌≢◌, refl, sym, ap, ◌∙◌, ◌⊎◌, inl, inr, Option, none, some, List, [],
  ◌∷◌, map, arith, if◌then◌else◌, Bool-cases, Option-cases, length, leb,
}
use pentaract.Prelude.Members.{In}
use pentaract.Upload.Sent.{first-none}
use pentaract.OrderedJobs.Spec.{proceed, proceed-ok, Outcome-cases}
use pentaract.Upload.{Error, verification_failed, Uploaded, upload_chunk_with_retry}
use pentaract.Upload.Run.{
  Chunk, World, Run, upload_chunk, upload_all, upload_chunks, retry_failed_chunk,
  retry_failed_chunks, verify_all, retry_round, retry_rounds, sort, insert, persist, abort, finish,
  after_checks, after_second, after_upload, upload, empty_run, first,
}
use pentaract.Upload.Verified.{
  IsChecked, IsQueued, Fate, Keeps, submit-IsQueued, upload_chunk-IsQueued, verify_all-Keeps,
  retry_queue_once-Keeps, nil_append,
}

insert-In : (r q : Uploaded) (xs : List Uploaded) → In r (insert q xs) → (r ≡ q) ⊎ In r xs
unfolding insert
insert-In r q [] h = h
insert-In r q (x ∷ xs) h = elim (Bool-cases (leb q.position x.position)) [
  | inl e ↦ rw (insert, e) at h
  | inr e ↦ elim (subst (λ b. In r (if b then q ∷ x ∷ xs else x ∷ insert q xs)) e h) [
    | inl i ↦ inr (inl i)
    | inr i ↦ elim (insert-In r q xs i) [ inl j ↦ inl j | inr j ↦ inr (inr j) ]
  ]
]

pub sort-In : (r : Uploaded) (xs : List Uploaded) → In r (sort xs) → In r xs
unfolding sort
sort-In r [] h = h
sort-In r (x ∷ xs) h = elim (insert-In r x (sort xs) h) [
  | inl e ↦ inl e
  | inr i ↦ inr (sort-In r xs i)
]

module _ (w : World) where
  upload_all-IsQueued :
      (cs : List Chunk) (run : Run)
      → IsQueued w run
      → (upload_all w cs run).0 ≡ none
      → IsQueued w (upload_all w cs run).1
  unfolding upload_all
  upload_all-IsQueued [] run h e = h
  upload_all-IsQueued (c ∷ cs) run h e =
      let n = first-none (upload_chunk w c run).0 (upload_all w cs (upload_chunk w c run).1).0 e in
      upload_all-IsQueued cs (upload_chunk w c run).1 (upload_chunk-IsQueued w c run h n.0) n.1

  retry_failed_chunk-IsQueued :
      (c : Chunk) (run : Run)
      → IsQueued w run
      → (retry_failed_chunk w c run).0 ≡ none
      → IsQueued w (retry_failed_chunk w c run).1
  unfolding retry_failed_chunk
  retry_failed_chunk-IsQueued c run h e = elim (Option-cases (w.second_error c.position)) [
    | inr (x, f) ↦ absurd (ground arith)
    | inl f ↦
        elim (Outcome-cases
          (upload_chunk_with_retry (w.sending 1 c.position) c.position (w.hash c.content))) [
            | inl (x, g) ↦ absurd (ground arith)
            | inr (r, g) ↦
                rw (retry_failed_chunk, f, g)
                  (submit-IsQueued w 1 r (length c.content) run h
                    (rw (retry_failed_chunk, f, g) at e))
          ]
  ]

  retry_failed_chunks-IsQueued :
      (cs : List Chunk) (run : Run)
      → IsQueued w run
      → (retry_failed_chunks w cs run).0 ≡ none
      → IsQueued w (retry_failed_chunks w cs run).1
  unfolding retry_failed_chunks
  retry_failed_chunks-IsQueued [] run h e = h
  retry_failed_chunks-IsQueued (c ∷ cs) run h e =
      let n = proceed-ok (retry_failed_chunk w c run) (retry_failed_chunks w cs) e in
      subst (λ o. IsQueued w o.1) (sym n.1)
        (retry_failed_chunks-IsQueued cs (retry_failed_chunk w c run).1
          (retry_failed_chunk-IsQueued c run h n.0) (ap (λ o. o.0) (sym n.1) ∙ e))

  retry_round-Keeps :
      (round : ℕ) (run : Run)
      → round ≤ 3
      → (retry_round w round run).0 ≡ none
      → Keeps w run (retry_round w round run).1
  unfolding retry_round Keeps Fate
  retry_round-Keeps round run few h = elim (Option-cases (w.wait_error round)) [
    | inr (x, e) ↦ absurd (ground arith)
    | inl e ↦
        let k =
          retry_queue_once-Keeps w round run.retry_queue (record run { retry_queue = [] }) few
            (rw (retry_round, e) at h) in
        rw (retry_round, e)
          (
            k.0.0,
            λ r f. elim f [
              | inl c ↦ inl c
              | inr (inl i) ↦ k.1 r i
              | inr (inr n) ↦ k.0.1 r (inr (inr n))
            ],
          )
  ]

  -- When the rounds are over, a chunk is checked or among the failed.
  Decides : Run → Option Error × Run → Type 0
  Decides run o =
      (o.1.results ≡ run.results)
      × ((r : Uploaded) → Fate w run r → (IsChecked w r ⊎ (o.1.failed_positions ≢ [])))

  waits : (r : Uploaded) (q : List Uploaded) → In r q → map (λ q. q.position) q ≡ [] → ⊥
  waits r [] i e = i
  waits r (x ∷ q) i e = ground arith

  retry_rounds-Decides :
      (left round : ℕ) (run : Run)
      → left + round ≤ 4
      → (retry_rounds w left round run).0 ≡ none
      → Decides run (retry_rounds w left round run)
  unfolding retry_rounds Fate Decides Keeps
  retry_rounds-Decides zero round run few h = (
    refl,
    λ r f. elim f [
      | inl c ↦ inl c
      | inr (inl i) ↦ inr (λ e.
          waits r run.retry_queue i
            (nil_append run.failed_positions (map (λ q. q.position) run.retry_queue) e).1)
      | inr (inr n) ↦
          inr (λ e. n (nil_append run.failed_positions (map (λ q. q.position) run.retry_queue) e).0)
    ],
  )
  retry_rounds-Decides (suc left) round run few h = go run.retry_queue refl h (λ e.
      let n = proceed-ok (retry_round w round run) (retry_rounds w left (suc round)) e in
      let next = (retry_round w round run).1 in
      let k = retry_round-Keeps round run (omega arith) n.0 in
      let d =
        retry_rounds-Decides left (suc round) next (omega arith) (ap (λ o. o.0) (sym n.1) ∙ e) in
      subst (Decides run) (sym n.1) (d.0 ∙ k.0, λ r f. d.1 r (k.1 r f)))
    where
      more : Option Error × Run
      more = proceed (retry_round w round run) (retry_rounds w left (suc round))

      go :
          (q : List Uploaded)
          → run.retry_queue ≡ q
          → (elim q as (λ _. Option Error × Run) [ [] ↦ (none, run) | _ ∷ _ ↦ more ]).0 ≡ none
          → (more.0 ≡ none → Decides run more)
          → Decides run (elim q as (λ _. Option Error × Run) [ [] ↦ (none, run) | _ ∷ _ ↦ more ])
      go [] e n d = (
        refl,
        λ r f. elim f [
          | inl c ↦ inl c
          | inr (inl i) ↦ absurd (subst (In r) e i)
          | inr (inr m) ↦ inr m
        ],
      )
      go (x ∷ q) e n d = d n

  -- The results of a run that ends without an error have been checked.
  AllChecked : Option Error × Run → Type 0
  AllChecked o = o.0 ≡ none → (r : Uploaded) → In r o.1.results → IsChecked w r

  abort-AllChecked : (e : Error) (run : Run) → AllChecked (abort e run)
  unfolding abort AllChecked
  abort-AllChecked e run h = absurd (ground arith)

  module _ (file_id : ℕ) where
    persist-AllChecked :
        (run : Run)
        → ((r : Uploaded) → In r run.results → IsChecked w r)
        → AllChecked (persist w file_id run)
    unfolding persist AllChecked
    persist-AllChecked run c h = elim (Option-cases w.save_error) [
      | inr (x, e) ↦ absurd (ground arith)
      | inl e ↦ rw (persist, e) (λ r i. c r (sort-In r run.results i))
    ]

    finish-AllChecked :
        (run : Run)
        → ((r : Uploaded) → In r run.results → Fate w run r)
        → AllChecked (finish w file_id run)
    unfolding finish Decides
    finish-AllChecked run f =
        go (retry_rounds w 3 1 run) (retry_rounds-Decides 3 1 run (omega arith))
      where
        decided :
            (ps : List ℕ) (end : Run)
            → end.failed_positions ≡ ps
            → ((r : Uploaded) → In r end.results → (IsChecked w r ⊎ (end.failed_positions ≢ [])))
            → AllChecked (elim ps as (λ _. Option Error × Run) [
              | [] ↦ persist w file_id end
              | p ∷ qs ↦ abort (verification_failed (length (p ∷ qs))) end
            ])
        decided [] end e d =
            persist-AllChecked end (λ r i. elim (d r i) [ inl c ↦ c | inr n ↦ absurd (n e) ])
        decided (p ∷ ps) end e d = abort-AllChecked (verification_failed (length (p ∷ ps))) end

        go :
            (o : Option Error × Run)
            → (o.0 ≡ none → Decides run o)
            → AllChecked (elim o.0 as (λ _. Option Error × Run) [
              | some x ↦ abort x o.1
              | none ↦ elim o.1.failed_positions as (λ _. Option Error × Run) [
                | [] ↦ persist w file_id o.1
                | p ∷ qs ↦ abort (verification_failed (length (p ∷ qs))) o.1
              ]
            ])
        go (some x, end) d = abort-AllChecked x end
        go (none, end) d =
            let (same, fates) = d refl in
            decided end.failed_positions end refl (λ r i. fates r (f r (subst (In r) same i)))

    after_checks-AllChecked :
        (o : Option Error × Run)
        → (o.0 ≡ none → (r : Uploaded) → In r o.1.results → Fate w o.1 r)
        → AllChecked (after_checks w file_id o)
    unfolding after_checks
    after_checks-AllChecked (some e, run) f = abort-AllChecked e run
    after_checks-AllChecked (none, run) f = finish-AllChecked run (f refl)

    after_second-AllChecked :
        (o : Option Error × Run)
        → (o.0 ≡ none → IsQueued w o.1)
        → AllChecked (after_second w file_id o)
    unfolding after_second IsQueued Keeps
    after_second-AllChecked (some e, run) q = abort-AllChecked e run
    after_second-AllChecked (none, run) q =
        after_checks-AllChecked (verify_all w run.submitted run) (λ h r i.
          let k = verify_all-Keeps w run.submitted run h in
          k.1 r ((q refl).0 r (subst (In r) k.0.0 i)))

    after_upload-AllChecked :
        (o : Option Error × Run)
        → (o.0 ≡ none → IsQueued w o.1)
        → AllChecked (after_upload w file_id o)
    unfolding after_upload
    after_upload-AllChecked (some e, run) q = abort-AllChecked e run
    after_upload-AllChecked (none, run) q =
        after_second-AllChecked (retry_failed_chunks w run.failed_chunks run)
          (retry_failed_chunks-IsQueued run.failed_chunks run (q refl))

  -- What is recorded has passed a check.
  pub results-IsChecked :
      (file_id : ℕ) (cs : List Chunk) (r : Uploaded)
      → (upload w file_id cs).0 ≡ none
      → In r (upload w file_id cs).1.results
      → IsChecked w r
  unfolding upload AllChecked upload_chunks IsQueued
  results-IsChecked file_id cs r h i = elim (Option-cases w.storage_error) [
    | inr (x, e) ↦ absurd (ground arith)
    | inl e ↦
        after_upload-AllChecked file_id (upload_chunks w cs empty_run)
          (λ n. upload_all-IsQueued cs empty_run ((λ q j. j), refl, refl) (no_upload_error n))
          (rw (upload, e) at h) r (rw (upload, e) at i)
  ]
    where
      no_upload_error :
          (upload_chunks w cs empty_run).0 ≡ none → (upload_all w cs empty_run).0 ≡ none
      no_upload_error n =
          (first-none (upload_all w cs empty_run).0 w.context_error
            (first-none w.source_error (first (upload_all w cs empty_run).0 w.context_error) n).1).0
