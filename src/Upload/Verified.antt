-- ===== src/Upload/Verified.antt =====
-- A successful upload has checked every chunk that it stores.
use mathlib.Core.Path.{subst}
use pentaract.Prelude.{
  ℕ, ◌≤◌, ◌≡◌, ◌≢◌, refl, sym, ap, ◌∙◌, ◌⊎◌, inl, inr, none, List, [], ◌∷◌, ◌++◌, arith, Bool-cases,
  Option-cases, length,
}
use pentaract.Prelude.Members.{In}
use pentaract.Upload.Sent.{first-none}
use pentaract.OrderedJobs.Spec.{proceed-ok, Outcome-cases}
use pentaract.Upload.{Uploaded, upload_chunk_with_retry, verify_single_chunk}
use pentaract.Upload.Attempts.{IsVerified, verify_single_chunk_sound}
use pentaract.Upload.Run.{
  Chunk, World, Run, submit, upload_chunk, verify, verify_all, retry_queue_once, retry_verification,
  record_result, is_hash_mismatch,
}

In-append : (r : Uploaded) (xs ys : List Uploaded) → (In r xs ⊎ In r ys) → In r (xs ++ ys)
In-append r [] ys (inl h) = absurd h
In-append r [] ys (inr h) = h
In-append r (x ∷ xs) ys (inl (inl h)) = inl h
In-append r (x ∷ xs) ys (inl (inr h)) = inr (In-append r xs ys (inl h))
In-append r (x ∷ xs) ys (inr h) = inr (In-append r xs ys (inr h))

append-In : (r : Uploaded) (xs ys : List Uploaded) → In r (xs ++ ys) → (In r xs ⊎ In r ys)
append-In r [] ys h = inr h
append-In r (x ∷ xs) ys (inl h) = inl (inl h)
append-In r (x ∷ xs) ys (inr h) = elim (append-In r xs ys h) [ inl a ↦ inl (inr a) | inr b ↦ inr b ]

-- A prefix of a list of positions: nothing is ever taken out of the failed ones.
pub nil_append : (xs ys : List ℕ) → xs ++ ys ≡ [] → (xs ≡ []) × (ys ≡ [])
nil_append [] ys h = (refl, h)
nil_append (x ∷ xs) ys h = absurd (ground arith)

module _ (w : World) where
  -- One of the four rounds of checks passed.
  abbrev pub IsChecked : Uploaded → Type 0
  IsChecked r = (round : ℕ) × (round ≤ 3) × IsVerified w.hash (w.checking round r.position) r

  -- Every chunk that is recorded as sent is in the verifier's queue.
  unfoldable pub IsQueued : Run → Type 0
  IsQueued run =
      ((r : Uploaded) → In r run.results → In r run.submitted)
      × (run.retry_queue ≡ [])
      × (run.failed_positions ≡ [])

  pub submit-IsQueued :
      (round : ℕ) (r : Uploaded) (n : ℕ) (run : Run)
      → IsQueued run
      → (submit w round r (record_result r n run)).0 ≡ none
      → IsQueued (submit w round r (record_result r n run)).1
  unfolding submit record_result IsQueued
  submit-IsQueued round r n run h e = elim (Option-cases (w.submit_error round r.position)) [
    | inr (x, f) ↦ absurd (ground arith)
    | inl f ↦
        rw (submit, f)
          (
            (λ q i. In-append q run.submitted (r ∷ []) (elim (append-In q run.results (r ∷ []) i) [
              | inl a ↦ inl (h.0 q a)
              | inr b ↦ inr b
            ])),
            h.1,
            h.2,
          )
  ]

  pub upload_chunk-IsQueued :
      (c : Chunk) (run : Run)
      → IsQueued run
      → (upload_chunk w c run).0 ≡ none
      → IsQueued (upload_chunk w c run).1
  unfolding upload_chunk IsQueued
  upload_chunk-IsQueued c run h e =
      elim (Outcome-cases
        (upload_chunk_with_retry (w.sending 0 c.position) c.position (w.hash c.content))) [
          | inr (r, f) ↦
              rw (upload_chunk, f)
                (submit-IsQueued 0 r (length c.content) run h (rw (upload_chunk, f) at e))
          | inl (x, f) ↦ elim (Bool-cases (w.upload_ended c.position)) [
            | inl g ↦ absurd (ground arith)
            | inr g ↦ rw (upload_chunk, f, g) h
          ]
        ]

  -- Where a chunk that was sent stands: checked, waiting for another check, or among the failed.
  unfoldable pub Fate : Run → Uploaded → Type 0
  Fate run r = IsChecked r ⊎ (In r run.retry_queue ⊎ (run.failed_positions ≢ []))

  -- A step that passes over no chunk and forgets none.
  unfoldable pub Keeps : Run → Run → Type 0
  Keeps run run' = (run'.results ≡ run.results) × ((r : Uploaded) → Fate run r → Fate run' r)

  Keeps-queued :
      (r : Uploaded) (run : Run)
      → Keeps run (record run { retry_queue = run.retry_queue ++ (r ∷ []) })
  unfolding Keeps Fate
  Keeps-queued r run = (
    refl,
    λ q f. elim f [
      | inl c ↦ inl c
      | inr (inl i) ↦ inr (inl (In-append q run.retry_queue (r ∷ []) (inl i)))
      | inr (inr n) ↦ inr (inr n)
    ],
  )

  Keeps-failed :
      (ps : List ℕ) (run : Run)
      → Keeps run (record run { failed_positions = run.failed_positions ++ ps })
  unfolding Keeps Fate
  Keeps-failed ps run = (
    refl,
    λ q f. elim f [
      | inl c ↦ inl c
      | inr (inl i) ↦ inr (inl i)
      | inr (inr n) ↦ inr (inr (λ e. n (nil_append run.failed_positions ps e).0))
    ],
  )

  verify-Keeps :
      (r : Uploaded) (run : Run)
      → (verify w r run).0 ≡ none
      → Keeps run (verify w r run).1 × Fate (verify w r run).1 r
  unfolding verify Keeps Fate
  verify-Keeps r run h =
      elim (Option-cases (verify_single_chunk w.hash (w.checking 0 r.position) r)) [
        | inl e ↦
            rw (verify, e)
              (
                (refl, λ q f. f),
                inl (
                  0,
                  omega arith,
                  verify_single_chunk_sound w.hash (w.checking 0 r.position) r e,
                ),
              )
        | inr (x, e) ↦ elim (Option-cases (w.check_error 0 r.position)) [
          | inr (y, f) ↦ absurd (ground arith)
          | inl f ↦ elim (Bool-cases (is_hash_mismatch x)) [
            | inl m ↦ absurd (ground arith)
            | inr m ↦
                rw (verify, e, f, m)
                  (
                    Keeps-queued r run,
                    inr (inl (In-append r run.retry_queue (r ∷ []) (inr (inl refl)))),
                  )
          ]
        ]
      ]

  retry_verification-Keeps :
      (round : ℕ) (r : Uploaded) (run : Run)
      → round ≤ 3
      → (retry_verification w round r run).0 ≡ none
      → Keeps run (retry_verification w round r run).1 × Fate (retry_verification w round r run).1 r
  unfolding retry_verification Keeps Fate
  retry_verification-Keeps round r run few h =
      elim (Option-cases (verify_single_chunk w.hash (w.checking round r.position) r)) [
        | inl e ↦
            rw (retry_verification, e)
              (
                (refl, λ q f. f),
                inl (
                  round,
                  few,
                  verify_single_chunk_sound w.hash (w.checking round r.position) r e,
                ),
              )
        | inr (x, e) ↦ elim (Option-cases (w.check_error round r.position)) [
          | inr (y, f) ↦ absurd (ground arith)
          | inl f ↦ elim (Bool-cases (is_hash_mismatch x)) [
            | inl m ↦
                rw (retry_verification, e, f, m)
                  (
                    Keeps-failed (r.position ∷ []) run,
                    inr (
                        inr (λ n.
                          absurd
                            (ground (arith, nil_append run.failed_positions (r.position ∷ []) n)))),
                  )
            | inr m ↦
                rw (retry_verification, e, f, m)
                  (
                    Keeps-queued r run,
                    inr (inl (In-append r run.retry_queue (r ∷ []) (inr (inl refl)))),
                  )
          ]
        ]
      ]

  pub Keeps-trans : (a b c : Run) → Keeps a b → Keeps b c → Keeps a c
  unfolding Keeps
  Keeps-trans a b c f g = (g.0 ∙ f.0, λ r h. g.1 r (f.1 r h))

  pub verify_all-Keeps :
      (rs : List Uploaded) (run : Run)
      → (verify_all w rs run).0 ≡ none
      → Keeps run (verify_all w rs run).1
        × ((r : Uploaded) → In r rs → Fate (verify_all w rs run).1 r)
  unfolding verify_all Keeps
  verify_all-Keeps [] run h = ((refl, λ r f. f), λ r i. absurd i)
  verify_all-Keeps (r ∷ rs) run h =
      let n = first-none (verify w r run).0 (verify_all w rs (verify w r run).1).0 h in
      let here = verify-Keeps r run n.0 in
      let rest = verify_all-Keeps rs (verify w r run).1 n.1 in
      (
        Keeps-trans run (verify w r run).1 (verify_all w rs (verify w r run).1).1 here.0 rest.0,
        λ q i. elim i [
          | inl e ↦ subst (Fate (verify_all w rs (verify w r run).1).1) (sym e) (rest.0.1 r here.1)
          | inr j ↦ rest.1 q j
        ],
      )

  pub retry_queue_once-Keeps :
      (round : ℕ) (rs : List Uploaded) (run : Run)
      → round ≤ 3
      → (retry_queue_once w round rs run).0 ≡ none
      → Keeps run (retry_queue_once w round rs run).1
        × ((r : Uploaded) → In r rs → Fate (retry_queue_once w round rs run).1 r)
  unfolding retry_queue_once Keeps
  retry_queue_once-Keeps round [] run few h = ((refl, λ r f. f), λ r i. absurd i)
  retry_queue_once-Keeps round (r ∷ rs) run few h =
      let n = proceed-ok (retry_verification w round r run) (retry_queue_once w round rs) h in
      let next = (retry_verification w round r run).1 in
      let here = retry_verification-Keeps round r run few n.0 in
      let rest = retry_queue_once-Keeps round rs next few (ap (λ o. o.0) (sym n.1) ∙ h) in
      subst (λ o. Keeps run o.1 × ((q : Uploaded) → In q (r ∷ rs) → Fate o.1 q)) (sym n.1)
        (
          Keeps-trans run next (retry_queue_once w round rs next).1 here.0 rest.0,
          λ q i. elim i [
            | inl e ↦ subst (Fate (retry_queue_once w round rs next).1) (sym e) (rest.0.1 r here.1)
            | inr j ↦ rest.1 q j
          ],
        )
