-- ===== src/Upload/Sent.antt =====
-- What an upload sends to Telegram, told without the state of `uploadRun`: the chunks of the parallel phase,
-- and those of the sequential one up to its first error.
use pentaract.Prelude.{
  ℕ, ◌≡◌, refl, ap, ◌∙◌, ◌⊎◌, inl, inr, Option, none, some, List, [], ◌∷◌, ◌++◌, append_assoc,
  append-nil, arith, Option-cases, Bool-cases, sym, length,
}
use pentaract.Prelude.Members.{In}
use pentaract.OrderedJobs.Spec.{Outcome, ok, err, Outcome-cases}
use pentaract.Upload.{Error, Uploaded, upload_chunk_with_retry}
use pentaract.Upload.Run.{
  Chunk, World, Run, submit, record_result, upload_chunk, upload_all, upload_chunks,
  retry_failed_chunk, retry_failed_chunks, empty_run, first,
}

pub first-none : (a b : Option Error) → first a b ≡ none → (a ≡ none) × (b ≡ none)
first-none none b h = (refl, h)
first-none (some x) b h = absurd (ground arith)

module _ (w : World) where
  -- A chunk sent in a phase, with the hash of its own bytes.
  abbrev pub sending_of : ℕ → Chunk → Outcome Error Uploaded
  sending_of phase c =
      upload_chunk_with_retry (w.sending phase c.position) c.position (w.hash c.content)

  unfoldable pub first_sent : List Chunk → List Uploaded
  first_sent [] = []
  first_sent (c ∷ cs) = elim (sending_of 0 c) [ err e ↦ first_sent cs | ok r ↦ r ∷ first_sent cs ]

  unfoldable pub first_failed : List Chunk → List Chunk
  first_failed [] = []
  first_failed (c ∷ cs) = elim (sending_of 0 c) [
    | err e ↦ c ∷ first_failed cs
    | ok r ↦ first_failed cs
  ]

  unfoldable pub second_sent : List Chunk → List Uploaded
  second_sent [] = []
  second_sent (c ∷ cs) = elim (w.second_error c.position) [
    | some e ↦ []
    | none ↦ elim (sending_of 1 c) [
      | err e ↦ []
      | ok r ↦ r ∷ elim (w.submit_error 1 r.position) [ some e ↦ [] | none ↦ second_sent cs ]
    ]
  ]

  -- All that is sent: the second phase is for the chunks that failed in the first, if that one ends well.
  unfoldable pub all_sent : List Chunk → List Uploaded
  all_sent cs = elim w.storage_error [
    | some e ↦ []
    | none ↦ first_sent cs ++ elim (upload_chunks w cs empty_run).0 [
      | some e ↦ []
      | none ↦ second_sent (first_failed cs)
    ]
  ]

  submit-results :
      (phase : ℕ) (r : Uploaded) (run : Run)
      → ((submit w phase r run).1.results ≡ run.results)
        × ((submit w phase r run).1.failed_chunks ≡ run.failed_chunks)
        × ((submit w phase r run).0 ≡ w.submit_error phase r.position)
  unfolding submit
  submit-results phase r run = elim (Option-cases (w.submit_error phase r.position)) [
    | inl e ↦ rw (submit, e) (refl, refl, refl)
    | inr (x, e) ↦ rw (submit, e) (refl, refl, refl)
  ]

  pub upload_all-results :
      (cs : List Chunk) (run : Run) → (upload_all w cs run).1.results ≡ run.results ++ first_sent cs
  unfolding upload_all upload_chunk submit record_result first_sent
  upload_all-results [] run = sym (append-nil run.results)
  upload_all-results (c ∷ cs) run =
      upload_all-results cs (upload_chunk w c run).1 ∙ elim (Outcome-cases (sending_of 0 c)) [
        | inr (r, f) ↦
            rw (upload_chunk, first_sent, f)
              (ap (λ l. l ++ first_sent cs)
                  (submit-results 0 r (record_result r (length c.content) run)).0
                ∙ append_assoc run.results (r ∷ []) (first_sent cs))
        | inl (x, f) ↦ elim (Bool-cases (w.upload_ended c.position)) [
          | inl g ↦ rw (upload_chunk, first_sent, f, g)
          | inr g ↦ rw (upload_chunk, first_sent, f, g)
        ]
      ]

  pub upload_all-failed :
      (cs : List Chunk) (run : Run)
      → (upload_all w cs run).0 ≡ none
      → (upload_all w cs run).1.failed_chunks ≡ run.failed_chunks ++ first_failed cs
  unfolding upload_all upload_chunk submit record_result first_failed
  upload_all-failed [] run h = sym (append-nil run.failed_chunks)
  upload_all-failed (c ∷ cs) run h =
      let next = (upload_chunk w c run).1 in
      let n = first-none (upload_chunk w c run).0 (upload_all w cs next).0 h in
      upload_all-failed cs next n.1 ∙ elim (Outcome-cases (sending_of 0 c)) [
        | inr (r, f) ↦
            rw (upload_chunk, first_failed, f)
              (ap (λ l. l ++ first_failed cs)
                (submit-results 0 r (record_result r (length c.content) run)).1)
        | inl (x, f) ↦ elim (Bool-cases (w.upload_ended c.position)) [
          | inl g ↦ absurd (ground arith)
          | inr g ↦
              rw (upload_chunk, first_failed, f, g)
                (append_assoc run.failed_chunks (c ∷ []) (first_failed cs))
        ]
      ]

  pub retry_failed_chunks-results :
      (cs : List Chunk) (run : Run)
      → (retry_failed_chunks w cs run).1.results ≡ run.results ++ second_sent cs
  unfolding retry_failed_chunks retry_failed_chunk submit record_result second_sent
  retry_failed_chunks-results [] run = sym (append-nil run.results)
  retry_failed_chunks-results (c ∷ cs) run = elim (Option-cases (w.second_error c.position)) [
    | inr (x, e) ↦ rw (retry_failed_chunk, second_sent, e) (sym (append-nil run.results))
    | inl e ↦ elim (Outcome-cases (sending_of 1 c)) [
      | inl (x, f) ↦ rw (retry_failed_chunk, second_sent, e, f) (sym (append-nil run.results))
      | inr (r, f) ↦ elim (Option-cases (w.submit_error 1 r.position)) [
        | inr (x, g) ↦ rw (retry_failed_chunk, submit, second_sent, e, f, g) refl
        | inl g ↦
            rw (retry_failed_chunk, submit, second_sent, e, f, g)
              (retry_failed_chunks-results cs (record (record_result r (length c.content) run) {
                submitted = run.submitted ++ (r ∷ []);
              })
                ∙ append_assoc run.results (r ∷ []) (second_sent cs))
      ]
    ]
  ]

  -- Where the second phase ends well, every chunk of it was sent.
  pub retry_failed_chunks-sent :
      (cs : List Chunk) (run : Run)
      → (retry_failed_chunks w cs run).0 ≡ none
      → (c : Chunk) → In c cs
      → (r : Uploaded) × In r (second_sent cs) × (sending_of 1 c ≡ ok r)
  unfolding retry_failed_chunks retry_failed_chunk second_sent
  retry_failed_chunks-sent [] run h c i = absurd i
  retry_failed_chunks-sent (d ∷ cs) run h c i = elim (Option-cases (w.second_error d.position)) [
    | inr (x, e) ↦ absurd (ground arith)
    | inl e ↦ elim (Outcome-cases (sending_of 1 d)) [
      | inl (x, f) ↦ absurd (ground arith)
      | inr (r, f) ↦ elim (Option-cases (w.submit_error 1 r.position)) [
        | inr (x, g) ↦
            absurd (ground (arith, (submit-results 1 r (record_result r (length d.content) run)).2))
        | inl g ↦
            let next = record (record_result r (length d.content) run) {
              submitted = run.submitted ++ (r ∷ []);
            } in
            rw (second_sent, e, f, g)
              (elim i [
                | inl same ↦ (r, inl refl, ap (sending_of 1) same ∙ f)
                | inr j ↦
                    let (q, m, s) =
                      retry_failed_chunks-sent cs next
                        (rw (retry_failed_chunk, submit, e, f, g) at h) c j in
                    (q, inr m, s)
              ])
      ]
    ]
  ]

  pub first_sent_complete :
      (cs : List Chunk) (c : Chunk)
      → In c cs
      → ((r : Uploaded) × In r (first_sent cs) × (sending_of 0 c ≡ ok r)) ⊎ In c (first_failed cs)
  unfolding first_sent first_failed
  first_sent_complete [] c i = absurd i
  first_sent_complete (d ∷ cs) c i = elim (Outcome-cases (sending_of 0 d)) [
    | inl (x, f) ↦
        rw (first_sent, first_failed, f)
          (elim i [
            | inl same ↦ inr (inl same)
            | inr j ↦ elim (first_sent_complete cs c j) [ inl a ↦ inl a | inr b ↦ inr (inr b) ]
          ])
    | inr (r, f) ↦
        rw (first_sent, first_failed, f)
          (elim i [
            | inl same ↦ inl (r, inl refl, ap (sending_of 0) same ∙ f)
            | inr j ↦ elim (first_sent_complete cs c j) [
              | inl (q, m, s) ↦ inl (q, inr m, s)
              | inr b ↦ inr b
            ]
          ])
  ]

  -- A result at the head of a list, or one of the rest.
  sent_at :
      (phase : ℕ) (d : Chunk) (cs : List Chunk) (r q : Uploaded) (rest : List Uploaded)
      → sending_of phase d ≡ ok q
      → (r ≡ q) ⊎ In r rest
      → (In r rest → (c : Chunk) × In c cs × (sending_of phase c ≡ ok r))
      → (c : Chunk) × In c (d ∷ cs) × (sending_of phase c ≡ ok r)
  sent_at phase d cs r q rest f (inl same) more = (d, inl refl, f ∙ ap ok (sym same))
  sent_at phase d cs r q rest f (inr j) more = let (c, m, e) = more j in (c, inr m, e)

  pub first_sent_sound :
      (cs : List Chunk) (r : Uploaded)
      → In r (first_sent cs)
      → (c : Chunk) × In c cs × (sending_of 0 c ≡ ok r)
  unfolding first_sent
  first_sent_sound [] r i = absurd i
  first_sent_sound (d ∷ cs) r i = elim (Outcome-cases (sending_of 0 d)) [
    | inl (x, f) ↦ let (c, m, e) = first_sent_sound cs r (rw (first_sent, f) at i) in (c, inr m, e)
    | inr (q, f) ↦
        sent_at 0 d cs r q (first_sent cs) f (rw (first_sent, f) at i) (first_sent_sound cs r)
  ]

  pub first_failed_sound : (cs : List Chunk) (c : Chunk) → In c (first_failed cs) → In c cs
  unfolding first_failed
  first_failed_sound [] c i = i
  first_failed_sound (d ∷ cs) c i = elim (Outcome-cases (sending_of 0 d)) [
    | inr (q, f) ↦ inr (first_failed_sound cs c (rw (first_failed, f) at i))
    | inl (x, f) ↦
        let m : (c ≡ d) ⊎ In c (first_failed cs) = rw (first_failed, f) at i in
        elim m [ inl same ↦ inl same | inr j ↦ inr (first_failed_sound cs c j) ]
  ]

  pub second_sent_sound :
      (cs : List Chunk) (r : Uploaded)
      → In r (second_sent cs)
      → (c : Chunk) × In c cs × (sending_of 1 c ≡ ok r)
  unfolding second_sent
  second_sent_sound [] r i = absurd i
  second_sent_sound (d ∷ cs) r i = elim (Option-cases (w.second_error d.position)) [
    | inr (x, e) ↦ absurd (rw (second_sent, e) at i)
    | inl e ↦ elim (Outcome-cases (sending_of 1 d)) [
      | inl (x, f) ↦ absurd (rw (second_sent, e, f) at i)
      | inr (q, f) ↦ elim (Option-cases (w.submit_error 1 q.position)) [
        | inr (x, g) ↦ sent_at 1 d cs r q [] f (rw (second_sent, e, f, g) at i) (λ m. absurd m)
        | inl g ↦
            sent_at 1 d cs r q (second_sent cs) f (rw (second_sent, e, f, g) at i)
              (second_sent_sound cs r)
      ]
    ]
  ]
