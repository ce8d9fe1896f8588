-- ===== src/Upload/Checked.antt =====
-- What a successful upload stores, in terms of the chunks that it was given.
use mathlib.Core.Path.{subst}
use pentaract.Prelude.{
  ℕ, ◌≤◌, ◌≡◌, refl, ap, sym, ◌∙◌, ◌⊎◌, inl, inr, Option, none, some, List, [], ◌∷◌, ◌++◌, map,
  arith, leb, Option-cases, Bool-cases,
}
use pentaract.Prelude.Members.{In}
use pentaract.OrderedJobs.Spec.{ok}
use pentaract.Domain.{FileChunk}
use pentaract.Upload.{Error, Uploaded}
use pentaract.Upload.Attempts.{WasSent, upload_chunk_with_retry_sound}
use pentaract.Upload.Cleanup.{Ends, upload-Ends}
use pentaract.Upload.Run.{
  Chunk, World, Run, upload, upload_all, first, upload_chunks, retry_failed_chunks, sort, insert,
  file_chunk, empty_run, after_upload, after_second, abort,
}
use pentaract.Upload.Sent.{
  first-none, upload_all-failed, sending_of, first_sent, first_failed, second_sent, all_sent,
  retry_failed_chunks-sent, first_sent_complete, first_sent_sound, first_failed_sound,
  second_sent_sound,
}
use pentaract.Upload.Stored.{results-IsChecked, sort-In}
use pentaract.Upload.Verified.{IsChecked}

In-append : (r : Uploaded) (xs ys : List Uploaded) → In r (xs ++ ys) → In r xs ⊎ In r ys
In-append r [] ys h = inr h
In-append r (x ∷ xs) ys (inl h) = inl (inl h)
In-append r (x ∷ xs) ys (inr h) = elim (In-append r xs ys h) [ inl a ↦ inl (inr a) | inr b ↦ inr b ]

append-In : (r : Uploaded) (xs ys : List Uploaded) → In r xs ⊎ In r ys → In r (xs ++ ys)
append-In r [] ys (inl h) = absurd h
append-In r [] ys (inr h) = h
append-In r (x ∷ xs) ys (inl (inl h)) = inl h
append-In r (x ∷ xs) ys (inl (inr h)) = inr (append-In r xs ys (inl h))
append-In r (x ∷ xs) ys (inr h) = inr (append-In r xs ys (inr h))

In-insert : (r q : Uploaded) (xs : List Uploaded) → (r ≡ q) ⊎ In r xs → In r (insert q xs)
unfolding insert
In-insert r q [] h = h
In-insert r q (x ∷ xs) h = elim (Bool-cases (leb q.position x.position)) [
  | inl e ↦ rw (insert, e) h
  | inr e ↦
      rw (insert, e)
        (elim h [
          | inl a ↦ inr (In-insert r q xs (inl a))
          | inr (inl b) ↦ inl b
          | inr (inr c) ↦ inr (In-insert r q xs (inr c))
        ])
]

In-sort : (r : Uploaded) (xs : List Uploaded) → In r xs → In r (sort xs)
unfolding sort
In-sort r [] h = h
In-sort r (x ∷ xs) (inl e) = In-insert r x (sort xs) (inl e)
In-sort r (x ∷ xs) (inr i) = In-insert r x (sort xs) (inr (In-sort r xs i))

In-rows :
    (file_id : ℕ) (r : Uploaded) (rs : List Uploaded)
    → In r rs
    → In (file_chunk file_id r) (map (file_chunk file_id) rs)
In-rows file_id r [] i = i
In-rows file_id r (x ∷ rs) (inl e) = inl (ap (file_chunk file_id) e)
In-rows file_id r (x ∷ rs) (inr i) = inr (In-rows file_id r rs i)

rows-In :
    (file_id : ℕ) (row : FileChunk) (rs : List Uploaded)
    → In row (map (file_chunk file_id) rs)
    → (r : Uploaded) × In r rs × (row ≡ file_chunk file_id r)
rows-In file_id row [] i = absurd i
rows-In file_id row (x ∷ rs) (inl e) = (x, inl refl, e)
rows-In file_id row (x ∷ rs) (inr i) = let (r, m, e) = rows-In file_id row rs i in (r, inr m, e)

module _ (w : World) where
  -- Telegram took the chunk in one of five attempts of one of the two phases, and one of three downloads in one
  -- of the four rounds of checks gave bytes with the hash of the chunk's own bytes.
  abbrev pub IsCopyOf : Chunk → Uploaded → Type 0
  IsCopyOf c r =
      (r.position ≡ c.position)
      × ((phase : ℕ) × (phase ≤ 1)
          × (k : ℕ) × (1 ≤ k)
          × (k ≤ 5)
          × WasSent (w.sending phase c.position) k r)
      × ((round : ℕ) × (round ≤ 3)
          × (k : ℕ) × (k ≤ 2)
          × (content : List ℕ) × ((w.checking round c.position).downloaded k ≡ ok content)
          × (w.hash content ≡ w.hash c.content))

  sent-IsCopyOf :
      (phase : ℕ) (c : Chunk) (r : Uploaded)
      → phase ≤ 1
      → sending_of w phase c ≡ ok r
      → IsChecked w r
      → IsCopyOf c r
  sent-IsCopyOf phase c r l h (round, few, (k, m, content, d, e)) =
      let (p, q, tried, f) =
        upload_chunk_with_retry_sound (w.sending phase c.position) c.position (w.hash c.content) r
          h in
      (
        p,
        let (a, b, x, s) = tried in (phase, l, a, b, x, s),
        (
          round,
          few,
          k,
          m,
          content,
          subst (λ n. (w.checking round n).downloaded k ≡ ok content) p d,
          e ∙ q,
        ),
      )

  -- Where nothing fails, every chunk is sent, and what is sent is one of the chunks.
  second_phase :
      (cs : List Chunk) (run : Run)
      → (retry_failed_chunks w (first_failed w cs) run).0 ≡ none
      → (c : Chunk) → In c cs
      → (phase : ℕ) × (phase ≤ 1)
        × (r : Uploaded) × In r (first_sent w cs ++ second_sent w (first_failed w cs))
        × (sending_of w phase c ≡ ok r)
  second_phase cs run h c i = elim (first_sent_complete w cs c i) [
    | inl (r, m, e) ↦ (
      0,
      omega arith,
      r,
      append-In r (first_sent w cs) (second_sent w (first_failed w cs)) (inl m),
      e,
    )
    | inr j ↦
        let (r, m, e) = retry_failed_chunks-sent w (first_failed w cs) run h c j in
        (
          1,
          omega arith,
          r,
          append-In r (first_sent w cs) (second_sent w (first_failed w cs)) (inr m),
          e,
        )
  ]

  whence :
      (cs : List Chunk) (r : Uploaded)
      → In r (first_sent w cs ++ second_sent w (first_failed w cs))
      → (c : Chunk) × In c cs × (phase : ℕ) × (phase ≤ 1) × (sending_of w phase c ≡ ok r)
  whence cs r i = elim (In-append r (first_sent w cs) (second_sent w (first_failed w cs)) i) [
    | inl a ↦ let (c, m, e) = first_sent_sound w cs r a in (c, m, 0, omega arith, e)
    | inr b ↦
        let (c, m, e) = second_sent_sound w (first_failed w cs) r b in
        (c, first_failed_sound w cs c m, 1, omega arith, e)
  ]

  second_none :
      (file_id : ℕ) (o : Option Error × Run) → (after_second w file_id o).0 ≡ none → o.0 ≡ none
  unfolding after_second abort
  second_none file_id (some e, run) h = absurd (ground arith)
  second_none file_id (none, run) h = refl

  first_none :
      (file_id : ℕ) (o : Option Error × Run)
      → (after_upload w file_id o).0 ≡ none
      → (o.0 ≡ none) × ((retry_failed_chunks w o.1.failed_chunks o.1).0 ≡ none)
  unfolding after_upload abort
  first_none file_id (some e, run) h = absurd (ground arith)
  first_none file_id (none, run) h =
      (refl, second_none file_id (retry_failed_chunks w run.failed_chunks run) h)

  -- In a successful upload both phases end without an error.
  phases :
      (file_id : ℕ) (cs : List Chunk)
      → (upload w file_id cs).0 ≡ none
      → (all_sent w cs ≡ first_sent w cs ++ second_sent w (first_failed w cs))
        × ((run : Run) × ((retry_failed_chunks w (first_failed w cs) run).0 ≡ none))
  unfolding upload all_sent upload_chunks first_sent first_failed second_sent
  phases file_id cs h = elim (Option-cases w.storage_error) [
    | inr (x, e) ↦ absurd (ground arith)
    | inl e ↦
        let run = (upload_chunks w cs empty_run).1 in
        let (a, b) = first_none file_id (upload_chunks w cs empty_run) (rw (upload, e) at h) in
        let failed : run.failed_chunks ≡ first_failed w cs =
          upload_all-failed w cs empty_run (no_upload_error a) in
        (
          rw (all_sent, e, a) refl,
          (run, subst (λ l. (retry_failed_chunks w l run).0 ≡ none) failed b),
        )
  ]
    where
      no_upload_error :
          (upload_chunks w cs empty_run).0 ≡ none → (upload_all w cs empty_run).0 ≡ none
      no_upload_error n =
          (first-none (upload_all w cs empty_run).0 w.context_error
            (first-none w.source_error (first (upload_all w cs empty_run).0 w.context_error) n).1).0

  -- The end of an upload, on success.
  ended :
      (file_id : ℕ) (sent : List Uploaded) (o : Option Error × Run)
      → o.0 ≡ none
      → Ends file_id sent o
      → ((r : Uploaded) → In r sent → In r o.1.results)
        × ((r : Uploaded) → In r o.1.results → In r sent)
        × (o.1.stored ≡ map (file_chunk file_id) o.1.results)
  ended file_id sent (some e, run) h s = absurd (ground arith)
  ended file_id sent (none, run) h (rs, p, a, b, c) = (
    λ r i. subst (In r) (sym a) (elim p [
      | inl e ↦ subst (In r) (sym e) i
      | inr e ↦ subst (In r) (sym e) (In-sort r sent i)
    ]),
    λ r i.
        let j = subst (In r) a i in
        elim p [ inl e ↦ subst (In r) e j | inr e ↦ sort-In r sent (subst (In r) e j) ],
    b ∙ ap (map (file_chunk file_id)) (sym a),
  )

  -- A successful upload has written a row for every chunk that it was given, and no others. For each, Telegram took
  -- the chunk in one of five attempts of one of the two phases and gave the ids of the row, and in one
  -- of the four rounds of checks one of three downloads for its position gave bytes whose hash is that
  -- of the chunk's own bytes.
  pub upload-IsChecked :
      (file_id : ℕ) (cs : List Chunk)
      → (upload w file_id cs).0 ≡ none
      → ((c : Chunk)
          → In c cs
          → (r : Uploaded) × In (file_chunk file_id r) (upload w file_id cs).1.stored
            × IsCopyOf c r)
        × ((row : FileChunk)
            → In row (upload w file_id cs).1.stored
            → (c : Chunk) × In c cs × (r : Uploaded) × (row ≡ file_chunk file_id r) × IsCopyOf c r)
  upload-IsChecked file_id cs h =
      let (all, (run, ok_second)) = phases file_id cs h in
      let (kept, only, rows) =
        ended file_id (all_sent w cs) (upload w file_id cs) h (upload-Ends w file_id cs) in
      (
        λ c i.
            let (phase, l, r, m, e) = second_phase cs run ok_second c i in
            let there = kept r (subst (In r) (sym all) m) in
            (
              r,
              subst (In (file_chunk file_id r)) (sym rows)
                  (In-rows file_id r (upload w file_id cs).1.results there),
              sent-IsCopyOf phase c r l e (results-IsChecked w file_id cs r h there),
            ),
        λ row i.
            let (r, m, e) =
              rows-In file_id row (upload w file_id cs).1.results (subst (In row) rows i) in
            let (c, j, phase, l, s) = whence cs r (subst (In r) all (only r m)) in
            (c, j, r, e, sent-IsCopyOf phase c r l s (results-IsChecked w file_id cs r h m)),
      )
