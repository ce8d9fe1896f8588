-- ===== src/Upload/Run.antt =====
-- `ChunkUploader.Upload`, phase by phase. The chunks of the parallel phase are given in the order in
-- which their uploads end. The verifier works while the uploads run: here its checks are made at
-- `stop`, in the order of the queue, since a check reads and changes nothing of an upload. The circuit
-- breaker only delays them.
use pentaract.Prelude.{
  ℕ, zero, suc, ◌+◌, Bool, true, false, Option, none, some, List, [], ◌∷◌, ◌++◌, map, if◌then◌else◌,
  leb, length,
}
use pentaract.OrderedJobs.Spec.{ok, err, proceed}
use pentaract.Domain.{FileChunk}
use pentaract.Upload.{
  Error, second_round, verification_failed, hash_mismatch, Uploaded, Sending, Checking,
  upload_chunk_with_retry, verify_single_chunk,
}

-- One piece of the source; also failedChunkInfo, whose hash is that of its bytes.
pub record Chunk : Type 0 where
  pub position : ℕ
  pub content : List ℕ

-- What the outside answers: per round and position the sending and the checking of a chunk, and at
-- each point where the code asks for it the error of an ended context.
pub record World : Type 0 where
  pub hash : List ℕ → List ℕ
  pub storage_error : Option Error
  pub sending : ℕ → ℕ → Sending
  pub checking : ℕ → ℕ → Checking
  pub upload_ended : ℕ → Bool
  pub submit_error : ℕ → ℕ → Option Error
  pub source_error : Option Error
  pub context_error : Option Error
  pub second_error : ℕ → Option Error
  pub check_error : ℕ → ℕ → Option Error
  pub wait_error : ℕ → Option Error
  pub save_error : Option Error

-- UploadProgress, without the byte total of the request.
pub record Progress : Type 0 where
  pub total_chunks : ℕ
  pub uploaded_chunks : ℕ
  pub uploaded_bytes : ℕ
  pub verification_total_chunks : ℕ
  pub verified_chunks : ℕ

-- uploadRun with its verifier, the rows written and the messages given to the clean-up.
pub record Run : Type 0 where
  pub results : List Uploaded
  pub failed_chunks : List Chunk
  pub submitted : List Uploaded
  pub retry_queue : List Uploaded
  pub failed_positions : List ℕ
  pub progress : Progress
  pub stored : List FileChunk
  pub cleaned : List ℕ

unfoldable pub chunk_uploaded : ℕ → Progress → Progress
chunk_uploaded n p = record p {
  uploaded_chunks = suc p.uploaded_chunks;
  uploaded_bytes = p.uploaded_bytes + n;
  verification_total_chunks = suc p.verification_total_chunks;
}

unfoldable pub chunk_verified : Progress → Progress
chunk_verified p = record p { verified_chunks = suc p.verified_chunks }

unfoldable pub record_result : Uploaded → ℕ → Run → Run
unfolding chunk_uploaded
record_result r n run = record run {
  results = run.results ++ (r ∷ []);
  progress = chunk_uploaded n run.progress;
}

-- The first of two errors, as an errgroup keeps it.
abbrev pub first : Option Error → Option Error → Option Error
first (some e) later = some e
first none later = later

unfoldable pub is_hash_mismatch : Error → Bool
is_hash_mismatch (hash_mismatch p) = true
is_hash_mismatch _ = false

-- `cleanupAll`: the messages of all results are given to the deleter.
unfoldable pub cleanup_all : Run → Run
cleanup_all run = record run {
  cleaned = run.cleaned ++ map (λ r. r.telegram_message_id) run.results;
}

-- sort.Slice by position.
unfoldable pub insert : Uploaded → List Uploaded → List Uploaded
insert r [] = r ∷ []
insert r (x ∷ xs) =
    let rest = insert r xs in if leb r.position x.position then r ∷ x ∷ xs else x ∷ rest

unfoldable pub sort : List Uploaded → List Uploaded
unfolding insert
sort [] = []
sort (r ∷ rs) = insert r (sort rs)

unfoldable pub file_chunk : ℕ → Uploaded → FileChunk
file_chunk file_id r = record {
  id = 0;
  file_id = file_id;
  telegram_file_id = r.telegram_file_id;
  telegram_message_id = r.telegram_message_id;
  position = r.position;
}

-- `abort`. The checks that it still waits for are left out: their error is dropped.
unfoldable pub abort : Error → Run → Option Error × Run
unfolding cleanup_all
abort e run = (some e, cleanup_all run)

abbrev pub empty_run : Run
empty_run = record {
  results = [];
  failed_chunks = [];
  submitted = [];
  retry_queue = [];
  failed_positions = [];
  progress = record {
    total_chunks = 0;
    uploaded_chunks = 0;
    uploaded_bytes = 0;
    verification_total_chunks = 0;
    verified_chunks = 0;
  };
  stored = [];
  cleaned = [];
}

-- 0 is the number of the parallel phase and 1 of the sequential one, in `sending` and `submit_error`.
module _ (w : World) where
  unfoldable pub submit : ℕ → Uploaded → Run → Option Error × Run
  submit round r run = elim (w.submit_error round r.position) [
    | some e ↦ (some e, run)
    | none ↦ (none, record run { submitted = run.submitted ++ (r ∷ []) })
  ]

  unfoldable pub upload_chunk : Chunk → Run → Option Error × Run
  unfolding submit record_result
  upload_chunk c run =
      elim (upload_chunk_with_retry (w.sending 0 c.position) c.position (w.hash c.content)) [
        | ok r ↦ submit 0 r (record_result r (length c.content) run)
        | err e ↦
            if w.upload_ended c.position
            then (some e, run)
            else (none, record run { failed_chunks = run.failed_chunks ++ (c ∷ []) })
      ]

  unfoldable pub upload_all : List Chunk → Run → Option Error × Run
  unfolding upload_chunk
  upload_all [] run = (none, run)
  upload_all (c ∷ cs) run =
      let (e, run') = upload_chunk c run in
      let (later, run'') = upload_all cs run' in (first e later, run'')

  unfoldable pub upload_chunks : List Chunk → Run → Option Error × Run
  unfolding upload_all
  upload_chunks cs run =
      let (e, run') = upload_all cs run in
      (
        first w.source_error (first e w.context_error),
        record run' { progress = record run'.progress { total_chunks = length cs } },
      )

  -- The body of the loop, with its early returns.
  unfoldable pub retry_failed_chunk : Chunk → Run → Option Error × Run
  unfolding submit record_result
  retry_failed_chunk c run = elim (w.second_error c.position) [
    | some e ↦ (some e, run)
    | none ↦ elim (upload_chunk_with_retry (w.sending 1 c.position) c.position (w.hash c.content)) [
      | err e ↦ (some (second_round e), run)
      | ok r ↦ submit 1 r (record_result r (length c.content) run)
    ]
  ]

  unfoldable pub retry_failed_chunks : List Chunk → Run → Option Error × Run
  unfolding retry_failed_chunk
  retry_failed_chunks [] run = (none, run)
  retry_failed_chunks (c ∷ cs) run = proceed (retry_failed_chunk c run) (retry_failed_chunks cs)

  -- `verify` of the pipeline.
  unfoldable pub verify : Uploaded → Run → Option Error × Run
  unfolding chunk_verified is_hash_mismatch
  verify r run = elim (verify_single_chunk w.hash (w.checking 0 r.position) r) [
    | none ↦ (none, record run { progress = chunk_verified run.progress })
    | some e ↦ elim (w.check_error 0 r.position) [
      | some x ↦ (some e, run)
      | none ↦
          if is_hash_mismatch e
          then (some e, record run { failed_positions = run.failed_positions ++ (r.position ∷ []) })
          else (none, record run { retry_queue = run.retry_queue ++ (r ∷ []) })
    ]
  ]

  -- `stop`: every check that was submitted.
  unfoldable pub verify_all : List Uploaded → Run → Option Error × Run
  unfolding verify
  verify_all [] run = (none, run)
  verify_all (r ∷ rs) run =
      let (e, run') = verify r run in
      let (later, run'') = verify_all rs run' in (first e later, run'')

  -- One round over the queue: the chunks that fail again wait in `retry_queue` for the next round.
  unfoldable pub retry_verification : ℕ → Uploaded → Run → Option Error × Run
  unfolding chunk_verified is_hash_mismatch
  retry_verification round r run =
      elim (verify_single_chunk w.hash (w.checking round r.position) r) [
        | none ↦ (none, record run { progress = chunk_verified run.progress })
        | some e ↦ elim (w.check_error round r.position) [
          | some x ↦ (some x, run)
          | none ↦
              if is_hash_mismatch e
              then (
                none,
                record run { failed_positions = run.failed_positions ++ (r.position ∷ []) },
              )
              else (none, record run { retry_queue = run.retry_queue ++ (r ∷ []) })
        ]
      ]

  unfoldable pub retry_queue_once : ℕ → List Uploaded → Run → Option Error × Run
  unfolding retry_verification
  retry_queue_once round [] run = (none, run)
  retry_queue_once round (r ∷ rs) run =
      proceed (retry_verification round r run) (retry_queue_once round rs)

  -- The wait before a round, and the round.
  unfoldable pub retry_round : ℕ → Run → Option Error × Run
  unfolding retry_queue_once
  retry_round round run = elim (w.wait_error round) [
    | some x ↦ (some x, run)
    | none ↦ retry_queue_once round run.retry_queue (record run { retry_queue = [] })
  ]

  -- The rounds, of which `left` are still to come; what is left in the queue has failed.
  unfoldable pub retry_rounds : ℕ → ℕ → Run → Option Error × Run
  unfolding retry_round
  retry_rounds zero round run = (
    none,
    record run {
      failed_positions = run.failed_positions ++ map (λ r. r.position) run.retry_queue;
      retry_queue = [];
    },
  )
  retry_rounds (suc left) round run =
      let more = proceed (retry_round round run) (retry_rounds left (suc round)) in
      elim run.retry_queue [ [] ↦ (none, run) | _ ∷ _ ↦ more ]

  unfoldable pub persist : ℕ → Run → Option Error × Run
  unfolding sort cleanup_all file_chunk
  persist file_id run =
      let sorted = record run { results = sort run.results } in
      elim w.save_error [
        | some e ↦ (some e, cleanup_all sorted)
        | none ↦ (none, record sorted { stored = map (file_chunk file_id) sorted.results })
      ]

  unfoldable pub finish : ℕ → Run → Option Error × Run
  unfolding retry_rounds abort persist
  finish file_id run =
      let (e, run') = retry_rounds 3 1 run in
      elim e [
        | some x ↦ abort x run'
        | none ↦ elim run'.failed_positions [
          | [] ↦ persist file_id run'
          | p ∷ ps ↦ abort (verification_failed (length (p ∷ ps))) run'
        ]
      ]

  -- What follows each phase: the next one, or the end.
  unfoldable pub after_checks : ℕ → Option Error × Run → Option Error × Run
  unfolding abort finish
  after_checks file_id (some e, run) = abort e run
  after_checks file_id (none, run) = finish file_id run

  unfoldable pub after_second : ℕ → Option Error × Run → Option Error × Run
  unfolding abort after_checks verify_all
  after_second file_id (some e, run) = abort e run
  after_second file_id (none, run) = after_checks file_id (verify_all run.submitted run)

  unfoldable pub after_upload : ℕ → Option Error × Run → Option Error × Run
  unfolding abort after_second retry_failed_chunks
  after_upload file_id (some e, run) = abort e run
  after_upload file_id (none, run) =
      after_second file_id (retry_failed_chunks run.failed_chunks run)

  unfoldable pub upload : ℕ → List Chunk → Option Error × Run
  unfolding after_upload upload_chunks
  upload file_id cs = elim w.storage_error [
    | some e ↦ (some e, empty_run)
    | none ↦ after_upload file_id (upload_chunks cs empty_run)
  ]
