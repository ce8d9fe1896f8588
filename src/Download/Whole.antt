-- ===== src/Download/Whole.antt =====
-- `DownloadToWriter` and `StreamToWriter` send the whole file.
use pentaract.Prelude.{
  ℕ, ◌≡◌, sym, ap, ◌∙◌, Option, none, List, [], ◌∷◌, ◌++◌, append_assoc, append-nil, length,
}
use pentaract.Domain.{File, Storage, FileChunk}
use pentaract.OrderedJobs.Spec.{Outcome, ok, run, run-cons_ok}
use pentaract.Download.{
  Error, Env, Writer, Sink, Progress, file_chunks_and_storage, write_chunk, write_whole_file,
  set_totals_if_unset, chunk_downloaded,
}
use pentaract.Download.Layout.{contents}
use pentaract.Download.Window.{AcceptsAll, Loads}

-- A file with chunks and a known storage.
pub file_chunks_and_storage-ok :
    (env : Env) (file : File) (c : FileChunk) (cs : List FileChunk) (storage : Storage)
    → env.list_chunks file.id ≡ ok (c ∷ cs)
    → env.get_storage file.storage_id ≡ ok storage
    → file_chunks_and_storage env file ≡ ok (c ∷ cs, storage)
unfolding file_chunks_and_storage
file_chunks_and_storage-ok env file c cs storage listed stored =
    rw (listed, stored, file_chunks_and_storage)

-- The progress after every chunk of a list was sent.
unfoldable pub all_downloaded :
    (FileChunk → List ℕ) → List FileChunk → Option Progress → Option Progress
all_downloaded content [] p = p
all_downloaded content (c ∷ cs) p =
    all_downloaded content cs (chunk_downloaded (length (content c)) p)

module _ (content : FileChunk → List ℕ) (load : FileChunk → Outcome Error (List ℕ)) (w : Writer)
    (accepts : AcceptsAll w) where
  run-write_chunk :
      (cs : List FileChunk) (s : Sink)
      → Loads content load cs
      → run load (write_chunk w) cs s ≡ (
        none,
        record {
          sent = s.sent ++ contents content cs;
          progress = all_downloaded content cs s.progress;
        },
      )
  unfolding run contents all_downloaded write_chunk
  run-write_chunk [] s l =
      ap (λ t. (none, record { sent = t; progress = s.progress })) (sym (append-nil s.sent))
  run-write_chunk (c ∷ cs) s l =
      let s' : Sink = record {
        sent = s.sent ++ content c;
        progress = chunk_downloaded (length (content c)) s.progress;
      } in
      run-cons_ok load (write_chunk w) c cs s s' (content c) l.0 (rw (accepts, write_chunk))
      ∙ run-write_chunk cs s' l.1
      ∙ ap (λ t. (none, record { sent = t; progress = all_downloaded content cs s'.progress }))
          (append_assoc s.sent (content c) (contents content cs))

-- Where the chunk records and the storage are found, every chunk loads and the client takes all of it,
-- a whole download succeeds, sends the chunks' bytes in order and counts them.
pub write_whole_file-contents :
    (env : Env) (load : ℕ → Storage → FileChunk → Outcome Error (List ℕ)) (file : File) (w : Writer)
    (s : Sink) (c : FileChunk) (cs : List FileChunk) (storage : Storage)
    (content : FileChunk → List ℕ)
    → env.list_chunks file.id ≡ ok (c ∷ cs)
    → env.get_storage file.storage_id ≡ ok storage
    → Loads content (load file.id storage) (c ∷ cs)
    → AcceptsAll w
    → write_whole_file env load file w s ≡ (
      none,
      record {
        sent = s.sent ++ contents content (c ∷ cs);
        progress =
            all_downloaded content
              (c ∷ cs)
              (set_totals_if_unset (length (c ∷ cs)) file.size s.progress);
      },
    )
unfolding write_whole_file
write_whole_file-contents env load file w s c cs storage content listed stored loads accepts =
    rw (file_chunks_and_storage-ok env file c cs storage listed stored, write_whole_file)
      (run-write_chunk content (load file.id storage) w accepts (c ∷ cs)
        (record s { progress = set_totals_if_unset (length (c ∷ cs)) file.size s.progress }) loads)
