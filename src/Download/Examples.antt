-- ===== src/Download/Examples.antt =====
-- A file of two chunks, the first of the fixed size, and its witnesses.
use pentaract.Prelude.{
  ℕ, zero, suc, ◌+◌, ◌≡◌, refl, ap, ◌∙◌, true, none, List, [], ◌∷◌, ◌++◌, arith, inl, length,
  length-append, if◌then◌else◌, ◌==◌,
}
use pentaract.Prelude.Int.{pos}
use pentaract.Prelude.Slices.{between}
use pentaract.Domain.{Storage, File, FileChunk, upload_chunk_size}
use pentaract.OrderedJobs.Spec.{ok}
use pentaract.Download.{
  Env, Writer, Sink, download_range_to_writer, write_whole_file, set_totals_if_unset,
}
use pentaract.Download.Layout.{contents}
use pentaract.Download.Whole.{all_downloaded, write_whole_file-contents}
use pentaract.Download.Range.{download_range-slice}

zeros : ℕ → List ℕ
zeros zero = []
zeros (suc n) = 0 ∷ zeros n

length-zeros : (n : ℕ) → length (zeros n) ≡ n
unfolding zeros
length-zeros zero = refl
length-zeros (suc n) = ap suc (length-zeros n)

abbrev chunk_at : ℕ → FileChunk
chunk_at n = record {
  id = n;
  file_id = 7;
  telegram_file_id = [];
  telegram_message_id = n;
  position = n;
}

abbrev movie : File
movie = record { id = 7; path = []; size = 20905987; storage_id = 3; is_uploaded = true }

abbrev home : Storage
home = record { id = 3; name = []; chat_id = 1 }

abbrev bytes_of : FileChunk → List ℕ
bytes_of c = if c.position == 0 then zeros upload_chunk_size else 4 ∷ 5 ∷ 6 ∷ []

abbrev env : Env
env = record {
  list_chunks = λ _. ok (chunk_at 0 ∷ chunk_at 1 ∷ []);
  get_storage = λ _. ok home;
  load_direct = λ _ _ c. ok (bytes_of c);
  load_cached = λ _ _ c. ok (bytes_of c);
}

abbrev client : Writer
client = record { accepts = λ _ _. true; partial = λ _ _. [] }

abbrev fresh : Sink
fresh = record { sent = []; progress = none }

two_chunks : length (contents bytes_of (chunk_at 0 ∷ chunk_at 1 ∷ [])) ≡ 20905987
unfolding contents
two_chunks =
    length-append (zeros upload_chunk_size) (4 ∷ 5 ∷ 6 ∷ [])
    ∙ ap (λ n. n + 3) (length-zeros upload_chunk_size)

download_range-slice_example :
    let r =
      download_range_to_writer env movie client (pos 20905985) (pos 20905986) 20905987 fresh in
    (r.0 ≡ none)
    × (r.1.sent
        ≡ [] ++ between 20905985 (20905986 + 1) (contents bytes_of (chunk_at 0 ∷ chunk_at 1 ∷ [])))
download_range-slice_example =
    download_range-slice env movie client 20905985 20905986 20905987 upload_chunk_size fresh
      (chunk_at 0) (chunk_at 1 ∷ []) home bytes_of (omega arith) (omega arith) refl refl
      (refl, (refl, tt)) (inl refl)
      (omega arith, length-zeros upload_chunk_size, (refl, omega arith, omega arith)) two_chunks
      (λ _ _. refl)

write_whole_file-contents_example : write_whole_file env env.load_direct movie client fresh ≡ (
  none,
  record {
    sent = [] ++ contents bytes_of (chunk_at 0 ∷ chunk_at 1 ∷ []);
    progress =
        all_downloaded bytes_of
          (chunk_at 0 ∷ chunk_at 1 ∷ [])
          (set_totals_if_unset 2 20905987 none);
  },
)
write_whole_file-contents_example =
    write_whole_file-contents env env.load_direct movie client fresh (chunk_at 0) (chunk_at 1 ∷ [])
      home bytes_of refl refl (refl, (refl, tt)) (λ _ _. refl)
