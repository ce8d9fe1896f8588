-- ===== src/Download.antt =====
-- internal/service/chunk_downloader.go: reading files and byte ranges of files. Telegram, the
-- repositories and the response writer are parameters (`Env`, `Writer`). `runOrderedJobs` is its
-- specification `OrderedJobs.Spec.run`. The int64 fields are numbers; logging is left out.
pub mod Layout
pub mod Window
pub mod Infer
pub mod Replay
pub mod Range
pub mod Whole
mod Examples
use pentaract.Prelude.{
  ℕ, zero, suc, ◌+◌, ◌-◌, ◌*◌, ◌/◌, Bool, true, false, ◌&&◌, ◌||◌, Option, none, some, List, [],
  ◌∷◌, ◌++◌, ◌==◌, ltb, leb, if◌then◌else◌, length, take, drop, min, not,
}
use pentaract.Prelude.Int.{ℤ, pos, negsuc}
use pentaract.Domain.{Storage, File, FileChunk, upload_chunk_size, upload_chunk_safety_margin}
use pentaract.OrderedJobs.Spec.{Outcome, ok, err, run}

pub data Error : Type 0 where
  -- what the database, Telegram or the decryption reports, by a code
  external : ℕ → Error
  chunks_not_found : Error
  invalid_range : Error
  layout_mismatch : ℕ → Error
  write_failed : ℕ → Error

-- The repositories, and the two ways to load a chunk: `downloadAndDecryptChunk` and the cached one.
pub record Env : Type 0 where
  pub list_chunks : ℕ → Outcome Error (List FileChunk)
  pub get_storage : ℕ → Outcome Error Storage
  pub load_direct : ℕ → Storage → FileChunk → Outcome Error (List ℕ)
  pub load_cached : ℕ → Storage → FileChunk → Outcome Error (List ℕ)

-- An io.Writer: whether it takes a slice after what was sent, and what got through if it does not.
pub record Writer : Type 0 where
  pub accepts : List ℕ → List ℕ → Bool
  pub partial : List ℕ → List ℕ → List ℕ

-- storage_manager.go: `DownloadProgress`. All its methods do nothing on a nil receiver.
pub record Progress : Type 0 where
  pub total_chunks : ℕ
  pub downloaded_chunks : ℕ
  pub total_bytes : ℕ
  pub downloaded_bytes : ℕ

unfoldable pub set_totals_if_unset : ℕ → ℕ → Option Progress → Option Progress
set_totals_if_unset chunks bytes none = none
set_totals_if_unset chunks bytes (some p) =
    if not (p.total_chunks == 0) || not (p.total_bytes == 0)
    then some p
    else some (record p { total_chunks = chunks; total_bytes = bytes })

unfoldable pub chunk_downloaded : ℕ → Option Progress → Option Progress
chunk_downloaded bytes none = none
chunk_downloaded bytes (some p) = some (record p {
  downloaded_chunks = p.downloaded_chunks + 1;
  downloaded_bytes = p.downloaded_bytes + bytes;
})

-- The chunk records of a file, which must exist, and its storage.
unfoldable pub file_chunks_and_storage : Env → File → Outcome Error (List FileChunk × Storage)
file_chunks_and_storage env file = elim (env.list_chunks file.id) [
  | err e ↦ err e
  | ok chunks ↦ elim chunks [
    | [] ↦ err chunks_not_found
    | c ∷ cs ↦ elim (env.get_storage file.storage_id) [
      | err e ↦ err e
      | ok storage ↦ ok (c ∷ cs, storage)
    ]
  ]
]

-- What the response has got, and the progress that is shown.
pub record Sink : Type 0 where
  pub sent : List ℕ
  pub progress : Option Progress

-- The handler of `writeWholeFile`.
pub write_chunk : Writer → FileChunk → List ℕ → Sink → Option Error × Sink
unfolding chunk_downloaded
write_chunk w chunk bytes s =
    if w.accepts s.sent bytes
    then (
      none,
      record { sent = s.sent ++ bytes; progress = chunk_downloaded (length bytes) s.progress },
    )
    else (some (write_failed chunk.position), record s { sent = s.sent ++ w.partial s.sent bytes })

unfoldable pub write_whole_file :
    Env
    → (ℕ → Storage → FileChunk → Outcome Error (List ℕ))
    → File
    → Writer
    → Sink
    → Option Error × Sink
unfolding write_chunk file_chunks_and_storage set_totals_if_unset
write_whole_file env load file w s = elim (file_chunks_and_storage env file) [
  | err e ↦ (some e, s)
  | ok (chunks, storage) ↦
      run (load file.id storage) (write_chunk w) chunks
        (record s { progress = set_totals_if_unset (length chunks) file.size s.progress })
]

unfoldable pub download_to_writer : Env → File → Writer → Sink → Option Error × Sink
unfolding write_whole_file
download_to_writer env = write_whole_file env env.load_direct

unfoldable pub stream_to_writer : Env → File → Writer → Sink → Option Error × Sink
unfolding write_whole_file
stream_to_writer env = write_whole_file env env.load_cached

-- The last chunk of a list that is not empty.
abbrev pub last_chunk : FileChunk → List FileChunk → FileChunk
last_chunk c [] = c
last_chunk c (d ∷ cs) = last_chunk d cs

pub exact_size_of : Env → File → List FileChunk × Storage → Outcome Error ℕ
exact_size_of env file ([], storage) = err chunks_not_found
exact_size_of env file (c ∷ cs, storage) =
    elim (env.load_cached file.id storage (last_chunk c cs)) [
      | err e ↦ err e
      | ok bytes ↦ ok (length cs * upload_chunk_size + length bytes)
    ]

unfoldable pub exact_file_size : Env → File → Outcome Error ℕ
unfolding exact_size_of file_chunks_and_storage
exact_file_size env file = elim (file_chunks_and_storage env file) [
  | err e ↦ err e
  | ok found ↦ exact_size_of env file found
]

-- The window of chunks that a range needs under the fixed chunk size; `none` is `ok == false`.
pub record ChunkWindow : Type 0 where
  pub start_index : ℕ
  pub end_index : ℕ
  pub offset : ℕ

unfoldable pub infer_range_chunk_window : ℕ → ℕ → ℕ → ℕ → Option ChunkWindow
infer_range_chunk_window start end total_size chunks_count =
    let last = chunks_count - 1 in
    if chunks_count == 0
    then none
    else if chunks_count == 1
    then some (record { start_index = 0; end_index = 0; offset = 0 })
    else if ltb total_size (last * upload_chunk_size)
    then none
    else some (record {
      start_index = min (start / upload_chunk_size) last;
      end_index = min (end / upload_chunk_size) last;
      offset = min (start / upload_chunk_size) last * upload_chunk_size;
    })

-- `none` is a nil error.
unfoldable pub check_chunk_layout : FileChunk → ℕ → ℕ → ℕ → ℕ → Option Error
check_chunk_layout chunk chunk_start size last_position total_size =
    if not (chunk.position == last_position)
    then (if not (size == upload_chunk_size) then some (layout_mismatch chunk.position) else none)
    else if ltb total_size (chunk_start + size)
        || leb upload_chunk_safety_margin (total_size - (chunk_start + size))
    then some (layout_mismatch chunk.position)
    else none

-- The variables of `writeRangeWindow` that its handler changes.
pub record RangeState : Type 0 where
  pub offset : ℕ
  pub written : ℕ
  pub sink : Sink

-- A range to serve: its first and last byte, and the file's size and last position.
pub record RangeJob : Type 0 where
  pub start : ℕ
  pub end : ℕ
  pub total_size : ℕ
  pub last_position : ℕ

-- Clip the chunk to the range and write what is left. `max` with 0 is the subtraction on ℕ, and a
-- right end below 0 clips to nothing as 0 does.
pub write_clipped :
    RangeJob → Writer → FileChunk → ℕ → List ℕ → RangeState → Option Error × RangeState
unfolding chunk_downloaded
write_clipped job w chunk chunk_start bytes s =
    let left = job.start - chunk_start in
    let right = min (job.end + 1 - chunk_start) (length bytes) in
    let p = drop left (take right bytes) in
    if leb right left
    then (none, s)
    else if w.accepts s.sink.sent p
    then (
      none,
      record s {
        written = s.written + (right - left);
        sink = record {
          sent = s.sink.sent ++ p;
          progress = chunk_downloaded (right - left) s.sink.progress;
        };
      },
    )
    else (
      some (write_failed chunk.position),
      record s { sink = record s.sink { sent = s.sink.sent ++ w.partial s.sink.sent p } },
    )

pub write_ranged_chunk :
    RangeJob → Writer → Bool → FileChunk → List ℕ → RangeState → Option Error × RangeState
unfolding write_clipped check_chunk_layout
write_ranged_chunk job w check_layout chunk bytes s =
    let s' : RangeState = record s { offset = s.offset + length bytes } in
    let mismatch =
      check_chunk_layout chunk s.offset (length bytes) job.last_position job.total_size in
    elim (if check_layout then mismatch else none) [
      | some e ↦ (some e, s')
      | none ↦ write_clipped job w chunk s.offset bytes s'
    ]

pub write_range_window :
    (FileChunk → Outcome Error (List ℕ))
    → RangeJob
    → Writer
    → List FileChunk
    → ℕ
    → Sink
    → Option Error × RangeState
unfolding write_ranged_chunk
write_range_window load job w window offset sink =
    run load (write_ranged_chunk job w (ltb 0 offset)) window
      (record { offset = offset; written = 0; sink = sink })

pub is_layout_mismatch : Option Error → Bool
is_layout_mismatch (some (layout_mismatch _)) = true
is_layout_mismatch _ = false

-- The replay from the first chunk, where a window in the middle met another layout and nothing was
-- written.
pub replay_whole :
    (FileChunk → Outcome Error (List ℕ))
    → RangeJob
    → Writer
    → List FileChunk
    → ℕ
    → Option Error × RangeState
    → Option Error × Sink
unfolding write_range_window is_layout_mismatch
replay_whole load job w chunks offset (failure, s) =
    if is_layout_mismatch failure && s.written == 0 && ltb 0 offset
    then (let (failure', s') = write_range_window load job w chunks 0 s.sink in (failure', s'.sink))
    else (failure, s.sink)

pub range_totals : ℕ → Option Progress → Option Progress
range_totals n none = none
range_totals n (some p) = some (if p.total_bytes == 0 then record p { total_bytes = n } else p)

pub window_totals : ℕ → Option Progress → Option Progress
window_totals n none = none
window_totals n (some p) = some (if p.total_chunks == 0 then record p { total_chunks = n } else p)

-- `chunks[start : end+1]` and its offset, or all chunks.
abbrev pub chosen_window : Option ChunkWindow → List FileChunk → List FileChunk × ℕ
chosen_window none chunks = (chunks, 0)
chosen_window (some v) chunks =
    (take (v.end_index + 1 - v.start_index) (drop v.start_index chunks), v.offset)

pub serve_range :
    (FileChunk → Outcome Error (List ℕ))
    → RangeJob
    → Writer
    → List FileChunk
    → List FileChunk × ℕ
    → Sink
    → Option Error × Sink
unfolding replay_whole write_range_window window_totals
serve_range load job w chunks (window, offset) sink = replay_whole load job w chunks offset (
    write_range_window load job w window offset
      (record sink { progress = window_totals (length window) sink.progress }))

pub range_of_file :
    Env → File → Writer → ℕ → ℕ → ℕ → Sink → List FileChunk × Storage → Option Error × Sink
unfolding serve_range range_totals infer_range_chunk_window
range_of_file env file w start end total_size sink ([], storage) = (some chunks_not_found, sink)
range_of_file env file w start end total_size sink (c ∷ cs, storage) =
    let job : RangeJob = record {
      start = start;
      end = end;
      total_size = total_size;
      last_position = (last_chunk c cs).position;
    } in
    serve_range (env.load_cached file.id storage) job w (c ∷ cs)
      (chosen_window (infer_range_chunk_window start end total_size (length (c ∷ cs))) (c ∷ cs))
      (record sink { progress = range_totals (end + 1 - start) sink.progress })

pub range_within : Env → File → Writer → ℕ → ℕ → ℕ → Sink → Option Error × Sink
unfolding range_of_file file_chunks_and_storage
range_within env file w start end total_size sink =
    if ltb end start || leb total_size end
    then (some invalid_range, sink)
    else elim (file_chunks_and_storage env file) [
      | err e ↦ (some e, sink)
      | ok found ↦ range_of_file env file w start end total_size sink found
    ]

-- The ends of the range are int64 values; a negative one is refused.
unfoldable pub download_range_to_writer :
    Env → File → Writer → ℤ → ℤ → ℕ → Sink → Option Error × Sink
unfolding range_within
download_range_to_writer env file w (pos start) (pos end) total_size sink =
    range_within env file w start end total_size sink
download_range_to_writer env file w (pos start) (negsuc n) total_size sink =
    (some invalid_range, sink)
download_range_to_writer env file w (negsuc n) end total_size sink = (some invalid_range, sink)
