-- ===== src/Download/Range.antt =====
-- `DownloadRangeToWriter` sends exactly the requested bytes, for files of the fixed chunk size and for
-- older files with larger chunks.
use mathlib.Core.Path.{subst, ap₂}
use pentaract.Prelude.{
  ℕ, zero, suc, ◌+◌, ◌-◌, ◌*◌, ◌≤◌, ◌<◌, ◌≡◌, ◌⊎◌, ◌||◌, leb, inl, inr, refl, sym, ap, ◌∙◌, true,
  false, Option, none, some, List, [], ◌∷◌, ◌++◌, arith, ltb, lt→ltb, ltb→lt, length, length-append,
  length-drop, take, drop, Bool-cases,
}
use pentaract.Prelude.Slices.{between, between_skip, between_front, take-add, take_all}
use pentaract.Domain.{File, Storage, FileChunk, upload_chunk_size, upload_chunk_safety_margin}
use pentaract.OrderedJobs.Spec.{Outcome, ok}
use pentaract.Prelude.Int.{pos}
use pentaract.Download.{
  Env, last_chunk, download_range_to_writer, file_chunks_and_storage, range_of_file, range_within,
  range_totals, Error, layout_mismatch, Writer, Sink, RangeJob, ChunkWindow,
  infer_range_chunk_window, check_chunk_layout, write_range_window, replay_whole, serve_range,
  window_totals, chosen_window,
}
use pentaract.Download.Layout.{
  contents, contents-append, contents_split, IsUniform, IsUniform-drop, length_of_contents-take,
  length_of_contents-take-ge,
}
use pentaract.Download.Window.{AcceptsAll, Loads, Passes}
use pentaract.Download.Whole.{file_chunks_and_storage-ok}
use pentaract.Download.Infer.{Covers, infer-Covers, Passes-take, Passes-fixed, larger_fails}
use pentaract.Download.Replay.{
  Loads-take, Loads-drop, window-serves, prefix-serves, mismatch-replays,
}

-- The sizes of the chunks before the last: the fixed one, or that of a layout with larger chunks.
abbrev pub IsKnownSize : ℕ → Type 0
IsKnownSize size =
    (size ≡ upload_chunk_size) ⊎ (upload_chunk_size + upload_chunk_safety_margin ≤ size)

known-ge : (size : ℕ) → IsKnownSize size → upload_chunk_size ≤ size
known-ge size (inl e) = omega arith
known-ge size (inr h) = omega arith

abbrev window_of : ChunkWindow → List FileChunk → List FileChunk
window_of v chunks = take (v.end_index + 1 - v.start_index) (drop v.start_index chunks)

module _ (content : FileChunk → List ℕ) (job : RangeJob) (chunks : List FileChunk) (size : ℕ)
    (known : IsKnownSize size) (uniform : IsUniform content size job.last_position chunks)
    (total : length (contents content chunks) ≡ job.total_size) (in_file : job.end < job.total_size)
    (v : ChunkWindow) (covers : Covers job.start job.end (length chunks) v) where
  -- The chunks up to the window's end hold the end of the range.
  end_reached : job.end + 1 ≤ length (contents content (take (v.end_index + 1) chunks))
  end_reached = elim covers.reaches [
    | inl e ↦ omega (
      arith,
      ap (λ l. length (contents content l)) (take_all (v.end_index + 1) chunks (omega arith)),
    )
    | inr h ↦ elim (Bool-cases (ltb (v.end_index + 1) (length chunks))) [
      | inl more ↦ omega (
        arith,
        length_of_contents-take-ge content size job.last_position upload_chunk_size
            (v.end_index + 1) chunks uniform (known-ge size known) (ltb→lt _ _ more),
      )
      | inr all ↦ omega (
        arith,
        ap (λ l. length (contents content l))
            (take_all (v.end_index + 1) chunks (ground (arith, covers.inside))),
      )
    ]
  ]

  abbrev skipped : ℕ
  skipped = length (contents content (take v.start_index chunks))

  -- What the skipped chunks and the window hold together.
  length_to_end :
      length (contents content (take (v.end_index + 1) chunks))
      ≡ skipped + length (contents content (window_of v chunks))
  length_to_end =
      let e : v.start_index + (v.end_index + 1 - v.start_index) ≡ v.end_index + 1 =
        omega (arith, covers.ordered) in
      ap (λ k. length (contents content (take k chunks))) (sym e)
      ∙ ap (λ l. length (contents content l))
          (sym (take-add v.start_index (v.end_index + 1 - v.start_index) chunks))
      ∙ ap (length {A = ℕ})
          (contents-append content (take v.start_index chunks) (window_of v chunks))
      ∙ length-append (contents content (take v.start_index chunks))
          (contents content (window_of v chunks))

  -- The range's bytes in the window are the range's bytes in the file.
  window_slice :
      skipped ≤ job.start
      → between
          (job.start - skipped)
          (job.end + 1 - skipped)
          (contents content (window_of v chunks))
        ≡ between job.start (job.end + 1) (contents content chunks)
  window_slice h =
      let k = v.end_index + 1 - v.start_index in
      let rest = drop v.start_index chunks in
      sym (
        ap (between job.start (job.end + 1)) (contents_split content v.start_index chunks)
        ∙ between_skip job.start (job.end + 1) (contents content (take v.start_index chunks))
            (contents content rest) h
        ∙ ap (between (job.start - skipped) (job.end + 1 - skipped)) (contents_split content k rest)
        ∙ between_front (job.start - skipped) (job.end + 1 - skipped)
            (contents content (take k rest)) (contents content (drop k rest))
            (omega (arith, end_reached, length_to_end)))

-- The whole range is sent, and nothing fails.
abbrev pub Sends :
    (FileChunk → List ℕ) → RangeJob → List FileChunk → Sink → Option Error × Sink → Type 0
Sends content job chunks sink r =
    (r.0 ≡ none)
    × (r.1.sent ≡ sink.sent ++ between job.start (job.end + 1) (contents content chunks))

module _ (content : FileChunk → List ℕ) (job : RangeJob) (chunks : List FileChunk) (size : ℕ)
    (known : IsKnownSize size) (uniform : IsUniform content size job.last_position chunks)
    (total : length (contents content chunks) ≡ job.total_size) (in_file : job.end < job.total_size)
    (load : FileChunk → Outcome Error (List ℕ)) (loads : Loads content load chunks) (w : Writer)
    (accepts : AcceptsAll w) (sink : Sink) where
  module _ (v : ChunkWindow) (covers : Covers job.start job.end (length chunks) v) where
    abbrev replayed : Option Error × Sink
    replayed =
        replay_whole load job w chunks v.offset
          (write_range_window load job w (window_of v chunks) v.offset sink)

    Loads-window : Loads content load (window_of v chunks)
    Loads-window =
        Loads-take content load (v.end_index + 1 - v.start_index) (drop v.start_index chunks)
          (Loads-drop content load v.start_index chunks loads)

    at_start : v.start_index ≡ 0 → Sends content job chunks sink replayed
    unfolding contents
    at_start e =
        let none_skipped : length (contents content (take v.start_index chunks)) ≡ 0 =
          ap (λ i. length (contents content (take i chunks))) e in
        let slice =
          window_slice content job chunks size known uniform total in_file v covers
            (omega (arith, none_skipped)) in
        let start_eq : job.start
            ≡ job.start - length (contents content (take v.start_index chunks)) =
          omega (arith, none_skipped) in
        let end_eq : job.end + 1
            ≡ job.end + 1 - length (contents content (take v.start_index chunks)) =
          omega (arith, none_skipped) in
        let zero_offset : v.offset ≡ 0 = omega (arith, covers.offset, e) in
        let served =
          prefix-serves content load w accepts job chunks (window_of v chunks) sink Loads-window in
        subst
          (λ o. Sends content job chunks sink (
            replay_whole load job w chunks o
              (write_range_window load job w (window_of v chunks) o sink)))
          (sym zero_offset)
          (
            served.0,
            served.1
                ∙ ap (λ t. sink.sent ++ t)
                    (ap₂ (λ a b. between a b (contents content (window_of v chunks))) start_eq
                        end_eq
                      ∙ slice),
          )

    fixed_size :
        size ≡ upload_chunk_size → 0 < v.start_index → Sends content job chunks sink replayed
    fixed_size e p =
        let u : IsUniform content upload_chunk_size job.last_position chunks =
          subst (λ n. IsUniform content n job.last_position chunks) e uniform in
        let before =
          length_of_contents-take content upload_chunk_size job.last_position v.start_index chunks u
            (omega (arith, covers.ordered, covers.inside)) in
        let skip : v.offset ≡ length (contents content (take v.start_index chunks)) =
          omega (arith, before, covers.offset) in
        let passes : Passes content job true v.offset (drop v.start_index chunks) =
          Passes-fixed content job v.offset (drop v.start_index chunks)
            (IsUniform-drop content upload_chunk_size job.last_position v.start_index chunks u)
            (omega (
              arith,
              skip,
              total,
              ap (length {A = ℕ}) (contents_split content v.start_index chunks),
              length-append (contents content (take v.start_index chunks))
                  (contents content (drop v.start_index chunks)),
            )) in
        let checked : ltb 0 v.offset ≡ true = lt→ltb 0 v.offset (omega (arith, covers.offset)) in
        let served =
          window-serves content load w accepts job chunks (window_of v chunks) v.offset sink
            Loads-window
            (subst (λ b. Passes content job b v.offset (window_of v chunks)) (sym checked)
              (Passes-take content job true (v.end_index + 1 - v.start_index) v.offset
                (drop v.start_index chunks) passes)) in
        let slice =
          window_slice content job chunks size known uniform total in_file v covers
            (omega (arith, covers.before, covers.offset, skip)) in
        (
          served.0,
          served.1
              ∙ ap (λ t. sink.sent ++ t)
                  (ap
                      (λ o.
                        between (job.start - o) (job.end + 1 - o)
                          (contents content (window_of v chunks)))
                      skip
                    ∙ slice),
        )

    larger_size :
        upload_chunk_size + upload_chunk_safety_margin ≤ size
        → 0 < v.start_index
        → Sends content job chunks sink replayed
    larger_size h p = go (drop v.start_index chunks) refl (v.end_index + 1 - v.start_index) refl
      where
        go :
            (rest : List FileChunk)
            → drop v.start_index chunks ≡ rest
            → (k : ℕ) → v.end_index + 1 - v.start_index ≡ k
            → Sends content job chunks sink (
                replay_whole load job w chunks v.offset
                  (write_range_window load job w (take k rest) v.offset sink))
        go rest e zero f = absurd (omega (arith, covers.ordered))
        go [] e (suc k) f = absurd (
            omega (
              arith,
              covers.ordered,
              covers.inside,
              length-drop v.start_index chunks,
              ap (length {A = FileChunk}) e,
            ))
        go (c ∷ rest) e (suc k) f =
            let first : IsUniform content size job.last_position (c ∷ rest) =
              subst (IsUniform content size job.last_position) e
                (IsUniform-drop content size job.last_position v.start_index chunks uniform) in
            let before =
              length_of_contents-take content size job.last_position v.start_index chunks uniform
                (omega (arith, covers.ordered, covers.inside)) in
            let ends : v.start_index * size + length (contents content (c ∷ rest))
                ≡ job.total_size =
              omega (
                arith,
                before,
                total,
                ap (length {A = ℕ}) (contents_split content v.start_index chunks),
                length-append (contents content (take v.start_index chunks))
                    (contents content (drop v.start_index chunks)),
                ap (λ l. length (contents content l)) e,
              ) in
            mismatch-replays content load w accepts job chunks c (take k rest) v.offset sink
              (subst (Loads content load) e (Loads-drop content load v.start_index chunks loads)).0
              loads (omega (arith, covers.offset))
              (subst
                (λ o.
                  check_chunk_layout c o (length (content c)) job.last_position job.total_size
                  ≡ some (layout_mismatch c.position))
                (sym covers.offset)
                (larger_fails content job size v.start_index c rest h first p ends))

    chosen-Sends : Sends content job chunks sink replayed
    chosen-Sends = elim (Bool-cases (ltb 0 v.start_index)) [
      | inl middle ↦ elim known [
        | inl e ↦ fixed_size e (ltb→lt _ _ middle)
        | inr h ↦ larger_size h (ltb→lt _ _ middle)
      ]
      | inr front ↦ at_start (ground arith)
    ]

  pub replay-Sends :
      job.start ≤ job.end
      → (o : Option ChunkWindow)
      → infer_range_chunk_window job.start job.end job.total_size (length chunks) ≡ o
      → let (window, offset) = chosen_window o chunks in
        Sends content job chunks sink
          (replay_whole load job w chunks offset (write_range_window load job w window offset sink))
  replay-Sends le none e = prefix-serves content load w accepts job chunks chunks sink loads
  replay-Sends le (some v) e =
      chosen-Sends v (infer-Covers job.start job.end job.total_size (length chunks) v le e)

-- A range inside the file is sent exactly, whatever the chunk layout: where the file's chunks exist,
-- all but the last have the fixed size or a size larger by at least the safety margin, the given size
-- of the file is the number of its bytes, every chunk loads and the client stays connected, the call
-- succeeds and sends the bytes from `start` to `end`, both included.
pub download_range-slice :
    (env : Env) (file : File) (w : Writer) (start end total_size size : ℕ) (sink : Sink)
    (c : FileChunk) (cs : List FileChunk) (storage : Storage) (content : FileChunk → List ℕ)
    → start ≤ end
    → end < total_size
    → env.list_chunks file.id ≡ ok (c ∷ cs)
    → env.get_storage file.storage_id ≡ ok storage
    → Loads content (env.load_cached file.id storage) (c ∷ cs)
    → IsKnownSize size
    → IsUniform content size (last_chunk c cs).position (c ∷ cs)
    → length (contents content (c ∷ cs)) ≡ total_size
    → AcceptsAll w
    → let r = download_range_to_writer env file w (pos start) (pos end) total_size sink in
      (r.0 ≡ none) × (r.1.sent ≡ sink.sent ++ between start (end + 1) (contents content (c ∷ cs)))
unfolding download_range_to_writer range_within range_of_file serve_range
download_range-slice env file w start end total_size size sink c cs storage content le lt listed
      stored loads known uniform total accepts =
    let found : file_chunks_and_storage env file ≡ ok (c ∷ cs, storage) =
      file_chunks_and_storage-ok env file c cs storage listed stored in
    let valid : (ltb end start || leb total_size end) ≡ false = ground arith in
    let job : RangeJob = record {
      start = start;
      end = end;
      total_size = total_size;
      last_position = (last_chunk c cs).position;
    } in
    let chosen =
      chosen_window (infer_range_chunk_window start end total_size (length (c ∷ cs))) (c ∷ cs) in
    let shown : Sink = record sink {
      progress = window_totals (length chosen.0) (range_totals (end + 1 - start) sink.progress);
    } in
    rw (valid, found, range_within)
      (replay-Sends content job (c ∷ cs) size known uniform total lt
        (env.load_cached file.id storage) loads w accepts shown le
        (infer_range_chunk_window start end total_size (length (c ∷ cs))) refl)
