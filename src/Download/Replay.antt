-- ===== src/Download/Replay.antt =====
-- A window of chunks that passes the layout check is written, and one that fails it at its first chunk
-- is replaced by the whole file.
use mathlib.Core.Path.{ap₂}
use native.Mathlib.Nat.{sub-zero}
use pentaract.Prelude.{
  ℕ, zero, suc, ◌+◌, ◌<◌, ◌≡◌, refl, ap, ◌∙◌, false, none, some, List, [], ◌∷◌, ◌++◌, ltb, lt→ltb,
  length, take, drop,
}
use pentaract.Prelude.Slices.{between}
use pentaract.Domain.{FileChunk}
use pentaract.OrderedJobs.Spec.{Outcome, ok, run-cons_failed}
use pentaract.Download.{
  Error, layout_mismatch, Writer, Sink, RangeJob, RangeState, check_chunk_layout,
  write_ranged_chunk, write_range_window, replay_whole,
}
use pentaract.Download.Layout.{contents}
use pentaract.Download.Window.{AcceptsAll, Loads, Passes, part, run-Wrote}
use pentaract.Download.Infer.{Passes-unchecked}

module _ (content : FileChunk → List ℕ) (load : FileChunk → Outcome Error (List ℕ)) where
  pub Loads-take :
      (k : ℕ) (cs : List FileChunk) → Loads content load cs → Loads content load (take k cs)
  Loads-take zero cs l = tt
  Loads-take (suc k) [] l = tt
  Loads-take (suc k) (c ∷ cs) l = (l.0, Loads-take k cs l.1)

  pub Loads-drop :
      (k : ℕ) (cs : List FileChunk) → Loads content load cs → Loads content load (drop k cs)
  Loads-drop zero cs l = l
  Loads-drop (suc k) [] l = tt
  Loads-drop (suc k) (c ∷ cs) l = Loads-drop k cs l.1

module _ (content : FileChunk → List ℕ) (load : FileChunk → Outcome Error (List ℕ)) (w : Writer)
    (accepts : AcceptsAll w) (job : RangeJob) where
  -- A window written without an error, so that nothing is replayed.
  pub window-serves :
      (chunks window : List FileChunk) (offset : ℕ) (sink : Sink)
      → Loads content load window
      → Passes content job (ltb 0 offset) offset window
      → let r =
          replay_whole load job w chunks offset
            (write_range_window load job w window offset sink) in
        (r.0 ≡ none) × (r.1.sent ≡ sink.sent ++ part job offset (contents content window))
  unfolding replay_whole write_range_window
  window-serves chunks window offset sink l p =
      let s : RangeState = record { offset = offset; written = 0; sink = sink } in
      let wrote = run-Wrote content job w accepts load (ltb 0 offset) window offset s refl l p in
      rw (wrote.fine, replay_whole) (refl, wrote.sent)

  part_zero : (xs : List ℕ) → part job 0 xs ≡ between job.start (job.end + 1) xs
  part_zero xs = ap₂ (λ a b. between a b xs) (sub-zero job.start) (sub-zero (job.end + 1))

  -- From offset 0 no layout is checked.
  window_from_start :
      (window : List FileChunk) (sink : Sink)
      → Loads content load window
      → let r = write_range_window load job w window 0 sink in
        (r.0 ≡ none)
        × (r.1.sink.sent ≡ sink.sent ++ between job.start (job.end + 1) (contents content window))
  unfolding write_range_window
  window_from_start window sink l =
      let s : RangeState = record { offset = 0; written = 0; sink = sink } in
      let wrote =
        run-Wrote content job w accepts load false window 0 s refl l
          (Passes-unchecked content job 0 window) in
      (wrote.fine, wrote.sent ∙ ap (λ t. sink.sent ++ t) (part_zero (contents content window)))

  pub prefix-serves :
      (chunks window : List FileChunk) (sink : Sink)
      → Loads content load window
      → let r = replay_whole load job w chunks 0 (write_range_window load job w window 0 sink) in
        (r.0 ≡ none)
        × (r.1.sent ≡ sink.sent ++ between job.start (job.end + 1) (contents content window))
  unfolding replay_whole
  prefix-serves chunks window sink l =
      let (fine, sent) = window_from_start window sink l in rw (fine, replay_whole) (refl, sent)

  -- The window stops at a first chunk of another layout, with nothing written.
  window_mismatch :
      (c : FileChunk) (window : List FileChunk) (offset : ℕ) (sink : Sink)
      → load c ≡ ok (content c)
      → 0 < offset
      → check_chunk_layout c offset (length (content c)) job.last_position job.total_size
        ≡ some (layout_mismatch c.position)
      → write_range_window load job w (c ∷ window) offset sink ≡ (
        some (layout_mismatch c.position),
        record { offset = offset + length (content c); written = 0; sink = sink },
      )
  unfolding write_range_window
  window_mismatch c window offset sink l pos fails =
      run-cons_failed load (write_ranged_chunk job w (ltb 0 offset)) c window
        (record { offset = offset; written = 0; sink = sink })
        (record { offset = offset + length (content c); written = 0; sink = sink }) (content c)
        (layout_mismatch c.position) l (rw (lt→ltb 0 offset pos, fails, write_ranged_chunk))

  -- A first chunk that fails the layout check makes the whole file be replayed.
  pub mismatch-replays :
      (chunks : List FileChunk) (c : FileChunk) (window : List FileChunk) (offset : ℕ) (sink : Sink)
      → load c ≡ ok (content c)
      → Loads content load chunks
      → 0 < offset
      → check_chunk_layout c offset (length (content c)) job.last_position job.total_size
        ≡ some (layout_mismatch c.position)
      → let r =
          replay_whole load job w chunks offset
            (write_range_window load job w (c ∷ window) offset sink) in
        (r.0 ≡ none)
        × (r.1.sent ≡ sink.sent ++ between job.start (job.end + 1) (contents content chunks))
  unfolding replay_whole
  mismatch-replays chunks c window offset sink l lc pos fails =
      rw (window_mismatch c window offset sink l pos fails, lt→ltb 0 offset pos, replay_whole)
        (window_from_start chunks sink lc)
