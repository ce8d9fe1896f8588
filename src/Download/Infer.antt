-- ===== src/Download/Infer.antt =====
-- The window that `inferRangeChunkWindow` picks, and what the layout check says of its chunks.
use pentaract.Prelude.{
  ℕ, zero, suc, ◌+◌, ◌*◌, ◌≤◌, ◌<◌, ◌≡◌, ◌⊎◌, refl, Bool, true, false, some, List, [], ◌∷◌, arith,
  length, length-append, take,
}
use native.Mathlib.Nat.{suc-mul}
use pentaract.Domain.{FileChunk, upload_chunk_size, upload_chunk_safety_margin}
use pentaract.Download.{
  layout_mismatch, RangeJob, ChunkWindow, infer_range_chunk_window, check_chunk_layout,
}
use pentaract.Download.Layout.{contents, IsUniform}
use pentaract.Download.Window.{Passes}

-- The window starts at or before the range, and reaches its end under the fixed chunk size.
pub record Covers (start end count : ℕ) (v : ChunkWindow) : Type 0 where
  pub offset : v.offset ≡ v.start_index * upload_chunk_size
  pub before : v.start_index * upload_chunk_size ≤ start
  pub ordered : v.start_index ≤ v.end_index
  pub inside : v.end_index < count
  pub reaches : (v.end_index + 1 ≡ count) ⊎ (end < (v.end_index + 1) * upload_chunk_size)

pub infer-Covers :
    (start end total count : ℕ) (v : ChunkWindow)
    → start ≤ end
    → infer_range_chunk_window start end total count ≡ some v
    → Covers start end count v
unfolding infer_range_chunk_window
infer-Covers start end total count v h e = record {
  offset = ground arith;
  before = ground arith;
  ordered = ground arith;
  inside = ground arith;
  reaches = ground arith;
}

-- `i` larger chunks are longer than `i` of the fixed size by at least the margin.
gap :
    (size i : ℕ)
    → upload_chunk_size + upload_chunk_safety_margin ≤ size
    → 0 < i
    → i * upload_chunk_size + upload_chunk_safety_margin ≤ i * size
gap size zero h p = absurd (omega arith)
gap size (suc zero) h p = omega (arith, suc-mul 0 size)
gap size (suc (suc i)) h p = omega (arith, gap size (suc i) h (omega arith), suc-mul (suc i) size)

module _ (content : FileChunk → List ℕ) (job : RangeJob) where
  pub Passes-unchecked : (o : ℕ) (cs : List FileChunk) → Passes content job false o cs
  Passes-unchecked o [] = tt
  Passes-unchecked o (c ∷ cs) = (refl, Passes-unchecked (o + length (content c)) cs)

  pub Passes-take :
      (check : Bool) (k o : ℕ) (cs : List FileChunk)
      → Passes content job check o cs
      → Passes content job check o (take k cs)
  Passes-take check zero o cs p = tt
  Passes-take check (suc k) o [] p = tt
  Passes-take check (suc k) o (c ∷ cs) p =
      (p.0, Passes-take check k (o + length (content c)) cs p.1)

  -- Chunks of the fixed size that end where the file ends pass the check.
  pub Passes-fixed :
      (o : ℕ) (cs : List FileChunk)
      → IsUniform content upload_chunk_size job.last_position cs
      → o + length (contents content cs) ≡ job.total_size
      → Passes content job true o cs
  unfolding contents check_chunk_layout
  Passes-fixed o [] u e = tt
  Passes-fixed o (c ∷ []) u e = (ground (arith, length-append (content c) []), tt)
  Passes-fixed o (c ∷ d ∷ cs) u e =
      let l = length-append (content c) (contents content (d ∷ cs)) in
      (ground arith, Passes-fixed (o + length (content c)) (d ∷ cs) u.2 (omega (arith, l, e)))

  -- A chunk of a layout with larger chunks fails it, where the offset was inferred.
  pub larger_fails :
      (size i : ℕ) (c : FileChunk) (cs : List FileChunk)
      → upload_chunk_size + upload_chunk_safety_margin ≤ size
      → IsUniform content size job.last_position (c ∷ cs)
      → 0 < i
      → i * size + length (contents content (c ∷ cs)) ≡ job.total_size
      → check_chunk_layout c
          (i * upload_chunk_size)
          (length (content c))
          job.last_position
          job.total_size
        ≡ some (layout_mismatch c.position)
  unfolding contents check_chunk_layout
  larger_fails size i c [] h u p e = ground (arith, gap size i h p, length-append (content c) [])
  larger_fails size i c (d ∷ cs) h u p e = ground arith
