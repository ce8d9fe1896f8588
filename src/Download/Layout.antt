-- ===== src/Download/Layout.antt =====
-- How the chunks of a file make up its bytes.
use pentaract.Prelude.{
  ℕ, zero, suc, ◌*◌, ◌≤◌, ◌<◌, ◌≡◌, ◌≢◌, refl, sym, ap, ◌∙◌, List, [], ◌∷◌, ◌++◌, append_assoc,
  arith, length, length-append, take, drop, take-append-drop,
}
use native.Mathlib.Nat.{suc-mul}
use pentaract.Domain.{FileChunk}

module _ (content : FileChunk → List ℕ) where
  -- The bytes of a run of chunks.
  unfoldable pub contents : List FileChunk → List ℕ
  contents [] = []
  contents (c ∷ cs) = content c ++ contents cs

  -- Every chunk but the last holds `size` bytes, the last at least one and at most `size`; and only
  -- the last chunk has the position `last`.
  abbrev pub IsUniform : ℕ → ℕ → List FileChunk → Type 0
  IsUniform size last [] = Unit
  IsUniform size last (c ∷ []) =
      (c.position ≡ last) × (length (content c) ≤ size) × (0 < length (content c))
  IsUniform size last (c ∷ d ∷ cs) =
      (c.position ≢ last) × (length (content c) ≡ size) × IsUniform size last (d ∷ cs)

  pub contents-append : (xs ys : List FileChunk) → contents (xs ++ ys) ≡ contents xs ++ contents ys
  unfolding contents
  contents-append [] ys = refl
  contents-append (x ∷ xs) ys =
      ap (λ t. content x ++ t) (contents-append xs ys)
      ∙ sym (append_assoc (content x) (contents xs) (contents ys))

  pub contents_split :
      (k : ℕ) (cs : List FileChunk) → contents cs ≡ contents (take k cs) ++ contents (drop k cs)
  contents_split k cs =
      ap contents (sym (take-append-drop k cs)) ∙ contents-append (take k cs) (drop k cs)

  pub length_of_contents-take-ge :
      (size last v : ℕ) (k : ℕ) (cs : List FileChunk)
      → IsUniform size last cs
      → v ≤ size
      → k < length cs
      → k * v ≤ length (contents (take k cs))
  unfolding contents
  length_of_contents-take-ge size last v zero cs u h l = omega arith
  length_of_contents-take-ge size last v (suc k) [] u h l = absurd (omega arith)
  length_of_contents-take-ge size last v (suc k) (c ∷ []) u h l = absurd (omega arith)
  length_of_contents-take-ge size last v (suc k) (c ∷ d ∷ cs) u h l = omega (
    arith,
    length_of_contents-take-ge size last v k (d ∷ cs) u.2 h (omega arith),
    length-append (content c) (contents (take k (d ∷ cs))),
    u.1,
    suc-mul k v,
  )

  pub length_of_contents-take :
      (size last : ℕ) (k : ℕ) (cs : List FileChunk)
      → IsUniform size last cs
      → k < length cs
      → length (contents (take k cs)) ≡ k * size
  unfolding contents
  length_of_contents-take size last zero cs u l = omega arith
  length_of_contents-take size last (suc k) [] u l = absurd (omega arith)
  length_of_contents-take size last (suc k) (c ∷ []) u l = absurd (omega arith)
  length_of_contents-take size last (suc k) (c ∷ d ∷ cs) u l = omega (
    arith,
    length_of_contents-take size last k (d ∷ cs) u.2 (omega arith),
    length-append (content c) (contents (take k (d ∷ cs))),
    u.1,
    suc-mul k size,
  )

  pub IsUniform-drop :
      (size last : ℕ) (k : ℕ) (cs : List FileChunk)
      → IsUniform size last cs
      → IsUniform size last (drop k cs)
  IsUniform-drop size last zero cs u = u
  IsUniform-drop size last (suc k) [] u = tt
  IsUniform-drop size last (suc k) (c ∷ []) u = nothing k
    where
      nothing : (n : ℕ) → IsUniform size last (drop n [])
      nothing zero = tt
      nothing (suc n) = tt
  IsUniform-drop size last (suc k) (c ∷ d ∷ cs) u = IsUniform-drop size last k (d ∷ cs) u.2
