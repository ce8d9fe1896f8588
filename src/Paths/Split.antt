-- ===== src/Paths/Split.antt =====
-- Splitting a path at its last slash and a file name at its last dot.
use pentaract.Prelude.{
  ℕ, zero, suc, ◌≡◌, refl, ◌⊎◌, inl, inr, Bool, false, ◌||◌, none, some, List, [], ◌∷◌, ◌++◌, arith,
  ◌==◌, take, drop, length, take-append-drop, Option-cases, append-nil,
}
use pentaract.Paths.{slash, dot, last_index, split_dir_and_file, split_name_and_extension}

-- Whether byte `c` occurs in `s`.
unfoldable pub contains : ℕ → List ℕ → Bool
contains c [] = false
contains c (x ∷ s) = x == c || contains c s

module _ (c : ℕ) where
  pub last_index-none : (s : List ℕ) → last_index c s ≡ none → contains c s ≡ false
  unfolding last_index contains
  last_index-none [] h = refl
  last_index-none (x ∷ s) h = ground (arith, last_index-none s)

  pub last_index_absent : (s : List ℕ) → contains c s ≡ false → last_index c s ≡ none
  unfolding last_index contains
  last_index_absent [] h = refl
  last_index_absent (x ∷ s) h = ground (arith, last_index_absent s)

  pub last_index_after :
      (s : List ℕ) (i : ℕ) → last_index c s ≡ some i → contains c (drop (suc i) s) ≡ false
  unfolding last_index contains
  last_index_after [] i h = ground arith
  last_index_after (x ∷ s) zero h = ground (arith, last_index-none s)
  last_index_after (x ∷ s) (suc i) h = ground (arith, last_index_after s i)

  last_index_before :
      (s : List ℕ) (i : ℕ) → last_index c s ≡ some i → take (suc i) s ≡ take i s ++ c ∷ []
  unfolding last_index
  last_index_before [] i h = ground arith
  last_index_before (x ∷ s) zero h = ground (arith, last_index-none s)
  last_index_before (x ∷ s) (suc i) h = ground (arith, last_index_before s i)

  pub last_index_at : (s : List ℕ) (i : ℕ) → last_index c s ≡ some i → drop i s ≡ c ∷ drop (suc i) s
  unfolding last_index
  last_index_at [] i h = ground arith
  last_index_at (x ∷ s) zero h = ground (arith, last_index-none s)
  last_index_at (x ∷ s) (suc i) h = ground (arith, last_index_at s i)

  -- The last index of a text that ends in `c` and a part without `c`.
  pub last_index-append :
      (d f : List ℕ) → contains c f ≡ false → last_index c (d ++ c ∷ f) ≡ some (length d)
  unfolding last_index
  last_index-append [] f h = rw (last_index_absent f h) (ground arith)
  last_index-append (x ∷ d) f h = rw (last_index-append d f h)

-- What `split_dir_and_file` promises of its two results.
abbrev pub IsDirSplit : List ℕ → List ℕ × List ℕ → Type 0
IsDirSplit path (dir, file) =
    (dir ++ file ≡ path)
    × (contains slash file ≡ false)
    × ((dir ≡ []) ⊎ ((parent : List ℕ) × (dir ≡ parent ++ slash ∷ [])))

-- The directory and the file name of a path concatenate to the path, the file name holds no slash,
-- and the directory is empty or ends in a slash.
pub split_dir_and_file-IsDirSplit : (path : List ℕ) → IsDirSplit path (split_dir_and_file path)
unfolding split_dir_and_file
split_dir_and_file-IsDirSplit path = elim (Option-cases (last_index slash path)) [
  | inl e ↦ rw (e, split_dir_and_file) (refl, last_index-none slash path e, inl refl)
  | inr (i, e) ↦
      rw (e, split_dir_and_file)
        (
          take-append-drop (suc i) path,
          last_index_after slash path i e,
          inr (take i path, last_index_before slash path i e),
        )
]

-- A stem and an extension: together they are the name; an extension starts with the only dot in it.
abbrev pub IsNameSplit : List ℕ → List ℕ × List ℕ → Type 0
IsNameSplit filename (name, ext) =
    (name ++ ext ≡ filename)
    × ((ext ≡ []) ⊎ ((tail : List ℕ) × (ext ≡ dot ∷ tail) × (contains dot tail ≡ false)))

-- The stem and the extension of a name are the name again, and the extension is empty or starts with the
-- only dot in it.
pub split_name_and_extension-IsNameSplit :
    (filename : List ℕ) → IsNameSplit filename (split_name_and_extension filename)
unfolding split_name_and_extension
split_name_and_extension-IsNameSplit filename = elim (Option-cases (last_index dot filename)) [
  | inl e ↦ rw (e, split_name_and_extension) (append-nil filename, inl refl)
  | inr (zero, e) ↦ rw (e, split_name_and_extension) (append-nil filename, inl refl)
  | inr (suc i, e) ↦
      rw (e, split_name_and_extension)
        (
          take-append-drop (suc i) filename,
          inr (
            drop (suc (suc i)) filename,
            last_index_at dot filename (suc i) e,
            last_index_after dot filename (suc i) e,
          ),
        )
]
