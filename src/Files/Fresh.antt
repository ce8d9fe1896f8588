-- ===== src/Files/Fresh.antt =====
-- The path of a new file is free, whatever names are taken.
use pentaract.Prelude.{
  ℕ, zero, suc, ◌+◌, ◌≤◌, ◌<◌, ◌≡◌, ◌≢◌, refl, ap, sym, ◌∙◌, ◌⊎◌, inl, inr, Bool, true, false, ◌&&◌,
  ◌||◌, List, [], ◌∷◌, ◌++◌, ◌==◌, if◌then◌else◌, arith, Bool-cases, bytes_eq, bytes_eq_refl,
  bytes_eq→eq, length, append_assoc,
}
use pentaract.Prelude.Members.{In}
use pentaract.Domain.{File}
use pentaract.Paths.{split_dir_and_file, split_name_and_extension}
use pentaract.Paths.Split.{split_dir_and_file-IsDirSplit, split_name_and_extension-IsNameSplit}
use pentaract.Files.{Tables}
use pentaract.Files.Naming.{
  has_form, existing, has_path, candidate, next_num, free_path, create_file_anyway,
}
use pentaract.Files.Decimal.{candidate-ne, has_form-candidate, has_form-base}

erase : List ℕ → List (List ℕ) → List (List ℕ)
erase p [] = []
erase p (q ∷ qs) = if bytes_eq q p then qs else q ∷ erase p qs

length-erase :
    (p : List ℕ) (qs : List (List ℕ)) → has_path p qs ≡ true → suc (length (erase p qs)) ≡ length qs
unfolding erase has_path
length-erase p [] h = absurd (ground arith)
length-erase p (q ∷ qs) h = elim (Bool-cases (bytes_eq q p)) [
  | inl e ↦ rw (erase, e)
  | inr e ↦ rw (erase, e) (omega (arith, length-erase p qs (rw (has_path, e) at h)))
]

has_path-erase :
    (p r : List ℕ) (qs : List (List ℕ))
    → r ≢ p
    → has_path r qs ≡ true
    → has_path r (erase p qs) ≡ true
unfolding erase has_path
has_path-erase p r [] n h = h
has_path-erase p r (q ∷ qs) n h = elim (Bool-cases (bytes_eq q p)) [
  | inl e ↦ elim (Bool-cases (bytes_eq q r)) [
    | inl f ↦ absurd (n (sym (bytes_eq→eq q r f) ∙ bytes_eq→eq q p e))
    | inr f ↦ rw (erase, e) (rw (has_path, f) at h)
  ]
  | inr e ↦ elim (Bool-cases (bytes_eq q r)) [
    | inl f ↦ rw (erase, e, has_path, f)
    | inr f ↦ rw (erase, e, has_path, f) (has_path-erase p r qs n (rw (has_path, f) at h))
  ]
]

-- So many different paths cannot all be in a shorter list.
taken-le :
    (k n : ℕ) (name : ℕ → List ℕ) (qs : List (List ℕ))
    → ((i j : ℕ) → i ≢ j → name i ≢ name j)
    → ((i : ℕ) → i < k → has_path (name (n + i)) qs ≡ true)
    → k ≤ length qs
taken-le zero n name qs different h = omega arith
taken-le (suc k) n name qs different h =
    let here : has_path (name n) qs ≡ true =
      ap (λ m. has_path (name m) qs) (omega arith) ∙ h 0 (omega arith) in
    let rest = taken-le k (suc n) name (erase (name n) qs) different (λ i l.
      has_path-erase (name n) (name (suc n + i)) qs
        (different (suc n + i) n (λ e. absurd (omega arith)))
        (ap (λ m. has_path (name m) qs) {x = suc n + i} {y = n + suc i} (omega arith)
          ∙ h (suc i) (omega arith))) in
    omega (arith, rest, length-erase (name n) qs here)

-- The number that the statement finds is free, or all of them are taken.
next_num-cases :
    (left n : ℕ) (base ext : List ℕ) (qs : List (List ℕ))
    → (has_path (candidate base ext (next_num left n base ext qs)) qs ≡ false)
      ⊎ ((i : ℕ) → i < left → has_path (candidate base ext (n + i)) qs ≡ true)
unfolding next_num
next_num-cases zero n base ext qs = inr (λ i l. absurd (omega arith))
next_num-cases (suc left) n base ext qs = elim (Bool-cases (has_path (candidate base ext n) qs)) [
  | inr e ↦ inl (rw (next_num, e) e)
  | inl e ↦ elim (next_num-cases left (suc n) base ext qs) [
    | inl f ↦ inl (rw (next_num, e) f)
    | inr all ↦ inr (λ i l. elim (Bool-cases (i == 0)) [
      | inl z ↦ ap (λ m. has_path (candidate base ext m) qs) {x = n + i} {y = n} (ground arith) ∙ e
      | inr z ↦
          let (j, p) = before i (ground arith) in
          ap (λ m. has_path (candidate base ext m) qs) {x = n + i} {y = suc n + j} (omega arith)
          ∙ all j (omega arith)
    ])
  ]
]
  where
    before : (i : ℕ) → i ≢ 0 → (j : ℕ) × (i ≡ suc j)
    before zero h = absurd (h refl)
    before (suc j) h = (j, refl)

next_num-free :
    (base ext : List ℕ) (qs : List (List ℕ))
    → has_path (candidate base ext (next_num (suc (length qs)) 1 base ext qs)) qs ≡ false
next_num-free base ext qs = elim (next_num-cases (suc (length qs)) 1 base ext qs) [
  | inl e ↦ e
  | inr all ↦ absurd (
      omega
        (arith, taken-le (suc (length qs)) 1 (candidate base ext) qs (candidate-ne base ext) all))
]

existing_complete :
    (storage : ℕ) (base ext : List ℕ) (fs : List File) (f : File)
    → In f fs
    → f.storage_id ≡ storage
    → has_form base ext f.path ≡ true
    → has_path f.path (existing storage base ext fs) ≡ true
unfolding existing has_path
existing_complete storage base ext [] f m s h = absurd m
existing_complete storage base ext (g ∷ fs) f (inl e) s h =
    let a : has_form base ext g.path ≡ true = ap (λ x. has_form base ext x.path) (sym e) ∙ h in
    let b : (g.storage_id == storage) ≡ true = ground (arith, ap (λ x. x.storage_id) e) in
    let c : bytes_eq g.path f.path ≡ true =
      ap (λ x. bytes_eq x.path f.path) (sym e) ∙ bytes_eq_refl f.path in
    rw (existing, b, a, has_path, c)
existing_complete storage base ext (g ∷ fs) f (inr m) s h =
    let ih = existing_complete storage base ext fs f m s h in
    elim (Bool-cases (g.storage_id == storage && has_form base ext g.path)) [
      | inr e ↦ rw (existing, e) ih
      | inl e ↦ rw (existing, e, has_path, ih) (or_true (bytes_eq g.path f.path))
    ]
  where
    or_true : (b : Bool) → (b || true) ≡ true
    or_true true = refl
    or_true false = refl

not_taken :
    (storage : ℕ) (base ext p : List ℕ) (fs : List File) (f : File)
    → has_form base ext p ≡ true
    → has_path p (existing storage base ext fs) ≡ false
    → In f fs
    → f.storage_id ≡ storage
    → f.path ≢ p
not_taken storage base ext p fs f form free m s e = absurd (
    ground (
      arith,
      existing_complete storage base ext fs f m s (ap (has_form base ext) e ∙ form),
      ap (λ q. has_path q (existing storage base ext fs)) e,
    ))

free_path-ne :
    (storage : ℕ) (base ext : List ℕ) (fs : List File) (f : File)
    → In f fs
    → f.storage_id ≡ storage
    → f.path ≢ free_path storage base ext fs
unfolding free_path
free_path-ne storage base ext fs f m s =
    let paths = existing storage base ext fs in
    elim (Bool-cases (has_path (base ++ ext) paths)) [
      | inr e ↦
          rw (free_path, e)
            (not_taken storage base ext (base ++ ext) fs f (has_form-base base ext) e m s)
      | inl e ↦
          let n = next_num (suc (length paths)) 1 base ext paths in
          rw (free_path, e)
            (not_taken storage base ext (candidate base ext n) fs f (has_form-candidate base ext n)
              (next_num-free base ext paths) m s)
    ]

existing_sound :
    (storage : ℕ) (base ext p : List ℕ) (fs : List File)
    → has_path p (existing storage base ext fs) ≡ true
    → (f : File) × In f fs × (f.storage_id ≡ storage) × (f.path ≡ p)
unfolding existing has_path
existing_sound storage base ext p [] h = absurd (ground arith)
existing_sound storage base ext p (g ∷ fs) h =
    elim (Bool-cases (g.storage_id == storage && has_form base ext g.path)) [
      | inr e ↦
          let r = existing_sound storage base ext p fs (rw (existing, e) at h) in
          (r.0, inr r.1, r.2, r.3)
      | inl e ↦ elim (Bool-cases (bytes_eq g.path p)) [
        | inl same ↦ (g, inl refl, ground arith, bytes_eq→eq g.path p same)
        | inr other ↦
            let r = existing_sound storage base ext p fs (rw (existing, e, has_path, other) at h) in
            (r.0, inr r.1, r.2, r.3)
      ]
    ]

abbrev pub IsFresh : List ℕ → ℕ → ℕ → Tables → File × Tables → Type 0
IsFresh path size storage t r =
    ((f : File) → In f t.files → f.storage_id ≡ storage → f.path ≢ r.0.path)
    × (((f : File) → In f t.files → f.storage_id ≡ storage → f.path ≢ path) → r.0.path ≡ path)
    × ((r.0.storage_id ≡ storage) × (r.0.size ≡ size) × (r.0.is_uploaded ≡ false))
    × (r.1 ≡ record t { files = r.0 ∷ t.files })

-- The row of `CreateFileAnyway`, whatever rows there are: no file of the storage has its path, uploaded or
-- not; the path is the requested one where no file of the storage has that; and the row is added to the
-- others, of the requested storage and size, and not yet uploaded.
pub create_file_anyway-IsFresh :
    (id : ℕ) (path : List ℕ) (size storage : ℕ) (t : Tables)
    → IsFresh path size storage t (create_file_anyway id path size storage t)
unfolding create_file_anyway
create_file_anyway-IsFresh id path size storage t =
    let p = split_dir_and_file path in
    let q = split_name_and_extension p.1 in
    let base = p.0 ++ q.0 in
    let whole : base ++ q.1 ≡ path =
      append_assoc p.0 q.0 q.1
      ∙ ap (λ s. p.0 ++ s) (split_name_and_extension-IsNameSplit p.1).0
      ∙ (split_dir_and_file-IsDirSplit path).0 in
    (
      free_path-ne storage base q.1 t.files,
      λ nobody. elim (Bool-cases (has_path (base ++ q.1) (existing storage base q.1 t.files))) [
        | inr e ↦ rw (free_path, e) whole
        | inl e ↦
            let r = existing_sound storage base q.1 (base ++ q.1) t.files e in
            absurd (nobody r.0 r.1 r.2 (r.3 ∙ whole))
      ],
      (refl, refl, refl),
      refl,
    )
