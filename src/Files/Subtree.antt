-- ===== src/Files/Subtree.antt =====
-- What a deletion takes away: a file, or a folder with everything below it, and nothing else.
use pentaract.Prelude.{
  ℕ, ◌≡◌, refl, ap, ◌∙◌, ◌⊎◌, inl, inr, ◌↔◌, Bool, true, false, ◌&&◌, none, List, [], ◌∷◌, ◌++◌,
  ◌==◌, arith, Bool-cases, bytes, bytes_eq, bytes_eq_refl, bytes_eq→eq,
}
use pentaract.Prelude.Members.{In}
use pentaract.Domain.{File, FileChunk}
use pentaract.Files.{
  Tables, is_at_or_under, has_file, remove_files, cascade, delete_where, exec_affecting, delete,
}
use pentaract.Files.Like.{like, is_plain, below_sound, below_complete, like_underscore}

-- The file of a path of a storage, or a file somewhere below it.
abbrev pub InSubtree : ℕ → List ℕ → File → Type 0
InSubtree storage path f =
    (f.storage_id ≡ storage)
    × ((f.path ≡ path) ⊎ ((rest : List ℕ) × (f.path ≡ path ++ b'/' ∷ rest)))

pub has_file_sound :
    (test : File → Bool) (fs : List File)
    → has_file test fs ≡ true
    → (f : File) × In f fs × (test f ≡ true)
unfolding has_file
has_file_sound test [] h = absurd (ground arith)
has_file_sound test (f ∷ fs) h = elim (Bool-cases (test f)) [
  | inl e ↦ (f, inl refl, e)
  | inr e ↦ let r = has_file_sound test fs (rw e at h) in (r.0, inr r.1, r.2)
]

pub has_file_complete :
    (test : File → Bool) (fs : List File) (f : File)
    → In f fs
    → test f ≡ true
    → has_file test fs ≡ true
unfolding has_file
has_file_complete test [] f m h = absurd m
has_file_complete test (g ∷ fs) f (inl e) h = ground (arith, ap test e)
has_file_complete test (g ∷ fs) f (inr m) h = ground (arith, has_file_complete test fs f m h)

pub remove_files-In :
    (test : File → Bool) (fs : List File) (f : File)
    → In f (remove_files test fs) ↔ (In f fs × (test f ≡ false))
unfolding remove_files
remove_files-In test [] f = (λ m. absurd m, λ p. absurd p.0)
remove_files-In test (g ∷ fs) f =
    let ih = remove_files-In test fs f in
    elim (Bool-cases (test g)) [
      | inl e ↦
          rw (remove_files, e)
            (
              λ m. let r = ih.0 m in (inr r.0, r.1),
              λ p. elim p.0 [
                | inl same ↦ absurd (ground (arith, ap test same, p.1))
                | inr m ↦ ih.1 (m, p.1)
              ],
            )
      | inr e ↦
          rw (remove_files, e)
            (
              λ m. elim m [
                | inl same ↦ (inl same, ap test same ∙ e)
                | inr n ↦ let r = ih.0 n in (inr r.0, r.1)
              ],
              λ p. elim p.0 [ inl same ↦ inl same | inr n ↦ inr (ih.1 (n, p.1)) ],
            )
    ]

pub cascade-In :
    (test : File → Bool) (fs : List File) (cs : List FileChunk) (c : FileChunk)
    → In c (cascade test fs cs)
      ↔ (In c cs × (has_file (λ f. test f && f.id == c.file_id) fs ≡ false))
unfolding cascade
cascade-In test fs [] c = (λ m. absurd m, λ p. absurd p.0)
cascade-In test fs (d ∷ cs) c =
    let ih = cascade-In test fs cs c in
    let gone = λ (x : FileChunk). has_file (λ f. test f && f.id == x.file_id) fs in
    elim (Bool-cases (gone d)) [
      | inl e ↦
          rw (cascade, e)
            (
              λ m. let r = ih.0 m in (inr r.0, r.1),
              λ p. elim p.0 [
                | inl same ↦ absurd (ground (arith, ap gone same, p.1))
                | inr m ↦ ih.1 (m, p.1)
              ],
            )
      | inr e ↦
          rw (cascade, e)
            (
              λ m. elim m [
                | inl same ↦ (inl same, ap gone same ∙ e)
                | inr n ↦ let r = ih.0 n in (inr r.0, r.1)
              ],
              λ p. elim p.0 [ inl same ↦ inl same | inr n ↦ inr (ih.1 (n, p.1)) ],
            )
    ]

pub is_at_or_under_sound :
    (storage : ℕ) (path : List ℕ) (f : File)
    → is_plain path ≡ true
    → is_at_or_under storage path f ≡ true
    → InSubtree storage path f
unfolding is_at_or_under
is_at_or_under_sound storage path f h e = (
  ground arith,
  elim (Bool-cases (bytes_eq f.path path)) [
    | inl same ↦ inl (bytes_eq→eq f.path path same)
    | inr other ↦ inr (below_sound path f.path h (ground arith))
  ],
)

pub is_at_or_under_complete :
    (storage : ℕ) (path : List ℕ) (f : File)
    → is_plain path ≡ true
    → InSubtree storage path f
    → is_at_or_under storage path f ≡ true
unfolding is_at_or_under
is_at_or_under_complete storage path f h (s, inl e) =
    let same : bytes_eq f.path path ≡ true = ap (λ p. bytes_eq p path) e ∙ bytes_eq_refl path in
    ground arith
is_at_or_under_complete storage path f h (s, inr (rest, e)) =
    let below : like f.path (path ++ bytes "/%") ≡ true =
      ap (λ p. like p (path ++ bytes "/%")) e ∙ below_complete path rest h in
    ground arith

-- A chunk of a file that the path names.
abbrev pub ChunkInSubtree : ℕ → List ℕ → List File → FileChunk → Type 0
ChunkInSubtree storage path fs c =
    (f : File) × In f fs × InSubtree storage path f × (f.id ≡ c.file_id)

pub cascade-subtree :
    (storage : ℕ) (path : List ℕ) (fs : List File) (c : FileChunk)
    → is_plain path ≡ true
    → (has_file (λ f. is_at_or_under storage path f && f.id == c.file_id) fs ≡ false)
      ↔ (¬ ChunkInSubtree storage path fs c)
cascade-subtree storage path fs c h =
    let test = λ (f : File). is_at_or_under storage path f && f.id == c.file_id in
    (
      λ e (f, m, s, i).
          let a = is_at_or_under_complete storage path f h s in
          let b : test f ≡ true = ground arith in
          absurd (ground (arith, has_file_complete test fs f m b)),
      λ n. elim (Bool-cases (has_file test fs)) [
        | inr e ↦ e
        | inl e ↦
            let r = has_file_sound test fs e in
            let holds = r.2 in
            let a : is_at_or_under storage path r.0 ≡ true = ground (arith, holds) in
            let b : r.0.id ≡ c.file_id = ground (arith, holds) in
            absurd (n (r.0, r.1, is_at_or_under_sound storage path r.0 h a, b))
      ],
    )

not-InSubtree :
    (storage : ℕ) (path : List ℕ) (f : File)
    → is_plain path ≡ true
    → (is_at_or_under storage path f ≡ false) ↔ (¬ InSubtree storage path f)
not-InSubtree storage path f h = (
  λ e s. absurd (ground (arith, is_at_or_under_complete storage path f h s)),
  λ n. elim (Bool-cases (is_at_or_under storage path f)) [
    | inr e ↦ e
    | inl e ↦ absurd (n (is_at_or_under_sound storage path f h e))
  ],
)

-- Deleting a path without the characters % _ \ keeps exactly the files of the storage and of others that
-- are neither the file of that path nor below it, keeps exactly the chunks whose file is not among
-- those, and reports no error exactly where there was such a file.
pub delete-subtree :
    (storage : ℕ) (path : List ℕ) (t : Tables)
    → is_plain path ≡ true
    → let r = delete storage path t in
      ((f : File) → In f r.1.files ↔ (In f t.files × (¬ InSubtree storage path f)))
      × ((c : FileChunk)
          → In c r.1.chunks ↔ (In c t.chunks × (¬ ChunkInSubtree storage path t.files c)))
      × ((r.0 ≡ none) ↔ ((f : File) × In f t.files × InSubtree storage path f))
unfolding delete delete_where exec_affecting
delete-subtree storage path t h =
    let test = is_at_or_under storage path in
    elim (Bool-cases (has_file test t.files)) [
      | inl e ↦
          rw (delete, exec_affecting, e)
            (
              λ f.
                  let p = remove_files-In test t.files f in
                  let q = not-InSubtree storage path f h in
                  (λ m. let r = p.0 m in (r.0, q.0 r.1), λ m. p.1 (m.0, q.1 m.1)),
              λ c.
                  let p = cascade-In test t.files t.chunks c in
                  let q = cascade-subtree storage path t.files c h in
                  (λ m. let r = p.0 m in (r.0, q.0 r.1), λ m. p.1 (m.0, q.1 m.1)),
              (
                λ _.
                    let r = has_file_sound test t.files e in
                    (r.0, r.1, is_at_or_under_sound storage path r.0 h r.2),
                λ _. refl,
              ),
            )
      | inr e ↦
          let nobody : (f : File) → In f t.files → ¬ InSubtree storage path f = λ f m s. absurd (
            ground (
              arith,
              has_file_complete test t.files f m (is_at_or_under_complete storage path f h s),
            )) in
          rw (delete, exec_affecting, e)
            (
              λ f. (λ m. (m, nobody f m), λ m. m.0),
              λ c. (λ m. (m, λ x. nobody x.0 x.1 x.2), λ m. m.0),
              (λ n. absurd (ground arith), λ x. absurd (nobody x.0 x.1 x.2)),
            )
    ]

-- The names of a folder and of another one that differs from it where the first has an underscore: a
-- deletion of the first also matches every file below the other.
pub is_at_or_under-underscore :
    (storage : ℕ) (p q rest : List ℕ) (c : ℕ) (f : File)
    → is_plain p ≡ true
    → is_plain q ≡ true
    → f.storage_id ≡ storage
    → f.path ≡ p ++ (c ∷ q ++ b'/' ∷ rest)
    → is_at_or_under storage (p ++ b'_' ∷ q) f ≡ true
unfolding is_at_or_under
is_at_or_under-underscore storage p q rest c f h k s e =
    let below =
      ap (λ t. like t ((p ++ b'_' ∷ q) ++ bytes "/%")) e ∙ like_underscore p q rest c h k in
    ground (arith, below)
