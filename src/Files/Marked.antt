-- ===== src/Files/Marked.antt =====
-- The transaction that ends an upload.
use pentaract.Prelude.{
  ℕ, ◌≡◌, ◌≢◌, refl, ap, ◌∙◌, ◌⊎◌, inl, inr, true, false, ◌&&◌, Option, none, some, List, [], ◌∷◌,
  ◌++◌, ◌==◌, if◌then◌else◌, arith, Bool-cases, bytes_eq, bytes_eq_refl, bytes_eq→eq,
}
use pentaract.Prelude.Members.{In}
use pentaract.Domain.{File, FileChunk}
use pentaract.Files.{
  Error, Tables, has_file, find_file, map_files, have_files, is_stale, mark_uploaded, delete_where,
  create_chunks_and_mark_uploaded,
}
use pentaract.Files.Subtree.{has_file_sound, has_file_complete, remove_files-In, cascade-In}

-- Ids tell the rows apart.
abbrev pub Unique : List File → Type 0
Unique fs = (f g : File) → In f fs → In g fs → f.id ≡ g.id → f ≡ g

have_files-In :
    (id : ℕ) (cs : List FileChunk) (fs : List File) (file : File)
    → In file fs
    → file.id ≡ id
    → ((c : FileChunk) → In c cs → c.file_id ≡ id)
    → have_files cs fs ≡ true
unfolding have_files
have_files-In id [] fs file m e h = refl
have_files-In id (c ∷ cs) fs file m e h =
    let i : c.file_id ≡ id = h c (inl refl) in
    let rest = have_files-In id cs fs file m e (λ d n. h d (inr n)) in
    let here = has_file_complete (λ f. f.id == c.file_id) fs file m (ground arith) in
    ground (arith, here, rest)

In-marked :
    (id : ℕ) (fs : List File) (f : File)
    → In f (map_files (λ g. g.id == id) mark_uploaded fs)
    → (g : File) × In g fs × (f ≡ (if g.id == id then mark_uploaded g else g))
unfolding map_files
In-marked id [] f m = absurd m
In-marked id (g ∷ fs) f (inl e) = (g, inl refl, e)
In-marked id (g ∷ fs) f (inr m) = let r = In-marked id fs f m in (r.0, inr r.1, r.2)

marked-In :
    (id : ℕ) (fs : List File) (g : File)
    → In g fs
    → In (if g.id == id then mark_uploaded g else g) (map_files (λ h. h.id == id) mark_uploaded fs)
unfolding map_files
marked-In id [] g m = absurd m
marked-In id (h ∷ fs) g (inl e) = inl (ap (λ x. if x.id == id then mark_uploaded x else x) e)
marked-In id (h ∷ fs) g (inr m) = inr (marked-In id fs g m)

find_marked :
    (id : ℕ) (fs : List File) (file : File)
    → Unique fs
    → In file fs
    → file.id ≡ id
    → find_file (λ f. f.id == id) (map_files (λ f. f.id == id) mark_uploaded fs)
      ≡ some (mark_uploaded file)
unfolding find_file map_files mark_uploaded
find_marked id [] file u m e = absurd m
find_marked id (f ∷ fs) file u m e = elim (Bool-cases (f.id == id)) [
  | inl here ↦
      let same : f ≡ file = u f file (inl refl) m (ground arith) in
      rw (map_files, here, find_file, here) (ap (λ x. some (mark_uploaded x)) same)
  | inr other ↦ elim m [
    | inl same ↦ absurd (ground (arith, ap (λ x. x.id) same))
    | inr n ↦
        rw (map_files, other, find_file, other)
          (find_marked id fs file (λ a b p q. u a b (inr p) (inr q)) n e)
  ]
]

In-append_left : (cs ds : List FileChunk) (c : FileChunk) → In c cs → In c (cs ++ ds)
In-append_left [] ds c m = absurd m
In-append_left (d ∷ cs) ds c (inl e) = inl e
In-append_left (d ∷ cs) ds c (inr m) = inr (In-append_left cs ds c m)

In-append_right : (cs ds : List FileChunk) (c : FileChunk) → In c ds → In c (cs ++ ds)
In-append_right [] ds c m = m
In-append_right (d ∷ cs) ds c m = inr (In-append_right cs ds c m)

abbrev pub IsMarked : ℕ → List FileChunk → File → Tables → Option Error × Tables → Type 0
IsMarked id chunks file t r =
    (r.0 ≡ none)
    × In (mark_uploaded file) r.1.files
    × ((c : FileChunk) → In c (t.chunks ++ chunks) → c.file_id ≡ id → In c r.1.chunks)
    × ((f : File)
        → In f r.1.files
        → f.storage_id ≡ file.storage_id
        → f.path ≡ file.path
        → f.is_uploaded ≡ true)
    × ((f : File)
        → In f t.files
        → f.id ≢ id
        → ((f.is_uploaded ≡ true) ⊎ (f.storage_id ≢ file.storage_id) ⊎ (f.path ≢ file.path))
        → In f r.1.files)

-- The transaction that ends an upload, where ids tell the rows apart and the chunks are those of the
-- uploaded file: it succeeds and leaves the file marked as uploaded, with its chunks, old and new; no
-- unfinished row of the same path and storage is left; and every other row that is uploaded or has
-- another path or storage stays as it is.
pub create_chunks_and_mark_uploaded_lem :
    (id : ℕ) (chunks : List FileChunk) (t : Tables) (file : File)
    → Unique t.files
    → In file t.files
    → file.id ≡ id
    → ((c : FileChunk) → In c chunks → c.file_id ≡ id)
    → IsMarked id chunks file t (create_chunks_and_mark_uploaded id chunks t)
unfolding create_chunks_and_mark_uploaded delete_where is_stale mark_uploaded
create_chunks_and_mark_uploaded_lem id chunks t file u m e h =
    let marked = map_files (λ f. f.id == id) mark_uploaded t.files in
    let stale = is_stale id (some (mark_uploaded file)) in
    rw
      (
        create_chunks_and_mark_uploaded,
        have_files-In id chunks t.files file m e h,
        find_marked id t.files file u m e,
      )
      (
        refl,
        (remove_files-In stale marked (mark_uploaded file)).1 (
            let here = marked-In id t.files file m in
            let same : (file.id == id) ≡ true = ground arith in (rw same at here, ground arith)),
        λ c n i. (cascade-In stale marked (t.chunks ++ chunks) c).1 (
          n,
          elim (Bool-cases (has_file (λ f. stale f && f.id == c.file_id) marked)) [
            | inr x ↦ x
            | inl x ↦
                let (f, p, q) = has_file_sound (λ f. stale f && f.id == c.file_id) marked x in
                absurd (ground arith)
          ],
        ),
        λ f n s p.
            let q = (remove_files-In stale marked f).0 n in
            let (g, gm, ge) = In-marked id t.files f q.0 in
            elim (Bool-cases (g.id == id)) [
              | inl same ↦
                  ap (λ x. x.is_uploaded) ge
                  ∙ ap (λ b. (if b then mark_uploaded g else g).is_uploaded) same
              | inr other ↦
                  let is_g : f ≡ g = ge ∙ ap (λ b. if b then mark_uploaded g else g) other in
                  let eq : bytes_eq f.path file.path ≡ true =
                    ap (λ y. bytes_eq y file.path) p ∙ bytes_eq_refl file.path in
                  ground (arith, q.1, ap (λ x. x.id) is_g, eq)
            ],
        λ f n i k.
            let other : (f.id == id) ≡ false = ground arith in
            let there : In f marked = rw other at (marked-In id t.files f n) in
            (remove_files-In stale marked f).1 (
              there,
              elim (Bool-cases (bytes_eq f.path file.path)) [
                | inr d ↦ ground arith
                | inl d ↦
                    let eq = bytes_eq→eq f.path file.path d in
                    elim k [
                      | inl a ↦ ground arith
                      | inr (inl a) ↦ ground arith
                      | inr (inr a) ↦ absurd (a eq)
                    ]
              ],
            ),
      )
