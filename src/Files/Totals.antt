-- ===== src/Files/Totals.antt =====
-- The totals of a directory are those of the files that its archive holds.
use pentaract.Prelude.{
  ℕ, ◌+◌, ◌≡◌, refl, ap, sym, ◌∙◌, inl, inr, Bool, false, ◌&&◌, List, [], ◌∷◌, ◌==◌, if◌then◌else◌,
  arith, Bool-cases, length, leb,
}
use pentaract.Domain.{File, FileChunk}
use pentaract.Paths.{dir_prefix}
use pentaract.Files.{Tables, has_file}
use pentaract.Files.Listing.{
  rows_where, order_by, total_size, chunks_of, chunks_of_file, dir_stats, list_files_under_path,
  list_chunks, is_stored_under,
}
use pentaract.Files.Ordered.{sum_by, sum_by-order_by}

-- The ids of the rows are a primary key.
abbrev pub PrimaryKey : List File → Type 0
PrimaryKey [] = Unit
PrimaryKey (f ∷ fs) = (has_file (λ g. g.id == f.id) fs ≡ false) × PrimaryKey fs

total_size-sum_by : (fs : List File) → total_size fs ≡ sum_by (λ f. f.size) fs
unfolding total_size sum_by
total_size-sum_by [] = refl
total_size-sum_by (f ∷ fs) = omega (arith, total_size-sum_by fs)

length-sum_by : (cs : List FileChunk) → length cs ≡ sum_by (λ c. 1) cs
unfolding sum_by
length-sum_by [] = refl
length-sum_by (c ∷ cs) = omega (arith, length-sum_by cs)

-- 1 for a file that has the chunk.
abbrev owns : FileChunk → File → ℕ
owns c f = if c.file_id == f.id then 1 else 0

absent :
    (test : File → Bool) (id : ℕ) (fs : List File) (c : FileChunk)
    → c.file_id ≡ id
    → has_file (λ g. g.id == id) fs ≡ false
    → sum_by (owns c) (rows_where test fs) ≡ 0
unfolding has_file sum_by rows_where
absent test id [] c e h = refl
absent test id (f ∷ fs) c e h = ground (arith, absent test id fs c e)

owner :
    (test : File → Bool) (fs : List File) (c : FileChunk)
    → PrimaryKey fs
    → sum_by (owns c) (rows_where test fs)
      ≡ (if has_file (λ f. test f && f.id == c.file_id) fs then 1 else 0)
unfolding has_file sum_by rows_where
owner test [] c k = refl
owner test (f ∷ fs) c k = elim (Bool-cases (c.file_id == f.id)) [
  | inr other ↦ ground (arith, owner test fs c k.1)
  | inl same ↦
      let none_left = absent test f.id fs c (ground arith) k.0 in
      ground (arith, owner test fs c k.1, none_left)
]

sum_by-add :
    (a b : File → ℕ) (fs : List File) → sum_by (λ f. a f + b f) fs ≡ sum_by a fs + sum_by b fs
unfolding sum_by
sum_by-add a b [] = refl
sum_by-add a b (f ∷ fs) = omega (arith, sum_by-add a b fs)

sum_by-ext :
    (a b : File → ℕ) (fs : List File) → ((f : File) → a f ≡ b f) → sum_by a fs ≡ sum_by b fs
unfolding sum_by
sum_by-ext a b [] h = refl
sum_by-ext a b (f ∷ fs) h = omega (arith, h f, sum_by-ext a b fs h)

sum_by_zero : (fs : List File) → sum_by (λ f. 0) fs ≡ 0
unfolding sum_by
sum_by_zero [] = refl
sum_by_zero (f ∷ fs) = omega (arith, sum_by_zero fs)

length-chunks_of :
    (test : File → Bool) (fs : List File) (cs : List FileChunk)
    → PrimaryKey fs
    → length (chunks_of test fs cs)
      ≡ sum_by (λ f. length (chunks_of_file f.id cs)) (rows_where test fs)
unfolding chunks_of chunks_of_file
length-chunks_of test fs [] k = sym (sum_by_zero (rows_where test fs))
length-chunks_of test fs (c ∷ cs) k =
    let rows = rows_where test fs in
    let split =
      sum_by-ext (λ f. length (chunks_of_file f.id (c ∷ cs)))
        (λ f. owns c f + length (chunks_of_file f.id cs)) rows (λ f. ground arith)
      ∙ sum_by-add (owns c) (λ f. length (chunks_of_file f.id cs)) rows in
    let ih = length-chunks_of test fs cs k in
    elim (Bool-cases (has_file (λ f. test f && f.id == c.file_id) fs)) [
      | inl e ↦
          rw (chunks_of, e)
            (omega (arith, split, ih, owner test fs c k ∙ ap (λ b. if b then 1 else 0) e))
      | inr e ↦
          rw (chunks_of, e)
            (omega (arith, split, ih, owner test fs c k ∙ ap (λ b. if b then 1 else 0) e))
    ]

length-list_chunks :
    (id : ℕ) (t : Tables) → length (list_chunks id t) ≡ length (chunks_of_file id t.chunks)
unfolding list_chunks
length-list_chunks id t =
    length-sum_by (list_chunks id t)
    ∙ sum_by-order_by (λ a b. leb a.position b.position) (λ c. 1) (chunks_of_file id t.chunks)
    ∙ sym (length-sum_by (chunks_of_file id t.chunks))

-- The totals that a directory's download announces are those of the files in its archive: the sum of their
-- sizes, and the number of all their chunks (the ids of the files being a primary key).
pub dir_stats-list_files_under_path :
    (collate : List ℕ → List ℕ → Bool) (storage : ℕ) (path : List ℕ) (t : Tables)
    → PrimaryKey t.files
    → let fs = list_files_under_path collate storage path t in
      ((dir_stats storage path t).0 ≡ total_size fs)
      × ((dir_stats storage path t).1 ≡ sum_by (λ f. length (list_chunks f.id t)) fs)
unfolding dir_stats list_files_under_path
dir_stats-list_files_under_path collate storage path t k =
    let test = is_stored_under storage (dir_prefix path) in
    let le = λ (a b : File). collate a.path b.path in
    let rows = rows_where test t.files in
    (
      total_size-sum_by rows
          ∙ sym (sum_by-order_by le (λ f. f.size) rows)
          ∙ sym (total_size-sum_by (order_by le rows)),
      length-chunks_of test t.files t.chunks k
          ∙ sum_by-ext (λ f. length (chunks_of_file f.id t.chunks))
              (λ f. length (list_chunks f.id t)) rows (λ f. sym (length-list_chunks f.id t))
          ∙ sym (sum_by-order_by le (λ f. length (list_chunks f.id t)) rows),
    )
