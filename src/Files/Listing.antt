-- ===== src/Files/Listing.antt =====
-- The queries of internal/repository/files.go. The order of texts is the collation of the database, a
-- parameter; of the rows with one name, `DISTINCT ON` keeps one that the database chooses, here the last.
use pentaract.Prelude.{
  ℕ, ◌+◌, Bool, true, false, ◌&&◌, ◌||◌, not, List, [], ◌∷◌, ◌++◌, ◌==◌, if◌then◌else◌, ltb, leb,
  bytes, bytes_eq, length, drop,
}
use pentaract.Domain.{File, FileChunk}
use pentaract.Paths.{dir_prefix, split_dir_and_file, slash}
use pentaract.Files.{Tables, is_at_or_under, has_file}
use pentaract.Files.Like.{like}

-- domain.FSElement.
pub record Element : Type 0 where
  pub path : List ℕ
  pub name : List ℕ
  pub size : ℕ
  pub is_file : Bool

unfoldable pub before_slash : List ℕ → List ℕ
before_slash [] = []
before_slash (c ∷ s) = let rest = before_slash s in if c == slash then [] else c ∷ rest

unfoldable pub has_slash : List ℕ → Bool
has_slash [] = false
has_slash (c ∷ s) = c == slash || has_slash s

-- A row of the query, with the path that the loop gives it.
unfoldable pub element : List ℕ → File → Element
unfolding before_slash has_slash
element prefix f =
    let rest = drop (length prefix) f.path in
    if has_slash rest
    then record {
      path = prefix ++ (before_slash rest ++ slash ∷ []);
      name = before_slash rest;
      size = 0;
      is_file = false;
    }
    else record { path = f.path; name = rest; size = f.size; is_file = true }

unfoldable pub is_listed : ℕ → List ℕ → File → Bool
unfolding like
is_listed storage prefix f =
    f.storage_id == storage
    && like f.path (prefix ++ bytes "%")
    && f.is_uploaded
    && ltb (length prefix) (length f.path)

unfoldable pub elements : ℕ → List ℕ → List File → List Element
unfolding is_listed element
elements storage prefix [] = []
elements storage prefix (f ∷ fs) =
    let rest = elements storage prefix fs in
    if is_listed storage prefix f then element prefix f ∷ rest else rest

unfoldable pub has_name : List ℕ → List Element → Bool
has_name name [] = false
has_name name (e ∷ es) = bytes_eq e.name name || has_name name es

unfoldable pub distinct_on_name : List Element → List Element
unfolding has_name
distinct_on_name [] = []
distinct_on_name (e ∷ es) =
    let rest = distinct_on_name es in if has_name e.name rest then rest else e ∷ rest

module _ {A : Type 0} (le : A → A → Bool) where
  unfoldable pub insert_by : A → List A → List A
  insert_by x [] = x ∷ []
  insert_by x (y ∷ ys) = let rest = insert_by x ys in if le x y then x ∷ y ∷ ys else y ∷ rest

  unfoldable pub order_by : List A → List A
  unfolding insert_by
  order_by [] = []
  order_by (x ∷ xs) = insert_by x (order_by xs)

-- The loop hides the placeholders of folders.
unfoldable pub hide_placeholders : List Element → List Element
hide_placeholders [] = []
hide_placeholders (e ∷ es) =
    let rest = hide_placeholders es in
    if e.is_file && bytes_eq e.name (bytes ".folder") then rest else e ∷ rest

unfoldable pub list_dir : (List ℕ → List ℕ → Bool) → ℕ → List ℕ → Tables → List Element
unfolding elements distinct_on_name order_by hide_placeholders dir_prefix
list_dir collate storage path t = hide_placeholders (
    order_by (λ a b. collate a.name b.name)
      (distinct_on_name (elements storage (dir_prefix path) t.files)))

-- strings.NewReplacer("%", `\%`, "_", `\_`).
unfoldable pub escape : List ℕ → List ℕ
escape [] = []
escape (c ∷ s) =
    let rest = escape s in if c == b'%' || c == b'_' then b'\\' ∷ c ∷ rest else c ∷ rest

unfoldable pub is_found : ℕ → List ℕ → List ℕ → File → Bool
unfolding escape like
is_found storage prefix search f =
    f.storage_id == storage
    && like f.path (prefix ++ bytes "%")
    && like f.path (b'%' ∷ escape search ++ bytes "%")
    && f.is_uploaded
    && not (like f.path (bytes "%/.folder"))

unfoldable pub rows_where : (File → Bool) → List File → List File
rows_where test [] = []
rows_where test (f ∷ fs) = let rest = rows_where test fs in if test f then f ∷ rest else rest

unfoldable pub found_element : File → Element
unfolding split_dir_and_file
found_element f = record {
  path = f.path;
  name = (split_dir_and_file f.path).1;
  size = f.size;
  is_file = true;
}

unfoldable pub found_elements : List File → List Element
unfolding found_element
found_elements [] = []
found_elements (f ∷ fs) = found_element f ∷ found_elements fs

unfoldable pub search : (List ℕ → List ℕ → Bool) → ℕ → List ℕ → List ℕ → Tables → List Element
unfolding rows_where is_found order_by found_elements dir_prefix
search collate storage base text t = found_elements (
    order_by (λ a b. collate a.path b.path)
      (rows_where (is_found storage (dir_prefix base) text) t.files))

-- The uploaded files below a directory, without placeholders.
unfoldable pub is_stored_under : ℕ → List ℕ → File → Bool
unfolding like
is_stored_under storage prefix f =
    f.storage_id == storage
    && like f.path (prefix ++ bytes "%")
    && f.is_uploaded
    && not (like f.path (bytes "%/.folder"))

unfoldable pub list_files_under_path : (List ℕ → List ℕ → Bool) → ℕ → List ℕ → Tables → List File
unfolding rows_where is_stored_under order_by dir_prefix
list_files_under_path collate storage path t =
    order_by (λ a b. collate a.path b.path)
      (rows_where (is_stored_under storage (dir_prefix path)) t.files)

unfoldable pub total_size : List File → ℕ
total_size [] = 0
total_size (f ∷ fs) = f.size + total_size fs

unfoldable pub chunks_of : (File → Bool) → List File → List FileChunk → List FileChunk
unfolding has_file
chunks_of test fs [] = []
chunks_of test fs (c ∷ cs) =
    let rest = chunks_of test fs cs in
    if has_file (λ f. test f && f.id == c.file_id) fs then c ∷ rest else rest

-- The sum of the sizes and the number of chunks.
unfoldable pub dir_stats : ℕ → List ℕ → Tables → ℕ × ℕ
unfolding rows_where is_stored_under total_size chunks_of dir_prefix
dir_stats storage path t =
    let test = is_stored_under storage (dir_prefix path) in
    (total_size (rows_where test t.files), length (chunks_of test t.files t.chunks))

-- `ORDER BY file_id, position`.
unfoldable pub chunk_before : FileChunk → FileChunk → Bool
chunk_before a b = ltb a.file_id b.file_id || (a.file_id == b.file_id && leb a.position b.position)

unfoldable pub list_chunks_by_path : ℕ → List ℕ → Tables → List FileChunk
unfolding chunks_of is_at_or_under order_by chunk_before
list_chunks_by_path storage path t =
    order_by chunk_before (chunks_of (is_at_or_under storage path) t.files t.chunks)

unfoldable pub list_chunks_by_storage : ℕ → Tables → List FileChunk
unfolding chunks_of order_by chunk_before
list_chunks_by_storage storage t =
    order_by chunk_before (chunks_of (λ f. f.storage_id == storage) t.files t.chunks)

unfoldable pub chunks_of_file : ℕ → List FileChunk → List FileChunk
chunks_of_file id [] = []
chunks_of_file id (c ∷ cs) =
    let rest = chunks_of_file id cs in if c.file_id == id then c ∷ rest else rest

unfoldable pub list_chunks : ℕ → Tables → List FileChunk
unfolding chunks_of_file order_by
list_chunks id t = order_by (λ a b. leb a.position b.position) (chunks_of_file id t.chunks)
