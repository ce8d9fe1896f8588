-- ===== src/Files.antt =====
-- internal/repository/files.go: the rows of `files` and `file_chunks` and the statements that change
-- them. Texts are lists of characters, as the database counts them; ids are numbers, and the id of a new
-- row is the database's. Paths are not unique. A statement that fails changes nothing and is not modelled.
pub mod Like
pub mod Subtree
pub mod Move
pub mod MoveBack
pub mod Marked
pub mod Naming
pub mod Decimal
pub mod Fresh
pub mod Listing
pub mod Shown
pub mod Directory
pub mod Searched
pub mod Ordered
pub mod Totals
pub mod Service
pub mod Removal
pub mod Permissions
pub mod Archive
mod Examples
use pentaract.Prelude.{
  ℕ, Bool, true, false, ◌&&◌, ◌||◌, not, Option, none, some, List, [], ◌∷◌, ◌++◌, ◌==◌,
  if◌then◌else◌, bytes, bytes_eq, drop, length,
}
use pentaract.OrderedJobs.Spec.{Outcome, ok, err}
use pentaract.Domain.{File, FileChunk}
use pentaract.Files.Like.{like}

pub data Error : Type 0 where
  not_found already_exists missing_file : Error

pub record Tables : Type 0 where
  pub files : List File
  pub chunks : List FileChunk

-- `storage_id = $1 AND path = $2`.
unfoldable pub is_at : ℕ → List ℕ → File → Bool
is_at storage path f = f.storage_id == storage && bytes_eq f.path path

-- `storage_id = $1 AND path LIKE $2 || '/%'`.
unfoldable pub is_under : ℕ → List ℕ → File → Bool
is_under storage path f = f.storage_id == storage && like f.path (path ++ bytes "/%")

-- `storage_id = $1 AND (path = $2 OR path LIKE $3)`.
unfoldable pub is_at_or_under : ℕ → List ℕ → File → Bool
is_at_or_under storage path f =
    f.storage_id == storage && (bytes_eq f.path path || like f.path (path ++ bytes "/%"))

unfoldable pub has_file : (File → Bool) → List File → Bool
has_file test [] = false
has_file test (f ∷ fs) = test f || has_file test fs

unfoldable pub find_file : (File → Bool) → List File → Option File
find_file test [] = none
find_file test (f ∷ fs) = let rest = find_file test fs in if test f then some f else rest

unfoldable pub remove_files : (File → Bool) → List File → List File
remove_files test [] = []
remove_files test (f ∷ fs) = let rest = remove_files test fs in if test f then rest else f ∷ rest

-- ON DELETE CASCADE: the chunks of the removed files.
unfoldable pub cascade : (File → Bool) → List File → List FileChunk → List FileChunk
unfolding has_file
cascade test fs [] = []
cascade test fs (c ∷ cs) =
    let rest = cascade test fs cs in
    if has_file (λ f. test f && f.id == c.file_id) fs then rest else c ∷ rest

unfoldable pub delete_where : (File → Bool) → Tables → Tables
unfolding remove_files cascade
delete_where test t = record {
  files = remove_files test t.files;
  chunks = cascade test t.files t.chunks;
}

unfoldable pub map_files : (File → Bool) → (File → File) → List File → List File
map_files test change [] = []
map_files test change (f ∷ fs) = (if test f then change f else f) ∷ map_files test change fs

-- `execAffecting`: a statement that has to find a row.
unfoldable pub exec_affecting : (File → Bool) → Tables → Tables → Option Error × Tables
unfolding has_file
exec_affecting test t t' = if has_file test t.files then (none, t') else (some not_found, t)

unfoldable pub delete_by_id : ℕ → Tables → Option Error × Tables
unfolding exec_affecting delete_where
delete_by_id id t =
    let test = λ (f : File). f.id == id in exec_affecting test t (delete_where test t)

unfoldable pub delete : ℕ → List ℕ → Tables → Option Error × Tables
unfolding exec_affecting delete_where is_at_or_under
delete storage path t =
    let test = is_at_or_under storage path in exec_affecting test t (delete_where test t)

unfoldable pub get_by_path : ℕ → List ℕ → Tables → Outcome Error File
unfolding find_file is_at
get_by_path storage path t = elim (find_file (is_at storage path) t.files) [
  | some f ↦ ok f
  | none ↦ err not_found
]

-- Both statements of `Move`.
unfoldable pub move_file : List ℕ → File → File
move_file new f = record f { path = new }

unfoldable pub move_under : List ℕ → List ℕ → File → File
move_under old new f = record f { path = new ++ drop (length old) f.path }

unfoldable pub move : ℕ → List ℕ → List ℕ → Tables → Option Error × Tables
unfolding has_file is_at is_under map_files move_file move_under exec_affecting
move storage old new t =
    if has_file (is_at storage old) t.files
    then (none, record t { files = map_files (is_at storage old) (move_file new) t.files })
    else exec_affecting (is_under storage old) t
        (record t { files = map_files (is_under storage old) (move_under old new) t.files })

unfoldable pub create_folder : ℕ → ℕ → List ℕ → Tables → Option Error × Tables
unfolding has_file
create_folder id storage path t =
    let placeholder : File = record {
      id = id;
      path = path ++ bytes "/.folder";
      size = 0;
      storage_id = storage;
      is_uploaded = true;
    } in
    if has_file (λ f. f.storage_id == storage && like f.path ((path ++ bytes "/") ++ bytes "%"))
      t.files
    then (some already_exists, t)
    else (none, record t { files = placeholder ∷ t.files })

-- The new row, or `none` where a completed upload has the path.
unfoldable pub create_file_if_not_exists : ℕ → List ℕ → ℕ → ℕ → Tables → Option File × Tables
unfolding has_file is_at
create_file_if_not_exists id path size storage t =
    let f : File = record {
      id = id;
      path = path;
      size = size;
      storage_id = storage;
      is_uploaded = false;
    } in
    if has_file (λ g. is_at storage path g && g.is_uploaded) t.files
    then (none, t)
    else (some f, record t { files = f ∷ t.files })

-- The foreign key of the new chunks.
unfoldable pub have_files : List FileChunk → List File → Bool
unfolding has_file
have_files [] fs = true
have_files (c ∷ cs) fs = has_file (λ f. f.id == c.file_id) fs && have_files cs fs

-- The other unfinished rows of the same path, where the file is there.
unfoldable pub is_stale : ℕ → Option File → File → Bool
is_stale id none f = false
is_stale id (some g) f =
    not (f.id == id) && not f.is_uploaded && f.storage_id == g.storage_id && bytes_eq f.path g.path

unfoldable pub mark_uploaded : File → File
mark_uploaded f = record f { is_uploaded = true }

unfoldable pub create_chunks_and_mark_uploaded : ℕ → List FileChunk → Tables → Option Error × Tables
unfolding have_files map_files mark_uploaded find_file is_stale delete_where
create_chunks_and_mark_uploaded id chunks t =
    let marked = map_files (λ f. f.id == id) mark_uploaded t.files in
    let t' : Tables = record { files = marked; chunks = t.chunks ++ chunks } in
    if have_files chunks t.files
    then (none, delete_where (is_stale id (find_file (λ f. f.id == id) marked)) t')
    else (some missing_file, t)
