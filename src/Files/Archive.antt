-- ===== src/Files/Archive.antt =====
-- `DownloadDir` of internal/service/files.go: the archive of a directory as the list of its entries. The
-- content of a file, a failing entry and the end of the request are the answers of `Source`.
use pentaract.Prelude.{
  ℕ, ◌≡◌, ◌≢◌, refl, ap, ◌∙◌, ◌↔◌, ◌++◌, inl, inr, Bool, true, Option, none, some, List, [], ◌∷◌,
  if◌then◌else◌, arith, Bool-cases, Option-cases,
}
use pentaract.OrderedJobs.Spec.{Outcome, ok, err, Outcome-cases}
use pentaract.Domain.{File}
use pentaract.Access.{Database, Row, read, has_access, require_storage_access}
use pentaract.Access.Rules.{require-none}
use pentaract.Paths.{is_empty, dir_prefix, archive_name}
use pentaract.Files.{Tables}
use pentaract.Files.Like.{strip, strip-append, is_plain}
use pentaract.Files.Listing.{is_stored_under, rows_where, list_files_under_path, dir_stats}
use pentaract.Files.Ordered.{In-order_by, In-rows_where}
use pentaract.Files.Searched.{IsPlaceholder, begins-with, not-IsPlaceholder}
use pentaract.Prelude.Members.{In}
use pentaract.Files.Service.{Fault, denied, no_files, manager, cancelled, archive}

pub record Source : Type 0 where
  pub ended : File → Option ℕ
  pub create_failure : List ℕ → Option ℕ
  pub content : File → Outcome ℕ (List ℕ)
  pub close_failure : Option ℕ

pub record Entry : Type 0 where
  pub name : List ℕ
  pub content : List ℕ

-- strings.TrimPrefix.
unfoldable pub trim_prefix : List ℕ → List ℕ → List ℕ
unfolding strip
trim_prefix path prefix = elim (strip prefix path) [ some rest ↦ rest | none ↦ path ]

-- The entries that were written in full, and the first error.
unfoldable pub download_dir_files_to_zip : Source → List ℕ → List File → Option Fault × List Entry
unfolding trim_prefix
download_dir_files_to_zip src prefix [] = (none, [])
download_dir_files_to_zip src prefix (f ∷ fs) =
    let name = trim_prefix f.path prefix in
    elim (src.ended f) [
      | some e ↦ (some (cancelled e), [])
      | none ↦ elim (src.create_failure name) [
        | some e ↦ (some (archive e), [])
        | none ↦ elim (src.content f) [
          | err e ↦ (some (manager e), [])
          | ok bytes ↦
              let rest = download_dir_files_to_zip src prefix fs in
              (rest.0, record { name = name; content = bytes } ∷ rest.1)
        ]
      ]
    ]

-- The name of the archive, or the error; what was written; and the totals that the progress shows.
unfoldable pub download_dir :
    Source
    → Database
    → List Row
    → (List ℕ → List ℕ → Bool)
    → ℕ
    → ℕ
    → List ℕ
    → Tables
    → Outcome Fault (List ℕ) × List Entry × (ℕ × ℕ)
unfolding require_storage_access list_files_under_path download_dir_files_to_zip dir_stats
    archive_name dir_prefix
download_dir src db rows collate user storage path t =
    let fs = list_files_under_path collate storage path t in
    let zip = download_dir_files_to_zip src (dir_prefix path) fs in
    elim (require_storage_access db user storage read rows) [
      | some e ↦ (err (denied e), [], (0, 0))
      | none ↦ if is_empty fs then (err no_files, [], dir_stats storage path t) else elim zip.0 [
        | some e ↦ (err e, zip.1, dir_stats storage path t)
        | none ↦ elim src.close_failure [
          | some e ↦ (err (archive e), zip.1, dir_stats storage path t)
          | none ↦ (ok (archive_name path), zip.1, dir_stats storage path t)
        ]
      ]
    ]

-- An uploaded file of the storage that stands below the prefix and is no placeholder of a folder.
abbrev pub IsStored : ℕ → List ℕ → File → Type 0
IsStored storage prefix f =
    (f.storage_id ≡ storage)
    × ((rest : List ℕ) × (f.path ≡ prefix ++ rest))
    × (f.is_uploaded ≡ true)
    × (¬ IsPlaceholder f.path)

is_stored_under-IsStored :
    (storage : ℕ) (prefix : List ℕ) (f : File)
    → is_plain prefix ≡ true
    → (is_stored_under storage prefix f ≡ true) ↔ IsStored storage prefix f
unfolding is_stored_under
is_stored_under-IsStored storage prefix f h =
    let p = begins-with prefix f.path h in
    let r = not-IsPlaceholder f.path in
    (
      λ m. (ground arith, p.0 (ground arith), ground arith, r.0 (ground arith)),
      λ (s, b, u, n). let x = p.1 b in let z = r.1 n in ground arith,
    )

-- The files that the archive is made of.
In-list_files_under_path :
    (collate : List ℕ → List ℕ → Bool) (storage : ℕ) (path : List ℕ) (t : Tables) (f : File)
    → is_plain (dir_prefix path) ≡ true
    → In f (list_files_under_path collate storage path t)
      ↔ (In f t.files × IsStored storage (dir_prefix path) f)
unfolding list_files_under_path
In-list_files_under_path collate storage path t f h =
    let le = λ (a b : File). collate a.path b.path in
    let test = is_stored_under storage (dir_prefix path) in
    let o = In-order_by le (rows_where test t.files) f in
    let w = In-rows_where test t.files f in
    let s = is_stored_under-IsStored storage (dir_prefix path) f h in
    (λ m. let r = w.0 (o.0 m) in (r.0, s.0 r.1), λ m. o.1 (w.1 (m.0, s.1 m.1)))

-- Entry by entry, the files with their paths from the directory on and their content.
abbrev pub IsArchive : Source → List ℕ → List File → List Entry → Type 0
IsArchive src prefix [] [] = Unit
IsArchive src prefix [] (e ∷ es) = ⊥
IsArchive src prefix (f ∷ fs) [] = ⊥
IsArchive src prefix (f ∷ fs) (e ∷ es) =
    ((f.path ≡ prefix ++ e.name) × (src.content f ≡ ok e.content)) × IsArchive src prefix fs es

trim_prefix-below :
    (path prefix rest : List ℕ) → path ≡ prefix ++ rest → path ≡ prefix ++ trim_prefix path prefix
unfolding trim_prefix
trim_prefix-below path prefix rest e =
    let p : strip prefix path ≡ some rest = ap (strip prefix) e ∙ strip-append prefix rest in
    rw (trim_prefix, p) e

download_dir_files_to_zip_sound :
    (src : Source) (prefix : List ℕ) (fs : List File)
    → ((f : File) → In f fs → (rest : List ℕ) × (f.path ≡ prefix ++ rest))
    → (download_dir_files_to_zip src prefix fs).0 ≡ none
    → IsArchive src prefix fs (download_dir_files_to_zip src prefix fs).1
unfolding download_dir_files_to_zip
download_dir_files_to_zip_sound src prefix [] below h = tt
download_dir_files_to_zip_sound src prefix (f ∷ fs) below h = elim (Option-cases (src.ended f)) [
  | inr (x, e) ↦ absurd (ground arith)
  | inl e ↦ elim (Option-cases (src.create_failure (trim_prefix f.path prefix))) [
    | inr (x, c) ↦ absurd (ground arith)
    | inl c ↦ elim (Outcome-cases (src.content f)) [
      | inl (x, d) ↦ absurd (ground arith)
      | inr (b, d) ↦
          let (rest, q) = below f (inl refl) in
          rw (download_dir_files_to_zip, e, c, d)
            (
              (trim_prefix-below f.path prefix rest q, d),
              download_dir_files_to_zip_sound src prefix fs (λ g m. below g (inr m))
                  (rw (download_dir_files_to_zip, e, c, d) at h),
            )
    ]
  ]
]

-- A download that succeeds, of a directory whose path has none of the characters % _ \, was allowed to read, and its
-- entries are, one by one, those of a list of files that is not empty and holds exactly the uploaded
-- files of the storage below the directory that are no placeholders of folders: each entry has the
-- file's path from the directory on as its name, and the whole content.
pub download_dir-IsArchive :
    (src : Source) (db : Database) (rows : List Row) (collate : List ℕ → List ℕ → Bool)
    (user storage : ℕ) (path name : List ℕ) (t : Tables)
    → is_plain (dir_prefix path) ≡ true
    → (download_dir src db rows collate user storage path t).0 ≡ ok name
    → (has_access user storage read rows ≡ true)
      × ((fs : List File) × (fs ≢ [])
          × ((f : File) → In f fs ↔ (In f t.files × IsStored storage (dir_prefix path) f))
          × IsArchive src
              (dir_prefix path)
              fs
              (download_dir src db rows collate user storage path t).1)
      × (name ≡ archive_name path)
unfolding download_dir
download_dir-IsArchive src db rows collate user storage path name t plain h =
    let fs = list_files_under_path collate storage path t in
    let members = λ (f : File). In-list_files_under_path collate storage path t f plain in
    let zip = download_dir_files_to_zip src (dir_prefix path) fs in
    elim (Option-cases (require_storage_access db user storage read rows)) [
      | inr (x, e) ↦ absurd (ground arith)
      | inl e ↦ elim (Bool-cases (is_empty fs)) [
        | inl n ↦ absurd (ground arith)
        | inr n ↦ elim (Option-cases zip.0) [
          | inr (x, z) ↦ absurd (ground arith)
          | inl z ↦ elim (Option-cases src.close_failure) [
            | inr (x, c) ↦ absurd (ground arith)
            | inl c ↦ (
              require-none db user storage read rows e,
              (
                fs,
                λ none_there. absurd (ground (arith, ap is_empty none_there)),
                members,
                rw (download_dir, e, n, z, c)
                    (download_dir_files_to_zip_sound src (dir_prefix path) fs
                      (λ f m. ((members f).0 m).1.1) z),
              ),
              ground arith,
            )
          ]
        ]
      ]
    ]
