-- ===== src/Files/Service.antt =====
-- internal/service/files.go over the statements of the repository: the checks of access, and the order of
-- Telegram and database. The manager's upload and download and the storage lookup are parameters.
use pentaract.Prelude.{ℕ, Bool, ◌&&◌, not, Option, none, some, List, if◌then◌else◌}
use pentaract.OrderedJobs.Spec.{Outcome, ok, err}
use pentaract.Domain.{File}
use pentaract.Access
use pentaract.Access.{Database, Row, AccessType, read, write, admin, require_storage_access}
use pentaract.Deleter
use pentaract.Deleter.{Telegram, delete_from_telegram}
use pentaract.Paths.{trim, join, is_empty}
use pentaract.Files.{
  Error, Tables, delete, delete_by_id, get_by_path, move, create_folder, create_file_if_not_exists,
}
use pentaract.Files.Listing.{has_slash, list_chunks_by_path, Element, list_dir, search}
use pentaract.Files.Naming.{create_file_anyway}

pub data Fault : Type 0 where
  denied : Access.Error → Fault
  repository : Error → Fault
  telegram : Deleter.Error → Fault
  name_required name_has_slash invalid_on_conflict no_files : Fault
  storage_lookup manager cancelled archive : ℕ → Fault

abbrev pub of_repository : Option Error × Tables → Option Fault × Tables
of_repository (none, t) = (none, t)
of_repository (some e, t) = (some (repository e), t)

-- The values of `on_conflict`: the empty text, the two constants, or another text.
pub data OnConflict : Type 0 where
  unset keep_both skip other : OnConflict

-- Go's (file, skipped, error): a file, `none` where the upload was skipped, or an error.
unfoldable pub upload_new :
    (File → Tables → Option ℕ × Tables) → File × Tables → Outcome Fault (Option File) × Tables
upload_new send (f, t) =
    let sent = send f t in (elim sent.0 [ some e ↦ err (manager e) | none ↦ ok (some f) ], sent.1)

unfoldable pub upload_unless_there :
    (File → Tables → Option ℕ × Tables)
    → Option File × Tables
    → Outcome Fault (Option File) × Tables
unfolding upload_new
upload_unless_there send (none, t) = (ok none, t)
upload_unless_there send (some f, t) = upload_new send (f, t)

module _ (db : Database) (rows : List Row) where
  unfoldable pub make_folder : ℕ → ℕ → ℕ → List ℕ → List ℕ → Tables → Option Fault × Tables
  unfolding require_storage_access create_folder trim join has_slash
  make_folder id user storage path folder_name t =
      elim (require_storage_access db user storage write rows) [
        | some e ↦ (some (denied e), t)
        | none ↦
            let name = trim folder_name in
            if is_empty name
            then (some name_required, t)
            else if has_slash name
            then (some name_has_slash, t)
            else of_repository (create_folder id storage (join path name) t)
      ]

  unfoldable pub upload :
      (File → Tables → Option ℕ × Tables)
      → ℕ
      → ℕ
      → ℕ
      → List ℕ
      → ℕ
      → OnConflict
      → Tables
      → Outcome Fault (Option File) × Tables
  unfolding require_storage_access create_file_anyway create_file_if_not_exists upload_new
      upload_unless_there
  upload send id user storage path size on_conflict t =
      elim (require_storage_access db user storage write rows) [
        | some e ↦ (err (denied e), t)
        | none ↦ elim on_conflict [
          | unset ↦ upload_new send (create_file_anyway id path size storage t)
          | keep_both ↦ upload_new send (create_file_anyway id path size storage t)
          | skip ↦ upload_unless_there send (create_file_if_not_exists id path size storage t)
          | other ↦ (err invalid_on_conflict, t)
        ]
      ]

  unfoldable pub get_file_for_download : ℕ → ℕ → List ℕ → Tables → Outcome Fault File
  unfolding require_storage_access get_by_path
  get_file_for_download user storage path t =
      elim (require_storage_access db user storage read rows) [
        | some e ↦ err (denied e)
        | none ↦ elim (get_by_path storage path t) [ ok f ↦ ok f | err e ↦ err (repository e) ]
      ]

  unfoldable pub show_dir :
      (List ℕ → List ℕ → Bool) → ℕ → ℕ → List ℕ → Tables → Outcome Fault (List Element)
  unfolding require_storage_access list_dir
  show_dir collate user storage path t = elim (require_storage_access db user storage read rows) [
    | some e ↦ err (denied e)
    | none ↦ ok (list_dir collate storage path t)
  ]

  unfoldable pub find :
      (List ℕ → List ℕ → Bool) → ℕ → ℕ → List ℕ → List ℕ → Tables → Outcome Fault (List Element)
  unfolding require_storage_access search
  find collate user storage base text t = elim (require_storage_access db user storage read rows) [
    | some e ↦ err (denied e)
    | none ↦ ok (search collate storage base text t)
  ]

  unfoldable pub cleanup_cancelled_upload : ℕ → ℕ → ℕ → Tables → Option Fault × Tables
  unfolding require_storage_access delete_by_id
  cleanup_cancelled_upload user storage file_id t =
      elim (require_storage_access db user storage write rows) [
        | some e ↦ (some (denied e), t)
        | none ↦ of_repository (delete_by_id file_id t)
      ]

  -- The storage is looked up for the deletion; the progress is started anew.
  unfoldable pub remove :
      Telegram
      → Option ℕ
      → ℕ
      → ℕ
      → List ℕ
      → Bool
      → Deleter.Progress
      → Tables
      → Option Fault × Tables
  unfolding require_storage_access list_chunks_by_path delete_from_telegram delete
  remove tg lookup_failure user storage path force_delete progress t =
      elim (require_storage_access db user storage admin rows) [
        | some e ↦ (some (denied e), t)
        | none ↦
            let chunks = list_chunks_by_path storage path t in
            elim lookup_failure [
              | some e ↦ (some (storage_lookup e), t)
              | none ↦
                  if not force_delete && not (is_empty chunks)
                  then elim (delete_from_telegram tg chunks progress).0 [
                    | some e ↦ (some (telegram e), t)
                    | none ↦ of_repository (delete storage path t)
                  ]
                  else of_repository (delete storage path t)
            ]
      ]

  unfoldable pub rename : ℕ → ℕ → List ℕ → List ℕ → Tables → Option Fault × Tables
  unfolding require_storage_access move
  rename user storage old_path new_path t =
      elim (require_storage_access db user storage write rows) [
        | some e ↦ (some (denied e), t)
        | none ↦ of_repository (move storage old_path new_path t)
      ]
