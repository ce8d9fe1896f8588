-- ===== src/Files/Permissions.antt =====
-- What the files service refuses, and what an upload does with a path that is taken.
use pentaract.Prelude.{
  ℕ, ◌≡◌, ◌≢◌, refl, inl, inr, Bool, false, Option, none, some, List, arith, Option-cases,
}
use pentaract.OrderedJobs.Spec.{Outcome, ok, err}
use pentaract.Domain.{File}
use pentaract.Access
use pentaract.Access.{Database, Row, AccessType, write, admin, has_access, require_storage_access}
use pentaract.Deleter
use pentaract.Deleter.{Telegram}
use pentaract.Files.{Tables}
use pentaract.Files.Service.{
  Fault, OnConflict, make_folder, upload, cleanup_cancelled_upload, remove, rename,
}

-- A request that changes the tables.
pub data Request : Type 0 where
  ask_folder : ℕ → List ℕ → List ℕ → Request
  ask_upload : (File → Tables → Option ℕ × Tables) → ℕ → List ℕ → ℕ → OnConflict → Request
  ask_cleanup : ℕ → Request
  ask_remove : Telegram → Option ℕ → List ℕ → Bool → Deleter.Progress → Request
  ask_rename : List ℕ → List ℕ → Request

abbrev pub needed : Request → AccessType
needed (ask_folder id path name) = write
needed (ask_upload send id path size on_conflict) = write
needed (ask_cleanup id) = write
needed (ask_remove tg lookup path force progress) = admin
needed (ask_rename old new) = write

abbrev error_of : Outcome Fault (Option File) → Option Fault
error_of (ok f) = none
error_of (err e) = some e

-- The request of a user on a storage.
pub handle : Database → List Row → ℕ → ℕ → Request → Tables → Option Fault × Tables
unfolding make_folder upload cleanup_cancelled_upload remove rename
handle db rows user storage (ask_folder id path name) t =
    make_folder db rows id user storage path name t
handle db rows user storage (ask_upload send id path size on_conflict) t =
    let r = upload db rows send id user storage path size on_conflict t in (error_of r.0, r.1)
handle db rows user storage (ask_cleanup id) t = cleanup_cancelled_upload db rows user storage id t
handle db rows user storage (ask_remove tg lookup path force progress) t =
    remove db rows tg lookup user storage path force progress t
handle db rows user storage (ask_rename old new) t = rename db rows user storage old new t

refused :
    (db : Database) (rows : List Row) (user storage : ℕ) (level : AccessType)
    → has_access user storage level rows ≡ false
    → (e : Access.Error) × (require_storage_access db user storage level rows ≡ some e)
unfolding require_storage_access
refused db rows user storage level h = elim (Option-cases db.access_failure) [
  | inl n ↦ (Access.forbidden, rw (require_storage_access, n, h))
  | inr (e, n) ↦ (Access.database e, rw (require_storage_access, n))
]

-- Without the access that it needs (write, and for a removal, forced or not, admin) a request fails and changes no
-- row.
pub handle-denied :
    (db : Database) (rows : List Row) (user storage : ℕ) (r : Request) (t : Tables)
    → has_access user storage (needed r) rows ≡ false
    → ((handle db rows user storage r t).0 ≢ none) × ((handle db rows user storage r t).1 ≡ t)
unfolding handle make_folder upload cleanup_cancelled_upload remove rename
handle-denied db rows user storage (ask_folder id path name) t h =
    let (e, x) = refused db rows user storage write h in
    rw (handle, make_folder, x) (λ n. absurd (ground arith), refl)
handle-denied db rows user storage (ask_upload send id path size on_conflict) t h =
    let (e, x) = refused db rows user storage write h in
    rw (handle, upload, x) (λ n. absurd (ground arith), refl)
handle-denied db rows user storage (ask_cleanup id) t h =
    let (e, x) = refused db rows user storage write h in
    rw (handle, cleanup_cancelled_upload, x) (λ n. absurd (ground arith), refl)
handle-denied db rows user storage (ask_remove tg lookup path force progress) t h =
    let (e, x) = refused db rows user storage admin h in
    rw (handle, remove, x) (λ n. absurd (ground arith), refl)
handle-denied db rows user storage (ask_rename old new) t h =
    let (e, x) = refused db rows user storage write h in
    rw (handle, rename, x) (λ n. absurd (ground arith), refl)
