-- ===== src/Storages.antt =====
-- internal/service/storages.go and internal/repository/storages.go: the storages with the rows that refer to
-- them. `chat_id` is UNIQUE; a storage takes its access rows and files with it, and its workers lose it. The
-- failures of the lookups are not modelled, those of the access table are.
pub mod Removal
pub mod Orphan
mod Examples
use pentaract.Prelude.{
  ℕ, Bool, true, false, ◌&&◌, not, Option, none, some, List, [], ◌∷◌, ◌==◌, if◌then◌else◌, bytes_eq,
}
use pentaract.OrderedJobs.Spec.{Outcome, ok, err}
use pentaract.Domain.{Storage, File, FileChunk}
use pentaract.Access
use pentaract.Access.{Row, read, admin, require_storage_access, create_or_update}
use pentaract.Deleter
use pentaract.Deleter.{Telegram, delete_from_telegram}
use pentaract.Files
use pentaract.Files.{delete_where}
use pentaract.Files.Listing.{list_chunks_by_storage}
use pentaract.Paths.{is_empty}
use pentaract.Workers.{Worker}

pub data Error : Type 0 where
  name_required already_exists not_found : Error
  denied : Access.Error → Error
  telegram : Deleter.Error → Error

pub record Tables : Type 0 where
  pub storages : List Storage
  pub access : List Row
  pub files : Files.Tables
  pub workers : List Worker

unfoldable pub has_chat : ℕ → List Storage → Bool
has_chat chat [] = false
has_chat chat (s ∷ ss) = let rest = has_chat chat ss in if s.chat_id == chat then true else rest

unfoldable pub find_storage : ℕ → List Storage → Option Storage
find_storage id [] = none
find_storage id (s ∷ ss) = let rest = find_storage id ss in if s.id == id then some s else rest

-- With the id that the database gives. There is no transaction around the two statements.
unfoldable pub create_storage :
    Access.Database → ℕ → ℕ → List ℕ → ℕ → Tables → Outcome Error Storage × Tables
unfolding has_chat create_or_update
create_storage db id user name chat t =
    let s : Storage = record { id = id; name = name; chat_id = chat } in
    let u : Tables = record t { storages = s ∷ t.storages } in
    if is_empty name
    then (err name_required, t)
    else if has_chat chat t.storages
    then (err already_exists, t)
    else elim db.write_failure [
      | some e ↦ (err (denied (Access.database e)), u)
      | none ↦ (ok s, record u { access = create_or_update user id admin u.access })
    ]

unfoldable pub get_storage : Access.Database → ℕ → ℕ → Tables → Outcome Error Storage
unfolding require_storage_access find_storage
get_storage db user storage t = elim (require_storage_access db user storage read t.access) [
  | some e ↦ err (denied e)
  | none ↦ elim (find_storage storage t.storages) [ none ↦ err not_found | some s ↦ ok s ]
]

-- The DELETE with its cascades.
unfoldable pub without_storage : ℕ → List Storage → List Storage
without_storage id [] = []
without_storage id (s ∷ ss) =
    let rest = without_storage id ss in if s.id == id then rest else s ∷ rest

unfoldable pub without_rows : ℕ → List Row → List Row
without_rows id [] = []
without_rows id (r ∷ rs) =
    let rest = without_rows id rs in if r.storage == id then rest else r ∷ rest

is_worker_of : ℕ → Option ℕ → Bool
is_worker_of id none = false
is_worker_of id (some s) = s == id

unfoldable pub released : ℕ → List Worker → List Worker
unfolding is_worker_of
released id [] = []
released id (w ∷ ws) =
    (if is_worker_of id w.storage then record w { storage = none } else w) ∷ released id ws

unfoldable pub drop_storage : ℕ → Tables → Tables
unfolding without_storage without_rows delete_where released
drop_storage id t = record {
  storages = without_storage id t.storages;
  access = without_rows id t.access;
  files = delete_where (λ f. f.storage_id == id) t.files;
  workers = released id t.workers;
}

unfoldable pub delete_storage :
    Telegram → Access.Database → ℕ → ℕ → Deleter.Progress → Tables → Option Error × Tables
unfolding require_storage_access find_storage list_chunks_by_storage delete_from_telegram
    drop_storage
delete_storage tg db user storage progress t =
    elim (require_storage_access db user storage admin t.access) [
      | some e ↦ (some (denied e), t)
      | none ↦ elim (find_storage storage t.storages) [
        | none ↦ (some not_found, t)
        | some s ↦
            let chunks = list_chunks_by_storage storage t.files in
            if is_empty chunks
            then (none, drop_storage storage t)
            else elim (delete_from_telegram tg chunks progress).0 [
              | some e ↦ (some (telegram e), t)
              | none ↦ (none, drop_storage storage t)
            ]
      ]
    ]
