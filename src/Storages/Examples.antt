-- ===== src/Storages/Examples.antt =====
-- A storage with a file of one chunk: created, deleted, and created where the access table fails.
use pentaract.Prelude.{ℕ, ◌≡◌, refl, true, false, none, some, List, [], ◌∷◌, bytes}
use pentaract.OrderedJobs.Spec.{ok, err}
use pentaract.Domain.{Storage, File, FileChunk}
use pentaract.Access
use pentaract.Access.{Row, AccessType, admin, has_access}
use pentaract.Deleter.{Telegram}
use pentaract.Paths.{is_empty}
use pentaract.Storages.{already_exists, denied, Tables, has_chat, create_storage, delete_storage}
use pentaract.Storages.Removal.{IsDropped, delete_storage-IsDropped}
use pentaract.Storages.Orphan.{
  Request, ask_delete, ask_access, serve, IsOrphan, create_storage_orphaned,
}

abbrev empty : Tables
empty = record {
  storages = [];
  access = [];
  files = record { files = []; chunks = [] };
  workers = [];
}

abbrev healthy : Access.Database
healthy = record { access_failure = none; write_failure = none; user_by_email = λ _. none }

abbrev broken : Access.Database
broken = record { access_failure = none; write_failure = some 5; user_by_email = λ _. none }

abbrev family : Storage
family = record { id = 9; name = bytes "family"; chat_id = 77 }

abbrev photo : File
photo = record { id = 1; path = bytes "photo.jpg"; size = 30; storage_id = 9; is_uploaded = true }

abbrev photo_chunk : FileChunk
photo_chunk = record {
  id = 11;
  file_id = 1;
  telegram_file_id = [];
  telegram_message_id = 4;
  position = 0;
}

abbrev filled : Tables
filled = record {
  storages = family ∷ [];
  access = record { user = 2; storage = 9; level = admin } ∷ [];
  files = record { files = photo ∷ []; chunks = photo_chunk ∷ [] };
  workers = [];
}

abbrev telegram : Telegram
telegram = record {
  token = λ n. ok n;
  workers = ok (3 ∷ []);
  delete_message = λ w m. none;
  ended = λ w m. none;
}

delete_storage-IsDropped_example :
    IsDropped telegram 2 9 filled
      (delete_storage telegram healthy 2 9 (record { total_chunks = 0; deleted_chunks = 0 }) filled)
delete_storage-IsDropped_example =
    delete_storage-IsDropped telegram healthy 2 9 (record { total_chunks = 0; deleted_chunks = 0 })
      filled

created : (create_storage healthy 9 2 (bytes "family") 77 empty).0 ≡ ok family
unfolding create_storage
created = refl

-- The creator tries to delete the storage, and to invite somebody.
abbrev later : List Request
later =
    ask_delete telegram healthy 2 9 (record { total_chunks = 0; deleted_chunks = 0 })
    ∷ ask_access (Access.ask_grant healthy 2 9 [] admin)
    ∷ []

create_storage_orphaned_example :
    let r = create_storage broken 9 2 (bytes "family") 77 empty in
    (r.0 ≡ err (denied (Access.database 5)))
    × IsOrphan family (serve later r.1)
    × ((db' : Access.Database) (id' u : ℕ) (name' : List ℕ)
        → is_empty name' ≡ false
        → create_storage db' id' u name' 77 (serve later r.1)
          ≡ (err already_exists, serve later r.1))
unfolding has_chat has_access
create_storage_orphaned_example =
    create_storage_orphaned broken 9 2 5 (bytes "family") 77 empty later refl refl (λ u q. refl)
      refl (tt, (tt, tt))
