-- ===== src/Files/Examples.antt =====
-- Witnesses of the files: a storage with a folder, a file and an unfinished upload.
use pentaract.Prelude.{
  ℕ, ◌≡◌, ◌≢◌, refl, ap, sym, ◌∙◌, inl, inr, ◌↔◌, Bool, true, false, none, List, [], ◌∷◌, arith,
  bytes, leb, length, bytes_eq,
}
use pentaract.Prelude.Members.{In}
use pentaract.OrderedJobs.Spec.{ok}
use pentaract.Domain.{File, FileChunk}
use pentaract.Access.{Database, Row, read, write, admin, has_access}
use pentaract.Deleter
use pentaract.Deleter.{Telegram}
use pentaract.Paths.{dir_prefix, archive_name}
use pentaract.Files.{Tables, delete, move, create_chunks_and_mark_uploaded, has_file}
use pentaract.Files.Like.{is_plain, like}
use pentaract.Files.Listing.{
  list_dir, search, found_element, dir_stats, list_files_under_path, list_chunks, total_size,
}
use pentaract.Files.Naming.{create_file_anyway}
use pentaract.Files.Move.{IsMoved, move-renames}
use pentaract.Files.MoveBack.{Free, move-move}
use pentaract.Files.Marked.{Unique, IsMarked, create_chunks_and_mark_uploaded_lem}
use pentaract.Files.Fresh.{IsFresh, create_file_anyway-IsFresh}
use pentaract.Files.Directory.{IsListing, list_dir_lem}
use pentaract.Files.Searched.{IsSought, has_backslash, search-IsSought}
use pentaract.Files.Ordered.{sum_by}
use pentaract.Files.Totals.{PrimaryKey, dir_stats-list_files_under_path}
use pentaract.Files.Service.{remove}
use pentaract.Files.Removal.{Settled, remove-IsRemoved}
use pentaract.Files.Permissions.{ask_rename, handle, handle-denied}
use pentaract.Files.Archive.{Source, IsStored, IsArchive, download_dir, download_dir-IsArchive}

abbrev photo : File
photo = record {
  id = 1;
  path = bytes "trips/photo.jpg";
  size = 30;
  storage_id = 9;
  is_uploaded = true;
}

abbrev film : File
film = record {
  id = 2;
  path = bytes "trips/2024/film.mkv";
  size = 70;
  storage_id = 9;
  is_uploaded = true;
}

abbrev draft : File
draft = record { id = 3; path = bytes "draft"; size = 5; storage_id = 9; is_uploaded = false }

abbrev retry : File
retry = record { id = 4; path = bytes "draft"; size = 5; storage_id = 9; is_uploaded = false }

abbrev chunk_a : FileChunk
chunk_a = record {
  id = 11;
  file_id = 1;
  telegram_file_id = [];
  telegram_message_id = 100;
  position = 0;
}

abbrev chunk_b : FileChunk
chunk_b = record {
  id = 12;
  file_id = 2;
  telegram_file_id = [];
  telegram_message_id = 101;
  position = 0;
}

abbrev chunk_c : FileChunk
chunk_c = record {
  id = 13;
  file_id = 3;
  telegram_file_id = [];
  telegram_message_id = 102;
  position = 0;
}

abbrev tables : Tables
tables = record { files = photo ∷ film ∷ draft ∷ retry ∷ []; chunks = chunk_a ∷ chunk_b ∷ [] }

abbrev db : Database
db = record { access_failure = none; write_failure = none; user_by_email = λ _. none }

abbrev rights : List Row
rights =
    record { user = 5; storage = 9; level = admin }
    ∷ record { user = 6; storage = 9; level = read }
    ∷ []

abbrev bot : Telegram
bot = record {
  token = λ _. ok 1;
  workers = ok (1 ∷ []);
  delete_message = λ _ _. none;
  ended = λ _ _. none;
}

abbrev collate : List ℕ → List ℕ → Bool
collate a b = leb (length a) (length b)

deleted : (delete 9 (bytes "trips") tables).1.files ≡ draft ∷ retry ∷ []
unfolding delete bytes_eq like
deleted = refl

numbered :
    (create_file_anyway 5 (bytes "trips/photo.jpg") 30 9 tables).0.path
    ≡ bytes "trips/photo (1).jpg"
unfolding create_file_anyway bytes_eq
numbered = refl

moved : move 9 (bytes "trips") (bytes "old/trips") tables ≡ (
  none,
  record tables {
    files =
        record photo { path = bytes "old/trips/photo.jpg" }
        ∷ record film { path = bytes "old/trips/2024/film.mkv" }
        ∷ draft
        ∷ retry
        ∷ [];
  },
)
unfolding move bytes_eq like
moved = refl

shown :
    list_dir collate 9 (bytes "trips") tables
    ≡ record { path = bytes "trips/2024/"; name = bytes "2024"; size = 0; is_file = false }
      ∷ record {
        path = bytes "trips/photo.jpg";
        name = bytes "photo.jpg";
        size = 30;
        is_file = true;
      }
      ∷ []
unfolding list_dir bytes_eq
shown = refl

free : Free 9 (bytes "old") tables.files
free f (inl e) = (
  λ a. absurd (ground (arith, ap (λ x. x.path) e)),
  λ b. absurd (ground (arith, ap (λ x. x.path) e)),
)
free f (inr (inl e)) = (
  λ a. absurd (ground (arith, ap (λ x. x.path) e)),
  λ b. absurd (ground (arith, ap (λ x. x.path) e)),
)
free f (inr (inr (inl e))) = (
  λ a. absurd (ground (arith, ap (λ x. x.path) e)),
  λ b. absurd (ground (arith, ap (λ x. x.path) e)),
)
free f (inr (inr (inr (inl e)))) = (
  λ a. absurd (ground (arith, ap (λ x. x.path) e)),
  λ b. absurd (ground (arith, ap (λ x. x.path) e)),
)
free f (inr (inr (inr (inr m)))) = absurd m

move_succeeds : (move 9 (bytes "trips") (bytes "old") tables).0 ≡ none
unfolding move bytes_eq like
move_succeeds = refl

plain_trips : is_plain (bytes "trips") ≡ true
unfolding is_plain
plain_trips = refl

plain_old : is_plain (bytes "old") ≡ true
unfolding is_plain
plain_old = refl

move-move_example :
    move 9 (bytes "old") (bytes "trips") (move 9 (bytes "trips") (bytes "old") tables).1
    ≡ (none, tables)
move-move_example =
    move-move 9 (bytes "trips") (bytes "old") tables plain_trips plain_old free move_succeeds

plain_prefix : is_plain (dir_prefix (bytes "trips")) ≡ true
unfolding is_plain dir_prefix
plain_prefix = refl

no_progress : Deleter.Progress
no_progress = record { total_chunks = 0; deleted_chunks = 0 }

remove-IsRemoved_example :
    Settled bot db rights 5 9
      (bytes "trips")
      tables
      (remove db rights bot none 5 9 (bytes "trips") false no_progress tables)
remove-IsRemoved_example =
    remove-IsRemoved bot db rights none 5 9 (bytes "trips") no_progress tables plain_trips

move-renames_example :
    IsMoved 9 (bytes "trips") (bytes "old") tables (move 9 (bytes "trips") (bytes "old") tables)
move-renames_example = move-renames 9 (bytes "trips") (bytes "old") tables plain_trips

abbrev drafts : Tables
drafts = record { files = draft ∷ retry ∷ []; chunks = [] }

drafts-Unique : Unique drafts.files
drafts-Unique f g (inl a) (inl b) e = a ∙ sym b
drafts-Unique f g (inl a) (inr (inl b)) e =
    absurd (omega (arith, ap (λ x. x.id) a, ap (λ x. x.id) b))
drafts-Unique f g (inr (inl a)) (inl b) e =
    absurd (omega (arith, ap (λ x. x.id) a, ap (λ x. x.id) b))
drafts-Unique f g (inr (inl a)) (inr (inl b)) e = a ∙ sym b
drafts-Unique f g (inr (inr m)) h e = absurd m
drafts-Unique f g (inl a) (inr (inr m)) e = absurd m
drafts-Unique f g (inr (inl a)) (inr (inr m)) e = absurd m

of_draft : (c : FileChunk) → In c (chunk_c ∷ []) → c.file_id ≡ 3
of_draft c (inl e) = ap (λ x. x.file_id) e
of_draft c (inr m) = absurd m

create_chunks_and_mark_uploaded_lem_example :
    IsMarked 3 (chunk_c ∷ []) draft drafts (create_chunks_and_mark_uploaded 3 (chunk_c ∷ []) drafts)
create_chunks_and_mark_uploaded_lem_example =
    create_chunks_and_mark_uploaded_lem 3 (chunk_c ∷ []) drafts draft drafts-Unique (inl refl) refl
      of_draft

create_file_anyway-IsFresh_example :
    IsFresh
      (bytes "trips/photo.jpg")
      30
      9
      tables
      (create_file_anyway 5 (bytes "trips/photo.jpg") 30 9 tables)
create_file_anyway-IsFresh_example =
    create_file_anyway-IsFresh 5 (bytes "trips/photo.jpg") 30 9 tables

list_dir_lem_example :
    IsListing 9 (dir_prefix (bytes "trips")) tables (list_dir collate 9 (bytes "trips") tables)
list_dir_lem_example = list_dir_lem collate 9 (bytes "trips") tables plain_prefix

no_backslash : has_backslash (bytes "photo") ≡ false
unfolding has_backslash
no_backslash = refl

search-IsSought_example :
    In (found_element photo) (search collate 9 (bytes "trips") (bytes "photo") tables) ↔ (
      (f : File) × In f tables.files
      × IsSought 9 (dir_prefix (bytes "trips")) (bytes "photo") f
      × (found_element photo ≡ found_element f))
search-IsSought_example =
    search-IsSought collate 9 (bytes "trips") (bytes "photo") tables (found_element photo)
      plain_prefix no_backslash

tables-PrimaryKey : PrimaryKey tables.files
unfolding has_file
tables-PrimaryKey = (refl, (refl, (refl, (refl, tt))))

dir_stats-list_files_under_path_run :
    ((dir_stats 9 (bytes "trips") tables).0
      ≡ total_size (list_files_under_path collate 9 (bytes "trips") tables))
    × ((dir_stats 9 (bytes "trips") tables).1
        ≡ sum_by
            (λ f. length (list_chunks f.id tables))
            (list_files_under_path collate 9 (bytes "trips") tables))
dir_stats-list_files_under_path_run =
    dir_stats-list_files_under_path collate 9 (bytes "trips") tables tables-PrimaryKey

reader_cannot_write : has_access 6 9 write rights ≡ false
unfolding has_access
reader_cannot_write = refl

handle-denied_example :
    ((handle db rights 6 9 (ask_rename (bytes "draft") (bytes "x")) tables).0 ≢ none)
    × ((handle db rights 6 9 (ask_rename (bytes "draft") (bytes "x")) tables).1 ≡ tables)
handle-denied_example =
    handle-denied db rights 6 9 (ask_rename (bytes "draft") (bytes "x")) tables reader_cannot_write

abbrev source : Source
source = record {
  ended = λ _. none;
  create_failure = λ _. none;
  content = λ f. ok (f.size ∷ []);
  close_failure = none;
}

archived : (download_dir source db rights collate 6 9 (bytes "trips") tables).0 ≡ ok (bytes "trips")
unfolding download_dir has_access
archived = refl

trips_plain : is_plain (dir_prefix (bytes "trips")) ≡ true
unfolding is_plain dir_prefix
trips_plain = refl

download_dir-IsArchive_example :
    (has_access 6 9 read rights ≡ true)
    × ((fs : List File) × (fs ≢ [])
        × ((f : File) → In f fs ↔ (In f tables.files × IsStored 9 (dir_prefix (bytes "trips")) f))
        × IsArchive source
            (dir_prefix (bytes "trips"))
            fs
            (download_dir source db rights collate 6 9 (bytes "trips") tables).1)
    × (bytes "trips" ≡ archive_name (bytes "trips"))
download_dir-IsArchive_example =
    download_dir-IsArchive source db rights collate 6 9 (bytes "trips") (bytes "trips") tables
      trips_plain archived
