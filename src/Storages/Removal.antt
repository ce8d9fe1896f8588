-- ===== src/Storages/Removal.antt =====
-- The deletion of a storage in internal/service/storages.go: Telegram first, then the rows.
use pentaract.Prelude.{
  ℕ, ◌≡◌, ◌≢◌, refl, ◌⊎◌, inl, inr, ◌↔◌, Bool, true, false, ◌&&◌, Option, none, List, [], ◌∷◌, ◌==◌,
  if◌then◌else◌, arith, Bool-cases, Option-cases,
}
use pentaract.Prelude.Members.{In}
use pentaract.Domain.{Storage, File, FileChunk}
use pentaract.Access
use pentaract.Access.{Row, AccessType, admin, has_access, is_of, grants, require_storage_access}
use pentaract.Access.Rules.{require-none}
use pentaract.Deleter
use pentaract.Deleter.{Telegram, count_messages, delete_from_telegram}
use pentaract.Deleter.Complete.{IsDeleted, delete_messages_sound}
use pentaract.Files.{delete_where}
use pentaract.Files.Listing.{chunks_of, chunk_before, list_chunks_by_storage}
use pentaract.Files.Ordered.{In-order_by}
use pentaract.Files.Removal.{AllDeleted-In, In-chunks_of}
use pentaract.Files.Subtree.{has_file_complete, remove_files-In}
use pentaract.Paths.{is_empty}
use pentaract.Storages.{
  Error, Tables, find_storage, without_storage, without_rows, drop_storage, delete_storage,
}

-- The chunk belongs to a file of the storage.
abbrev pub IsChunkOf : ℕ → List File → FileChunk → Type 0
IsChunkOf storage fs c = (f : File) × In f fs × (f.storage_id ≡ storage) × (f.id ≡ c.file_id)

-- Either nothing has changed, or the storage is gone with what stood in it, and only that.
abbrev pub IsDropped : Telegram → ℕ → ℕ → Tables → Option Error × Tables → Type 0
IsDropped tg user storage t r =
    ((r.0 ≢ none) × (r.1 ≡ t))
    ⊎ ((r.0 ≡ none)
        × (has_access user storage admin t.access ≡ true)
        × ((c : FileChunk)
            → In c t.files.chunks
            → IsChunkOf storage t.files.files c
            → (c.telegram_message_id ≡ 0) ⊎ IsDeleted tg c.telegram_message_id)
        × ((id : ℕ)
            → find_storage id r.1.storages
              ≡ (if id == storage then none else find_storage id t.storages))
        × ((u s : ℕ) (q : AccessType)
            → has_access u s q r.1.access
              ≡ (if s == storage then false else has_access u s q t.access))
        × ((f : File) → In f r.1.files.files ↔ (In f t.files.files × (f.storage_id ≢ storage))))

has_access-without_rows :
    (id u s : ℕ) (q : AccessType) (rows : List Row)
    → has_access u s q (without_rows id rows) ≡ (if s == id then false else has_access u s q rows)
unfolding has_access without_rows is_of
has_access-without_rows id u s q [] = ground arith
has_access-without_rows id u s q (r ∷ rs) = ground (arith, has_access-without_rows id u s q rs)

find_storage-without_storage :
    (storage id : ℕ) (ss : List Storage)
    → find_storage id (without_storage storage ss)
      ≡ (if id == storage then none else find_storage id ss)
unfolding find_storage without_storage
find_storage-without_storage storage id [] = ground arith
find_storage-without_storage storage id (s ∷ ss) =
    ground (arith, find_storage-without_storage storage id ss)

listed :
    (storage : ℕ) (t : Tables) (c : FileChunk)
    → In c t.files.chunks
    → IsChunkOf storage t.files.files c
    → In c (list_chunks_by_storage storage t.files)
unfolding list_chunks_by_storage
listed storage t c m (f, i, s, e) =
    let test : File → Bool = λ g. g.storage_id == storage in
    (In-order_by chunk_before (chunks_of test t.files.files t.files.chunks) c).1 (
      In-chunks_of test t.files.files t.files.chunks c m
        (has_file_complete (λ g. test g && g.id == c.file_id) t.files.files f i (ground arith)))

differs : (storage : ℕ) (f : File) → (f.storage_id == storage) ≡ false → f.storage_id ≢ storage
differs storage f h e = absurd (ground arith)

differs_test : (storage : ℕ) (f : File) → f.storage_id ≢ storage → (f.storage_id == storage) ≡ false
differs_test storage f h = elim (Bool-cases (f.storage_id == storage)) [
  | inr e ↦ e
  | inl e ↦ absurd (h (ground arith))
]

In-empty : (cs : List FileChunk) → is_empty cs ≡ true → (c : FileChunk) → ¬ In c cs
In-empty [] n c m = m
In-empty (d ∷ cs) n c m = absurd (ground arith)

-- What the rows are after the statements, once the messages are gone.
dropped :
    (tg : Telegram) (user storage : ℕ) (t : Tables)
    → has_access user storage admin t.access ≡ true
    → ((c : FileChunk)
        → In c (list_chunks_by_storage storage t.files)
        → (c.telegram_message_id ≡ 0) ⊎ IsDeleted tg c.telegram_message_id)
    → IsDropped tg user storage t (none, drop_storage storage t)
unfolding drop_storage delete_where
dropped tg user storage t a gone = inr (
  refl,
  a,
  λ c m i. gone c (listed storage t c m i),
  λ id. find_storage-without_storage storage id t.storages,
  λ u s q. has_access-without_rows storage u s q t.access,
  λ f.
      let p = remove_files-In (λ g. g.storage_id == storage) t.files.files f in
      (
        λ m. let r = p.0 m in (r.0, differs storage f r.1),
        λ m. p.1 (m.0, differs_test storage f m.1),
      ),
)

-- The deletion of a storage either fails and changes no row, or it succeeds, and then an administrator of the
-- storage asked for it, Telegram has deleted the message of every chunk of its files, the storage, its
-- files and everyone's access to it are gone, and the other storages, their files and their accesses stay.
pub delete_storage-IsDropped :
    (tg : Telegram) (db : Access.Database) (user storage : ℕ) (progress : Deleter.Progress)
    (t : Tables)
    → IsDropped tg user storage t (delete_storage tg db user storage progress t)
unfolding delete_storage delete_from_telegram
delete_storage-IsDropped tg db user storage progress t =
    let chunks = list_chunks_by_storage storage t.files in
    elim (Option-cases (require_storage_access db user storage admin t.access)) [
      | inr (x, e) ↦ rw (delete_storage, e) (inl (λ n. absurd (ground arith), refl))
      | inl e ↦
          let a = require-none db user storage admin t.access e in
          elim (Option-cases (find_storage storage t.storages)) [
            | inl l ↦ rw (delete_storage, e, l) (inl (λ n. absurd (ground arith), refl))
            | inr (x, l) ↦ elim (Bool-cases (is_empty chunks)) [
              | inl n ↦
                  rw (delete_storage, e, l, n)
                    (dropped tg user storage t a (λ c m. absurd (In-empty chunks n c m)))
              | inr n ↦ elim (Option-cases (delete_from_telegram tg chunks progress).0) [
                | inr (y, d) ↦
                    rw (delete_storage, e, l, n, d) (inl (λ z. absurd (ground arith), refl))
                | inl d ↦
                    rw (delete_storage, e, l, n, d)
                      (dropped tg user storage t a (λ c m.
                        AllDeleted-In tg chunks c
                          (delete_messages_sound tg chunks
                            (record progress { total_chunks = count_messages chunks }) d).0
                          m))
              ]
            ]
          ]
    ]
