-- ===== src/Files/Removal.antt =====
-- A removal takes rows away only after Telegram has deleted the messages of their chunks.
use pentaract.Prelude.{
  ℕ, ◌≡◌, ◌≢◌, refl, ap, sym, ◌∙◌, ◌⊎◌, inl, inr, ◌↔◌, Bool, true, false, ◌&&◌, Option, none, some,
  List, [], ◌∷◌, ◌==◌, arith, Bool-cases, Option-cases,
}
use pentaract.Prelude.Members.{In}
use pentaract.Domain.{File, FileChunk}
use pentaract.Access.{Database, Row, admin, has_access, require_storage_access}
use pentaract.Access.Rules.{require-none}
use pentaract.Deleter.{Telegram, Progress, count_messages, delete_from_telegram}
use pentaract.Deleter.Complete.{IsDeleted, AllDeleted, delete_messages_sound}
use pentaract.Paths.{is_empty}
use pentaract.Files.{Tables, is_at_or_under, has_file, exec_affecting, delete}
use pentaract.Files.Like.{is_plain}
use pentaract.Files.Listing.{list_chunks_by_path, chunks_of, chunk_before}
use pentaract.Files.Ordered.{In-order_by}
use pentaract.Files.Subtree.{InSubtree, ChunkInSubtree, cascade-subtree, delete-subtree}
use pentaract.Files.Service.{Fault, of_repository, remove}

pub AllDeleted-In :
    (tg : Telegram) (cs : List FileChunk) (c : FileChunk)
    → AllDeleted tg cs
    → In c cs
    → (c.telegram_message_id ≡ 0) ⊎ IsDeleted tg c.telegram_message_id
AllDeleted-In tg [] c all m = absurd m
AllDeleted-In tg (d ∷ cs) c all (inl e) = elim all.0 [
  | inl z ↦ inl (ap (λ x. x.telegram_message_id) e ∙ z)
  | inr (w, z) ↦ inr (w, ap (λ x. tg.delete_message w x.telegram_message_id) e ∙ z)
]
AllDeleted-In tg (d ∷ cs) c all (inr m) = AllDeleted-In tg cs c all.1 m

pub In-chunks_of :
    (test : File → Bool) (fs : List File) (cs : List FileChunk) (c : FileChunk)
    → In c cs
    → has_file (λ f. test f && f.id == c.file_id) fs ≡ true
    → In c (chunks_of test fs cs)
unfolding chunks_of
In-chunks_of test fs [] c m h = absurd m
In-chunks_of test fs (d ∷ cs) c (inl e) h =
    let k : has_file (λ f. test f && f.id == d.file_id) fs ≡ true =
      ap (λ (x : FileChunk). has_file (λ f. test f && f.id == x.file_id) fs) (sym e) ∙ h in
    rw (chunks_of, k) (inl e)
In-chunks_of test fs (d ∷ cs) c (inr m) h =
    elim (Bool-cases (has_file (λ f. test f && f.id == d.file_id) fs)) [
      | inl k ↦ rw (chunks_of, k) (inr (In-chunks_of test fs cs c m h))
      | inr k ↦ rw (chunks_of, k) (In-chunks_of test fs cs c m h)
    ]

-- The chunks that the removal lists are all those that it takes away.
listed :
    (storage : ℕ) (path : List ℕ) (t : Tables) (c : FileChunk)
    → is_plain path ≡ true
    → In c t.chunks
    → ChunkInSubtree storage path t.files c
    → In c (list_chunks_by_path storage path t)
unfolding list_chunks_by_path
listed storage path t c h m s =
    let test = is_at_or_under storage path in
    let k : has_file (λ f. test f && f.id == c.file_id) t.files ≡ true =
      elim (Bool-cases (has_file (λ f. test f && f.id == c.file_id) t.files)) [
        | inl e ↦ e
        | inr e ↦ absurd ((cascade-subtree storage path t.files c h).0 e s)
      ] in
    (In-order_by chunk_before (chunks_of test t.files t.chunks) c).1
      (In-chunks_of test t.files t.chunks c m k)

-- What a removal of a path leaves.
abbrev pub IsRemoved : ℕ → List ℕ → Tables → Tables → Type 0
IsRemoved storage path t t' =
    ((f : File) → In f t'.files ↔ (In f t.files × (¬ InSubtree storage path f)))
    × ((c : FileChunk)
        → In c t'.chunks ↔ (In c t.chunks × (¬ ChunkInSubtree storage path t.files c)))

-- Failed and unchanged; or asked for by an administrator, with the messages of all chunks of the path deleted and
-- exactly its rows gone.
abbrev pub Settled :
    Telegram → Database → List Row → ℕ → ℕ → List ℕ → Tables → Option Fault × Tables → Type 0
Settled tg db rows user storage path t r =
    ((r.0 ≢ none) × (r.1 ≡ t))
    ⊎ ((r.0 ≡ none)
        × (has_access user storage admin rows ≡ true)
        × ((c : FileChunk)
            → In c t.chunks
            → ChunkInSubtree storage path t.files c
            → (c.telegram_message_id ≡ 0) ⊎ IsDeleted tg c.telegram_message_id)
        × IsRemoved storage path t r.1)

delete-unchanged :
    (storage : ℕ) (path : List ℕ) (t : Tables)
    → (delete storage path t).0 ≢ none
    → (delete storage path t).1 ≡ t
unfolding delete exec_affecting
delete-unchanged storage path t h = ground arith

settle :
    (tg : Telegram) (db : Database) (rows : List Row) (user storage : ℕ) (path : List ℕ)
    (t : Tables)
    → is_plain path ≡ true
    → has_access user storage admin rows ≡ true
    → ((c : FileChunk)
        → In c (list_chunks_by_path storage path t)
        → (c.telegram_message_id ≡ 0) ⊎ IsDeleted tg c.telegram_message_id)
    → Settled tg db rows user storage path t (of_repository (delete storage path t))
settle tg db rows user storage path t h a gone =
    let s = delete-subtree storage path t h in
    elim (Option-cases (delete storage path t).0) [
      | inr (x, e) ↦
          let u = delete-unchanged storage path t (λ n. absurd (ground arith)) in
          let p : delete storage path t ≡ (some x, t) = ground arith in
          rw p (inl (λ n. absurd (ground arith), refl))
      | inl e ↦
          let p : of_repository (delete storage path t) ≡ (none, (delete storage path t).1) =
            ground arith in
          rw p (inr (refl, a, λ c m i. gone c (listed storage path t c h m i), (s.0, s.1)))
    ]

-- A removal that is not forced, of a path without the characters % _ \: either it fails and changes no row, or
-- it succeeds, and then an administrator of the storage asked for it, Telegram has deleted the message of
-- every chunk of the file or folder, and exactly its files and chunks are gone.
pub remove-IsRemoved :
    (tg : Telegram) (db : Database) (rows : List Row) (lookup_failure : Option ℕ) (user storage : ℕ)
    (path : List ℕ) (progress : Progress) (t : Tables)
    → is_plain path ≡ true
    → Settled tg db rows user storage path t
        (remove db rows tg lookup_failure user storage path false progress t)
unfolding remove delete_from_telegram
remove-IsRemoved tg db rows lookup_failure user storage path progress t h =
    let chunks = list_chunks_by_path storage path t in
    elim (Option-cases (require_storage_access db user storage admin rows)) [
      | inr (x, e) ↦ rw (remove, e) (inl (λ n. absurd (ground arith), refl))
      | inl e ↦
          let a = require-none db user storage admin rows e in
          elim (Option-cases lookup_failure) [
            | inr (x, l) ↦ rw (remove, e, l) (inl (λ n. absurd (ground arith), refl))
            | inl l ↦ elim (Bool-cases (is_empty chunks)) [
              | inl n ↦
                  rw (remove, e, l, n)
                    (settle tg db rows user storage path t h a
                      (λ c m. absurd (nothing chunks n c m)))
              | inr n ↦ elim (Option-cases (delete_from_telegram tg chunks progress).0) [
                | inr (x, d) ↦ rw (remove, e, l, n, d) (inl (λ z. absurd (ground arith), refl))
                | inl d ↦
                    rw (remove, e, l, n, d)
                      (settle tg db rows user storage path t h a (λ c m.
                        AllDeleted-In tg chunks c
                          (delete_messages_sound tg chunks
                            (record progress { total_chunks = count_messages chunks }) d).0
                          m))
              ]
            ]
          ]
    ]
  where
    nothing : (cs : List FileChunk) → is_empty cs ≡ true → (c : FileChunk) → ¬ In c cs
    nothing [] n c m = m
    nothing (d ∷ cs) n c m = absurd (ground arith)
