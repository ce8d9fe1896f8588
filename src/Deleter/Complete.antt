-- ===== src/Deleter/Complete.antt =====
-- A deletion that succeeds has deleted everything, and it tries every worker before it fails.
use pentaract.Prelude.{
  ℕ, suc, ◌+◌, ◌≡◌, ◌∙◌, refl, ◌⊎◌, inl, inr, none, List, [], ◌∷◌, ◌==◌, arith, Bool-cases,
  Option-cases, length, if◌then◌else◌,
}
use pentaract.OrderedJobs.Spec.{Outcome-cases}
use pentaract.Domain.{FileChunk}
use pentaract.Deleter.{
  Error, no_workers, Telegram, Progress, append_unique_worker, append_workers, delete_with,
  fallback_workers, delete_chunk_message, count_messages, delete_messages, delete_from_telegram,
}

-- Telegram has deleted the message at the request of some worker.
abbrev pub IsDeleted : Telegram → ℕ → Type 0
IsDeleted tg message = (worker : ℕ) × (tg.delete_message worker message ≡ none)

-- Every chunk that has a message has lost it.
abbrev pub AllDeleted : Telegram → List FileChunk → Type 0
AllDeleted tg [] = Unit
AllDeleted tg (c ∷ cs) =
    ((c.telegram_message_id ≡ 0) ⊎ IsDeleted tg c.telegram_message_id) × AllDeleted tg cs

delete_with_sound :
    (tg : Telegram) (message : ℕ) (ws : List ℕ) (e : Error)
    → delete_with tg message ws e ≡ none
    → IsDeleted tg message
unfolding delete_with
delete_with_sound tg message [] e h = absurd (ground arith)
delete_with_sound tg message (w ∷ ws) e h = elim (Option-cases (tg.delete_message w message)) [
  | inl n ↦ (w, n)
  | inr (x, n) ↦ elim (Option-cases (tg.ended w message)) [
    | inr (y, f) ↦ absurd (ground arith)
    | inl f ↦ delete_with_sound tg message ws x (rw (delete_with, n, f) at h)
  ]
]

delete_chunk_message_sound :
    (tg : Telegram) (message : ℕ) → delete_chunk_message tg message ≡ none → IsDeleted tg message
unfolding delete_chunk_message
delete_chunk_message_sound tg message h = elim (Outcome-cases (tg.token message)) [
  | inl (e, t) ↦ absurd (ground arith)
  | inr (worker, t) ↦
      delete_with_sound tg message
        (append_workers (append_unique_worker [] worker) (fallback_workers tg)) (no_workers message)
        (rw (delete_chunk_message, t) at h)
]

pub delete_messages_sound :
    (tg : Telegram) (cs : List FileChunk) (p : Progress)
    → (delete_messages tg cs p).0 ≡ none
    → AllDeleted tg cs
      × ((delete_messages tg cs p).1.deleted_chunks ≡ p.deleted_chunks + count_messages cs)
      × ((delete_messages tg cs p).1.total_chunks ≡ p.total_chunks)
unfolding delete_messages count_messages
delete_messages_sound tg [] p h = (tt, omega arith, refl)
delete_messages_sound tg (c ∷ cs) p h = elim (Bool-cases (c.telegram_message_id == 0)) [
  | inl e ↦
      let r = delete_messages_sound tg cs p (rw (delete_messages, e) at h) in
      rw (delete_messages, count_messages, e) ((inl (ground arith), r.0), r.1, r.2)
  | inr e ↦ elim (Option-cases (delete_chunk_message tg c.telegram_message_id)) [
    | inr (x, f) ↦ absurd (ground arith)
    | inl f ↦
        let r =
          delete_messages_sound tg cs (record p { deleted_chunks = suc p.deleted_chunks })
            (rw (delete_messages, e, f) at h) in
        rw (delete_messages, count_messages, e, f)
          (
            (inr (delete_chunk_message_sound tg c.telegram_message_id f), r.0),
            omega (arith, r.1),
            r.2,
          )
  ]
]

-- The messages of the chunks.
pub messages : List FileChunk → List ℕ
messages [] = []
messages (c ∷ cs) =
    if c.telegram_message_id == 0 then messages cs else c.telegram_message_id ∷ messages cs

count_messages-messages : (cs : List FileChunk) → count_messages cs ≡ length (messages cs)
unfolding count_messages messages
count_messages-messages [] = refl
count_messages-messages (c ∷ cs) = ground (arith, count_messages-messages cs)

-- A deletion that returns no error has deleted the message of every chunk that has one, and where its progress
-- started at none, it counts as many chunks, in all and as deleted, as there are chunks with a message.
pub delete_from_telegram_complete :
    (tg : Telegram) (chunks : List FileChunk) (p : Progress)
    → p.deleted_chunks ≡ 0
    → (delete_from_telegram tg chunks p).0 ≡ none
    → AllDeleted tg chunks
      × ((delete_from_telegram tg chunks p).1.total_chunks ≡ length (messages chunks))
      × ((delete_from_telegram tg chunks p).1.deleted_chunks ≡ length (messages chunks))
unfolding delete_from_telegram
delete_from_telegram_complete tg chunks p z h =
    let r = delete_messages_sound tg chunks (record p { total_chunks = count_messages chunks }) h in
    let n = count_messages-messages chunks in (r.0, r.2 ∙ n, omega (arith, r.1, n))
