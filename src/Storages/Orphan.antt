-- ===== src/Storages/Orphan.antt =====
-- The creation of a storage in internal/service/storages.go: two statements without a transaction, and what can be done
-- about a storage whose second statement has failed.
use pentaract.Prelude.{
  ℕ, ◌≡◌, ◌≢◌, refl, ap, sym, ◌∙◌, inl, inr, true, false, none, some, List, [], ◌∷◌, ◌==◌,
  if◌then◌else◌, arith, Bool-cases, Option-cases,
}
use pentaract.OrderedJobs.Spec.{err}
use pentaract.Domain.{Storage}
use pentaract.Access
use pentaract.Access.{Row, AccessType, admin, has_access, create_or_update, is_of, grants}
use pentaract.Access.Rows.{has_access-create_or_update_ne}
use pentaract.Access.Rules.{storage_of, caller_of, handle-not_admin, handle-ne}
use pentaract.Deleter
use pentaract.Deleter.{Telegram}
use pentaract.Paths.{is_empty}
use pentaract.Storages.{
  already_exists, denied, Tables, has_chat, find_storage, create_storage, delete_storage,
}
use pentaract.Storages.Removal.{delete_storage-IsDropped}

-- One call of the services of storages and of access.
pub data Request : Type 0 where
  ask_create : Access.Database → ℕ → ℕ → List ℕ → ℕ → Request
  ask_delete : Telegram → Access.Database → ℕ → ℕ → Deleter.Progress → Request
  ask_access : Access.Request → Request

unfoldable pub handle : Request → Tables → Tables
unfolding create_storage delete_storage Access.handle
handle (ask_create db id user name chat) t = (create_storage db id user name chat t).1
handle (ask_delete tg db user storage progress) t = (delete_storage tg db user storage progress t).1
handle (ask_access r) t = record t { access = (Access.handle r t.access).1 }

unfoldable pub serve : List Request → Tables → Tables
unfolding handle
serve [] t = t
serve (r ∷ rs) t = serve rs (handle r t)

-- The database gives no id twice.
abbrev pub IsFresh : ℕ → Request → Type 0
IsFresh id (ask_create db id' user name chat) = id' ≢ id
IsFresh id (ask_delete tg db user storage progress) = Unit
IsFresh id (ask_access r) = Unit

abbrev pub AreFresh : ℕ → List Request → Type 0
AreFresh id [] = Unit
AreFresh id (r ∷ rs) = IsFresh id r × AreFresh id rs

-- The storage is there, and nobody has access to it.
abbrev pub IsOrphan : Storage → Tables → Type 0
IsOrphan s t =
    (find_storage s.id t.storages ≡ some s)
    × ((u : ℕ) (q : AccessType) → has_access u s.id q t.access ≡ false)

has_chat-find_storage :
    (id : ℕ) (s : Storage) (ss : List Storage)
    → find_storage id ss ≡ some s
    → has_chat s.chat_id ss ≡ true
unfolding find_storage has_chat
has_chat-find_storage id s [] h = absurd (ground arith)
has_chat-find_storage id s (x ∷ ss) h = elim (Bool-cases (x.id == id)) [
  | inl e ↦
      let p : some x ≡ some s = rw (find_storage, e) at h in
      let q : x.chat_id ≡ s.chat_id = ground arith in ground arith
  | inr e ↦ ground (arith, has_chat-find_storage id s ss (rw (find_storage, e) at h))
]

create_storage-IsOrphan :
    (s : Storage) (db : Access.Database) (id user : ℕ) (name : List ℕ) (chat : ℕ) (t : Tables)
    → id ≢ s.id
    → IsOrphan s t
    → IsOrphan s (create_storage db id user name chat t).1
unfolding create_storage find_storage
create_storage-IsOrphan s db id user name chat t n (f, a) =
    let other : (id == s.id) ≡ false = differs in
    elim (Bool-cases (is_empty name)) [
      | inl e ↦ rw (create_storage, e) (f, a)
      | inr e ↦ elim (Bool-cases (has_chat chat t.storages)) [
        | inl c ↦ rw (create_storage, e, c) (f, a)
        | inr c ↦ elim (Option-cases db.write_failure) [
          | inr (x, w) ↦ rw (create_storage, e, c, w) (rw (find_storage, other) f, a)
          | inl w ↦
              rw (create_storage, e, c, w)
                (
                  rw (find_storage, other) f,
                  λ u q.
                      has_access-create_or_update_ne user id u s.id admin q t.access (ground arith)
                      ∙ a u q,
                )
        ]
      ]
    ]
  where
    differs : (id == s.id) ≡ false
    differs = elim (Bool-cases (id == s.id)) [ inr e ↦ e | inl e ↦ absurd (n (ground arith)) ]

delete_storage-IsOrphan :
    (s : Storage) (tg : Telegram) (db : Access.Database) (user storage : ℕ) (p : Deleter.Progress)
    (t : Tables)
    → IsOrphan s t
    → IsOrphan s (delete_storage tg db user storage p t).1
delete_storage-IsOrphan s tg db user storage p t (f, a) =
    elim (delete_storage-IsDropped tg db user storage p t) [
      | inl (n, same) ↦ (
        ap (λ (x : Tables). find_storage s.id x.storages) same ∙ f,
        λ u q. ap (λ (x : Tables). has_access u s.id q x.access) same ∙ a u q,
      )
      | inr (ok_result, allowed, messages, storages, access, files) ↦
          elim (Bool-cases (s.id == storage)) [
            | inl e ↦
                let q : storage ≡ s.id = ground arith in
                absurd (
                  ground (
                    arith,
                    a user admin,
                    ap (λ x. has_access user x admin t.access) (sym q) ∙ allowed,
                  ))
            | inr e ↦ (
              storages s.id ∙ ap (λ b. if b then none else find_storage s.id t.storages) e ∙ f,
              λ u q.
                  access u s.id q
                  ∙ ap (λ b. if b then false else has_access u s.id q t.access) e
                  ∙ a u q,
            )
          ]
    ]

handle-IsOrphan :
    (s : Storage) (r : Request) (t : Tables)
    → IsFresh s.id r
    → IsOrphan s t
    → IsOrphan s (handle r t)
unfolding handle
handle-IsOrphan s (ask_create db id user name chat) t n o =
    create_storage-IsOrphan s db id user name chat t n o
handle-IsOrphan s (ask_delete tg db user storage p) t n o =
    delete_storage-IsOrphan s tg db user storage p t o
handle-IsOrphan s (ask_access r) t n (f, a) = elim (Bool-cases (storage_of r == s.id)) [
  | inr e ↦ (f, λ u q. handle-ne r q t.access u s.id (inr (λ x. absurd (ground arith))) ∙ a u q)
  | inl e ↦
      let p : s.id ≡ storage_of r = ground arith in
      let refused : has_access (caller_of r) (storage_of r) admin t.access ≡ false =
        ap (λ x. has_access (caller_of r) x admin t.access) (sym p) ∙ a (caller_of r) admin in
      (f, λ u q. ap (has_access u s.id q) (handle-not_admin r t.access refused).1 ∙ a u q)
]

serve-IsOrphan :
    (s : Storage) (rs : List Request) (t : Tables)
    → AreFresh s.id rs
    → IsOrphan s t
    → IsOrphan s (serve rs t)
unfolding serve
serve-IsOrphan s [] t n o = o
serve-IsOrphan s (r ∷ rs) t n o = serve-IsOrphan s rs (handle r t) n.1 (handle-IsOrphan s r t n.0 o)

-- Where a storage is created under a new id with a name and a free chat and its access row cannot be written, the
-- creation fails and yet the storage stays for good: whatever storages are then created (under other
-- ids) or deleted and whatever accesses are granted or revoked, by anyone and in any order, the storage
-- is still there, nobody has any access to it, and a creation with its chat fails and changes nothing.
pub create_storage_orphaned :
    (db : Access.Database) (id user e : ℕ) (name : List ℕ) (chat : ℕ) (t : Tables)
    (rs : List Request)
    → is_empty name ≡ false
    → has_chat chat t.storages ≡ false
    → ((u : ℕ) (q : AccessType) → has_access u id q t.access ≡ false)
    → db.write_failure ≡ some e
    → AreFresh id rs
    → let r = create_storage db id user name chat t in
      let later = serve rs r.1 in
      (r.0 ≡ err (denied (Access.database e)))
      × IsOrphan (record { id = id; name = name; chat_id = chat }) later
      × ((db' : Access.Database) (id' u : ℕ) (name' : List ℕ)
          → is_empty name' ≡ false
          → create_storage db' id' u name' chat later ≡ (err already_exists, later))
unfolding create_storage find_storage
create_storage_orphaned db id user e name chat t rs n c a w fresh =
    let s : Storage = record { id = id; name = name; chat_id = chat } in
    let r = create_storage db id user name chat t in
    let self : (id == id) ≡ true = ground arith in
    let begun : IsOrphan s r.1 = rw (create_storage, n, c, w, find_storage, self) (refl, a) in
    let o = serve-IsOrphan s rs r.1 fresh begun in
    let taken = has_chat-find_storage id s (serve rs r.1).storages o.0 in
    (
      rw (create_storage, n, c, w) refl,
      o,
      λ db' id' u name' n'. rw (create_storage, n', taken) refl,
    )
