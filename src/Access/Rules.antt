-- ===== src/Access/Rules.antt =====
-- The rules of the access service.
use pentaract.Prelude.{
  ℕ, ◌≡◌, ◌≢◌, refl, ◌⊎◌, inl, inr, true, false, ◌&&◌, Option, none, some, List, [], ◌∷◌, ◌==◌,
  if◌then◌else◌, arith, sym, ap, ◌∙◌, ◌≤◌, Bool-cases, Option-cases,
}
use pentaract.Access.{
  AccessType, admin, Row, Database, grants, has_access, create_or_update, delete_rows, has_row,
  require_storage_access, write_rows, grant_to, grant, delete_access, revoke, Request, ask_grant,
  ask_revoke, handle, serve,
}
use pentaract.Access.Rows.{
  has_access-create_or_update_ne, has_access-delete_rows, has_access-create_or_update_self, rows_of,
}

-- Who makes a request, and of which storage.
abbrev pub caller_of : Request → ℕ
caller_of (ask_grant db caller storage email level) = caller
caller_of (ask_revoke db caller storage target) = caller

abbrev pub storage_of : Request → ℕ
storage_of (ask_grant db caller storage email level) = storage
storage_of (ask_revoke db caller storage target) = storage

pub require-none :
    (db : Database) (u s : ℕ) (q : AccessType) (rows : List Row)
    → require_storage_access db u s q rows ≡ none
    → has_access u s q rows ≡ true
unfolding require_storage_access
require-none db u s q rows h = ground arith

-- A request of a user who does not administer the storage fails and changes no access.
pub handle-not_admin :
    (r : Request) (rows : List Row)
    → has_access (caller_of r) (storage_of r) admin rows ≡ false
    → ((handle r rows).0 ≢ none) × ((handle r rows).1 ≡ rows)
unfolding handle grant revoke require_storage_access
handle-not_admin (ask_grant db caller storage email level) rows h = ground arith
handle-not_admin (ask_revoke db caller storage target) rows h = ground arith

-- A failed request changes no access.
pub handle-failed :
    (r : Request) (rows : List Row) → (handle r rows).0 ≢ none → (handle r rows).1 ≡ rows
unfolding handle grant revoke require_storage_access grant_to delete_access write_rows
handle-failed (ask_grant db caller storage email level) rows h = ground arith
handle-failed (ask_revoke db caller storage target) rows h = ground arith

write_rows-keeps :
    (db : Database) (v t : ℕ) (q : AccessType) (rows rows' : List Row)
    → has_access v t q rows' ≡ has_access v t q rows
    → has_access v t q (write_rows db rows rows').1 ≡ has_access v t q rows
unfolding write_rows
write_rows-keeps db v t q rows rows' h = elim (Option-cases db.write_failure) [
  | inl n ↦ rw (n) h
  | inr (e, n) ↦ rw (n)
]

-- A grant or a revocation changes nothing for another user or another storage.
grant_to-ne :
    (db : Database) (caller s : ℕ) (l : AccessType) (found : Option ℕ) (rows : List Row) (v t : ℕ)
    (q : AccessType)
    → ((v ≡ caller) ⊎ (s ≢ t))
    → has_access v t q (grant_to db caller s l found rows).1 ≡ has_access v t q rows
unfolding grant_to
grant_to-ne db caller s l none rows v t q h = refl
grant_to-ne db caller s l (some user) rows v t q h = elim (Bool-cases (user == caller)) [
  | inl self ↦ rw (self)
  | inr other ↦ rw (other) (
      write_rows-keeps db v t q rows (create_or_update user s l rows)
        (has_access-create_or_update_ne user s v t l q rows (ground arith)))
]

delete_access-ne :
    (db : Database) (target s : ℕ) (rows : List Row) (v t : ℕ) (q : AccessType)
    → (target == v && s == t) ≡ false
    → has_access v t q (delete_access db target s rows).1 ≡ has_access v t q rows
unfolding delete_access
delete_access-ne db target s rows v t q h = elim (Bool-cases (has_row target s rows)) [
  | inl found ↦ rw (found) (
      write_rows-keeps db v t q rows (delete_rows target s rows) (
        has_access-delete_rows target s v t q rows
        ∙ ap (λ b. if b then false else has_access v t q rows) h))
  | inr missing ↦ rw (missing)
]

-- No request changes the access of the user who makes it, nor that to another storage.
pub handle-ne :
    (r : Request) (q : AccessType) (rows : List Row) (v t : ℕ)
    → ((v ≡ caller_of r) ⊎ (storage_of r ≢ t))
    → has_access v t q (handle r rows).1 ≡ has_access v t q rows
unfolding handle grant revoke
handle-ne (ask_grant db caller storage email level) q rows v t h =
    elim (Option-cases (require_storage_access db caller storage admin rows)) [
      | inl e ↦
          rw (has_access, handle, grant, e)
            (grant_to-ne db caller storage level (db.user_by_email email) rows v t q h)
      | inr (x, e) ↦ rw (has_access, handle, grant, revoke, e)
    ]
handle-ne (ask_revoke db caller storage target) q rows v t h =
    elim (Option-cases (require_storage_access db caller storage admin rows)) [
      | inl e ↦ elim (Bool-cases (target == caller)) [
        | inl self ↦ rw (has_access, revoke, e, self)
        | inr other ↦
            rw (has_access, revoke, e, other)
              (delete_access-ne db target storage rows v t q (ground arith))
      ]
      | inr (x, e) ↦ rw (has_access, handle, grant, revoke, e)
    ]

abbrev pub HasAdmin : ℕ → List Row → Type 0
HasAdmin storage rows = (u : ℕ) × (has_access u storage admin rows ≡ true)

handle-HasAdmin :
    (r : Request) (rows : List Row) (s : ℕ) → HasAdmin s rows → HasAdmin s (handle r rows).1
handle-HasAdmin r rows s (u, h) = elim (Bool-cases (storage_of r == s)) [
  | inr other ↦ (u, handle-ne r admin rows u s (inr (ground arith)) ∙ h)
  | inl same ↦ elim (Bool-cases (has_access (caller_of r) (storage_of r) admin rows)) [
    | inr refused ↦ (u, ap (has_access u s admin) (handle-not_admin r rows refused).1 ∙ h)
    | inl granted ↦
        let e : storage_of r ≡ s = ground arith in
        (
          caller_of r,
          handle-ne r admin rows (caller_of r) s (inl refl)
              ∙ ap (λ t. has_access (caller_of r) t admin rows) (sym e)
              ∙ granted,
        )
  ]
]

-- A storage that has an administrator keeps one under grants and revocations that are served one after the other, each
-- with its check and its write before the next: whatever they are, in any order, by any users and
-- with any failures of the database. Nothing is said of requests that overlap, nor of the deletion of
-- accounts.
pub serve-HasAdmin :
    (rs : List Request) (rows : List Row) (s : ℕ) → HasAdmin s rows → HasAdmin s (serve rs rows)
unfolding serve
serve-HasAdmin [] rows s h = h
serve-HasAdmin (r ∷ rs) rows s h =
    serve-HasAdmin rs (handle r rows).1 s (handle-HasAdmin r rows s h)

-- A grant that succeeds gives the invited user exactly what the level includes in this storage, where
-- the user had one row at most, and the caller was an administrator and another user.
pub grant-succeeds :
    (db : Database) (caller s : ℕ) (email : List ℕ) (l : AccessType) (rows : List Row)
    → ((u : ℕ) → rows_of u s rows ≤ 1)
    → (grant db caller s email l rows).0 ≡ none
    → (user : ℕ) × (db.user_by_email email ≡ some user)
      × (user ≢ caller)
      × (has_access caller s admin rows ≡ true)
      × ((q : AccessType) → has_access user s q (grant db caller s email l rows).1 ≡ grants q l)
unfolding grant grant_to write_rows
grant-succeeds db caller s email l rows single h =
    elim (Option-cases (require_storage_access db caller s admin rows)) [
      | inr (x, e) ↦ ground arith
      | inl e ↦ elim (Option-cases (db.user_by_email email)) [
        | inl n ↦ absurd (ground arith)
        | inr (user, n) ↦ elim (Bool-cases (user == caller)) [
          | inl self ↦ absurd (ground arith)
          | inr other ↦ elim (Option-cases db.write_failure) [
            | inr (y, f) ↦ absurd (ground arith)
            | inl f ↦ (
              user,
              n,
              ground arith,
              require-none db caller s admin rows e,
              λ q.
                  rw (has_access, grant, e, n, other, f)
                    (has_access-create_or_update_self user s l q rows (single user)),
            )
          ]
        ]
      ]
    ]
