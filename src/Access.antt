-- ===== src/Access.antt =====
-- internal/service/access.go over internal/repository/access.go: who may do what in a storage. The
-- `access` table is the list of its rows, with one row for a user and a storage (the ON CONFLICT
-- target). The users table and the failures of the database are parameters.
pub mod Rows
pub mod Rules
pub mod Race
mod Examples
use pentaract.Prelude.{
  ℕ, Bool, true, false, ◌&&◌, ◌||◌, not, Option, none, some, List, [], ◌∷◌, ◌==◌, if◌then◌else◌,
}

-- domain.AccessType: a string, of which three values are known.
pub data AccessType : Type 0 where
  read write admin unknown : AccessType

pub record Row : Type 0 where
  pub user : ℕ
  pub storage : ℕ
  pub level : AccessType

pub data Error : Type 0 where
  forbidden self_access user_not_found access_not_found : Error
  database : ℕ → Error

-- `accessFilters`: the stored levels that grant a required one. An unknown requirement has no filter.
unfoldable pub grants : AccessType → AccessType → Bool
grants read read = true
grants read write = true
grants read admin = true
grants write write = true
grants write admin = true
grants admin admin = true
grants _ _ = false

unfoldable pub is_of : ℕ → ℕ → Row → Bool
is_of user storage r = r.user == user && r.storage == storage

-- The SELECT EXISTS of `HasAccess`.
unfoldable pub has_access : ℕ → ℕ → AccessType → List Row → Bool
unfolding is_of grants
has_access user storage required [] = false
has_access user storage required (r ∷ rs) =
    (is_of user storage r && grants required r.level) || has_access user storage required rs

-- The upsert of `CreateOrUpdate`.
unfoldable pub create_or_update : ℕ → ℕ → AccessType → List Row → List Row
unfolding is_of
create_or_update user storage level [] =
    record { user = user; storage = storage; level = level } ∷ []
create_or_update user storage level (r ∷ rs) =
    let rest = create_or_update user storage level rs in
    if is_of user storage r then record r { level = level } ∷ rs else r ∷ rest

-- The DELETE of `Delete`.
unfoldable pub delete_rows : ℕ → ℕ → List Row → List Row
unfolding is_of
delete_rows user storage [] = []
delete_rows user storage (r ∷ rs) =
    let rest = delete_rows user storage rs in if is_of user storage r then rest else r ∷ rest

unfoldable pub has_row : ℕ → ℕ → List Row → Bool
unfolding is_of
has_row user storage [] = false
has_row user storage (r ∷ rs) = is_of user storage r || has_row user storage rs

-- What the database answers: a failure of a statement, and the id of an e-mail address.
pub record Database : Type 0 where
  pub access_failure : Option ℕ
  pub write_failure : Option ℕ
  pub user_by_email : List ℕ → Option ℕ

-- `none` is a nil error.
unfoldable pub require_storage_access : Database → ℕ → ℕ → AccessType → List Row → Option Error
unfolding has_access
require_storage_access db user storage required rows = elim db.access_failure [
  | some e ↦ some (database e)
  | none ↦ if has_access user storage required rows then none else some forbidden
]

-- A statement that changes the rows, or fails and changes nothing.
write_rows : Database → List Row → List Row → Option Error × List Row
write_rows db rows rows' = elim db.write_failure [
  | some e ↦ (some (database e), rows)
  | none ↦ (none, rows')
]

grant_to : Database → ℕ → ℕ → AccessType → Option ℕ → List Row → Option Error × List Row
unfolding write_rows create_or_update
grant_to db caller storage level none rows = (some user_not_found, rows)
grant_to db caller storage level (some user) rows =
    if user == caller
    then (some self_access, rows)
    else write_rows db rows (create_or_update user storage level rows)

unfoldable pub grant : Database → ℕ → ℕ → List ℕ → AccessType → List Row → Option Error × List Row
unfolding grant_to require_storage_access
grant db caller storage email level rows =
    elim (require_storage_access db caller storage admin rows) [
      | some e ↦ (some e, rows)
      | none ↦ grant_to db caller storage level (db.user_by_email email) rows
    ]

-- `Delete` reports a missing row.
delete_access : Database → ℕ → ℕ → List Row → Option Error × List Row
unfolding write_rows delete_rows has_row
delete_access db user storage rows =
    if has_row user storage rows
    then write_rows db rows (delete_rows user storage rows)
    else (some (elim db.write_failure [ some e ↦ database e | none ↦ access_not_found ]), rows)

unfoldable pub revoke : Database → ℕ → ℕ → ℕ → List Row → Option Error × List Row
unfolding delete_access require_storage_access
revoke db caller storage target rows = elim (require_storage_access db caller storage admin rows) [
  | some e ↦ (some e, rows)
  | none ↦
      if target == caller then (some self_access, rows) else delete_access db target storage rows
]

-- One call of the service.
pub data Request : Type 0 where
  ask_grant : Database → ℕ → ℕ → List ℕ → AccessType → Request
  ask_revoke : Database → ℕ → ℕ → ℕ → Request

unfoldable pub handle : Request → List Row → Option Error × List Row
unfolding grant revoke
handle (ask_grant db caller storage email level) rows = grant db caller storage email level rows
handle (ask_revoke db caller storage target) rows = revoke db caller storage target rows

unfoldable pub serve : List Request → List Row → List Row
serve [] rows = rows
serve (r ∷ rs) rows = serve rs (handle r rows).1

-- The statements of a call one by one: the check, and what follows where it passes. There is no transaction around
-- them, so that other calls may come between.
unfoldable pub admit : Request → List Row → Option Error
unfolding require_storage_access
admit (ask_grant db caller storage email level) rows =
    require_storage_access db caller storage admin rows
admit (ask_revoke db caller storage target) rows =
    require_storage_access db caller storage admin rows

unfoldable pub carry_out : Request → List Row → Option Error × List Row
unfolding grant_to delete_access
carry_out (ask_grant db caller storage email level) rows =
    grant_to db caller storage level (db.user_by_email email) rows
carry_out (ask_revoke db caller storage target) rows =
    if target == caller then (some self_access, rows) else delete_access db target storage rows

-- Two calls whose checks are both made before either goes on.
unfoldable pub interleave : Request → Request → List Row → List Row
interleave a b rows =
    let after_a : List Row = elim (admit a rows) [ some e ↦ rows | none ↦ (carry_out a rows).1 ] in
    elim (admit b rows) [ some e ↦ after_a | none ↦ (carry_out b after_a).1 ]
