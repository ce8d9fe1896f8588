-- ===== src/Access/Examples.antt =====
-- Witnesses and tests of the access service: storage 1 with its administrator 7.
use pentaract.Prelude.{ℕ, ◌≡◌, ◌≢◌, ◌≤◌, refl, true, false, none, some, List, [], ◌∷◌, arith}
use pentaract.Access.{
  AccessType, read, write, admin, Row, Database, grants, has_access, grant, revoke, Request,
  ask_grant, ask_revoke, handle, serve, is_of,
}
use pentaract.Access.Rows.{rows_of}
use pentaract.Access.Rules.{HasAdmin, handle-not_admin, serve-HasAdmin, grant-succeeds}

abbrev database : Database
database = record {
  access_failure = none;
  write_failure = none;
  user_by_email = λ e. elim e [ [] ↦ none | n ∷ _ ↦ some n ];
}

abbrev owner_only : List Row
owner_only = record { user = 7; storage = 1; level = admin } ∷ []

-- The owner makes user 8 an administrator; user 8 removes the owner.
abbrev handover : List Request
handover = ask_grant database 7 1 (8 ∷ []) admin ∷ ask_revoke database 8 1 7 ∷ []

handover_result : has_access 7 1 read (serve handover owner_only) ≡ false
unfolding serve handle grant revoke is_of
handover_result = refl

owner_is_admin : has_access 7 1 admin owner_only ≡ true
unfolding has_access is_of
owner_is_admin = refl

stranger : has_access 8 1 admin owner_only ≡ false
unfolding has_access is_of
stranger = refl

single : (u : ℕ) → rows_of u 1 owner_only ≤ 1
unfolding rows_of is_of
single u = ground arith

serve-HasAdmin_example : HasAdmin 1 (serve handover owner_only)
serve-HasAdmin_example = serve-HasAdmin handover owner_only 1 (7, owner_is_admin)

handle-not_admin_run :
    ((handle (ask_revoke database 8 1 7) owner_only).0 ≢ none)
    × ((handle (ask_revoke database 8 1 7) owner_only).1 ≡ owner_only)
handle-not_admin_run = handle-not_admin (ask_revoke database 8 1 7) owner_only stranger

granted : (grant database 7 1 (8 ∷ []) write owner_only).0 ≡ none
unfolding grant is_of
granted = refl

grant-succeeds_run :
    (user : ℕ) × (database.user_by_email (8 ∷ []) ≡ some user)
    × (user ≢ 7)
    × (has_access 7 1 admin owner_only ≡ true)
    × ((q : AccessType)
        → has_access user 1 q (grant database 7 1 (8 ∷ []) write owner_only).1 ≡ grants q write)
grant-succeeds_run = grant-succeeds database 7 1 (8 ∷ []) write owner_only single granted
