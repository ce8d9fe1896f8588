-- ===== src/Users/Examples.antt =====
-- Accounts at concrete tables: the superuser, a user, and open registration.
use pentaract.Prelude.{
  ℕ, ◌≡◌, ◌≢◌, refl, ap, sym, ◌∙◌, inl, inr, Bool, true, false, Option, none, some, List, [], ◌∷◌,
  ◌==◌, ◌++◌, if◌then◌else◌, arith, bytes, bytes_eq, bytes_eq_refl,
}
use pentaract.OrderedJobs.Spec.{ok}
use pentaract.Access.{AccessType, admin, has_access}
use pentaract.Users.{
  User, AuthUser, forbidden, Vault, Settings, Tables, get_by_email, get_by_id, register, login,
  is_admin, update_password, delete_managed,
}
use pentaract.Users.Login.{Verifies, login-register}
use pentaract.Users.Takeover.{AreCasesOf, register-takeover}
use pentaract.Users.Rules.{
  superusers, UniqueIds, ask_delete, manage, manage-superusers, delete_managed-access,
}

-- A toy hash: a mark before the password.
abbrev vault : Vault
vault = record {
  hash = λ p. some (1 ∷ p);
  verify = λ p h. bytes_eq (1 ∷ p) h;
  sign = λ u. some (u.id ∷ u.email);
}

vault-Verifies : Verifies vault
vault-Verifies pass hash h =
    ap (λ o. elim o as (λ _. Bool) [ none ↦ true | some k ↦ bytes_eq (1 ∷ pass) k ]) (sym h)
    ∙ bytes_eq_refl (1 ∷ pass)

abbrev settings : Settings
settings = record { superuser_email = bytes "root@x.org"; allow_registration = true }

abbrev root : User
root = record { id = 1; email = bytes "root@x.org"; password_hash = [] }

abbrev ann : User
ann = record { id = 2; email = bytes "ann@x.org"; password_hash = [] }

abbrev tables : Tables
tables = record {
  users = root ∷ ann ∷ [];
  access = record { user = 2; storage = 9; level = admin } ∷ [];
  workers = [];
}

abbrev caller : Option AuthUser
caller = some (record { id = 1; email = bytes "root@x.org" })

abbrev bob : User
bob = record { id = 3; email = bytes "bob"; password_hash = 1 ∷ bytes "pw" }

registered : (register vault settings 3 (bytes "bob") (bytes "pw") tables).0 ≡ ok bob
unfolding register bytes_eq
registered = refl

login-register_example :
    (login vault
        (bytes "bob")
        (bytes "pw")
        (register vault settings 3 (bytes "bob") (bytes "pw") tables).1
      ≡ ok (3 ∷ bytes "bob"))
    × ((e p : List ℕ)
        → e ≢ bytes "bob"
        → login vault e p (register vault settings 3 (bytes "bob") (bytes "pw") tables).1
          ≡ login vault e p tables)
login-register_example =
    login-register vault settings 3 (bytes "bob") (bytes "pw") tables bob (3 ∷ bytes "bob")
      vault-Verifies registered refl

tables-UniqueIds : UniqueIds tables.users
tables-UniqueIds u w (inl a) (inl b) e = a ∙ sym b
tables-UniqueIds u w (inl a) (inr (inl b)) e =
    absurd (omega (arith, ap (λ x. x.id) a, ap (λ x. x.id) b))
tables-UniqueIds u w (inr (inl a)) (inl b) e =
    absurd (omega (arith, ap (λ x. x.id) a, ap (λ x. x.id) b))
tables-UniqueIds u w (inr (inl a)) (inr (inl b)) e = a ∙ sym b
tables-UniqueIds u w (inr (inr m)) h e = absurd m
tables-UniqueIds u w (inl a) (inr (inr m)) e = absurd m
tables-UniqueIds u w (inr (inl a)) (inr (inr m)) e = absurd m

manage-superusers_example :
    (superusers settings (manage vault settings caller (ask_delete 2) tables).1.users
      ≡ superusers settings tables.users)
    × (is_admin settings caller ≡ false
        → ((manage vault settings caller (ask_delete 2) tables).0 ≡ some forbidden)
          × ((manage vault settings caller (ask_delete 2) tables).1 ≡ tables))
manage-superusers_example =
    manage-superusers vault settings caller (ask_delete 2) tables tables-UniqueIds

ann_deleted : (delete_managed settings caller 2 tables).0 ≡ none
unfolding delete_managed bytes_eq
ann_deleted = refl

delete_managed-access_example :
    ((u storage : ℕ) (q : AccessType)
      → has_access u storage q (delete_managed settings caller 2 tables).1.access
        ≡ (if u == 2 then false else has_access u storage q tables.access))
    × ((storage : ℕ)
        → ((u : ℕ) → has_access u storage admin tables.access ≡ true → u ≡ 2)
        → (u : ℕ)
        → has_access u storage admin (delete_managed settings caller 2 tables).1.access ≡ false)
delete_managed-access_example = delete_managed-access settings caller 2 tables ann_deleted

abbrev imitation : List ℕ
imitation = bytes " " ++ bytes "Root@x.org"

not_there : get_by_email imitation tables.users ≡ none
unfolding get_by_email bytes_eq
not_there = refl

imitates : AreCasesOf (bytes "Root@x.org") (bytes "root@x.org")
imitates = (
  inr (inr (omega arith, omega arith, refl)),
  (
    inl refl,
    (
      inl refl,
      (inl refl, (inl refl, (inl refl, (inl refl, (inl refl, (inl refl, (inl refl, tt))))))),
    ),
  ),
)

register-takeover_example :
    let r = register vault settings 7 imitation (bytes "pw") tables in
    let me : AuthUser = record { id = 7; email = imitation } in
    (login vault imitation (bytes "pw") r.1 ≡ ok (7 ∷ imitation))
    × ((u : User)
        → get_by_id u.id tables.users ≡ some u
        → u.id ≢ 7
        → ¬ AreCasesOf u.email (bytes "root@x.org")
        → let p = update_password vault settings (some me) u.id (bytes "mine") r.1 in
          let d = delete_managed settings (some me) u.id r.1 in
          (p.0 ≡ none)
          × (get_by_id u.id p.1.users ≡ some (record u { password_hash = 1 ∷ bytes "mine" }))
          × (d.0 ≡ none)
          × (get_by_id u.id d.1.users ≡ none))
register-takeover_example =
    register-takeover vault settings 7 (bytes " ") (bytes "Root@x.org") (bytes "pw") (bytes "mine")
      (1 ∷ bytes "pw") (1 ∷ bytes "mine") (7 ∷ imitation) tables refl (refl, tt) imitates
      (λ e. absurd (ground arith)) not_there (λ e. absurd (ground arith))
      (λ e. absurd (ground arith)) refl refl vault-Verifies refl
