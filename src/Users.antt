-- ===== src/Users.antt =====
-- internal/service/users.go, internal/service/auth.go and internal/repository/users.go: the accounts. Texts
-- are lists of characters, folded and trimmed as ASCII. The hash of passwords and the signing of tokens are
-- parameters; `email` is UNIQUE, letter by letter. A failing statement is not modelled.
pub mod Login
pub mod Rules
pub mod Takeover
mod Examples
use pentaract.Prelude.{
  ℕ, Bool, true, false, ◌&&◌, ◌||◌, not, Option, none, some, List, [], ◌∷◌, ◌==◌, if◌then◌else◌,
  leb, bytes_eq, map,
}
use pentaract.OrderedJobs.Spec.{Outcome, ok, err}
use pentaract.Access
use pentaract.Media.Codecs.{to_lower}
use pentaract.Workers.{Worker}

pub record User : Type 0 where
  pub id : ℕ
  pub email : List ℕ
  pub password_hash : List ℕ

-- appjwt.AuthUser: what a token says.
pub record AuthUser : Type 0 where
  pub id : ℕ
  pub email : List ℕ

pub data Error : Type 0 where
  registration_disabled bad_request forbidden already_exists not_found unauthorized internal : Error

-- The passwords and tokens of third-party packages; `none` is an error.
pub record Vault : Type 0 where
  pub hash : List ℕ → Option (List ℕ)
  pub verify : List ℕ → List ℕ → Bool
  pub sign : AuthUser → Option (List ℕ)

pub record Settings : Type 0 where
  pub superuser_email : List ℕ
  pub allow_registration : Bool

pub record Tables : Type 0 where
  pub users : List User
  pub access : List Access.Row
  pub workers : List Worker

-- strings.TrimSpace and strings.EqualFold.
unfoldable pub is_space : ℕ → Bool
is_space c = c == 32 || (leb 9 c && leb c 13)

unfoldable pub trim_left : List ℕ → List ℕ
unfolding is_space
trim_left [] = []
trim_left (c ∷ s) = let rest = trim_left s in if is_space c then rest else c ∷ s

unfoldable pub trim_right : List ℕ → List ℕ
unfolding is_space
trim_right [] = []
trim_right (c ∷ s) =
    let rest = trim_right s in if bytes_eq rest [] && is_space c then [] else c ∷ rest

unfoldable pub trim_space : List ℕ → List ℕ
unfolding trim_left trim_right
trim_space s = trim_right (trim_left s)

unfoldable pub equal_fold : List ℕ → List ℕ → Bool
unfolding to_lower
equal_fold s t = bytes_eq (map to_lower s) (map to_lower t)

unfoldable pub get_by_email : List ℕ → List User → Option User
get_by_email email [] = none
get_by_email email (u ∷ us) =
    let rest = get_by_email email us in if bytes_eq u.email email then some u else rest

unfoldable pub get_by_id : ℕ → List User → Option User
get_by_id id [] = none
get_by_id id (u ∷ us) = let rest = get_by_id id us in if u.id == id then some u else rest

-- The INSERT, with the id that the database gives.
unfoldable pub insert_user : ℕ → List ℕ → List ℕ → Tables → Outcome Error User × Tables
unfolding get_by_email
insert_user id email hash t =
    let u : User = record { id = id; email = email; password_hash = hash } in
    elim (get_by_email email t.users) [
      | some other ↦ (err already_exists, t)
      | none ↦ (ok u, record t { users = u ∷ t.users })
    ]

unfoldable pub create_user : Vault → ℕ → List ℕ → List ℕ → Tables → Outcome Error User × Tables
unfolding insert_user
create_user v id email pass t =
    if bytes_eq email [] || bytes_eq pass []
    then (err bad_request, t)
    else elim (v.hash pass) [ none ↦ (err internal, t) | some hash ↦ insert_user id email hash t ]

unfoldable pub register :
    Vault → Settings → ℕ → List ℕ → List ℕ → Tables → Outcome Error User × Tables
unfolding create_user
register v s id email pass t =
    if s.allow_registration then create_user v id email pass t else (err registration_disabled, t)

unfoldable pub is_admin : Settings → Option AuthUser → Bool
unfolding equal_fold trim_space
is_admin s none = false
is_admin s (some u) = equal_fold (trim_space u.email) (trim_space s.superuser_email)

unfoldable pub create_managed :
    Vault → Settings → Option AuthUser → ℕ → List ℕ → List ℕ → Tables → Outcome Error User × Tables
unfolding is_admin create_user trim_space
create_managed v s caller id email pass t =
    if is_admin s caller then create_user v id (trim_space email) pass t else (err forbidden, t)

-- `none` where the target may be managed.
unfoldable pub require_managed_target : Settings → ℕ → Tables → Option Error
unfolding get_by_id equal_fold
require_managed_target s target t = elim (get_by_id target t.users) [
  | none ↦ some not_found
  | some u ↦ if equal_fold u.email s.superuser_email then some forbidden else none
]

unfoldable pub set_password : ℕ → List ℕ → List User → List User
set_password id hash [] = []
set_password id hash (u ∷ us) =
    (if u.id == id then record u { password_hash = hash } else u) ∷ set_password id hash us

unfoldable pub update_password :
    Vault → Settings → Option AuthUser → ℕ → List ℕ → Tables → Option Error × Tables
unfolding is_admin require_managed_target set_password
update_password v s caller target pass t =
    if not (is_admin s caller)
    then (some forbidden, t)
    else if bytes_eq pass []
    then (some bad_request, t)
    else elim (require_managed_target s target t) [
      | some e ↦ (some e, t)
      | none ↦ elim (v.hash pass) [
        | none ↦ (some internal, t)
        | some hash ↦ (none, record t { users = set_password target hash t.users })
      ]
    ]

unfoldable pub without_user : ℕ → List User → List User
without_user id [] = []
without_user id (u ∷ us) = let rest = without_user id us in if u.id == id then rest else u ∷ rest

unfoldable pub without_access : ℕ → List Access.Row → List Access.Row
without_access id [] = []
without_access id (r ∷ rs) =
    let rest = without_access id rs in if r.user == id then rest else r ∷ rest

unfoldable pub without_workers : ℕ → List Worker → List Worker
without_workers id [] = []
without_workers id (w ∷ ws) =
    let rest = without_workers id ws in if w.user == id then rest else w ∷ rest

-- The transaction of the repository; the target is there.
unfoldable pub delete_managed : Settings → Option AuthUser → ℕ → Tables → Option Error × Tables
unfolding is_admin require_managed_target without_user without_access without_workers
delete_managed s caller target t =
    if not (is_admin s caller)
    then (some forbidden, t)
    else elim (require_managed_target s target t) [
      | some e ↦ (some e, t)
      | none ↦ (
        none,
        record {
          users = without_user target t.users;
          access = without_access target t.access;
          workers = without_workers target t.workers;
        },
      )
    ]

-- The token for the account that the e-mail belongs to.
unfoldable pub token_for : Vault → List ℕ → Option User → Outcome Error (List ℕ)
token_for v pass none = err unauthorized
token_for v pass (some u) =
    if v.verify pass u.password_hash
    then elim (v.sign (record { id = u.id; email = u.email })) [
      | none ↦ err internal
      | some token ↦ ok token
    ]
    else err unauthorized

unfoldable pub login : Vault → List ℕ → List ℕ → Tables → Outcome Error (List ℕ)
unfolding get_by_email token_for
login v email pass t = token_for v pass (get_by_email email t.users)
