-- ===== src/Users/Rules.antt =====
-- Who may manage accounts, and what is left of a deleted one.
use pentaract.Prelude.{
  ℕ, ◌≡◌, refl, ap, sym, ◌∙◌, inl, inr, true, false, Option, none, some, List, [], ◌∷◌, ◌==◌,
  if◌then◌else◌, arith, Bool-cases, Option-cases, bytes_eq,
}
use pentaract.Prelude.Members.{In}
use pentaract.Access
use pentaract.Access.{AccessType, admin, is_of, grants, has_access}
use pentaract.Users.{
  User, AuthUser, Error, forbidden, Vault, Settings, Tables, equal_fold, get_by_id, is_admin,
  require_managed_target, set_password, update_password, without_user, without_access,
  delete_managed,
}

-- The accounts that the rules spare.
pub superusers : Settings → List User → List User
superusers s [] = []
superusers s (u ∷ us) =
    if equal_fold u.email s.superuser_email then u ∷ superusers s us else superusers s us

abbrev pub UniqueIds : List User → Type 0
UniqueIds us = (u w : User) → In u us → In w us → u.id ≡ w.id → u ≡ w

get_by_id-In :
    (id : ℕ) (us : List User) (u : User) → get_by_id id us ≡ some u → In u us × (u.id ≡ id)
unfolding get_by_id
get_by_id-In id [] u h = absurd (ground arith)
get_by_id-In id (w ∷ us) u h = elim (Bool-cases (w.id == id)) [
  | inl e ↦ let same : w ≡ u = ground arith in (inl (sym same), ground (arith, ap (λ x. x.id) same))
  | inr e ↦ let r = get_by_id-In id us u (rw (get_by_id, e) at h) in (inr r.0, r.1)
]

-- The target of a managed request is not one of them, and neither is another row of that id.
managed :
    (s : Settings) (target : ℕ) (t : Tables) (w : User)
    → UniqueIds t.users
    → require_managed_target s target t ≡ none
    → In w t.users
    → w.id ≡ target
    → equal_fold w.email s.superuser_email ≡ false
unfolding require_managed_target
managed s target t w unique h m i = elim (Option-cases (get_by_id target t.users)) [
  | inl n ↦ absurd (ground arith)
  | inr (u, g) ↦ elim (Bool-cases (equal_fold u.email s.superuser_email)) [
    | inl e ↦ absurd (ground arith)
    | inr e ↦
        let r = get_by_id-In target t.users u g in
        ap (λ x. equal_fold x.email s.superuser_email) (unique w u m r.0 (i ∙ sym r.1)) ∙ e
  ]
]

superusers-set_password :
    (s : Settings) (target : ℕ) (hash : List ℕ) (us : List User)
    → ((w : User) → In w us → w.id ≡ target → equal_fold w.email s.superuser_email ≡ false)
    → superusers s (set_password target hash us) ≡ superusers s us
unfolding superusers set_password
superusers-set_password s target hash [] h = refl
superusers-set_password s target hash (u ∷ us) h =
    let ih = superusers-set_password s target hash us (λ w m. h w (inr m)) in
    elim (Bool-cases (u.id == target)) [
      | inr e ↦
          rw (set_password, e)
            (ap (λ l. if equal_fold u.email s.superuser_email then u ∷ l else l) ih)
      | inl e ↦ let p = h u (inl refl) (ground arith) in rw (set_password, e, superusers, p) ih
    ]

superusers-without_user :
    (s : Settings) (target : ℕ) (us : List User)
    → ((w : User) → In w us → w.id ≡ target → equal_fold w.email s.superuser_email ≡ false)
    → superusers s (without_user target us) ≡ superusers s us
unfolding superusers without_user
superusers-without_user s target [] h = refl
superusers-without_user s target (u ∷ us) h =
    let ih = superusers-without_user s target us (λ w m. h w (inr m)) in
    elim (Bool-cases (u.id == target)) [
      | inr e ↦
          rw (without_user, e)
            (ap (λ l. if equal_fold u.email s.superuser_email then u ∷ l else l) ih)
      | inl e ↦ let p = h u (inl refl) (ground arith) in rw (without_user, e, superusers, p) ih
    ]

pub data Request : Type 0 where
  ask_password : ℕ → List ℕ → Request
  ask_delete : ℕ → Request

pub manage : Vault → Settings → Option AuthUser → Request → Tables → Option Error × Tables
unfolding update_password delete_managed
manage v s caller (ask_password target pass) t = update_password v s caller target pass t
manage v s caller (ask_delete target) t = delete_managed s caller target t

-- A request to change the password of an account or to delete one never changes an account whose e-mail is the
-- superuser's but for letter case (the ids being unique), and from a caller who is not an
-- administrator it fails and changes nothing.
pub manage-superusers :
    (v : Vault) (s : Settings) (caller : Option AuthUser) (r : Request) (t : Tables)
    → UniqueIds t.users
    → (superusers s (manage v s caller r t).1.users ≡ superusers s t.users)
      × (is_admin s caller ≡ false
          → ((manage v s caller r t).0 ≡ some forbidden) × ((manage v s caller r t).1 ≡ t))
unfolding manage update_password delete_managed
manage-superusers v s caller (ask_password target pass) t unique = (
  elim (Bool-cases (is_admin s caller)) [
    | inr a ↦ rw (manage, update_password, a)
    | inl a ↦ elim (Bool-cases (bytes_eq pass [])) [
      | inl b ↦ rw (manage, update_password, a, b)
      | inr b ↦ elim (Option-cases (require_managed_target s target t)) [
        | inr (x, c) ↦ rw (manage, update_password, a, b, c)
        | inl c ↦ elim (Option-cases (v.hash pass)) [
          | inl d ↦ rw (manage, update_password, a, b, c, d)
          | inr (hash, d) ↦
              rw (manage, update_password, a, b, c, d)
                (superusers-set_password s target hash t.users
                  (λ w m i. managed s target t w unique c m i))
        ]
      ]
    ]
  ],
  λ a. rw (manage, update_password, a) (refl, refl),
)
manage-superusers v s caller (ask_delete target) t unique = (
  elim (Bool-cases (is_admin s caller)) [
    | inr a ↦ rw (manage, delete_managed, a)
    | inl a ↦ elim (Option-cases (require_managed_target s target t)) [
      | inr (x, c) ↦ rw (manage, delete_managed, a, c)
      | inl c ↦
          rw (manage, delete_managed, a, c)
            (superusers-without_user s target t.users (λ w m i. managed s target t w unique c m i))
    ]
  ],
  λ a. rw (manage, delete_managed, a) (refl, refl),
)

has_access-without_access :
    (id u storage : ℕ) (q : AccessType) (rows : List Access.Row)
    → has_access u storage q (without_access id rows)
      ≡ (if u == id then false else has_access u storage q rows)
unfolding has_access without_access is_of
has_access-without_access id u storage q [] = ground arith
has_access-without_access id u storage q (r ∷ rs) =
    ground (arith, has_access-without_access id u storage q rs)

-- Deleting an account that succeeds leaves its user no access to any storage and everyone else theirs; so
-- a storage that only this user administered has no administrator any more.
pub delete_managed-access :
    (s : Settings) (caller : Option AuthUser) (target : ℕ) (t : Tables)
    → (delete_managed s caller target t).0 ≡ none
    → ((u storage : ℕ) (q : AccessType)
        → has_access u storage q (delete_managed s caller target t).1.access
          ≡ (if u == target then false else has_access u storage q t.access))
      × ((storage : ℕ)
          → ((u : ℕ) → has_access u storage admin t.access ≡ true → u ≡ target)
          → (u : ℕ)
          → has_access u storage admin (delete_managed s caller target t).1.access ≡ false)
unfolding delete_managed
delete_managed-access s caller target t h = elim (Bool-cases (is_admin s caller)) [
  | inr a ↦ absurd (ground arith)
  | inl a ↦ elim (Option-cases (require_managed_target s target t)) [
    | inr (x, c) ↦ absurd (ground arith)
    | inl c ↦
        rw (delete_managed, a, c)
          (
            λ u storage q. has_access-without_access target u storage q t.access,
            λ storage only u.
                has_access-without_access target u storage admin t.access
                ∙ elim (Bool-cases (has_access u storage admin t.access)) [
                  | inr n ↦ ground arith
                  | inl y ↦ let e = only u y in ground arith
                ],
          )
  ]
]
