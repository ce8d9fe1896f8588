-- ===== src/Users/Takeover.antt =====
-- Who else is taken for the superuser.
use mathlib.Core.Path.{subst}
use pentaract.Prelude.{
  ℕ, ◌+◌, ◌≤◌, ◌≡◌, ◌≢◌, refl, ap, sym, ◌∙◌, ◌⊎◌, inl, inr, true, false, ◌&&◌, ◌||◌, Option, none,
  some, List, [], ◌∷◌, ◌++◌, ◌==◌, arith, Bool-cases, bytes_eq, bytes_eq_refl, bytes_eq→eq, map,
}
use pentaract.OrderedJobs.Spec.{ok}
use pentaract.Media.Codecs.{to_lower}
use pentaract.Users.{
  User, AuthUser, Vault, Settings, Tables, is_space, trim_left, trim_right, trim_space, equal_fold,
  get_by_email, get_by_id, insert_user, create_user, register, is_admin, require_managed_target,
  set_password, update_password, delete_managed, without_user, login,
}
use pentaract.Users.Login.{Verifies, login-register}

-- The same letter, or the small and the capital one.
abbrev pub IsCaseOf : ℕ → ℕ → Type 0
IsCaseOf a b =
    (a ≡ b) ⊎ (((97 ≤ a) × (a ≤ 122) × (a ≡ b + 32)) ⊎ ((97 ≤ b) × (b ≤ 122) × (b ≡ a + 32)))

abbrev pub AreCasesOf : List ℕ → List ℕ → Type 0
AreCasesOf [] [] = Unit
AreCasesOf [] (b ∷ t) = ⊥
AreCasesOf (a ∷ s) [] = ⊥
AreCasesOf (a ∷ s) (b ∷ t) = IsCaseOf a b × AreCasesOf s t

abbrev pub AreSpaces : List ℕ → Type 0
AreSpaces [] = Unit
AreSpaces (c ∷ s) = (c ≡ 32) × AreSpaces s

to_lower-case : (a b : ℕ) → IsCaseOf a b → to_lower a ≡ to_lower b
unfolding to_lower
to_lower-case a b h = ground arith

lower-IsCaseOf : (a b : ℕ) → to_lower a ≡ to_lower b → IsCaseOf a b
unfolding to_lower
lower-IsCaseOf a b h = ground arith

is_space-case : (a b : ℕ) → IsCaseOf a b → is_space a ≡ is_space b
unfolding is_space
is_space-case a b h = ground arith

map-lower : (s t : List ℕ) → AreCasesOf s t → map to_lower s ≡ map to_lower t
map-lower [] [] h = refl
map-lower [] (b ∷ t) h = absurd h
map-lower (a ∷ s) [] h = absurd h
map-lower (a ∷ s) (b ∷ t) h =
    ap (λ x. x ∷ map to_lower s) (to_lower-case a b h.0)
    ∙ ap (λ l. to_lower b ∷ l) (map-lower s t h.1)

lower-AreCasesOf : (s t : List ℕ) → map to_lower s ≡ map to_lower t → AreCasesOf s t
lower-AreCasesOf [] [] h = tt
lower-AreCasesOf [] (b ∷ t) h = absurd (ground arith)
lower-AreCasesOf (a ∷ s) [] h = absurd (ground arith)
lower-AreCasesOf (a ∷ s) (b ∷ t) h =
    let heads : to_lower a ≡ to_lower b = cc in
    let tails : map to_lower s ≡ map to_lower t = cc in
    (lower-IsCaseOf a b heads, lower-AreCasesOf s t tails)

trim_left-spaces : (p s : List ℕ) → AreSpaces p → trim_left (p ++ s) ≡ trim_left s
unfolding trim_left is_space
trim_left-spaces [] s h = refl
trim_left-spaces (c ∷ p) s h = ground (arith, trim_left-spaces p s h.1)

trim_left-cases : (s t : List ℕ) → AreCasesOf s t → AreCasesOf (trim_left s) (trim_left t)
unfolding trim_left
trim_left-cases [] [] h = tt
trim_left-cases [] (b ∷ t) h = absurd h
trim_left-cases (a ∷ s) [] h = absurd h
trim_left-cases (a ∷ s) (b ∷ t) h =
    let e = is_space-case a b h.0 in
    elim (Bool-cases (is_space b)) [
      | inl f ↦ let g = e ∙ f in rw (trim_left, f, g) (trim_left-cases s t h.1)
      | inr f ↦ let g = e ∙ f in rw (trim_left, f, g) h
    ]

empty-cases : (s t : List ℕ) → AreCasesOf s t → bytes_eq s [] ≡ bytes_eq t []
unfolding bytes_eq
empty-cases [] [] h = refl
empty-cases [] (b ∷ t) h = absurd h
empty-cases (a ∷ s) [] h = absurd h
empty-cases (a ∷ s) (b ∷ t) h = refl

trim_right-cases : (s t : List ℕ) → AreCasesOf s t → AreCasesOf (trim_right s) (trim_right t)
unfolding trim_right
trim_right-cases [] [] h = tt
trim_right-cases [] (b ∷ t) h = absurd h
trim_right-cases (a ∷ s) [] h = absurd h
trim_right-cases (a ∷ s) (b ∷ t) h =
    let rest = trim_right-cases s t h.1 in
    let e : (bytes_eq (trim_right s) [] && is_space a)
        ≡ (bytes_eq (trim_right t) [] && is_space b) =
      ap (λ x. x && is_space a) (empty-cases (trim_right s) (trim_right t) rest)
      ∙ ap (λ x. bytes_eq (trim_right t) [] && x) (is_space-case a b h.0) in
    elim (Bool-cases (bytes_eq (trim_right t) [] && is_space b)) [
      | inl f ↦ let g = e ∙ f in rw (trim_right, f, g) tt
      | inr f ↦ let g = e ∙ f in rw (trim_right, f, g) (h.0, rest)
    ]

equal_fold-AreCasesOf : (s t : List ℕ) → AreCasesOf s t → equal_fold s t ≡ true
unfolding equal_fold
equal_fold-AreCasesOf s t h =
    ap (λ l. bytes_eq l (map to_lower t)) (map-lower s t h) ∙ bytes_eq_refl (map to_lower t)

not-AreCasesOf : (s t : List ℕ) → ¬ AreCasesOf s t → equal_fold s t ≡ false
unfolding equal_fold
not-AreCasesOf s t n = elim (Bool-cases (equal_fold s t)) [
  | inr e ↦ e
  | inl e ↦ absurd (n (lower-AreCasesOf s t (bytes_eq→eq (map to_lower s) (map to_lower t) e)))
]

is_admin-disguised :
    (s : Settings) (id : ℕ) (front letters : List ℕ)
    → AreSpaces front
    → AreCasesOf letters s.superuser_email
    → is_admin s (some (record { id = id; email = front ++ letters })) ≡ true
unfolding is_admin trim_space
is_admin-disguised s id front letters f c =
    ap (λ l. equal_fold (trim_right l) (trim_space s.superuser_email))
      (trim_left-spaces front letters f)
    ∙ equal_fold-AreCasesOf (trim_right (trim_left letters))
        (trim_right (trim_left s.superuser_email))
        (trim_right-cases (trim_left letters) (trim_left s.superuser_email)
          (trim_left-cases letters s.superuser_email c))

get_by_id-set_password :
    (id : ℕ) (hash : List ℕ) (us : List User) (u : User)
    → get_by_id id us ≡ some u
    → get_by_id id (set_password id hash us) ≡ some (record u { password_hash = hash })
unfolding get_by_id set_password
get_by_id-set_password id hash [] u h = absurd (ground arith)
get_by_id-set_password id hash (x ∷ us) u h = elim (Bool-cases (x.id == id)) [
  | inl e ↦
      let p : some x ≡ some u = rw (get_by_id, e) at h in
      rw (get_by_id, set_password, e)
        (rw e (
          ap
            (λ o. elim o as (λ _. Option User) [
              | none ↦ none
              | some y ↦ some (record y { password_hash = hash })
            ])
            p))
  | inr e ↦
      rw (get_by_id, set_password, e)
        (rw e (get_by_id-set_password id hash us u (rw (get_by_id, e) at h)))
]

get_by_id-without_user : (id : ℕ) (us : List User) → get_by_id id (without_user id us) ≡ none
unfolding get_by_id without_user
get_by_id-without_user id [] = refl
get_by_id-without_user id (x ∷ us) = ground (arith, get_by_id-without_user id us)

not_empty : (s : List ℕ) → s ≢ [] → bytes_eq s [] ≡ false
unfolding bytes_eq
not_empty [] n = absurd (n refl)
not_empty (c ∷ s) n = refl

-- Where registration is open, anyone can become an administrator. An address that is the superuser's with some letters
-- in the other case or with spaces in front, and that no account has letter by letter, can be registered
-- with any password that is not empty and can be hashed; a login with it gives a token; and the user of
-- that token can set the password of every account whose address is not such a form of the
-- superuser's, and can delete the account.
pub register-takeover :
    (v : Vault) (s : Settings) (id : ℕ) (front letters pass pass' hash hash' token : List ℕ)
    (t : Tables)
    → s.allow_registration ≡ true
    → AreSpaces front
    → AreCasesOf letters s.superuser_email
    → front ++ letters ≢ []
    → get_by_email (front ++ letters) t.users ≡ none
    → pass ≢ []
    → pass' ≢ []
    → v.hash pass ≡ some hash
    → v.hash pass' ≡ some hash'
    → Verifies v
    → v.sign (record { id = id; email = front ++ letters }) ≡ some token
    → let r = register v s id (front ++ letters) pass t in
      let me : AuthUser = record { id = id; email = front ++ letters } in
      (login v (front ++ letters) pass r.1 ≡ ok token)
      × ((u : User)
          → get_by_id u.id t.users ≡ some u
          → u.id ≢ id
          → ¬ AreCasesOf u.email s.superuser_email
          → let p = update_password v s (some me) u.id pass' r.1 in
            let d = delete_managed s (some me) u.id r.1 in
            (p.0 ≡ none)
            × (get_by_id u.id p.1.users ≡ some (record u { password_hash = hash' }))
            × (d.0 ≡ none)
            × (get_by_id u.id d.1.users ≡ none))
unfolding register create_user insert_user update_password delete_managed require_managed_target
    get_by_id
register-takeover v s id front letters pass pass' hash hash' token t o f c m g n n' h h' law sign =
    let email = front ++ letters in
    let r = register v s id email pass t in
    let new : User = record { id = id; email = email; password_hash = hash } in
    let filled : (bytes_eq email [] || bytes_eq pass []) ≡ false =
      ground (arith, not_empty email m, not_empty pass n) in
    let made : r ≡ (ok new, record t { users = new ∷ t.users }) =
      rw (register, o, create_user, filled, h, insert_user, g) in
    let boss = is_admin-disguised s id front letters f c in
    let enter = login-register v s id email pass t new token law (ap (λ x. x.0) made) sign in
    (
      enter.0,
      λ u i other plain.
          let me : AuthUser = record { id = id; email = email } in
          let there : get_by_id u.id (new ∷ t.users) ≡ some u =
            let apart : (id == u.id) ≡ false = differs id u.id other in rw (get_by_id, apart) i in
          let managed : require_managed_target s u.id (record t { users = new ∷ t.users }) ≡ none =
            rw (require_managed_target, there, not-AreCasesOf u.email s.superuser_email plain) in
          let after : Tables = record t { users = new ∷ t.users } in
          let p : update_password v s (some me) u.id pass' after
              ≡ (none, record after { users = set_password u.id hash' (new ∷ t.users) }) =
            rw (update_password, boss, not_empty pass' n', managed, h') in
          let d : ((delete_managed s (some me) u.id after).0 ≡ none)
              × ((delete_managed s (some me) u.id after).1.users
                  ≡ without_user u.id (new ∷ t.users)) =
            rw (delete_managed, boss, managed) (refl, refl) in
          subst
            (λ (q : Tables).
              ((update_password v s (some me) u.id pass' q).0 ≡ none)
              × (get_by_id u.id (update_password v s (some me) u.id pass' q).1.users
                  ≡ some (record u { password_hash = hash' }))
              × ((delete_managed s (some me) u.id q).0 ≡ none)
              × (get_by_id u.id (delete_managed s (some me) u.id q).1.users ≡ none))
            (sym (ap (λ x. x.1) made))
            (
              ap (λ x. x.0) p,
              ap (λ x. get_by_id u.id x.1.users) p
                  ∙ get_by_id-set_password u.id hash' (new ∷ t.users) u there,
              d.0,
              ap (get_by_id u.id) d.1 ∙ get_by_id-without_user u.id (new ∷ t.users),
            ),
    )
  where
    differs : (a b : ℕ) → b ≢ a → (a == b) ≡ false
    differs a b k = elim (Bool-cases (a == b)) [ inr e ↦ e | inl e ↦ absurd (k (ground arith)) ]
