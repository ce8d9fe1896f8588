-- ===== src/Users/Login.antt =====
-- Registration and login fit together.
use pentaract.Prelude.{
  ℕ, ◌≡◌, ◌≢◌, ap, sym, ◌∙◌, inl, inr, true, ◌||◌, none, some, List, [], ◌∷◌, arith, Bool-cases,
  Option-cases, bytes_eq, bytes_eq_refl, bytes_eq→eq,
}
use pentaract.OrderedJobs.Spec.{ok}
use pentaract.Users.{
  User, Vault, Settings, Tables, get_by_email, insert_user, create_user, register, login, token_for,
}

-- Passwords are verified against their own hashes.
abbrev pub Verifies : Vault → Type 0
Verifies v = (pass hash : List ℕ) → v.hash pass ≡ some hash → v.verify pass hash ≡ true

-- What a registration that succeeds has done.
pub register_sound :
    (v : Vault) (s : Settings) (id : ℕ) (email pass : List ℕ) (t : Tables) (u : User)
    → (register v s id email pass t).0 ≡ ok u
    → (s.allow_registration ≡ true)
      × (get_by_email email t.users ≡ none)
      × (v.hash pass ≡ some u.password_hash)
      × (u ≡ record { id = id; email = email; password_hash = u.password_hash })
      × ((register v s id email pass t).1 ≡ record t { users = u ∷ t.users })
unfolding register create_user insert_user
register_sound v s id email pass t u h = elim (Bool-cases s.allow_registration) [
  | inr closed ↦ absurd (ground arith)
  | inl opened ↦ elim (Bool-cases (bytes_eq email [] || bytes_eq pass [])) [
    | inl empty ↦ absurd (ground arith)
    | inr filled ↦ elim (Option-cases (v.hash pass)) [
      | inl f ↦ absurd (ground arith)
      | inr (hash, f) ↦ elim (Option-cases (get_by_email email t.users)) [
        | inr (other, g) ↦ absurd (ground arith)
        | inl g ↦ ground arith
      ]
    ]
  ]
]

get_by_email-other :
    (email e : List ℕ) (u : User) (us : List User)
    → u.email ≡ email
    → e ≢ email
    → get_by_email e (u ∷ us) ≡ get_by_email e us
unfolding get_by_email
get_by_email-other email e u us h n = elim (Bool-cases (bytes_eq u.email e)) [
  | inl same ↦ absurd (n (sym (bytes_eq→eq u.email e same) ∙ h))
  | inr other ↦ rw (get_by_email, other)
]

-- After a registration that succeeds, a login with the same e-mail and password gives the token of the new
-- account (where passwords are verified against their own hashes), and logins with other e-mails
-- are as before.
pub login-register :
    (v : Vault) (s : Settings) (id : ℕ) (email pass : List ℕ) (t : Tables) (u : User)
    (token : List ℕ)
    → Verifies v
    → (register v s id email pass t).0 ≡ ok u
    → v.sign (record { id = id; email = email }) ≡ some token
    → (login v email pass (register v s id email pass t).1 ≡ ok token)
      × ((e p : List ℕ) → e ≢ email → login v e p (register v s id email pass t).1 ≡ login v e p t)
unfolding login
login-register v s id email pass t u token law h sign =
    let (a, b, c, d, f) = register_sound v s id email pass t u h in
    let hash = u.password_hash in
    let new : User = record { id = id; email = email; password_hash = hash } in
    let found : get_by_email email (new ∷ t.users) ≡ some new =
      unfold get_by_email in rw (bytes_eq_refl email) in
    (
      ap (login v email pass) f
          ∙ ap (λ (x : User). login v email pass (record t { users = x ∷ t.users })) d
          ∙ rw (login, found, law pass hash c, sign),
      λ e p n.
          ap (login v e p) f
          ∙ ap (token_for v p) (get_by_email-other email e u t.users (ap (λ x. x.email) d) n),
    )
