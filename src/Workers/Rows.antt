-- ===== src/Workers/Rows.antt =====
-- What the requests of a user do to the workers of others, and that tokens stay apart.
use pentaract.Prelude.{
  ℕ, suc, ◌≤◌, ◌≡◌, refl, false, Option, none, some, List, [], ◌∷◌, ◌==◌, if◌then◌else◌, arith, inl,
  inr, Bool-cases, Option-cases, bytes_eq,
}
use pentaract.Workers.{
  Worker, has_token, create, find_worker, update_rows, update_worker, delete_rows, delete_worker,
}

-- The workers that a user does not own.
pub of_others : ℕ → List Worker → List Worker
of_others user [] = []
of_others user (w ∷ ws) = if w.user == user then of_others user ws else w ∷ of_others user ws

-- How many workers have a token.
pub with_token : ℕ → List Worker → ℕ
with_token token [] = 0
with_token token (w ∷ ws) =
    if w.token == token then suc (with_token token ws) else with_token token ws

pub data Request : Type 0 where
  ask_create : ℕ → List ℕ → Option ℕ → Option ℕ → Request
  ask_update : ℕ → List ℕ → Option ℕ → Request
  ask_delete : ℕ → Request

-- A request of a user.
pub handle : ℕ → Request → List Worker → List Worker
handle user (ask_create id name token storage) ws = (create id name user token storage ws).1
handle user (ask_update id name storage) ws = (update_worker id user name storage ws).1
handle user (ask_delete id) ws = (delete_worker id user ws).1

of_others-update_rows :
    (id user : ℕ) (name : List ℕ) (storage : Option ℕ) (ws : List Worker)
    → of_others user (update_rows id user name storage ws) ≡ of_others user ws
unfolding of_others update_rows
of_others-update_rows id user name storage [] = refl
of_others-update_rows id user name storage (w ∷ ws) =
    ground (arith, of_others-update_rows id user name storage ws)

of_others-delete_rows :
    (id user : ℕ) (ws : List Worker) → of_others user (delete_rows id user ws) ≡ of_others user ws
unfolding of_others delete_rows
of_others-delete_rows id user [] = refl
of_others-delete_rows id user (w ∷ ws) = ground (arith, of_others-delete_rows id user ws)

of_others-handle :
    (user : ℕ) (r : Request) (ws : List Worker)
    → of_others user (handle user r ws) ≡ of_others user ws
unfolding handle create update_worker delete_worker of_others
of_others-handle user (ask_create id name none storage) ws = refl
of_others-handle user (ask_create id name (some token) storage) ws =
    elim (Bool-cases (bytes_eq name [])) [
      | inl e ↦ rw (handle, create, e)
      | inr e ↦ elim (Bool-cases (has_token token ws)) [
        | inl h ↦ rw (handle, create, e, h)
        | inr h ↦ rw (handle, create, e, h) (ground arith)
      ]
    ]
of_others-handle user (ask_update id name storage) ws = elim (Bool-cases (bytes_eq name [])) [
  | inl e ↦ rw (handle, update_worker, e)
  | inr e ↦ elim (Option-cases (find_worker id user ws)) [
    | inl h ↦ rw (handle, update_worker, e, h)
    | inr (w, h) ↦ rw (handle, update_worker, e, h) (of_others-update_rows id user name storage ws)
  ]
]
of_others-handle user (ask_delete id) ws = elim (Option-cases (find_worker id user ws)) [
  | inl h ↦ rw (handle, delete_worker, h)
  | inr (w, h) ↦ rw (handle, delete_worker, h) (of_others-delete_rows id user ws)
]

with_token-none :
    (token : ℕ) (ws : List Worker) → has_token token ws ≡ false → with_token token ws ≡ 0
unfolding has_token with_token
with_token-none token [] h = refl
with_token-none token (w ∷ ws) h = ground (arith, with_token-none token ws)

with_token-update_rows :
    (t id user : ℕ) (name : List ℕ) (storage : Option ℕ) (ws : List Worker)
    → with_token t (update_rows id user name storage ws) ≡ with_token t ws
unfolding with_token update_rows
with_token-update_rows t id user name storage [] = refl
with_token-update_rows t id user name storage (w ∷ ws) =
    ground (arith, with_token-update_rows t id user name storage ws)

with_token-delete_rows :
    (t id user : ℕ) (ws : List Worker) → with_token t (delete_rows id user ws) ≤ with_token t ws
unfolding with_token delete_rows
with_token-delete_rows t id user [] = omega arith
with_token-delete_rows t id user (w ∷ ws) = ground (arith, with_token-delete_rows t id user ws)

with_token-handle :
    (t user : ℕ) (r : Request) (ws : List Worker)
    → with_token t ws ≤ 1
    → with_token t (handle user r ws) ≤ 1
unfolding handle create update_worker delete_worker with_token
with_token-handle t user (ask_create id name none storage) ws u = u
with_token-handle t user (ask_create id name (some token) storage) ws u =
    elim (Bool-cases (bytes_eq name [])) [
      | inl e ↦ rw (handle, create, e) u
      | inr e ↦ elim (Bool-cases (has_token token ws)) [
        | inl h ↦ rw (handle, create, e, h) u
        | inr h ↦ rw (handle, create, e, h) (ground (arith, with_token-none token ws h))
      ]
    ]
with_token-handle t user (ask_update id name storage) ws u = elim (Bool-cases (bytes_eq name [])) [
  | inl e ↦ rw (handle, update_worker, e) u
  | inr e ↦ elim (Option-cases (find_worker id user ws)) [
    | inl h ↦ rw (handle, update_worker, e, h) u
    | inr (w, h) ↦
        rw (handle, update_worker, e, h)
          (omega (arith, with_token-update_rows t id user name storage ws))
  ]
]
with_token-handle t user (ask_delete id) ws u = elim (Option-cases (find_worker id user ws)) [
  | inl h ↦ rw (handle, delete_worker, h) u
  | inr (w, h) ↦ rw (handle, delete_worker, h) (omega (arith, with_token-delete_rows t id user ws))
]

-- Whatever a user asks for, the workers of other users stay as they are and in their order, and no two
-- workers come to have one token where none did.
pub handle_lem :
    (user : ℕ) (r : Request) (ws : List Worker)
    → ((t : ℕ) → with_token t ws ≤ 1)
    → (of_others user (handle user r ws) ≡ of_others user ws)
      × ((t : ℕ) → with_token t (handle user r ws) ≤ 1)
handle_lem user r ws u = (of_others-handle user r ws, λ t. with_token-handle t user r ws (u t))
