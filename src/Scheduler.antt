-- ===== src/Scheduler.antt =====
-- internal/service/worker_scheduler.go: the tokens of the storage workers. The state is the buffer of
-- tokens and the count of waiting callers of each storage; each operation under a mutex is one step.
-- What the repository answers and when the context ends is given per turn of the loop.
pub mod Buffer
mod Examples
use pentaract.Prelude.{
  ℕ, zero, suc, ◌+◌, ◌-◌, Bool, true, false, Option, none, some, List, [], ◌∷◌, ◌++◌, ◌==◌,
  if◌then◌else◌, ltb,
}
use pentaract.OrderedJobs.Spec.{Outcome, ok, err}

-- A worker's token; an error, by its number.
pub record Scheduler : Type 0 where
  pub waiting : ℕ → ℕ
  pub token_buf : ℕ → List ℕ

-- A turn of the loop: the context's error before it, the batch, and the context's error in the wait.
pub record Turn : Type 0 where
  pub ended : Option ℕ
  pub batch : Outcome ℕ (List ℕ)
  pub ended_waiting : Option ℕ

abbrev pub update : {A : Type 0} → ℕ → A → (ℕ → A) → ℕ → A
update k a f i = if i == k then a else f i

-- `setWaiting` with 1 and with -1: a count of zero or less is deleted.
unfoldable pub start_waiting : ℕ → Scheduler → Scheduler
start_waiting storage s = record s { waiting = update storage (suc (s.waiting storage)) s.waiting }

unfoldable pub stop_waiting : ℕ → Scheduler → Scheduler
stop_waiting storage s = record s { waiting = update storage (s.waiting storage - 1) s.waiting }

unfoldable pub is_waiting : ℕ → Scheduler → Bool
is_waiting storage s = ltb 0 (s.waiting storage)

unfoldable pub pop_buffered_token : ℕ → Scheduler → Option ℕ × Scheduler
pop_buffered_token storage s = elim (s.token_buf storage) [
  | [] ↦ (none, s)
  | t ∷ ts ↦ (some t, record s { token_buf = update storage ts s.token_buf })
]

unfoldable pub buffer_tokens : ℕ → List ℕ → Scheduler → Scheduler
buffer_tokens storage extras s = record s {
  token_buf = update storage (s.token_buf storage ++ extras) s.token_buf;
}

-- The deferred reset of the count.
leave : Bool → ℕ → Scheduler → Scheduler
unfolding stop_waiting
leave waiting storage s = if waiting then stop_waiting storage s else s

enter : Bool → ℕ → Scheduler → Scheduler
unfolding start_waiting
enter waiting storage s = if waiting then s else start_waiting storage s

-- The loop over the turns; `none` is a caller that still waits after the last one.
unfoldable pub wait_for_token : ℕ → Bool → List Turn → Scheduler → Option (Outcome ℕ ℕ) × Scheduler
unfolding leave enter buffer_tokens
wait_for_token storage waiting [] s = (none, s)
wait_for_token storage waiting (turn ∷ turns) s =
    let inside = enter waiting storage s in
    let again = wait_for_token storage true turns inside in
    elim turn.ended [
      | some e ↦ (some (err e), leave waiting storage s)
      | none ↦ elim turn.batch [
        | err e ↦ (some (err e), leave waiting storage s)
        | ok tokens ↦ elim tokens [
          | t ∷ ts ↦ (some (ok t), leave waiting storage (buffer_tokens storage ts s))
          | [] ↦ elim turn.ended_waiting [
            | some e ↦ (some (err e), leave true storage inside)
            | none ↦ again
          ]
        ]
      ]
    ]

unfoldable pub get_token : ℕ → List Turn → Scheduler → Option (Outcome ℕ ℕ) × Scheduler
unfolding wait_for_token pop_buffered_token
get_token storage turns s =
    let popped = pop_buffered_token storage s in
    let waited = wait_for_token storage false turns s in
    elim popped.0 [ some t ↦ (some (ok t), popped.1) | none ↦ waited ]
