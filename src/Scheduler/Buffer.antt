-- ===== src/Scheduler/Buffer.antt =====
-- The waiting count of a storage is balanced, and buffered tokens are used in order.
use pentaract.Prelude.{
  ℕ, zero, suc, ◌-◌, ◌≡◌, ◌≢◌, refl, ap, ◌∙◌, true, none, some, List, [], ◌∷◌, arith, length,
}
use pentaract.OrderedJobs.Spec.{ok, err}
use pentaract.Scheduler.{
  Scheduler, Turn, start_waiting, stop_waiting, pop_buffered_token, buffer_tokens, leave, enter,
  wait_for_token, get_token, update,
}

wait_for_token-waiting :
    (storage : ℕ) (turns : List Turn) (s : Scheduler) (k : ℕ)
    → (wait_for_token storage true turns s).0 ≢ none
    → (wait_for_token storage true turns s).1.waiting k
      ≡ update storage (s.waiting storage - 1) s.waiting k
unfolding wait_for_token leave enter buffer_tokens start_waiting stop_waiting
wait_for_token-waiting storage [] s k h = absurd (h refl)
wait_for_token-waiting storage (turn ∷ turns) s k h =
    ground (arith, wait_for_token-waiting storage turns s k)

-- A call that returns, with a token or an error, leaves the waiting count of every storage as it was,
-- however many turns it waited.
pub get_token-waiting :
    (storage : ℕ) (turns : List Turn) (s : Scheduler) (k : ℕ)
    → (get_token storage turns s).0 ≢ none
    → (get_token storage turns s).1.waiting k ≡ s.waiting k
unfolding get_token pop_buffered_token wait_for_token leave enter buffer_tokens start_waiting
    stop_waiting
get_token-waiting storage [] s k h = ground arith
get_token-waiting storage (turn ∷ turns) s k h =
    ground (arith, wait_for_token-waiting storage turns (start_waiting storage s) k)

-- The tokens of so many calls that ask the repository for nothing.
unfoldable pub tokens : ℕ → ℕ → Scheduler → List ℕ
unfolding get_token
tokens storage zero s = []
tokens storage (suc n) s =
    let (r, s') = get_token storage [] s in
    let rest = tokens storage n s' in
    elim r [ none ↦ [] | some o ↦ elim o [ err e ↦ [] | ok t ↦ t ∷ rest ] ]

tokens-buffer :
    (storage : ℕ) (ts : List ℕ) (s : Scheduler)
    → s.token_buf storage ≡ ts
    → tokens storage (length ts) s ≡ ts
unfolding tokens get_token pop_buffered_token
tokens-buffer storage [] s h = refl
tokens-buffer storage (t ∷ ts) s h =
    let rest : Scheduler = record s { token_buf = update storage ts s.token_buf } in
    let popped : pop_buffered_token storage s ≡ (some t, rest) = rw (pop_buffered_token, h) in
    let got : get_token storage [] s ≡ (some (ok t), rest) =
      rw (get_token, popped) (ap (λ o. (some (ok t), o.1)) popped) in
    rw (tokens, get_token, popped)
      (ap (λ l. t ∷ l)
        (ap (λ o. tokens storage (length ts) o.1) got
          ∙ tokens-buffer storage ts rest (ground arith)))

-- A batch is handed out once and in order: a caller who finds the buffer of the storage empty and is
-- given a batch gets its first token, and the calls after it get the others, with no further query.
pub get_token-batch :
    (storage t : ℕ) (ts : List ℕ) (turns : List Turn) (s : Scheduler) (turn : Turn)
    → s.token_buf storage ≡ []
    → turn.ended ≡ none
    → turn.batch ≡ ok (t ∷ ts)
    → ((get_token storage (turn ∷ turns) s).0 ≡ some (ok t))
      × (tokens storage (length ts) (get_token storage (turn ∷ turns) s).1 ≡ ts)
unfolding get_token pop_buffered_token wait_for_token leave buffer_tokens
get_token-batch storage t ts turns s turn h e b =
    (ground arith, tokens-buffer storage ts (get_token storage (turn ∷ turns) s).1 (ground arith))
