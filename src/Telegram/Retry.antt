-- ===== src/Telegram/Retry.antt =====
-- What the retries achieve: the first answer within four attempts, and nothing else.
use mathlib.Core.Path.{subst}
use pentaract.Prelude.{
  ℕ, zero, suc, ◌+◌, ◌≤◌, ◌<◌, ◌≡◌, ◌≢◌, refl, ap, sym, ◌∙◌, inl, inr, ◌⊎◌, ◌↔◌, Bool, true, false,
  none, some, List, ◌==◌, arith, Bool-cases, Option-cases,
}
use pentaract.OrderedJobs.Spec.{Outcome, ok, err}
use pentaract.Telegram.{
  broken, Failure, Response, no_response, response, is_retryable_download_error, Trip, Fault, Next,
  stop, again, do_once, wait_of, is_answered, turn, retry_from, do_with_retry,
}

-- A transport error that may pass: no cancellation, and the body was cut short or the network failed.
abbrev pub MayPass : Trip → Failure → Type 0
MayPass t f =
    (t.ended_after ≡ false)
    × (f.is_cancelled ≡ false)
    × ((f.is_cut_short ≡ true) ⊎ (f.is_network ≡ true))

-- Status 429, or no whole response because of an error that may pass.
abbrev pub IsWorthRetry : Trip → Response → Type 0
IsWorthRetry t (no_response f) = MayPass t f
IsWorthRetry t (response status seconds body) =
    (status ≡ 429) ⊎ ((status ≢ 429) × ((f : Failure) × (body ≡ err f) × MayPass t f))

-- The attempt gets a rate limit or an error that is worth a retry, and its wait is not interrupted.
abbrev pub IsTransient : Trip → Type 0
IsTransient t =
    (t.ended ≡ none) × (t.request_failure ≡ none) × IsWorthRetry t t.answer × (t.wait_ended ≡ none)

-- The answer is whole, and its status is not 429.
abbrev pub IsWhole : Response → ℕ × List ℕ → Type 0
IsWhole (no_response f) r = ⊥
IsWhole (response status seconds body) r = (status ≢ 429) × (body ≡ ok r.1) × (status ≡ r.0)

-- The attempt gets through to the network, and gets a whole answer.
abbrev pub Answers : Trip → ℕ × List ℕ → Type 0
Answers t r = (t.ended ≡ none) × (t.request_failure ≡ none) × IsWhole t.answer r

-- As the code sees it: the attempt gets through to the network, and is answered.
abbrev Replies : Trip → ℕ × List ℕ → Type 0
Replies t r =
    (t.ended ≡ none) × (t.request_failure ≡ none) × (is_answered (do_once t.answer) ≡ some r)

-- As the code sees it: the attempt is not answered, and it waits for the next one.
abbrev Waits : ℕ → Trip → Type 0
Waits attempt t =
    (t.ended ≡ none)
    × (t.request_failure ≡ none)
    × (is_answered (do_once t.answer) ≡ none)
    × (wait_of attempt t.ended_after (do_once t.answer) ≢ none)
    × (t.wait_ended ≡ none)

turn-ok :
    (last : Bool) (attempt : ℕ) (t : Trip) (r : ℕ × List ℕ)
    → turn last attempt t ≡ stop (ok r)
    → Replies t r
unfolding turn
turn-ok last attempt t r h = elim (Option-cases t.ended) [
  | inr (e, a) ↦ absurd (ground arith)
  | inl a ↦ elim (Option-cases t.request_failure) [
    | inr (e, b) ↦ absurd (ground arith)
    | inl b ↦ elim (Option-cases (is_answered (do_once t.answer))) [
      | inr (q, c) ↦ (a, b, c ∙ ground arith)
      | inl c ↦ elim (Bool-cases last) [
        | inl d ↦ absurd (ground arith)
        | inr d ↦ elim (Option-cases (wait_of attempt t.ended_after (do_once t.answer))) [
          | inl w ↦ absurd (ground arith)
          | inr (ms, w) ↦ elim (Option-cases t.wait_ended) [
            | inl z ↦ absurd (ground arith)
            | inr (e, z) ↦ absurd (ground arith)
          ]
        ]
      ]
    ]
  ]
]

turn-again :
    (last : Bool) (attempt ms : ℕ) (t : Trip)
    → turn last attempt t ≡ again ms
    → (last ≡ false) × Waits attempt t
unfolding turn
turn-again last attempt ms t h = elim (Option-cases t.ended) [
  | inr (e, a) ↦ absurd (ground arith)
  | inl a ↦ elim (Option-cases t.request_failure) [
    | inr (e, b) ↦ absurd (ground arith)
    | inl b ↦ elim (Option-cases (is_answered (do_once t.answer))) [
      | inr (q, c) ↦ absurd (ground arith)
      | inl c ↦ elim (Bool-cases last) [
        | inl d ↦ absurd (ground arith)
        | inr d ↦ elim (Option-cases (wait_of attempt t.ended_after (do_once t.answer))) [
          | inl w ↦ absurd (ground arith)
          | inr (n, w) ↦ elim (Option-cases t.wait_ended) [
            | inl z ↦ (d, (a, b, c, λ x. absurd (ground arith), z))
            | inr (e, z) ↦ absurd (ground arith)
          ]
        ]
      ]
    ]
  ]
]

turn-Replies :
    (last : Bool) (attempt : ℕ) (t : Trip) (r : ℕ × List ℕ)
    → Replies t r
    → turn last attempt t ≡ stop (ok r)
unfolding turn
turn-Replies last attempt t r (a, b, c) = rw (turn, a, b, c)

turn-Waits :
    (attempt : ℕ) (t : Trip) → Waits attempt t → (ms : ℕ) × (turn false attempt t ≡ again ms)
unfolding turn
turn-Waits attempt t (a, b, c, w, z) =
    elim (Option-cases (wait_of attempt t.ended_after (do_once t.answer))) [
      | inl n ↦ absurd (w n)
      | inr (ms, n) ↦ (ms, rw (turn, a, b, c, n, z))
    ]

-- Within so many attempts from one on, the first that does not wait is answered.
abbrev Within : ℕ → ℕ → (ℕ → Trip) → ℕ × List ℕ → Type 0
Within left attempt trips r =
    (k : ℕ) × (k ≤ left)
    × ((j : ℕ) → j < k → Waits (attempt + j) (trips (attempt + j)))
    × Replies (trips (attempt + k)) r

Next-cases :
    (n : Next) → ((o : Outcome Fault (ℕ × List ℕ)) × (n ≡ stop o)) ⊎ ((ms : ℕ) × (n ≡ again ms))
Next-cases (stop o) = inl (o, refl)
Next-cases (again ms) = inr (ms, refl)

at_once :
    (left attempt : ℕ) (trips : ℕ → Trip) (r : ℕ × List ℕ)
    → Replies (trips attempt) r
    → Within left attempt trips r
at_once left attempt trips r a =
    let e : attempt ≡ attempt + 0 = omega arith in
    (0, omega arith, λ j h. absurd (omega arith), subst (λ n. Replies (trips n) r) e a)

retry_from_sound :
    (left attempt : ℕ) (trips : ℕ → Trip) (waited : ℕ) (r : ℕ × List ℕ)
    → (retry_from left attempt trips waited).0 ≡ ok r
    → Within left attempt trips r
unfolding retry_from
retry_from_sound zero attempt trips waited r h =
    elim (Next-cases (turn true attempt (trips attempt))) [
      | inr (ms, n) ↦ absurd (ground arith)
      | inl (o, n) ↦
          let e : o ≡ ok r = rw (retry_from, n) at h in
          at_once zero attempt trips r (turn-ok true attempt (trips attempt) r (n ∙ ap stop e))
    ]
retry_from_sound (suc left) attempt trips waited r h =
    elim (Next-cases (turn false attempt (trips attempt))) [
      | inl (o, n) ↦
          let e : o ≡ ok r = rw (retry_from, n) at h in
          at_once (suc left) attempt trips r
            (turn-ok false attempt (trips attempt) r (n ∙ ap stop e))
      | inr (ms, n) ↦
          let (k, l, t, a) =
            retry_from_sound left (suc attempt) trips (waited + ms) r (rw (retry_from, n) at h) in
          let first = (turn-again false attempt ms (trips attempt) n).1 in
          (
            suc k,
            omega arith,
            λ j m. elim (Bool-cases (j == 0)) [
              | inl z ↦
                  subst (λ i. Waits i (trips i)) {x = attempt} {y = attempt + j} (ground arith)
                    first
              | inr z ↦
                  let (i, e) = before j (ground arith) in
                  subst (λ x. Waits x (trips x)) {x = suc attempt + i} {y = attempt + j}
                    (omega arith) (t i (omega arith))
            ],
            subst (λ x. Replies (trips x) r) {x = suc attempt + k} {y = attempt + suc k}
                (omega arith) a,
          )
    ]
  where
    before : (j : ℕ) → j ≢ 0 → (i : ℕ) × (j ≡ suc i)
    before zero h = absurd (h refl)
    before (suc i) h = (i, refl)

retry_from_complete :
    (left attempt : ℕ) (trips : ℕ → Trip) (waited k : ℕ) (r : ℕ × List ℕ)
    → k ≤ left
    → ((j : ℕ) → j < k → Waits (attempt + j) (trips (attempt + j)))
    → Replies (trips (attempt + k)) r
    → (retry_from left attempt trips waited).0 ≡ ok r
unfolding retry_from
retry_from_complete zero attempt trips waited zero r l t a =
    let here = subst (λ x. Replies (trips x) r) {x = attempt + 0} {y = attempt} (omega arith) a in
    rw (retry_from, turn-Replies true attempt (trips attempt) r here)
retry_from_complete zero attempt trips waited (suc k) r l t a = absurd (omega arith)
retry_from_complete (suc left) attempt trips waited zero r l t a =
    let here = subst (λ x. Replies (trips x) r) {x = attempt + 0} {y = attempt} (omega arith) a in
    rw (retry_from, turn-Replies false attempt (trips attempt) r here)
retry_from_complete (suc left) attempt trips waited (suc k) r l t a =
    let first =
      subst (λ x. Waits x (trips x)) {x = attempt + 0} {y = attempt} (omega arith)
        (t 0 (omega arith)) in
    let (ms, n) = turn-Waits attempt (trips attempt) first in
    rw (retry_from, n)
      (retry_from_complete left (suc attempt) trips (waited + ms) k r (omega arith)
        (λ j m.
          subst (λ x. Waits x (trips x)) {x = attempt + suc j} {y = suc attempt + j} (omega arith)
            (t (suc j) (omega arith)))
        (subst (λ x. Replies (trips x) r) {x = attempt + suc k} {y = suc attempt + k} (omega arith)
          a))

IsWhole-answered :
    (a : Response) (r : ℕ × List ℕ) → (is_answered (do_once a) ≡ some r) ↔ IsWhole a r
unfolding do_once
IsWhole-answered (no_response f) r = (λ h. absurd (ground arith), λ h. absurd h)
IsWhole-answered (response status seconds (err f)) r = elim (Bool-cases (status == 429)) [
  | inl e ↦ rw e (λ h. absurd (ground arith), λ h. absurd (ground arith))
  | inr e ↦ rw e (λ h. absurd (ground arith), λ h. absurd (ground arith))
]
IsWhole-answered (response status seconds (ok b)) (s, c) = elim (Bool-cases (status == 429)) [
  | inl e ↦ rw e (λ h. absurd (ground arith), λ h. absurd (ground arith))
  | inr e ↦ rw e (λ h. (λ n. absurd (ground arith), ground arith, ground arith), λ h. ground arith)
]

-- The error that a call to the network gives may pass.
passes :
    (attempt : ℕ) (t : Trip) (f : Failure)
    → (wait_of attempt t.ended_after (broken f) ≢ none) ↔ MayPass t f
unfolding wait_of is_retryable_download_error
passes attempt t f = elim (Bool-cases (is_retryable_download_error t.ended_after f)) [
  | inl e ↦ rw e (λ h. ground arith, λ h n. absurd (ground arith))
  | inr e ↦ rw e (λ h. absurd (h refl), λ h. absurd (ground arith))
]

err-injective : {f g : Failure} → Path (Outcome Failure (List ℕ)) (err f) (err g) → f ≡ g
err-injective h = cc

-- An error below a status other than 429.
pass :
    (t : Trip) (status : ℕ) (f : Failure)
    → (status == 429) ≡ false
    → (status ≡ 429)
      ⊎ ((status ≢ 429)
          × ((g : Failure) × (Path (Outcome Failure (List ℕ)) (err f) (err g)) × MayPass t g))
    → MayPass t f
pass t status f e (inl n) = absurd (ground arith)
pass t status f e (inr (n, (g, q, m))) = subst (MayPass t) (sym (err-injective q)) m

IsWorthRetry-waits :
    (attempt : ℕ) (t : Trip) (a : Response)
    → ((is_answered (do_once a) ≡ none) × (wait_of attempt t.ended_after (do_once a) ≢ none))
      ↔ IsWorthRetry t a
unfolding do_once wait_of
IsWorthRetry-waits attempt t (no_response f) =
    let p = passes attempt t f in (λ h. p.0 h.1, λ h. (refl, p.1 h))
IsWorthRetry-waits attempt t (response status seconds (err f)) =
    let p = passes attempt t f in
    elim (Bool-cases (status == 429)) [
      | inl e ↦ rw e (λ h. inl (ground arith), λ h. (refl, λ n. absurd (ground arith)))
      | inr e ↦ rw e (
        λ h. inr ((λ n. absurd (ground arith)), (f, refl, p.0 h.1)),
        λ h. (refl, p.1 (pass t status f e h)),
      )
    ]
IsWorthRetry-waits attempt t (response status seconds (ok b)) = elim (Bool-cases (status == 429)) [
  | inl e ↦ rw e (λ h. inl (ground arith), λ h. (refl, λ n. absurd (ground arith)))
  | inr e ↦ rw e (λ h. absurd (ground arith), λ h. absurd (ground arith))
]

Replies-Answers : (t : Trip) (r : ℕ × List ℕ) → Replies t r ↔ Answers t r
Replies-Answers t r =
    let p = IsWhole-answered t.answer r in (λ (a, b, c). (a, b, p.0 c), λ (a, b, c). (a, b, p.1 c))

Waits-IsTransient : (attempt : ℕ) (t : Trip) → Waits attempt t ↔ IsTransient t
Waits-IsTransient attempt t =
    let p = IsWorthRetry-waits attempt t t.answer in
    (
      λ (a, b, c, d, e). (a, b, p.0 (c, d), e),
      λ (a, b, c, d). let (x, y) = p.1 c in (a, b, x, y, d),
    )

-- Within four attempts, the first that is not transient gets an answer.
abbrev pub Reaches : (ℕ → Trip) → ℕ × List ℕ → Type 0
Reaches trips r =
    (k : ℕ) × (k ≤ 3) × ((j : ℕ) → j < k → IsTransient (trips j)) × Answers (trips k) r

-- A call to Telegram returns a status and a body exactly where one of its first four attempts is answered with
-- them (by any status but 429, and a whole body) and every attempt before that one was cut off: by the
-- status 429, or by an error that is no cancellation and stands for a body cut short or a failed
-- network, with the context alive all the time and no wait interrupted.
pub do_with_retry-Reaches :
    (trips : ℕ → Trip) (r : ℕ × List ℕ) → ((do_with_retry trips).0 ≡ ok r) ↔ Reaches trips r
unfolding do_with_retry
do_with_retry-Reaches trips r = (
  λ h.
      let (k, l, t, a) = retry_from_sound 3 0 trips 0 r h in
      (
        k,
        l,
        λ j m.
            (Waits-IsTransient j (trips j)).0
              (subst (λ n. Waits n (trips n)) (from_zero j) (t j m)),
        (Replies-Answers (trips k) r).0 (subst (λ n. Replies (trips n) r) (from_zero k) a),
      ),
  λ (k, l, t, a).
      retry_from_complete 3 0 trips 0 k r l
        (λ j m.
          subst (λ n. Waits n (trips n)) (sym (from_zero j))
            ((Waits-IsTransient j (trips j)).1 (t j m)))
        (subst (λ n. Replies (trips n) r) (sym (from_zero k)) ((Replies-Answers (trips k) r).1 a)),
)
  where
    from_zero : (n : ℕ) → 0 + n ≡ n
    from_zero n = omega arith
