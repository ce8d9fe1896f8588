-- ===== src/OrderedJobs/Spec.antt =====
-- What `runOrderedJobs` promises its callers: the jobs one after the other, each loaded and then
-- handled, up to the first error.
use pentaract.Prelude.{◌≡◌, ◌⊎◌, inl, inr, refl, Option, none, some, List, [], ◌∷◌, arith}

-- A value or an error, as Go's `(T, error)`.
pub data Outcome (E A : Type 0) : Type 0 where
  ok : A → Outcome E A
  err : E → Outcome E A

-- Go on from a handler's new state, unless it failed.
abbrev pub proceed :
    {State E : Type 0} → Option E × State → (State → Option E × State) → Option E × State
proceed (some e, s) k = (some e, s)
proceed (none, s) k = k s

-- What a handler's state has before and keeps, it has after.
pub proceed-keeps :
    {State E : Type 0} (P : State → Type 0) (o : Option E × State) (k : State → Option E × State)
    → P o.1
    → ((s : State) → P s → P (k s).1)
    → P (proceed o k).1
proceed-keeps P (some e, s) k h f = h
proceed-keeps P (none, s) k h f = f s h

-- Where nothing fails, both parts did not.
pub proceed-ok :
    {State E : Type 0} (o : Option E × State) (k : State → Option E × State)
    → (proceed o k).0 ≡ none
    → (o.0 ≡ none) × (proceed o k ≡ k o.1)
proceed-ok (some e, s) k h = absurd (ground arith)
proceed-ok (none, s) k h = (refl, refl)

module _ {Job Loaded State E : Type 0} (load : Job → Outcome E Loaded)
    (handle : Job → Loaded → State → Option E × State) where
  -- The jobs in order, from a state of the handler.
  unfoldable pub run : List Job → State → Option E × State
  run [] s = (none, s)
  run (j ∷ js) s = elim (load j) [ err e ↦ (some e, s) | ok r ↦ proceed (handle j r s) (run js) ]

  -- One job that loads and is handled without an error, and one that fails.
  pub run-cons_ok :
      (j : Job) (js : List Job) (s s' : State) (r : Loaded)
      → load j ≡ ok r
      → handle j r s ≡ (none, s')
      → run (j ∷ js) s ≡ run js s'
  unfolding run
  run-cons_ok j js s s' r l h = rw (l, h, run)

  pub run-cons_failed :
      (j : Job) (js : List Job) (s s' : State) (r : Loaded) (e : E)
      → load j ≡ ok r
      → handle j r s ≡ (some e, s')
      → run (j ∷ js) s ≡ (some e, s')
  unfolding run
  run-cons_failed j js s s' r e l h = rw (l, h, run)

-- To split on a computed outcome and keep the equation.
pub Outcome-cases :
    {E A : Type 0} (o : Outcome E A) → ((e : E) × (o ≡ err e)) ⊎ ((a : A) × (o ≡ ok a))
Outcome-cases (err e) = inl (e, refl)
Outcome-cases (ok a) = inr (a, refl)
