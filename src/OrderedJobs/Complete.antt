-- ===== src/OrderedJobs/Complete.antt =====
-- `runOrderedJobs` is the sequential loop that it stands for.
use pentaract.Prelude.{ℕ, ◌<◌, ◌≡◌, refl, sym, ap, ◌∙◌, Option, none, List, [], ◌∷◌, length, map}
use pentaract.OrderedJobs.{run_ordered_jobs}
use pentaract.OrderedJobs.Spec.{Outcome, ok, proceed, run}
use pentaract.OrderedJobs.Collect.{Arrives, handle_all, collect_all}

module _ {Job Loaded State E : Type 0} (load : Job → Outcome E Loaded)
    (handle : Job → Loaded → State → Option E × State) where
  -- Each job loads, with the result that is paired with it.
  abbrev pub AllLoad : List (Job × Loaded) → Type 0
  AllLoad [] = Unit
  AllLoad ((j, r) ∷ rs) = (load j ≡ ok r) × AllLoad rs

  run-map :
      (rs : List (Job × Loaded)) (s : State)
      → AllLoad rs
      → run load handle (map (λ p. p.0) rs) s ≡ handle_all handle rs s
  unfolding run handle_all
  run-map [] s h = refl
  run-map ((j, r) ∷ rs) s h =
      rw (h.0, run) (ap (proceed (handle j r s)) (λ i t. run-map rs t h.1 i))

  -- Where every job loads and every result arrives, in any order, the parallel run returns the error
  -- and leaves the state of the jobs loaded and handled one after the other.
  pub run_ordered_jobs-run :
      (rs : List (Job × Loaded)) (arrivals : List ℕ) (s : State)
      → AllLoad rs
      → ((k : ℕ) → k < length rs → Arrives k arrivals)
      → run_ordered_jobs handle rs arrivals none none s ≡ run load handle (map (λ p. p.0) rs) s
  run_ordered_jobs-run rs arrivals s h all =
      collect_all handle rs s arrivals all ∙ sym (run-map rs s h)
