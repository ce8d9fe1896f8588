-- ===== src/OrderedJobs/Examples.antt =====
-- Three jobs whose results arrive last to first; the handler writes them in a row and fails at 9.
use pentaract.Prelude.{
  ℕ, zero, suc, ◌+◌, ◌≤◌, ◌<◌, ◌≡◌, refl, Option, none, some, List, [], ◌∷◌, ◌++◌, ◌==◌,
  if◌then◌else◌, arith, inl, inr, map, take,
}
use pentaract.OrderedJobs.{run_ordered_jobs}
use pentaract.OrderedJobs.Spec.{Outcome, ok, run}
use pentaract.OrderedJobs.Collect.{Arrives, handle_all, collect-prefix}
use pentaract.OrderedJobs.Complete.{run_ordered_jobs-run}

abbrev double : ℕ → Outcome ℕ ℕ
double j = ok (j + j)

abbrev append : ℕ → ℕ → List ℕ → Option ℕ × List ℕ
append j r s = if r == 9 then (some j, s) else (none, s ++ (r ∷ []))

abbrev loaded : List (ℕ × ℕ)
loaded = (1, 2) ∷ (2, 4) ∷ (3, 6) ∷ []

abbrev backwards : List ℕ
backwards = 2 ∷ 1 ∷ 0 ∷ []

in_order : run_ordered_jobs append loaded backwards none none [] ≡ (none, 2 ∷ 4 ∷ 6 ∷ [])
unfolding run_ordered_jobs
in_order = refl

every_one : (k : ℕ) → k < 3 → Arrives k backwards
every_one zero h = inr (inr (inl refl))
every_one (suc zero) h = inr (inl refl)
every_one (suc (suc zero)) h = inl refl
every_one (suc (suc (suc k))) h = absurd (omega arith)

run_ordered_jobs-run_example :
    run_ordered_jobs append loaded backwards none none []
    ≡ run double append (map (λ p. p.0) loaded) []
run_ordered_jobs-run_example =
    run_ordered_jobs-run double append loaded backwards [] (refl, (refl, (refl, tt))) every_one

collect-prefix_run :
    (n : ℕ) × (n ≤ 3)
    × ((run_ordered_jobs append loaded (1 ∷ 0 ∷ []) (some 5) none []).1
        ≡ (handle_all append (take n loaded) []).1)
collect-prefix_run = collect-prefix append loaded [] (1 ∷ 0 ∷ []) (some 5) none
