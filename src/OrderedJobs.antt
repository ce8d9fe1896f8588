-- ===== src/OrderedJobs.antt =====
-- internal/service/ordered_jobs.go: the collector of `runOrderedJobs`. The workers load the jobs in
-- parallel, so a run of the collector is any sequence of the indexes in which results arrive; the
-- channels and goroutines that produce it are not modelled.
pub mod Spec
pub mod Collect
pub mod Complete
mod Examples
use pentaract.Prelude.{
  ℕ, zero, suc, Bool, Option, none, some, List, [], ◌∷◌, ◌==◌, if◌then◌else◌, get_elem?, length,
}

-- `pending`, `nextIndex` and `handleErr`, and what the handler has done so far.
pub record Collector (Job Loaded State E : Type 0) : Type 0 where
  pub pending : ℕ → Option (Job × Loaded)
  pub next_index : ℕ
  pub handle_err : Option E
  pub state : State

module _ {Job Loaded State E : Type 0} (handle : Job → Loaded → State → Option E × State) where
  -- The body of the inner loop: the job whose turn it is.
  unfoldable pub deliver :
      Job × Loaded → Collector Job Loaded State E → Collector Job Loaded State E
  deliver (j, r) c =
      let rest : Collector Job Loaded State E = record c {
        pending = λ i. if i == c.next_index then none else c.pending i;
        next_index = suc c.next_index;
      } in
      elim c.handle_err [
        | some e ↦ rest
        | none ↦ record rest { handle_err = (handle j r c.state).0; state = (handle j r c.state).1 }
      ]

  -- The inner loop; the fuel is the number of jobs.
  unfoldable pub drain : ℕ → Collector Job Loaded State E → Collector Job Loaded State E
  unfolding deliver
  drain zero c = c
  drain (suc k) c = elim (c.pending c.next_index) [ none ↦ c | some x ↦ drain k (deliver x c) ]

  -- The outer loop, over the indexes in the order of their arrival; `results` has the result of each
  -- job that loads.
  unfoldable pub collect :
      List (Job × Loaded) → List ℕ → Collector Job Loaded State E → Collector Job Loaded State E
  unfolding drain
  collect results [] c = c
  collect results (i ∷ is) c = collect results is (
      drain (length results)
        (record c { pending = λ k. if k == i then get_elem? results i else c.pending k }))

-- The end of the call: the handler's error before that of a worker before that of the caller.
unfoldable pub final_error : {E : Type 0} → Option E → Option E → Option E → Option E
final_error (some e) worker_err ctx_err = some e
final_error none (some e) ctx_err = some e
final_error none none ctx_err = ctx_err

unfoldable pub run_ordered_jobs :
    {Job Loaded State E : Type 0} (handle : Job → Loaded → State → Option E × State)
    → List (Job × Loaded)
    → List ℕ
    → Option E
    → Option E
    → State
    → Option E × State
unfolding collect final_error
run_ordered_jobs handle results arrivals worker_err ctx_err s =
    let c =
      collect handle results arrivals
        (record { pending = λ _. none; next_index = 0; handle_err = none; state = s }) in
    (final_error c.handle_err worker_err ctx_err, c.state)
