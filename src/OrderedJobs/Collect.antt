-- ===== src/OrderedJobs/Collect.antt =====
-- Results are handled in the order of the jobs, in whatever order they arrive.
use mathlib.Core.Path.{subst}
use pentaract.Prelude.{
  ℕ, zero, suc, ◌+◌, ◌≤◌, ◌<◌, ◌≡◌, refl, sym, ap, ◌∙◌, ◌⊎◌, inl, inr, Option, none, some, List, [],
  ◌∷◌, ◌++◌, ◌==◌, if◌then◌else◌, arith, get_elem?, length, take, Bool-cases, Option-cases,
}
use pentaract.Prelude.Slices.{take_all}
use pentaract.OrderedJobs.{Collector, deliver, drain, collect, final_error, run_ordered_jobs}
use pentaract.OrderedJobs.Spec.{proceed}

get_elem-lt :
    {A : Type 0} (i : ℕ) (xs : List A) → i < length xs → (x : A) × (get_elem? xs i ≡ some x)
get_elem-lt i [] h = absurd (omega arith)
get_elem-lt zero (x ∷ xs) h = (x, refl)
get_elem-lt (suc i) (x ∷ xs) h = get_elem-lt i xs (omega arith)

lt-get_elem : {A : Type 0} (i : ℕ) (xs : List A) (x : A) → get_elem? xs i ≡ some x → i < length xs
lt-get_elem i [] x h = ground arith
lt-get_elem zero (y ∷ xs) x h = omega arith
lt-get_elem (suc i) (y ∷ xs) x h = omega (arith, lt-get_elem i xs x h)

take-suc :
    {A : Type 0} (i : ℕ) (xs : List A) (x : A)
    → get_elem? xs i ≡ some x
    → take (suc i) xs ≡ take i xs ++ (x ∷ [])
take-suc i [] x h = absurd (ground arith)
take-suc zero (y ∷ xs) x h = ground arith
take-suc (suc i) (y ∷ xs) x h = ap (λ t. y ∷ t) (take-suc i xs x h)

proceed_assoc :
    {State E : Type 0} (o : Option E × State) (k l : State → Option E × State)
    → proceed (proceed o k) l ≡ proceed o (λ s. proceed (k s) l)
proceed_assoc (some e, s) k l = refl
proceed_assoc (none, s) k l = refl

proceed-none : {State E : Type 0} (o : Option E × State) → proceed o (λ s. (none, s)) ≡ o
proceed-none (some e, s) = refl
proceed-none (none, s) = refl

no_other : {E : Type 0} (o : Option E) → final_error o none none ≡ o
unfolding final_error
no_other none = refl
no_other (some e) = refl

-- The result with this index arrives.
abbrev pub Arrives : ℕ → List ℕ → Type 0
Arrives i [] = ⊥
Arrives i (k ∷ ks) = (i ≡ k) ⊎ Arrives i ks

module _ {Job Loaded State E : Type 0} (handle : Job → Loaded → State → Option E × State) where
  -- The loaded jobs handled in order, up to the first error.
  unfoldable pub handle_all : List (Job × Loaded) → State → Option E × State
  handle_all [] s = (none, s)
  handle_all ((j, r) ∷ rs) s = proceed (handle j r s) (handle_all rs)

  handle_all-snoc :
      (rs : List (Job × Loaded)) (j : Job) (r : Loaded) (s : State)
      → handle_all (rs ++ ((j, r) ∷ [])) s ≡ proceed (handle_all rs s) (handle j r)
  unfolding handle_all
  handle_all-snoc [] j r s = proceed-none (handle j r s)
  handle_all-snoc ((i, x) ∷ rs) j r s =
      ap (proceed (handle i x s)) (λ k t. handle_all-snoc rs j r t k)
      ∙ sym (proceed_assoc (handle i x s) (handle_all rs) (handle j r))

  module _ (rs : List (Job × Loaded)) (s0 : State) where
    -- What is handled is a prefix of the jobs, and what waits belongs to its index.
    record Ordered (c : Collector Job Loaded State E) : Type 0 where
      inside : c.next_index ≤ length rs
      handled : (c.handle_err, c.state) ≡ handle_all (take c.next_index rs) s0
      sound : (i : ℕ) (x : Job × Loaded) → c.pending i ≡ some x → get_elem? rs i ≡ some x

    IsSeen : ℕ → Collector Job Loaded State E → Type 0
    IsSeen i c = (i < c.next_index) ⊎ (c.pending i ≡ get_elem? rs i)

    deliver-handled :
        (j : Job) (r : Loaded) (c : Collector Job Loaded State E) (o : Option E)
        → c.handle_err ≡ o
        → ((deliver handle (j, r) c).handle_err, (deliver handle (j, r) c).state)
          ≡ proceed (c.handle_err, c.state) (handle j r)
    unfolding deliver
    deliver-handled j r c none e = rw (e)
    deliver-handled j r c (some x) e = rw (e)

    deliver-next :
        (x : Job × Loaded) (c : Collector Job Loaded State E) (o : Option E)
        → c.handle_err ≡ o
        → ((deliver handle x c).next_index ≡ suc c.next_index)
          × ((i : ℕ)
              → (deliver handle x c).pending i ≡ (if i == c.next_index then none else c.pending i))
    unfolding deliver
    deliver-next (j, r) c none e = (rw (e), λ i. rw (e))
    deliver-next (j, r) c (some y) e = (rw (e), λ i. rw (e))

    deliver-Ordered :
        (x : Job × Loaded) (c : Collector Job Loaded State E)
        → Ordered c
        → c.pending c.next_index ≡ some x
        → Ordered (deliver handle x c)
    deliver-Ordered (j, r) c h p =
        let n = deliver-next (j, r) c c.handle_err refl in
        let here = h.sound c.next_index (j, r) p in
        record {
          inside = omega (arith, n.0, lt-get_elem c.next_index rs (j, r) here);
          handled =
              deliver-handled j r c c.handle_err refl
              ∙ ap (λ o. proceed o (handle j r)) h.handled
              ∙ sym (handle_all-snoc (take c.next_index rs) j r s0)
              ∙ ap (λ l. handle_all l s0)
                  (sym (take-suc c.next_index rs (j, r) here) ∙ ap (λ k. take k rs) (sym n.0));
          sound = λ i x q. elim (Bool-cases (i == c.next_index)) [
            | inl e ↦ absurd (ground (arith, n.1 i))
            | inr e ↦ h.sound i x (ground (arith, n.1 i))
          ];
        }

    deliver-IsSeen :
        (x : Job × Loaded) (c : Collector Job Loaded State E) (i : ℕ)
        → IsSeen i c
        → IsSeen i (deliver handle x c)
    unfolding IsSeen
    deliver-IsSeen x c i (inl h) = inl (omega (arith, (deliver-next x c c.handle_err refl).0))
    deliver-IsSeen x c i (inr h) =
        let n = deliver-next x c c.handle_err refl in
        elim (Bool-cases (i == c.next_index)) [
          | inl e ↦ inl (ground (arith, n.0))
          | inr e ↦ inr (n.1 i ∙ ap (λ b. if b then none else c.pending i) e ∙ h)
        ]

    record Drained (c d : Collector Job Loaded State E) : Type 0 where
      ordered : Ordered d
      seen : (i : ℕ) → IsSeen i c → IsSeen i d
      empty : d.pending d.next_index ≡ none

    drain-Drained :
        (k : ℕ) (c : Collector Job Loaded State E)
        → Ordered c
        → length rs ≤ c.next_index + k
        → Drained c (drain handle k c)
    unfolding drain
    drain-Drained zero c h f = record {
      ordered = h;
      seen = λ i s. s;
      empty = elim (Option-cases (c.pending c.next_index)) [
        | inl e ↦ e
        | inr (x, e) ↦
            absurd (omega (arith, lt-get_elem c.next_index rs x (h.sound c.next_index x e)))
      ];
    }
    drain-Drained (suc k) c h f = elim (Option-cases (c.pending c.next_index)) [
      | inl e ↦ rw (drain, e) (record { ordered = h; seen = λ i s. s; empty = e })
      | inr (x, e) ↦
          let r =
            drain-Drained k (deliver handle x c) (deliver-Ordered x c h e)
              (omega (arith, (deliver-next x c c.handle_err refl).0)) in
          rw (drain, e)
            (record {
              ordered = r.ordered;
              seen = λ i s. r.seen i (deliver-IsSeen x c i s);
              empty = r.empty;
            })
    ]

    arrived : ℕ → Collector Job Loaded State E → Collector Job Loaded State E
    arrived i c = record c { pending = λ k. if k == i then get_elem? rs i else c.pending k }

    arrived-Ordered : (i : ℕ) (c : Collector Job Loaded State E) → Ordered c → Ordered (arrived i c)
    unfolding arrived
    arrived-Ordered i c h = record {
      inside = h.inside;
      handled = h.handled;
      sound = λ k x p. elim (Bool-cases (k == i)) [
        | inl e ↦ ap (get_elem? rs) {y = i} (ground arith) ∙ ground arith
        | inr e ↦ h.sound k x (ground arith)
      ];
    }

    arrived-IsSeen :
        (i k : ℕ) (c : Collector Job Loaded State E)
        → ((k ≡ i) ⊎ IsSeen k c)
        → IsSeen k (arrived i c)
    unfolding arrived IsSeen
    arrived-IsSeen i k c (inl e) = inr (
        subst (λ m. (if m == i then get_elem? rs i else c.pending m) ≡ get_elem? rs m) (sym e)
          (ground arith))
    arrived-IsSeen i k c (inr (inl h)) = inl h
    arrived-IsSeen i k c (inr (inr h)) = inr (elim (Bool-cases (k == i)) [
      | inl e ↦
          ap (λ b. if b then get_elem? rs i else c.pending k) e
          ∙ ap (get_elem? rs) {x = i} {y = k} (ground arith)
      | inr e ↦ ap (λ b. if b then get_elem? rs i else c.pending k) e ∙ h
    ])

    collect-Drained :
        (is : List ℕ) (c : Collector Job Loaded State E)
        → Ordered c
        → c.pending c.next_index ≡ none
        → Drained c (collect handle rs is c)
          × ((k : ℕ) → Arrives k is → IsSeen k (collect handle rs is c))
    unfolding collect arrived
    collect-Drained [] c h e = (record { ordered = h; seen = λ i s. s; empty = e }, λ k a. absurd a)
    collect-Drained (i ∷ is) c h e =
        let d = drain-Drained (length rs) (arrived i c) (arrived-Ordered i c h) (omega arith) in
        let r = collect-Drained is (drain handle (length rs) (arrived i c)) d.ordered d.empty in
        (
          record {
            ordered = r.0.ordered;
            seen = λ k s. r.0.seen k (d.seen k (arrived-IsSeen i k c (inr s)));
            empty = r.0.empty;
          },
          λ k a. elim a [
            | inl here ↦ r.0.seen k (d.seen k (arrived-IsSeen i k c (inl here)))
            | inr later ↦ r.1 k later
          ],
        )

    abbrev initial : Collector Job Loaded State E
    initial = record { pending = λ _. none; next_index = 0; handle_err = none; state = s0 }

    initial-Ordered : Ordered initial
    unfolding handle_all
    initial-Ordered = record {
      inside = omega arith;
      handled = refl;
      sound = λ i x p. absurd (ground arith);
    }

    collected :
        (is : List ℕ)
        → Drained initial (collect handle rs is initial)
          × ((k : ℕ) → Arrives k is → IsSeen k (collect handle rs is initial))
    collected is = collect-Drained is initial initial-Ordered refl

    -- Whatever results arrive, in any order and with any left out, the handler has seen the jobs of some
    -- prefix, in the order of the jobs and up to the first error that it returned.
    pub collect-prefix :
        (is : List ℕ) (worker_err ctx_err : Option E)
        → (n : ℕ) × (n ≤ length rs)
          × ((run_ordered_jobs handle rs is worker_err ctx_err s0).1
              ≡ (handle_all (take n rs) s0).1)
    unfolding run_ordered_jobs
    collect-prefix is worker_err ctx_err =
        let o = (collected is).0.ordered in
        let c = collect handle rs is initial in (c.next_index, o.inside, ap (λ p. p.1) o.handled)

    all_handled :
        (is : List ℕ)
        → ((k : ℕ) → k < length rs → Arrives k is)
        → (collect handle rs is initial).next_index ≡ length rs
    unfolding IsSeen
    all_handled is all =
        let h = collected is in
        let c = collect handle rs is initial in
        elim (Bool-cases (c.next_index == length rs)) [
          | inl e ↦ ground arith
          | inr e ↦
              let lt : c.next_index < length rs = ground (arith, h.0.ordered.inside) in
              elim (h.1 c.next_index (all c.next_index lt)) [
                | inl before ↦ absurd (omega arith)
                | inr here ↦
                    let (x, f) = get_elem-lt c.next_index rs lt in
                    absurd (ground (arith, h.0.empty))
              ]
        ]

    -- Where every result arrives, all are handled.
    pub collect_all :
        (is : List ℕ)
        → ((k : ℕ) → k < length rs → Arrives k is)
        → run_ordered_jobs handle rs is none none s0 ≡ handle_all rs s0
    unfolding run_ordered_jobs
    collect_all is all =
        let c = collect handle rs is initial in
        ap (λ e. (e, c.state)) (no_other c.handle_err)
        ∙ (collected is).0.ordered.handled
        ∙ ap (λ k. handle_all (take k rs) s0) (all_handled is all)
        ∙ ap (λ l. handle_all l s0) (take_all (length rs) rs (omega arith))
