-- ===== src/Workers/Count.antt =====
-- How often a worker stands in the lists of a batch.
use pentaract.Prelude.{
  ℕ, zero, suc, ◌+◌, ◌-◌, ◌*◌, ◌≤◌, ◌≡◌, refl, ap, ◌&&◌, List, [], ◌∷◌, ◌++◌, ◌==◌, if◌then◌else◌,
  leb, ltb, take, arith, inl, inr, Bool-cases,
}
use pentaract.Workers.{
  Worker, Usage, Tables, used, before, insert_worker, available_workers, slots, expanded,
  record_usages, choose, usage_window, serves,
}

unfoldable pub occurrences : ℕ → List Worker → ℕ
occurrences id [] = 0
occurrences id (w ∷ ws) = if w.id == id then suc (occurrences id ws) else occurrences id ws

occurrences-append :
    (id : ℕ) (xs ys : List Worker)
    → occurrences id (xs ++ ys) ≡ occurrences id xs + occurrences id ys
unfolding occurrences
occurrences-append id [] ys = omega arith
occurrences-append id (x ∷ xs) ys = ground (arith, occurrences-append id xs ys)

occurrences-take : (id n : ℕ) (xs : List Worker) → occurrences id (take n xs) ≤ occurrences id xs
unfolding occurrences
occurrences-take id zero xs = omega arith
occurrences-take id (suc n) [] = omega arith
occurrences-take id (suc n) (x ∷ xs) = ground (arith, occurrences-take id n xs)

occurrences-slots :
    (id n : ℕ) (w : Worker) → occurrences id (slots n w) ≡ (if w.id == id then n else 0)
unfolding occurrences slots
occurrences-slots id zero w = ground arith
occurrences-slots id (suc n) w = ground (arith, occurrences-slots id n w)

occurrences-insert_worker :
    (id since : ℕ) (us : List Usage) (w : Worker) (ws : List Worker)
    → occurrences id (insert_worker since us w ws) ≡ occurrences id (w ∷ ws)
unfolding occurrences insert_worker
occurrences-insert_worker id since us w [] = refl
occurrences-insert_worker id since us w (x ∷ xs) = elim (Bool-cases (before since us w x)) [
  | inl e ↦ rw (insert_worker, e)
  | inr e ↦ rw (insert_worker, e) (ground (arith, occurrences-insert_worker id since us w xs))
]

-- A worker at its limit is not available, another stands among the available ones no more often than
-- in the table.
occurrences-available_workers :
    (id storage rate since : ℕ) (us : List Usage) (ws : List Worker)
    → occurrences id (available_workers storage rate since us ws)
      ≤ (if ltb (used id since us) rate then occurrences id ws else 0)
unfolding occurrences available_workers
occurrences-available_workers id storage rate since us [] = ground arith
occurrences-available_workers id storage rate since us (w ∷ ws) =
    elim (Bool-cases (serves storage w && ltb (used w.id since us) rate)) [
      | inr e ↦
          rw (available_workers, e)
            (ground (arith, occurrences-available_workers id storage rate since us ws))
      | inl e ↦
          let ih = occurrences-available_workers id storage rate since us ws in
          let rest = available_workers storage rate since us ws in
          rw (available_workers, e, occurrences-insert_worker id since us w rest)
            (elim (Bool-cases (w.id == id)) [
              | inr other ↦ ground (arith, ih)
              | inl same ↦
                  let eq : used w.id since us ≡ used id since us =
                    ap (λ k. used k since us) {x = w.id} {y = id} (ground arith) in
                  ground (arith, ih, eq)
            ])
    ]

occurrences-expanded :
    (id rate since : ℕ) (us : List Usage) (ws : List Worker)
    → occurrences id ws ≤ 1
    → occurrences id (expanded rate since us ws) ≤ occurrences id ws * (rate - used id since us)
unfolding occurrences expanded
occurrences-expanded id rate since us [] h = omega arith
occurrences-expanded id rate since us (w ∷ ws) h =
    let here = occurrences-slots id (rate - used w.id since us) w in
    let split =
      occurrences-append id (slots (rate - used w.id since us) w) (expanded rate since us ws) in
    elim (Bool-cases (w.id == id)) [
      | inr other ↦ ground (arith, here, split, occurrences-expanded id rate since us ws)
      | inl same ↦
          let eq : used w.id since us ≡ used id since us =
            ap (λ k. used k since us) {x = w.id} {y = id} (ground arith) in
          let none_left : occurrences id ws ≡ 0 = ground arith in
          let ih = occurrences-expanded id rate since us ws (omega arith) in
          ground (
            arith,
            here,
            split,
            eq,
            none_left,
            ap (λ n. n * (rate - used id since us)) none_left,
            ih,
          )
    ]

-- The tokens of a batch: for a worker at its limit none, for another no more than it has free slots.
pub occurrences-choose :
    (id storage rate count now : ℕ) (t : Tables)
    → occurrences id t.workers ≤ 1
    → let u = used id (now - usage_window) t.usages in
      occurrences id (choose storage rate count now t) ≤ rate - u
unfolding choose
occurrences-choose id storage rate count now t h =
    let since = now - usage_window in
    let available = available_workers storage rate since t.usages t.workers in
    let a = occurrences-available_workers id storage rate since t.usages t.workers in
    let single : occurrences id available ≤ 1 = ground (arith, a) in
    let e = occurrences-expanded id rate since t.usages available single in
    let c = occurrences-take id count (expanded rate since t.usages available) in
    elim (Bool-cases (occurrences id available == 0)) [
      | inl z ↦ grind (arith, e, c)
      | inr z ↦
          let one : occurrences id available ≡ 1 = ground (arith, single) in
          omega (arith, e, c, ap (λ n. n * (rate - used id since t.usages)) one)
    ]

pub used-record_usages :
    (id since now : ℕ) (ws : List Worker) (us : List Usage)
    → used id since (record_usages now ws us)
      ≡ (if leb since now then occurrences id ws else 0) + used id since us
unfolding used record_usages occurrences
used-record_usages id since now [] us = ground arith
used-record_usages id since now (w ∷ ws) us = ground (arith, used-record_usages id since now ws us)
