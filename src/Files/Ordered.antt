-- ===== src/Files/Ordered.antt =====
-- A query's rows: those that satisfy its test, each once, whatever the order.
use pentaract.Prelude.{
  ℕ, ◌+◌, ◌≡◌, refl, ap, ◌∙◌, ◌⊎◌, inl, inr, ◌↔◌, Bool, true, List, [], ◌∷◌, arith, Bool-cases,
}
use pentaract.Prelude.Members.{In}
use pentaract.Domain.{File}
use pentaract.Files.Listing.{insert_by, order_by, rows_where}

unfoldable pub sum_by : {A : Type 0} → (A → ℕ) → List A → ℕ
sum_by f [] = 0
sum_by f (x ∷ xs) = f x + sum_by f xs

module _ {A : Type 0} (le : A → A → Bool) where
  In-insert_by : (x : A) (ys : List A) (y : A) → In y (insert_by le x ys) ↔ ((y ≡ x) ⊎ In y ys)
  unfolding insert_by
  In-insert_by x [] y = (λ m. m, λ m. m)
  In-insert_by x (z ∷ ys) y =
      let ih = In-insert_by x ys y in
      elim (Bool-cases (le x z)) [
        | inl e ↦ rw (insert_by, e) (λ m. m, λ m. m)
        | inr e ↦
            rw (insert_by, e)
              (
                λ m. elim m [
                  | inl same ↦ inr (inl same)
                  | inr n ↦ elim (ih.0 n) [ inl new ↦ inl new | inr old ↦ inr (inr old) ]
                ],
                λ m. elim m [
                  | inl new ↦ inr (ih.1 (inl new))
                  | inr (inl same) ↦ inl same
                  | inr (inr old) ↦ inr (ih.1 (inr old))
                ],
              )
      ]

  pub In-order_by : (xs : List A) (y : A) → In y (order_by le xs) ↔ In y xs
  unfolding order_by
  In-order_by [] y = (λ m. m, λ m. m)
  In-order_by (x ∷ xs) y =
      let ih = In-order_by xs y in
      let i = In-insert_by x (order_by le xs) y in
      (
        λ m. elim (i.0 m) [ inl new ↦ inl new | inr old ↦ inr (ih.0 old) ],
        λ m. elim m [ inl new ↦ i.1 (inl new) | inr old ↦ i.1 (inr (ih.1 old)) ],
      )

  -- A sum over the rows does not depend on their order.
  sum_by-insert_by :
      (f : A → ℕ) (x : A) (ys : List A) → sum_by f (insert_by le x ys) ≡ f x + sum_by f ys
  unfolding sum_by insert_by
  sum_by-insert_by f x [] = refl
  sum_by-insert_by f x (y ∷ ys) = elim (Bool-cases (le x y)) [
    | inl e ↦ rw (insert_by, e)
    | inr e ↦ rw (insert_by, e) (omega (arith, sum_by-insert_by f x ys))
  ]

  pub sum_by-order_by : (f : A → ℕ) (xs : List A) → sum_by f (order_by le xs) ≡ sum_by f xs
  unfolding sum_by order_by
  sum_by-order_by f [] = refl
  sum_by-order_by f (x ∷ xs) =
      omega (arith, sum_by-insert_by f x (order_by le xs), sum_by-order_by f xs)

pub In-rows_where :
    (test : File → Bool) (fs : List File) (f : File)
    → In f (rows_where test fs) ↔ (In f fs × (test f ≡ true))
unfolding rows_where
In-rows_where test [] f = (λ m. absurd m, λ m. absurd m.0)
In-rows_where test (g ∷ fs) f =
    let ih = In-rows_where test fs f in
    elim (Bool-cases (test g)) [
      | inl e ↦
          rw (rows_where, e)
            (
              λ m. elim m [
                | inl same ↦ (inl same, ap test same ∙ e)
                | inr n ↦ let r = ih.0 n in (inr r.0, r.1)
              ],
              λ p. elim p.0 [ inl same ↦ inl same | inr n ↦ inr (ih.1 (n, p.1)) ],
            )
      | inr e ↦
          rw (rows_where, e)
            (
              λ m. let r = ih.0 m in (inr r.0, r.1),
              λ p. elim p.0 [
                | inl same ↦ absurd (ground (arith, ap test same, p.1))
                | inr n ↦ ih.1 (n, p.1)
              ],
            )
    ]
