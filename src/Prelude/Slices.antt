-- ===== src/Prelude/Slices.antt =====
-- Parts of lists: prefixes, suffixes and slices, and how they meet `++`.
use Prim.Native.Nat.{ℕ, zero, suc, ◌+◌, ◌-◌, ◌≤◌, min}
use mathlib.Core.Path.{◌≡◌, refl, sym, ap, ◌∙◌}
use mathlib.Core.List.{List, [], ◌∷◌, ◌++◌, append-nil}
use native.Mathlib.Nat.{
  zero-add, suc-add, sub-zero, zero-sub, suc-sub-suc, zero-min, min-zero, suc-min-suc,
}
use native.Mathlib.Omega.{arith}
use pentaract.Prelude.Lists.{length, take, drop, length-take, length-drop}

module _ {ℓ} {A : Type ℓ} where
  pub take-add : (n m : ℕ) (xs : List A) → take n xs ++ take m (drop n xs) ≡ take (n + m) xs
  take-add zero m xs = rw zero-add
  take-add (suc n) zero [] = rw suc-add
  take-add (suc n) (suc m) [] = rw suc-add
  take-add (suc n) m (x ∷ xs) = rw suc-add (ap (λ t. x ∷ t) (take-add n m xs))

  pub take_all : (n : ℕ) (xs : List A) → length xs ≤ n → take n xs ≡ xs
  take_all zero [] h = refl
  take_all zero (x ∷ xs) h = absurd (omega arith)
  take_all (suc n) [] h = refl
  take_all (suc n) (x ∷ xs) h = ap (λ t. x ∷ t) (take_all n xs (omega arith))

  pub drop_all : (n : ℕ) (xs : List A) → length xs ≤ n → drop n xs ≡ []
  drop_all zero [] h = refl
  drop_all zero (x ∷ xs) h = absurd (omega arith)
  drop_all (suc n) [] h = refl
  drop_all (suc n) (x ∷ xs) h = drop_all n xs (omega arith)

module _ {ℓ} {A : Type ℓ} where
  -- The elements from index `s` on and before index `t`.
  unfoldable pub between : ℕ → ℕ → List A → List A
  between s t xs = drop s (take t xs)

  pub take-append :
      (n : ℕ) (xs ys : List A) → take n (xs ++ ys) ≡ take n xs ++ take (n - length xs) ys
  take-append zero [] ys = refl
  take-append zero (x ∷ xs) ys = rw zero-sub
  take-append (suc n) [] ys = rw sub-zero
  take-append (suc n) (x ∷ xs) ys = rw suc-sub-suc (ap (λ t. x ∷ t) (take-append n xs ys))

  drop-append : (n : ℕ) (xs ys : List A) → drop n (xs ++ ys) ≡ drop n xs ++ drop (n - length xs) ys
  drop-append zero [] ys = refl
  drop-append zero (x ∷ xs) ys = rw zero-sub
  drop-append (suc n) [] ys = rw sub-zero
  drop-append (suc n) (x ∷ xs) ys = rw suc-sub-suc (drop-append n xs ys)

  -- A slice of a concatenation, in two parts.
  pub between-append :
      (s t : ℕ) (xs ys : List A)
      → between s t (xs ++ ys) ≡ between s t xs ++ between (s - length xs) (t - length xs) ys
  unfolding between
  between-append s t xs ys =
      ap (drop s) (take-append t xs ys)
      ∙ drop-append s (take t xs) (take (t - length xs) ys)
      ∙ ap (λ z. drop s (take t xs) ++ z) (shift (t - length xs) refl)
    where
      shift :
          (k : ℕ)
          → t - length xs ≡ k
          → drop (s - length (take t xs)) (take k ys) ≡ drop (s - length xs) (take k ys)
      shift zero e = nothing (s - length (take t xs)) ∙ sym (nothing (s - length xs))
        where
          nothing : (n : ℕ) → drop {A = A} n [] ≡ []
          nothing zero = refl
          nothing (suc n) = refl
      shift (suc k) e = ap (λ n. drop n (take (suc k) ys)) (omega (arith, length-take t xs))

  -- A slice that starts behind `xs`, and one that ends within `xs`.
  pub between_skip :
      (s t : ℕ) (xs ys : List A)
      → length xs ≤ s
      → between s t (xs ++ ys) ≡ between (s - length xs) (t - length xs) ys
  unfolding between
  between_skip s t xs ys h =
      between-append s t xs ys
      ∙ ap (λ z. z ++ between (s - length xs) (t - length xs) ys)
          (drop_all s (take t xs) (omega (arith, length-take t xs)))

  pub between_front :
      (s t : ℕ) (xs ys : List A) → t ≤ length xs → between s t (xs ++ ys) ≡ between s t xs
  unfolding between
  between_front s t xs ys h = ap (drop s) (
      take-append t xs ys
      ∙ ap (λ n. take t xs ++ take n ys) {y = 0} (omega arith)
      ∙ append-nil (take t xs))

  pub length-between : (s t : ℕ) (xs : List A) → length (between s t xs) ≡ min t (length xs) - s
  unfolding between
  length-between s t xs = length-drop s (take t xs) ∙ ap (λ n. n - s) (length-take t xs)

  pub take-min : (t : ℕ) (xs : List A) → take (min t (length xs)) xs ≡ take t xs
  take-min zero [] = refl
  take-min zero (x ∷ xs) = rw zero-min
  take-min (suc t) [] = rw min-zero
  take-min (suc t) (x ∷ xs) = rw suc-min-suc (ap (λ l. x ∷ l) (take-min t xs))

  pub between_empty : (s t : ℕ) (xs : List A) → min t (length xs) ≤ s → between s t xs ≡ []
  unfolding between
  between_empty s t xs h = drop_all s (take t xs) (omega (arith, length-take t xs))

  -- From the first index of the list to its end.
  pub between_whole : (t : ℕ) (xs : List A) → length xs ≤ t → between 0 t xs ≡ xs
  unfolding between
  between_whole t xs h = take_all t xs h
