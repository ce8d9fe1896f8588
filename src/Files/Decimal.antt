-- ===== src/Files/Decimal.antt =====
-- Numbers as text are read back, so the candidates of a name differ.
use pentaract.Prelude.{
  ℕ, zero, suc, ◌+◌, ◌-◌, ◌*◌, ◌/◌, ◌%◌, ◌<◌, ◌≡◌, ◌≢◌, refl, ap, sym, ◌∙◌, Bool, true, false, ◌&&◌,
  ◌||◌, none, some, List, [], ◌∷◌, ◌++◌, if◌then◌else◌, ltb, arith, inl, inr, Bool-cases,
  append_assoc, bytes, bytes_eq, bytes_eq_refl,
}
use pentaract.Files.Like.{strip, strip-append}
use pentaract.Files.Naming.{
  decimal_from, decimal, is_digit, closes, is_numbered, has_form, candidate,
}

all_digits : List ℕ → Bool
all_digits [] = true
all_digits (c ∷ s) = is_digit c && all_digits s

all_digits-append :
    (s t : List ℕ) → all_digits s ≡ true → all_digits t ≡ true → all_digits (s ++ t) ≡ true
unfolding all_digits
all_digits-append [] t h k = k
all_digits-append (c ∷ s) t h k = ground (arith, all_digits-append s t)

decimal-all_digits : (fuel n : ℕ) → all_digits (decimal_from fuel n) ≡ true
unfolding all_digits decimal_from is_digit
decimal-all_digits zero n = refl
decimal-all_digits (suc fuel) n = elim (Bool-cases (ltb n 10)) [
  | inl e ↦ rw (decimal_from, e) (ground arith)
  | inr e ↦
      rw (decimal_from, e)
        (all_digits-append (decimal_from fuel (n / 10)) ((b'0' + n % 10) ∷ [])
          (decimal-all_digits fuel (n / 10)) (ground arith))
]

-- The number that a text of digits stands for.
value : ℕ → List ℕ → ℕ
value acc [] = acc
value acc (c ∷ s) = value (10 * acc + (c - b'0')) s

value-append : (acc : ℕ) (s t : List ℕ) → value acc (s ++ t) ≡ value (value acc s) t
unfolding value
value-append acc [] t = refl
value-append acc (c ∷ s) t = value-append (10 * acc + (c - b'0')) s t

value-decimal : (fuel n : ℕ) → n < fuel → value 0 (decimal_from fuel n) ≡ n
unfolding value decimal_from
value-decimal zero n h = absurd (omega arith)
value-decimal (suc fuel) n h = elim (Bool-cases (ltb n 10)) [
  | inl e ↦ rw (decimal_from, e) (ground arith)
  | inr e ↦
      rw (decimal_from, e)
        (value-append 0 (decimal_from fuel (n / 10)) ((b'0' + n % 10) ∷ [])
          ∙ ground (arith, value-decimal fuel (n / 10) (ground arith)))
]

-- The digits at the front.
digits_of : List ℕ → List ℕ
digits_of [] = []
digits_of (c ∷ s) = if is_digit c then c ∷ digits_of s else []

digits_of-append : (s t : List ℕ) → all_digits s ≡ true → digits_of (s ++ b')' ∷ t) ≡ s
unfolding digits_of all_digits is_digit
digits_of-append [] t h = refl
digits_of-append (c ∷ s) t h = ground (arith, digits_of-append s t)

number_of : List ℕ → List ℕ → ℕ
number_of base path = elim (strip (base ++ bytes " (") path) [
  | none ↦ 0
  | some rest ↦ value 0 (digits_of rest)
]

number_of-candidate : (base ext : List ℕ) (n : ℕ) → number_of base (candidate base ext n) ≡ n
unfolding number_of candidate decimal
number_of-candidate base ext n =
    let e : strip (base ++ bytes " (") (candidate base ext n) ≡ some (decimal n ++ b')' ∷ ext) =
      ap (strip (base ++ bytes " ("))
        (sym (append_assoc base (bytes " (") (decimal n ++ b')' ∷ ext)))
      ∙ strip-append (base ++ bytes " (") (decimal n ++ b')' ∷ ext) in
    rw (number_of, e)
      (ap (value 0) (digits_of-append (decimal n) ext (decimal-all_digits (suc n) n))
        ∙ value-decimal (suc n) n (omega arith))

pub candidate-ne :
    (base ext : List ℕ) (m n : ℕ) → m ≢ n → candidate base ext m ≢ candidate base ext n
candidate-ne base ext m n h e =
    h (
      sym (number_of-candidate base ext m) ∙ ap (number_of base) e ∙ number_of-candidate base ext n)

decimal-ne-nil : (fuel n : ℕ) → decimal_from (suc fuel) n ≢ []
unfolding decimal_from
decimal-ne-nil fuel n e = elim (Bool-cases (ltb n 10)) [
  | inl x ↦ ground arith
  | inr x ↦
      let f = rw (decimal_from, x) at e in not_nil (decimal_from fuel (n / 10)) (b'0' + n % 10) f
]
  where
    not_nil : (s : List ℕ) (c : ℕ) → s ++ c ∷ [] ≢ []
    not_nil [] c p = cc
    not_nil (d ∷ s) c p = cc

closes_seen : (s ext : List ℕ) → all_digits s ≡ true → closes true (s ++ b')' ∷ ext) ext ≡ true
unfolding closes all_digits is_digit
closes_seen [] ext h = ground (arith, bytes_eq_refl ext)
closes_seen (c ∷ s) ext h = ground (arith, closes_seen s ext)

closes_start :
    (s ext : List ℕ) → s ≢ [] → all_digits s ≡ true → closes false (s ++ b')' ∷ ext) ext ≡ true
unfolding closes all_digits
closes_start [] ext n h = absurd (n refl)
closes_start (c ∷ s) ext n h = ground (arith, closes_seen s ext)

is_numbered-digits :
    (s ext : List ℕ)
    → s ≢ []
    → all_digits s ≡ true
    → is_numbered (bytes " (" ++ (s ++ b')' ∷ ext)) ext ≡ true
unfolding is_numbered strip
is_numbered-digits s ext n h = closes_start s ext n h

-- A candidate has the form that the statement looks for, and so has the name without a number.
pub has_form-candidate :
    (base ext : List ℕ) (n : ℕ) → has_form base ext (candidate base ext n) ≡ true
unfolding has_form candidate decimal
has_form-candidate base ext n =
    let rest = bytes " (" ++ (decimal n ++ b')' ∷ ext) in
    let a = strip-append base rest in
    let c =
      is_numbered-digits (decimal n) ext (decimal-ne-nil n n) (decimal-all_digits (suc n) n) in
    rw (has_form, a, c) (or_true (bytes_eq rest ext))
  where
    or_true : (b : Bool) → (b || true) ≡ true
    or_true true = refl
    or_true false = refl

pub has_form-base : (base ext : List ℕ) → has_form base ext (base ++ ext) ≡ true
unfolding has_form
has_form-base base ext = rw (has_form, strip-append base ext, bytes_eq_refl ext)
