-- ===== src/Matroska/Children.antt =====
-- The walk over the children of an element, against the children that were encoded.
use pentaract.Prelude.{
  ℕ, zero, suc, ◌<◌, ◌≡◌, refl, ap, sym, ◌∙◌, inl, inr, false, List, [], ◌∷◌, ◌++◌, ◌==◌, arith,
  length, take, drop, length-append, append_assoc,
}
use pentaract.OrderedJobs.Spec.{Outcome, ok, err, Outcome-cases}
use pentaract.Matroska.{Error, read_id, read_element_header, for_each_child, each_child}
use pentaract.Matroska.Sizes.{encode_size, unknown_size, read_size-encode_size}
use pentaract.Matroska.Progress.{read_element_header-rest}

-- A child: the bytes of its id, one less than the bytes of its size, and its payload.
pub record Child : Type 0 where
  pub id : ℕ
  pub code : List ℕ
  pub wide : ℕ
  pub payload : List ℕ

unfoldable pub encode_child : Child → List ℕ
encode_child c = c.code ++ (encode_size (suc c.wide) (length c.payload) ++ c.payload)

unfoldable pub encode_children : List Child → List ℕ
unfolding encode_child
encode_children [] = []
encode_children (c ∷ cs) = encode_child c ++ encode_children cs

-- The code is that of the id, and the size fits and is not the unknown one.
pub record IsChild (c : Child) : Type 0 where
  pub code : (rest : List ℕ) → read_id (c.code ++ rest) ≡ ok (c.id, rest)
  pub wide : c.wide < 8
  pub fits : length c.payload < unknown_size (suc c.wide)

abbrev pub AreChildren : List Child → Type 0
AreChildren [] = Unit
AreChildren (c ∷ cs) = IsChild c × AreChildren cs

-- The function on each child's payload, up to its first error.
unfoldable pub walk :
    {S : Type 0} → (ℕ → List ℕ → ℕ → S → Outcome Error S) → List Child → S → Outcome Error S
walk fn [] st = ok st
walk fn (c ∷ cs) st = elim (fn c.id c.payload (length c.payload) st) [
  | err e ↦ err e
  | ok st' ↦ walk fn cs st'
]

pub take-length-append : (s t : List ℕ) → take (length s) (s ++ t) ≡ s
take-length-append [] t = refl
take-length-append (c ∷ s) t = ap (λ u. c ∷ u) (take-length-append s t)

drop-length-append : (s t : List ℕ) → drop (length s) (s ++ t) ≡ t
drop-length-append [] t = refl
drop-length-append (c ∷ s) t = drop-length-append s t

-- A header that starts with the code of an id and the encoding of a known size.
pub read_element_header-encode :
    (id k size : ℕ) (code rest : List ℕ)
    → ((r : List ℕ) → read_id (code ++ r) ≡ ok (id, r))
    → k < 8
    → size < unknown_size (suc k)
    → read_element_header (code ++ (encode_size (suc k) size ++ rest))
      ≡ ok (record { id = id; size = size; unknown = false }, rest)
unfolding read_element_header
read_element_header-encode id k size code rest h l f =
    let known : (size == unknown_size (suc k)) ≡ false = ground arith in
    rw (
      read_element_header,
      h (encode_size (suc k) size ++ rest),
      read_size-encode_size k size rest l (omega arith),
      known,
    )

for_each_child-encode :
    {S : Type 0} (fn : ℕ → List ℕ → ℕ → S → Outcome Error S) (fuel : ℕ) (cs : List Child) (st : S)
    → AreChildren cs
    → length (encode_children cs) < fuel
    → for_each_child fn fuel (encode_children cs) st ≡ walk fn cs st
unfolding for_each_child encode_children walk read_element_header read_id
for_each_child-encode fn zero cs st h l = absurd (omega arith)
for_each_child-encode fn (suc fuel) [] st h l = refl
for_each_child-encode fn (suc fuel) (c ∷ cs) st h l =
    let rest = encode_children cs in
    let n = length c.payload in
    let shape : encode_children (c ∷ cs)
        ≡ c.code ++ (encode_size (suc c.wide) n ++ (c.payload ++ rest)) =
      append_assoc c.code (encode_size (suc c.wide) n ++ c.payload) rest
      ∙ ap (λ t. c.code ++ t) (append_assoc (encode_size (suc c.wide) n) c.payload rest) in
    let head =
      ap read_element_header shape
      ∙ read_element_header-encode c.id c.wide n c.code (c.payload ++ rest) h.0.code h.0.wide
          h.0.fits in
    let shorter : length rest < fuel = omega (
      arith,
      read_element_header-rest (encode_children (c ∷ cs))
          (record { id = c.id; size = n; unknown = false }, c.payload ++ rest) head,
      length-append c.payload rest,
      l,
    ) in
    elim (Outcome-cases (fn c.id c.payload n st)) [
      | inl (x, f) ↦ rw (for_each_child, head, take-length-append c.payload rest, f) (rw (walk, f))
      | inr (st', f) ↦
          let step : walk fn (c ∷ cs) st ≡ walk fn cs st' = rw (walk, f) in
          rw
            (
              for_each_child,
              head,
              take-length-append c.payload rest,
              f,
              drop-length-append c.payload rest,
            )
            (for_each_child-encode fn fuel cs st' h.1 shorter ∙ sym step)
    ]

-- Walking the encoding of children, each with a size in any length that holds it, hands the function exactly
-- the payload and the size of each child in order, up to its first error, and then ends.
pub each_child-encode :
    {S : Type 0} (fn : ℕ → List ℕ → ℕ → S → Outcome Error S) (cs : List Child) (st : S)
    → AreChildren cs
    → each_child fn (encode_children cs) st ≡ walk fn cs st
unfolding each_child
each_child-encode fn cs st h =
    for_each_child-encode fn (suc (length (encode_children cs))) cs st h (omega arith)
