-- ===== src/Matroska/Progress.antt =====
-- The loops end: their fuel is enough for every input.
use pentaract.Prelude.{
  ℕ, zero, suc, ◌+◌, ◌-◌, ◌≤◌, ◌<◌, ◌≡◌, ◌≢◌, refl, ap, ◌∙◌, inl, inr, Bool, true, false, ◌&&◌,
  ◌||◌, List, [], ◌∷◌, ◌==◌, ◌*◌, ◌%◌, ◌^◌, ltb, if◌then◌else◌, arith, Bool-cases, length, take,
  drop, length-drop,
}
use pentaract.OrderedJobs.Spec.{Outcome, ok, err, Outcome-cases}
use pentaract.Matroska.{
  Error, stuck, eof, unexpected_eof, invalid, panic, not_matroska, header_incomplete, is_eof,
  no_eof, vint_length, id_bytes, read_id, size_bytes, read_size, ElementHeader, read_element_header,
  for_each_child, each_child, read_full, read_uint, read_float, read_string, skip,
}

-- The loops over the bytes of an id and of a size leave no more bytes than there were.
id_bytes-rest :
    (k id : ℕ) (s : List ℕ) (r : ℕ × List ℕ) → id_bytes k id s ≡ ok r → length r.1 ≤ length s
unfolding id_bytes
id_bytes-rest zero id s r e = ground arith
id_bytes-rest (suc k) id [] r e = absurd (ground arith)
id_bytes-rest (suc k) id (b ∷ s) r e = omega (arith, id_bytes-rest k (id * 256 + b) s r e)

size_bytes-rest :
    (k v : ℕ) (o : Bool) (s : List ℕ) (r : (ℕ × Bool) × List ℕ)
    → size_bytes k v o s ≡ ok r
    → length r.1 ≤ length s
unfolding size_bytes
size_bytes-rest zero v o s r e = ground arith
size_bytes-rest (suc k) v o [] r e = absurd (ground arith)
size_bytes-rest (suc k) v o (b ∷ s) r e =
    omega (arith, size_bytes-rest k (v * 256 + b) (o && b == 255) s r e)

read_id-rest : (s : List ℕ) (r : ℕ × List ℕ) → read_id s ≡ ok r → length r.1 < length s
unfolding read_id
read_id-rest [] r e = absurd (ground arith)
read_id-rest (first ∷ s) r e =
    elim (Bool-cases (vint_length first == 0 || ltb 4 (vint_length first))) [
      | inl b ↦ absurd (ground arith)
      | inr b ↦
          omega (arith, id_bytes-rest (vint_length first - 1) first s r (rw (read_id, b) at e))
    ]

read_size-rest : (s : List ℕ) (r : (ℕ × Bool) × List ℕ) → read_size s ≡ ok r → length r.1 < length s
unfolding read_size
read_size-rest [] r e = absurd (ground arith)
read_size-rest (first ∷ s) r e = elim (Bool-cases (vint_length first == 0)) [
  | inl b ↦ absurd (ground arith)
  | inr b ↦
      let value = first % 2 ^ (8 - vint_length first) in
      omega (
        arith,
        size_bytes-rest (vint_length first - 1) value (value == 2 ^ (8 - vint_length first) - 1) s r
            (rw (read_size, b) at e),
      )
]

-- A header takes two bytes at least.
pub read_element_header-rest :
    (s : List ℕ) (r : ElementHeader × List ℕ)
    → read_element_header s ≡ ok r
    → 2 + length r.1 ≤ length s
unfolding read_element_header
read_element_header-rest s r e = elim (Outcome-cases (read_id s)) [
  | inl (x, i) ↦ absurd (ground arith)
  | inr (id, i) ↦ elim (Outcome-cases (read_size id.1)) [
    | inl (x, z) ↦ absurd (ground arith)
    | inr (size, z) ↦
        let same : r.1 ≡ size.1 = ground arith in
        omega (arith, read_id-rest s id i, read_size-rest id.1 size z, ap length same)
  ]
]

-- An outcome that is not the model's own end of fuel.
abbrev pub Ends : {A : Type 0} → Outcome Error A → Type 0
Ends r = r ≢ err stuck

-- An error that is passed on, at another type.
pub err-Ends :
    {A B : Type 0} (o : Outcome Error A) (x : Error) → o ≡ err x → Ends o → Ends {A = B} (err x)
err-Ends o x f h e = let same : x ≡ stuck = cc in h (f ∙ ap (λ y. err y) same)

id_bytes-Ends : (k id : ℕ) (s : List ℕ) → Ends (id_bytes k id s)
unfolding id_bytes
id_bytes-Ends zero id s = λ e. absurd (ground arith)
id_bytes-Ends (suc k) id [] = λ e. absurd (ground arith)
id_bytes-Ends (suc k) id (b ∷ s) = id_bytes-Ends k (id * 256 + b) s

size_bytes-Ends : (k v : ℕ) (o : Bool) (s : List ℕ) → Ends (size_bytes k v o s)
unfolding size_bytes
size_bytes-Ends zero v o s = λ e. absurd (ground arith)
size_bytes-Ends (suc k) v o [] = λ e. absurd (ground arith)
size_bytes-Ends (suc k) v o (b ∷ s) = size_bytes-Ends k (v * 256 + b) (o && b == 255) s

read_id-Ends : (s : List ℕ) → Ends (read_id s)
unfolding read_id
read_id-Ends [] = λ e. absurd (ground arith)
read_id-Ends (first ∷ s) = elim (Bool-cases (vint_length first == 0 || ltb 4 (vint_length first))) [
  | inl b ↦ rw (read_id, b) (λ e. absurd (ground arith))
  | inr b ↦ rw (read_id, b) (id_bytes-Ends (vint_length first - 1) first s)
]

read_size-Ends : (s : List ℕ) → Ends (read_size s)
unfolding read_size
read_size-Ends [] = λ e. absurd (ground arith)
read_size-Ends (first ∷ s) = elim (Bool-cases (vint_length first == 0)) [
  | inl b ↦ rw (read_size, b) (λ e. absurd (ground arith))
  | inr b ↦
      let value = first % 2 ^ (8 - vint_length first) in
      rw (read_size, b)
        (size_bytes-Ends (vint_length first - 1) value (value == 2 ^ (8 - vint_length first) - 1) s)
]

no_eof-ne-stuck : (x : Error) → x ≢ stuck → no_eof x ≢ stuck
unfolding no_eof
no_eof-ne-stuck eof h e = absurd (ground arith)
no_eof-ne-stuck unexpected_eof h e = h e
no_eof-ne-stuck invalid h e = h e
no_eof-ne-stuck not_matroska h e = h e
no_eof-ne-stuck header_incomplete h e = h e
no_eof-ne-stuck panic h e = h e
no_eof-ne-stuck stuck h e = h refl

pub read_element_header-Ends : (s : List ℕ) → Ends (read_element_header s)
unfolding read_element_header
read_element_header-Ends s = elim (Outcome-cases (read_id s)) [
  | inl (x, i) ↦ rw (read_element_header, i) (err-Ends (read_id s) x i (read_id-Ends s))
  | inr (id, i) ↦ elim (Outcome-cases (read_size id.1)) [
    | inl (x, z) ↦
        let n : x ≢ stuck = λ e. read_size-Ends id.1 (z ∙ ap (λ y. err y) e) in
        rw (read_element_header, i, z) (λ e. no_eof-ne-stuck x n (ground arith))
    | inr (size, z) ↦ rw (read_element_header, i, z) (λ e. absurd (ground arith))
  ]
]

-- A loop over children ends where its function does, on any bytes.
pub for_each_child-Ends :
    {S : Type 0} (fn : ℕ → List ℕ → ℕ → S → Outcome Error S) (fuel : ℕ) (s : List ℕ) (st : S)
    → ((id : ℕ) (d : List ℕ) (size : ℕ) (t : S) → Ends (fn id d size t))
    → length s < fuel
    → Ends (for_each_child fn fuel s st)
unfolding for_each_child
for_each_child-Ends fn zero s st h l = absurd (omega arith)
for_each_child-Ends fn (suc fuel) s st h l = elim (Outcome-cases (read_element_header s)) [
  | inl (x, i) ↦ elim (Bool-cases (is_eof x)) [
    | inl b ↦ rw (for_each_child, i, b) (λ e. absurd (ground arith))
    | inr b ↦
        rw (for_each_child, i, b)
          (err-Ends (read_element_header s) x i (read_element_header-Ends s))
  ]
  | inr (r, i) ↦ elim (Bool-cases r.0.unknown) [
    | inl u ↦ rw (for_each_child, i, u) (λ e. absurd (ground arith))
    | inr u ↦ elim (Outcome-cases (fn r.0.id (take r.0.size r.1) r.0.size st)) [
      | inl (x, f) ↦
          rw (for_each_child, i, u, f) (λ e. h r.0.id (take r.0.size r.1) r.0.size st (f ∙ e))
      | inr (t, f) ↦
          rw (for_each_child, i, u, f)
            (for_each_child-Ends fn fuel (drop r.0.size r.1) t h
              (omega (arith, read_element_header-rest s r i, length-drop {0} r.0.size r.1)))
    ]
  ]
]

pub each_child-Ends :
    {S : Type 0} (fn : ℕ → List ℕ → ℕ → S → Outcome Error S) (s : List ℕ) (st : S)
    → ((id : ℕ) (d : List ℕ) (size : ℕ) (t : S) → Ends (fn id d size t))
    → Ends (each_child fn s st)
unfolding each_child
each_child-Ends fn s st h = for_each_child-Ends fn (suc (length s)) s st h (omega arith)

pub Ends-if :
    {A : Type 0} (b : Bool) (x y : Outcome Error A) → Ends x → Ends y → Ends (if b then x else y)
Ends-if true x y p q = p
Ends-if false x y p q = q

pub read_full-Ends : (s : List ℕ) (size : ℕ) → Ends (read_full s size)
unfolding read_full
read_full-Ends s size e = ground arith

pub read_uint-Ends : (s : List ℕ) (size : ℕ) → Ends (read_uint s size)
unfolding read_uint
read_uint-Ends s size = elim (Outcome-cases (read_full s size)) [
  | inl (x, f) ↦
      Ends-if (ltb 8 size) _ _ (λ e. absurd (ground arith))
        (rw f (err-Ends (read_full s size) x f (read_full-Ends s size)))
  | inr (b, f) ↦
      Ends-if (ltb 8 size) _ _ (λ e. absurd (ground arith)) (rw f (λ e. absurd (ground arith)))
]

pub read_float-Ends : (s : List ℕ) (size : ℕ) → Ends (read_float s size)
unfolding read_float
read_float-Ends s size = elim (Outcome-cases (read_full s size)) [
  | inl (x, f) ↦ rw (read_float, f) (err-Ends (read_full s size) x f (read_full-Ends s size))
  | inr (b, f) ↦ rw (read_float, f) (λ e. absurd (ground arith))
]

pub read_string-Ends : (s : List ℕ) (size : ℕ) → Ends (read_string s size)
unfolding read_string
read_string-Ends s size = elim (Outcome-cases (read_full s size)) [
  | inl (x, f) ↦ rw (read_string, f) (err-Ends (read_full s size) x f (read_full-Ends s size))
  | inr (b, f) ↦ rw (read_string, f) (λ e. absurd (ground arith))
]

pub skip-Ends : {S : Type 0} (s : List ℕ) (size : ℕ) (st : S) → Ends (skip s size st)
unfolding skip
skip-Ends s size st =
    Ends-if (ltb (length s) size) _ _ (λ e. absurd (ground arith)) (λ e. absurd (ground arith))
