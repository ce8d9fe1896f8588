-- ===== src/HttpRange/Bounds.antt =====
-- Every range that is accepted for a file with bytes lies inside the file.
use pentaract.Prelude.{
  ℕ, zero, suc, ◌≤◌, ◌<◌, Bool-cases, inl, inr, Option, none, some, List, [], ◌∷◌, arith, ltb, leb,
  bytes, drop,
}
use pentaract.Prelude.Int.{ℤ, pos, negsuc}
use pentaract.HttpRange.{
  Parsed, bad, range, suffix_range, closed_range, start_range, cut_range, range_spec,
  parse_single_byte_range, parse_int, has_byte, cut, has_prefix, trim_space,
}

-- The two ends of an accepted range: numbers, in order, inside the file.
abbrev pub IsInside : ℕ → Parsed → Type 0
IsInside size (bad e) = Unit
IsInside size (range (pos start) (pos end)) = (start ≤ end) × (end < size)
IsInside size (range _ _) = ⊥

suffix_range-IsInside : (o : Option ℤ) (n : ℕ) → IsInside (suc n) (suffix_range o (suc n))
unfolding suffix_range
suffix_range-IsInside (some (pos (suc m))) n = omega arith
suffix_range-IsInside (some (pos zero)) n = tt
suffix_range-IsInside (some (negsuc m)) n = tt
suffix_range-IsInside none n = tt

closed_range-IsInside :
    (start : ℕ) (o : Option ℤ) (n : ℕ)
    → start < suc n
    → IsInside (suc n) (closed_range start o (suc n))
unfolding closed_range
closed_range-IsInside start (some (pos end)) n h = elim (Bool-cases (ltb end start)) [
  | inl low ↦ rw low tt
  | inr up ↦ rw up (ground arith)
]
closed_range-IsInside start (some (negsuc m)) n h = tt
closed_range-IsInside start none n h = tt

start_range-IsInside :
    (o : Option ℤ) (last : List ℕ) (n : ℕ) → IsInside (suc n) (start_range o last (suc n))
unfolding start_range
start_range-IsInside (some (pos start)) [] n = elim (Bool-cases (leb (suc n) start)) [
  | inl out ↦ rw out tt
  | inr in_file ↦ rw in_file (ground arith)
]
start_range-IsInside (some (pos start)) (c ∷ last) n = elim (Bool-cases (leb (suc n) start)) [
  | inl out ↦ rw out tt
  | inr in_file ↦ rw in_file (closed_range-IsInside start (parse_int (c ∷ last)) n (ground arith))
]
start_range-IsInside (some (negsuc m)) last n = tt
start_range-IsInside none last n = tt

cut_range-IsInside : (o : Option (List ℕ × List ℕ)) (n : ℕ) → IsInside (suc n) (cut_range o (suc n))
unfolding cut_range
cut_range-IsInside none n = tt
cut_range-IsInside (some ([], last)) n = suffix_range-IsInside (parse_int last) n
cut_range-IsInside (some (c ∷ first, last)) n = start_range-IsInside (parse_int (c ∷ first)) last n

range_spec-IsInside : (s : List ℕ) (n : ℕ) → IsInside (suc n) (range_spec s (suc n))
unfolding range_spec
range_spec-IsInside [] n = tt
range_spec-IsInside (c ∷ s) n = elim (Bool-cases (has_byte b',' (c ∷ s))) [
  | inl many ↦ rw many tt
  | inr single ↦ rw single (cut_range-IsInside (cut b'-' (c ∷ s)) n)
]

-- Whatever the header, an accepted range of a file with at least one byte has 0 ≤ start ≤ end < size.
pub parse_single_byte_range-IsInside :
    (header : List ℕ) (size : ℕ) → 0 < size → IsInside size (parse_single_byte_range header size)
unfolding parse_single_byte_range
parse_single_byte_range-IsInside header zero h = absurd (omega arith)
parse_single_byte_range-IsInside header (suc n) h =
    elim (Bool-cases (has_prefix (bytes "bytes=") header)) [
      | inl unit ↦
          rw (unit, parse_single_byte_range) (range_spec-IsInside (trim_space (drop 6 header)) n)
      | inr other ↦ rw (other, parse_single_byte_range) tt
    ]
