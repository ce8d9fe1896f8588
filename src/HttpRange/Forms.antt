-- ===== src/HttpRange/Forms.antt =====
-- The three forms of a Range header that the code reads.
use pentaract.Prelude.{
  ℕ, zero, suc, ◌+◌, ◌-◌, ◌*◌, ◌≤◌, ◌<◌, ◌≡◌, refl, ap, ◌∙◌, Bool, true, false, ◌&&◌, ◌||◌, some,
  List, [], ◌∷◌, ◌++◌, ◌==◌, ltb, leb, arith, min, bytes,
}
use pentaract.Prelude.Int.{pos}
use pentaract.HttpRange.{
  range, suffix_range, closed_range, start_range, cut_range, range_spec, parse_single_byte_range,
  is_digit, is_space, has_prefix, trim_space, trim_space_left, trim_space_right, has_byte, cut,
  digits_from, parse_digits, parse_int, signed, int64_limit, last_of,
}

-- Digits and the dash: what a range of one of the three forms consists of.
all_digits : List ℕ → Bool
all_digits [] = true
all_digits (c ∷ s) = is_digit c && all_digits s

is_plain : List ℕ → Bool
is_plain [] = true
is_plain (c ∷ s) = (is_digit c || c == b'-') && is_plain s

digits_from-all : (n m : ℕ) (s : List ℕ) → digits_from n s ≡ some m → all_digits s ≡ true
unfolding digits_from all_digits
digits_from-all n m [] h = refl
digits_from-all n m (c ∷ s) h = ground (arith, digits_from-all (n * 10 + (c - 48)) m s)

parse_digits-all : (m : ℕ) (s : List ℕ) → parse_digits s ≡ some m → all_digits s ≡ true
unfolding parse_digits all_digits
parse_digits-all m [] h = refl
parse_digits-all m (c ∷ s) h = digits_from-all 0 m (c ∷ s) h

plain_of_digits :
    (s t : List ℕ) → all_digits s ≡ true → is_plain t ≡ true → is_plain (s ++ t) ≡ true
unfolding all_digits is_plain
plain_of_digits [] t h p = p
plain_of_digits (c ∷ s) t h p = ground (arith, plain_of_digits s t)

plain_self : (s : List ℕ) → all_digits s ≡ true → is_plain s ≡ true
unfolding all_digits is_plain
plain_self [] h = refl
plain_self (c ∷ s) h = ground (arith, plain_self s)

trim_right_plain : (s : List ℕ) → is_plain s ≡ true → trim_space_right s ≡ s
unfolding trim_space_right is_plain is_space is_digit
trim_right_plain [] h = refl
trim_right_plain (c ∷ s) h = ground (arith, trim_right_plain s)

trim_left_plain : (s : List ℕ) → is_plain s ≡ true → trim_space_left s ≡ s
unfolding trim_space_left is_plain is_space is_digit
trim_left_plain [] h = refl
trim_left_plain (c ∷ s) h = ground arith

trim_plain : (s : List ℕ) → is_plain s ≡ true → trim_space s ≡ s
unfolding trim_space
trim_plain s h = rw (trim_left_plain s h) (trim_right_plain s h)

no_comma : (s : List ℕ) → is_plain s ≡ true → has_byte b',' s ≡ false
unfolding has_byte is_plain is_digit
no_comma [] h = refl
no_comma (c ∷ s) h = ground (arith, no_comma s)

cut_digits : (s t : List ℕ) → all_digits s ≡ true → cut b'-' (s ++ b'-' ∷ t) ≡ some (s, t)
unfolding cut all_digits is_digit
cut_digits [] t h = refl
cut_digits (c ∷ s) t h = ground (arith, cut_digits s t)

parse_int_of_digits :
    (s : List ℕ) (n : ℕ) → parse_digits s ≡ some n → n < int64_limit → parse_int s ≡ some (pos n)
unfolding parse_int parse_digits digits_from signed is_digit
parse_int_of_digits [] n h l = cc
parse_int_of_digits (c ∷ s) n h l = ground arith

-- The header that a plain text follows.
header_lem :
    (c : ℕ) (s : List ℕ) (size : ℕ)
    → is_plain (c ∷ s) ≡ true
    → parse_single_byte_range (bytes "bytes=" ++ (c ∷ s)) size ≡ cut_range (cut b'-' (c ∷ s)) size
unfolding parse_single_byte_range range_spec has_prefix
header_lem c s size h = rw (trim_plain (c ∷ s) h, parse_single_byte_range) (rw (no_comma (c ∷ s) h))

cut_form :
    (ds es : List ℕ) (size : ℕ)
    → all_digits ds ≡ true
    → all_digits es ≡ true
    → parse_single_byte_range (bytes "bytes=" ++ (ds ++ b'-' ∷ es)) size
      ≡ cut_range (some (ds, es)) size
unfolding is_plain is_digit all_digits
cut_form [] es size d e =
    header_lem b'-' es size (plain_self es e) ∙ ap (λ o. cut_range o size) (cut_digits [] es refl)
cut_form (c ∷ ds) es size d e =
    header_lem c (ds ++ b'-' ∷ es) size (plain_of_digits (c ∷ ds) (b'-' ∷ es) d (plain_self es e))
    ∙ ap (λ o. cut_range o size) (cut_digits (c ∷ ds) es d)

-- bytes=-N with N > 0: the last N bytes, or all of them. At size 0 the last byte is -1.
pub suffix_form :
    (es : List ℕ) (n size : ℕ)
    → parse_digits es ≡ some n
    → 0 < n
    → n < int64_limit
    → parse_single_byte_range (bytes "bytes=" ++ (b'-' ∷ es)) size
      ≡ range (pos (size - min n size)) (last_of size)
unfolding cut_range suffix_range all_digits
suffix_form es zero size v p l = absurd (omega arith)
suffix_form es (suc n) size v p l =
    cut_form [] es size refl (parse_digits-all (suc n) es v)
    ∙ ap (λ o. suffix_range o size) (parse_int_of_digits es (suc n) v l)

open_start :
    (start n : ℕ)
    → start ≤ n
    → start_range (some (pos start)) [] (suc n) ≡ range (pos start) (pos n)
unfolding start_range
open_start start n le = ground arith

closed_start :
    (start end n c : ℕ) (es : List ℕ)
    → start ≤ n
    → start ≤ end
    → parse_int (c ∷ es) ≡ some (pos end)
    → start_range (some (pos start)) (c ∷ es) (suc n) ≡ range (pos start) (pos (min end n))
unfolding start_range closed_range
closed_start start end n c es le le' e =
    let inside : leb (suc n) start ≡ false = ground arith in
    let ordered : ltb end start ≡ false = ground arith in rw (inside, e, closed_range) (rw ordered)

-- bytes=S- and bytes=S-E, for S inside a file with bytes and S ≤ E: from S to the last byte, or to E.
pub start_forms :
    (ds es : List ℕ) (start end n : ℕ)
    → parse_digits ds ≡ some start
    → parse_digits es ≡ some end
    → start ≤ n
    → start ≤ end
    → end < int64_limit
    → (parse_single_byte_range (bytes "bytes=" ++ (ds ++ b'-' ∷ [])) (suc n)
        ≡ range (pos start) (pos n))
      × (parse_single_byte_range (bytes "bytes=" ++ (ds ++ b'-' ∷ es)) (suc n)
          ≡ range (pos start) (pos (min end n)))
unfolding cut_range parse_digits all_digits
start_forms [] es start end n d e le le' l = cc
start_forms (c ∷ ds) [] start end n d e le le' l = cc
start_forms (c ∷ ds) (b ∷ es) start end n d e le le' l =
    let whole : all_digits (c ∷ ds) ≡ true = parse_digits-all start (c ∷ ds) d in
    let s = parse_int_of_digits (c ∷ ds) start d (omega arith) in
    (
      cut_form (c ∷ ds) [] (suc n) whole refl
          ∙ ap (λ o. start_range o [] (suc n)) s
          ∙ open_start start n le,
      cut_form (c ∷ ds) (b ∷ es) (suc n) whole (parse_digits-all end (b ∷ es) e)
          ∙ ap (λ o. start_range o (b ∷ es) (suc n)) s
          ∙ closed_start start end n b es le le' (parse_int_of_digits (b ∷ es) end e l),
    )
