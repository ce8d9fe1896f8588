-- ===== src/HttpRange.antt =====
-- internal/handler/download_handler.go: `parseSingleByteRange`, the Range header of a request, and the
-- strconv and strings functions that it calls, as the Go library documents them. The header is ASCII,
-- a list of its bytes.
pub mod Bounds
pub mod Forms
mod Examples
use pentaract.Prelude.{
  ℕ, zero, suc, ◌+◌, ◌-◌, ◌*◌, ◌^◌, Bool, true, false, ◌&&◌, ◌||◌, Option, none, some, List, [],
  ◌∷◌, ◌++◌, ◌==◌, ltb, leb, if◌then◌else◌, bytes, drop, min, length,
}
use pentaract.Prelude.Int.{ℤ, pos, negsuc}

-- strings.HasPrefix(s, p)
unfoldable pub has_prefix : List ℕ → List ℕ → Bool
has_prefix [] s = true
has_prefix (c ∷ p) [] = false
has_prefix (c ∷ p) (x ∷ s) = c == x && has_prefix p s

-- The ASCII white space of strings.TrimSpace.
unfoldable pub is_space : ℕ → Bool
is_space c = c == 32 || (leb 9 c && leb c 13)

trim_space_left : List ℕ → List ℕ
trim_space_left [] = []
trim_space_left (c ∷ s) = if is_space c then trim_space_left s else c ∷ s

trim_space_right : List ℕ → List ℕ
trim_space_right [] = []
trim_space_right (c ∷ s) =
    let rest = trim_space_right s in
    elim rest [ [] ↦ if is_space c then [] else c ∷ [] | x ∷ xs ↦ c ∷ x ∷ xs ]

-- strings.TrimSpace
unfoldable pub trim_space : List ℕ → List ℕ
unfolding trim_space_left trim_space_right is_space
trim_space s = trim_space_right (trim_space_left s)

-- strings.Contains(s, c) for one byte
unfoldable pub has_byte : ℕ → List ℕ → Bool
has_byte c [] = false
has_byte c (x ∷ s) = x == c || has_byte c s

-- strings.Cut(s, c) for one byte; `none` is `ok == false`.
unfoldable pub cut : ℕ → List ℕ → Option (List ℕ × List ℕ)
cut c [] = none
cut c (x ∷ s) =
    let rest = cut c s in
    if x == c
    then some ([], s)
    else elim rest [ none ↦ none | some (before, after) ↦ some (x ∷ before, after) ]

unfoldable pub is_digit : ℕ → Bool
is_digit c = leb b'0' c && leb c b'9'

-- The number of a digit string, from an accumulator; `none` at another byte.
unfoldable pub digits_from : ℕ → List ℕ → Option ℕ
unfolding is_digit
digits_from n [] = some n
digits_from n (c ∷ s) =
    let rest = digits_from (n * 10 + (c - b'0')) s in if is_digit c then rest else none

-- An unsigned decimal, which is not empty.
unfoldable pub parse_digits : List ℕ → Option ℕ
unfolding digits_from
parse_digits [] = none
parse_digits (c ∷ s) = digits_from 0 (c ∷ s)

abbrev pub int64_limit : ℕ
int64_limit = 2 ^ 63

signed : Bool → Option ℕ → Option ℤ
signed negative none = none
signed true (some zero) = some (pos 0)
signed true (some (suc n)) = if leb (suc n) int64_limit then some (negsuc n) else none
signed false (some n) = if ltb n int64_limit then some (pos n) else none

-- strconv.ParseInt(s, 10, 64); `none` is an error.
unfoldable pub parse_int : List ℕ → Option ℤ
unfolding signed parse_digits
parse_int [] = none
parse_int (c ∷ s) =
    if c == b'-'
    then signed true (parse_digits s)
    else if c == b'+'
    then signed false (parse_digits s)
    else signed false (parse_digits (c ∷ s))

pub data RangeError : Type 0 where
  invalid_unit : RangeError
  multiple_or_empty : RangeError
  invalid_format : RangeError
  invalid_suffix : RangeError
  invalid_start : RangeError
  invalid_end : RangeError

pub data Parsed : Type 0 where
  bad : RangeError → Parsed
  -- the first and the last byte
  range : ℤ → ℤ → Parsed

-- The int64 `size - 1` of a size that is not negative.
abbrev pub last_of : ℕ → ℤ
last_of zero = negsuc 0
last_of (suc n) = pos n

-- bytes=-N
suffix_range : Option ℤ → ℕ → Parsed
suffix_range (some (pos (suc n))) size = range (pos (size - min (suc n) size)) (last_of size)
suffix_range _ size = bad invalid_suffix

-- The last byte of bytes=N-M
closed_range : ℕ → Option ℤ → ℕ → Parsed
closed_range start (some (pos end)) size =
    if ltb end start
    then bad invalid_end
    else range (pos start) (elim (last_of size) [ pos l ↦ pos (min end l) | negsuc n ↦ negsuc n ])
closed_range start _ size = bad invalid_end

start_range : Option ℤ → List ℕ → ℕ → Parsed
unfolding closed_range parse_int
start_range (some (pos start)) last size = if leb size start then bad invalid_start else elim last [
  | [] ↦ range (pos start) (last_of size)
  | c ∷ s ↦ closed_range start (parse_int (c ∷ s)) size
]
start_range _ last size = bad invalid_start

cut_range : Option (List ℕ × List ℕ) → ℕ → Parsed
unfolding suffix_range start_range parse_int
cut_range none size = bad invalid_format
cut_range (some ([], last)) size = suffix_range (parse_int last) size
cut_range (some (c ∷ first, last)) size = start_range (parse_int (c ∷ first)) last size

range_spec : List ℕ → ℕ → Parsed
unfolding cut_range cut has_byte
range_spec [] size = bad multiple_or_empty
range_spec (c ∷ s) size =
    if has_byte b',' (c ∷ s) then bad multiple_or_empty else cut_range (cut b'-' (c ∷ s)) size

unfoldable pub parse_single_byte_range : List ℕ → ℕ → Parsed
unfolding range_spec has_prefix trim_space
parse_single_byte_range header size =
    if has_prefix (bytes "bytes=") header
    then range_spec (trim_space (drop 6 header)) size
    else bad invalid_unit
