-- ===== src/HttpRange/Examples.antt =====
-- Witnesses and tests of the Range header.
use pentaract.Prelude.{◌-◌, ◌∷◌, [], ◌++◌, ◌≡◌, refl, bytes, arith, min}
use pentaract.Prelude.Int.{pos}
use pentaract.HttpRange.{range, bad, invalid_end, parse_single_byte_range, parse_digits, last_of}
use pentaract.HttpRange.Bounds.{IsInside, parse_single_byte_range-IsInside}
use pentaract.HttpRange.Forms.{suffix_form, start_forms}

plus_sign : parse_single_byte_range (bytes "bytes= 5-+7 ") 100 ≡ range (pos 5) (pos 7)
unfolding parse_single_byte_range
plus_sign = refl

reversed : parse_single_byte_range (bytes "bytes=7-5") 100 ≡ bad invalid_end
unfolding parse_single_byte_range
reversed = refl

parse_single_byte_range-IsInside_example :
    IsInside 100 (parse_single_byte_range (bytes "bytes=-500") 100)
parse_single_byte_range-IsInside_example =
    parse_single_byte_range-IsInside (bytes "bytes=-500") 100 (omega arith)

suffix_form_run :
    parse_single_byte_range (bytes "bytes=" ++ (b'-' ∷ bytes "20")) 100
    ≡ range (pos (100 - min 20 100)) (last_of 100)
unfolding parse_digits
suffix_form_run = suffix_form (bytes "20") 20 100 refl (omega arith) (omega arith)

start_forms_run :
    (parse_single_byte_range (bytes "bytes=" ++ (bytes "10" ++ b'-' ∷ [])) 100
      ≡ range (pos 10) (pos 99))
    × (parse_single_byte_range (bytes "bytes=" ++ (bytes "10" ++ b'-' ∷ bytes "500")) 100
        ≡ range (pos 10) (pos (min 500 99)))
unfolding parse_digits
start_forms_run =
    start_forms (bytes "10") (bytes "500") 10 500 99 refl refl (omega arith) (omega arith)
      (omega arith)
