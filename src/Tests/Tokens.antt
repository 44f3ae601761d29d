-- ===== src/Tests/Tokens.antt =====
-- reference-ril/at_tok.c and reference-ril/misc.c at concrete lines.
use platform_hardware_ril.Base.{◌≡◌, refl, true, some, none, List, [], ◌∷◌, codes, arith}
use platform_hardware_ril.Base.Int.{pos, negsuc}
use platform_hardware_ril.Libc.{
  is_space, scan_number, strtol, strtoul, int_of_long, int_of_bits, scan_digits, skip_spaces,
  scan_sign, skip_prefix, digit_value, is_digit,
}
use platform_hardware_ril.AtTok.{
  success, failure, next_tok, at_tok_nextint, at_tok_nextint_base, at_tok_nexthexint, store_int,
  convert,
}
use platform_hardware_ril.AtTok.Fields.{
  Field, plain, quoted, IsLine, IsBlank, line, read_rest, read_rest-line,
}
use platform_hardware_ril.AtTok.Numbers.{Digits, at_tok_nextint-decimal}

hex_word :
    at_tok_nexthexint (some (codes " 0x1F,rest")) ≡ (success, some (pos 31), some (codes "rest"))
unfolding at_tok_nexthexint at_tok_nextint_base store_int convert strtoul scan_number next_tok
    int_of_bits scan_digits skip_spaces scan_sign skip_prefix digit_value is_digit
hex_word = refl

-- a number past the range of `int` keeps its low 32 bits
wraps : at_tok_nextint (some (codes "4294967297")) ≡ (success, some (pos 1), none)
unfolding at_tok_nextint at_tok_nextint_base store_int convert strtol scan_number next_tok
    int_of_bits int_of_long scan_digits skip_spaces scan_sign skip_prefix digit_value is_digit
wraps = refl

no_digits : at_tok_nextint (some (codes "x,1")) ≡ (failure, some (pos 0), some (codes "1"))
unfolding at_tok_nextint at_tok_nextint_base store_int convert strtol scan_number next_tok
    int_of_bits int_of_long scan_digits skip_spaces scan_sign skip_prefix digit_value is_digit
no_digits = refl

-- 1,"a,b" , 2
abbrev fields : List Field
fields =
    plain [] (codes "1")
    ∷ quoted (codes " ") (codes "a,b") (codes " ")
    ∷ plain (codes " ") (codes "2")
    ∷ []

fields-IsLine : IsLine fields
unfolding is_space
fields-IsLine = ground arith

read_rest-line_example :
    read_rest 3 (some (line fields)) ≡ some (codes "1") ∷ some (codes "a,b") ∷ some (codes "2") ∷ []
read_rest-line_example = read_rest-line 3 fields fields-IsLine (omega arith)

blank : IsBlank (codes " ")
unfolding is_space
blank = ground arith

twelve : Digits (codes "12")
unfolding is_digit
twelve = ground arith

at_tok_nextint-decimal_example :
    at_tok_nextint (some (codes " -12,7")) ≡ (success, some (negsuc 11), some (codes "7"))
at_tok_nextint-decimal_example =
    at_tok_nextint-decimal true (codes " ") b'1' (codes "2") (some (codes "7")) blank twelve
      (omega arith)
