-- ===== src/Libc.antt =====
-- The C library functions that the sources call on text: <string.h>, <ctype.h> and the integer
-- conversions of <stdlib.h>, in the "C" locale and with a 64-bit `long`.
-- A C string is the list of its bytes before the terminator; a `char *` that may be NULL is an
-- option of one.
use platform_hardware_ril.Base.{
  ◌/◌, ℕ, zero, suc, ◌+◌, ◌-◌, ◌*◌, ◌%◌, ◌^◌, Bool, true, false, ◌||◌, ◌&&◌, Option, none, some, [],
  ◌∷◌, Bytes, ltb, leb, ◌==◌, if◌then◌else◌,
}
use platform_hardware_ril.Base.Int.{ℤ, pos, negsuc}

-- isspace: ' ', \t, \n, \v, \f, \r
unfoldable pub is_space : ℕ → Bool
is_space c = c == 32 || (leb 9 c && leb c 13)

unfoldable pub is_digit : ℕ → Bool
is_digit c = leb b'0' c && leb c b'9'

-- strchr(s, c) for a character other than the terminator
unfoldable pub strchr : ℕ → Bytes → Option Bytes
strchr d [] = none
strchr d (c ∷ cs) = if c == d then some (c ∷ cs) else strchr d cs

-- strsep(&s, d) for one delimiter and a string that is not NULL: the token, and the new `s`
unfoldable pub strsep : ℕ → Bytes → Bytes × Option Bytes
strsep d [] = ([], none)
strsep d (c ∷ cs) =
    let (token, rest) = strsep d cs in if c == d then ([], some cs) else (c ∷ token, rest)

-- strcmp(s, t) == 0
unfoldable pub str_equal : Bytes → Bytes → Bool
str_equal [] [] = true
str_equal (a ∷ s) (b ∷ t) = a == b && str_equal s t
str_equal _ _ = false

unfoldable pub digit_value : ℕ → ℕ
digit_value c =
    if is_digit c
    then c - b'0'
    else if leb b'a' c && leb c b'z'
    then c - b'a' + 10
    else if leb b'A' c && leb c b'Z'
    then c - b'A' + 10
    else 255

-- The longest run of digits of the base: its value, and whether there was a digit.
unfoldable pub scan_digits : ℕ → ℕ → Bool → Bytes → ℕ × Bool
scan_digits base acc seen [] = (acc, seen)
scan_digits base acc seen (c ∷ cs) =
    let more = scan_digits base (acc * base + digit_value c) true cs in
    if ltb (digit_value c) base then more else (acc, seen)

unfoldable pub skip_spaces : Bytes → Bytes
skip_spaces [] = []
skip_spaces (c ∷ cs) = if is_space c then skip_spaces cs else c ∷ cs

-- an optional sign: whether it is a minus, and what follows it
unfoldable pub scan_sign : Bytes → Bool × Bytes
scan_sign [] = (false, [])
scan_sign (c ∷ cs) =
    if c == b'-' then (true, cs) else if c == b'+' then (false, cs) else (false, c ∷ cs)

-- In base 16 an "0x" is passed over if a digit follows.
unfoldable pub skip_prefix : ℕ → Bytes → Bytes
skip_prefix base (z ∷ x ∷ d ∷ cs) =
    if base == 16 && z == b'0' && (x == b'x' || x == b'X') && ltb (digit_value d) 16
    then d ∷ cs
    else z ∷ x ∷ d ∷ cs
skip_prefix base s = s

-- the sign, the magnitude and whether a digit was read, before the limits of the type
unfoldable pub scan_number : ℕ → Bytes → Bool × ℕ × Bool
scan_number base s =
    let (minus, rest) = scan_sign (skip_spaces s) in
    let (n, seen) = scan_digits base 0 false (skip_prefix base rest) in (minus, n, seen)

-- -n, but no less than LONG_MIN
unfoldable pub opposite_long : ℕ → ℤ
opposite_long zero = pos 0
opposite_long (suc n) = negsuc (if ltb n (2 ^ 63) then n else 2 ^ 63 - 1)

-- strtol saturates at LONG_MAX and LONG_MIN; the flag is `end != s`.
unfoldable pub strtol : ℕ → Bytes → ℤ × Bool
strtol base s =
    let (minus, n, seen) = scan_number base s in
    (if minus then opposite_long n else pos (if ltb n (2 ^ 63) then n else 2 ^ 63 - 1), seen)

-- strtoul saturates at ULONG_MAX; a minus negates modulo 2^64.
unfoldable pub strtoul : ℕ → Bytes → ℕ × Bool
strtoul base s =
    let (minus, n, seen) = scan_number base s in
    (if ltb n (2 ^ 64) then (if minus then (2 ^ 64 - n) % 2 ^ 64 else n) else 2 ^ 64 - 1, seen)

-- (int) of an unsigned long, and of a long: the low 32 bits, read as two's complement
unfoldable pub int_of_bits : ℕ → ℤ
int_of_bits n = let w = n % 2 ^ 32 in if ltb w (2 ^ 31) then pos w else negsuc (2 ^ 32 - 1 - w)

unfoldable pub int_of_long : ℤ → ℤ
int_of_long (pos n) = int_of_bits n
int_of_long (negsuc n) = int_of_bits (2 ^ 32 - 1 - n % 2 ^ 32)

-- The decimal digits of a number below 10 to the power of the fuel, before a text.
unfoldable pub print_digits : ℕ → ℕ → Bytes → Bytes
print_digits zero n text = text
print_digits (suc fuel) n text =
    let more = print_digits fuel (n / 10) ((b'0' + n % 10) ∷ text) in
    if ltb n 10 then (b'0' + n) ∷ text else more

-- The conversion %d; 20 digits are enough for an `int` and a `long`.
unfoldable pub print_int : ℤ → Bytes
unfolding print_digits
print_int (pos n) = print_digits 20 n []
print_int (negsuc n) = b'-' ∷ print_digits 20 (suc n) []

abbrev hex_digit : ℕ → ℕ
hex_digit d = if ltb d 10 then b'0' + d else b'a' + (d - 10)

-- The hexadecimal digits of a number below 16 to the power of the fuel, before a text.
unfoldable pub print_hex_digits : ℕ → ℕ → Bytes → Bytes
print_hex_digits zero n text = text
print_hex_digits (suc fuel) n text =
    let more = print_hex_digits fuel (n / 16) (hex_digit (n % 16) ∷ text) in
    if ltb n 16 then hex_digit n ∷ text else more

-- The conversion %x of an `int` of 32 bits, which it reads as unsigned; 8 digits are enough.
unfoldable pub print_hex : ℤ → Bytes
unfolding print_hex_digits
print_hex (pos n) = print_hex_digits 8 (n % 2 ^ 32) []
print_hex (negsuc n) = print_hex_digits 8 (2 ^ 32 - 1 - n % 2 ^ 32) []
