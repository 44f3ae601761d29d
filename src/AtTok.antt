-- ===== src/AtTok.antt =====
-- reference-ril/at_tok.c: the tokenizer of AT response lines. Each function takes the cursor
-- `*p_cur` and returns its new value last. `strsep` ends the token in place by a terminator, so the
-- token and the text behind the cursor share no byte, and both are values.
pub mod Fields
pub mod Numbers
pub mod Progress
use platform_hardware_ril.Base.{
  ℕ, Bool, true, false, ◌||◌, Option, none, some, [], ◌∷◌, Bytes, ◌==◌, if◌then◌else◌,
}
use platform_hardware_ril.Base.Int.{ℤ, pos}
use platform_hardware_ril.Libc.{is_space, strchr, strsep, strtol, strtoul, int_of_bits, int_of_long}

-- `char *p_cur`, which may be NULL
abbrev pub Cursor : Type 0
Cursor = Option Bytes

-- the return values 0 and -1
pub data Status : Type 0 where
  success failure : Status

unfoldable pub at_tok_start : Cursor → Status × Cursor
unfolding strchr
at_tok_start none = (failure, none)
at_tok_start (some s) = elim (strchr b':' s) [
  | none ↦ (failure, none)
  | some [] ↦ (success, some [])
  | some (c ∷ rest) ↦ (success, some rest)
]

-- the loop of `skipWhiteSpace`
unfoldable pub skip_white : Bytes → Bytes
unfolding is_space
skip_white [] = []
skip_white (c ∷ cs) = if is_space c then skip_white cs else c ∷ cs

-- the loop of `skipNextComma` and the test behind it
unfoldable pub skip_comma : Bytes → Bytes
skip_comma [] = []
skip_comma (c ∷ cs) = if c == b',' then cs else skip_comma cs

unfoldable pub skip_next_comma : Cursor → Cursor
unfolding skip_comma
skip_next_comma none = none
skip_next_comma (some s) = some (skip_comma s)

-- `nextTok` at a cursor that stands behind the white space
unfoldable pub next_tok_at : Bytes → Bytes × Cursor
unfolding strsep skip_next_comma
next_tok_at [] = strsep b',' []
next_tok_at (c ∷ cs) =
    if c == b'"'
    then (let (token, rest) = strsep b'"' cs in (token, skip_next_comma rest))
    else strsep b',' (c ∷ cs)

unfoldable pub next_tok : Cursor → Option Bytes × Cursor
unfolding skip_white next_tok_at
next_tok none = (none, none)
next_tok (some s) = let (token, rest) = next_tok_at (skip_white s) in (some token, rest)

-- the conversion of a token by its base: the `int` that is stored, and `end != ret`
unfoldable pub convert : ℕ → Bool → Bytes → ℤ × Bool
convert base true s = let (l, seen) = strtoul base s in (int_of_bits l, seen)
convert base false s = let (l, seen) = strtol base s in (int_of_long l, seen)

-- behind `ret = nextTok(p_cur)`: the middle part is what is stored through `p_out`
unfoldable pub store_int : ℕ → Bool → Option Bytes × Cursor → Status × Option ℤ × Cursor
store_int base uns (none, cur) = (failure, none, cur)
store_int base uns (some token, cur) =
    let (value, seen) = convert base uns token in
    (if seen then success else failure, some value, cur)

unfoldable pub at_tok_nextint_base : ℕ → Bool → Cursor → Status × Option ℤ × Cursor
at_tok_nextint_base base uns none = (failure, none, none)
at_tok_nextint_base base uns (some s) = store_int base uns (next_tok (some s))

unfoldable pub at_tok_nextint : Cursor → Status × Option ℤ × Cursor
at_tok_nextint = at_tok_nextint_base 10 false

unfoldable pub at_tok_nexthexint : Cursor → Status × Option ℤ × Cursor
at_tok_nexthexint = at_tok_nextint_base 16 true

-- `result == 0 || result == 1`
abbrev pub is_bit : ℤ → Bool
is_bit (pos n) = n == 0 || n == 1
is_bit _ = false

-- behind the call of `at_tok_nextint`, for a `p_out` that is not NULL
unfoldable pub check_bool : Status × Option ℤ × Cursor → Status × Option ℤ × Cursor
check_bool (success, some result, rest) =
    if is_bit result then (success, some result, rest) else (failure, none, rest)
check_bool (_, _, rest) = (failure, none, rest)

unfoldable pub at_tok_nextbool : Cursor → Status × Option ℤ × Cursor
at_tok_nextbool cur = check_bool (at_tok_nextint cur)

unfoldable pub at_tok_nextstr : Cursor → Status × Option Bytes × Cursor
at_tok_nextstr none = (failure, none, none)
at_tok_nextstr (some s) = let (token, rest) = next_tok (some s) in (success, token, rest)

unfoldable pub at_tok_hasmore : Cursor → Bool
at_tok_hasmore none = false
at_tok_hasmore (some []) = false
at_tok_hasmore (some (c ∷ cs)) = true
