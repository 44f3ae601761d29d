-- ===== src/AtTok/Numbers.antt =====
-- The integers and booleans that the tokenizer reads.
use mathlib.Core.List.{append_assoc, append-nil}
use platform_hardware_ril.Base.{
  Bool-cases, ℕ, zero, suc, ◌+◌, ◌-◌, ◌*◌, ◌^◌, ◌≤◌, ◌<◌, ◌≡◌, ◌↔◌, ◌⊎◌, inl, inr, refl, Bool, true,
  false, Option, none, some, [], ◌∷◌, ◌++◌, Bytes, All, arith, ltb, if◌then◌else◌,
}
use platform_hardware_ril.Base.Int.{ℤ, pos, negsuc}
use platform_hardware_ril.Libc.{
  is_space, scan_sign, opposite_long, skip_prefix, is_digit, digit_value, scan_digits, scan_number,
  skip_spaces, strtol, int_of_bits, int_of_long,
}
use platform_hardware_ril.AtTok.{
  store_int, check_bool, at_tok_nextint_base, is_space, next_tok, Cursor, Status, success, failure,
  is_bit, convert, at_tok_nextint, at_tok_nextbool,
}
use platform_hardware_ril.AtTok.Fields.{
  IsBlank, Lacks, plain, IsField, next_tok-field, next_tok-last,
}

abbrev pub Digits : Bytes → Type 0
Digits = All (λ c. is_digit c ≡ true)

-- the number that a run of decimal digits stands for, read from the left behind `acc`
abbrev pub decimal : ℕ → Bytes → ℕ
decimal acc [] = acc
decimal acc (c ∷ cs) = decimal (acc * 10 + (c - b'0')) cs

scan_digits-decimal :
    (acc : ℕ) (seen : Bool) (ds : Bytes)
    → Digits ds
    → (scan_digits 10 acc seen ds).0 ≡ decimal acc ds
unfolding scan_digits digit_value is_digit
scan_digits-decimal acc seen [] h = refl
scan_digits-decimal acc seen (c ∷ cs) h =
    ground (arith, scan_digits-decimal (acc * 10 + (c - b'0')) true cs)

scan_digits-seen : (base acc : ℕ) (ds : Bytes) → (scan_digits base acc true ds).1 ≡ true
unfolding scan_digits
scan_digits-seen base acc [] = refl
scan_digits-seen base acc (c ∷ cs) =
    ground (arith, scan_digits-seen base (acc * base + digit_value c) cs)

skip_prefix-decimal : (s : Bytes) → skip_prefix 10 s ≡ s
unfolding skip_prefix
skip_prefix-decimal [] = refl
skip_prefix-decimal (z ∷ []) = refl
skip_prefix-decimal (z ∷ x ∷ []) = refl
skip_prefix-decimal (z ∷ x ∷ d ∷ cs) = refl

scan_digits-lem :
    (c : ℕ) (cs : Bytes)
    → Digits (c ∷ cs)
    → scan_digits 10 0 false (c ∷ cs) ≡ (decimal 0 (c ∷ cs), true)
unfolding scan_digits digit_value is_digit
scan_digits-lem c cs h =
    ground (arith, scan_digits-decimal (c - b'0') true cs, scan_digits-seen 10 (c - b'0') cs)

is_space-digit : (c : ℕ) → is_digit c ≡ true → is_space c ≡ false
unfolding is_digit is_space
is_space-digit c h = ground arith

scan_sign-digit : (c : ℕ) (cs : Bytes) → is_digit c ≡ true → scan_sign (c ∷ cs) ≡ (false, c ∷ cs)
unfolding is_digit scan_sign
scan_sign-digit c cs h = ground arith

skip_spaces-ne : (c : ℕ) (cs : Bytes) → is_space c ≡ false → skip_spaces (c ∷ cs) ≡ c ∷ cs
unfolding skip_spaces
skip_spaces-ne c cs h = rw h

-- A decimal numeral, and one with a minus, as strtol scans it.
scan_number-decimal :
    (c : ℕ) (cs : Bytes)
    → Digits (c ∷ cs)
    → scan_number 10 (c ∷ cs) ≡ (false, decimal 0 (c ∷ cs), true)
unfolding scan_number
scan_number-decimal c cs h = rw (
  skip_spaces-ne c cs (is_space-digit c h.0),
  scan_sign-digit c cs h.0,
  skip_prefix-decimal (c ∷ cs),
  scan_digits-lem c cs h,
)

scan_number-minus :
    (c : ℕ) (cs : Bytes)
    → Digits (c ∷ cs)
    → scan_number 10 (b'-' ∷ c ∷ cs) ≡ (true, decimal 0 (c ∷ cs), true)
unfolding scan_number skip_spaces scan_sign is_space
scan_number-minus c cs h = rw (skip_prefix-decimal (c ∷ cs), scan_digits-lem c cs h)

abbrev pub InInt : Bool → ℕ → Type 0
InInt true n = n ≤ 2 ^ 31
InInt false n = n < 2 ^ 31

-- `-n` or `n`
abbrev pub signed : Bool → ℕ → ℤ
signed false n = pos n
signed true zero = pos 0
signed true (suc n) = negsuc n

abbrev pub numeral : Bool → Bytes → Bytes
numeral false ds = ds
numeral true ds = b'-' ∷ ds

-- `(int)` of a number in the range of `int` is that number.
int_of_long-signed :
    (minus : Bool) (n : ℕ)
    → InInt minus n
    → int_of_long
        (if minus then opposite_long n else pos (if ltb n (2 ^ 63) then n else 2 ^ 63 - 1))
      ≡ signed minus n
unfolding int_of_long int_of_bits opposite_long
int_of_long-signed false n h = ground arith
int_of_long-signed true zero h = refl
int_of_long-signed true (suc n) h = ground arith

convert-decimal :
    (minus : Bool) (c : ℕ) (cs : Bytes)
    → Digits (c ∷ cs)
    → InInt minus (decimal 0 (c ∷ cs))
    → convert 10 false (numeral minus (c ∷ cs)) ≡ (signed minus (decimal 0 (c ∷ cs)), true)
unfolding convert strtol
convert-decimal false c cs h le =
    rw (scan_number-decimal c cs h, int_of_long-signed false (decimal 0 (c ∷ cs)) le)
convert-decimal true c cs h le =
    rw (scan_number-minus c cs h, int_of_long-signed true (decimal 0 (c ∷ cs)) le)

Lacks-comma : (ds : Bytes) → Digits ds → Lacks b',' ds
unfolding is_digit
Lacks-comma [] h = tt
Lacks-comma (c ∷ cs) h = (ground arith, Lacks-comma cs h.1)

numeral-IsField :
    (minus : Bool) (pad : Bytes) (c : ℕ) (cs : Bytes)
    → IsBlank pad
    → Digits (c ∷ cs)
    → IsField (plain pad (numeral minus (c ∷ cs)))
unfolding is_digit is_space
numeral-IsField false pad c cs b h =
    (b, Lacks-comma (c ∷ cs) h, (is_space-digit c h.0, unfold is_digit in ground arith))
numeral-IsField true pad c cs b h = (b, (refl, Lacks-comma (c ∷ cs) h), (refl, refl))

-- what stands behind a field, up to the end of the line: a comma and more text, or nothing
abbrev pub behind : Cursor → Bytes
behind none = []
behind (some rest) = b',' ∷ rest

next_tok-behind :
    (pad t : Bytes) (cur : Cursor)
    → IsField (plain pad t)
    → next_tok (some (pad ++ (t ++ behind cur))) ≡ (some t, cur)
next_tok-behind pad t (some rest) h = rw (← append_assoc) (next_tok-field (plain pad t) rest h)
next_tok-behind pad t none h = rw (append-nil t) (next_tok-last (plain pad t) h)

-- `at_tok_nextint` on a decimal numeral in the range of `int`, with an optional minus and white
-- space in front, and behind it either a comma with more of the line or the end of the line: it
-- succeeds, stores the number, and leaves the rest of the line, or a NULL cursor at the end.
pub at_tok_nextint-decimal :
    (minus : Bool) (pad : Bytes) (c : ℕ) (cs : Bytes) (cur : Cursor)
    → IsBlank pad
    → Digits (c ∷ cs)
    → InInt minus (decimal 0 (c ∷ cs))
    → at_tok_nextint (some (pad ++ (numeral minus (c ∷ cs) ++ behind cur)))
      ≡ (success, some (signed minus (decimal 0 (c ∷ cs))), cur)
unfolding at_tok_nextint at_tok_nextint_base store_int
at_tok_nextint-decimal minus pad c cs cur b h le = rw (
  next_tok-behind pad (numeral minus (c ∷ cs)) cur (numeral-IsField minus pad c cs b h),
  convert-decimal minus c cs h le,
)

-- what `at_tok_nextbool` makes of the result of `at_tok_nextint`
abbrev BoolOf : Status × Option ℤ × Cursor → Status × Option ℤ × Cursor → ℤ → Cursor → Type 0
BoolOf r b v rest =
    ((b ≡ (success, some v, rest)) ↔ ((r ≡ (success, some v, rest)) × ((v ≡ pos 0) ⊎ (v ≡ pos 1))))
    × (b.2 ≡ r.2)
    × ((b.0 ≡ success) ⊎ (b.1 ≡ none))

pub is_bit-cases : (v : ℤ) → is_bit v ≡ true → (v ≡ pos 0) ⊎ (v ≡ pos 1)
is_bit-cases (pos zero) h = inl refl
is_bit-cases (pos (suc zero)) h = inr refl
is_bit-cases (pos (suc (suc n))) h = absurd (ground arith)
is_bit-cases (negsuc n) h = cc

is_bit-false : (v : ℤ) → is_bit v ≡ false → (v ≡ pos 0) ⊎ (v ≡ pos 1) → ⊥
is_bit-false v h (inl e) = cc (rw e at h)
is_bit-false v h (inr e) = cc (rw e at h)

check_bool-BoolOf :
    (r : Status × Option ℤ × Cursor) (v : ℤ) (rest : Cursor) → BoolOf r (check_bool r) v rest
unfolding check_bool
check_bool-BoolOf (success, some x, cur) v rest = elim (Bool-cases (is_bit x)) [
  | inl e ↦ rw e ((λ q. (q, rw (value q) at (is_bit-cases x e)), λ q. q.0), refl, inl refl)
  | inr e ↦
      rw e ((λ q. cc, λ q. absurd (is_bit-false x e (rw (← value q.0) at q.1))), refl, inr refl)
]
  where
    value :
        ◌≡◌ {A = Status × Option ℤ × Cursor} (success, some x, cur) (success, some v, rest) → x ≡ v
    value q = cc
check_bool-BoolOf (success, none, cur) v rest = ((λ e. cc, λ e. cc), refl, inr refl)
check_bool-BoolOf (failure, o, cur) v rest = ((λ e. cc, λ e. cc), refl, inr refl)

-- `at_tok_nextbool` succeeds with a value exactly when `at_tok_nextint` does and the value is 0
-- or 1; it always leaves the same cursor; and it succeeds or stores nothing.
pub at_tok_nextbool_iff :
    (cur : Cursor) (v : ℤ) (rest : Cursor)
    → ((at_tok_nextbool cur ≡ (success, some v, rest))
        ↔ ((at_tok_nextint cur ≡ (success, some v, rest)) × ((v ≡ pos 0) ⊎ (v ≡ pos 1))))
      × ((at_tok_nextbool cur).2 ≡ (at_tok_nextint cur).2)
      × (((at_tok_nextbool cur).0 ≡ success) ⊎ ((at_tok_nextbool cur).1 ≡ none))
unfolding at_tok_nextbool
at_tok_nextbool_iff cur = check_bool-BoolOf (at_tok_nextint cur)
