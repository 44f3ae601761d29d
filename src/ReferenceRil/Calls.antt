-- ===== src/ReferenceRil/Calls.antt =====
-- `callFromCLCCLine` of reference-ril/reference-ril.c: what a call that it accepts is like.
use platform_hardware_ril.Base.{
  subst, true, false, ◌≡◌, refl, ◌⊎◌, inl, inr, Option, none, some, Bytes, Bool-cases, Option-cases,
}
use platform_hardware_ril.Base.Int.{ℤ, pos}
use platform_hardware_ril.AtTok.{
  Status, success, failure, Cursor, at_tok_start, at_tok_nextint, at_tok_nextbool, at_tok_nextstr,
  at_tok_hasmore, check_bool, is_bit,
}
use platform_hardware_ril.AtTok.Numbers.{is_bit-cases}
use platform_hardware_ril.ReferenceRil.{
  Call, put_token, ◌then_parse◌, keep_dialable, starts_dialable, set_state, clcc_state_to_ril_state,
  read_toa, read_number, clcc_fields, call_from_clcc_line,
}

-- Where the result of a parser is a success, its value has a property.
abbrev Ok {ℓ κ} : {A : Type ℓ} → (A → Type κ) → Status × Cursor × A → Type κ
Ok P (success, cur, a) = P a
Ok P (failure, cur, a) = Unit

then_parse-Ok {ℓ κ} :
    {A : Type ℓ} (P Q : A → Type κ) (r : Status × Cursor × A)
    (step : Cursor → A → Status × Cursor × A)
    → Ok P r
    → ((cur : Cursor) (a : A) → P a → Ok Q (step cur a))
    → Ok Q (r then_parse step)
unfolding ◌then_parse◌
then_parse-Ok P Q (success, cur, a) step p f = f cur a p
then_parse-Ok P Q (failure, cur, a) step p f = tt

put_token-Ok :
    {V : Type 0} (Q : Call → Type 0) (put : V → Call → Call) (r : Status × Option V × Cursor)
    (call : Call)
    → Q call
    → ((v : V) → Q (put v call))
    → Ok Q (put_token put r call)
unfolding put_token
put_token-Ok Q put (success, none, cur) call q f = q
put_token-Ok Q put (success, some v, cur) call q f = f v
put_token-Ok Q put (failure, none, cur) call q f = tt
put_token-Ok Q put (failure, some v, cur) call q f = tt

abbrev pub IsBit : ℤ → Type 0
IsBit v = (v ≡ pos 0) ⊎ (v ≡ pos 1)

put_bit-Ok :
    (Q : Call → Type 0) (put : ℤ → Call → Call) (cur : Cursor) (call : Call)
    → ((v : ℤ) → IsBit v → Q (put v call))
    → Ok Q (put_token put (at_tok_nextbool cur) call)
unfolding at_tok_nextbool put_token check_bool
put_bit-Ok Q put cur call f = checked (at_tok_nextint cur)
  where
    checked : (r : Status × Option ℤ × Cursor) → Ok Q (put_token put (check_bool r) call)
    checked (success, some x, cur') = elim (Bool-cases (is_bit x)) [
      | inl e ↦ rw e (f x (is_bit-cases x e))
      | inr e ↦ rw e tt
    ]
    checked (success, none, cur') = tt
    checked (failure, o, cur') = tt

-- no number, or one that starts with a digit or a plus sign
abbrev pub IsDialable : Option Bytes → Type 0
IsDialable none = Unit
IsDialable (some number) = starts_dialable number ≡ true

pub keep_dialable-IsDialable : (number : Option Bytes) → IsDialable (keep_dialable number)
unfolding keep_dialable
keep_dialable-IsDialable none = tt
keep_dialable-IsDialable (some number) = elim (Bool-cases (starts_dialable number)) [
  | inl e ↦ rw e e
  | inr e ↦ rw e tt
]

-- What is known behind the second field, behind the fifth, and at the end.
abbrev Second : Call → Type 0
Second call = IsBit call.is_mt × IsDialable call.number

abbrev Fifth : Call → Type 0
Fifth call = IsBit call.is_mpty × Second call

abbrev pub IsCall : Call → Type 0
IsCall call =
    (call.has_uus_info ≡ false) × (IsBit call.is_mpty × (IsBit call.is_mt × IsDialable call.number))

set_state-Ok : (cur : Cursor) (call : Call) → Second call → Ok Second (set_state cur call)
unfolding set_state
set_state-Ok cur call h = elim (Option-cases (clcc_state_to_ril_state call.local_state)) [
  | inl e ↦ rw (e, set_state) tt
  | inr (state, e) ↦ rw (e, set_state) h
]

read_number-Ok : (cur : Cursor) (call : Call) → Fifth call → Ok Fifth (read_number cur call)
unfolding read_number read_toa
read_number-Ok cur call (m, (b, d)) = elim (Bool-cases (at_tok_hasmore cur)) [
  | inl e ↦ rw e (
      then_parse-Ok (λ c. IsBit c.is_mpty × IsBit c.is_mt) Fifth _ read_toa
        (put_token-Ok _ _ (at_tok_nextstr cur) call (m, b) (λ v. (m, b)))
        (λ cur' c (p, q).
          put_token-Ok Fifth _ (at_tok_nextint cur') _ (p, (q, keep_dialable-IsDialable c.number))
            (λ v. (p, (q, keep_dialable-IsDialable c.number)))))
  | inr e ↦ rw e (m, (b, d))
]

clcc_fields-Ok :
    (cur : Cursor) (call : Call) → IsDialable call.number → Ok IsCall (clcc_fields cur call)
unfolding clcc_fields
clcc_fields-Ok cur call d =
    then_parse-Ok Fifth IsCall _ _
      (then_parse-Ok Fifth Fifth _ read_number
        (then_parse-Ok Second Fifth _ _
          (then_parse-Ok Second Second _ _
            (then_parse-Ok Second Second _ _
              (then_parse-Ok Second Second _ set_state
                (then_parse-Ok Second Second _ _
                  (then_parse-Ok (λ c. IsDialable c.number) Second _ _
                    (put_token-Ok (λ c. IsDialable c.number) _ (at_tok_nextint cur) call d (λ v. d))
                    (λ cur c h. put_bit-Ok Second _ cur c (λ v b. (b, h))))
                  (λ cur c h. put_token-Ok Second _ (at_tok_nextint cur) c h (λ v. h)))
                set_state-Ok)
              (λ cur c h. put_token-Ok Second _ (at_tok_nextint cur) c h (λ v. h)))
            (λ cur c h. h))
          (λ cur c h. put_bit-Ok Fifth _ cur c (λ v b. (b, h))))
        read_number-Ok)
      (λ cur c h. (refl, h))

-- Where `callFromCLCCLine` accepts a line for a call that has no number yet, or a dialable one,
-- `isMT` and `isMpty` are 0 or 1, the number is NULL or starts with a digit or a plus sign, and
-- `uusInfo` is NULL.
pub call_from_clcc_line-IsCall :
    (line : Cursor) (call after : Call) (cur : Cursor)
    → IsDialable call.number
    → call_from_clcc_line line call ≡ (success, cur, after)
    → IsCall after
unfolding call_from_clcc_line
call_from_clcc_line-IsCall line call after cur d e = subst (Ok IsCall) e (
    then_parse-Ok (λ c. IsDialable c.number) IsCall _ clcc_fields (started (at_tok_start line))
      clcc_fields-Ok)
  where
    started : (r : Status × Cursor) → Ok (λ c. IsDialable c.number) (r.0, r.1, call)
    started (success, cur') = d
    started (failure, cur') = tt
