-- ===== src/ReferenceRil/Requests/Slots.antt =====
-- The elements that `requestGetCurrentCalls` of reference-ril/reference-ril.c reads its lines into: what a
-- line leaves there has no number that is not dialable.
use platform_hardware_ril.ReferenceRil.Calls.{keep_dialable-IsDialable}
use platform_hardware_ril.ReferenceRil.{
  Call, call_from_clcc_line, clcc_fields, clcc_state_to_ril_state, put_token, read_number, read_toa,
  set_state, ◌then_parse◌,
}
use platform_hardware_ril.AtTok.{
  Cursor, Status, at_tok_hasmore, at_tok_nextint, at_tok_nextstr, at_tok_start, failure, next_tok,
  success,
}
use platform_hardware_ril.Base.{Bool-cases, Bytes, Option, Option-cases, inl, inr, none, some}
use platform_hardware_ril.ReferenceRil.Calls.{IsDialable}

-- What a line leaves in the element that it is read into, accepted or not.
abbrev pub Left {ℓ κ} : {A : Type ℓ} → (A → Type κ) → Status × Cursor × A → Type κ
Left P (code, cur, a) = P a

then_parse-Left {ℓ κ} :
    {A : Type ℓ} (P : A → Type κ) (r : Status × Cursor × A)
    (step : Cursor → A → Status × Cursor × A)
    → Left P r
    → ((cur : Cursor) (a : A) → P a → Left P (step cur a))
    → Left P (r then_parse step)
unfolding ◌then_parse◌
then_parse-Left P (success, cur, a) step p f = f cur a p
then_parse-Left P (failure, cur, a) step p f = p

abbrev pub Dialable : Call → Type 0
Dialable call = IsDialable call.number

put_token-Left :
    {V : Type 0} (put : V → Call → Call) (r : Status × Option V × Cursor) (call : Call)
    → Dialable call
    → ((v : V) → Dialable (put v call))
    → Left Dialable (put_token put r call)
unfolding put_token
put_token-Left put (code, none, cur) call q f = q
put_token-Left put (code, some v, cur) call q f = f v

set_state-Left : (cur : Cursor) (call : Call) → Dialable call → Left Dialable (set_state cur call)
unfolding set_state
set_state-Left cur call h = elim (Option-cases (clcc_state_to_ril_state call.local_state)) [
  | inl e ↦ rw (e, set_state) h
  | inr (state, e) ↦ rw (e, set_state) h
]

toa-Left : (cur : Cursor) (call : Call) → Left Dialable (read_toa cur call)
unfolding read_toa
toa-Left cur call =
    put_token-Left _ (at_tok_nextint cur) _ (keep_dialable-IsDialable call.number)
      (λ v. keep_dialable-IsDialable call.number)

-- Only a token that is found is stored.
abbrev FoundOnly : Status × Option Bytes × Cursor → Type 0
FoundOnly (failure, some v, cur) = ⊥
FoundOnly _ = Unit

named-Left :
    (t : Status × Option Bytes × Cursor) (call : Call)
    → FoundOnly t
    → Dialable call
    → Left Dialable
        (put_token (λ text c. record c { number = some text }) t call then_parse read_toa)
unfolding put_token ◌then_parse◌
named-Left (success, none, cur) call n h = toa-Left cur _
named-Left (success, some v, cur) call n h = toa-Left cur _
named-Left (failure, none, cur) call n h = h
named-Left (failure, some v, cur) call n h = absurd n

nextstr-FoundOnly : (cur : Cursor) → FoundOnly (at_tok_nextstr cur)
unfolding at_tok_nextstr next_tok
nextstr-FoundOnly none = tt
nextstr-FoundOnly (some s) = tt

number-Left : (cur : Cursor) (call : Call) → Dialable call → Left Dialable (read_number cur call)
unfolding read_number
number-Left cur call h = elim (Bool-cases (at_tok_hasmore cur)) [
  | inl e ↦ rw e (named-Left (at_tok_nextstr cur) call (nextstr-FoundOnly cur) h)
  | inr e ↦ rw e h
]

fields-Left : (cur : Cursor) (call : Call) → Dialable call → Left Dialable (clcc_fields cur call)
unfolding clcc_fields
fields-Left cur call d =
    then_parse-Left Dialable _ _
      (then_parse-Left Dialable _ read_number
        (then_parse-Left Dialable _ _
          (then_parse-Left Dialable _ _
            (then_parse-Left Dialable _ _
              (then_parse-Left Dialable _ set_state
                (then_parse-Left Dialable _ _
                  (then_parse-Left Dialable _ _
                    (put_token-Left _ (at_tok_nextint cur) call d (λ v. d))
                    (λ cur c h. put_token-Left _ _ c h (λ v. h)))
                  (λ cur c h. put_token-Left _ _ c h (λ v. h)))
                set_state-Left)
              (λ cur c h. put_token-Left _ _ c h (λ v. h)))
            (λ cur c h. h))
          (λ cur c h. put_token-Left _ _ c h (λ v. h)))
        number-Left)
      (λ cur c h. h)

pub line-Left :
    (l : Bytes) (slot : Call) → Dialable slot → Left Dialable (call_from_clcc_line (some l) slot)
unfolding call_from_clcc_line
line-Left l slot h =
    then_parse-Left Dialable _ clcc_fields (started (at_tok_start (some l))) fields-Left
  where
    started : (r : Status × Cursor) → Left Dialable (r.0, r.1, slot)
    started r = h
