-- ===== src/ReferenceRil.antt =====
-- Parsers of AT response lines in reference-ril/reference-ril.c, on the tokenizer of at_tok.c, and
-- its tables of radio technologies.
pub mod Registration
pub mod Calls
pub mod SimStatus
pub mod Requests
pub mod Unsolicited
use platform_hardware_ril.Base.{
  ℕ, ◌^◌, Bool, true, false, not, ◌||◌, ◌&&◌, Option, none, some, [], ◌∷◌, Bytes, codes, ◌==◌,
  if◌then◌else◌,
}
use platform_hardware_ril.Base.Int.{ℤ, pos, negsuc}
use platform_hardware_ril.AtTok.{
  Status, success, failure, Cursor, at_tok_start, at_tok_nextint, at_tok_nexthexint,
  at_tok_nextbool, at_tok_nextstr, at_tok_hasmore,
}

-- `is3gpp2`; the numbers are those of RIL_RadioTechnology in include/telephony/ril.h
unfoldable pub is_3gpp2 : ℕ → Bool
is_3gpp2 tech =
    tech == 4 || tech == 5 || tech == 6 || tech == 7 || tech == 8 || tech == 12 || tech == 13

-- the switch of `techFromModemType` on a bit: MDM_CDMA, MDM_EVDO, MDM_GSM, MDM_WCDMA or MDM_LTE
unfoldable pub tech_of_bit : ℕ → ℤ
tech_of_bit bit =
    if bit == 4
    then pos 6
    else if bit == 8
    then pos 8
    else if bit == 1
    then pos 1
    else if bit == 2
    then pos 11
    else if bit == 16
    then pos 14
    else negsuc 0

-- for a shift below the width of `int`
unfoldable pub tech_from_modem_type : ℕ → ℤ
tech_from_modem_type mdmtype = tech_of_bit (2 ^ mdmtype)

-- `err = at_tok_...(&line, &x); if (err < 0) goto error;`: what is stored goes through `put`, also
-- where the call fails behind the store.
unfoldable pub put_token {ℓ κ} :
    {V : Type ℓ} {A : Type κ} → (V → A → A) → Status × Option V × Cursor → A → Status × Cursor × A
put_token put (status, none, cur) a = (status, cur, a)
put_token put (status, some v, cur) a = (status, cur, put v a)

-- The next step of a parser, if there was no error.
infixl 30 ◌then_parse◌
unfoldable pub ◌then_parse◌ {ℓ} :
    {A : Type ℓ} → Status × Cursor × A → (Cursor → A → Status × Cursor × A) → Status × Cursor × A
(success, cur, a) then_parse step = step cur a
(failure, cur, a) then_parse step = (failure, cur, a)

-- RIL_CallState
pub data CallState : Type 0 where
  active holding dialing alerting incoming waiting : CallState

unfoldable pub clcc_state_to_ril_state : ℤ → Option CallState
clcc_state_to_ril_state (pos n) =
    if n == 0
    then some active
    else if n == 1
    then some holding
    else if n == 2
    then some dialing
    else if n == 3
    then some alerting
    else if n == 4
    then some incoming
    else if n == 5
    then some waiting
    else none
clcc_state_to_ril_state (negsuc n) = none

-- The fields of RIL_Call that the parser stores, with its two local variables; `has_uus_info` is `uusInfo != NULL`.
pub record Call : Type 0 where
  pub index : ℤ
  pub is_mt : ℤ
  pub state : CallState
  pub is_voice : Bool
  pub is_mpty : ℤ
  pub number : Option Bytes
  pub toa : ℤ
  pub has_uus_info : Bool
  pub local_state : ℤ
  pub local_mode : ℤ

-- a byte of "+0123456789"
abbrev pub is_dialable : ℕ → Bool
is_dialable c =
    c == b'+'
    || c == b'0'
    || c == b'1'
    || c == b'2'
    || c == b'3'
    || c == b'4'
    || c == b'5'
    || c == b'6'
    || c == b'7'
    || c == b'8'
    || c == b'9'

-- `0 != strspn(number, "+0123456789")`
unfoldable pub starts_dialable : Bytes → Bool
starts_dialable [] = false
starts_dialable (c ∷ cs) = is_dialable c

unfoldable pub keep_dialable : Option Bytes → Option Bytes
keep_dialable none = none
keep_dialable (some number) = if starts_dialable number then some number else none

unfoldable pub set_state : Cursor → Call → Status × Cursor × Call
set_state cur call = elim (clcc_state_to_ril_state call.local_state) [
  | none ↦ (failure, cur, call)
  | some state ↦ (success, cur, record call { state = state })
]

-- inside `if (at_tok_hasmore(&line))`, behind the call of `at_tok_nextstr`, which succeeds there
unfoldable pub read_toa : Cursor → Call → Status × Cursor × Call
read_toa cur call =
    put_token (λ n c. record c { toa = n }) (at_tok_nextint cur)
      (record call { number = keep_dialable call.number })

unfoldable pub read_number : Cursor → Call → Status × Cursor × Call
read_number cur call =
    if at_tok_hasmore cur
    then put_token (λ text c. record c { number = some text }) (at_tok_nextstr cur) call
      then_parse read_toa
    else (success, cur, call)

unfoldable pub clcc_fields : Cursor → Call → Status × Cursor × Call
clcc_fields cur call =
    put_token (λ n c. record c { index = n }) (at_tok_nextint cur) call
    then_parse (λ cur. put_token (λ n c. record c { is_mt = n }) (at_tok_nextbool cur))
    then_parse (λ cur. put_token (λ n c. record c { local_state = n }) (at_tok_nextint cur))
    then_parse set_state
    then_parse (λ cur. put_token (λ n c. record c { local_mode = n }) (at_tok_nextint cur))
    then_parse (λ cur call. (success, cur, record call { is_voice = is_zero call.local_mode }))
    then_parse (λ cur. put_token (λ n c. record c { is_mpty = n }) (at_tok_nextbool cur))
    then_parse read_number
    then_parse (λ cur call. (success, cur, record call { has_uus_info = false }))
  where
    is_zero : ℤ → Bool
    is_zero (pos n) = n == 0
    is_zero (negsuc n) = false

unfoldable pub call_from_clcc_line : Cursor → Call → Status × Cursor × Call
call_from_clcc_line line call =
    let (status, cur) = at_tok_start line in (status, cur, call) then_parse clcc_fields

pub record SimResponse : Type 0 where
  pub sw1 : ℤ
  pub sw2 : ℤ
  pub sim_response : Option Bytes

unfoldable pub read_sim_text : Cursor → SimResponse → Status × Cursor × SimResponse
read_sim_text cur r =
    if at_tok_hasmore cur
    then put_token (λ text q. record q { sim_response = some text }) (at_tok_nextstr cur) r
    else (success, cur, r)

unfoldable pub parse_sim_response_line : Cursor → SimResponse → Status × Cursor × SimResponse
parse_sim_response_line line r =
    let (status, cur) = at_tok_start line in
    (status, cur, r)
    then_parse (λ cur. put_token (λ n q. record q { sw1 = n }) (at_tok_nextint cur))
    then_parse (λ cur. put_token (λ n q. record q { sw2 = n }) (at_tok_nextint cur))
    then_parse read_sim_text

-- What `parse_technology_response` returns and stores: -1, 1 with the current technology, or 0 with
-- the preferred mode as well.
pub data Technology : Type 0 where
  not_understood : Technology
  current_only : ℤ → Technology
  both : ℤ → ℤ → Technology

unfoldable pub with_preferred : ℤ → Status × Option ℤ × Cursor → Technology
with_preferred current (success, some preferred, cur) = both current preferred
with_preferred current _ = current_only current

unfoldable pub with_current : Status × Option ℤ × Cursor → Technology
with_current (success, some current, cur) = with_preferred current (at_tok_nexthexint cur)
with_current _ = not_understood

unfoldable pub behind_start : Status × Cursor → Technology
behind_start (failure, cur) = not_understood
behind_start (success, cur) =
    if at_tok_hasmore cur then with_current (at_tok_nextint cur) else not_understood

unfoldable pub parse_technology_response : Bytes → Technology
parse_technology_response response = behind_start (at_tok_start (some response))
