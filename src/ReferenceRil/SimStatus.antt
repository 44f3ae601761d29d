-- ===== src/ReferenceRil/SimStatus.antt =====
-- `getSIMStatus` and `setRadioState` of reference-ril/reference-ril.c.
pub mod Refused
use platform_hardware_ril.Base.{All, map, ◌++◌}
use platform_hardware_ril.AtTok.{at_tok_nextint, at_tok_nextint_base, convert, store_int}
use platform_hardware_ril.AtChannel.Command.{cme_number, cme_of_line, cme_of_start, line, wakes}
use platform_hardware_ril.AtChannel.Command.Sorting.{IsOrdinary}
use platform_hardware_ril.AtChannel.Command.Refused.{Sends, Unrelated, singleline-refused}
use platform_hardware_ril.AtChannel.Write.{Device}
use platform_hardware_ril.AtChannel.Lines.{
  is_final_response_error, is_final_response_success, str_starts_with,
}
use platform_hardware_ril.Libc.{
  digit_value, int_of_bits, int_of_long, is_digit, scan_digits, scan_number, scan_sign, skip_prefix,
  skip_spaces, strtol,
}
use platform_hardware_ril.Base.{
  Bool-cases, Option-cases, Bool, true, false, not, ◌||◌, ◌≡◌, ◌≢◌, ◌⊎◌, inl, inr, refl, Option,
  none, some, List, [], ◌∷◌, Bytes, codes, ◌==◌, if◌then◌else◌,
}
use platform_hardware_ril.Base.Int.{ℤ, pos, negsuc}
use platform_hardware_ril.Libc.{str_equal, strchr}
use platform_hardware_ril.AtTok.{
  Status, success, failure, Cursor, at_tok_start, at_tok_nextstr, next_tok,
}
use platform_hardware_ril.AtChannel.Reader.{Channel, Response}
use platform_hardware_ril.AtChannel.Write.{Code, ok}
use platform_hardware_ril.AtChannel.Command.{
  Run, returns, and_then, Event, Reply, at_send_command_singleline, at_get_cme_error,
}
use platform_hardware_ril.AtChannel.Command.Clean.{
  Returned, HasIntermediate, singleline-HasIntermediate,
}

-- RIL_RadioState
pub data RadioState : Type 0 where
  off unavailable on : RadioState

-- SIM_Status, as far as the function returns it
pub data SimStatus : Type 0 where
  absent not_ready ready pin puk network_personalization : SimStatus

-- what the function does: a status, or a read through `p_intermediates` or `p_response` that is NULL
pub data Answer : Type 0 where
  status : SimStatus → Answer
  null_read : Answer

-- the tests on `cpinResult`; the flag is `sState == RADIO_STATE_ON`
unfoldable pub sim_of_word : Bool → Bytes → SimStatus
sim_of_word is_on word =
    if str_equal word (codes "SIM PIN")
    then pin
    else if str_equal word (codes "SIM PUK")
    then puk
    else if str_equal word (codes "PH-NET PIN")
    then network_personalization
    else if not (str_equal word (codes "READY"))
    then absent
    else if is_on
    then ready
    else not_ready

unfoldable pub sim_of_token : Bool → Status × Option Bytes × Cursor → Answer
sim_of_token is_on (success, some word, cur) = status (sim_of_word is_on word)
sim_of_token is_on (success, none, cur) = null_read
sim_of_token is_on (failure, token, cur) = status not_ready

unfoldable pub sim_of_start : Bool → Status × Cursor → Answer
sim_of_start is_on (success, cur) = sim_of_token is_on (at_tok_nextstr cur)
sim_of_start is_on (failure, cur) = status not_ready

-- "CPIN? has succeeded, now look at the result"
unfoldable pub sim_of_lines : Bool → List Bytes → Answer
sim_of_lines is_on [] = null_read
sim_of_lines is_on (l ∷ ls) = sim_of_start is_on (at_tok_start (some l))

-- the switch on `at_get_cme_error`: CME_SUCCESS is 0 and CME_SIM_NOT_INSERTED is 10
unfoldable pub sim_of_error : Bool → ℤ → List Bytes → Answer
sim_of_error is_on (pos n) lines =
    if n == 0 then sim_of_lines is_on lines else status (if n == 10 then absent else not_ready)
sim_of_error is_on (negsuc n) lines = status not_ready

unfoldable pub sim_of_reply : Bool → Code → Option Response → Answer
sim_of_reply is_on ok none = null_read
sim_of_reply is_on ok (some r) = sim_of_error is_on (at_get_cme_error r) r.intermediates
sim_of_reply is_on _ out = status not_ready

unfoldable pub get_sim_status : Bool → Bool → List Event → Channel → Run Answer
get_sim_status is_on on_reader events c =
    and_then
      (at_send_command_singleline on_reader (codes "AT+CPIN?") (codes "+CPIN:") true events c)
      (λ r. returns (sim_of_reply is_on r.code r.out))

-- what `setRadioState` sends or calls
pub data Notice : Type 0 where
  radio_state_changed sim_status_changed radio_power_on : Notice

unfoldable pub is_state : RadioState → RadioState → Bool
is_state off off = true
is_state unavailable unavailable = true
is_state on on = true
is_state _ _ = false

unfoldable pub notices : RadioState → RadioState → List Notice
notices old new =
    if is_state old new
    then []
    else radio_state_changed
      ∷ sim_status_changed
      ∷ (if is_state new on then radio_power_on ∷ [] else [])

-- The flag is `s_closed > 0`; the result is `sState` and what is sent, where no other thread changes
-- the state between the unlock and the notices.
unfoldable pub set_radio_state : Bool → RadioState → RadioState → RadioState × List Notice
set_radio_state closed old requested =
    let new = if closed then unavailable else requested in
    let state = if not (is_state old new) || closed then new else old in (state, notices old state)

-- A status, or a response that reports no success although its error code is that of success.
abbrev pub Reads : Option Response → Answer → Type 0
Reads out (status s) = Unit
Reads none null_read = Unit
Reads (some r) null_read = r.success ≡ false

abbrev IsStatus : Answer → Type 0
IsStatus (status s) = Unit
IsStatus null_read = ⊥

token-IsStatus :
    (is_on : Bool) (s : Bytes) → IsStatus (sim_of_token is_on (at_tok_nextstr (some s)))
unfolding at_tok_nextstr next_tok sim_of_token
token-IsStatus is_on s = tt

start-IsStatus : (is_on : Bool) (s : Bytes) → IsStatus (sim_of_start is_on (at_tok_start (some s)))
unfolding at_tok_start sim_of_start
start-IsStatus is_on s = elim (Option-cases (strchr b':' s)) [
  | inl e ↦ rw (e, at_tok_start) tt
  | inr ([], e) ↦ rw (e, at_tok_start) (token-IsStatus is_on [])
  | inr (c ∷ rest, e) ↦ rw (e, at_tok_start) (token-IsStatus is_on rest)
]

Reads-status : (out : Option Response) (a : Answer) → IsStatus a → Reads out a
Reads-status out (status s) h = tt
Reads-status out null_read h = absurd h

lines-Reads :
    (is_on : Bool) (r : Response)
    → (r.success ≡ false) ⊎ (r.intermediates ≢ [])
    → Reads (some r) (sim_of_lines is_on r.intermediates)
unfolding sim_of_lines
lines-Reads is_on r h = go r.intermediates refl
  where
    go : (ls : List Bytes) → r.intermediates ≡ ls → Reads (some r) (sim_of_lines is_on ls)
    go [] e = elim h [ inl f ↦ f | inr f ↦ absurd (f e) ]
    go (l ∷ ls) e = Reads-status (some r) _ (start-IsStatus is_on l)

error-Reads :
    (is_on : Bool) (r : Response) (n : ℤ)
    → (r.success ≡ false) ⊎ (r.intermediates ≢ [])
    → Reads (some r) (sim_of_error is_on n r.intermediates)
unfolding sim_of_error
error-Reads is_on r (pos n) h = elim (Bool-cases (n == 0)) [
  | inl e ↦ rw e (lines-Reads is_on r h)
  | inr e ↦ rw e tt
]
error-Reads is_on r (negsuc n) h = tt

reply-Reads :
    (is_on : Bool) (code : Code) (out : Option Response)
    → HasIntermediate code out
    → Reads out (sim_of_reply is_on code out)
unfolding sim_of_reply
reply-Reads is_on ok none h = tt
reply-Reads is_on ok (some r) h = error-Reads is_on r (at_get_cme_error r) h
reply-Reads is_on _ out h = tt

-- Whatever the modem answers to AT+CPIN?, `getSIMStatus` reads through a pointer that is NULL at
-- most where there is no response, or one that reports no success.
pub get_sim_status-Reads :
    (is_on on_reader : Bool) (events : List Event) (c : Channel)
    → Returned
        (λ r. Reads r.out (sim_of_reply is_on r.code r.out))
        (at_send_command_singleline on_reader (codes "AT+CPIN?") (codes "+CPIN:") true events c)
get_sim_status-Reads is_on on_reader events c =
    weaken (at_send_command_singleline on_reader (codes "AT+CPIN?") (codes "+CPIN:") true events c)
      (singleline-HasIntermediate on_reader (codes "AT+CPIN?") (codes "+CPIN:") true events c)
  where
    weaken :
        (m : Run Reply)
        → Returned (λ r. HasIntermediate r.code r.out) m
        → Returned (λ r. Reads r.out (sim_of_reply is_on r.code r.out)) m
    weaken (returns r) h = reply-Reads is_on r.code r.out h
    weaken _ h = tt

-- What is sent is told by the state before and the state behind.
abbrev pub IsTold : RadioState → RadioState × List Notice → Type 0
IsTold old (new, sent) =
    ((new ≡ old) × (sent ≡ []))
    ⊎ ((new ≢ old)
        × (((new ≢ on) × (sent ≡ radio_state_changed ∷ sim_status_changed ∷ []))
            ⊎ ((new ≡ on)
                × (sent ≡ radio_state_changed ∷ sim_status_changed ∷ radio_power_on ∷ []))))

notices-IsTold : (old new : RadioState) → IsTold old (new, notices old new)
unfolding is_state notices
notices-IsTold off off = inl (refl, refl)
notices-IsTold unavailable unavailable = inl (refl, refl)
notices-IsTold on on = inl (refl, refl)
notices-IsTold off unavailable = inr (λ e. cc, inl (λ e. cc, refl))
notices-IsTold on unavailable = inr (λ e. cc, inl (λ e. cc, refl))
notices-IsTold on off = inr (λ e. cc, inl (λ e. cc, refl))
notices-IsTold unavailable off = inr (λ e. cc, inl (λ e. cc, refl))
notices-IsTold off on = inr (λ e. cc, inr (refl, refl))
notices-IsTold unavailable on = inr (λ e. cc, inr (refl, refl))

-- The state behind is the one asked for, or unavailable once the channel is closed.
set_radio_state-state :
    (closed : Bool) (old requested : RadioState)
    → (set_radio_state closed old requested).0 ≡ (if closed then unavailable else requested)
unfolding set_radio_state is_state
set_radio_state-state true off requested = refl
set_radio_state-state true unavailable requested = refl
set_radio_state-state true on requested = refl
set_radio_state-state false off off = refl
set_radio_state-state false off unavailable = refl
set_radio_state-state false off on = refl
set_radio_state-state false unavailable off = refl
set_radio_state-state false unavailable unavailable = refl
set_radio_state-state false unavailable on = refl
set_radio_state-state false on off = refl
set_radio_state-state false on unavailable = refl
set_radio_state-state false on on = refl

-- `setRadioState` leaves the state that is asked for, or the state unavailable once the channel is
-- closed; it sends nothing where the state stays, and both notices where it changes, with
-- `onRadioPowerOn` called exactly where the new state is on.
pub set_radio_state-IsTold :
    (closed : Bool) (old requested : RadioState)
    → IsTold old (set_radio_state closed old requested)
      × ((set_radio_state closed old requested).0 ≡ (if closed then unavailable else requested))
unfolding set_radio_state
set_radio_state-IsTold closed old requested =
    (notices-IsTold old _, set_radio_state-state closed old requested)
