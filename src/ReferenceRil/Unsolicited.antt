-- ===== src/ReferenceRil/Unsolicited.antt =====
-- `onUnsolicited` of reference-ril/reference-ril.c, which the reader thread of the AT channel calls with
-- an unsolicited line, and `setRadioTechnology`. strdup finds memory.
pub mod Passed
pub mod Safe
use platform_hardware_ril.ReferenceRil.SimStatus.{
  Notice, RadioState, is_state, notices, off, set_radio_state, unavailable,
}
use platform_hardware_ril.ReferenceRil.{
  Technology, both, current_only, not_understood, parse_technology_response, tech_from_modem_type,
}
use platform_hardware_ril.ReferenceRil.Requests.Network.{first_int}
use platform_hardware_ril.ReferenceRil.Requests.Radio.{radio_flag}
use platform_hardware_ril.ReferenceRil.Requests.CurrentCalls.{int_equal}
use platform_hardware_ril.AtChannel.Lines.{str_starts_with}
use platform_hardware_ril.AtTok.{Cursor, Status, at_tok_nextstr, at_tok_start, failure, success}
use platform_hardware_ril.Base.Int.{negsuc, pos, ℤ}
use platform_hardware_ril.Base.{
  Bool, Bytes, List, Option, [], codes, if◌then◌else◌, ltb, none, some, suc, ℕ, ◌++◌, ◌==◌, ◌||◌,
  ◌∷◌,
}

-- what RIL_onUnsolicitedResponse is called with
pub data Sent : Type 0 where
  nitz_time_received new_sms new_sms_status_report : Bytes → Sent
  call_state_changed voice_network_state_changed : Sent
  enter_emergency_callback_mode exit_emergency_callback_mode : Sent
  cdma_subscription_source_changed cdma_prl_changed voice_radio_tech_changed : ℤ → Sent

-- `sState`, `s_closed > 0`, the notices of `setRadioState`, TECH(sMdmInfo), SSOURCE(sMdmInfo), what is
-- sent, and the timed callbacks of `onDataCallListChanged`.
pub record Modem : Type 0 where
  pub radio : RadioState
  pub closed : Bool
  pub notices : List Notice
  pub tech : ℕ
  pub source : ℤ
  pub sent : List Sent
  pub list_callbacks : ℕ

-- What the function does: it returns, it takes the length of NULL, or it shifts by a count that is no
-- count of bits of an `int`.
pub data Handled : Type 0 where
  handled : Modem → Handled
  null_length bad_shift : Handled

unfoldable pub tell : Sent → Modem → Modem
tell message m = record m { sent = m.sent ++ message ∷ [] }

-- `RIL_requestTimedCallback (onDataCallListChanged, NULL, NULL)`
unfoldable pub call_list_later : Modem → Modem
call_list_later m = record m { list_callbacks = suc m.list_callbacks }

unfoldable pub tell_tech : ℤ → Modem → Modem
tell_tech (pos n) m = if n == 0 then m else tell (voice_radio_tech_changed (pos n)) m
tell_tech (negsuc n) m = m

unfoldable pub set_radio_technology : ℕ → Modem → Modem
set_radio_technology new_tech m =
    let changed = record m { tech = new_tech } in
    if new_tech == m.tech
    then m
    else if int_equal (tech_from_modem_type new_tech) (tech_from_modem_type m.tech)
    then changed
    else tell_tech (tech_from_modem_type new_tech) changed

-- `mask = 1 << tech` and the tests on it: MDM_GSM, MDM_CDMA, MDM_WCDMA or MDM_LTE
unfoldable pub set_known_tech : ℤ → Modem → Handled
set_known_tech (pos n) m =
    if ltb n 31
    then (if n == 0 || n == 1 || n == 2 || n == 4
        then handled (set_radio_technology n m)
        else handled m)
    else bad_shift
set_known_tech (negsuc n) m = bad_shift

unfoldable pub set_parsed_tech : Technology → Modem → Handled
set_parsed_tech not_understood m = handled m
set_parsed_tech (current_only tech) m = set_known_tech tech m
set_parsed_tech (both tech preferred) m = set_known_tech tech m

-- behind "%CTZV:"
unfoldable pub tell_time : Status × Option Bytes × Cursor → Modem → Handled
tell_time (success, some response, cur) m = handled (tell (nitz_time_received response) m)
tell_time _ m = handled m

-- `strlen(sms_pdu)` and what is sent
unfoldable pub tell_pdu : (Bytes → Sent) → Option Bytes → Modem → Handled
tell_pdu message none m = null_length
tell_pdu message (some pdu) m = handled (tell (message pdu) m)

unfoldable pub set_source : Status × Cursor × ℤ → Modem → Handled
set_source (success, cur, source) m =
    handled (tell (cdma_subscription_source_changed source) (record m { source = source }))
set_source (failure, cur, source) m = handled m

unfoldable pub tell_emergency : Status × Cursor × ℤ → Modem → Handled
tell_emergency (success, cur, state) m = handled (
    tell
      (if int_equal state (pos 0)
        then exit_emergency_callback_mode
        else enter_emergency_callback_mode)
      m)
tell_emergency (failure, cur, state) m = handled m

unfoldable pub tell_prl : Status × Cursor × ℤ → Modem → Handled
tell_prl (success, cur, version) m = handled (tell (cdma_prl_changed version) m)
tell_prl (failure, cur, version) m = handled m

unfoldable pub modem_off : Modem → Modem
modem_off m =
    let (radio, sent) = set_radio_state m.closed m.radio off in
    record m { radio = radio; notices = m.notices ++ sent }

unfoldable pub starts_call : Bytes → Bool
starts_call s =
    str_starts_with s (codes "+CRING:")
    || str_starts_with s (codes "RING")
    || str_starts_with s (codes "NO CARRIER")
    || str_starts_with s (codes "+CCWA")

unfoldable pub starts_registration : Bytes → Bool
starts_registration s = str_starts_with s (codes "+CREG:") || str_starts_with s (codes "+CGREG:")

-- the chain behind "+CDS:"
unfoldable pub on_other : Bytes → Modem → Handled
on_other s m =
    if str_starts_with s (codes "+CGEV:")
    then handled (call_list_later m)
    else if str_starts_with s (codes "+CME ERROR: 150")
    then handled (call_list_later m)
    else if str_starts_with s (codes "+CTEC: ")
    then set_parsed_tech (parse_technology_response s) m
    else if str_starts_with s (codes "+CCSS: ")
    then set_source (first_int s) m
    else if str_starts_with s (codes "+WSOS: ")
    then tell_emergency (radio_flag s) m
    else if str_starts_with s (codes "+WPRL: ")
    then tell_prl (first_int s) m
    else if str_starts_with s (codes "+CFUN: 0")
    then handled (modem_off m)
    else handled m

-- the whole chain
unfoldable pub on_line : Bytes → Option Bytes → Modem → Handled
on_line s pdu m =
    if str_starts_with s (codes "%CTZV:")
    then tell_time (at_tok_nextstr (at_tok_start (some s)).1) m
    else if starts_call s
    then handled (call_list_later (tell call_state_changed m))
    else if starts_registration s
    then handled (call_list_later (tell voice_network_state_changed m))
    else if str_starts_with s (codes "+CMT:")
    then tell_pdu new_sms pdu m
    else if str_starts_with s (codes "+CDS:")
    then tell_pdu new_sms_status_report pdu m
    else on_other s m

unfoldable pub on_unsolicited : Bytes → Option Bytes → Modem → Handled
on_unsolicited s pdu m = if is_state m.radio unavailable then handled m else on_line s pdu m

unfoldable pub and_then : (Modem → Handled) → Handled → Handled
and_then k (handled m) = k m
and_then k null_length = null_length
and_then k bad_shift = bad_shift

-- the calls of the handler in their order
unfoldable pub on_all : List (Bytes × Option Bytes) → Modem → Handled
on_all [] m = handled m
on_all ((s, pdu) ∷ calls) m = and_then (on_all calls) (on_unsolicited s pdu m)
