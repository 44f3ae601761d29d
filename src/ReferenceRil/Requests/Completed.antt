-- ===== src/ReferenceRil/Requests/Completed.antt =====
-- How often `onRequest` of reference-ril/reference-ril.c completes a request.
use platform_hardware_ril.AtChannel.Command.Alone.{Alone}
use platform_hardware_ril.ReferenceRil.Requests.{unfollowed}
use platform_hardware_ril.ReferenceRil.Requests.Once.{Finishes}
use platform_hardware_ril.ReferenceRil.Requests.Once.{Completes}
use platform_hardware_ril.AtChannel.Command.Closed.{IsClosed}
use platform_hardware_ril.ReferenceRil.Requests.{Errno, Outcome, Payload, done, faults, waits}
use platform_hardware_ril.Base.{List}
use platform_hardware_ril.ReferenceRil.Requests.Dispatch.{
  RilRequest, answer_call, answer_tech, baseband_version, call_selection, cancel_ussd,
  cdma_get_subscription_source, cdma_query_roaming_preference, cdma_send_sms,
  cdma_set_roaming_preference, cdma_set_subscription_source, cdma_subscription, data_call_list,
  delete_sms_on_sim, device_identity, dial, dtmf, enter_sim_pin, exit_emergency_callback_mode,
  get_current_calls, get_imei, get_imsi, get_mute, get_preferred_network_type, handle, hangup,
  ignored, ims_registration_state, ims_send_sms, lce, oem_hook_raw, on_request, operator,
  query_network_selection_mode, query_tty_mode, radio_power, registration_state, send_text,
  send_ussd, separate_connection, set_network_selection_automatic, shutdown, signal_strength,
  sim_close_channel, sim_io_command, sms_acknowledge, unsupported, voice_radio_tech,
  write_sms_to_sim,
}
use platform_hardware_ril.ReferenceRil.Requests.Cdma.{
  base_band_version-once, cdma_subscription-once, device_identity-once,
  get_preferred_network_type-once, get_roaming_preference-once, get_subscription_source-once,
  set_roaming_preference-once, set_subscription_source-once,
}
use platform_hardware_ril.ReferenceRil.Requests.Network.{
  query_selection_mode-once, registration_state-once,
}
use platform_hardware_ril.ReferenceRil.Requests.Operator.{operator-once}
use platform_hardware_ril.ReferenceRil.Requests.{World, succeed}
use platform_hardware_ril.ReferenceRil.Requests.Once.{
  Answers, Ends, OneMore, answer-once, fail-once, succeed-once, test-once, unless_absent-once,
}
use platform_hardware_ril.Base.Int.{negsuc, pos, ℤ}
use platform_hardware_ril.Base.{Bool, false, refl, true, ℕ, ◌≡◌}
use platform_hardware_ril.ReferenceRil.Requests.CurrentCalls.{get_current_calls-once}
use platform_hardware_ril.ReferenceRil.Requests.DataCalls.{data_call_list-once}
use platform_hardware_ril.ReferenceRil.Requests.Calling.{
  answer_request-once, call_selection-once, dial-once, dtmf-once, hangup-once,
  separate_connection-once,
}
use platform_hardware_ril.ReferenceRil.Requests.Messages.{
  cdma_send_sms-once, delete_sms-once, ims_send_sms-once, send_sms_request-once, write_sms-once,
}
use platform_hardware_ril.ReferenceRil.Requests.Card.{
  cancel_ussd-once, enter_sim_pin-once, exit_emergency_mode-once, get_imei-once, get_imsi-once,
  get_mute-once, get_tty_mode-once, send_ussd-once, sim_close_channel-once, sim_io-once,
}
use platform_hardware_ril.ReferenceRil.Requests.Radio.{radio_power-once, shutdown-once}

-- the requests that are answered once: not SIGNAL_STRENGTH, SMS_ACKNOWLEDGE and
-- SET_NETWORK_SELECTION_AUTOMATIC
unfoldable pub is_answered_once : RilRequest → Bool
is_answered_once signal_strength = false
is_answered_once (sms_acknowledge ack) = false
is_answered_once set_network_selection_automatic = false
is_answered_once _ = true

-- the requests that ask for the state of the SIM, or that parse an operator, a registration or a CDMA
-- subscription source
unfoldable pub may_fault : RilRequest → Bool
may_fault (hangup line_index) = true
may_fault (call_selection s) = true
may_fault answer_call = true
may_fault (separate_connection party) = true
may_fault (registration_state d) = true
may_fault operator = true
may_fault (send_text smsc pdu) = true
may_fault cdma_send_sms = true
may_fault (ims_send_sms m retries) = true
may_fault cancel_ussd = true
may_fault (write_sms_to_sim pdu sms_status) = true
may_fault query_tty_mode = true
may_fault (lce stops) = true
may_fault cdma_get_subscription_source = true
may_fault _ = false

answer_tech-once : (b : Bool) (tech : ℤ) → Answers b (answer_tech tech)
unfolding answer_tech
answer_tech-once b (pos tech) = answer-once b _ _
answer_tech-once b (negsuc tech) = fail-once b

handle-once :
    (tech : ℕ) (has_wifi : Bool) (q : RilRequest)
    → is_answered_once q ≡ true
    → Answers (may_fault q) (handle tech has_wifi q)
unfolding is_answered_once may_fault handle
handle-once tech has_wifi get_current_calls h = get_current_calls-once false
handle-once tech has_wifi (dial address clir) h = dial-once false address clir
handle-once tech has_wifi (hangup line_index) h = hangup-once line_index
handle-once tech has_wifi (call_selection s) h = call_selection-once s
handle-once tech has_wifi answer_call h = answer_request-once
handle-once tech has_wifi (separate_connection party) h = separate_connection-once party
handle-once tech has_wifi signal_strength h = cc
handle-once tech has_wifi (registration_state d) h = registration_state-once tech d
handle-once tech has_wifi operator h = operator-once
handle-once tech has_wifi (radio_power on_off) h = radio_power-once false on_off
handle-once tech has_wifi (dtmf c) h = dtmf-once false c
handle-once tech has_wifi (send_text smsc pdu) h = send_sms_request-once smsc pdu
handle-once tech has_wifi cdma_send_sms h = cdma_send_sms-once
handle-once tech has_wifi (ims_send_sms m retries) h = ims_send_sms-once m retries
handle-once tech has_wifi (sim_close_channel s) h = sim_close_channel-once false s
handle-once tech has_wifi (sms_acknowledge ack) h = cc
handle-once tech has_wifi get_imsi h = get_imsi-once false
handle-once tech has_wifi get_imei h = get_imei-once false
handle-once tech has_wifi (sim_io_command a) h = sim_io-once false a
handle-once tech has_wifi send_ussd h = send_ussd-once false
handle-once tech has_wifi cancel_ussd h = cancel_ussd-once
handle-once tech has_wifi set_network_selection_automatic h = cc
handle-once tech has_wifi data_call_list h = data_call_list-once false has_wifi
handle-once tech has_wifi query_network_selection_mode h = query_selection_mode-once false
handle-once tech has_wifi (oem_hook_raw bytes) h = answer-once false _ _
handle-once tech has_wifi (write_sms_to_sim pdu sms_status) h = write_sms-once pdu sms_status
handle-once tech has_wifi (delete_sms_on_sim index) h = delete_sms-once false index
handle-once tech has_wifi (enter_sim_pin strings) h = enter_sim_pin-once false strings
handle-once tech has_wifi ims_registration_state h = answer-once false _ _
handle-once tech has_wifi voice_radio_tech h = answer_tech-once false _
handle-once tech has_wifi shutdown h = shutdown-once false
handle-once tech has_wifi query_tty_mode h = get_tty_mode-once
handle-once tech has_wifi get_mute h = get_mute-once false
handle-once tech has_wifi exit_emergency_callback_mode h =
    test-once false _ _ succeed (exit_emergency_mode-once false) (succeed-once false)
handle-once tech has_wifi baseband_version h = base_band_version-once false
handle-once tech has_wifi device_identity h = device_identity-once false _
handle-once tech has_wifi cdma_subscription h = cdma_subscription-once false
handle-once tech has_wifi cdma_get_subscription_source h = get_subscription_source-once
handle-once tech has_wifi cdma_query_roaming_preference h =
    test-once false _ _ _ (get_roaming_preference-once false) (answer-once false _ _)
handle-once tech has_wifi get_preferred_network_type h = get_preferred_network_type-once false
handle-once tech has_wifi (cdma_set_subscription_source source) h =
    test-once false _ _ succeed (set_subscription_source-once false source) (succeed-once false)
handle-once tech has_wifi (cdma_set_roaming_preference pref) h =
    test-once false _ _ succeed (set_roaming_preference-once false pref) (succeed-once false)
handle-once tech has_wifi (lce stops) h = unless_absent-once _ _ (answer-once true _ _)
handle-once tech has_wifi (ignored works) h = succeed-once false
handle-once tech has_wifi (unsupported works) h = answer-once false _ _

guards-once :
    (tech : ℕ) (has_wifi : Bool) (q : RilRequest)
    → is_answered_once q ≡ true
    → Answers (may_fault q) (on_request tech has_wifi q)
unfolding on_request
guards-once tech has_wifi q h =
    test-once _ _ _ _ (answer-once _ _ _)
      (test-once _ _ _ _ (answer-once _ _ _) (handle-once tech has_wifi q h))

Completes-Ends :
    (b : Bool) (old : List (Errno × Payload)) (o : Outcome)
    → Completes b false old o
    → Ends b (OneMore old) o
Completes-Ends b old waits h = tt
Completes-Ends b old unfollowed h = tt
Completes-Ends true old faults h = tt
Completes-Ends false old faults h = h
Completes-Ends true old (done w) h = h
Completes-Ends false old (done w) h = h

-- Whatever the modem sends and whatever else happens on the channel but a command of another thread,
-- `onRequest` of a request other than SIGNAL_STRENGTH, SMS_ACKNOWLEDGE and
-- SET_NETWORK_SELECTION_AUTOMATIC completes it exactly once where it returns; and of one that does not
-- ask for the state of the SIM, the registration, the operator or the CDMA subscription source,
-- neither the handler nor a command that it sends reads through NULL, reads a variable that is not
-- set, or stores outside of an array.
pub on_request-once :
    (tech : ℕ) (has_wifi : Bool) (q : RilRequest) (w : World)
    → is_answered_once q ≡ true
    → Alone w.to_come
    → Ends (may_fault q) (OneMore w.answers) (on_request tech has_wifi q w)
on_request-once tech has_wifi q w h alone =
    Completes-Ends (may_fault q) w.answers _
      (guards-once tech has_wifi q h false w.answers w (refl, λ e. cc, alone))

Completes-Finishes :
    (b : Bool) (old : List (Errno × Payload)) (o : Outcome)
    → Completes b true old o
    → Finishes (OneMore old) o
Completes-Finishes b old waits h = cc
Completes-Finishes b old unfollowed h = h
Completes-Finishes true old faults h = cc
Completes-Finishes false old faults h = h
Completes-Finishes true old (done w) h = h
Completes-Finishes false old (done w) h = h

-- Once the AT channel is closed, by `at_close` or by the end of its reader thread, and with no command
-- of another thread on it, `onRequest` of every request other than SIGNAL_STRENGTH, SMS_ACKNOWLEDGE and
-- SET_NETWORK_SELECTION_AUTOMATIC returns, without a fault and without waiting for the modem, and has
-- completed the request exactly once.
pub on_request-Finishes :
    (tech : ℕ) (has_wifi : Bool) (q : RilRequest) (w : World)
    → is_answered_once q ≡ true
    → IsClosed w.channel
    → Alone w.to_come
    → Finishes (OneMore w.answers) (on_request tech has_wifi q w)
on_request-Finishes tech has_wifi q w h shut alone =
    Completes-Finishes (may_fault q) w.answers _
      (guards-once tech has_wifi q h true w.answers w (refl, λ e. shut, alone))
