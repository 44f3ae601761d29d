-- ===== src/ReferenceRil/Requests/Dispatch.antt =====
-- `onRequest` of reference-ril/reference-ril.c: the guards on the state of the radio, and the switch.
-- RIL_REQUEST_GET_SIM_STATUS, which passes the guards in every state, is not among the requests, nor
-- are those that set the preferred network type, of the cell information, the hardware and the
-- capabilities, of logical channels that are opened or used, and of the data calls that
-- `requestSetupDataCall` makes.
use platform_hardware_ril.ReferenceRil.Requests.Cdma.{
  request_cdma_base_band_version, request_cdma_get_roaming_preference,
  request_cdma_get_subscription_source, request_cdma_set_roaming_preference,
  request_cdma_set_subscription_source, request_cdma_subscription, request_device_identity,
  request_get_preferred_network_type,
}
use platform_hardware_ril.ReferenceRil.Requests.Network.{
  Domain, request_query_network_selection_mode, request_registration_state,
  request_set_network_selection_automatic, request_signal_strength,
}
use platform_hardware_ril.ReferenceRil.Requests.Operator.{request_operator}
use platform_hardware_ril.ReferenceRil.Requests.{
  Outcome, World, answer, fail, ints, lce_not_supported, no_error, nothing, on_test,
  radio_not_available, request_not_supported, sim_absent, succeed, text, unless_absent,
}
use platform_hardware_ril.ReferenceRil.SimStatus.{is_state, off, unavailable}
use platform_hardware_ril.ReferenceRil.{tech_from_modem_type}
use platform_hardware_ril.Base.Int.{negsuc, pos, ℤ}
use platform_hardware_ril.Base.{
  Bool, Bytes, List, Option, [], false, not, true, ℕ, ◌&&◌, ◌==◌, ◌^◌, ◌∷◌,
}
use platform_hardware_ril.ReferenceRil.Requests.CurrentCalls.{request_get_current_calls}
use platform_hardware_ril.ReferenceRil.Requests.DataCalls.{request_data_call_list}
use platform_hardware_ril.ReferenceRil.Requests.Calling.{
  Selection, request_answer, request_call_selection, request_dial, request_dtmf, request_hangup,
  request_separate_connection,
}
use platform_hardware_ril.ReferenceRil.Requests.Messages.{
  ImsMessage, request_cdma_send_sms, request_delete_sms_on_sim, request_ims_send_sms,
  request_send_sms, request_sms_acknowledge, request_write_sms_to_sim,
}
use platform_hardware_ril.ReferenceRil.Requests.Card.{
  SimIo, request_cancel_ussd, request_enter_sim_pin, request_exit_emergency_mode, request_get_imei,
  request_get_imsi, request_get_mute, request_get_tty_mode, request_send_ussd,
  request_sim_close_channel, request_sim_io,
}
use platform_hardware_ril.ReferenceRil.Requests.Radio.{request_radio_power, request_shutdown}

-- the request codes, with what `data` holds
pub data RilRequest : Type 0 where
  get_current_calls answer_call signal_strength operator cdma_send_sms get_imsi : RilRequest
  get_imei send_ussd cancel_ussd set_network_selection_automatic data_call_list : RilRequest
  query_network_selection_mode ims_registration_state voice_radio_tech shutdown : RilRequest
  query_tty_mode get_mute exit_emergency_callback_mode : RilRequest
  baseband_version device_identity cdma_subscription cdma_get_subscription_source : RilRequest
  cdma_query_roaming_preference get_preferred_network_type : RilRequest
  cdma_set_subscription_source : Option ℤ → RilRequest
  cdma_set_roaming_preference : ℤ → RilRequest
  dial : Bytes → ℤ → RilRequest
  hangup separate_connection radio_power sms_acknowledge delete_sms_on_sim : ℤ → RilRequest
  call_selection : Selection → RilRequest
  registration_state : Domain → RilRequest
  dtmf : ℕ → RilRequest
  send_text : Option Bytes → Bytes → RilRequest
  ims_send_sms : ImsMessage → ℕ → RilRequest
  sim_close_channel : Option ℤ → RilRequest
  sim_io_command : SimIo → RilRequest
  oem_hook_raw : Bytes → RilRequest
  write_sms_to_sim : Bytes → ℤ → RilRequest
  enter_sim_pin : List Bytes → RilRequest
  -- RIL_REQUEST_STOP_LCE, or one of the two others
  lce : Bool → RilRequest
  -- One of those that are answered with success, or a code that the switch does not name; the flag
  -- is whether it is among those that the radio need not be on for.
  ignored unsupported : Bool → RilRequest

-- the inner switch of the guard for RADIO_STATE_OFF
unfoldable pub works_when_off : RilRequest → Bool
works_when_off exit_emergency_callback_mode = true
works_when_off get_current_calls = true
works_when_off baseband_version = true
works_when_off cdma_get_subscription_source = true
works_when_off (cdma_set_roaming_preference pref) = true
works_when_off (cdma_set_subscription_source source) = true
works_when_off cdma_subscription = true
works_when_off device_identity = true
works_when_off get_preferred_network_type = true
works_when_off get_imei = true
works_when_off get_mute = true
works_when_off query_network_selection_mode = true
works_when_off query_tty_mode = true
works_when_off (radio_power n) = true
works_when_off (lce stops) = stops
works_when_off voice_radio_tech = true
works_when_off (ignored works) = works
works_when_off (unsupported works) = works
works_when_off _ = false

-- RIL_REQUEST_VOICE_RADIO_TECH
unfoldable pub answer_tech : ℤ → World → Outcome
answer_tech (pos tech) = answer no_error (ints (pos tech ∷ []))
answer_tech (negsuc tech) = fail

-- The switch; the number is TECH(sMdmInfo), and the flag the result of `hasWifiCapability`.
unfoldable pub handle : ℕ → Bool → RilRequest → World → Outcome
handle tech has_wifi get_current_calls = request_get_current_calls
handle tech has_wifi (dial address clir) = request_dial address clir
handle tech has_wifi (hangup line_index) = request_hangup line_index
handle tech has_wifi (call_selection s) = request_call_selection s
handle tech has_wifi answer_call = request_answer
handle tech has_wifi (separate_connection party) = request_separate_connection party
handle tech has_wifi signal_strength = request_signal_strength
handle tech has_wifi (registration_state d) = request_registration_state tech d
handle tech has_wifi operator = request_operator
handle tech has_wifi (radio_power on_off) = request_radio_power on_off
handle tech has_wifi (dtmf c) = request_dtmf c
handle tech has_wifi (send_text smsc pdu) = request_send_sms smsc pdu
handle tech has_wifi cdma_send_sms = request_cdma_send_sms
handle tech has_wifi (ims_send_sms m retries) = request_ims_send_sms m retries
handle tech has_wifi (sim_close_channel session_id) = request_sim_close_channel session_id
handle tech has_wifi (sms_acknowledge ack) = request_sms_acknowledge ack
handle tech has_wifi get_imsi = request_get_imsi
handle tech has_wifi get_imei = request_get_imei
handle tech has_wifi (sim_io_command a) = request_sim_io a
handle tech has_wifi send_ussd = request_send_ussd
handle tech has_wifi cancel_ussd = request_cancel_ussd
handle tech has_wifi set_network_selection_automatic = request_set_network_selection_automatic
handle tech has_wifi data_call_list = request_data_call_list has_wifi
handle tech has_wifi query_network_selection_mode = request_query_network_selection_mode
handle tech has_wifi (oem_hook_raw bytes) = answer no_error (text bytes)
handle tech has_wifi (write_sms_to_sim pdu sms_status) = request_write_sms_to_sim pdu sms_status
handle tech has_wifi (delete_sms_on_sim index) = request_delete_sms_on_sim index
handle tech has_wifi (enter_sim_pin strings) = request_enter_sim_pin strings
handle tech has_wifi ims_registration_state = answer no_error (ints (pos 0 ∷ pos 1 ∷ []))
handle tech has_wifi voice_radio_tech = answer_tech (tech_from_modem_type tech)
handle tech has_wifi shutdown = request_shutdown
handle tech has_wifi query_tty_mode = request_get_tty_mode
handle tech has_wifi get_mute = request_get_mute
handle tech has_wifi exit_emergency_callback_mode =
    on_test (λ w. 2 ^ tech == 4) request_exit_emergency_mode succeed
handle tech has_wifi baseband_version = request_cdma_base_band_version
handle tech has_wifi device_identity = request_device_identity (2 ^ tech == 4)
handle tech has_wifi cdma_subscription = request_cdma_subscription
handle tech has_wifi cdma_get_subscription_source = request_cdma_get_subscription_source
handle tech has_wifi cdma_query_roaming_preference =
    on_test (λ w. 2 ^ tech == 4) request_cdma_get_roaming_preference
      (answer request_not_supported nothing)
handle tech has_wifi get_preferred_network_type = request_get_preferred_network_type
handle tech has_wifi (cdma_set_subscription_source source) =
    on_test (λ w. 2 ^ tech == 4) (request_cdma_set_subscription_source source) succeed
handle tech has_wifi (cdma_set_roaming_preference pref) =
    on_test (λ w. 2 ^ tech == 4) (request_cdma_set_roaming_preference pref) succeed
handle tech has_wifi (lce stops) = unless_absent sim_absent (answer lce_not_supported nothing)
handle tech has_wifi (ignored works) = succeed
handle tech has_wifi (unsupported works) = answer request_not_supported nothing

unfoldable pub on_request : ℕ → Bool → RilRequest → World → Outcome
on_request tech has_wifi q =
    on_test (λ w. is_state w.radio unavailable) (answer radio_not_available nothing)
      (on_test (λ w. is_state w.radio off && not (works_when_off q))
        (answer radio_not_available nothing) (handle tech has_wifi q))
