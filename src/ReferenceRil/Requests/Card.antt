-- ===== src/ReferenceRil/Requests/Card.antt =====
-- The SIM requests of reference-ril/reference-ril.c that read a line of the modem, and those of the
-- device.
use platform_hardware_ril.Base.{false}
use platform_hardware_ril.ReferenceRil.Requests.{
  Continue, Outcome, World, answer, answer_parsed, ask_sim, fail, ints, no_error, nothing,
  on_success, password_incorrect, radio_not_available, request_not_supported, send, send_numeric,
  send_singleline, sim_io, succeed, text, unless_absent, with_line,
}
use platform_hardware_ril.ReferenceRil.Requests.Once.{
  Answers, Continues, answer-once, answer_parsed-once, ask_sim-once, fail-once, on_line-once,
  on_success-once, send-once, send_numeric-once, send_singleline-once, succeed-once,
  unless_absent-once,
}
use platform_hardware_ril.AtChannel.Command.Out.{IsUsable}
use platform_hardware_ril.ReferenceRil.SimStatus.{SimStatus, ready}
use platform_hardware_ril.ReferenceRil.{SimResponse, parse_sim_response_line}
use platform_hardware_ril.AtChannel.Reader.{Response}
use platform_hardware_ril.AtChannel.Write.{ok}
use platform_hardware_ril.Libc.{print_int}
use platform_hardware_ril.Base.Int.{pos, ℤ}
use platform_hardware_ril.Base.{Bool, Bytes, List, Option, [], codes, none, some, true, ◌++◌, ◌∷◌}

abbrev no_sim_response : SimResponse
no_sim_response = record { sw1 = pos 0; sw2 = pos 0; sim_response = none }

-- RIL_SIM_IO_v6, as far as it is read
pub record SimIo : Type 0 where
  pub command : ℤ
  pub fileid : ℤ
  pub p1 : ℤ
  pub p2 : ℤ
  pub p3 : ℤ
  pub data_text : Option Bytes

abbrev comma_data : Option Bytes → Bytes
comma_data none = []
comma_data (some bytes) = codes "," ++ bytes

unfoldable pub crsm_command : SimIo → Bytes
crsm_command a =
    codes "AT+CRSM="
    ++ print_int a.command
    ++ codes ","
    ++ print_int a.fileid
    ++ codes ","
    ++ print_int a.p1
    ++ codes ","
    ++ print_int a.p2
    ++ codes ","
    ++ print_int a.p3
    ++ comma_data a.data_text

unfoldable pub request_sim_io : SimIo → World → Outcome
request_sim_io a = send_singleline (crsm_command a) (codes "+CRSM:") (
    on_success fail (
      with_line (λ l w. answer_parsed sim_io w (parse_sim_response_line (some l) no_sim_response))))

-- the command for one string or two; the other lengths of `data` have none
unfoldable pub cpin_command : List Bytes → Option Bytes
cpin_command (pin_text ∷ []) = some (codes "AT+CPIN=" ++ pin_text)
cpin_command (first ∷ second ∷ []) = some (codes "AT+CPIN=" ++ first ++ codes "," ++ second)
cpin_command _ = none

unfoldable pub send_cpin : Option Bytes → World → Outcome
send_cpin none = answer password_incorrect nothing
send_cpin (some cpin) =
    send_singleline cpin (codes "+CPIN:")
      (on_success (answer password_incorrect nothing) (λ r. succeed))

unfoldable pub request_enter_sim_pin : List Bytes → World → Outcome
request_enter_sim_pin strings = send_cpin (cpin_command strings)

-- the first line of a command's answer as the answer to the request
unfoldable pub request_first_line : Bytes → World → Outcome
request_first_line command =
    send_numeric command (on_success fail (with_line (λ l. answer no_error (text l))))

-- RIL_REQUEST_GET_IMSI
unfoldable pub request_get_imsi : World → Outcome
request_get_imsi = request_first_line (codes "AT+CIMI")

-- RIL_REQUEST_GET_IMEI
unfoldable pub request_get_imei : World → Outcome
request_get_imei = request_first_line (codes "AT+CGSN")

-- RIL_REQUEST_CANCEL_USSD
unfoldable pub request_cancel_ussd : World → Outcome
request_cancel_ussd = unless_absent radio_not_available (request_first_line (codes "AT+CUSD=2"))

unfoldable pub request_send_ussd : World → Outcome
request_send_ussd = answer request_not_supported nothing

unfoldable pub request_exit_emergency_mode : World → Outcome
request_exit_emergency_mode = send (codes "AT+WSOS=0") (on_success fail (λ r. succeed))

-- `err < 0 || p_response == NULL || p_response->success == 0`
unfoldable pub on_response : (World → Outcome) → (Response → World → Outcome) → Continue
on_response bad good ok none w = bad w
on_response bad good code out w = on_success bad good code out w

-- `none` is `data` that is NULL or of another size.
unfoldable pub request_sim_close_channel : Option ℤ → World → Outcome
request_sim_close_channel none = fail
request_sim_close_channel (some session_id) =
    send_singleline (codes "AT+CCHC=" ++ print_int session_id) (codes "+CCHC")
      (on_response fail (λ r. succeed))

abbrev tty_mode : SimStatus → ℤ
tty_mode ready = pos 1
tty_mode _ = pos 0

unfoldable pub request_get_tty_mode : World → Outcome
request_get_tty_mode = ask_sim (λ s. answer no_error (ints (tty_mode s ∷ [])))

unfoldable pub request_get_mute : World → Outcome
request_get_mute = answer no_error (ints (pos 0 ∷ []))

pub sim_io-once : (b : Bool) (a : SimIo) → Answers b (request_sim_io a)
unfolding request_sim_io
sim_io-once b a =
    send_singleline-once b _ _ _
      (on_line-once b fail _ (fail-once b) (λ l. answer_parsed-once b sim_io _ false))

enter_pin-HasOut :
    (b : Bool)
    → Continues b IsUsable (on_success (answer password_incorrect nothing) (λ r. succeed))
enter_pin-HasOut b code out q =
    on_success-once b _ _ (answer-once b _ _) (λ r. succeed-once b) code out q.0

send_cpin-once : (b : Bool) (cpin : Option Bytes) → Answers b (send_cpin cpin)
unfolding send_cpin
send_cpin-once b none = answer-once b _ _
send_cpin-once b (some cpin) = send_singleline-once b _ _ _ (enter_pin-HasOut b)

pub enter_sim_pin-once :
    (b : Bool) (strings : List Bytes) → Answers b (request_enter_sim_pin strings)
unfolding request_enter_sim_pin
enter_sim_pin-once b strings = send_cpin-once b _

first_line-once : (b : Bool) (command : Bytes) → Answers b (request_first_line command)
unfolding request_first_line
first_line-once b command =
    send_numeric-once b _ _ (on_line-once b fail _ (fail-once b) (λ l. answer-once b _ _ false))

pub get_imsi-once : (b : Bool) → Answers b request_get_imsi
unfolding request_get_imsi
get_imsi-once b = first_line-once b _

pub get_imei-once : (b : Bool) → Answers b request_get_imei
unfolding request_get_imei
get_imei-once b = first_line-once b _

pub cancel_ussd-once : Answers true request_cancel_ussd
unfolding request_cancel_ussd
cancel_ussd-once = unless_absent-once _ _ (first_line-once true _)

pub send_ussd-once : (b : Bool) → Answers b request_send_ussd
unfolding request_send_ussd
send_ussd-once b = answer-once b _ _

pub exit_emergency_mode-once : (b : Bool) → Answers b request_exit_emergency_mode
unfolding request_exit_emergency_mode
exit_emergency_mode-once b =
    send-once b _ _ (on_success-once b fail _ (fail-once b) (λ r. succeed-once b))

close_channel-usable : (b : Bool) → Continues b IsUsable (on_response fail (λ r. succeed))
unfolding on_response
close_channel-usable b ok none q shut n = fail-once b shut
close_channel-usable b code out q shut n =
    on_success-once b fail _ (fail-once b) (λ r. succeed-once b) code out q.0 shut n

pub sim_close_channel-once : (b : Bool) (s : Option ℤ) → Answers b (request_sim_close_channel s)
unfolding request_sim_close_channel
sim_close_channel-once b none = fail-once b
sim_close_channel-once b (some session_id) = send_singleline-once b _ _ _ (close_channel-usable b)

pub get_tty_mode-once : Answers true request_get_tty_mode
unfolding request_get_tty_mode
get_tty_mode-once = ask_sim-once _ (λ s. answer-once true _ _)

pub get_mute-once : (b : Bool) → Answers b request_get_mute
unfolding request_get_mute
get_mute-once b = answer-once b _ _
