-- ===== src/Tests/Requests.antt =====
-- The request handlers of reference-ril/reference-ril.c at concrete answers of the modem.
use platform_hardware_ril.AtChannel.Command.{and_then, handled, returns}
use platform_hardware_ril.AtChannel.Command.Exchange.{IsFinal}
use platform_hardware_ril.AtChannel.Command.Refused.{Sends}
use platform_hardware_ril.ReferenceRil.Requests.Once.{Finishes}
use platform_hardware_ril.ReferenceRil.Requests.Miscounts.{FailsTwice}
use platform_hardware_ril.ReferenceRil.Requests.Completed.{on_request-Finishes}
use platform_hardware_ril.ReferenceRil.Requests.Dispatch.{hangup}
use platform_hardware_ril.ReferenceRil.Requests.Dispatch.{handle, signal_strength, works_when_off}
use platform_hardware_ril.ReferenceRil.Requests.Radio.{now_in, request_shutdown}
use platform_hardware_ril.ReferenceRil.Requests.{
  answer, change_state, complete, no_error, on_test, radio_not_available, resume, send, succeed,
}
use platform_hardware_ril.ReferenceRil.SimStatus.{
  is_state, notices, off, radio_state_changed, set_radio_state, sim_status_changed,
}
use platform_hardware_ril.AtChannel.Command.{at_send_command}
use platform_hardware_ril.ReferenceRil.Requests.Dispatch.{on_request, shutdown}
use platform_hardware_ril.ReferenceRil.Requests.Completed.{
  is_answered_once, may_fault, on_request-once,
}
use platform_hardware_ril.Libc.{
  digit_value, int_of_long, is_digit, is_space, scan_digits, scan_number, scan_sign, skip_prefix,
  skip_spaces, strchr, strsep, strtol,
}
use platform_hardware_ril.AtTok.{
  at_tok_hasmore, at_tok_nextint, at_tok_nextint_base, at_tok_start, convert, next_tok, next_tok_at,
  skip_comma, skip_next_comma, skip_white, store_int,
}
use platform_hardware_ril.ReferenceRil.Requests.Operator.{more_or_null, name_of_start, store_name}
use platform_hardware_ril.AtChannel.Command.{
  after_writeline, at_send_command_full, at_send_command_full_nolock, check_response,
  clear_pending_command, count_timeout, finish_command, reply, reverse_intermediates, reverse_onto,
  test_response, wait_for_response,
}
use platform_hardware_ril.AtChannel.Write.{write_ended, write_last, write_text, writeline}
use platform_hardware_ril.AtChannel.Reader.{
  add_intermediate, by_type, handle_final_response, has_prefix, process_line, process_line_for,
  process_pending, prompt_or_type, take_or_pass,
}
use platform_hardware_ril.AtChannel.Lines.{
  is_final_response_error, is_final_response_success, is_sms_unsolicited, str_starts_with,
}
use Prim.Native.String.{String}
use platform_hardware_ril.ReferenceRil.Requests.{World, done, faults, nothing}
use platform_hardware_ril.ReferenceRil.Requests.Once.{Ends, OneMore}
use platform_hardware_ril.ReferenceRil.SimStatus.{RadioState, on, unavailable}
use platform_hardware_ril.AtChannel.Reader.{
  Channel, CommandType, Response, multiline, no_result, singleline,
}
use platform_hardware_ril.AtChannel.Write.{Device, ok, wrote}
use platform_hardware_ril.Base.Int.{negsuc, pos}
use platform_hardware_ril.Base.{
  Bool, Bytes, List, Option, [], arith, codes, false, none, refl, replicate, some, true, ℕ, ◌++◌,
  ◌∷◌, ◌≡◌, ◌≢◌,
}
use platform_hardware_ril.ReferenceRil.Requests.Network.{
  registration_command, request_registration_state, request_set_network_selection_automatic,
  request_signal_strength, voice,
}
use platform_hardware_ril.ReferenceRil.Requests.CurrentCalls.{request_get_current_calls}
use platform_hardware_ril.ReferenceRil.Requests.Messages.{request_sms_acknowledge}
use platform_hardware_ril.ReferenceRil.Requests.Radio.{on_sim_ready, poll_sim_with, tell_sim_status}
use platform_hardware_ril.ReferenceRil.Requests.Operator.{outside, read_names, request_operator}
use platform_hardware_ril.AtChannel.Command.{
  Event, Reply, at_send_command_multiline, at_send_command_singleline, line, wakes,
}
use platform_hardware_ril.ReferenceRil.Requests.Miscounts.{
  RefusedOr, Twice, Unanswered, registration_null, set_automatic-Unanswered,
  signal_strength-FailsTwice, sms_acknowledge_fails,
}
use platform_hardware_ril.ReferenceRil.Requests.Polling.{poll_sim_ready_unused}
use platform_hardware_ril.ReferenceRil.Requests.Names.{operator_within}
use platform_hardware_ril.ReferenceRil.Requests.Calls.{
  CallsAnswered, get_current_calls-CallsAnswered,
}

abbrev pub channel_with : Device → Channel
channel_with device = record {
  fd_open = true;
  has_handler = true;
  has_on_reader_closed = true;
  has_on_timeout = false;
  type = no_result;
  response_prefix = none;
  sms_pdu = none;
  response = none;
  reader_closed = false;
  device = device;
  unsolicited = [];
  closed_callbacks = 0;
  timeout_callbacks = 0;
}

-- a device that takes a command of a length at once, and its end of line
abbrev pub device_for : ℕ → Device
device_for n = record { writes = wrote n ∷ wrote 1 ∷ []; output = [] }

abbrev world : RadioState → ℕ → List Event → World
world radio n events = record {
  channel = channel_with (device_for n);
  to_come = events;
  radio = radio;
  closed = false;
  notices = [];
  incoming_or_waiting = negsuc 0;
  expect_answer = false;
  repoll_count = 0;
  call_callbacks = 0;
  sim_callbacks = 0;
  data_call_lists = [];
  source_changes = [];
  answers = [];
}

abbrev says : String → List Event → List Event
says s events = line (codes s) ∷ events

-- what a call leaves of the channel, with the response that it hands out
abbrev replied : CommandType → Bytes → Option Response → Reply
replied kind output out = record {
  code = ok;
  out = out;
  channel = record (channel_with (record { writes = []; output = output })) { type = kind };
  to_come = [];
}

abbrev response : Bool → String → List Bytes → Response
response succeeds final lines = record {
  success = succeeds;
  final_response = some (codes final);
  intermediates = lines;
}

abbrev failing : List Event
failing = says "ERROR" (wakes ∷ [])

csq_fails :
    at_send_command_singleline false
      (codes "AT+CSQ")
      (codes "+CSQ:")
      true
      failing
      (channel_with (device_for 6))
    ≡ returns (replied singleline (codes "AT+CSQ\r") (some (response false "ERROR" [])))
unfolding at_send_command_singleline at_send_command_full at_send_command_full_nolock
    after_writeline writeline write_ended write_text write_last test_response wait_for_response
    handled and_then process_line process_line_for process_pending by_type is_final_response_success
    is_final_response_error handle_final_response check_response count_timeout finish_command
    clear_pending_command reply reverse_intermediates reverse_onto str_starts_with add_intermediate
    has_prefix take_or_pass prompt_or_type is_sms_unsolicited
csq_fails = refl

signal_strength-FailsTwice_example :
    Finishes (FailsTwice true []) (request_signal_strength (world on 6 failing))
signal_strength-FailsTwice_example =
    signal_strength-FailsTwice (world on 6 failing)
      (replied singleline (codes "AT+CSQ\r") (some (response false "ERROR" []))) csq_fails

creg-Sends :
    Sends
      (channel_with (device_for 8))
      (registration_command voice).0
      (record { writes = []; output = codes "AT+CREG?\r" })
unfolding registration_command writeline write_ended write_text write_last
creg-Sends = record {
  handled_elsewhere = refl;
  opened = refl;
  reads = refl;
  idle = refl;
  sent = refl;
}

error-IsFinal : IsFinal false (codes "ERROR")
unfolding is_final_response_success is_final_response_error
error-IsFinal = (refl, refl)

registration_null_example : request_registration_state 0 voice (world on 8 failing) ≡ faults
registration_null_example =
    registration_null 0 voice (world on 8 failing) (codes "ERROR") [] []
      (record { writes = []; output = codes "AT+CREG?\r" }) creg-Sends tt tt error-IsFinal refl

abbrev pin_asked : List Event
pin_asked = says "+CPIN: READY" (says "OK" (wakes ∷ says "OK" (wakes ∷ [])))

sms_acknowledge_fails_example :
    Ends true (RefusedOr Twice []) (request_sms_acknowledge (pos 1) (world on 8 pin_asked))
sms_acknowledge_fails_example = sms_acknowledge_fails 1 (world on 8 pin_asked) (omega arith)

set_automatic-Unanswered_example :
    Ends true
      (RefusedOr Unanswered [])
      (request_set_network_selection_automatic (world on 8 pin_asked))
set_automatic-Unanswered_example = set_automatic-Unanswered (world on 8 pin_asked)

poll_sim_ready_unused_example :
    poll_sim_with (on_sim_ready tell_sim_status) (world unavailable 8 pin_asked)
    ≡ poll_sim_with (λ w. faults) (world unavailable 8 pin_asked)
poll_sim_ready_unused_example =
    poll_sim_ready_unused (on_sim_ready tell_sim_status) (λ w. faults)
      (world unavailable 8 pin_asked)

on_request-once_example : Ends false (OneMore []) (on_request 0 false shutdown (world on 9 failing))
unfolding is_answered_once may_fault
on_request-once_example = on_request-once 0 false shutdown (world on 9 failing) refl tt

abbrev one_clcc : List Bytes
one_clcc = codes "+CLCC: 1,0,2,0,0,\"+18005551212\",145" ∷ []

abbrev one_call : List Event
one_call = says "+CLCC: 1,0,2,0,0,\"+18005551212\",145" (says "OK" (wakes ∷ []))

clcc_comes :
    at_send_command_multiline false
      (codes "AT+CLCC")
      (codes "+CLCC:")
      true
      one_call
      (channel_with (device_for 7))
    ≡ returns (replied multiline (codes "AT+CLCC\r") (some (response true "OK" one_clcc)))
unfolding at_send_command_multiline at_send_command_full at_send_command_full_nolock after_writeline
    writeline write_ended write_text write_last test_response wait_for_response handled and_then
    process_line process_line_for process_pending by_type is_final_response_success
    is_final_response_error handle_final_response check_response count_timeout finish_command
    clear_pending_command reply reverse_intermediates reverse_onto str_starts_with add_intermediate
    has_prefix take_or_pass prompt_or_type is_sms_unsolicited
clcc_comes = refl

get_current_calls-CallsAnswered_example :
    Finishes (CallsAnswered (world on 7 one_call)) (request_get_current_calls (world on 7 one_call))
get_current_calls-CallsAnswered_example =
    get_current_calls-CallsAnswered (world on 7 one_call)
      (replied multiline (codes "AT+CLCC\r") (some (response true "OK" one_clcc)))
      (response true "OK" one_clcc) clcc_comes refl refl refl

abbrev operator_names : List Bytes
operator_names =
    codes "+COPS: 0,0,\"T - Mobile\""
    ∷ codes "+COPS: 0,1,\"TMO\""
    ∷ codes "+COPS: 0,2,\"310170\""
    ∷ []

abbrev operators : List Event
operators =
    says "+COPS: 0,0,\"T - Mobile\""
      (says "+COPS: 0,1,\"TMO\"" (says "+COPS: 0,2,\"310170\"" (says "OK" (wakes ∷ []))))

abbrev cops : Bytes
cops = codes "AT+COPS=3,0;+COPS?;+COPS=3,1;+COPS?;+COPS=3,2;+COPS?"

operators_come :
    at_send_command_multiline false cops
      (codes "+COPS:")
      true
      operators
      (channel_with (device_for 52))
    ≡ returns (replied multiline (cops ++ codes "\r") (some (response true "OK" operator_names)))
unfolding at_send_command_multiline at_send_command_full at_send_command_full_nolock after_writeline
    writeline write_ended write_text write_last test_response wait_for_response handled and_then
    process_line process_line_for process_pending by_type is_final_response_success
    is_final_response_error handle_final_response check_response count_timeout finish_command
    clear_pending_command reply reverse_intermediates reverse_onto str_starts_with add_intermediate
    has_prefix take_or_pass prompt_or_type is_sms_unsolicited
operators_come = refl

operator_within_example : request_operator (world on 52 operators) ≢ faults
operator_within_example =
    operator_within (world on 52 operators)
      (replied multiline (cops ++ codes "\r") (some (response true "OK" operator_names)))
      (response true "OK" operator_names) operators_come refl (omega arith)

-- A fourth line is stored outside of the array.
fourth_name :
    read_names
      (codes "+COPS: 0" ∷ codes "+COPS: 0" ∷ codes "+COPS: 0" ∷ codes "+COPS: 0" ∷ [])
      0
      (replicate 3 none)
    ≡ outside
unfolding read_names name_of_start at_tok_start more_or_null at_tok_nextint at_tok_nextint_base
    store_int next_tok convert strtol scan_number scan_digits skip_prefix scan_sign skip_spaces
    digit_value is_digit at_tok_hasmore store_name strchr strsep next_tok_at skip_comma
    skip_next_comma skip_white is_space int_of_long
fourth_name = refl

abbrev one_context : List Event
one_context =
    says "+CGACT: 1,1"
      (says "OK" (wakes ∷ says "+CGDCONT: 1,\"IP\",\"apn\",\"10.0.2.15\"" (says "OK" (wakes ∷ []))))

abbrev context_reply : Reply
context_reply =
    record (replied multiline (codes "AT+CGACT?\r")
      (some (response true "OK" (codes "+CGACT: 1,1" ∷ [])))) {
        to_come = says "+CGDCONT: 1,\"IP\",\"apn\",\"10.0.2.15\"" (says "OK" (wakes ∷ []));
      }

-- With the radio off the signal strength is refused, and nothing is sent.
off_refused :
    on_request 0 false signal_strength (world off 6 failing)
    ≡ done (record (world off 6 failing) { answers = (radio_not_available, nothing) ∷ [] })
unfolding on_request on_test is_state works_when_off answer complete
off_refused = refl

-- A shutdown returns with success, though the modem answers with an error.
shut_down :
    on_request 0 false shutdown (world on 9 failing)
    ≡ done (record (world on 9 failing) {
      channel = (replied no_result (codes "AT+CFUN=0\r") none).channel;
      to_come = [];
      radio = unavailable;
      notices = radio_state_changed ∷ sim_status_changed ∷ [];
      answers = (no_error, nothing) ∷ [];
    })
unfolding on_request on_test is_state handle request_shutdown send resume now_in change_state
    set_radio_state notices succeed answer complete at_send_command at_send_command_full
    at_send_command_full_nolock after_writeline writeline write_ended write_text write_last
    test_response wait_for_response handled and_then process_line process_line_for process_pending
    is_final_response_success is_final_response_error handle_final_response count_timeout
    finish_command clear_pending_command reply reverse_intermediates reverse_onto
shut_down = refl

-- the reader thread has ended
abbrev gone : World
gone = record (world on 9 failing) {
  channel = record (channel_with (device_for 9)) { reader_closed = true };
}

on_request-Finishes_example : Finishes (OneMore []) (on_request 0 false (hangup (pos 1)) gone)
unfolding is_answered_once
on_request-Finishes_example = on_request-Finishes 0 false (hangup (pos 1)) gone refl refl tt
