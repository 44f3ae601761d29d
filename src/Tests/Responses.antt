-- ===== src/Tests/Responses.antt =====
-- The parsers of reference-ril/reference-ril.c on lines that a modem sends.
use platform_hardware_ril.Base.{All}
use platform_hardware_ril.AtChannel.Command.{returns}
use platform_hardware_ril.AtChannel.Command.Sorting.{IsOrdinary}
use platform_hardware_ril.AtChannel.Command.Refused.{Sends, Unrelated}
use platform_hardware_ril.AtChannel.Write.{write_ended, write_last, write_text, writeline}
use platform_hardware_ril.AtChannel.Lines.{is_final_response_error, is_final_response_success}
use platform_hardware_ril.ReferenceRil.SimStatus.Refused.{get_sim_status_null}
use platform_hardware_ril.ReferenceRil.SimStatus.{get_sim_status}
use platform_hardware_ril.Base.{
  ◌∷◌, [], List, true, ◌≡◌, refl, false, none, some, Bytes, codes, arith,
}
use platform_hardware_ril.Base.Int.{pos}
use platform_hardware_ril.Libc.{
  strchr, strtol, strtoul, scan_number, int_of_bits, int_of_long, scan_digits, skip_spaces,
  scan_sign, skip_prefix, digit_value, is_digit,
}
use platform_hardware_ril.AtTok.{
  success, at_tok_start, at_tok_nextint, at_tok_nextint_base, at_tok_nexthexint, at_tok_nextbool,
  at_tok_nextstr, at_tok_hasmore, store_int, convert, next_tok, check_bool,
}
use platform_hardware_ril.ReferenceRil.{
  active, dialing, Call, call_from_clcc_line, clcc_fields, put_token, ◌then_parse◌, set_state,
  clcc_state_to_ril_state, read_number, read_toa, keep_dialable, starts_dialable, both,
  parse_technology_response, behind_start, with_current, with_preferred,
}
use platform_hardware_ril.AtChannel.Lines.{str_starts_with}
use platform_hardware_ril.AtChannel.Reader.{no_result, Channel}
use platform_hardware_ril.AtChannel.Write.{wrote}
use platform_hardware_ril.AtChannel.Command.{Event, line, wakes, at_send_command_singleline}
use platform_hardware_ril.AtChannel.Command.Clean.{Returned}
use platform_hardware_ril.ReferenceRil.SimStatus.Refused.{get_sim_status_null}
use platform_hardware_ril.ReferenceRil.SimStatus.{
  null_read, sim_of_reply, Reads, get_sim_status-Reads,
}
use platform_hardware_ril.ReferenceRil.Registration.{
  count_commas, overflow, IsSound, parse_registration_state, parse_registration_state-IsSound,
  parse_registration_state_overflow,
}

abbrev creg : Bytes
creg = codes "+CREG: 2,1,\"00C3\",\"0000A1B2\""

parse_registration_state-IsSound_example : IsSound 3 (parse_registration_state 4 creg)
unfolding at_tok_start strchr count_commas
parse_registration_state-IsSound_example =
    parse_registration_state-IsSound 4 creg (codes " 2,1,\"00C3\",\"0000A1B2\"") refl (omega arith)

parse_registration_state_overflow_example : parse_registration_state 4 (codes "+CREG: 1") ≡ overflow
unfolding at_tok_start strchr count_commas at_tok_nextint at_tok_nextint_base store_int convert
    strtol scan_number next_tok int_of_bits int_of_long scan_digits skip_spaces scan_sign
    skip_prefix digit_value is_digit
parse_registration_state_overflow_example =
    parse_registration_state_overflow 4 (codes "+CREG: 1") (codes " 1") (pos 1) none refl refl refl

abbrev no_call : Call
no_call = record {
  index = pos 0;
  is_mt = pos 0;
  state = active;
  is_voice = false;
  is_mpty = pos 0;
  number = none;
  toa = pos 0;
  has_uus_info = false;
  local_state = pos 0;
  local_mode = pos 0;
}

abbrev clcc : Bytes
clcc = codes "+CLCC: 1,0,2,0,0,\"+18005551212\",145"

abbrev dialed : Call
dialed = record no_call {
  index = pos 1;
  state = dialing;
  is_voice = true;
  number = some (codes "+18005551212");
  toa = pos 145;
  local_state = pos 2;
}

dials : call_from_clcc_line (some clcc) no_call ≡ (success, none, dialed)
unfolding call_from_clcc_line clcc_fields put_token ◌then_parse◌ set_state clcc_state_to_ril_state
    read_number read_toa keep_dialable starts_dialable at_tok_start strchr at_tok_nextint
    at_tok_nextint_base store_int convert strtol scan_number next_tok int_of_bits int_of_long
    scan_digits skip_spaces scan_sign skip_prefix digit_value is_digit at_tok_nextbool check_bool
    at_tok_nextstr at_tok_hasmore
dials = refl

-- "+CTEC: 3,0a" has both parts.
technologies : parse_technology_response (codes "+CTEC: 3,0a") ≡ both (pos 3) (pos 10)
unfolding parse_technology_response behind_start with_current with_preferred at_tok_start strchr
    at_tok_nextint at_tok_nextint_base at_tok_nexthexint store_int convert strtol strtoul
    scan_number next_tok int_of_bits int_of_long scan_digits skip_spaces scan_sign skip_prefix
    digit_value is_digit at_tok_hasmore
technologies = refl

abbrev pin_needed : List Event
pin_needed = line (codes "+CPIN: SIM PIN") ∷ line (codes "OK") ∷ wakes ∷ []

abbrev ready_channel : Channel
ready_channel = record {
  fd_open = true;
  has_handler = true;
  has_on_reader_closed = true;
  has_on_timeout = false;
  type = no_result;
  response_prefix = none;
  sms_pdu = none;
  response = none;
  reader_closed = false;
  device = record { writes = wrote 8 ∷ wrote 1 ∷ []; output = [] };
  unsolicited = [];
  closed_callbacks = 0;
  timeout_callbacks = 0;
}

get_sim_status-Reads_example :
    Returned
      (λ r. Reads r.out (sim_of_reply true r.code r.out))
      (at_send_command_singleline false
        (codes "AT+CPIN?")
        (codes "+CPIN:")
        true
        pin_needed
        ready_channel)
get_sim_status-Reads_example = get_sim_status-Reads true false pin_needed ready_channel

ready_channel-Sends :
    Sends ready_channel (codes "AT+CPIN?") (record { writes = []; output = codes "AT+CPIN?\r" })
unfolding writeline write_ended write_text write_last
ready_channel-Sends = record {
  handled_elsewhere = refl;
  opened = refl;
  reads = refl;
  idle = refl;
  sent = refl;
}

abbrev ringing : List Bytes
ringing = codes "RING" ∷ []

ringing-IsOrdinary : All IsOrdinary ringing
unfolding is_final_response_success is_final_response_error
ringing-IsOrdinary = ((refl, refl), tt)

ringing-Unrelated : Unrelated (codes "+CPIN:") ringing
unfolding str_starts_with
ringing-Unrelated = (refl, tt)

get_sim_status_null_example :
    get_sim_status true false
      (line (codes "RING") ∷ line (codes "+CME ERROR: 0") ∷ wakes ∷ [])
      ready_channel
    ≡ returns null_read
get_sim_status_null_example =
    get_sim_status_null true ringing [] ready_channel
      (record { writes = []; output = codes "AT+CPIN?\r" }) ready_channel-Sends ringing-IsOrdinary
      ringing-Unrelated
