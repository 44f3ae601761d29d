-- ===== src/ReferenceRil/SimStatus/Refused.antt =====
-- `getSIMStatus` of reference-ril/reference-ril.c where the modem refuses AT+CPIN?.
use platform_hardware_ril.Base.{All, map, ◌++◌}
use platform_hardware_ril.AtTok.{at_tok_nextint, at_tok_nextint_base, convert, store_int}
use platform_hardware_ril.AtChannel.Command.{cme_number, cme_of_line, cme_of_start, line, wakes}
use platform_hardware_ril.AtChannel.Command.Sorting.{IsOrdinary}
use platform_hardware_ril.AtChannel.Command.Refused.{Sends, Unrelated, singleline-refused}
use platform_hardware_ril.AtChannel.Write.{Device}
use platform_hardware_ril.AtChannel.Lines.{
  is_final_response_error, is_final_response_success, str_starts_with,
}
use platform_hardware_ril.Libc.{
  digit_value, int_of_bits, int_of_long, is_digit, scan_digits, scan_number, scan_sign, skip_prefix,
  skip_spaces, strtol,
}
use platform_hardware_ril.Base.{Bool, false, ◌≡◌, refl, List, ◌∷◌, Bytes, codes}
use platform_hardware_ril.Libc.{strchr}
use platform_hardware_ril.AtTok.{at_tok_start, next_tok}
use platform_hardware_ril.AtChannel.Reader.{Channel}
use platform_hardware_ril.AtChannel.Command.{returns, and_then, Event, at_get_cme_error}
use platform_hardware_ril.ReferenceRil.SimStatus.{
  get_sim_status, null_read, sim_of_error, sim_of_lines, sim_of_reply,
}

-- On an open and idle channel, where the modem answers AT+CPIN? with lines that are no final response
-- and do not start with "+CPIN:", and then with "+CME ERROR: 0", `getSIMStatus` takes the error for
-- success and reads through NULL.
pub get_sim_status_null :
    (is_on : Bool) (ls : List Bytes) (events : List Event) (c : Channel) (device : Device)
    → Sends c (codes "AT+CPIN?") device
    → All IsOrdinary ls
    → Unrelated (codes "+CPIN:") ls
    → get_sim_status is_on false (map line ls ++ (line (codes "+CME ERROR: 0") ∷ wakes ∷ events)) c
      ≡ returns null_read
unfolding get_sim_status and_then sim_of_reply sim_of_error sim_of_lines at_get_cme_error
    cme_of_line cme_of_start cme_number is_final_response_success is_final_response_error
    str_starts_with at_tok_start strchr at_tok_nextint at_tok_nextint_base store_int convert strtol
    scan_number next_tok int_of_bits int_of_long scan_digits skip_spaces scan_sign skip_prefix
    digit_value is_digit
get_sim_status_null is_on ls events c device s o u =
    rw
      (singleline-refused (codes "AT+CPIN?") (codes "+CPIN:") (codes "+CME ERROR: 0") ls events c
        device s o u (refl, refl)).1
      refl
