-- ===== src/Tests/Unsolicited.antt =====
-- `onUnsolicited` of reference-ril/reference-ril.c behind the reader thread, at a few lines.
use platform_hardware_ril.Tests.Requests.{channel_with, device_for}
use platform_hardware_ril.ReferenceRil.Unsolicited.{
  Modem, and_then, call_list_later, call_state_changed, handled, new_sms, null_length, on_all,
  on_line, on_unsolicited, starts_call, starts_registration, tell, tell_pdu,
}
use platform_hardware_ril.ReferenceRil.Unsolicited.Safe.{reader_loop-on_all}
use platform_hardware_ril.AtChannel.Reader.{
  call_handler, handle_unsolicited, reader_is_closed, reader_loop,
}
use platform_hardware_ril.AtChannel.Lines.{starts_with_any}
use platform_hardware_ril.ReferenceRil.SimStatus.{is_state}
use mathlib.Core.Option
use platform_hardware_ril.AtChannel.Reader.{process_line, process_line_for}
use platform_hardware_ril.AtChannel.Lines.{is_sms_unsolicited, str_starts_with}
use platform_hardware_ril.ReferenceRil.SimStatus.{on}
use platform_hardware_ril.AtChannel.Reader.{Channel}
use platform_hardware_ril.Base.Int.{pos}
use platform_hardware_ril.Base.{
  Bytes, List, [], codes, false, none, refl, some, true, ◌∷◌, ◌≡◌, ◌≢◌,
}

abbrev lines_read : List Bytes
lines_read = codes "RING" ∷ codes "+CMT: ,24" ∷ codes "07914151551512F2" ∷ []

abbrev rung : Channel
rung = record (channel_with (device_for 0)) {
  unsolicited = (codes "RING", none) ∷ (codes "+CMT: ,24", some (codes "07914151551512F2")) ∷ [];
  reader_closed = true;
  closed_callbacks = 1;
}

lines_passed : reader_loop lines_read (channel_with (device_for 0)) ≡ some rung
unfolding reader_loop is_sms_unsolicited process_line process_line_for handle_unsolicited
    call_handler reader_is_closed Option.bind starts_with_any str_starts_with
lines_passed = refl

abbrev modem : Modem
modem = record {
  radio = on;
  closed = false;
  notices = [];
  tech = 0;
  source = pos 0;
  sent = [];
  list_callbacks = 0;
}

reader_loop-on_all_example : on_all rung.unsolicited modem ≢ null_length
reader_loop-on_all_example =
    reader_loop-on_all lines_read (channel_with (device_for 0)) rung modem refl lines_passed

-- The call and the message are told in their order.
both_told :
    on_all rung.unsolicited modem
    ≡ handled (record modem {
      sent = call_state_changed ∷ new_sms (codes "07914151551512F2") ∷ [];
      list_callbacks = 1;
    })
unfolding on_all and_then on_unsolicited on_line is_state starts_call starts_registration
    str_starts_with tell tell_pdu call_list_later
both_told = refl
