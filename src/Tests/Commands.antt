-- ===== src/Tests/Commands.antt =====
-- The command channel of reference-ril/atchannel.c at concrete exchanges.
use platform_hardware_ril.Base.{
  ◌≡◌, refl, ◌++◌, true, false, some, none, List, [], ◌∷◌, map, All, Bytes, codes, arith,
}
use platform_hardware_ril.AtChannel.Lines.{
  is_final_response_success, is_final_response_error, str_starts_with,
}
use platform_hardware_ril.AtChannel.Write.{
  wrote, interrupted, Device, ok, Ends, writeline, write_ended, write_text, write_last,
  writeline-Ends, writeline-returns,
}
use platform_hardware_ril.AtChannel.Reader.{Channel, no_result, singleline}
use platform_hardware_ril.AtChannel.Command.{
  returns, reads_null, line, wakes, other_command, Request, at_send_command_full_nolock,
}
use platform_hardware_ril.AtChannel.Command.Sorting.{IsOrdinary, sort}
use platform_hardware_ril.AtChannel.Command.Exchange.{
  after_exchange, answer, IsFinal, send_command-answer, send_command-interrupted,
}
use platform_hardware_ril.AtChannel.Command.Alone.{Follows, send_command-Follows}
use platform_hardware_ril.AtChannel.Command.Clean.{Returned, IsClean, send_command-IsClean}

abbrev device : Device
device = record { writes = wrote 3 ∷ interrupted ∷ wrote 9 ∷ wrote 1 ∷ []; output = [] }

abbrev quiet : Device
quiet = record { writes = []; output = codes "AT+CSQ\r" }

abbrev idle : Channel
idle = record {
  fd_open = true;
  has_handler = true;
  has_on_reader_closed = true;
  has_on_timeout = false;
  type = no_result;
  response_prefix = none;
  sms_pdu = none;
  response = none;
  reader_closed = false;
  device = device;
  unsolicited = [];
  closed_callbacks = 0;
  timeout_callbacks = 0;
}

abbrev signal : Request
signal = record {
  command = codes "AT+CSQ";
  type = singleline;
  prefix = some (codes "+CSQ:");
  pdu = none;
  timed = false;
  wants_out = true;
}

sent : writeline false (codes "AT+CSQ") device ≡ some (ok, quiet)
unfolding writeline write_ended write_text write_last
sent = refl

abbrev lines : List Bytes
lines = codes "RING" ∷ codes "+CSQ: 9,1" ∷ codes "+CSQ: 8,1" ∷ []

lines-IsOrdinary : All IsOrdinary lines
unfolding is_final_response_success is_final_response_error
lines-IsOrdinary = ((refl, refl), ((refl, refl), ((refl, refl), tt)))

ok-IsFinal : IsFinal true (codes "OK")
unfolding is_final_response_success
ok-IsFinal = refl

send_command-answer_example :
    at_send_command_full_nolock signal (map line lines ++ (line (codes "OK") ∷ wakes ∷ [])) idle
    ≡ returns (record {
      code = ok;
      out = some (answer true (codes "OK") (codes "+CSQ: 9,1" ∷ []));
      channel = after_exchange signal idle quiet (codes "RING" ∷ codes "+CSQ: 8,1" ∷ []);
      to_come = [];
    })
unfolding sort str_starts_with
send_command-answer_example =
    send_command-answer signal idle quiet (codes "+CSQ:") lines true (codes "OK") [] refl refl refl
      refl refl refl sent lines-IsOrdinary ok-IsFinal

send_command-interrupted_example :
    at_send_command_full_nolock signal (other_command ∷ wakes ∷ line (codes "OK") ∷ wakes ∷ []) idle
    ≡ reads_null
send_command-interrupted_example =
    send_command-interrupted signal idle quiet (line (codes "OK") ∷ wakes ∷ []) refl refl refl sent

send_command-Follows_example :
    Follows (at_send_command_full_nolock signal (line (codes "OK") ∷ wakes ∷ []) idle)
send_command-Follows_example =
    send_command-Follows signal (line (codes "OK") ∷ wakes ∷ []) idle tt tt

send_command-IsClean_example :
    Returned IsClean (at_send_command_full_nolock signal (line (codes "OK") ∷ wakes ∷ []) idle)
send_command-IsClean_example = send_command-IsClean signal (line (codes "OK") ∷ wakes ∷ []) idle

writeline-Ends_example : Ends b'\r' (codes "AT+CSQ") [] (writeline false (codes "AT+CSQ") device)
writeline-Ends_example = writeline-Ends (codes "AT+CSQ") device

writeline-returns_example :
    (d : Device) × (writeline false
        (codes "A")
        (record { writes = wrote 1 ∷ wrote 1 ∷ []; output = [] })
      ≡ some (ok, d))
writeline-returns_example =
    writeline-returns (codes "A") (record { writes = wrote 1 ∷ wrote 1 ∷ []; output = [] })
      (omega arith) (omega arith)
