-- ===== src/AtChannel/Command.antt =====
-- The command thread of reference-ril/atchannel.c. While it waits on `s_commandcond` the mutex is
-- free: what the reader thread and other threads do until the wait returns is a list of events.
pub mod Sorting
pub mod Exchange
pub mod Clean
pub mod Out
pub mod Closed
pub mod Pending
pub mod Alone
pub mod Refused
use mathlib.Core.Option
use platform_hardware_ril.Base.{
  ℕ, zero, suc, Bool, true, false, not, ◌&&◌, ◌||◌, Option, none, some, List, [], ◌∷◌, Bytes, codes,
  if◌then◌else◌, reverse,
}
use platform_hardware_ril.Base.Int.{ℤ, pos, negsuc}
use platform_hardware_ril.AtTok.{Status, success, failure, Cursor, at_tok_start, at_tok_nextint}
use platform_hardware_ril.AtChannel.Lines.{str_starts_with}
use platform_hardware_ril.AtChannel.Reader.{
  Channel, CommandType, no_result, numeric, singleline, multiline, Response, is_nil, call_handler,
  process_line, reader_is_closed,
}
use platform_hardware_ril.AtChannel.Write.{
  Device, Code, ok, generic, command_pending, channel_closed, timeout, invalid_thread,
  invalid_response, writeline,
}

-- What happens while a command thread waits: a line or a two-line SMS notice is read, the reader
-- thread ends, another thread calls `at_close`, another thread sends a command, the wait returns, or
-- it returns with ETIMEDOUT.
pub data Event : Type 0 where
  line : Bytes → Event
  sms : Bytes → Bytes → Event
  reader_ends closes other_command wakes times_out : Event

unfoldable pub at_open : Bool → Device → Channel → Channel
at_open has_handler device c = record c {
  fd_open = true;
  device = device;
  has_handler = has_handler;
  reader_closed = false;
  response_prefix = none;
  sms_pdu = none;
  response = none;
}

unfoldable pub at_close : Channel → Channel
at_close c = record c { fd_open = false; reader_closed = true }

unfoldable pub clear_pending_command : Channel → Channel
clear_pending_command c = record c { response = none; response_prefix = none; sms_pdu = none }

abbrev pub new_response : Response
new_response = record { success = false; final_response = none; intermediates = [] }

-- the loop of `reverseIntermediates`: the lines done, and the lines to go
unfoldable pub reverse_onto : List Bytes → List Bytes → List Bytes
reverse_onto done [] = done
reverse_onto done (l ∷ ls) = reverse_onto (l ∷ done) ls

unfoldable pub reverse_intermediates : Response → Response
unfolding reverse_onto
reverse_intermediates r = record r { intermediates = reverse_onto [] r.intermediates }

-- What a call returns: its code, what it stores through `pp_outResponse`, the channel, and the
-- events that have not happened yet.
pub record Reply : Type 0 where
  pub code : Code
  pub out : Option Response
  pub channel : Channel
  pub to_come : List Event

-- How a call ends: it returns; it is blocked, in a wait with no event left or in a write that does
-- not come back; a thread reads through a NULL pointer; or a thread starts a command of its own
-- meanwhile, and what then happens is not followed.
pub data Run (A : Type 0) : Type 0 where
  returns : A → Run A
  blocked reads_null not_followed : Run A

unfoldable pub and_then : {A B : Type 0} → Run A → (A → Run B) → Run B
and_then (returns a) f = f a
and_then blocked f = blocked
and_then reads_null f = reads_null
and_then not_followed f = not_followed

-- the label `error`
unfoldable pub reply : Code → Option Response → Channel → List Event → Reply
reply code out c events = record {
  code = code;
  out = out;
  channel = clear_pending_command c;
  to_come = events;
}

-- behind the loop of waits; the flag is `pp_outResponse != NULL`
unfoldable pub finish_command : Bool → Response → Channel → List Event → Reply
finish_command wants_out r c events =
    reply (if c.reader_closed then channel_closed else ok)
      (if wants_out then some (reverse_intermediates r) else none) (record c { response = none })
      events

abbrev pub is_some {ℓ} : {A : Type ℓ} → Option A → Bool
is_some none = false
is_some (some a) = true

-- The test of the loop, which reads through `sp_response`; the function is the next wait.
unfoldable pub test_response :
    (Channel → Run Reply) → Bool → List Event → Channel → Option Response → Run Reply
test_response wait wants_out events c none = reads_null
test_response wait wants_out events c (some r) =
    if is_some r.final_response || c.reader_closed
    then returns (finish_command wants_out r c events)
    else wait c

-- Another thread's `at_send_command_full` while this one waits: it finds `sp_response` set, and goes
-- to `error`, which clears it. Once it is cleared, a further thread would start a command of its own
-- on the same variables, which is not followed.
unfoldable pub other_thread : Option Response → Channel → Run Channel
other_thread none c = not_followed
other_thread (some r) c = returns (clear_pending_command c)

-- What the reader thread makes of a line. Where it cannot handle one, it reads through the NULL
-- prefix, or, with a prefix, it is in a write that does not come back.
unfoldable pub handled : Option Bytes → Option Channel → Run Channel
handled prefix (some c) = returns c
handled none none = reads_null
handled (some p) none = blocked

-- Inside a wait; the flags are `timeoutMsec != 0` and `pp_outResponse != NULL`.
unfoldable pub wait_for_response : Bool → Bool → List Event → Channel → Run Reply
wait_for_response timed wants_out [] c = blocked
wait_for_response timed wants_out (line l ∷ events) c =
    and_then (handled c.response_prefix (process_line l c))
      (wait_for_response timed wants_out events)
wait_for_response timed wants_out (sms l pdu ∷ events) c =
    wait_for_response timed wants_out events (call_handler l (some pdu) c)
wait_for_response timed wants_out (reader_ends ∷ events) c =
    wait_for_response timed wants_out events (reader_is_closed c)
wait_for_response timed wants_out (closes ∷ events) c =
    wait_for_response timed wants_out events (at_close c)
wait_for_response timed wants_out (other_command ∷ events) c =
    and_then (other_thread c.response c) (wait_for_response timed wants_out events)
wait_for_response timed wants_out (wakes ∷ events) c =
    test_response (wait_for_response timed wants_out events) wants_out events c c.response
wait_for_response timed wants_out (times_out ∷ events) c = elim timed [
  | true ↦ returns (reply timeout none c events)
  | false ↦ wait_for_response timed wants_out events c
]

-- what a caller asks for
pub record Request : Type 0 where
  pub command : Bytes
  pub type : CommandType
  pub prefix : Option Bytes
  pub pdu : Option Bytes
  pub timed : Bool
  pub wants_out : Bool

-- behind `writeline`
unfoldable pub after_writeline : Request → List Event → Channel → Option (Code × Device) → Run Reply
after_writeline q events c none = blocked
after_writeline q events c (some (ok, device)) =
    let started = record c {
      device = device;
      type = q.type;
      response_prefix = q.prefix;
      sms_pdu = q.pdu;
      response = some new_response;
    } in
    test_response (wait_for_response q.timed q.wants_out events) q.wants_out events started
      started.response
after_writeline q events c (some (code, device)) =
    returns (reply code none (record c { device = device }) events)

unfoldable pub at_send_command_full_nolock : Request → List Event → Channel → Run Reply
at_send_command_full_nolock q events c =
    if is_some c.response
    then returns (reply command_pending none c events)
    else after_writeline q events c
        (writeline (not c.fd_open || c.reader_closed) q.command c.device)

-- `s_onTimeout()`, if there is a callback
unfoldable pub count_timeout : Code → Reply → Reply
count_timeout timeout r =
    if r.channel.has_on_timeout
    then record r {
      channel = record r.channel { timeout_callbacks = suc r.channel.timeout_callbacks };
    }
    else r
count_timeout _ r = r

-- The flag is whether the caller is the reader thread.
unfoldable pub at_send_command_full : Bool → Request → List Event → Channel → Run Reply
at_send_command_full on_reader q events c =
    if on_reader
    then returns (record { code = invalid_thread; out = none; channel = c; to_come = events })
    else and_then (at_send_command_full_nolock q events c) (λ r. returns (count_timeout r.code r))

abbrev pub request : Bytes → CommandType → Option Bytes → Option Bytes → Bool → Request
request command type prefix pdu wants_out = record {
  command = command;
  type = type;
  prefix = prefix;
  pdu = pdu;
  timed = false;
  wants_out = wants_out;
}

unfoldable pub at_send_command : Bool → Bytes → Bool → List Event → Channel → Run Reply
at_send_command on_reader command wants_out =
    at_send_command_full on_reader (request command no_result none none wants_out)

-- "successful command must have an intermediate response"
unfoldable pub check_response : Code → Option Response → Reply → Reply
check_response ok (some r) reply =
    if r.success && is_nil r.intermediates
    then record reply { code = invalid_response; out = none }
    else reply
check_response _ _ reply = reply

abbrev checked : Run Reply → Run Reply
checked m = and_then m (λ r. returns (check_response r.code r.out r))

unfoldable pub at_send_command_singleline :
    Bool → Bytes → Bytes → Bool → List Event → Channel → Run Reply
at_send_command_singleline on_reader command prefix wants_out events c = checked (
    at_send_command_full on_reader (request command singleline (some prefix) none wants_out) events
      c)

unfoldable pub at_send_command_numeric : Bool → Bytes → Bool → List Event → Channel → Run Reply
at_send_command_numeric on_reader command wants_out events c =
    checked (at_send_command_full on_reader (request command numeric none none wants_out) events c)

unfoldable pub at_send_command_sms :
    Bool → Bytes → Bytes → Bytes → Bool → List Event → Channel → Run Reply
at_send_command_sms on_reader command pdu prefix wants_out events c = checked (
    at_send_command_full on_reader (request command singleline (some prefix) (some pdu) wants_out)
      events c)

unfoldable pub at_send_command_multiline :
    Bool → Bytes → Bytes → Bool → List Event → Channel → Run Reply
at_send_command_multiline on_reader command prefix wants_out =
    at_send_command_full on_reader (request command multiline (some prefix) none wants_out)

abbrev handshake_request : Request
handshake_request = record {
  command = codes "ATE0Q0V1";
  type = no_result;
  prefix = none;
  pdu = none;
  timed = true;
  wants_out = false;
}

abbrev is_ok : Code → Bool
is_ok ok = true
is_ok _ = false

-- The loop of `at_handshake`: the tries left, and the reply of the last one.
unfoldable pub handshake_tries : ℕ → Reply → Run Reply
handshake_tries zero last = returns last
handshake_tries (suc n) last =
    and_then (at_send_command_full_nolock handshake_request last.to_come last.channel)
      (λ r. elim (is_ok r.code) [ true ↦ returns r | false ↦ handshake_tries n r ])

abbrev pub handshake_retry_count : ℕ
handshake_retry_count = 8

unfoldable pub at_handshake : Bool → List Event → Channel → Run Reply
at_handshake on_reader events c =
    let start : Reply = record { code = ok; out = none; channel = c; to_come = events } in
    if on_reader
    then returns (record start { code = invalid_thread })
    else handshake_tries handshake_retry_count start

-- AT_CME_Error, as the number that the response gives
unfoldable pub cme_number : Status × Option ℤ × Cursor → ℤ
cme_number (success, some n, cur) = n
cme_number _ = negsuc 0

unfoldable pub cme_of_start : Status × Cursor → ℤ
cme_of_start (success, cur) = cme_number (at_tok_nextint cur)
cme_of_start (failure, cur) = negsuc 0

unfoldable pub cme_of_line : Option Bytes → ℤ
cme_of_line none = negsuc 0
cme_of_line (some text) =
    if str_starts_with text (codes "+CME ERROR:")
    then cme_of_start (at_tok_start (some text))
    else negsuc 0

unfoldable pub at_get_cme_error : Response → ℤ
at_get_cme_error r = if r.success then pos 0 else cme_of_line r.final_response
