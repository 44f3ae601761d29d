-- ===== src/ReferenceRil/Requests.antt =====
-- The request handlers of reference-ril/reference-ril.c: what they share. A handler runs on the
-- dispatch thread, not on the reader's; what happens on the channel while its commands wait is the
-- list of events of `World`. No other thread changes `sState` or the variables of the calls while a
-- handler runs. The responses that the handlers free are not kept.
pub mod Once
pub mod Radio
pub mod Calling
pub mod Messages
pub mod Card
pub mod Network
pub mod Operator
pub mod CurrentCalls
pub mod DataCalls
pub mod Cdma
pub mod Dispatch
pub mod Completed
pub mod Miscounts
pub mod Polling
pub mod Names
pub mod Slots
pub mod Calls
pub mod Contexts
use platform_hardware_ril.AtTok.{Cursor, Status, failure, success}
use platform_hardware_ril.AtChannel.Command.{
  Run, returns, blocked, reads_null, not_followed, Event, Reply, at_send_command,
  at_send_command_multiline, at_send_command_numeric, at_send_command_singleline,
  at_send_command_sms, line,
}
use platform_hardware_ril.AtChannel.Reader.{Channel, Response}
use platform_hardware_ril.AtChannel.Write.{Code, ok}
use platform_hardware_ril.ReferenceRil.SimStatus.{
  Answer, Notice, RadioState, SimStatus, absent, is_state, notices, null_read, on, set_radio_state,
  sim_of_reply, status,
}
use platform_hardware_ril.ReferenceRil.{Call, SimResponse}
use platform_hardware_ril.Base.Int.{ℤ}
use platform_hardware_ril.Base.{
  Bool, Bytes, List, Option, [], codes, false, if◌then◌else◌, none, some, true, ℕ, ◌++◌, ◌∷◌,
}

-- RIL_Errno, as far as the handlers answer it
pub data Errno : Type 0 where
  no_error radio_not_available generic_failure password_incorrect request_not_supported : Errno
  sms_send_fail_retry sim_absent modem_err lce_not_supported : Errno

-- the fields of RIL_Data_Call_Response_v11 that the handler of the list changes
pub record DataCall : Type 0 where
  pub status : ℤ
  pub cid : ℤ
  pub active : ℤ
  pub type : Bytes
  pub ifname : Bytes
  pub addresses : Bytes
  pub dnses : Bytes
  pub gateways : Bytes

-- What an answer carries; RIL_SMS_Response is its `messageRef`.
pub data Payload : Type 0 where
  nothing : Payload
  ints : List ℤ → Payload
  text : Bytes → Payload
  texts : List (Option Bytes) → Payload
  current_calls : List Call → Payload
  sms_response : ℤ → Payload
  data_calls : List DataCall → Payload
  sim_io : SimResponse → Payload

-- The channel with what is still to happen on it, `sState`, `s_closed > 0`, the notices that
-- `setRadioState` sent, `s_incomingOrWaitingLine`, `s_expectAnswer`, `s_repollCallsCount`, the timed
-- callbacks of `sendCallStateChanged` and those of `pollSIMState`, the data
-- call lists and the CDMA subscription sources that are sent unasked, and the answers to the request,
-- all three the latest first.
pub record World : Type 0 where
  pub channel : Channel
  pub to_come : List Event
  pub radio : RadioState
  pub closed : Bool
  pub notices : List Notice
  pub incoming_or_waiting : ℤ
  pub expect_answer : Bool
  pub repoll_count : ℕ
  pub call_callbacks : ℕ
  pub sim_callbacks : ℕ
  pub data_call_lists : List (Option (List DataCall))
  pub source_changes : List ℤ
  pub answers : List (Errno × Payload)

-- What a handler does: it waits for the modem for ever; it faults, in that it or a command it sends
-- reads through NULL, or it reads a variable that is not set or stores outside of an array; another
-- thread starts a command in the middle of one of its own, which is not followed; or it returns.
pub data Outcome : Type 0 where
  waits faults unfollowed : Outcome
  done : World → Outcome

-- `RIL_onRequestComplete(t, ...)`
unfoldable pub complete : Errno → Payload → World → World
complete e p w = record w { answers = (e, p) ∷ w.answers }

unfoldable pub answer : Errno → Payload → World → Outcome
unfolding complete
answer e p w = done (complete e p w)

-- what follows a command, on its code and its response
abbrev pub Continue : Type 0
Continue = Code → Option Response → World → Outcome

unfoldable pub resume : Continue → World → Run Reply → Outcome
resume k w blocked = waits
resume k w reads_null = faults
resume k w not_followed = unfollowed
resume k w (returns r) = k r.code r.out (record w { channel = r.channel; to_come = r.to_come })

-- a command whose result is not looked at
unfoldable pub send_only : Bytes → (World → Outcome) → World → Outcome
send_only command k w =
    resume (λ code out. k) w (at_send_command false command false w.to_come w.channel)

unfoldable pub send : Bytes → Continue → World → Outcome
send command k w = resume k w (at_send_command false command true w.to_come w.channel)

unfoldable pub send_singleline : Bytes → Bytes → Continue → World → Outcome
send_singleline command prefix k w =
    resume k w (at_send_command_singleline false command prefix true w.to_come w.channel)

unfoldable pub send_numeric : Bytes → Continue → World → Outcome
send_numeric command k w =
    resume k w (at_send_command_numeric false command true w.to_come w.channel)

unfoldable pub send_multiline : Bytes → Bytes → Continue → World → Outcome
send_multiline command prefix k w =
    resume k w (at_send_command_multiline false command prefix true w.to_come w.channel)

unfoldable pub send_sms : Bytes → Bytes → Bytes → Continue → World → Outcome
send_sms command pdu prefix k w =
    resume k w (at_send_command_sms false command pdu prefix true w.to_come w.channel)

-- `if (err < 0 || p_response->success == 0) bad else good`; every code but that of no error is
-- negative.
unfoldable pub on_success : (World → Outcome) → (Response → World → Outcome) → Continue
on_success bad good ok (some r) w = if r.success then good r w else bad w
on_success bad good ok none w = faults
on_success bad good _ out w = bad w

-- `p_response->p_intermediates->line`
unfoldable pub of_lines : (Bytes → World → Outcome) → World → List Bytes → Outcome
of_lines k w [] = faults
of_lines k w (l ∷ ls) = k l w

unfoldable pub with_line : (Bytes → World → Outcome) → Response → World → Outcome
with_line k r w = of_lines k w r.intermediates

unfoldable pub on_answer : (SimStatus → World → Outcome) → World → Answer → Outcome
on_answer k w (status s) = k s w
on_answer k w null_read = faults

-- a call of `getSIMStatus`
unfoldable pub ask_sim : (SimStatus → World → Outcome) → World → Outcome
ask_sim k =
    send_singleline (codes "AT+CPIN?") (codes "+CPIN:")
      (λ code out w. on_answer k w (sim_of_reply (is_state w.radio on) code out))

abbrev pub is_absent : SimStatus → Bool
is_absent absent = true
is_absent _ = false

-- `if (getSIMStatus() == SIM_ABSENT) { RIL_onRequestComplete(t, e, NULL, 0); return; }`
unfoldable pub unless_absent : Errno → (World → Outcome) → World → Outcome
unless_absent e k = ask_sim (λ s w. if is_absent s then answer e nothing w else k w)

-- `setRadioState`
unfoldable pub change_state : RadioState → World → World
change_state state w =
    let (radio, sent) = set_radio_state w.closed w.radio state in
    record w { radio = radio; notices = w.notices ++ sent }

-- the label `error` of most handlers
unfoldable pub fail : World → Outcome
fail w = answer generic_failure nothing w

unfoldable pub succeed : World → Outcome
succeed w = answer no_error nothing w

-- A parsed value as the answer, or the label `error`.
unfoldable pub answer_parsed : {A : Type 0} → (A → Payload) → World → Status × Cursor × A → Outcome
answer_parsed payload w (success, cur, a) = answer no_error (payload a) w
answer_parsed payload w (failure, cur, a) = fail w

-- `if (t) k; else l`
unfoldable pub on_test : (World → Bool) → (World → Outcome) → (World → Outcome) → World → Outcome
on_test t k l w = if t w then k w else l w
