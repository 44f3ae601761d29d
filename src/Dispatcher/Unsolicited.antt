-- ===== src/Dispatcher/Unsolicited.antt =====
-- Unsolicited messages in libril/ril.cpp: `RIL_register`, `RIL_onUnsolicitedResponse` with the wake
-- lock around it, and the NITZ time that is kept for a client that connects later.
pub mod Nitz
use platform_hardware_ril.Base.{
  ℕ, ◌-◌, Bool, true, false, not, ◌&&◌, ◌||◌, Option, none, some, List, [], ◌∷◌, Bytes, ltb, leb,
  ◌==◌, if◌then◌else◌,
}
use platform_hardware_ril.Base.Int.{ℤ, pos, negsuc}
use platform_hardware_ril.Dispatcher.WakeLock.{
  Wake, Call, wake_timeout, grab_partial_wake_lock, release_lock, internal_request_timed_callback,
  replace_last, timeval_wake_timeout,
}
use platform_hardware_ril.Dispatcher.Requests.{ResponseType, unsolicited, unsolicited_ack_exp}

-- What a response function of the radio service was called with: the response type, the code of the
-- message and its data; for a NITZ time also when it was received.
pub record Indication : Type 0 where
  pub type : ResponseType
  pub code : ℕ
  pub data_sent : Option Bytes
  pub received : Option ℕ

-- `connected` is whether the radio service has a client for indications; `indicated` is what it was
-- given, the latest first; `last_nitz` is `s_lastNITZTimeData` with its size; `nitz_received` is
-- the `nitzTimeReceived` of libril/ril_service.cpp.
pub record Daemon : Type 0 where
  pub register_called : Bool
  pub wake : Wake
  pub connected : Bool
  pub indicated : List Indication
  pub last_nitz : Option Bytes
  pub nitz_received : ℕ

abbrev pub ril_version_min : ℕ
ril_version_min = 6

-- The argument is the version of the callbacks, `none` for a NULL pointer. The service that it
-- registers has no client yet.
unfoldable pub ril_register : Option ℕ → Daemon → Daemon
ril_register none d = d
ril_register (some version) d =
    if ltb version ril_version_min || d.register_called
    then d
    else record d { register_called = true; wake = record d.wake { version = version } }

unfoldable pub send_nitz : ResponseType → Option Bytes → Daemon → Daemon
send_nitz type none d = d
send_nitz type (some []) d = d
send_nitz type (some (b ∷ bs)) d = record d {
  indicated =
      record {
        type = type;
        code = 1008;
        data_sent = some (b ∷ bs);
        received = some d.nitz_received;
      }
      ∷ d.indicated;
}

-- `nitzTimeReceivedInd` of libril/ril_service.cpp, with its return value; it sends no message for
-- data that is NULL or empty.
unfoldable pub nitz_time_received_ind : ResponseType → Option Bytes → Daemon → ℤ × Daemon
nitz_time_received_ind type data_sent d =
    if d.connected then (pos 0, send_nitz type data_sent d) else (negsuc 0, d)

-- The response functions other than that of NITZ: the environment says what they return, and they
-- are recorded as called. The message 1041 has none; what it returns is read for NITZ alone.
unfoldable pub call_response_function :
    (Indication → ℤ) → ResponseType → ℕ → Option Bytes → Daemon → ℤ × Daemon
call_response_function respond type code data_sent d =
    if code == 1008
    then nitz_time_received_ind type data_sent d
    else if code == 1041
    then (pos 0, d)
    else (let indication : Indication = record {
      type = type;
      code = code;
      data_sent = data_sent;
      received = none;
    } in
        (respond indication, record d { indicated = indication ∷ d.indicated }))

-- the table `s_unsolResponses`: its codes, and the two that do not wake
abbrev pub is_unsol : ℕ → Bool
is_unsol code = leb 1000 code && leb code 1050

unfoldable pub wakes_partially : ℕ → Bool
wakes_partially code = not (code == 1007 || code == 1009)

unfoldable pub grab_for : Call → ℕ → Daemon → Daemon
grab_for call code d =
    if wakes_partially code then record d { wake = grab_partial_wake_lock call d.wake } else d

unfoldable pub unsol_type : Daemon → ℕ → ResponseType
unsol_type d code =
    if leb 13 d.wake.version && wakes_partially code then unsolicited_ack_exp else unsolicited

-- behind the call of `internalRequestTimedCallback`; the flag is whether it found memory
unfoldable pub set_timeout : Option ℕ × Wake → Bool × Wake
set_timeout (none, w) = (false, w)
set_timeout (some p, w) = (true, replace_last p w)

-- "if (s_callbacks.version < 13)": a timer of its own; `false` is a jump to `error_exit`.
unfoldable pub schedule_timeout : Call → ℕ → Daemon → Bool × Daemon
schedule_timeout call code d =
    if ltb d.wake.version 13 && wakes_partially code
    then (let (found, w) = set_timeout (
          internal_request_timed_callback call wake_timeout false (some timeval_wake_timeout)
            d.wake) in
        (found, record d { wake = w }))
    else (true, d)

abbrev pub is_zero : ℤ → Bool
is_zero (pos n) = n == 0
is_zero (negsuc n) = false

-- `memcpy` of `datalen` bytes; the NULL pointer comes with the length 0
abbrev pub copied : Option Bytes → Bytes
copied none = []
copied (some bytes) = bytes

-- "keep a copy of the last NITZ response"; the flag is whether `calloc` finds memory, and `false` is
-- a jump to `error_exit`.
unfoldable pub keep_nitz : Bool → ℤ → ℕ → Option Bytes → Daemon → Bool × Daemon
keep_nitz memory ret code data_sent d =
    if not (is_zero ret) && code == 1008
    then (if memory
        then (true, record d { last_nitz = some (copied data_sent) })
        else (false, record d { last_nitz = none }))
    else (true, d)

-- the label `error_exit`
unfoldable pub error_exit : ℕ → Daemon → Daemon
error_exit code d = if wakes_partially code then record d { wake = release_lock d.wake } else d

unfoldable pub exit_by : ℕ → Bool × Daemon → Daemon
exit_by code (true, d) = d
exit_by code (false, d) = error_exit code d

-- behind the call of the response function
unfoldable pub after_response : Call → Bool → ℕ → Option Bytes → ℤ × Daemon → Daemon
after_response call memory code data_sent (ret, d) =
    let (scheduled, d') = schedule_timeout call code d in
    exit_by code (if scheduled then keep_nitz memory ret code data_sent d' else (false, d'))

-- `setNitzTimeReceived`, with the time that `elapsedRealtime` gives
unfoldable pub note_nitz : ℕ → ℕ → Daemon → Daemon
note_nitz elapsed code d = if code == 1008 then record d { nitz_received = elapsed } else d

-- The flag is whether `calloc` finds memory for a NITZ time; the number behind is the time elapsed.
unfoldable pub ril_on_unsolicited_response :
    (Indication → ℤ) → Call → Bool → ℕ → ℕ → Option Bytes → Daemon → Daemon
ril_on_unsolicited_response respond call memory elapsed code data_sent d =
    if not d.register_called
    then d
    else if not (is_unsol code)
    then d
    else after_response call memory code data_sent (
        call_response_function respond (unsol_type d code) code data_sent
          (note_nitz elapsed code (grab_for call code d)))

-- behind the call of `nitzTimeReceivedInd`: the copy is freed if that returned 0
unfoldable pub free_nitz : ℤ × Daemon → Daemon
free_nitz (ret, d) = if is_zero ret then record d { last_nitz = none } else d

unfoldable pub resend_last_nitz_time_data : Daemon → Daemon
resend_last_nitz_time_data d = elim d.last_nitz [
  | none ↦ d
  | some bytes ↦ free_nitz (
      nitz_time_received_ind (if leb 13 d.wake.version then unsolicited_ack_exp else unsolicited)
        (some bytes) d)
]

-- What `onNewCommandConnect` sends to a client that has connected: RIL_UNSOL_RIL_CONNECTED with the
-- version, the radio state changed, and the NITZ time, if one is kept. The argument has the version
-- as bytes; the time elapsed does not matter to these messages; setting the system's version property is left out.
unfoldable pub on_new_command_connect : (Indication → ℤ) → Call → Call → Bytes → Daemon → Daemon
on_new_command_connect respond first second version d = resend_last_nitz_time_data (
    ril_on_unsolicited_response respond second true 0 1000 none
      (ril_on_unsolicited_response respond first true 0 1034 (some version) d))
