-- ===== src/ReferenceRil/Requests/Radio.antt =====
-- The requests of reference-ril/reference-ril.c that switch the radio, and `pollSIMState`.
use platform_hardware_ril.ReferenceRil.Requests.{on_test}
use platform_hardware_ril.ReferenceRil.Requests.Once.{test-once}
use platform_hardware_ril.ReferenceRil.Requests.{
  Outcome, World, ask_sim, change_state, done, fail, on_success, resume, send, send_only,
  send_singleline, succeed, with_line,
}
use platform_hardware_ril.ReferenceRil.Requests.Once.{
  Answers, fail-once, on_line-once, on_success-once, send-once, send_singleline-once, succeed-once,
}
use platform_hardware_ril.ReferenceRil.SimStatus.{
  RadioState, SimStatus, is_state, not_ready, off, on, ready, sim_status_changed, unavailable,
}
use platform_hardware_ril.ReferenceRil.{put_token, ◌then_parse◌}
use platform_hardware_ril.AtTok.{Cursor, Status, at_tok_nextbool, at_tok_start, failure, success}
use platform_hardware_ril.Base.Int.{negsuc, pos, ℤ}
use platform_hardware_ril.Base.{
  Bool, Bytes, [], codes, false, if◌then◌else◌, not, some, suc, ℕ, ◌&&◌, ◌++◌, ◌==◌, ◌∷◌,
}
use platform_hardware_ril.AtChannel.Command.{at_send_command_singleline}

-- `err = at_tok_start(&line); if (err < 0) goto error; err = at_tok_nextbool(&line, &ret);`
unfoldable pub radio_flag : Bytes → Status × Cursor × ℤ
radio_flag l =
    let (code, cur) = at_tok_start (some l) in
    (code, cur, pos 0) then_parse (λ cur. put_token (λ v old. v) (at_tok_nextbool cur))

unfoldable pub flag_or_error : Status × Cursor × ℤ → ℤ
flag_or_error (success, cur, v) = v
flag_or_error (failure, cur, v) = negsuc 0

-- `isRadioOn`, with what follows it
unfoldable pub ask_radio : (ℤ → World → Outcome) → World → Outcome
ask_radio k =
    send_singleline (codes "AT+CFUN?") (codes "+CFUN:")
      (on_success (k (negsuc 0)) (with_line (λ l. k (flag_or_error (radio_flag l)))))

abbrev pub is_int : ℕ → ℤ → Bool
is_int n (pos m) = m == n
is_int n (negsuc m) = false

abbrev pub is_positive : ℤ → Bool
is_positive (pos m) = not (m == 0)
is_positive (negsuc m) = false

-- `setRadioState(state)` and the answer of success
unfoldable pub now_in : RadioState → World → Outcome
now_in state w = succeed (change_state state w)

unfoldable pub request_radio_power : ℤ → World → Outcome
request_radio_power on_off =
    on_test (λ w. is_int 0 on_off && not (is_state w.radio off))
      (send (codes "AT+CFUN=0") (on_success fail (λ r. now_in off)))
      (on_test (λ w. is_positive on_off && is_state w.radio off)
        (send (codes "AT+CFUN=1") (
          on_success (ask_radio (λ v. on_test (λ w. is_int 1 v) (now_in on) fail))
            (λ r. now_in on)))
        succeed)

unfoldable pub request_shutdown : World → Outcome
request_shutdown =
    on_test (λ w. not (is_state w.radio off))
      (send (codes "AT+CFUN=0") (λ code out. now_in unavailable)) succeed

-- `onSIMReady`
unfoldable pub on_sim_ready : (World → Outcome) → World → Outcome
on_sim_ready k w =
    resume (λ code out. send_only (codes "AT+CNMI=1,2,2,1,1") k) w
      (at_send_command_singleline false (codes "AT+CSMS=1") (codes "+CSMS:") false w.to_come
        w.channel)

-- `RIL_onUnsolicitedResponse(RIL_UNSOL_RESPONSE_SIM_STATUS_CHANGED, NULL, 0)`
unfoldable pub tell_sim_status : World → Outcome
tell_sim_status w = done (record w { notices = w.notices ++ sim_status_changed ∷ [] })

-- the switch on `getSIMStatus()`; the first argument is the branch of SIM_READY
unfoldable pub poll_switch : (World → Outcome) → SimStatus → World → Outcome
poll_switch when_ready not_ready w = done (record w { sim_callbacks = suc w.sim_callbacks })
poll_switch when_ready ready w = when_ready w
poll_switch when_ready _ w = tell_sim_status w

unfoldable pub poll_sim_with : (World → Outcome) → World → Outcome
poll_sim_with when_ready w =
    if not (is_state w.radio unavailable) then done w else ask_sim (poll_switch when_ready) w

unfoldable pub poll_sim_state : World → Outcome
poll_sim_state = poll_sim_with (on_sim_ready tell_sim_status)

now_in-once : (b : Bool) (state : RadioState) → Answers b (now_in state)
unfolding now_in change_state
now_in-once b state shut old w h = succeed-once b shut old _ h

ask_radio-once :
    (b : Bool) (k : ℤ → World → Outcome) → ((v : ℤ) → Answers b (k v)) → Answers b (ask_radio k)
unfolding ask_radio
ask_radio-once b k f = send_singleline-once b _ _ _ (on_line-once b _ _ (f _) (λ l. f _ false))

pub radio_power-once : (b : Bool) (on_off : ℤ) → Answers b (request_radio_power on_off)
unfolding request_radio_power
radio_power-once b on_off =
    test-once b _ _ _
      (send-once b _ _ (on_success-once b fail _ (fail-once b) (λ r. now_in-once b off)))
      (test-once b _ _ succeed
        (send-once b _ _ (
          on_success-once b _ _
            (ask_radio-once b _ (λ v. test-once b _ _ fail (now_in-once b on) (fail-once b)))
            (λ r. now_in-once b on)))
        (succeed-once b))

pub shutdown-once : (b : Bool) → Answers b request_shutdown
unfolding request_shutdown
shutdown-once b =
    test-once b _ _ succeed (send-once b _ _ (λ code out q shut n. now_in-once b unavailable shut))
      (succeed-once b)
