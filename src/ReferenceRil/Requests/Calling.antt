-- ===== src/ReferenceRil/Requests/Calling.antt =====
-- The call requests of reference-ril/reference-ril.c other than GET_CURRENT_CALLS.
use platform_hardware_ril.AtChannel.Command.Alone.{Alone}
use platform_hardware_ril.Base.{set}
use platform_hardware_ril.AtChannel.Command.Closed.{IsClosed}
use platform_hardware_ril.ReferenceRil.Requests.{
  Outcome, World, answer, ask_sim, fail, modem_err, nothing, on_test, radio_not_available,
  send_only, succeed, unless_absent,
}
use platform_hardware_ril.ReferenceRil.Requests.Once.{
  Answers, answer-once, ask_sim-once, fail-once, send_only-once, succeed-once, test-once,
  unless_absent-once,
}
use platform_hardware_ril.ReferenceRil.SimStatus.{SimStatus, ready}
use platform_hardware_ril.Libc.{print_int}
use platform_hardware_ril.Base.Int.{negsuc, pos, ℤ}
use platform_hardware_ril.Base.{
  subst, sym, Bool, Bytes, [], codes, false, if◌then◌else◌, ltb, refl, true, ℕ, ◌&&◌, ◌++◌, ◌∙◌,
  ◌∷◌, ◌≡◌,
}
use platform_hardware_ril.ReferenceRil.Requests.Radio.{is_int}

-- the requests of `requestCallSelection`
pub data Selection : Type 0 where
  hangup_waiting hangup_foreground switch_waiting conference udub : Selection

unfoldable pub selection_command : Selection → Bytes
selection_command hangup_waiting = codes "AT+CHLD=0"
selection_command hangup_foreground = codes "AT+CHLD=1"
selection_command switch_waiting = codes "AT+CHLD=2"
selection_command conference = codes "AT+CHLD=3"
selection_command udub = codes "ATH"

-- `s_expectAnswer = 1` of one of the cases
unfoldable pub expect_switch : Selection → World → World
expect_switch switch_waiting w = record w { expect_answer = true }
expect_switch _ w = w

-- an assignment to the variables
unfoldable pub after : (World → World) → (World → Outcome) → World → Outcome
after set k w = k (set w)

unfoldable pub request_call_selection : Selection → World → Outcome
request_call_selection s =
    unless_absent radio_not_available
      (after (expect_switch s) (send_only (selection_command s) succeed))

abbrev clir_mark : ℤ → Bytes
clir_mark clir = if is_int 1 clir then codes "I" else if is_int 2 clir then codes "i" else []

unfoldable pub request_dial : Bytes → ℤ → World → Outcome
request_dial address clir =
    send_only (codes "ATD" ++ address ++ clir_mark clir ++ codes ";") succeed

unfoldable pub request_hangup : ℤ → World → Outcome
request_hangup line_index =
    unless_absent modem_err (send_only (codes "AT+CHLD=1" ++ print_int line_index) succeed)

abbrev is_ready : SimStatus → Bool
is_ready ready = true
is_ready _ = false

-- RIL_REQUEST_ANSWER
unfoldable pub request_answer : World → Outcome
request_answer = send_only (codes "ATA") (
    after (λ w. record w { expect_answer = true })
      (ask_sim (λ s. on_test (λ w. is_ready s) succeed (answer modem_err nothing))))

abbrev is_digit_party : ℤ → Bool
is_digit_party (pos n) = ltb 0 n && ltb n 10
is_digit_party (negsuc n) = false

-- RIL_REQUEST_SEPARATE_CONNECTION
unfoldable pub request_separate_connection : ℤ → World → Outcome
request_separate_connection party = unless_absent radio_not_available (
    on_test (λ w. is_digit_party party) (send_only (codes "AT+CHLD=2" ++ print_int party) succeed)
      fail)

-- RIL_REQUEST_DTMF
unfoldable pub request_dtmf : ℕ → World → Outcome
request_dtmf c = send_only (codes "AT+VTS=" ++ c ∷ []) succeed

expect_switch-answers : (s : Selection) (w : World) → (expect_switch s w).answers ≡ w.answers
unfolding expect_switch
expect_switch-answers switch_waiting w = refl
expect_switch-answers _ w = refl

expect_switch-channel :
    (s : Selection) (w : World)
    → ((expect_switch s w).channel ≡ w.channel) × ((expect_switch s w).to_come ≡ w.to_come)
unfolding expect_switch
expect_switch-channel switch_waiting w = (refl, refl)
expect_switch-channel _ w = (refl, refl)

after-once :
    (b : Bool) (set : World → World) (k : World → Outcome)
    → ((w : World) → (set w).answers ≡ w.answers)
    → ((w : World) → ((set w).channel ≡ w.channel) × ((set w).to_come ≡ w.to_come))
    → Answers b k
    → Answers b (after set k)
unfolding after
after-once b set k e n f shut old w h =
    f shut old (set w)
      (e w ∙ h.0, λ t. subst IsClosed (sym (n w).0) (h.1 t), subst Alone (sym (n w).1) h.2)

pub call_selection-once : (s : Selection) → Answers true (request_call_selection s)
unfolding request_call_selection
call_selection-once s = unless_absent-once _ _ (
    after-once true _ _ (expect_switch-answers s) (expect_switch-channel s)
      (send_only-once true _ succeed (succeed-once true)))

pub dial-once : (b : Bool) (address : Bytes) (clir : ℤ) → Answers b (request_dial address clir)
unfolding request_dial
dial-once b address clir = send_only-once b _ succeed (succeed-once b)

pub hangup-once : (line_index : ℤ) → Answers true (request_hangup line_index)
unfolding request_hangup
hangup-once line_index = unless_absent-once _ _ (send_only-once true _ succeed (succeed-once true))

pub answer_request-once : Answers true request_answer
unfolding request_answer
answer_request-once = send_only-once true _ _ (
    after-once true _ _ (λ w. refl) (λ w. (refl, refl))
      (ask_sim-once _
        (λ s. test-once true _ succeed _ (succeed-once true) (answer-once true modem_err nothing))))

pub separate_connection-once : (party : ℤ) → Answers true (request_separate_connection party)
unfolding request_separate_connection
separate_connection-once party =
    unless_absent-once _ _
      (test-once true _ _ fail (send_only-once true _ succeed (succeed-once true)) (fail-once true))

pub dtmf-once : (b : Bool) (c : ℕ) → Answers b (request_dtmf c)
unfolding request_dtmf
dtmf-once b c = send_only-once b _ succeed (succeed-once b)
