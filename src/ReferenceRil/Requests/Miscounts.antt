-- ===== src/ReferenceRil/Requests/Miscounts.antt =====
-- The requests of reference-ril/reference-ril.c that are not completed exactly once, and the
-- registration request of a modem that answers with an error.
use platform_hardware_ril.Base.{All, map, none, not, subst, ◌++◌, ◌≢◌}
use platform_hardware_ril.AtTok.{at_tok_start}
use platform_hardware_ril.AtChannel.Command.{Event, line, wakes}
use platform_hardware_ril.AtChannel.Command.Clean.{Returned}
use platform_hardware_ril.AtChannel.Command.Out.{IsUsable, singleline-IsUsable}
use platform_hardware_ril.AtChannel.Command.Exchange.{IsFinal}
use platform_hardware_ril.AtChannel.Command.Sorting.{IsOrdinary}
use platform_hardware_ril.AtChannel.Command.Refused.{Sends, Unrelated, singleline-refused}
use platform_hardware_ril.AtChannel.Write.{Device}
use platform_hardware_ril.ReferenceRil.Requests.{ints}
use platform_hardware_ril.ReferenceRil.Requests.Once.{Finishes, OneMore}
use platform_hardware_ril.ReferenceRil.Requests.Network.{answer_strengths, strengths_of_start}
use platform_hardware_ril.AtChannel.Command.{Run, returns}
use platform_hardware_ril.ReferenceRil.Requests.{Continue}
use platform_hardware_ril.AtChannel.Write.{Code}
use platform_hardware_ril.ReferenceRil.Requests.{
  is_absent, of_lines, on_answer, on_test, send_only, with_line,
}
use platform_hardware_ril.ReferenceRil.Requests.Once.{if-Ends}
use platform_hardware_ril.ReferenceRil.SimStatus.{Answer, SimStatus, absent, null_read, status}
use platform_hardware_ril.Base.Int.{ℤ, pos}
use platform_hardware_ril.Base.{
  Bool, Bytes, Option, [], arith, if◌then◌else◌, inl, suc, zero, ℕ, ◌<◌,
}
use platform_hardware_ril.ReferenceRil.Requests.Network.{
  Domain, on_no_error, registration_command, request_registration_state,
  request_set_network_selection_automatic,
}
use platform_hardware_ril.ReferenceRil.Requests.Messages.{acknowledged, request_sms_acknowledge}
use platform_hardware_ril.ReferenceRil.Requests.{
  Errno, Outcome, Payload, World, answer, ask_sim, complete, fail, faults, generic_failure,
  no_error, nothing, on_success, radio_not_available, resume, send_singleline, unless_absent,
}
use platform_hardware_ril.ReferenceRil.Requests.Once.{Ends}
use platform_hardware_ril.AtChannel.Reader.{Response}
use platform_hardware_ril.AtChannel.Write.{ok}
use platform_hardware_ril.Base.{List, codes, false, inr, refl, some, true, ◌∷◌, ◌≡◌, ◌⊎◌}
use platform_hardware_ril.ReferenceRil.Requests.Network.{fail_twice, request_signal_strength}
use platform_hardware_ril.AtChannel.Command.{Reply, at_send_command_singleline}

-- The command failed: there is an error code, or a response that reports no success.
abbrev pub has_failed : Code → Option Response → Bool
has_failed ok (some r) = not r.success
has_failed _ out = true

abbrev pub FailsTwice : Bool → List (Errno × Payload) → World → Type 0
FailsTwice true old w = w.answers ≡ (generic_failure, nothing) ∷ (generic_failure, nothing) ∷ old
FailsTwice false old w = OneMore old w

abbrev answer_line : Bytes → World → Outcome
answer_line l w = answer_strengths w (strengths_of_start (at_tok_start (some l)))

strengths-OneMore :
    (w : World) (o : Option (List ℤ)) → Finishes (OneMore w.answers) (answer_strengths w o)
unfolding answer_strengths fail answer complete
strengths-OneMore w none = ((generic_failure, nothing), refl)
strengths-OneMore w (some strengths) = ((no_error, ints strengths), refl)

good-FailsTwice :
    (w : World) (success : Bool) (ls : List Bytes)
    → (success ≡ false) ⊎ (ls ≢ [])
    → Finishes
        (FailsTwice (not success) w.answers)
        (if success then of_lines answer_line w ls else fail_twice w)
unfolding of_lines fail_twice fail answer complete
good-FailsTwice w false ls h = refl
good-FailsTwice w true [] (inl e) = cc
good-FailsTwice w true [] (inr n) = absurd (n refl)
good-FailsTwice w true (l ∷ ls) h = strengths-OneMore w (strengths_of_start (at_tok_start (some l)))

csq-FailsTwice :
    (w : World) (code : Code) (out : Option Response)
    → IsUsable code out
    → Finishes
        (FailsTwice (has_failed code out) w.answers)
        (on_success fail_twice (with_line answer_line) code out w)
unfolding on_success with_line fail_twice fail answer complete
csq-FailsTwice w ok none h = absurd h.0
csq-FailsTwice w ok (some r) h = good-FailsTwice w r.success r.intermediates h.1
csq-FailsTwice w _ out h = refl

-- Whatever the command AT+CSQ returns, SIGNAL_STRENGTH returns, and it is completed twice, each time with
-- GENERIC_FAILURE, exactly where the command failed, by an error code or by a response that reports
-- no success; otherwise it is completed once.
pub signal_strength-FailsTwice :
    (w : World) (r : Reply)
    → at_send_command_singleline false (codes "AT+CSQ") (codes "+CSQ:") true w.to_come w.channel
      ≡ returns r
    → Finishes (FailsTwice (has_failed r.code r.out) w.answers) (request_signal_strength w)
unfolding request_signal_strength send_singleline resume
signal_strength-FailsTwice w r e = rw e (
    csq-FailsTwice (record w { channel = r.channel; to_come = r.to_come }) r.code r.out
      (subst (Returned (λ r. IsUsable r.code r.out)) e
        (singleline-IsUsable (codes "AT+CSQ") (codes "+CSQ:") w.to_come w.channel)))

-- the two ways in which a request is answered: once with an error, or as the second property says
abbrev pub RefusedOr :
    (List (Errno × Payload) → World → Type 0) → List (Errno × Payload) → World → Type 0
RefusedOr P old w = (w.answers ≡ (radio_not_available, nothing) ∷ old) ⊎ P old w

abbrev pub Twice : List (Errno × Payload) → World → Type 0
Twice old w = w.answers ≡ (generic_failure, nothing) ∷ (no_error, nothing) ∷ old

abbrev pub Unanswered : List (Errno × Payload) → World → Type 0
Unanswered old w = w.answers ≡ old

abbrev Leaves : (List (Errno × Payload) → World → Type 0) → (World → Outcome) → Type 0
Leaves P k = (old : List (Errno × Payload)) (w : World) → w.answers ≡ old → Ends true (P old) (k w)

resume-Leaves :
    (P : List (Errno × Payload) → World → Type 0) (k : Continue) (old : List (Errno × Payload))
    (w : World) (m : Run Reply)
    → w.answers ≡ old
    → ((code : Code) (out : Option Response) → Leaves P (k code out))
    → Ends true (P old) (resume k w m)
unfolding resume
resume-Leaves P k old w (returns r) h f = f r.code r.out old _ h
resume-Leaves P k old w _ h f = tt

sim-Leaves :
    (P : List (Errno × Payload) → World → Type 0) (k : SimStatus → World → Outcome)
    → ((s : SimStatus) → Leaves P (k s))
    → Leaves P (ask_sim k)
unfolding ask_sim send_singleline on_answer
sim-Leaves P k f old w h = resume-Leaves P _ old w _ h (λ code out old v e. answered old v e _)
  where
    answered :
        (old : List (Errno × Payload)) (v : World)
        → v.answers ≡ old
        → (a : Answer) → Ends true (P old) (on_answer k v a)
    answered old v e (status s) = f s old v e
    answered old v e null_read = tt

test-Leaves :
    (P : List (Errno × Payload) → World → Type 0) (t : World → Bool) (k l : World → Outcome)
    → Leaves P k
    → Leaves P l
    → Leaves P (on_test t k l)
unfolding on_test
test-Leaves P t k l f g old w h =
    if-Ends true (P old) (t w) (k w) (l w) (λ e. f old w h) (λ e. g old w h)

test_true-Leaves :
    (P : List (Errno × Payload) → World → Type 0) (k l : World → Outcome)
    → Leaves P k
    → Leaves P (on_test (λ w. true) k l)
unfolding on_test
test_true-Leaves P k l f = f

send_only-Leaves :
    (P : List (Errno × Payload) → World → Type 0) (command : Bytes) (k : World → Outcome)
    → Leaves P k
    → Leaves P (send_only command k)
unfolding send_only
send_only-Leaves P command k f old w h = resume-Leaves P _ old w _ h (λ code out. f)

unless_absent-Leaves :
    (P : List (Errno × Payload) → World → Type 0) (k : World → Outcome)
    → Leaves P (answer radio_not_available nothing)
    → Leaves P k
    → Leaves P (unless_absent radio_not_available k)
unfolding unless_absent
unless_absent-Leaves P k a f = sim-Leaves P _ (λ s. absent_or s)
  where
    absent_or :
        (s : SimStatus)
        → Leaves P (λ w. if is_absent s then answer radio_not_available nothing w else k w)
    absent_or absent = a
    absent_or _ = f

refused :
    (P : List (Errno × Payload) → World → Type 0)
    → Leaves (RefusedOr P) (answer radio_not_available nothing)
unfolding answer complete
refused P old w h = inl (rw h refl)

acknowledged-Leaves : Leaves (RefusedOr Twice) acknowledged
unfolding acknowledged fail answer complete
acknowledged-Leaves old w h = inr (rw h refl)

acknowledge-Leaves :
    (ack : ℕ) → ack < 2 → Leaves (RefusedOr Twice) (request_sms_acknowledge (pos ack))
unfolding request_sms_acknowledge
acknowledge-Leaves zero h = unless_absent-Leaves _ _ (refused Twice) (
    test-Leaves _ _ _ _ (send_only-Leaves _ _ _ acknowledged-Leaves)
      (test_true-Leaves _ _ fail (send_only-Leaves _ _ _ acknowledged-Leaves)))
acknowledge-Leaves (suc zero) h =
    unless_absent-Leaves _ _ (refused Twice)
      (test_true-Leaves _ _ _ (send_only-Leaves _ _ _ acknowledged-Leaves))
acknowledge-Leaves (suc (suc n)) h = absurd (omega (arith, h))

automatic-Leaves : Leaves (RefusedOr Unanswered) request_set_network_selection_automatic
unfolding request_set_network_selection_automatic
automatic-Leaves =
    unless_absent-Leaves _ _ (refused Unanswered) (send_only-Leaves _ _ _ (λ old w h. inr h))

-- SMS_ACKNOWLEDGE with 0 or 1, where it returns, is completed with RADIO_NOT_AVAILABLE, or twice: with
-- success and then with GENERIC_FAILURE.
pub sms_acknowledge_fails :
    (ack : ℕ) (w : World)
    → ack < 2
    → Ends true (RefusedOr Twice w.answers) (request_sms_acknowledge (pos ack) w)
sms_acknowledge_fails ack w h = acknowledge-Leaves ack h w.answers w refl

-- SET_NETWORK_SELECTION_AUTOMATIC, where it returns, is completed with RADIO_NOT_AVAILABLE or not at
-- all.
pub set_automatic-Unanswered :
    (w : World)
    → Ends true (RefusedOr Unanswered w.answers) (request_set_network_selection_automatic w)
set_automatic-Unanswered w = automatic-Leaves w.answers w refl

-- On an open and idle channel, where the modem answers the command of a registration request with
-- lines that are no final response and do not start with the prefix, and then with a final response
-- of an error, the handler reads through NULL: it tests the code only, which is that of no error.
pub registration_null :
    (tech : ℕ) (d : Domain) (w : World) (f : Bytes) (ls : List Bytes) (events : List Event)
    (device : Device)
    → Sends w.channel (registration_command d).0 device
    → All IsOrdinary ls
    → Unrelated (registration_command d).1 ls
    → IsFinal false f
    → w.to_come ≡ map line ls ++ (line f ∷ wakes ∷ events)
    → request_registration_state tech d w ≡ faults
unfolding request_registration_state send_singleline resume on_no_error with_line of_lines
registration_null tech d w f ls events device s o u final e =
    rw (e, (singleline-refused _ _ f ls events w.channel device s o u final).1) refl
