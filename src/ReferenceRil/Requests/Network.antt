-- ===== src/ReferenceRil/Requests/Network.antt =====
-- The network requests of reference-ril/reference-ril.c other than OPERATOR.
use platform_hardware_ril.ReferenceRil.Requests.Once.{AnswersIf}
use platform_hardware_ril.Base.{refl}
use platform_hardware_ril.ReferenceRil.Registration
use platform_hardware_ril.ReferenceRil.Registration.{
  State, parsed, invalid, overflow, parse_registration_state,
}
use platform_hardware_ril.ReferenceRil.Requests.{
  Continue, Outcome, World, answer, answer_parsed, complete, done, fail, faults, generic_failure,
  ints, no_error, nothing, of_lines, on_success, radio_not_available, send_only, send_singleline,
  texts, unless_absent, with_line,
}
use platform_hardware_ril.ReferenceRil.Requests.Once.{
  Answers, Continues, answer-once, answer_parsed-once, fail-once, on_line-once,
  send_singleline-once,
}
use platform_hardware_ril.AtChannel.Command.Out.{IsUsable}
use platform_hardware_ril.ReferenceRil.{is_3gpp2, put_token, ◌then_parse◌}
use platform_hardware_ril.AtChannel.Reader.{Response}
use platform_hardware_ril.AtChannel.Write.{Code, ok}
use platform_hardware_ril.AtTok.{Cursor, Status, at_tok_nextint, at_tok_start, failure, success}
use platform_hardware_ril.Libc.{print_hex, print_int}
use platform_hardware_ril.Base.Int.{negsuc, pos, ℤ}
use platform_hardware_ril.Base.{
  Bool, Bytes, List, Option, [], codes, false, get_or, if◌then◌else◌, ltb, none, replicate, set,
  some, suc, true, zero, ℕ, ◌∷◌,
}

-- `at_tok_start` and one `at_tok_nextint`
unfoldable pub first_int : Bytes → Status × Cursor × ℤ
first_int l =
    let (code, cur) = at_tok_start (some l) in
    (code, cur, pos 0) then_parse (λ cur. put_token (λ n old. n) (at_tok_nextint cur))

unfoldable pub request_query_network_selection_mode : World → Outcome
request_query_network_selection_mode =
    send_singleline (codes "AT+COPS?") (codes "+COPS:")
      (on_success fail (with_line (λ l w. answer_parsed (λ n. ints (n ∷ [])) w (first_int l))))

-- RIL_REQUEST_SET_NETWORK_SELECTION_AUTOMATIC
unfoldable pub request_set_network_selection_automatic : World → Outcome
request_set_network_selection_automatic =
    unless_absent radio_not_available (send_only (codes "AT+COPS=0") done)

-- the elements of RIL_SignalStrength_v6 and RIL_SignalStrength_v10
abbrev pub min_strengths : ℕ
min_strengths = 12

abbrev pub max_strengths : ℕ
max_strengths = 14

-- What the array `response` holds, once the loop has ended.
unfoldable pub after_strength :
    (Cursor → List ℤ → Option (List ℤ)) → ℕ → List ℤ → Status × Option ℤ × Cursor → Option (List ℤ)
after_strength next count response (success, none, cur) = next cur response
after_strength next count response (success, some v, cur) = next cur (set response count v)
after_strength next count response (failure, none, cur) =
    if ltb count min_strengths then none else next cur response
after_strength next count response (failure, some v, cur) =
    if ltb count min_strengths then none else next cur (set response count v)

-- The loop, with the elements that are left and `count`.
unfoldable pub read_strengths : ℕ → ℕ → Cursor → List ℤ → Option (List ℤ)
read_strengths zero count cur response = some response
read_strengths (suc left) count cur response =
    after_strength (read_strengths left (suc count)) count response (at_tok_nextint cur)

unfoldable pub strengths_of_start : Status × Cursor → Option (List ℤ)
strengths_of_start (success, cur) =
    read_strengths max_strengths 0 cur (replicate max_strengths (pos 0))
strengths_of_start (failure, cur) = none

unfoldable pub answer_strengths : World → Option (List ℤ) → Outcome
answer_strengths w none = fail w
answer_strengths w (some strengths) = answer no_error (ints strengths) w

-- Where the command fails, the request is completed before the jump to `error`, which completes it.
unfoldable pub fail_twice : World → Outcome
fail_twice w = fail (complete generic_failure nothing w)

unfoldable pub request_signal_strength : World → Outcome
request_signal_strength = send_singleline (codes "AT+CSQ") (codes "+CSQ:") (
    on_success fail_twice
      (with_line (λ l w. answer_strengths w (strengths_of_start (at_tok_start (some l))))))

-- RIL_REQUEST_VOICE_REGISTRATION_STATE and RIL_REQUEST_DATA_REGISTRATION_STATE
pub data Domain : Type 0 where
  voice packet : Domain

unfoldable pub registration_command : Domain → Bytes × Bytes
registration_command voice = (codes "AT+CREG?", codes "+CREG:")
registration_command packet = (codes "AT+CGREG?", codes "+CGREG:")

-- the strings from the fourth on, for a modem of 3GPP2
unfoldable pub cdma_strings : Domain → List (Option Bytes)
cdma_strings voice =
    some (codes "8")
    ∷ some (codes "1")
    ∷ some (codes "123")
    ∷ some (codes "222")
    ∷ some (codes "0")
    ∷ some (codes "4")
    ∷ some (codes "65535")
    ∷ some (codes "0")
    ∷ some (codes "1")
    ∷ some (codes "0")
    ∷ some (codes "0")
    ∷ some (codes "0")
    ∷ []
cdma_strings packet = some (codes "8") ∷ none ∷ none ∷ []

-- the same for a modem of 3GPP: the fourth string is there with more than three numbers
abbrev gsm_strings : Domain → Option Bytes → List (Option Bytes)
gsm_strings voice fourth = fourth ∷ replicate 11 none
gsm_strings packet fourth = fourth ∷ none ∷ none ∷ []

abbrev is_3gpp2_type : ℤ → Bool
is_3gpp2_type (pos n) = is_3gpp2 n
is_3gpp2_type (negsuc n) = false

-- `responseStr`; the loop that looks for NULL in it tests its first string only, which is set.
unfoldable pub registration_strings : Domain → State → List (Option Bytes)
registration_strings d s =
    let number : ℕ → ℤ = λ i. get_or s.response i (pos 0) in
    if is_3gpp2_type s.type
    then some (print_int (number 0)) ∷ none ∷ none ∷ cdma_strings d
    else some (print_int (number 0))
      ∷ some (print_hex (number 1))
      ∷ some (print_hex (number 2))
      ∷ gsm_strings d (if ltb 3 s.items then some (print_int (number 3)) else none)

unfoldable pub answer_registration : Domain → World → Registration.Outcome → Outcome
answer_registration d w (parsed s) = answer no_error (texts (registration_strings d s)) w
answer_registration d w invalid = fail w
answer_registration d w overflow = faults

-- `if (err != 0) goto error;`, with no look at `success`
unfoldable pub on_no_error : (World → Outcome) → (Response → World → Outcome) → Continue
on_no_error bad good ok (some r) w = good r w
on_no_error bad good ok none w = faults
on_no_error bad good _ out w = bad w

-- The number is TECH(sMdmInfo).
unfoldable pub request_registration_state : ℕ → Domain → World → Outcome
request_registration_state tech d =
    let (command, prefix) = registration_command d in
    send_singleline command prefix (
      on_no_error fail
        (with_line (λ l w. answer_registration d w (parse_registration_state tech l))))

pub query_selection_mode-once : (b : Bool) → Answers b request_query_network_selection_mode
unfolding request_query_network_selection_mode
query_selection_mode-once b =
    send_singleline-once b _ _ _
      (on_line-once b fail _ (fail-once b) (λ l. answer_parsed-once b _ _ false))

answer_registration-once :
    (d : Domain) (o : Registration.Outcome) → AnswersIf true false (λ w. answer_registration d w o)
unfolding answer_registration
answer_registration-once d (parsed s) old w h = answer-once true _ _ false old w h
answer_registration-once d invalid old w h = fail-once true false old w h
answer_registration-once d overflow old w h = refl

of_lines-Answers :
    (k : Bytes → World → Outcome) (ls : List Bytes)
    → ((l : Bytes) → AnswersIf true false (k l))
    → AnswersIf true false (λ w. of_lines k w ls)
unfolding of_lines
of_lines-Answers k [] f old w h = refl
of_lines-Answers k (l ∷ ls) f old w h = f l old w h

pub on_no_error-once :
    (bad : World → Outcome) (good : Response → World → Outcome)
    → Answers true bad
    → ((r : Response) → AnswersIf true false (good r))
    → (Q : Code → Option Response → Type 0) → Continues true Q (on_no_error bad good)
unfolding on_no_error
on_no_error-once bad good f g Q ok out q true n old w h = absurd (n refl refl)
on_no_error-once bad good f g Q ok none q false n old w h = refl
on_no_error-once bad good f g Q ok (some r) q false n old w h = g r old w h
on_no_error-once bad good f g Q _ out q shut n old w h = f shut old w h

pub registration_state-once :
    (tech : ℕ) (d : Domain) → Answers true (request_registration_state tech d)
unfolding request_registration_state with_line
registration_state-once tech d = send_singleline-once true _ _ _ (
    on_no_error-once fail _ (fail-once true)
      (λ r. of_lines-Answers _ r.intermediates (λ l. answer_registration-once d _)) IsUsable)
