-- ===== src/ReferenceRil/Requests/Cdma.antt =====
-- The requests of reference-ril/reference-ril.c for the device and the CDMA modem, and the query of the
-- preferred network type.
use platform_hardware_ril.ReferenceRil.Requests.Once.{AnswersIf}
use platform_hardware_ril.Base.{false, refl}
use platform_hardware_ril.ReferenceRil.Requests.{
  Outcome, World, answer, answer_parsed, complete, done, fail, faults, ints, no_error, nothing,
  on_success, on_test, send, send_numeric, send_singleline, succeed, text, texts, with_line,
}
use platform_hardware_ril.ReferenceRil.Requests.Once.{
  Answers, answer-once, answer_parsed-once, fail-once, on_line-once, on_success-once, send-once,
  send_numeric-once, send_singleline-once, succeed-once, test-once,
}
use platform_hardware_ril.ReferenceRil.{
  Technology, both, current_only, not_understood, parse_technology_response,
}
use platform_hardware_ril.AtTok.{Cursor, Status, at_tok_nextint, at_tok_start, failure, success}
use platform_hardware_ril.Libc.{print_int}
use platform_hardware_ril.Base.Int.{pos, ℤ}
use platform_hardware_ril.Base.{
  Bool, Bytes, List, Option, [], ap, codes, if◌then◌else◌, none, some, suc, true, ℕ, ◌++◌, ◌∷◌,
}
use platform_hardware_ril.ReferenceRil.Requests.Network.{first_int}
use platform_hardware_ril.ReferenceRil.Requests.CurrentCalls.{int_equal}

unfoldable pub request_cdma_base_band_version : World → Outcome
request_cdma_base_band_version = answer no_error (text (codes "1.0.0.0"))

-- `responseStr` with the line of the modem; the flag is `TECH_BIT(sMdmInfo) == MDM_CDMA`
unfoldable pub identity_strings : Bool → Bytes → List (Option Bytes)
identity_strings is_cdma l =
    if is_cdma
    then some (codes "----") ∷ some (codes "----") ∷ some (codes "77777777") ∷ some l ∷ []
    else some l ∷ some (codes "----") ∷ some (codes "77777777") ∷ some [] ∷ []

unfoldable pub request_device_identity : Bool → World → Outcome
request_device_identity is_cdma =
    send_numeric (codes "AT+CGSN")
      (on_success fail (with_line (λ l. answer no_error (texts (identity_strings is_cdma l)))))

unfoldable pub request_cdma_subscription : World → Outcome
request_cdma_subscription = answer no_error (
    texts (
      some (codes "8587777777")
      ∷ some (codes "1")
      ∷ some (codes "1")
      ∷ some (codes "8587777777")
      ∷ some (codes "1")
      ∷ []))

-- the answer behind `at_tok_nextint`, whose result is not looked at
unfoldable pub answer_source : Status × Option ℤ × Cursor → World → Outcome
answer_source (code, some source, cur) w = answer no_error (ints (source ∷ [])) w
answer_source (code, none, cur) w = faults

unfoldable pub source_of_start : Status × Cursor → World → Outcome
source_of_start (success, cur) = answer_source (at_tok_nextint cur)
source_of_start (failure, cur) = fail

unfoldable pub request_cdma_get_subscription_source : World → Outcome
request_cdma_get_subscription_source =
    send_singleline (codes "AT+CCSS?") (codes "+CCSS:")
      (on_success fail (with_line (λ l. source_of_start (at_tok_start (some l)))))

-- the answer, and the unsolicited response behind it
unfoldable pub source_changed : ℤ → World → Outcome
source_changed source w =
    let told = complete no_error nothing w in
    done (record told { source_changes = source ∷ told.source_changes })

-- `none` is no data.
unfoldable pub request_cdma_set_subscription_source : Option ℤ → World → Outcome
request_cdma_set_subscription_source none = fail
request_cdma_set_subscription_source (some source) =
    send (codes "AT+CCSS=" ++ print_int source) (on_success fail (λ r. source_changed source))

unfoldable pub request_cdma_get_roaming_preference : World → Outcome
request_cdma_get_roaming_preference =
    send_singleline (codes "AT+WRMP?") (codes "+WRMP:")
      (on_success fail (with_line (λ l w. answer_parsed (λ n. ints (n ∷ [])) w (first_int l))))

unfoldable pub request_cdma_set_roaming_preference : ℤ → World → Outcome
request_cdma_set_roaming_preference pref =
    send (codes "AT+WRMP=" ++ print_int pref) (on_success fail (λ r. succeed))

-- `net2pmask`, with the bits of MDM_GSM (1), MDM_WCDMA (2), MDM_CDMA (4), MDM_EVDO (8) and MDM_LTE (16)
unfoldable pub net2pmask : List ℕ
net2pmask = 513 ∷ 1 ∷ 2 ∷ 3 ∷ 12 ∷ 4 ∷ 8 ∷ 15 ∷ 28 ∷ 19 ∷ 31 ∷ 16 ∷ []

-- the loop over `net2pmask`, with the index reached
unfoldable pub answer_mode : ℤ → ℕ → List ℕ → World → Outcome
answer_mode preferred i [] = fail
answer_mode preferred i (mask ∷ masks) =
    on_test (λ w. int_equal preferred (pos mask)) (answer no_error (ints (pos i ∷ [])))
      (answer_mode preferred (suc i) masks)

-- `query_ctec`, with what follows it
unfoldable pub query_ctec : (Technology → World → Outcome) → World → Outcome
query_ctec k =
    send_singleline (codes "AT+CTEC?") (codes "+CTEC:")
      (on_success (k not_understood) (with_line (λ l. k (parse_technology_response l))))

unfoldable pub answer_preferred : Technology → World → Outcome
answer_preferred not_understood = fail
answer_preferred (current_only current) = fail
answer_preferred (both current preferred) = answer_mode preferred 0 net2pmask

unfoldable pub request_get_preferred_network_type : World → Outcome
request_get_preferred_network_type = query_ctec answer_preferred

pub base_band_version-once : (b : Bool) → Answers b request_cdma_base_band_version
unfolding request_cdma_base_band_version
base_band_version-once b = answer-once b _ _

pub device_identity-once : (b is_cdma : Bool) → Answers b (request_device_identity is_cdma)
unfolding request_device_identity
device_identity-once b is_cdma =
    send_numeric-once b _ _ (on_line-once b fail _ (fail-once b) (λ l. answer-once b _ _ false))

pub cdma_subscription-once : (b : Bool) → Answers b request_cdma_subscription
unfolding request_cdma_subscription
cdma_subscription-once b = answer-once b _ _

answer_source-once : (r : Status × Option ℤ × Cursor) → AnswersIf true false (answer_source r)
unfolding answer_source
answer_source-once (code, some source, cur) old w h = answer-once true _ _ false old w h
answer_source-once (code, none, cur) old w h = refl

source_of_start-once : (r : Status × Cursor) → AnswersIf true false (source_of_start r)
unfolding source_of_start
source_of_start-once (success, cur) = answer_source-once (at_tok_nextint cur)
source_of_start-once (failure, cur) = fail-once true false

pub get_subscription_source-once : Answers true request_cdma_get_subscription_source
unfolding request_cdma_get_subscription_source
get_subscription_source-once =
    send_singleline-once true _ _ _
      (on_line-once true fail _ (fail-once true) (λ l. source_of_start-once _))

source_changed-once : (b : Bool) (source : ℤ) → Answers b (source_changed source)
unfolding source_changed complete
source_changed-once b source shut old w h =
    ((no_error, nothing), ap (λ x. (no_error, nothing) ∷ x) h.0)

pub set_subscription_source-once :
    (b : Bool) (o : Option ℤ) → Answers b (request_cdma_set_subscription_source o)
unfolding request_cdma_set_subscription_source
set_subscription_source-once b none = fail-once b
set_subscription_source-once b (some source) =
    send-once b _ _ (on_success-once b fail _ (fail-once b) (λ r. source_changed-once b source))

pub get_roaming_preference-once : (b : Bool) → Answers b request_cdma_get_roaming_preference
unfolding request_cdma_get_roaming_preference
get_roaming_preference-once b =
    send_singleline-once b _ _ _
      (on_line-once b fail _ (fail-once b) (λ l. answer_parsed-once b _ _ false))

pub set_roaming_preference-once :
    (b : Bool) (pref : ℤ) → Answers b (request_cdma_set_roaming_preference pref)
unfolding request_cdma_set_roaming_preference
set_roaming_preference-once b pref =
    send-once b _ _ (on_success-once b fail _ (fail-once b) (λ r. succeed-once b))

answer_mode-once :
    (b : Bool) (preferred : ℤ) (i : ℕ) (masks : List ℕ) → Answers b (answer_mode preferred i masks)
unfolding answer_mode
answer_mode-once b preferred i [] = fail-once b
answer_mode-once b preferred i (mask ∷ masks) =
    test-once b _ _ _ (answer-once b _ _) (answer_mode-once b preferred (suc i) masks)

answer_preferred-once : (b : Bool) (t : Technology) → Answers b (answer_preferred t)
unfolding answer_preferred
answer_preferred-once b not_understood = fail-once b
answer_preferred-once b (current_only current) = fail-once b
answer_preferred-once b (both current preferred) = answer_mode-once b preferred 0 net2pmask

pub get_preferred_network_type-once : (b : Bool) → Answers b request_get_preferred_network_type
unfolding request_get_preferred_network_type query_ctec
get_preferred_network_type-once b = send_singleline-once b _ _ _ (
    on_line-once b _ _ (answer_preferred-once b not_understood)
      (λ l. answer_preferred-once b _ false))
