-- ===== src/ReferenceRil/Requests/Messages.antt =====
-- The SMS requests of reference-ril/reference-ril.c. `s_ims_cause_perm_failure`, `s_ims_cause_retry`,
-- `s_ims_gsm_fail` and `s_ims_gsm_retry` are never assigned, so they keep their initial 0.
use platform_hardware_ril.ReferenceRil.Requests.{
  Outcome, World, answer, complete, fail, generic_failure, no_error, nothing, on_success, on_test,
  radio_not_available, send, send_only, send_sms, sim_absent, sms_response, sms_send_fail_retry,
  succeed, unless_absent,
}
use platform_hardware_ril.ReferenceRil.Requests.Once.{
  Answers, answer-once, fail-once, on_success-once, send-once, send_sms-once, succeed-once,
  test-once, unless_absent-once,
}
use platform_hardware_ril.Libc.{print_int}
use platform_hardware_ril.Base.Int.{negsuc, pos, ℤ}
use platform_hardware_ril.Base.{
  Bool, Bytes, Option, codes, length, none, not, some, true, ℕ, ◌&&◌, ◌++◌, ◌/◌, ◌==◌,
}
use platform_hardware_ril.ReferenceRil.Requests.Radio.{is_int}

abbrev ims_cause_perm_failure : ℕ
ims_cause_perm_failure = 0

abbrev ims_cause_retry : ℕ
ims_cause_retry = 0

abbrev ims_gsm_fail : ℕ
ims_gsm_fail = 0

abbrev ims_gsm_retry : ℕ
ims_gsm_retry = 0

-- the labels `error` and `error2`
abbrev sms_failed : World → Outcome
sms_failed = answer generic_failure (sms_response (negsuc 1))

abbrev sms_retry : World → Outcome
sms_retry = answer sms_send_fail_retry (sms_response (negsuc 0))

-- RIL_SMS_WriteArgs: the PDU in hexadecimal digits and the status
unfoldable pub request_write_sms_to_sim : Bytes → ℤ → World → Outcome
request_write_sms_to_sim pdu sms_status = unless_absent sim_absent (
    send_sms
      (codes "AT+CMGW=" ++ print_int (pos (length pdu / 2)) ++ codes "," ++ print_int sms_status)
      pdu (codes "+CMGW:") (on_success fail (λ r. succeed)))

unfoldable pub request_cdma_send_sms : World → Outcome
request_cdma_send_sms = unless_absent sim_absent sms_retry

-- "NULL for default SMSC"
abbrev smsc_or_default : Option Bytes → Bytes
smsc_or_default none = codes "00"
smsc_or_default (some smsc) = smsc

unfoldable pub request_send_sms : Option Bytes → Bytes → World → Outcome
request_send_sms smsc pdu = unless_absent sim_absent (
    on_test (λ w. not (ims_gsm_fail == 0)) sms_failed
      (on_test (λ w. not (ims_gsm_retry == 0)) sms_retry
        (send_sms (codes "AT+CMGS=" ++ print_int (pos (length pdu / 2)))
          (smsc_or_default smsc ++ pdu) (codes "+CMGS:")
          (on_success sms_failed (λ r. answer no_error (sms_response (pos 1)))))))

-- RIL_IMS_SMS_Message by its `tech`, the other fields that are read with it
pub data ImsMessage : Type 0 where
  gsm : Option Bytes → Bytes → ImsMessage
  cdma other_tech : ImsMessage

unfoldable pub route_ims : ImsMessage → World → Outcome
route_ims (gsm smsc pdu) = request_send_sms smsc pdu
route_ims cdma = request_cdma_send_sms
route_ims other_tech = sms_failed

-- The number is `p_args->retry`.
unfoldable pub request_ims_send_sms : ImsMessage → ℕ → World → Outcome
request_ims_send_sms m retries =
    on_test (λ w. not (ims_cause_perm_failure == 0)) sms_failed
      (on_test (λ w. not (ims_cause_retry == 0) && retries == 0) sms_retry (route_ims m))

-- RIL_REQUEST_DELETE_SMS_ON_SIM
unfoldable pub request_delete_sms_on_sim : ℤ → World → Outcome
request_delete_sms_on_sim index =
    send (codes "AT+CMGD=" ++ print_int index) (on_success fail (λ r. succeed))

-- the answer of success, and the label `error` behind it
unfoldable pub acknowledged : World → Outcome
acknowledged w = fail (complete no_error nothing w)

unfoldable pub request_sms_acknowledge : ℤ → World → Outcome
request_sms_acknowledge ack = unless_absent radio_not_available (
    on_test (λ w. is_int 1 ack) (send_only (codes "AT+CNMA=1") acknowledged)
      (on_test (λ w. is_int 0 ack) (send_only (codes "AT+CNMA=2") acknowledged) fail))

pub write_sms-once :
    (pdu : Bytes) (sms_status : ℤ) → Answers true (request_write_sms_to_sim pdu sms_status)
unfolding request_write_sms_to_sim
write_sms-once pdu sms_status = unless_absent-once _ _ (
    send_sms-once true _ _ _ _
      (on_success-once true fail _ (fail-once true) (λ r. succeed-once true)))

pub cdma_send_sms-once : Answers true request_cdma_send_sms
unfolding request_cdma_send_sms
cdma_send_sms-once = unless_absent-once _ _ (answer-once true _ _)

pub send_sms_request-once :
    (smsc : Option Bytes) (pdu : Bytes) → Answers true (request_send_sms smsc pdu)
unfolding request_send_sms
send_sms_request-once smsc pdu = unless_absent-once _ _ (
    test-once true _ _ _ (answer-once true _ _) (
      test-once true _ _ _ (answer-once true _ _) (
        send_sms-once true _ _ _ _
          (on_success-once true _ _ (answer-once true _ _) (λ r. answer-once true _ _)))))

route_ims-once : (m : ImsMessage) → Answers true (route_ims m)
unfolding route_ims
route_ims-once (gsm smsc pdu) = send_sms_request-once smsc pdu
route_ims-once cdma = cdma_send_sms-once
route_ims-once other_tech = answer-once true _ _

pub ims_send_sms-once :
    (m : ImsMessage) (retries : ℕ) → Answers true (request_ims_send_sms m retries)
unfolding request_ims_send_sms
ims_send_sms-once m retries =
    test-once true _ _ _ (answer-once true _ _)
      (test-once true _ _ _ (answer-once true _ _) (route_ims-once m))

pub delete_sms-once : (b : Bool) (index : ℤ) → Answers b (request_delete_sms_on_sim index)
unfolding request_delete_sms_on_sim
delete_sms-once b index =
    send-once b _ _ (on_success-once b fail _ (fail-once b) (λ r. succeed-once b))
