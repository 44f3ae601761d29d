-- ===== src/ReferenceRil/Unsolicited/Safe.antt =====
-- The reader thread of reference-ril/atchannel.c never has `onUnsolicited` of
-- reference-ril/reference-ril.c take the length of a PDU that is NULL.
use platform_hardware_ril.ReferenceRil.Unsolicited.Passed.{Calls, Passed, WithPdu, loop-Passed}
use platform_hardware_ril.ReferenceRil.Unsolicited.{
  Handled, Modem, Sent, and_then, bad_shift, handled, new_sms, new_sms_status_report, null_length,
  on_all, on_line, on_other, on_unsolicited, set_known_tech, set_parsed_tech, set_source,
  starts_call, starts_registration, tell_emergency, tell_pdu, tell_prl, tell_time,
}
use platform_hardware_ril.ReferenceRil.SimStatus.{is_state, unavailable}
use platform_hardware_ril.ReferenceRil.{Technology, both, current_only, not_understood}
use platform_hardware_ril.AtChannel.Lines.{starts_with_any, str_starts_with}
use platform_hardware_ril.AtTok.{Cursor, Status, failure, success}
use platform_hardware_ril.Base.Int.{negsuc, pos, ℤ}
use platform_hardware_ril.Base.{codes, if◌then◌else◌, ltb, refl, subst, sym, ◌==◌, ◌||◌, ◌≢◌}
use platform_hardware_ril.AtChannel.Reader.{Channel, reader_loop}
use platform_hardware_ril.AtChannel.Lines.{is_sms_unsolicited}
use platform_hardware_ril.Base.{
  All, Bool, Bool-cases, Bytes, List, Option, [], false, inl, inr, none, some, true, ◌∷◌, ◌≡◌,
}

abbrev Safe : Handled → Type 0
Safe null_length = ⊥
Safe _ = Unit

if-Safe :
    (t : Bool) (x y : Handled)
    → (t ≡ true → Safe x)
    → (t ≡ false → Safe y)
    → Safe (if t then x else y)
if-Safe true x y f g = f refl
if-Safe false x y f g = g refl

time-Safe : (r : Status × Option Bytes × Cursor) (m : Modem) → Safe (tell_time r m)
unfolding tell_time
time-Safe (success, some response, cur) m = tt
time-Safe (success, none, cur) m = tt
time-Safe (failure, o, cur) m = tt

known-Safe : (tech : ℤ) (m : Modem) → Safe (set_known_tech tech m)
unfolding set_known_tech
known-Safe (pos n) m =
    if-Safe (ltb n 31) _ bad_shift
      (λ e. if-Safe (n == 0 || n == 1 || n == 2 || n == 4) _ (handled m) (λ e. tt) (λ e. tt))
      (λ e. tt)
known-Safe (negsuc n) m = tt

parsed-Safe : (t : Technology) (m : Modem) → Safe (set_parsed_tech t m)
unfolding set_parsed_tech
parsed-Safe not_understood m = tt
parsed-Safe (current_only tech) m = known-Safe tech m
parsed-Safe (both tech preferred) m = known-Safe tech m

source-Safe : (r : Status × Cursor × ℤ) (m : Modem) → Safe (set_source r m)
unfolding set_source
source-Safe (success, cur, v) m = tt
source-Safe (failure, cur, v) m = tt

emergency-Safe : (r : Status × Cursor × ℤ) (m : Modem) → Safe (tell_emergency r m)
unfolding tell_emergency
emergency-Safe (success, cur, v) m = tt
emergency-Safe (failure, cur, v) m = tt

prl-Safe : (r : Status × Cursor × ℤ) (m : Modem) → Safe (tell_prl r m)
unfolding tell_prl
prl-Safe (success, cur, v) m = tt
prl-Safe (failure, cur, v) m = tt

pdu-Safe :
    (message : Bytes → Sent) (s : Bytes) (pdu : Option Bytes) (m : Modem)
    → is_sms_unsolicited s ≡ true
    → WithPdu (s, pdu)
    → Safe (tell_pdu message pdu m)
unfolding tell_pdu
pdu-Safe message s none m e h = cc
pdu-Safe message s (some pdu) m e h = tt

other-Safe : (s : Bytes) (m : Modem) → Safe (on_other s m)
unfolding on_other
other-Safe s m =
    if-Safe (str_starts_with s (codes "+CGEV:")) _ _ (λ e. tt)
      (λ e.
        if-Safe (str_starts_with s (codes "+CME ERROR: 150")) _ _ (λ e. tt)
          (λ e.
            if-Safe (str_starts_with s (codes "+CTEC: ")) _ _ (λ e. parsed-Safe _ m)
              (λ e.
                if-Safe (str_starts_with s (codes "+CCSS: ")) _ _ (λ e. source-Safe _ m)
                  (λ e.
                    if-Safe (str_starts_with s (codes "+WSOS: ")) _ _ (λ e. emergency-Safe _ m)
                      (λ e.
                        if-Safe (str_starts_with s (codes "+WPRL: ")) _ _ (λ e. prl-Safe _ m)
                          (λ e.
                            if-Safe (str_starts_with s (codes "+CFUN: 0")) _ _ (λ e. tt)
                              (λ e. tt)))))))

cmt-sms : (s : Bytes) → str_starts_with s (codes "+CMT:") ≡ true → is_sms_unsolicited s ≡ true
unfolding is_sms_unsolicited starts_with_any
cmt-sms s e = rw e refl

cds-sms : (s : Bytes) → str_starts_with s (codes "+CDS:") ≡ true → is_sms_unsolicited s ≡ true
unfolding is_sms_unsolicited starts_with_any
cds-sms s e = elim (Bool-cases (str_starts_with s (codes "+CMT:"))) [
  | inl f ↦ rw f refl
  | inr f ↦ rw (f, e) refl
]

on_line-Safe :
    (s : Bytes) (pdu : Option Bytes) (m : Modem) → WithPdu (s, pdu) → Safe (on_line s pdu m)
unfolding on_line
on_line-Safe s pdu m h =
    if-Safe (str_starts_with s (codes "%CTZV:")) _ _ (λ e. time-Safe _ m)
      (λ e.
        if-Safe (starts_call s) _ _ (λ e. tt)
          (λ e.
            if-Safe (starts_registration s) _ _ (λ e. tt)
              (λ e.
                if-Safe (str_starts_with s (codes "+CMT:")) _ _
                  (λ e. pdu-Safe new_sms s pdu m (cmt-sms s e) h)
                  (λ e.
                    if-Safe (str_starts_with s (codes "+CDS:")) _ _
                      (λ e. pdu-Safe new_sms_status_report s pdu m (cds-sms s e) h)
                      (λ e. other-Safe s m)))))

unsolicited-Safe :
    (s : Bytes) (pdu : Option Bytes) (m : Modem) → WithPdu (s, pdu) → Safe (on_unsolicited s pdu m)
unfolding on_unsolicited
unsolicited-Safe s pdu m h =
    if-Safe (is_state m.radio unavailable) _ _ (λ e. tt) (λ e. on_line-Safe s pdu m h)

then-Safe :
    (k : Modem → Handled) (o : Handled) → Safe o → ((m : Modem) → Safe (k m)) → Safe (and_then k o)
unfolding and_then
then-Safe k (handled m) h f = f m
then-Safe k null_length h f = h
then-Safe k bad_shift h f = tt

calls-Safe : (calls : Calls) (m : Modem) → All WithPdu calls → Safe (on_all calls m)
unfolding on_all
calls-Safe [] m h = tt
calls-Safe ((s, pdu) ∷ calls) m (p, h) =
    then-Safe (on_all calls) (on_unsolicited s pdu m) (unsolicited-Safe s pdu m p)
      (λ n. calls-Safe calls n h)

Safe-not_null : (o : Handled) → Safe o → o ≢ null_length
Safe-not_null null_length h e = h
Safe-not_null (handled m) h e = cc
Safe-not_null bad_shift h e = cc

-- Whatever lines the modem sends, `onUnsolicited`, called in order with what `readerLoop` passes to the
-- handler from a start at which nothing was passed, never takes the length of a PDU that is NULL.
pub reader_loop-on_all :
    (lines : List Bytes) (c after : Channel) (m : Modem)
    → c.unsolicited ≡ []
    → reader_loop lines c ≡ some after
    → on_all after.unsolicited m ≢ null_length
reader_loop-on_all lines c after m start e = Safe-not_null _ (
    calls-Safe after.unsolicited m
      (subst Passed e (loop-Passed lines c (subst (All WithPdu) (sym start) tt))))
