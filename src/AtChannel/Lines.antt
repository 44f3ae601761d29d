-- ===== src/AtChannel/Lines.antt =====
-- How the channel tells lines apart: `strStartsWith` of reference-ril/misc.c and the tables of
-- final responses and two-line SMS notices of reference-ril/atchannel.c.
use platform_hardware_ril.Base.{
  ◌≡◌, ◌↔◌, refl, Bool, true, false, ◌||◌, List, [], ◌∷◌, ◌++◌, Bytes, codes, arith, ◌==◌,
  if◌then◌else◌, Bool-cases, inl, inr,
}

unfoldable pub str_starts_with : Bytes → Bytes → Bool
str_starts_with line [] = true
str_starts_with [] (p ∷ ps) = false
str_starts_with (c ∷ cs) (p ∷ ps) = if c == p then str_starts_with cs ps else false

-- the loop over a table of prefixes
unfoldable pub starts_with_any : Bytes → List Bytes → Bool
unfolding str_starts_with
starts_with_any line [] = false
starts_with_any line (p ∷ ps) = if str_starts_with line p then true else starts_with_any line ps

abbrev pub final_responses_error : List Bytes
final_responses_error =
    codes "ERROR"
    ∷ codes "+CMS ERROR:"
    ∷ codes "+CME ERROR:"
    ∷ codes "NO CARRIER"
    ∷ codes "NO ANSWER"
    ∷ codes "NO DIALTONE"
    ∷ []

unfoldable pub is_final_response_error : Bytes → Bool
unfolding starts_with_any
is_final_response_error line = starts_with_any line final_responses_error

abbrev pub final_responses_success : List Bytes
final_responses_success = codes "OK" ∷ codes "CONNECT" ∷ []

unfoldable pub is_final_response_success : Bytes → Bool
unfolding starts_with_any
is_final_response_success line = starts_with_any line final_responses_success

unfoldable pub is_final_response : Bytes → Bool
is_final_response line = is_final_response_success line || is_final_response_error line

abbrev pub sms_unsoliciteds : List Bytes
sms_unsoliciteds = codes "+CMT:" ∷ codes "+CDS:" ∷ codes "+CBM:" ∷ []

unfoldable pub is_sms_unsolicited : Bytes → Bool
unfolding starts_with_any
is_sms_unsolicited line = starts_with_any line sms_unsoliciteds

str_starts_with-append : (p rest : Bytes) → str_starts_with (p ++ rest) p ≡ true
unfolding str_starts_with
str_starts_with-append [] rest = refl
str_starts_with-append (c ∷ p) rest = ground (arith, str_starts_with-append p rest)

starts_with-split :
    (line p : Bytes) → str_starts_with line p ≡ true → (rest : Bytes) × (line ≡ p ++ rest)
unfolding str_starts_with
starts_with-split line [] h = (line, refl)
starts_with-split [] (p ∷ ps) h = cc
starts_with-split (c ∷ cs) (p ∷ ps) h = elim (Bool-cases (c == p)) [
  | inl e ↦ let (rest, split) = starts_with-split cs ps (rw e at h) in (rest, ground arith)
  | inr e ↦ cc (rw e at h)
]

-- `strStartsWith` answers 1 exactly when the line is the prefix with something behind it.
pub str_starts_with_iff :
    (line p : Bytes) → (str_starts_with line p ≡ true) ↔ ((rest : Bytes) × (line ≡ p ++ rest))
str_starts_with_iff line p =
    (starts_with-split line p, λ r. rw (r.1) (str_starts_with-append p r.0))
