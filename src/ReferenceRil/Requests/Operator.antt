-- ===== src/ReferenceRil/Requests/Operator.antt =====
-- `requestOperator` of reference-ril/reference-ril.c.
use platform_hardware_ril.ReferenceRil.Requests.Once.{AnswersIf}
use platform_hardware_ril.Base.{false, refl}
use platform_hardware_ril.ReferenceRil.Requests.{
  Outcome, World, answer, fail, faults, no_error, send_multiline, texts,
}
use platform_hardware_ril.ReferenceRil.Requests.Once.{
  Answers, answer-once, fail-once, if-Completes, send_multiline-once,
}
use platform_hardware_ril.AtChannel.Command.Out.{HasOut}
use platform_hardware_ril.AtTok.{
  Cursor, Status, at_tok_hasmore, at_tok_nextint, at_tok_nextstr, at_tok_start, failure, success,
}
use platform_hardware_ril.Base.Int.{ℤ}
use platform_hardware_ril.Base.{
  Bytes, List, Option, [], codes, if◌then◌else◌, length, ltb, none, not, replicate, set, some, suc,
  true, ℕ, ◌==◌, ◌∷◌,
}
use platform_hardware_ril.ReferenceRil.Requests.Network.{on_no_error, on_no_error-once}

-- the array `response` of three strings: its contents, an error of the parser, or a store outside
pub data Names : Type 0 where
  names : List (Option Bytes) → Names
  no_names outside : Names

-- a store at `i`, and the lines behind it
unfoldable pub store_name :
    (List (Option Bytes) → Names) → ℕ → Option Bytes → List (Option Bytes) → Names
store_name next i v response = if ltb i (length response) then next (set response i v) else outside

unfoldable pub name_of_token :
    (List (Option Bytes) → Names) → ℕ → List (Option Bytes) → Status × Option Bytes × Cursor → Names
name_of_token next i response (success, none, cur) = next response
name_of_token next i response (success, some v, cur) = store_name next i (some v) response
name_of_token next i response (failure, none, cur) = no_names
name_of_token next i response (failure, some v, cur) =
    store_name (λ stored. no_names) i (some v) response

-- behind one of the numbers that are skipped: "+COPS: 0" and "+COPS: 0, n" have no name
unfoldable pub more_or_null :
    (List (Option Bytes) → Names)
    → ℕ
    → List (Option Bytes)
    → (Cursor → Names)
    → Status × Option ℤ × Cursor
    → Names
more_or_null next i response more (success, skip, cur) =
    if not (at_tok_hasmore cur) then store_name next i none response else more cur
more_or_null next i response more (failure, skip, cur) = no_names

unfoldable pub name_of_start :
    (List (Option Bytes) → Names) → ℕ → List (Option Bytes) → Status × Cursor → Names
name_of_start next i response (success, cur) =
    more_or_null next i response
      (λ cur.
        more_or_null next i response (λ cur. name_of_token next i response (at_tok_nextstr cur))
          (at_tok_nextint cur))
      (at_tok_nextint cur)
name_of_start next i response (failure, cur) = no_names

-- The loop over the lines, without the `sscanf` into `s_mcc` and `s_mnc`.
unfoldable pub read_names : List Bytes → ℕ → List (Option Bytes) → Names
read_names [] i response = names response
read_names (l ∷ ls) i response =
    name_of_start (read_names ls (suc i)) i response (at_tok_start (some l))

-- "expect 3 lines exactly"
unfoldable pub answer_names : World → ℕ → Names → Outcome
answer_names w i (names response) =
    if not (i == 3) then fail w else answer no_error (texts response) w
answer_names w i no_names = fail w
answer_names w i outside = faults

unfoldable pub request_operator : World → Outcome
request_operator =
    send_multiline (codes "AT+COPS=3,0;+COPS?;+COPS=3,1;+COPS?;+COPS=3,2;+COPS?") (codes "+COPS:") (
      on_no_error fail (λ r w.
        answer_names w (length r.intermediates) (read_names r.intermediates 0 (replicate 3 none))))

answer_names-once : (i : ℕ) (o : Names) → AnswersIf true false (λ w. answer_names w i o)
unfolding answer_names
answer_names-once i (names response) old w h =
    if-Completes true false old (not (i == 3)) _ _ (λ e. fail-once true false old w h)
      (λ e. answer-once true _ _ false old w h)
answer_names-once i no_names old w h = fail-once true false old w h
answer_names-once i outside old w h = refl

pub operator-once : Answers true request_operator
unfolding request_operator
operator-once =
    send_multiline-once true _ _ _
      (on_no_error-once fail _ (fail-once true) (λ r. answer_names-once _ _) HasOut)
