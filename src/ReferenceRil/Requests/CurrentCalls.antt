-- ===== src/ReferenceRil/Requests/CurrentCalls.antt =====
-- `requestGetCurrentCalls` of reference-ril/reference-ril.c, with WORKAROUND_ERRONEOUS_ANSWER, which the
-- file defines, and without POLL_CALL_STATE. The flags `isVoice` and `uusInfo` of a call are as in
-- `Call`.
use platform_hardware_ril.ReferenceRil.Requests.{
  Outcome, World, complete, current_calls, done, fail, no_error, on_success, send_multiline,
}
use platform_hardware_ril.ReferenceRil.Requests.Once.{
  Answers, fail-once, if-Completes, on_success-once, send_multiline-once,
}
use platform_hardware_ril.ReferenceRil.{
  Call, CallState, active, call_from_clcc_line, holding, incoming, waiting,
}
use platform_hardware_ril.AtChannel.Reader.{Response}
use platform_hardware_ril.AtTok.{Cursor, Status, failure, success}
use platform_hardware_ril.Base.Int.{negsuc, pos, ℤ}
use platform_hardware_ril.Base.{
  Bool, Bytes, List, [], ap, codes, false, if◌then◌else◌, ltb, none, not, refl, some, suc, true, ℕ,
  ◌&&◌, ◌++◌, ◌==◌, ◌||◌, ◌∙◌, ◌∷◌, ◌≡◌,
}

-- an element of `p_calls` as `memset` leaves it
abbrev pub zero_call : Call
zero_call = record {
  index = pos 0;
  is_mt = pos 0;
  state = active;
  is_voice = false;
  is_mpty = pos 0;
  number = none;
  toa = pos 0;
  has_uus_info = false;
  local_state = pos 0;
  local_mode = pos 0;
}

-- the valid calls, `s_incomingOrWaitingLine` and `needRepoll`
pub record Found : Type 0 where
  pub calls : List Call
  pub incoming : ℤ
  pub need_repoll : Bool

unfoldable pub is_coming : CallState → Bool
is_coming incoming = true
is_coming waiting = true
is_coming _ = false

unfoldable pub is_settled : CallState → Bool
is_settled active = true
is_settled holding = true
is_settled _ = false

unfoldable pub add_call : Call → Found → Found
add_call call found = record {
  calls = found.calls ++ call ∷ [];
  incoming = if is_coming call.state then call.index else found.incoming;
  need_repoll = found.need_repoll || not (is_settled call.state);
}

-- Behind `callFromCLCCLine`: a line that it refuses leaves what it has stored in the element that the
-- next line is read into.
unfoldable pub after_line : (Call → Found → Found) → Found → Status × Cursor × Call → Found
after_line next found (success, cur, call) = next zero_call (add_call call found)
after_line next found (failure, cur, call) = next call found

-- The loop over the lines, with the element that the next line is read into.
unfoldable pub read_calls : List Bytes → Call → Found → Found
read_calls [] slot found = found
read_calls (l ∷ ls) slot found =
    after_line (read_calls ls) found (call_from_clcc_line (some l) slot)

abbrev pub repoll_calls_count_max : ℕ
repoll_calls_count_max = 4

unfoldable pub int_equal : ℤ → ℤ → Bool
int_equal (pos m) (pos n) = m == n
int_equal (negsuc m) (negsuc n) = m == n
int_equal _ _ = false

abbrev is_negative : ℤ → Bool
is_negative (pos n) = false
is_negative (negsuc n) = true

abbrev is_active : CallState → Bool
is_active active = true
is_active _ = false

-- "A call was incoming or waiting, now it's marked as active": a call of that index is active.
unfoldable pub has_active : ℤ → List Call → Bool
has_active index [] = false
has_active index (call ∷ calls) =
    (int_equal call.index index && is_active call.state) || has_active index calls

-- "But we never answered it", and it was asked for again too few times
unfoldable pub is_erroneous : ℤ → Found → World → Bool
is_erroneous previous found w =
    not (is_negative previous)
    && is_negative found.incoming
    && not w.expect_answer
    && has_active previous found.calls
    && ltb w.repoll_count repoll_calls_count_max

-- behind `RIL_onRequestComplete`
unfoldable pub repoll : Bool → World → World
repoll need_repoll w = if need_repoll then record w { call_callbacks = suc w.call_callbacks } else w

unfoldable pub answer_calls : ℤ → Found → World → Outcome
answer_calls previous found w =
    let seen = record w { incoming_or_waiting = found.incoming } in
    if is_erroneous previous found w
    then fail (record seen { repoll_count = suc w.repoll_count })
    else done (
        repoll found.need_repoll (
          complete no_error (current_calls found.calls)
            (record seen { expect_answer = false; repoll_count = 0 })))

abbrev pub no_calls : Found
no_calls = record { calls = []; incoming = negsuc 0; need_repoll = false }

unfoldable pub read_and_answer : ℤ → Response → World → Outcome
read_and_answer previous r = answer_calls previous (read_calls r.intermediates zero_call no_calls)

unfoldable pub request_get_current_calls : World → Outcome
request_get_current_calls w =
    send_multiline (codes "AT+CLCC") (codes "+CLCC:")
      (on_success fail (read_and_answer w.incoming_or_waiting))
      (record w { incoming_or_waiting = negsuc 0 })

repoll-answers : (need : Bool) (w : World) → (repoll need w).answers ≡ w.answers
unfolding repoll
repoll-answers true w = refl
repoll-answers false w = refl

answer_calls-once :
    (b : Bool) (previous : ℤ) (found : Found) → Answers b (answer_calls previous found)
unfolding answer_calls complete
answer_calls-once b previous found shut old w h =
    if-Completes b shut old (is_erroneous previous found w) _ _ (λ e. fail-once b shut old _ h)
      (λ e. (
        (no_error, current_calls found.calls),
        repoll-answers found.need_repoll _
            ∙ ap (λ x. (no_error, current_calls found.calls) ∷ x) h.0,
      ))

pub get_current_calls-once : (b : Bool) → Answers b request_get_current_calls
unfolding request_get_current_calls read_and_answer
get_current_calls-once b shut old w h =
    send_multiline-once b _ _ _
      (on_success-once b fail _ (fail-once b) (λ r. answer_calls-once b w.incoming_or_waiting _))
      shut old _ h
