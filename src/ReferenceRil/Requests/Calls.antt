-- ===== src/ReferenceRil/Requests/Calls.antt =====
-- What `requestGetCurrentCalls` of reference-ril/reference-ril.c answers, and how often it asks again.
use platform_hardware_ril.AtChannel.Command.{at_send_command_multiline, returns}
use platform_hardware_ril.ReferenceRil.Requests.Once.{Finishes, if-Finishes}
use platform_hardware_ril.ReferenceRil.Requests.Slots.{Dialable, Left, line-Left}
use platform_hardware_ril.ReferenceRil.Requests.CurrentCalls.{no_calls}
use platform_hardware_ril.ReferenceRil.Requests.{
  World, answer, complete, current_calls, fail, generic_failure, no_error, nothing, on_success,
  resume, send_multiline,
}
use platform_hardware_ril.ReferenceRil.{Call, call_from_clcc_line}
use platform_hardware_ril.AtChannel.Reader.{Response}
use platform_hardware_ril.AtChannel.Write.{ok}
use platform_hardware_ril.AtTok.{Cursor, Status, failure, success}
use platform_hardware_ril.Base.Int.{ℤ}
use platform_hardware_ril.Base.{
  All, Bool, Bool-cases, Bytes, List, [], ap, arith, codes, false, if◌then◌else◌, inl, inr, not,
  refl, some, suc, sym, true, ◌&&◌, ◌++◌, ◌||◌, ◌∙◌, ◌∷◌, ◌≡◌, ◌≤◌, ◌⊎◌,
}
use platform_hardware_ril.ReferenceRil.Requests.CurrentCalls.{
  Found, add_call, after_line, answer_calls, is_erroneous, is_settled, read_and_answer, read_calls,
  repoll, repoll_calls_count_max, request_get_current_calls, zero_call,
}
use platform_hardware_ril.AtChannel.Command.{Reply}
use platform_hardware_ril.ReferenceRil.Calls.{IsCall, call_from_clcc_line-IsCall}

-- every call is active or held
abbrev pub all_settled : List Call → Bool
all_settled [] = true
all_settled (call ∷ calls) = is_settled call.state && all_settled calls

-- What holds of the calls found so far.
record IsFound (found : Found) : Type 0 where
  are_calls : All IsCall found.calls
  repolls : found.need_repoll ≡ not (all_settled found.calls)

All-snoc :
    (P : Call → Type 0) (calls : List Call) (call : Call)
    → All P calls
    → P call
    → All P (calls ++ call ∷ [])
All-snoc P [] call h p = (p, tt)
All-snoc P (c ∷ cs) call (q, h) p = (q, All-snoc P cs call h p)

settled-snoc :
    (calls : List Call) (call : Call)
    → not (all_settled (calls ++ call ∷ []))
      ≡ (not (all_settled calls) || not (is_settled call.state))
settled-snoc [] call = ground arith
settled-snoc (c ∷ cs) call = ground (arith, settled-snoc cs call)

add-IsFound :
    (call : Call) (found : Found) → IsCall call → IsFound found → IsFound (add_call call found)
unfolding add_call
add-IsFound call found c h = record {
  are_calls = All-snoc IsCall found.calls call h.are_calls c;
  repolls =
      ap (λ b. b || not (is_settled call.state)) h.repolls ∙ sym (settled-snoc found.calls call);
}

after_line-IsFound :
    (next : Call → Found → Found) (found : Found) (r : Status × Cursor × Call)
    → ((slot : Call) (f : Found) → Dialable slot → IsFound f → IsFound (next slot f))
    → IsFound found
    → Left Dialable r
    → ((cur : Cursor) (after : Call) → r ≡ (success, cur, after) → IsCall after)
    → IsFound (after_line next found r)
unfolding after_line
after_line-IsFound next found (success, cur, call) f h left accepted =
    f zero_call _ tt (add-IsFound call found (accepted cur call refl) h)
after_line-IsFound next found (failure, cur, call) f h left accepted = f call found left h

lines-IsFound :
    (ls : List Bytes) (slot : Call) (found : Found)
    → Dialable slot
    → IsFound found
    → IsFound (read_calls ls slot found)
unfolding read_calls
lines-IsFound [] slot found d h = h
lines-IsFound (l ∷ ls) slot found d h =
    after_line-IsFound (read_calls ls) found (call_from_clcc_line (some l) slot) (lines-IsFound ls)
      h (line-Left l slot d) (λ cur after e. call_from_clcc_line-IsCall (some l) slot after cur d e)

-- The list is hidden behind a failure, which is counted, at most four times in a row; or the answer is
-- a list of calls as `callFromCLCCLine` accepts them, the count starts again, and the list is asked
-- for again exactly where one of them is neither active nor held.
abbrev pub CallsAnswered : World → World → Type 0
CallsAnswered before w =
    ((w.answers ≡ (generic_failure, nothing) ∷ before.answers)
      × (w.repoll_count ≡ suc before.repoll_count)
      × (w.repoll_count ≤ repoll_calls_count_max)
      × (w.call_callbacks ≡ before.call_callbacks))
    ⊎ ((calls : List Call) × (w.answers ≡ (no_error, current_calls calls) ∷ before.answers)
        × All IsCall calls
        × (w.repoll_count ≡ 0)
        × (w.call_callbacks
            ≡ (if all_settled calls then before.call_callbacks else suc before.call_callbacks)))

repolled :
    (before w : World) (found : Found)
    → w.answers ≡ before.answers
    → w.call_callbacks ≡ before.call_callbacks
    → IsFound found
    → CallsAnswered before (
        repoll found.need_repoll (
          complete no_error (current_calls found.calls) (record w {
            incoming_or_waiting = found.incoming;
            expect_answer = false;
            repoll_count = 0;
          })))
unfolding repoll complete
repolled before w found a n h = elim (Bool-cases (all_settled found.calls)) [
  | inl e ↦
      simp (h.repolls, e)
        (inr (
          found.calls,
          ap (λ x. (no_error, current_calls found.calls) ∷ x) a,
          h.are_calls,
          refl,
          simp (e) n,
        ))
  | inr e ↦
      simp (h.repolls, e)
        (inr (
          found.calls,
          ap (λ x. (no_error, current_calls found.calls) ∷ x) a,
          h.are_calls,
          refl,
          simp (e) (ap suc n),
        ))
]

erroneous_bound :
    (previous : ℤ) (found : Found) (w : World)
    → is_erroneous previous found w ≡ true
    → suc w.repoll_count ≤ repoll_calls_count_max
unfolding is_erroneous
erroneous_bound previous found w h = ground (arith, h)

answer-CallsAnswered :
    (w v : World) (previous : ℤ) (found : Found)
    → v.answers ≡ w.answers
    → v.call_callbacks ≡ w.call_callbacks
    → v.repoll_count ≡ w.repoll_count
    → IsFound found
    → Finishes (CallsAnswered w) (answer_calls previous found v)
unfolding answer_calls fail answer complete
answer-CallsAnswered w v previous found a n c f =
    if-Finishes (CallsAnswered w) (is_erroneous previous found v) _ _
      (λ e. inl (
        ap (λ x. (generic_failure, nothing) ∷ x) a,
        ap suc c,
        erroneous_bound previous found v e,
        n,
      ))
      (λ e. repolled w v found a n f)

-- Where the modem answers AT+CLCC with success, `requestGetCurrentCalls` returns and has answered once:
-- either with a failure that hides the list, and then `s_repollCallsCount` is one higher than before,
-- and four at most; or with a list of calls in which `isMT` and `isMpty` are 0 or 1 and each number is
-- NULL or dialable, and then `s_repollCallsCount` is 0, and the list is asked for again exactly where
-- one of the calls is neither active nor held. So it hides the list four times in a row at most.
pub get_current_calls-CallsAnswered :
    (w : World) (r : Reply) (resp : Response)
    → at_send_command_multiline false (codes "AT+CLCC") (codes "+CLCC:") true w.to_come w.channel
      ≡ returns r
    → r.code ≡ ok
    → r.out ≡ some resp
    → resp.success ≡ true
    → Finishes (CallsAnswered w) (request_get_current_calls w)
unfolding request_get_current_calls send_multiline resume on_success read_and_answer
get_current_calls-CallsAnswered w r resp e c o s =
    rw (e, c, o, s)
      (answer-CallsAnswered w _ w.incoming_or_waiting _ refl refl refl (
        lines-IsFound resp.intermediates zero_call no_calls tt
          (record { are_calls = tt; repolls = refl })))
