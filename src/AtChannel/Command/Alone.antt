-- ===== src/AtChannel/Command/Alone.antt =====
-- A command that no other thread's command interrupts.
use platform_hardware_ril.AtChannel.Command.Pending.{
  IsComplete, IsPending, Handled, call_handler-IsPending, reader_is_closed-IsPending,
  at_close-IsPending, process_line-Handled,
}
use platform_hardware_ril.AtChannel.Write.{Device, Code, ok}
use platform_hardware_ril.AtChannel.Reader.{Channel, Response, is_nil}
use platform_hardware_ril.AtChannel.Command.{
  Event, line, sms, reader_ends, closes, other_command, wakes, times_out, Run, returns, blocked,
  reads_null, not_followed, and_then, Reply, Request, reply, finish_command, test_response,
  wait_for_response, after_writeline, at_send_command_full_nolock, at_send_command_full, is_some,
  new_response, check_response, count_timeout, timeout,
}
use platform_hardware_ril.Base.{
  sym, subst, ◌≡◌, inl, inr, refl, Bool, true, false, ◌&&◌, ◌||◌, Option, none, some, List, [], ◌∷◌,
  Bool-cases,
}

-- Among the events there is no command of another thread.
abbrev pub Alone : List Event → Type 0
Alone [] = Unit
Alone (other_command ∷ events) = ⊥
Alone (_ ∷ events) = Alone events

-- A call returns, with no command of another thread among the events to come, or it is blocked.
abbrev pub Follows : Run Reply → Type 0
Follows (returns r) = Alone r.to_come
Follows blocked = Unit
Follows _ = ⊥

and_then-Follows :
    (m : Run Channel) (f : Channel → Run Reply)
    → Handled m
    → ((c : Channel) → IsPending c → Follows (f c))
    → Follows (and_then m f)
unfolding and_then
and_then-Follows (returns c) f h k = k c h
and_then-Follows blocked f h k = tt
and_then-Follows reads_null f h k = absurd h
and_then-Follows not_followed f h k = absurd h

test_response-Follows :
    (wait : Channel → Run Reply) (wants_out : Bool) (events : List Event) (c : Channel)
    → Alone events
    → IsPending c
    → Follows (wait c)
    → Follows (test_response wait wants_out events c c.response)
unfolding test_response finish_command reply
test_response-Follows wait wants_out events c a h f =
    subst (λ o. Follows (test_response wait wants_out events c o)) (sym h.pending)
      (elim (Bool-cases (is_some h.response.final_response || c.reader_closed)) [
        | inl e ↦ rw e a
        | inr e ↦ rw e f
      ])

wait-Follows :
    (timed wants_out : Bool) (events : List Event) (c : Channel)
    → Alone events
    → IsPending c
    → Follows (wait_for_response timed wants_out events c)
unfolding wait_for_response reply
wait-Follows timed wants_out [] c a h = tt
wait-Follows timed wants_out (line l ∷ events) c a h =
    and_then-Follows _ _ (process_line-Handled l c h) (λ d. wait-Follows timed wants_out events d a)
wait-Follows timed wants_out (sms l pdu ∷ events) c a h =
    wait-Follows timed wants_out events _ a (call_handler-IsPending l (some pdu) c h)
wait-Follows timed wants_out (reader_ends ∷ events) c a h =
    wait-Follows timed wants_out events _ a (reader_is_closed-IsPending c h)
wait-Follows timed wants_out (closes ∷ events) c a h =
    wait-Follows timed wants_out events _ a (at_close-IsPending c h)
wait-Follows timed wants_out (other_command ∷ events) c a h = absurd a
wait-Follows timed wants_out (wakes ∷ events) c a h =
    test_response-Follows _ wants_out events c a h (wait-Follows timed wants_out events c a h)
wait-Follows true wants_out (times_out ∷ events) c a h = a
wait-Follows false wants_out (times_out ∷ events) c a h = wait-Follows false wants_out events c a h

after_writeline-Follows :
    (q : Request) (events : List Event) (c : Channel) (w : Option (Code × Device))
    → IsComplete q.type q.prefix q.pdu
    → Alone events
    → Follows (after_writeline q events c w)
unfolding after_writeline reply
after_writeline-Follows q events c none p a = tt
after_writeline-Follows q events c (some (ok, device)) p a =
    test_response-Follows _ q.wants_out events started a is_pending
      (wait-Follows q.timed q.wants_out events started a is_pending)
  where
    started : Channel
    started = record c {
      device = device;
      type = q.type;
      response_prefix = q.prefix;
      sms_pdu = q.pdu;
      response = some new_response;
    }

    is_pending : IsPending started
    is_pending = record { response = new_response; pending = refl; complete = p }
after_writeline-Follows q events c (some (_, device)) p a = a

-- Whatever the state of the channel, a command that has a prefix where its type or its PDU needs one,
-- and that no other thread's command interrupts, reads nothing through NULL, neither in its own
-- thread nor in the reader's: it returns, or it stays blocked in its wait or in a write.
pub send_command-Follows :
    (q : Request) (events : List Event) (c : Channel)
    → IsComplete q.type q.prefix q.pdu
    → Alone events
    → Follows (at_send_command_full_nolock q events c)
unfolding at_send_command_full_nolock reply
send_command-Follows q events c p a = elim (Bool-cases (is_some c.response)) [
  | inl e ↦ rw e a
  | inr e ↦ rw e (after_writeline-Follows q events c _ p a)
]

count_timeout-to_come : (code : Code) (r : Reply) → (count_timeout code r).to_come ≡ r.to_come
unfolding count_timeout
count_timeout-to_come timeout r = elim (Bool-cases r.channel.has_on_timeout) [
  | inl e ↦ rw e refl
  | inr e ↦ rw e refl
]
count_timeout-to_come _ r = refl

check_response-to_come :
    (code : Code) (out : Option Response) (r : Reply)
    → (check_response code out r).to_come ≡ r.to_come
unfolding check_response
check_response-to_come ok (some resp) r =
    elim (Bool-cases (resp.success && is_nil resp.intermediates)) [
      | inl e ↦ rw e refl
      | inr e ↦ rw e refl
    ]
check_response-to_come ok none r = refl
check_response-to_come _ out r = refl

map-Follows :
    (f : Reply → Reply) (m : Run Reply)
    → ((r : Reply) → (f r).to_come ≡ r.to_come)
    → Follows m
    → Follows (and_then m (λ r. returns (f r)))
unfolding and_then
map-Follows f (returns r) e h = subst Alone (sym (e r)) h
map-Follows f blocked e h = tt
map-Follows f reads_null e h = absurd h
map-Follows f not_followed e h = absurd h

pub full-Follows :
    (q : Request) (events : List Event) (c : Channel)
    → IsComplete q.type q.prefix q.pdu
    → Alone events
    → Follows (at_send_command_full false q events c)
unfolding at_send_command_full
full-Follows q events c p a =
    map-Follows _ _ (λ r. count_timeout-to_come r.code r) (send_command-Follows q events c p a)

pub checked-Follows :
    (m : Run Reply)
    → Follows m
    → Follows (and_then m (λ r. returns (check_response r.code r.out r)))
checked-Follows m = map-Follows _ m (λ r. check_response-to_come r.code r.out r)
