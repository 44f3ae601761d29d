-- ===== src/AtChannel/Command/Out.antt =====
-- The response that a call of the command thread hands out where it returns no error.
use platform_hardware_ril.AtChannel.Command.Clean.{
  Returned-and_then, HasIntermediate, Returned, numeric-HasIntermediate, singleline-HasIntermediate,
}
use platform_hardware_ril.AtChannel.Command.{
  Run, returns, and_then, Event, Reply, Request, after_writeline, at_send_command,
  at_send_command_full, at_send_command_full_nolock, at_send_command_multiline,
  at_send_command_numeric, at_send_command_singleline, at_send_command_sms, check_response, closes,
  count_timeout, finish_command, is_some, line, other_command, reader_ends, reply, sms,
  test_response, times_out, wait_for_response, wakes,
}
use platform_hardware_ril.AtChannel.Reader.{Channel, Response, is_nil}
use platform_hardware_ril.AtChannel.Write.{Code, Device, channel_closed, ok, timeout}
use platform_hardware_ril.Base.{
  Bool, Bool-cases, Bytes, List, Option, [], false, if◌then◌else◌, inl, inr, none, refl, some, true,
  ◌&&◌, ◌||◌, ◌∷◌, ◌≡◌,
}

-- with no error there is a response
abbrev pub HasOut : Code → Option Response → Type 0
HasOut ok none = ⊥
HasOut _ _ = Unit

abbrev Good : Reply → Type 0
Good r = HasOut r.code r.out

finish-HasOut :
    (closed : Bool) (r : Response) → HasOut (if closed then channel_closed else ok) (some r)
finish-HasOut true r = tt
finish-HasOut false r = tt

test_response-HasOut :
    (wait : Channel → Run Reply) (events : List Event) (c : Channel) (o : Option Response)
    → ((c : Channel) → Returned Good (wait c))
    → Returned Good (test_response wait true events c o)
unfolding test_response finish_command reply
test_response-HasOut wait events c none h = tt
test_response-HasOut wait events c (some r) h =
    elim (Bool-cases (is_some r.final_response || c.reader_closed)) [
      | inl e ↦ rw e (finish-HasOut c.reader_closed _)
      | inr e ↦ rw e (h c)
    ]

wait-HasOut :
    (timed : Bool) (events : List Event) (c : Channel)
    → Returned Good (wait_for_response timed true events c)
unfolding wait_for_response reply
wait-HasOut timed [] c = tt
wait-HasOut timed (line l ∷ events) c = Returned-and_then Good _ _ (wait-HasOut timed events)
wait-HasOut timed (sms l pdu ∷ events) c = wait-HasOut timed events _
wait-HasOut timed (reader_ends ∷ events) c = wait-HasOut timed events _
wait-HasOut timed (closes ∷ events) c = wait-HasOut timed events _
wait-HasOut timed (other_command ∷ events) c = Returned-and_then Good _ _ (wait-HasOut timed events)
wait-HasOut timed (wakes ∷ events) c =
    test_response-HasOut _ events c c.response (wait-HasOut timed events)
wait-HasOut true (times_out ∷ events) c = tt
wait-HasOut false (times_out ∷ events) c = wait-HasOut false events c

after_writeline-HasOut :
    (q : Request) (events : List Event) (c : Channel) (w : Option (Code × Device))
    → q.wants_out ≡ true
    → Returned Good (after_writeline q events c w)
unfolding after_writeline reply
after_writeline-HasOut q events c none h = tt
after_writeline-HasOut q events c (some (ok, device)) h =
    rw h (test_response-HasOut _ events _ _ (wait-HasOut q.timed events))
after_writeline-HasOut q events c (some (_, device)) h = tt

count_timeout-HasOut : (code : Code) (r : Reply) → Good r → Good (count_timeout code r)
unfolding count_timeout
count_timeout-HasOut timeout r h = elim (Bool-cases r.channel.has_on_timeout) [
  | inl e ↦ rw e h
  | inr e ↦ rw e h
]
count_timeout-HasOut _ r h = h

-- A call from another thread than the reader's, which wants the response, has one where it returns
-- no error.
full-HasOut :
    (q : Request) (events : List Event) (c : Channel)
    → q.wants_out ≡ true
    → Returned Good (at_send_command_full false q events c)
unfolding at_send_command_full at_send_command_full_nolock reply count_timeout and_then
full-HasOut q events c h = elim (Bool-cases (is_some c.response)) [
  | inl e ↦ rw e tt
  | inr e ↦ rw e (go _ (after_writeline-HasOut q events c _ h))
]
  where
    go :
        (m : Run Reply)
        → Returned Good m
        → Returned Good (and_then m (λ r. returns (count_timeout r.code r)))
    go (returns r) h = count_timeout-HasOut r.code r h
    go _ h = tt

check-HasOut :
    (code : Code) (out : Option Response) (r : Reply) → Good r → Good (check_response code out r)
unfolding check_response
check-HasOut ok (some resp) r h = elim (Bool-cases (resp.success && is_nil resp.intermediates)) [
  | inl e ↦ rw e tt
  | inr e ↦ rw e h
]
check-HasOut ok none r h = h
check-HasOut _ out r h = h

checked-HasOut :
    (m : Run Reply)
    → Returned Good m
    → Returned Good (and_then m (λ r. returns (check_response r.code r.out r)))
unfolding and_then
checked-HasOut (returns r) h = check-HasOut r.code r.out r h
checked-HasOut _ h = tt

-- What a caller finds with no error: a response, and a line of it where it reports success.
abbrev pub IsUsable : Code → Option Response → Type 0
IsUsable code out = HasOut code out × HasIntermediate code out

both :
    (m : Run Reply)
    → Returned Good m
    → Returned (λ r. HasIntermediate r.code r.out) m
    → Returned (λ r. IsUsable r.code r.out) m
both (returns r) h k = (h, k)
both _ h k = tt

pub command-HasOut :
    (command : Bytes) (events : List Event) (c : Channel)
    → Returned Good (at_send_command false command true events c)
unfolding at_send_command
command-HasOut command events c = full-HasOut _ events c refl

pub multiline-HasOut :
    (command prefix : Bytes) (events : List Event) (c : Channel)
    → Returned Good (at_send_command_multiline false command prefix true events c)
unfolding at_send_command_multiline
multiline-HasOut command prefix events c = full-HasOut _ events c refl

singleline-HasOut :
    (command prefix : Bytes) (events : List Event) (c : Channel)
    → Returned Good (at_send_command_singleline false command prefix true events c)
unfolding at_send_command_singleline
singleline-HasOut command prefix events c = checked-HasOut _ (full-HasOut _ events c refl)

numeric-HasOut :
    (command : Bytes) (events : List Event) (c : Channel)
    → Returned Good (at_send_command_numeric false command true events c)
unfolding at_send_command_numeric
numeric-HasOut command events c = checked-HasOut _ (full-HasOut _ events c refl)

pub singleline-IsUsable :
    (command prefix : Bytes) (events : List Event) (c : Channel)
    → Returned
        (λ r. IsUsable r.code r.out)
        (at_send_command_singleline false command prefix true events c)
singleline-IsUsable command prefix events c =
    both _ (singleline-HasOut command prefix events c)
      (singleline-HasIntermediate false command prefix true events c)

pub numeric-IsUsable :
    (command : Bytes) (events : List Event) (c : Channel)
    → Returned (λ r. IsUsable r.code r.out) (at_send_command_numeric false command true events c)
numeric-IsUsable command events c =
    both _ (numeric-HasOut command events c) (numeric-HasIntermediate false command true events c)

pub sms-HasOut :
    (command pdu prefix : Bytes) (events : List Event) (c : Channel)
    → Returned Good (at_send_command_sms false command pdu prefix true events c)
unfolding at_send_command_sms
sms-HasOut command pdu prefix events c = checked-HasOut _ (full-HasOut _ events c refl)
