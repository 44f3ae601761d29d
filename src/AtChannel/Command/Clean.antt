-- ===== src/AtChannel/Command/Clean.antt =====
-- What every call of the command thread leaves behind, whatever happens while it waits.
use platform_hardware_ril.Base.{
  subst, ◌≡◌, ◌≢◌, ◌⊎◌, inl, inr, refl, sym, Bool, true, false, ◌&&◌, ◌||◌, Option, none, some,
  List, [], ◌∷◌, Bytes, arith, if◌then◌else◌, Bool-cases,
}
use platform_hardware_ril.AtChannel.Command.{
  Run, returns, and_then, at_send_command_numeric, Event, line, sms, reader_ends, closes,
  other_command, wakes, times_out, Reply, Request, reply, clear_pending_command, finish_command,
  test_response, wait_for_response, after_writeline, at_send_command_full_nolock, is_some,
  check_response, at_send_command_singleline, reverse_intermediates,
}
use platform_hardware_ril.AtChannel.Reader.{Channel, Response, is_nil}
use platform_hardware_ril.AtChannel.Write.{Device, Code, ok, channel_closed}

-- A property of what a call returns, if it returns.
abbrev pub Returned {ℓ} : {A : Type 0} → (A → Type ℓ) → Run A → Type ℓ
Returned P (returns a) = P a
Returned P _ = Unit

pub Returned-and_then :
    {A : Type 0} (P : Reply → Type 0) (m : Run A) (f : A → Run Reply)
    → ((a : A) → Returned P (f a))
    → Returned P (and_then m f)
unfolding and_then
Returned-and_then P (returns a) f h = h a
Returned-and_then P _ f h = tt

-- A response is handed out by a call that succeeds, and then it has its final line, or by one that
-- finds the channel closed.
abbrev pub IsOut : Code → Option Response → Type 0
IsOut code none = Unit
IsOut code (some r) = ((code ≡ ok) × (is_some r.final_response ≡ true)) ⊎ (code ≡ channel_closed)

pub record IsClean (r : Reply) : Type 0 where
  pub idle : r.channel.response ≡ none
  pub no_prefix : r.channel.response_prefix ≡ none
  pub no_pdu : r.channel.sms_pdu ≡ none
  pub out_is_final : IsOut r.code r.out

reply-IsClean :
    (code : Code) (out : Option Response) (c : Channel) (events : List Event)
    → IsOut code out
    → IsClean (reply code out c events)
unfolding reply clear_pending_command
reply-IsClean code out c events h = record {
  idle = refl;
  no_prefix = refl;
  no_pdu = refl;
  out_is_final = h;
}

finish-IsOut :
    (wants_out closed : Bool) (r : Response)
    → (is_some r.final_response || closed) ≡ true
    → IsOut
        (if closed then channel_closed else ok)
        (if wants_out then some (reverse_intermediates r) else none)
unfolding reverse_intermediates
finish-IsOut false closed r h = tt
finish-IsOut true true r h = inr refl
finish-IsOut true false r h = inl (refl, ground arith)

test_response-IsClean :
    (wait : Channel → Run Reply) (wants_out : Bool) (events : List Event) (c : Channel)
    (o : Option Response)
    → ((c : Channel) → Returned IsClean (wait c))
    → Returned IsClean (test_response wait wants_out events c o)
unfolding test_response finish_command
test_response-IsClean wait wants_out events c none h = tt
test_response-IsClean wait wants_out events c (some r) h =
    elim (Bool-cases (is_some r.final_response || c.reader_closed)) [
      | inl e ↦ rw e (reply-IsClean _ _ _ events (finish-IsOut wants_out c.reader_closed r e))
      | inr e ↦ rw e (h c)
    ]

wait-IsClean :
    (timed wants_out : Bool) (events : List Event) (c : Channel)
    → Returned IsClean (wait_for_response timed wants_out events c)
unfolding wait_for_response
wait-IsClean timed wants_out [] c = tt
wait-IsClean timed wants_out (line l ∷ events) c =
    Returned-and_then IsClean _ _ (wait-IsClean timed wants_out events)
wait-IsClean timed wants_out (sms l pdu ∷ events) c = wait-IsClean timed wants_out events _
wait-IsClean timed wants_out (reader_ends ∷ events) c = wait-IsClean timed wants_out events _
wait-IsClean timed wants_out (closes ∷ events) c = wait-IsClean timed wants_out events _
wait-IsClean timed wants_out (other_command ∷ events) c =
    Returned-and_then IsClean _ _ (wait-IsClean timed wants_out events)
wait-IsClean timed wants_out (wakes ∷ events) c =
    test_response-IsClean _ wants_out events c c.response (wait-IsClean timed wants_out events)
wait-IsClean true wants_out (times_out ∷ events) c = reply-IsClean _ none c events tt
wait-IsClean false wants_out (times_out ∷ events) c = wait-IsClean false wants_out events c

after_writeline-IsClean :
    (q : Request) (events : List Event) (c : Channel) (w : Option (Code × Device))
    → Returned IsClean (after_writeline q events c w)
unfolding after_writeline
after_writeline-IsClean q events c none = tt
after_writeline-IsClean q events c (some (ok, device)) =
    test_response-IsClean _ q.wants_out events _ _ (wait-IsClean q.timed q.wants_out events)
after_writeline-IsClean q events c (some (code, device)) = reply-IsClean code none _ events tt

-- Whatever the state of the channel and whatever happens while the command waits, a call that
-- returns leaves no command pending; and a response that it hands out has its final line, or
-- comes with AT_ERROR_CHANNEL_CLOSED.
pub send_command-IsClean :
    (q : Request) (events : List Event) (c : Channel)
    → Returned IsClean (at_send_command_full_nolock q events c)
unfolding at_send_command_full_nolock
send_command-IsClean q events c = elim (Bool-cases (is_some c.response)) [
  | inl e ↦ rw e (reply-IsClean _ none c events tt)
  | inr e ↦ rw e (after_writeline-IsClean q events c _)
]

-- with no error and a response of success, there is an intermediate line
abbrev pub HasIntermediate : Code → Option Response → Type 0
HasIntermediate ok (some r) = (r.success ≡ false) ⊎ (r.intermediates ≢ [])
HasIntermediate _ _ = Unit

some_lines : (b : Bool) (xs : List Bytes) → (b && is_nil xs) ≡ false → (b ≡ false) ⊎ (xs ≢ [])
some_lines true [] h = cc
some_lines true (x ∷ xs) h = inr (λ e. cc)
some_lines false xs h = inl refl

check_response-HasIntermediate :
    (r : Reply)
    → HasIntermediate (check_response r.code r.out r).code (check_response r.code r.out r).out
unfolding check_response
check_response-HasIntermediate r = go r.code r.out refl refl
  where
    go :
        (code : Code) (out : Option Response)
        → r.code ≡ code
        → r.out ≡ out
        → HasIntermediate (check_response code out r).code (check_response code out r).out
    go ok (some resp) e o = elim (Bool-cases (resp.success && is_nil resp.intermediates)) [
      | inl bad ↦ rw bad tt
      | inr good ↦ rw good (
          subst (λ k. HasIntermediate k r.out) (sym e)
            (subst (HasIntermediate ok) (sym o) (some_lines resp.success resp.intermediates good)))
    ]
    go ok none e o =
        subst (λ k. HasIntermediate k r.out) (sym e) (subst (HasIntermediate ok) (sym o) tt)
    go _ out e o = subst (λ k. HasIntermediate k r.out) (sym e) tt

-- A single-line command that returns with no error and a response of success has a line of
-- intermediate response, whatever the modem sent.
pub singleline-HasIntermediate :
    (on_reader : Bool) (command prefix : Bytes) (wants_out : Bool) (events : List Event)
    (c : Channel)
    → Returned
        (λ r. HasIntermediate r.code r.out)
        (at_send_command_singleline on_reader command prefix wants_out events c)
unfolding at_send_command_singleline
singleline-HasIntermediate on_reader command prefix wants_out events c =
    Returned-and_then (λ r. HasIntermediate r.code r.out) _ _ check_response-HasIntermediate

pub numeric-HasIntermediate :
    (on_reader : Bool) (command : Bytes) (wants_out : Bool) (events : List Event) (c : Channel)
    → Returned
        (λ r. HasIntermediate r.code r.out)
        (at_send_command_numeric on_reader command wants_out events c)
unfolding at_send_command_numeric
numeric-HasIntermediate on_reader command wants_out events c =
    Returned-and_then (λ r. HasIntermediate r.code r.out) _ _ check_response-HasIntermediate
