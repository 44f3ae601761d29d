-- ===== src/ReferenceRil/Requests/Once.antt =====
-- How often a request handler of reference-ril/reference-ril.c answers: the lemmas on the steps that
-- the handlers are made of.
use platform_hardware_ril.AtChannel.Command.Closed.{
  EndsClosed, IsClosed, checked-EndsClosed, full-EndsClosed,
}
use platform_hardware_ril.AtChannel.Command.{
  at_send_command, at_send_command_multiline, at_send_command_numeric, at_send_command_singleline,
  at_send_command_sms,
}
use platform_hardware_ril.Base.{ap}
use platform_hardware_ril.ReferenceRil.Requests.{on_test}
use platform_hardware_ril.ReferenceRil.Requests.{answer_parsed, no_error, succeed}
use platform_hardware_ril.AtTok.{Cursor, Status, failure, success}
use platform_hardware_ril.ReferenceRil.Requests.{of_lines}
use platform_hardware_ril.ReferenceRil.Requests.{
  unfollowed, Continue, Errno, Outcome, Payload, World, answer, ask_sim, complete, done, fail,
  faults, generic_failure, is_absent, nothing, on_answer, on_success, resume, send, send_multiline,
  send_numeric, send_only, send_singleline, send_sms, unless_absent, waits, with_line,
}
use platform_hardware_ril.AtChannel.Command.Clean.{Returned}
use platform_hardware_ril.AtChannel.Command.Out.{
  HasOut, IsUsable, command-HasOut, multiline-HasOut, numeric-IsUsable, singleline-IsUsable,
  sms-HasOut,
}
use platform_hardware_ril.AtChannel.Reader.{Response}
use platform_hardware_ril.AtChannel.Command.{Reply, Run, returns, blocked, reads_null, not_followed}
use platform_hardware_ril.AtChannel.Command.Alone.{Alone, Follows, full-Follows, checked-Follows}
use platform_hardware_ril.AtChannel.Write.{Code, ok}
use platform_hardware_ril.ReferenceRil.SimStatus.{
  sim_of_reply, Answer, SimStatus, null_read, status,
}
use platform_hardware_ril.Base.{
  Bool, Bytes, List, Option, [], false, if◌then◌else◌, inl, inr, none, refl, some, true, ◌∷◌, ◌≡◌,
  ◌≢◌,
}

-- Where the handler returns, a property holds; the flag allows it a fault.
abbrev pub Ends : Bool → (World → Type 0) → Outcome → Type 0
Ends may_fault P waits = Unit
Ends may_fault P unfollowed = Unit
Ends true P faults = Unit
Ends false P faults = ⊥
Ends may_fault P (done w) = P w

-- The handler returns, and a property holds.
abbrev pub Finishes : (World → Type 0) → Outcome → Type 0
Finishes P (done w) = P w
Finishes P _ = ⊥

-- one answer more than those of a list
abbrev pub OneMore : List (Errno × Payload) → World → Type 0
OneMore old w = (a : Errno × Payload) × (w.answers ≡ a ∷ old)

-- A handler starts with these answers, on a channel that is closed where the flag is set, and no
-- other thread sends a command while it runs.
abbrev pub Starts : Bool → List (Errno × Payload) → World → Type 0
Starts shut old w = (w.answers ≡ old) × (shut ≡ true → IsClosed w.channel) × Alone w.to_come

-- As `Ends`, for one answer more; with the second flag set the handler neither waits nor faults.
abbrev pub Completes : Bool → Bool → List (Errno × Payload) → Outcome → Type 0
Completes may_fault shut old waits = shut ≡ false
Completes may_fault shut old unfollowed = ⊥
Completes true shut old faults = shut ≡ false
Completes false shut old faults = ⊥
Completes may_fault shut old (done w) = OneMore old w

abbrev pub AnswersIf : Bool → Bool → (World → Outcome) → Type 0
AnswersIf b shut k =
    (old : List (Errno × Payload)) (w : World) → Starts shut old w → Completes b shut old (k w)

-- A step of a handler.
abbrev pub Answers : Bool → (World → Outcome) → Type 0
Answers b k = (shut : Bool) → AnswersIf b shut k

-- A step behind a command, which returns an error on a closed channel.
abbrev pub Continues : Bool → (Code → Option Response → Type 0) → Continue → Type 0
Continues b Q k =
    (code : Code) (out : Option Response)
    → Q code out
    → (shut : Bool) → (shut ≡ true → code ≢ ok)
    → AnswersIf b shut (k code out)

not_shut : (shut : Bool) → (shut ≡ true → ⊥) → shut ≡ false
not_shut true n = absurd (n refl)
not_shut false n = refl

pub answer-once : (b : Bool) (e : Errno) (p : Payload) → Answers b (answer e p)
unfolding answer complete
answer-once b e p shut old w h = ((e, p), ap (λ x. (e, p) ∷ x) h.0)

pub fail-once : (b : Bool) → Answers b fail
unfolding fail
fail-once b = answer-once b generic_failure nothing

resume-once :
    (b : Bool) (Q : Code → Option Response → Type 0) (k : Continue) (shut : Bool)
    (old : List (Errno × Payload)) (w : World) (m : Run Reply)
    → Starts shut old w
    → Returned (λ r. Q r.code r.out) m
    → (IsClosed w.channel → EndsClosed m)
    → Follows m
    → Continues b Q k
    → Completes b shut old (resume k w m)
unfolding resume
resume-once b Q k false old w blocked h q n a f = refl
resume-once b Q k true old w blocked h q n a f = absurd (n (h.1 refl))
resume-once b Q k shut old w reads_null h q n a f = absurd a
resume-once b Q k shut old w not_followed h q n a f = absurd a
resume-once b Q k shut old w (returns r) h q n a f =
    f r.code r.out q shut (λ e. (n (h.1 e)).1) old _ (h.0, λ e. (n (h.1 e)).0, a)

returned_any : (m : Run Reply) → Returned {0} (λ r. Unit) m
returned_any (returns r) = tt
returned_any _ = tt

pub send_only-once :
    (b : Bool) (command : Bytes) (k : World → Outcome)
    → Answers b k
    → Answers b (send_only command k)
unfolding send_only at_send_command
send_only-once b command k f shut old w h =
    resume-once b (λ c o. Unit) _ shut old w _ h (returned_any _)
      (full-EndsClosed _ w.to_come w.channel) (full-Follows _ w.to_come w.channel tt h.2)
      (λ c o u shut n. f shut)

pub send-once :
    (b : Bool) (command : Bytes) (k : Continue) → Continues b HasOut k → Answers b (send command k)
unfolding send at_send_command
send-once b command k f shut old w h =
    resume-once b HasOut k shut old w _ h (command-HasOut command _ _)
      (full-EndsClosed _ w.to_come w.channel) (full-Follows _ w.to_come w.channel tt h.2) f

pub send_singleline-once :
    (b : Bool) (command prefix : Bytes) (k : Continue)
    → Continues b IsUsable k
    → Answers b (send_singleline command prefix k)
unfolding send_singleline at_send_command_singleline
send_singleline-once b command prefix k f shut old w h =
    resume-once b IsUsable k shut old w _ h (singleline-IsUsable command prefix _ _)
      (λ n. checked-EndsClosed _ (full-EndsClosed _ w.to_come w.channel n))
      (checked-Follows _ (full-Follows _ w.to_come w.channel tt h.2)) f

pub send_numeric-once :
    (b : Bool) (command : Bytes) (k : Continue)
    → Continues b IsUsable k
    → Answers b (send_numeric command k)
unfolding send_numeric at_send_command_numeric
send_numeric-once b command k f shut old w h =
    resume-once b IsUsable k shut old w _ h (numeric-IsUsable command _ _)
      (λ n. checked-EndsClosed _ (full-EndsClosed _ w.to_come w.channel n))
      (checked-Follows _ (full-Follows _ w.to_come w.channel tt h.2)) f

pub send_multiline-once :
    (b : Bool) (command prefix : Bytes) (k : Continue)
    → Continues b HasOut k
    → Answers b (send_multiline command prefix k)
unfolding send_multiline at_send_command_multiline
send_multiline-once b command prefix k f shut old w h =
    resume-once b HasOut k shut old w _ h (multiline-HasOut command prefix _ _)
      (full-EndsClosed _ w.to_come w.channel) (full-Follows _ w.to_come w.channel tt h.2) f

pub send_sms-once :
    (b : Bool) (command pdu prefix : Bytes) (k : Continue)
    → Continues b HasOut k
    → Answers b (send_sms command pdu prefix k)
unfolding send_sms at_send_command_sms
send_sms-once b command pdu prefix k f shut old w h =
    resume-once b HasOut k shut old w _ h (sms-HasOut command pdu prefix _ _)
      (λ n. checked-EndsClosed _ (full-EndsClosed _ w.to_come w.channel n))
      (checked-Follows _ (full-Follows _ w.to_come w.channel tt h.2)) f

pub if-Ends :
    (b : Bool) (P : World → Type 0) (t : Bool) (x y : Outcome)
    → (t ≡ true → Ends b P x)
    → (t ≡ false → Ends b P y)
    → Ends b P (if t then x else y)
if-Ends b P true x y f g = f refl
if-Ends b P false x y f g = g refl

pub if-Finishes :
    (P : World → Type 0) (t : Bool) (x y : Outcome)
    → (t ≡ true → Finishes P x)
    → (t ≡ false → Finishes P y)
    → Finishes P (if t then x else y)
if-Finishes P true x y f g = f refl
if-Finishes P false x y f g = g refl

pub if-Completes :
    (b shut : Bool) (old : List (Errno × Payload)) (t : Bool) (x y : Outcome)
    → (t ≡ true → Completes b shut old x)
    → (t ≡ false → Completes b shut old y)
    → Completes b shut old (if t then x else y)
if-Completes b shut old true x y f g = f refl
if-Completes b shut old false x y f g = g refl

-- behind a command whose intermediate lines are not read
pub on_success-once :
    (b : Bool) (bad : World → Outcome) (good : Response → World → Outcome)
    → Answers b bad
    → ((r : Response) → Answers b (good r))
    → Continues b HasOut (on_success bad good)
unfolding on_success
on_success-once b bad good f g ok none q shut n old w h = absurd q
on_success-once b bad good f g ok (some r) q shut n old w h =
    if-Completes b shut old r.success _ _ (λ e. g r shut old w h) (λ e. f shut old w h)
on_success-once b bad good f g _ out q shut n old w h = f shut old w h

of_lines-once :
    (b : Bool) (k : Bytes → World → Outcome) (ls : List Bytes)
    → ((l : Bytes) → AnswersIf b false (k l))
    → ls ≢ []
    → AnswersIf b false (λ w. of_lines k w ls)
unfolding of_lines
of_lines-once b k [] f n old w h = absurd (n refl)
of_lines-once b k (l ∷ ls) f n old w h = f l old w h

-- behind a command whose first intermediate line is read
pub on_line-once :
    (b : Bool) (bad : World → Outcome) (k : Bytes → World → Outcome)
    → Answers b bad
    → ((l : Bytes) → AnswersIf b false (k l))
    → Continues b IsUsable (on_success bad (with_line k))
unfolding on_success with_line
on_line-once b bad k f g ok none q shut n old w h = absurd q.0
on_line-once b bad k f g ok (some r) q true n old w h = absurd (n refl refl)
on_line-once b bad k f g ok (some r) q false n old w h =
    if-Completes b false old r.success _ _
      (λ e. elim q.1 [ inl bad_e ↦ cc | inr m ↦ of_lines-once b k _ g m old w h ])
      (λ e. f false old w h)
on_line-once b bad k f g _ out q shut n old w h = f shut old w h

-- `getSIMStatus` reads through NULL only behind a command without an error code.
sim-null :
    (is_on : Bool) (code : Code) (out : Option Response)
    → sim_of_reply is_on code out ≡ null_read
    → code ≡ ok
unfolding sim_of_reply
sim-null is_on ok out e = refl
sim-null is_on _ out e = cc

-- A call of `getSIMStatus` can fault.
pub ask_sim-once :
    (k : SimStatus → World → Outcome)
    → ((s : SimStatus) → Answers true (k s))
    → Answers true (ask_sim k)
unfolding ask_sim on_answer
ask_sim-once k f = send_singleline-once true _ _ _ (λ code out q shut n old w h.
    go shut old w h _ (λ e. not_shut shut (λ s. n s (sim-null _ code out e))))
  where
    go :
        (shut : Bool) (old : List (Errno × Payload)) (w : World)
        → Starts shut old w
        → (a : Answer) → (a ≡ null_read → shut ≡ false)
        → Completes true shut old (on_answer k w a)
    go shut old w h (status s) e = f s shut old w h
    go shut old w h null_read e = e refl

pub unless_absent-once :
    (e : Errno) (k : World → Outcome) → Answers true k → Answers true (unless_absent e k)
unfolding unless_absent
unless_absent-once e k f = ask_sim-once _ (λ s shut old w h.
    if-Completes true shut old (is_absent s) _ _ (λ t. answer-once true e nothing shut old w h)
      (λ t. f shut old w h))

-- A test whose two branches answer once.
pub if-once :
    (b t : Bool) (k l : World → Outcome)
    → Answers b k
    → Answers b l
    → Answers b (λ w. if t then k w else l w)
if-once b true k l f g = f
if-once b false k l f g = g

pub succeed-once : (b : Bool) → Answers b succeed
unfolding succeed
succeed-once b = answer-once b no_error nothing

pub answer_parsed-once :
    {A : Type 0} (b : Bool) (payload : A → Payload) (r : Status × Cursor × A)
    → Answers b (λ w. answer_parsed payload w r)
unfolding answer_parsed
answer_parsed-once b payload (success, cur, a) shut old w h =
    answer-once b no_error (payload a) shut old w h
answer_parsed-once b payload (failure, cur, a) shut old w h = fail-once b shut old w h

pub test-once :
    (b : Bool) (t : World → Bool) (k l : World → Outcome)
    → Answers b k
    → Answers b l
    → Answers b (on_test t k l)
unfolding on_test
test-once b t k l f g shut old w h =
    if-Completes b shut old (t w) (k w) (l w) (λ e. f shut old w h) (λ e. g shut old w h)
