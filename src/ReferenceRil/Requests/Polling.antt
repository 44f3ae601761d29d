-- ===== src/ReferenceRil/Requests/Polling.antt =====
-- `pollSIMState` of reference-ril/reference-ril.c: its branch of SIM_READY is never taken.
use platform_hardware_ril.AtChannel.Command.{Run, blocked, not_followed, reads_null, returns}
use platform_hardware_ril.ReferenceRil.Requests.{
  Outcome, World, ask_sim, on_answer, resume, send_singleline,
}
use platform_hardware_ril.ReferenceRil.SimStatus.{
  Answer, RadioState, is_state, null_read, off, on, ready, sim_of_error, sim_of_lines, sim_of_reply,
  sim_of_start, sim_of_token, sim_of_word, status, unavailable,
}
use platform_hardware_ril.AtChannel.Reader.{Response}
use platform_hardware_ril.AtChannel.Write.{Code, ok}
use platform_hardware_ril.AtTok.{Cursor, Status, failure, success}
use platform_hardware_ril.Libc.{str_equal}
use platform_hardware_ril.Base.Int.{negsuc, pos, ℤ}
use platform_hardware_ril.Base.{
  Bool-cases, Bytes, List, Option, [], codes, false, inl, inr, none, refl, some, subst, sym, true,
  ◌==◌, ◌∷◌, ◌≡◌,
}
use platform_hardware_ril.ReferenceRil.Requests.Radio.{poll_sim_with, poll_switch}
use platform_hardware_ril.AtChannel.Command.{Reply}

abbrev NotReady : Answer → Type 0
NotReady (status ready) = ⊥
NotReady (status _) = Unit
NotReady null_read = Unit

word-NotReady : (word : Bytes) → NotReady (status (sim_of_word false word))
unfolding sim_of_word
word-NotReady word = elim (Bool-cases (str_equal word (codes "SIM PIN"))) [
  | inl e ↦ rw e tt
  | inr e ↦ rw e (elim (Bool-cases (str_equal word (codes "SIM PUK"))) [
    | inl p ↦ rw p tt
    | inr p ↦ rw p (elim (Bool-cases (str_equal word (codes "PH-NET PIN"))) [
      | inl n ↦ rw n tt
      | inr n ↦
          rw n (elim (Bool-cases (str_equal word (codes "READY"))) [
            | inl r ↦ rw r tt
            | inr r ↦ rw r tt
          ])
    ])
  ])
]

token-NotReady : (t : Status × Option Bytes × Cursor) → NotReady (sim_of_token false t)
unfolding sim_of_token
token-NotReady (success, some word, cur) = word-NotReady word
token-NotReady (success, none, cur) = tt
token-NotReady (failure, o, cur) = tt

start-NotReady : (s : Status × Cursor) → NotReady (sim_of_start false s)
unfolding sim_of_start
start-NotReady (success, cur) = token-NotReady _
start-NotReady (failure, cur) = tt

lines-NotReady : (ls : List Bytes) → NotReady (sim_of_lines false ls)
unfolding sim_of_lines
lines-NotReady [] = tt
lines-NotReady (l ∷ ls) = start-NotReady _

error-NotReady : (n : ℤ) (ls : List Bytes) → NotReady (sim_of_error false n ls)
unfolding sim_of_error
error-NotReady (pos n) ls = elim (Bool-cases (n == 0)) [
  | inl e ↦ rw e (lines-NotReady ls)
  | inr e ↦ rw e (elim (Bool-cases (n == 10)) [ inl t ↦ rw t tt | inr t ↦ rw t tt ])
]
error-NotReady (negsuc n) ls = tt

reply-NotReady : (code : Code) (out : Option Response) → NotReady (sim_of_reply false code out)
unfolding sim_of_reply
reply-NotReady ok none = tt
reply-NotReady ok (some r) = error-NotReady _ r.intermediates
reply-NotReady _ out = tt

switch-same :
    (f g : World → Outcome) (w : World) (a : Answer)
    → NotReady a
    → on_answer (poll_switch f) w a ≡ on_answer (poll_switch g) w a
unfolding on_answer poll_switch
switch-same f g w (status ready) h = absurd h
switch-same f g w (status _) h = refl
switch-same f g w null_read h = refl

unavailable-not_on : (s : RadioState) → is_state s unavailable ≡ true → is_state s on ≡ false
unfolding is_state
unavailable-not_on unavailable h = refl
unavailable-not_on off h = cc
unavailable-not_on on h = cc

resume-same :
    (f g : World → Outcome) (w : World) (m : Run Reply)
    → is_state w.radio on ≡ false
    → resume
        (λ code out v. on_answer (poll_switch f) v (sim_of_reply (is_state v.radio on) code out))
        w
        m
      ≡ resume
          (λ code out v. on_answer (poll_switch g) v (sim_of_reply (is_state v.radio on) code out))
          w
          m
unfolding resume
resume-same f g w blocked h = refl
resume-same f g w reads_null h = refl
resume-same f g w not_followed h = refl
resume-same f g w (returns r) h =
    switch-same f g _ _
      (subst (λ b. NotReady (sim_of_reply b r.code r.out)) (sym h) (reply-NotReady r.code r.out))

-- What `pollSIMState` does is the same whatever stands in its branch of SIM_READY: it looks at the
-- SIM only while the radio is unavailable, and then `getSIMStatus` never returns SIM_READY.
pub poll_sim_ready_unused :
    (f g : World → Outcome) (w : World) → poll_sim_with f w ≡ poll_sim_with g w
unfolding poll_sim_with ask_sim send_singleline
poll_sim_ready_unused f g w = elim (Bool-cases (is_state w.radio unavailable)) [
  | inl e ↦ simp (e) (resume-same f g w _ (unavailable-not_on w.radio e))
  | inr e ↦ simp (e) refl
]
