-- ===== src/AtChannel/Command/Pending.antt =====
-- What the reader thread does to a command that is pending: it stays pending, and no prefix is NULL
-- where a line is compared with it.
use mathlib.Core.Option
use platform_hardware_ril.Libc.{str_equal}
use platform_hardware_ril.AtChannel.Lines.{is_final_response_success, is_final_response_error}
use platform_hardware_ril.AtChannel.Write.{Device, Code}
use platform_hardware_ril.AtChannel.Reader.{
  Channel, CommandType, no_result, numeric, singleline, multiline, Response, is_nil,
  add_intermediate, call_handler, handle_unsolicited, has_prefix, take_or_pass, by_type, after_pdu,
  prompt, prompt_or_type, process_pending, process_line_for, process_line, handle_final_response,
  reader_is_closed,
}
use platform_hardware_ril.AtChannel.Command.{Run, returns, blocked, handled, at_close}
use platform_hardware_ril.Base.{
  sym, subst, ◌≡◌, inl, inr, refl, Bool, true, false, not, ◌&&◌, Option, none, some, Bytes,
  if◌then◌else◌, Bool-cases,
}

-- The types that compare lines with the prefix, or a PDU to send, come with a prefix.
abbrev pub IsComplete : CommandType → Option Bytes → Option Bytes → Type 0
IsComplete type (some p) pdu = Unit
IsComplete no_result none none = Unit
IsComplete numeric none none = Unit
IsComplete _ none pdu = ⊥

-- A command is pending.
pub record IsPending (c : Channel) : Type 0 where
  pub response : Response
  pub pending : c.response ≡ some response
  pub complete : IsComplete c.type c.response_prefix c.sms_pdu

-- What the reader thread makes of a line is known.
abbrev pub Handled : Run Channel → Type 0
Handled (returns c) = IsPending c
Handled blocked = Unit
Handled _ = ⊥

no_pdu :
    (type : CommandType) (prefix pdu : Option Bytes)
    → IsComplete type prefix pdu
    → IsComplete type prefix none
no_pdu type (some p) pdu h = tt
no_pdu no_result none none h = h
no_pdu numeric none none h = h
no_pdu no_result none (some p) h = absurd h
no_pdu numeric none (some p) h = absurd h
no_pdu singleline none pdu h = absurd h
no_pdu multiline none pdu h = absurd h

if-IsPending :
    (t : Bool) (c d : Channel) → IsPending c → IsPending d → IsPending (if t then c else d)
if-IsPending true c d h k = h
if-IsPending false c d h k = k

pub call_handler-IsPending :
    (l : Bytes) (pdu : Option Bytes) (c : Channel) → IsPending c → IsPending (call_handler l pdu c)
unfolding call_handler
call_handler-IsPending l pdu c h =
    if-IsPending c.has_handler _ _
      (record { response = h.response; pending = h.pending; complete = h.complete }) h

pub reader_is_closed-IsPending : (c : Channel) → IsPending c → IsPending (reader_is_closed c)
unfolding reader_is_closed
reader_is_closed-IsPending c h =
    if-IsPending (c.has_on_reader_closed && not c.reader_closed) _ _
      (record { response = h.response; pending = h.pending; complete = h.complete }) h

pub at_close-IsPending : (c : Channel) → IsPending c → IsPending (at_close c)
unfolding at_close
at_close-IsPending c h = record {
  response = h.response;
  pending = h.pending;
  complete = h.complete;
}

take_or_pass-IsPending :
    (l : Bytes) (r : Response) (c : Channel) (taken : Bool)
    → IsPending c
    → IsPending (take_or_pass l r c taken)
unfolding take_or_pass add_intermediate handle_unsolicited
take_or_pass-IsPending l r c true h = record { response = _; pending = refl; complete = h.complete }
take_or_pass-IsPending l r c false h = call_handler-IsPending l none c h

prefix-Handled :
    (l : Bytes) (r : Response) (c : Channel) (p : Bytes) (o : Option Bytes)
    → IsPending c
    → o ≡ some p
    → Handled (handled (some p) (Option.map (take_or_pass l r c) (has_prefix l o)))
unfolding has_prefix handled
prefix-Handled l r c p none h e = cc
prefix-Handled l r c p (some q) h e = take_or_pass-IsPending l r c _ h

by_type-Handled :
    (type : CommandType) (l : Bytes) (r : Response) (c : Channel) (prefix pdu : Option Bytes)
    → IsPending c
    → c.response_prefix ≡ prefix
    → IsComplete type prefix pdu
    → Handled (handled prefix (by_type type l r c))
unfolding by_type handled handle_unsolicited has_prefix
by_type-Handled no_result l r c prefix pdu h e p = call_handler-IsPending l none c h
by_type-Handled numeric l r c prefix pdu h e p = take_or_pass-IsPending l r c _ h
by_type-Handled singleline l r c (some p) pdu h e k = elim (Bool-cases (is_nil r.intermediates)) [
  | inl t ↦ rw t (prefix-Handled l r c p c.response_prefix h e)
  | inr t ↦ rw t (call_handler-IsPending l none c h)
]
by_type-Handled multiline l r c (some p) pdu h e k = prefix-Handled l r c p c.response_prefix h e
by_type-Handled singleline l r c none pdu h e k = absurd k
by_type-Handled multiline l r c none pdu h e k = absurd k

stuck-Handled :
    (type : CommandType) (prefix : Option Bytes) (pdu : Bytes)
    → IsComplete type prefix (some pdu)
    → Handled (handled prefix none)
unfolding handled
stuck-Handled type (some p) pdu h = tt
stuck-Handled no_result none pdu h = absurd h
stuck-Handled numeric none pdu h = absurd h
stuck-Handled singleline none pdu h = absurd h
stuck-Handled multiline none pdu h = absurd h

after_pdu-Handled :
    (c : Channel) (pdu : Bytes) (w : Option (Code × Device))
    → IsPending c
    → c.sms_pdu ≡ some pdu
    → Handled (handled c.response_prefix (after_pdu c w))
unfolding after_pdu handled
after_pdu-Handled c pdu none h e =
    stuck-Handled c.type c.response_prefix pdu
      (subst (IsComplete c.type c.response_prefix) e h.complete)
after_pdu-Handled c pdu (some (code, device)) h e = record {
  response = h.response;
  pending = h.pending;
  complete = no_pdu c.type c.response_prefix c.sms_pdu h.complete;
}

prompt-Handled :
    (pdu : Option Bytes) (l : Bytes) (r : Response) (c : Channel)
    → IsPending c
    → c.sms_pdu ≡ pdu
    → Handled (handled c.response_prefix (prompt_or_type pdu l r c))
unfolding prompt_or_type
prompt-Handled none l r c h e =
    by_type-Handled c.type l r c c.response_prefix c.sms_pdu h refl h.complete
prompt-Handled (some pdu) l r c h e = elim (Bool-cases (str_equal l prompt)) [
  | inl t ↦ rw t (after_pdu-Handled c pdu _ h e)
  | inr t ↦ rw t (by_type-Handled c.type l r c c.response_prefix c.sms_pdu h refl h.complete)
]

pending-Handled :
    (l : Bytes) (r : Response) (c : Channel)
    → IsPending c
    → Handled (handled c.response_prefix (process_pending l r c))
unfolding process_pending handled handle_final_response
pending-Handled l r c h = elim (Bool-cases (is_final_response_success l)) [
  | inl t ↦ rw t (record { response = _; pending = refl; complete = h.complete })
  | inr t ↦ elim (Bool-cases (is_final_response_error l)) [
    | inl u ↦ rw (t, u) (record { response = _; pending = refl; complete = h.complete })
    | inr u ↦ rw (t, u) (prompt-Handled c.sms_pdu l r c h refl)
  ]
]

pub process_line-Handled :
    (l : Bytes) (c : Channel) → IsPending c → Handled (handled c.response_prefix (process_line l c))
unfolding process_line process_line_for
process_line-Handled l c h =
    subst (λ o. Handled (handled c.response_prefix (process_line_for o l c))) (sym h.pending)
      (pending-Handled l h.response c h)
