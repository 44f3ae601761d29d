-- ===== src/ReferenceRil/Unsolicited/Passed.antt =====
-- What the reader thread of reference-ril/atchannel.c passes to its handler of unsolicited lines.
use mathlib.Core.Option
use platform_hardware_ril.AtChannel.Reader.{
  Channel, CommandType, Response, add_intermediate, after_pdu, by_type, call_handler,
  handle_final_response, handle_unsolicited, has_prefix, is_nil, multiline, no_result, numeric,
  process_line, process_line_for, process_pending, prompt, prompt_or_type, reader_is_closed,
  reader_loop, singleline, take_or_pass,
}
use platform_hardware_ril.AtChannel.Write.{Code, Device}
use platform_hardware_ril.AtChannel.Lines.{
  is_final_response_error, is_final_response_success, is_sms_unsolicited,
}
use platform_hardware_ril.Libc.{str_equal}
use platform_hardware_ril.Base.{
  All, Bool, Bool-cases, Bytes, List, Option, [], false, inl, inr, none, not, some, true, ◌&&◌,
  ◌++◌, ◌∷◌, ◌≡◌,
}

-- A notice of an SMS comes with its PDU.
abbrev pub WithPdu : Bytes × Option Bytes → Type 0
WithPdu (s, some pdu) = Unit
WithPdu (s, none) = is_sms_unsolicited s ≡ false

abbrev pub Passed : Option Channel → Type 0
Passed none = Unit
Passed (some c) = All WithPdu c.unsolicited

abbrev pub Calls : Type 0
Calls = List (Bytes × Option Bytes)

All-snoc :
    (xs : Calls) (x : Bytes × Option Bytes)
    → All WithPdu xs
    → WithPdu x
    → All WithPdu (xs ++ x ∷ [])
All-snoc [] x h p = (p, tt)
All-snoc (y ∷ ys) x (q, h) p = (q, All-snoc ys x h p)

call-Passed :
    (s : Bytes) (pdu : Option Bytes) (c : Channel)
    → WithPdu (s, pdu)
    → All WithPdu c.unsolicited
    → All WithPdu (call_handler s pdu c).unsolicited
unfolding call_handler
call-Passed s pdu c p h = elim (Bool-cases c.has_handler) [
  | inl e ↦ simp (e) (All-snoc c.unsolicited (s, pdu) h p)
  | inr e ↦ simp (e) h
]

take-Passed :
    (s : Bytes) (r : Response) (c : Channel) (b : Bool)
    → is_sms_unsolicited s ≡ false
    → All WithPdu c.unsolicited
    → All WithPdu (take_or_pass s r c b).unsolicited
unfolding take_or_pass add_intermediate handle_unsolicited
take-Passed s r c true p h = h
take-Passed s r c false p h = call-Passed s none c p h

map-Passed :
    (s : Bytes) (r : Response) (c : Channel) (o : Option Bool)
    → is_sms_unsolicited s ≡ false
    → All WithPdu c.unsolicited
    → Passed (Option.map (take_or_pass s r c) o)
map-Passed s r c none p h = tt
map-Passed s r c (some b) p h = take-Passed s r c b p h

type-Passed :
    (kind : CommandType) (s : Bytes) (r : Response) (c : Channel)
    → is_sms_unsolicited s ≡ false
    → All WithPdu c.unsolicited
    → Passed (by_type kind s r c)
unfolding by_type handle_unsolicited
type-Passed no_result s r c p h = call-Passed s none c p h
type-Passed numeric s r c p h = take-Passed s r c _ p h
type-Passed singleline s r c p h = elim (Bool-cases (is_nil r.intermediates)) [
  | inl e ↦ simp (e) (map-Passed s r c (has_prefix s c.response_prefix) p h)
  | inr e ↦ simp (e) (call-Passed s none c p h)
]
type-Passed multiline s r c p h = map-Passed s r c (has_prefix s c.response_prefix) p h

pdu-Passed :
    (c : Channel) (o : Option (Code × Device)) → All WithPdu c.unsolicited → Passed (after_pdu c o)
unfolding after_pdu
pdu-Passed c none h = tt
pdu-Passed c (some (code, device)) h = h

prompt-Passed :
    (pdu : Option Bytes) (s : Bytes) (r : Response) (c : Channel)
    → is_sms_unsolicited s ≡ false
    → All WithPdu c.unsolicited
    → Passed (prompt_or_type pdu s r c)
unfolding prompt_or_type
prompt-Passed none s r c p h = type-Passed c.type s r c p h
prompt-Passed (some pdu) s r c p h = elim (Bool-cases (str_equal s prompt)) [
  | inl e ↦ simp (e) (pdu-Passed c _ h)
  | inr e ↦ simp (e) (type-Passed c.type s r c p h)
]

pending-Passed :
    (o : Option Response) (s : Bytes) (c : Channel)
    → is_sms_unsolicited s ≡ false
    → All WithPdu c.unsolicited
    → Passed (process_line_for o s c)
unfolding process_line_for process_pending handle_final_response handle_unsolicited
pending-Passed none s c p h = call-Passed s none c p h
pending-Passed (some r) s c p h = elim (Bool-cases (is_final_response_success s)) [
  | inl e ↦ simp (e) h
  | inr e ↦ elim (Bool-cases (is_final_response_error s)) [
    | inl f ↦ simp (e, f) h
    | inr f ↦ simp (e, f) (prompt-Passed c.sms_pdu s r c p h)
  ]
]

line-Passed :
    (s : Bytes) (c : Channel)
    → is_sms_unsolicited s ≡ false
    → All WithPdu c.unsolicited
    → Passed (process_line s c)
unfolding process_line
line-Passed s c p h = pending-Passed c.response s c p h

closed-Passed :
    (c : Channel) → All WithPdu c.unsolicited → All WithPdu (reader_is_closed c).unsolicited
unfolding reader_is_closed
closed-Passed c h = elim (Bool-cases (c.has_on_reader_closed && not c.reader_closed)) [
  | inl e ↦ simp (e) h
  | inr e ↦ simp (e) h
]

last-Passed : (o : Option Channel) → Passed o → Passed (Option.map reader_is_closed o)
last-Passed none h = tt
last-Passed (some c) h = closed-Passed c h

bind-Passed :
    (o : Option Channel) (k : Channel → Option Channel)
    → Passed o
    → ((c : Channel) → All WithPdu c.unsolicited → Passed (k c))
    → Passed (Option.bind o k)
unfolding Option.bind
bind-Passed none k h f = tt
bind-Passed (some c) k h f = f c h

-- What `readerLoop` passes to the handler has a PDU wherever it is a notice of an SMS.
pub loop-Passed :
    (lines : List Bytes) (c : Channel) → All WithPdu c.unsolicited → Passed (reader_loop lines c)
unfolding reader_loop is_sms_unsolicited
loop-Passed [] c h = closed-Passed c h
loop-Passed (s ∷ []) c h = elim (Bool-cases (is_sms_unsolicited s)) [
  | inl e ↦ simp (e) (closed-Passed c h)
  | inr e ↦ simp (e) (last-Passed (process_line s c) (line-Passed s c e h))
]
loop-Passed (s ∷ s2 ∷ lines) c h = elim (Bool-cases (is_sms_unsolicited s)) [
  | inl e ↦
      simp (e) (loop-Passed lines (call_handler s (some s2) c) (call-Passed s (some s2) c tt h))
  | inr e ↦
      simp (e) (bind-Passed (process_line s c) _ (line-Passed s c e h) (loop-Passed (s2 ∷ lines)))
]
