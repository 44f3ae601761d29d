-- ===== src/AtChannel/Command/Sorting.antt =====
-- Where the lines go that come back while a command waits.
use mathlib.Core.Option
use mathlib.Core.List.{append_assoc, append-nil}
use platform_hardware_ril.Base.{
  ap₂, ◌≡◌, refl, sym, ap, ◌∙◌, Bool, true, false, not, ◌&&◌, ◌||◌, Option, none, some, List, [],
  ◌∷◌, ◌++◌, map, Bytes, All, arith, if◌then◌else◌, Bool-cases, inl, inr,
}
use platform_hardware_ril.AtChannel.Lines.{
  str_starts_with, is_final_response_success, is_final_response_error,
}
use platform_hardware_ril.AtChannel.Reader.{
  Channel, CommandType, no_result, numeric, singleline, multiline, Response, is_nil,
  add_intermediate, call_handler, handle_unsolicited, starts_with_digit, has_prefix, take_or_pass,
  by_type, prompt_or_type, process_pending, process_line_for, process_line,
}
use platform_hardware_ril.AtChannel.Command.{reverse_onto}

-- Where the type compares lines with the prefix, there is one.
abbrev pub HasPrefix : CommandType → Option Bytes → Bytes → Type 0
HasPrefix no_result prefix p = Unit
HasPrefix numeric prefix p = Unit
HasPrefix singleline prefix p = prefix ≡ some p
HasPrefix multiline prefix p = prefix ≡ some p

-- What each type of command takes of the lines: which lines are kept as intermediate responses and
-- which are passed to the handler, in order. The flag is whether a line has been kept.
abbrev pub wants : CommandType → Bytes → Bool → Bytes → Bool
wants no_result p seen l = false
wants numeric p seen l = not seen && starts_with_digit l
wants singleline p seen l = not seen && str_starts_with l p
wants multiline p seen l = str_starts_with l p

abbrev pub keep : Bool → Bytes → List Bytes × List Bytes → List Bytes × List Bytes
keep true l (kept, passed) = (l ∷ kept, passed)
keep false l (kept, passed) = (kept, l ∷ passed)

unfoldable pub sort : CommandType → Bytes → Bool → List Bytes → List Bytes × List Bytes
sort type p seen [] = ([], [])
sort type p seen (l ∷ ls) =
    let wanted = wants type p seen l in keep wanted l (sort type p (seen || wanted) ls)

-- no final response
abbrev pub IsOrdinary : Bytes → Type 0
IsOrdinary l = (is_final_response_success l ≡ false) × (is_final_response_error l ≡ false)

-- the channel behind lines that were kept and lines that were passed
abbrev pub sorted : Channel → Response → List Bytes × List Bytes → Channel
sorted c r (kept, passed) = record c {
  response = some (record r { intermediates = reverse_onto r.intermediates kept });
  unsolicited = c.unsolicited ++ map (λ l. (l, none)) passed;
}

process_pending-ordinary :
    (c : Channel) (r : Response) (l : Bytes)
    → IsOrdinary l
    → process_pending l r c ≡ prompt_or_type c.sms_pdu l r c
unfolding process_pending
process_pending-ordinary c r l o = rw (o.0, o.1)

by_type-wants :
    (type : CommandType) (c : Channel) (r : Response) (p l : Bytes)
    → HasPrefix type c.response_prefix p
    → by_type type l r c ≡ some (take_or_pass l r c (wants type p (not (is_nil r.intermediates)) l))
unfolding by_type take_or_pass has_prefix
by_type-wants no_result c r p l e = refl
by_type-wants numeric c r p l e = ground arith
by_type-wants singleline c r p l e = elim (Bool-cases (is_nil r.intermediates)) [
  | inl first ↦ rw first (prefix e)
  | inr later ↦ rw later
]
  where
    prefix :
        c.response_prefix ≡ some p
        → Option.map (take_or_pass l r c) (has_prefix l c.response_prefix)
          ≡ some (take_or_pass l r c (str_starts_with l p))
    prefix e = ap (λ o. Option.map (take_or_pass l r c) (has_prefix l o)) e
by_type-wants multiline c r p l e = ap (λ o. Option.map (take_or_pass l r c) (has_prefix l o)) e

-- One ordinary line, of a command that sends no PDU.
process_line-ordinary :
    (c : Channel) (r : Response) (p l : Bytes)
    → c.sms_pdu ≡ none
    → c.response ≡ some r
    → HasPrefix c.type c.response_prefix p
    → IsOrdinary l
    → process_line l c ≡ some (take_or_pass l r c (wants c.type p (not (is_nil r.intermediates)) l))
unfolding process_line process_line_for prompt_or_type
process_line-ordinary c r p l pdu e prefix o =
    ap (λ o. process_line_for o l c) e
    ∙ process_pending-ordinary c r l o
    ∙ ap (λ m. prompt_or_type m l r c) pdu
    ∙ by_type-wants c.type c r p l prefix

-- The lines in a row, as the reader thread hands them to `processLine`.
unfoldable pub process_lines : List Bytes → Channel → Option Channel
process_lines [] c = some c
process_lines (l ∷ ls) c = Option.bind (process_line l c) (process_lines ls)

or_true : (b : Bool) → (b || true) ≡ true
or_true true = refl
or_true false = refl

or_false : (b : Bool) → (b || false) ≡ b
or_false true = refl
or_false false = refl

handle_unsolicited-lem :
    (l : Bytes) (c : Channel)
    → c.has_handler ≡ true
    → handle_unsolicited l c ≡ record c { unsolicited = c.unsolicited ++ (l, none) ∷ [] }
unfolding handle_unsolicited call_handler
handle_unsolicited-lem l c h =
    ap (λ b. if b then record c { unsolicited = c.unsolicited ++ (l, none) ∷ [] } else c) h

-- what is to be shown of the lines that follow
abbrev pub Sorts : Bytes → List Bytes → Type 0
Sorts p ls =
    (c : Channel) (r : Response)
    → c.has_handler ≡ true
    → c.sms_pdu ≡ none
    → c.response ≡ some r
    → HasPrefix c.type c.response_prefix p
    → process_lines ls c ≡ some (sorted c r (sort c.type p (not (is_nil r.intermediates)) ls))

module _ (p l : Bytes) (ls : List Bytes) (ih : Sorts p ls) (c : Channel) (r : Response)
    (h : c.has_handler ≡ true) (pdu : c.sms_pdu ≡ none) (e : c.response ≡ some r)
    (prefix : HasPrefix c.type c.response_prefix p) where
  regroup :
      (x : List Bytes × List Bytes)
      → ◌≡◌ {A = Option Channel}
          (some (sorted (record c { unsolicited = c.unsolicited ++ (l, none) ∷ [] }) r x))
          (some (sorted c r (keep false l x)))
  regroup x =
      ap
        (λ u. some (record c {
          response = some (record r { intermediates = reverse_onto r.intermediates x.0 });
          unsolicited = u;
        }))
        (append_assoc c.unsolicited ((l, none) ∷ []) (map (λ m. (m, none)) x.1))

  sorted-step :
      (w : Bool)
      → process_lines ls (take_or_pass l r c w)
        ≡ some (sorted c r (keep w l (sort c.type p (not (is_nil r.intermediates) || w) ls)))
  unfolding take_or_pass add_intermediate reverse_onto
  sorted-step true =
      ih (add_intermediate l r c) (record r { intermediates = l ∷ r.intermediates }) h pdu refl
        prefix
      ∙ ap (λ b. some (sorted c r (keep true l (sort c.type p b ls))))
          (sym (or_true (not (is_nil r.intermediates))))
  sorted-step false =
      ap (process_lines ls) (handle_unsolicited-lem l c h)
      ∙ ih (record c { unsolicited = c.unsolicited ++ (l, none) ∷ [] }) r h pdu e prefix
      ∙ regroup (sort c.type p (not (is_nil r.intermediates)) ls)
      ∙ ap (λ b. some (sorted c r (keep false l (sort c.type p b ls))))
          (sym (or_false (not (is_nil r.intermediates))))

-- Ordinary lines, one after another: each is kept or passed to the handler, as the command's type
-- says, none is lost, and nothing else changes.
pub process_lines-sorted : (p : Bytes) (ls : List Bytes) → All IsOrdinary ls → Sorts p ls
unfolding process_lines sort reverse_onto Option.bind
process_lines-sorted p [] o c r h pdu e prefix =
    ap₂ (λ x u. some (record c { response = x; unsolicited = u })) e
      (sym (append-nil c.unsolicited))
process_lines-sorted p (l ∷ ls) (o, os) c r h pdu e prefix =
    ap (λ x. Option.bind x (process_lines ls)) (process_line-ordinary c r p l pdu e prefix o)
    ∙ sorted-step p l ls (process_lines-sorted p ls os) c r h pdu e prefix
        (wants c.type p (not (is_nil r.intermediates)) l)
