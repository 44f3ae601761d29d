-- ===== src/AtTok/Fields.antt =====
-- The tokenizer against a description of what a response line may hold: fields between commas,
-- each plain or in double quotes, with white space in front.
use mathlib.Core.List.{append_assoc}
use platform_hardware_ril.Base.{
  ℕ, zero, suc, ◌≤◌, ◌≡◌, ◌≢◌, refl, ◌∙◌, true, false, Option, none, some, List, [], ◌∷◌, ◌++◌, map,
  Bytes, All, arith, length, ◌==◌, if◌then◌else◌,
}
use platform_hardware_ril.Libc.{is_space, strsep}
use platform_hardware_ril.AtTok.{
  Cursor, skip_white, skip_comma, next_tok, at_tok_nextstr, at_tok_hasmore,
}

-- A plain field is its text. A quoted one has its text between quotes, and bytes behind the
-- closing quote that are passed over.
pub data Field : Type 0 where
  plain : Bytes → Bytes → Field
  quoted : Bytes → Bytes → Bytes → Field

-- the text of a field, which `nextTok` returns
abbrev pub content : Field → Bytes
content (plain pad t) = t
content (quoted pad t junk) = t

abbrev pub render : Field → Bytes
render (plain pad t) = pad ++ t
render (quoted pad t junk) = pad ++ (b'"' ∷ (t ++ (b'"' ∷ junk)))

abbrev pub IsBlank : Bytes → Type 0
IsBlank = All (λ c. is_space c ≡ true)

abbrev pub Lacks : ℕ → Bytes → Type 0
Lacks d = All (λ c. (c == d) ≡ false)

-- The first byte is neither white space nor a quote.
abbrev pub StartsPlain : Bytes → Type 0
StartsPlain [] = Unit
StartsPlain (c ∷ cs) = (is_space c ≡ false) × ((c == b'"') ≡ false)

abbrev pub IsField : Field → Type 0
IsField (plain pad t) = IsBlank pad × Lacks b',' t × StartsPlain t
IsField (quoted pad t junk) = IsBlank pad × Lacks b'"' t × Lacks b',' junk

pub skip_white-pad : (pad rest : Bytes) → IsBlank pad → skip_white (pad ++ rest) ≡ skip_white rest
unfolding skip_white
skip_white-pad [] rest h = refl
skip_white-pad (c ∷ cs) rest h = ground (arith, skip_white-pad cs rest)

pub strsep-found :
    (d : ℕ) (t rest : Bytes) → Lacks d t → strsep d (t ++ (d ∷ rest)) ≡ (t, some rest)
unfolding strsep
strsep-found d [] rest h = ground arith
strsep-found d (c ∷ cs) rest h = ground (arith, strsep-found d cs rest)

pub strsep-end : (d : ℕ) (t : Bytes) → Lacks d t → strsep d t ≡ (t, none)
unfolding strsep
strsep-end d [] h = refl
strsep-end d (c ∷ cs) h = ground (arith, strsep-end d cs)

skip_comma-found : (junk rest : Bytes) → Lacks b',' junk → skip_comma (junk ++ (b',' ∷ rest)) ≡ rest
unfolding skip_comma
skip_comma-found [] rest h = refl
skip_comma-found (c ∷ cs) rest h = ground (arith, skip_comma-found cs rest)

skip_comma-end : (junk : Bytes) → Lacks b',' junk → skip_comma junk ≡ []
unfolding skip_comma
skip_comma-end [] h = refl
skip_comma-end (c ∷ cs) h = ground (arith, skip_comma-end cs)

pub skip_white-comma : (rest : Bytes) → skip_white (b',' ∷ rest) ≡ b',' ∷ rest
unfolding skip_white
skip_white-comma rest = refl

next_tok-plain :
    (t rest : Bytes)
    → Lacks b',' t
    → StartsPlain t
    → next_tok (some (t ++ (b',' ∷ rest))) ≡ (some t, some rest)
unfolding next_tok
next_tok-plain [] rest l s = refl
next_tok-plain (c ∷ cs) rest l s = ground (arith, strsep-found b',' (c ∷ cs) rest)

next_tok-plain_end : (t : Bytes) → Lacks b',' t → StartsPlain t → next_tok (some t) ≡ (some t, none)
unfolding next_tok
next_tok-plain_end [] l s = refl
next_tok-plain_end (c ∷ cs) l s = ground (arith, strsep-end b',' (c ∷ cs))

next_tok-pad :
    (pad rest : Bytes) → IsBlank pad → next_tok (some (pad ++ rest)) ≡ next_tok (some rest)
unfolding next_tok
next_tok-pad pad rest h = rw (skip_white-pad pad rest h)

-- `nextTok` on a field with more of the line behind it, and on the last field. Behind a closing
-- quote at the end the cursor is the empty text; behind a plain field it is NULL.
pub next_tok-field :
    (f : Field) (rest : Bytes)
    → IsField f
    → next_tok (some (render f ++ (b',' ∷ rest))) ≡ (some (content f), some rest)
next_tok-field (plain pad t) rest (p, l, s) =
    rw (append_assoc, next_tok-pad pad (t ++ (b',' ∷ rest)) p) (next_tok-plain t rest l s)
next_tok-field (quoted pad t junk) rest (p, l, j) =
    rw (append_assoc, next_tok-pad pad _ p, append_assoc)
      (unfold next_tok in
        ground (arith, strsep-found b'"' t (junk ++ (b',' ∷ rest)) l, skip_comma-found junk rest j))

abbrev pub end_cursor : Field → Cursor
end_cursor (plain pad t) = none
end_cursor (quoted pad t junk) = some []

pub next_tok-last :
    (f : Field) → IsField f → next_tok (some (render f)) ≡ (some (content f), end_cursor f)
next_tok-last (plain pad t) (p, l, s) = rw (next_tok-pad pad t p) (next_tok-plain_end t l s)
next_tok-last (quoted pad t junk) (p, l, j) =
    rw (next_tok-pad pad _ p)
      (unfold next_tok in ground (arith, strsep-found b'"' t junk l, skip_comma-end junk j))

-- Fields joined by commas.
abbrev pub line : List Field → Bytes
line [] = []
line (f ∷ []) = render f
line (f ∷ g ∷ fs) = render f ++ (b',' ∷ line (g ∷ fs))

-- Every field is well formed, and the last one is not the empty text, which the tokenizer's
-- clients cannot tell from the end of the line.
abbrev pub IsLine : List Field → Type 0
IsLine [] = Unit
IsLine (f ∷ []) = IsField f × (render f ≢ [])
IsLine (f ∷ g ∷ fs) = IsField f × IsLine (g ∷ fs)

-- `while (at_tok_hasmore(&p)) at_tok_nextstr(&p, &s);` for at most so many rounds, as clients
-- collect the rest of a line
unfoldable pub read_rest : ℕ → Cursor → List (Option Bytes)
unfolding at_tok_hasmore
read_rest zero cur = []
read_rest (suc fuel) cur =
    let (status, token, cur') = at_tok_nextstr cur in
    let more = token ∷ read_rest fuel cur' in if at_tok_hasmore cur then more else []

append-cons-ne-nil : (s : Bytes) (c : ℕ) (t : Bytes) → s ++ (c ∷ t) ≢ []
append-cons-ne-nil [] c t e = cc
append-cons-ne-nil (x ∷ s) c t e = cc

line-ne-nil : (f : Field) (fs : List Field) → IsLine (f ∷ fs) → line (f ∷ fs) ≢ []
line-ne-nil f [] h e = h.1 e
line-ne-nil f (g ∷ fs) h e = append-cons-ne-nil (render f) b',' (line (g ∷ fs)) e

hasmore-ne-nil : (s : Bytes) → s ≢ [] → at_tok_hasmore (some s) ≡ true
unfolding at_tok_hasmore
hasmore-ne-nil [] h = absurd (h refl)
hasmore-ne-nil (c ∷ cs) h = refl

read_rest-end : (fuel : ℕ) (f : Field) → read_rest fuel (end_cursor f) ≡ []
unfolding read_rest
read_rest-end zero f = refl
read_rest-end (suc fuel) (plain pad t) = refl
read_rest-end (suc fuel) (quoted pad t junk) = refl

read_rest-step :
    (fuel : ℕ) (s token : Bytes) {cur : Cursor}
    → s ≢ []
    → next_tok (some s) ≡ (some token, cur)
    → read_rest (suc fuel) (some s) ≡ some token ∷ read_rest fuel cur
unfolding read_rest at_tok_nextstr
read_rest-step fuel s token h e = ground (arith, hasmore-ne-nil s h)

-- Reading tokens while there are more gives back the fields of a well-formed line, in order, as
-- soon as the rounds allowed are no fewer than the fields.
pub read_rest-line :
    (fuel : ℕ) (fs : List Field)
    → IsLine fs
    → length fs ≤ fuel
    → read_rest fuel (some (line fs)) ≡ map (λ f. some (content f)) fs
read_rest-line fuel [] h le = read_rest-end fuel (quoted [] [] [])
read_rest-line zero (f ∷ fs) h le = absurd (omega arith)
read_rest-line (suc fuel) (f ∷ []) h le =
    read_rest-step fuel (render f) (content f) h.1 (next_tok-last f h.0) ∙ rw read_rest-end
read_rest-line (suc fuel) (f ∷ g ∷ fs) h le =
    read_rest-step fuel (line (f ∷ g ∷ fs)) (content f) (line-ne-nil f (g ∷ fs) h)
      (next_tok-field f (line (g ∷ fs)) h.0)
    ∙ rw (read_rest-line fuel (g ∷ fs) h.1 (omega arith))
