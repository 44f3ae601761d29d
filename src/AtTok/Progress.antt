-- ===== src/AtTok/Progress.antt =====
-- Where the tokenizer leaves its cursor: always further on in the same text.
use mathlib.Core.List.{append_assoc}
use platform_hardware_ril.Base.{
  ◌≢◌, ◌⊎◌, ℕ, suc, ◌+◌, ◌≤◌, ◌≡◌, refl, sym, ap, ◌∙◌, none, some, [], ◌∷◌, ◌++◌, Bytes, arith,
  length, length-append, ◌==◌, Bool-cases, inl, inr,
}
use platform_hardware_ril.Libc.{is_space, strchr, strsep}
use platform_hardware_ril.AtTok.{
  Cursor, success, failure, skip_white, skip_comma, skip_next_comma, next_tok, next_tok_at,
  at_tok_start,
}
use platform_hardware_ril.AtTok.Fields.{Lacks}

-- The cursor is NULL, or is what is left of `s` behind `used` bytes or more.
pub data Leaves (used : ℕ) (s : Bytes) : Cursor → Type 0 where
  gone : Leaves used s none
  left : (pre r : Bytes) → s ≡ pre ++ r → used ≤ length pre → Leaves used s (some r)

Leaves-cons :
    {used : ℕ} (c : ℕ) {s : Bytes} {cur : Cursor}
    → Leaves used s cur
    → Leaves (suc used) (c ∷ s) cur
Leaves-cons c gone = gone
Leaves-cons c (left pre r e le) = left (c ∷ pre) r (ap (◌∷◌ c) e) (omega arith)

Leaves-weaken : {m n : ℕ} {s : Bytes} {cur : Cursor} → n ≤ m → Leaves m s cur → Leaves n s cur
Leaves-weaken h gone = gone
Leaves-weaken h (left pre r e le) = left pre r e (omega arith)

-- Two stretches of the text in a row.
Leaves-trans :
    {m n : ℕ} {s t : Bytes} {cur : Cursor}
    → Leaves m s (some t)
    → Leaves n t cur
    → Leaves (m + n) s cur
Leaves-trans (left pre t e le) gone = gone
Leaves-trans (left pre t e le) (left pre' r e' le') =
    left (pre ++ pre') r (e ∙ ap (◌++◌ pre) e' ∙ sym (append_assoc pre pre' r))
      (omega (arith, length-append pre pre'))

strsep-Leaves : (d : ℕ) (s : Bytes) → Leaves 1 s (strsep d s).1
unfolding strsep
strsep-Leaves d [] = gone
strsep-Leaves d (c ∷ cs) = elim (Bool-cases (c == d)) [
  | inl e ↦ rw e (left (c ∷ []) cs refl (omega arith))
  | inr e ↦ rw e (Leaves-weaken (omega arith) (Leaves-cons c (strsep-Leaves d cs)))
]

skip_comma-Leaves : (s : Bytes) → Leaves 0 s (some (skip_comma s))
unfolding skip_comma
skip_comma-Leaves [] = left [] [] refl (omega arith)
skip_comma-Leaves (c ∷ cs) = elim (Bool-cases (c == b',')) [
  | inl e ↦ rw e (left (c ∷ []) cs refl (omega arith))
  | inr e ↦ rw e (Leaves-weaken (omega arith) (Leaves-cons c (skip_comma-Leaves cs)))
]

skip_white-Leaves : (s : Bytes) → Leaves 0 s (some (skip_white s))
unfolding skip_white
skip_white-Leaves [] = left [] [] refl (omega arith)
skip_white-Leaves (c ∷ cs) = elim (Bool-cases (is_space c)) [
  | inl e ↦ rw e (Leaves-weaken (omega arith) (Leaves-cons c (skip_white-Leaves cs)))
  | inr e ↦ rw e (left [] (c ∷ cs) refl (omega arith))
]

skip_next_comma-Leaves :
    {m : ℕ} {s : Bytes} {cur : Cursor} → Leaves m s cur → Leaves m s (skip_next_comma cur)
unfolding skip_next_comma
skip_next_comma-Leaves gone = gone
skip_next_comma-Leaves (left pre r e le) =
    Leaves-weaken (omega arith) (Leaves-trans (left pre r e le) (skip_comma-Leaves r))

next_tok_at-Leaves : (s : Bytes) → Leaves 1 s (next_tok_at s).1
unfolding next_tok_at
next_tok_at-Leaves [] = strsep-Leaves b',' []
next_tok_at-Leaves (c ∷ cs) = elim (Bool-cases (c == b'"')) [
  | inl e ↦
      rw e (
        skip_next_comma-Leaves
          (Leaves-weaken (omega arith) (Leaves-cons c (strsep-Leaves b'"' cs))))
  | inr e ↦ rw e (strsep-Leaves b',' (c ∷ cs))
]

-- `nextTok` at a text always finds a token. Its new cursor is NULL, or what is left of the same
-- text behind at least one byte: it never runs past the end, and every call makes progress.
pub next_tok-Leaves :
    (s : Bytes) → ((next_tok (some s)).0 ≢ none) × Leaves 1 s (next_tok (some s)).1
unfolding next_tok
next_tok-Leaves s = (cc, Leaves-trans (skip_white-Leaves s) (next_tok_at-Leaves (skip_white s)))

strchr-Lacks : (d : ℕ) (s : Bytes) → Lacks d s → strchr d s ≡ none
unfolding strchr
strchr-Lacks d [] h = refl
strchr-Lacks d (c ∷ cs) h = ground (arith, strchr-Lacks d cs)

strchr-found :
    (d : ℕ) (pre rest : Bytes) → Lacks d pre → strchr d (pre ++ (d ∷ rest)) ≡ some (d ∷ rest)
unfolding strchr
strchr-found d [] rest h = ground arith
strchr-found d (c ∷ cs) rest h = ground (arith, strchr-found d cs rest)

-- A text lacks the byte, or splits where it first occurs.
first_of_byte :
    (d : ℕ) (s : Bytes)
    → Lacks d s ⊎ ((pre : Bytes) × (rest : Bytes) × (s ≡ pre ++ (d ∷ rest)) × Lacks d pre)
first_of_byte d [] = inl tt
first_of_byte d (c ∷ cs) = elim (Bool-cases (c == d)) [
  | inl e ↦ inr ([], cs, ground arith, tt)
  | inr e ↦ elim (first_of_byte d cs) [
    | inl no_more ↦ inl (e, no_more)
    | inr (pre, rest, at, lacks) ↦ inr (c ∷ pre, rest, ap (◌∷◌ c) at, (e, lacks))
  ]
]

-- `at_tok_start` on a response: it fails, with the cursor NULL, exactly when the line has no colon,
-- and otherwise stands right behind the first one.
pub at_tok_start-split :
    (s : Bytes)
    → (Lacks b':' s × (at_tok_start (some s) ≡ (failure, none)))
      ⊎ ((pre : Bytes) × (rest : Bytes) × (s ≡ pre ++ (b':' ∷ rest))
          × Lacks b':' pre
          × (at_tok_start (some s) ≡ (success, some rest)))
unfolding at_tok_start
at_tok_start-split s = elim (first_of_byte b':' s) [
  | inl lacks ↦ inl (lacks, ground (arith, strchr-Lacks b':' s lacks))
  | inr (pre, rest, at, lacks) ↦
      inr (pre, rest, at, lacks, ground (arith, at, strchr-found b':' pre rest lacks))
]
