-- ===== src/AtChannel/LineReader/Text.antt =====
-- What the scanning loops of `readline` find in text whose shape is known, and what the buffer holds
-- behind each store.
use mathlib.Core.List.{append_assoc}
use platform_hardware_ril.Base.{
  ℕ, suc, ◌+◌, ◌-◌, ◌≤◌, ◌≡◌, ◌⊎◌, inl, inr, refl, sym, ap, ◌∙◌, true, false, none, some, [], ◌∷◌,
  ◌++◌, Bytes, All, arith, ◌==◌, length, length-append, take, drop,
}
use platform_hardware_ril.Memory.{
  drop-write_at_past, drop-drop, slice, write_at, drop-write_at, length-write_at, drop-append_past,
  take-append, take-length,
}
use platform_hardware_ril.AtChannel.LineReader.{
  a_line, LineBuffer, is_eol, count_newlines, find_newline, is_prompt, find_next_eol, strlen,
  finish_line, skip_leading,
}

abbrev pub IsText : Bytes → Type 0
IsText = All (λ c. (c == 0) ≡ false)

abbrev pub Newlines : Bytes → Type 0
Newlines = All (λ c. is_eol c ≡ true)

abbrev pub OneLine : Bytes → Type 0
OneLine = All (λ c. is_eol c ≡ false)

-- the start of a line: a byte that is no newline and no '>'
abbrev pub StartsLine : Bytes → Type 0
StartsLine [] = ⊥
StartsLine (c ∷ cs) = (c == b'>') ≡ false

module _ (P : ℕ → Type 0) where
  pub All-append-left : (xs ys : Bytes) → All P (xs ++ ys) → All P xs
  All-append-left [] ys h = tt
  All-append-left (x ∷ xs) ys (h, t) = (h, All-append-left xs ys t)

  pub All-append-right : (xs ys : Bytes) → All P (xs ++ ys) → All P ys
  All-append-right [] ys h = h
  All-append-right (x ∷ xs) ys (h, t) = All-append-right xs ys t

  pub All-append : (xs ys : Bytes) → All P xs → All P ys → All P (xs ++ ys)
  All-append [] ys h k = k
  All-append (x ∷ xs) ys (h, t) k = (h, All-append xs ys t k)

-- One text cut in two places: the first cut stands behind the second, or before it.
pub two_cuts :
    (a b c d : Bytes)
    → a ++ b ≡ c ++ d
    → ((e : Bytes) × (a ≡ c ++ e) × (e ++ b ≡ d))
      ⊎ ((x : ℕ) × (e : Bytes) × (c ≡ a ++ (x ∷ e)) × (b ≡ (x ∷ e) ++ d))
two_cuts a b [] d h = inl (a, refl, h)
two_cuts [] b (x ∷ c) d h = inr (x, c, refl, h)
two_cuts (y ∷ a) b (x ∷ c) d h = elim (two_cuts a b c d (cc h)) [
  | inl (e, p, q) ↦ inl (e, cc (h, p), q)
  | inr (z, e, p, q) ↦ inr (z, e, cc (h, p), q)
]

pub count_newlines-lem :
    (nl : Bytes) (c : ℕ) (rest : Bytes)
    → Newlines nl
    → is_eol c ≡ false
    → count_newlines (nl ++ (c ∷ rest)) ≡ length nl
unfolding count_newlines
count_newlines-lem [] c rest h e = ground arith
count_newlines-lem (n ∷ nl) c rest h e = ground (arith, count_newlines-lem nl c rest h.1 e)

pub find_newline-found :
    (l : Bytes) (c : ℕ) (rest : Bytes)
    → OneLine l
    → IsText l
    → is_eol c ≡ true
    → find_newline (l ++ (c ∷ rest)) ≡ some (length l)
unfolding find_newline
find_newline-found [] c rest h t e = ground arith
find_newline-found (x ∷ l) c rest h t e = rw (t.0, h.0, find_newline-found l c rest h.1 t.1 e)

pub find_newline-none :
    (l rest : Bytes) → OneLine l → IsText l → find_newline (l ++ (0 ∷ rest)) ≡ none
unfolding find_newline
find_newline-none [] rest h t = refl
find_newline-none (x ∷ l) rest h t = rw (t.0, h.0, find_newline-none l rest h.1 t.1)

pub strlen-text : (t rest : Bytes) → IsText t → strlen (t ++ (0 ∷ rest)) ≡ length t
unfolding strlen
strlen-text [] rest h = refl
strlen-text (c ∷ t) rest h = rw (h.0, strlen-text t rest h.1)

pub is_prompt-other : (c : ℕ) (rest : Bytes) → (c == b'>') ≡ false → is_prompt (c ∷ rest) ≡ false
unfolding is_prompt
is_prompt-other c [] h = refl
is_prompt-other c (a ∷ []) h = refl
is_prompt-other c (a ∷ b ∷ rest) h = rw h

-- The buffer holds the text `x` at `s_ATBufferCur`, and `p` is where its terminator stands.
pub record Holds (max : ℕ) (b : LineBuffer) (p : ℕ) (x junk : Bytes) : Type 0 where
  pub text : drop b.cur b.buffer ≡ x ++ (0 ∷ junk)
  pub end_of_text : p ≡ b.cur + length x
  pub size : length b.buffer ≡ max + 1

pub slice-text :
    (buf x junk : Bytes) (cur p : ℕ)
    → drop cur buf ≡ x ++ (0 ∷ junk)
    → p ≡ cur + length x
    → slice buf cur p ≡ x
slice-text buf x junk cur p e q =
    ap (take (p - cur)) e
    ∙ ap (λ n. take n (x ++ (0 ∷ junk))) (omega arith)
    ∙ take-append x (0 ∷ junk) (length x) (omega arith)
    ∙ take-length x (length x) (omega arith)

-- what one read adds to the text
pub store-Holds :
    {max : ℕ} {b : LineBuffer} {p : ℕ} {x junk : Bytes} (bytes : Bytes)
    → Holds max b p x junk
    → p + length bytes ≤ max
    → Holds max
        (record b { buffer = write_at p (bytes ++ 0 ∷ []) b.buffer })
        (p + length bytes)
        (x ++ bytes)
        (drop (p + length (bytes ++ 0 ∷ [])) b.buffer)
store-Holds {b = b} {p} {x} {junk} bytes h fits = record {
  text =
      drop-write_at b.buffer (bytes ++ 0 ∷ []) b.cur p (omega (arith, h.end_of_text))
        (omega (arith, h.size))
      ∙ ap (λ (t : Bytes). t ++ ((bytes ++ (0 ∷ [])) ++ after))
          (slice-text b.buffer x junk b.cur p h.text h.end_of_text)
      ∙ ap (◌++◌ x) (append_assoc bytes (0 ∷ []) after)
      ∙ sym (append_assoc x bytes (0 ∷ after));
  end_of_text = omega (arith, h.end_of_text, length-append x bytes);
  size =
      length-write_at p (bytes ++ 0 ∷ []) b.buffer
        (omega (arith, h.size, length-append bytes (0 ∷ [])))
      ∙ h.size;
}
  where
    after : Bytes
    after = drop (p + length (bytes ++ 0 ∷ [])) b.buffer

plus_one_minus : (n : ℕ) → n + 1 - n ≡ 1
plus_one_minus n = omega arith

minus_self : (n : ℕ) → n - n ≡ 0
minus_self n = omega arith

-- the first byte, if there is one, is no newline
abbrev pub NoLeading : Bytes → Type 0
NoLeading [] = Unit
NoLeading (c ∷ cs) = is_eol c ≡ false

count_newlines-text :
    (nl y junk : Bytes)
    → Newlines nl
    → NoLeading y
    → count_newlines (nl ++ (y ++ (0 ∷ junk))) ≡ length nl
count_newlines-text nl [] junk n o = count_newlines-lem nl 0 junk n (unfold is_eol in refl)
count_newlines-text nl (c ∷ y) junk n o = count_newlines-lem nl c (y ++ (0 ∷ junk)) n o

-- the text that is left behind its leading newlines
pub skip_leading-Holds :
    {max : ℕ} {b : LineBuffer} {p : ℕ} {junk : Bytes} (nl y : Bytes)
    → Holds max b p (nl ++ y) junk
    → Newlines nl
    → NoLeading y
    → Holds max (skip_leading b) p y junk
unfolding skip_leading
skip_leading-Holds {b = b} {p} {junk} nl y h n o = rw counted (record {
  text =
      sym (drop-drop (length nl) b.cur b.buffer)
      ∙ ap (drop (length nl)) text
      ∙ drop-append_past nl (y ++ (0 ∷ junk)) (length nl) (omega arith)
      ∙ ap (λ k. drop k (y ++ (0 ∷ junk))) (minus_self (length nl));
  end_of_text = omega (arith, h.end_of_text, length-append nl y);
  size = h.size;
})
  where
    text : drop b.cur b.buffer ≡ nl ++ (y ++ (0 ∷ junk))
    text = h.text ∙ append_assoc nl y (0 ∷ junk)

    counted : count_newlines (drop b.cur b.buffer) ≡ length nl
    counted = rw text (count_newlines-text nl y junk n o)

-- a whole line at `s_ATBufferCur`, as `findNextEOL` finds it and `readline` takes it off
pub find_next_eol-found :
    (l : Bytes) (c : ℕ) (rest : Bytes)
    → StartsLine l
    → OneLine l
    → IsText l
    → is_eol c ≡ true
    → find_next_eol (l ++ (c ∷ rest)) ≡ some (length l)
unfolding find_next_eol
find_next_eol-found [] c rest s o t e = absurd s
find_next_eol-found (x ∷ l) c rest s o t e =
    rw (is_prompt-other x (l ++ (c ∷ rest)) s) (find_newline-found (x ∷ l) c rest o t e)

pub find_next_eol-none :
    (l rest : Bytes)
    → (l ≡ []) ⊎ StartsLine l
    → OneLine l
    → IsText l
    → find_next_eol (l ++ (0 ∷ rest)) ≡ none
unfolding find_next_eol
find_next_eol-none [] rest s o t = rw (is_prompt-other 0 rest refl) (find_newline-none [] rest o t)
find_next_eol-none (x ∷ l) rest (inl e) o t = cc
find_next_eol-none (x ∷ l) rest (inr s) o t =
    rw (is_prompt-other x (l ++ (0 ∷ rest)) s) (find_newline-none (x ∷ l) rest o t)

module _ {max : ℕ} {b : LineBuffer} {p : ℕ} {junk : Bytes} (l : Bytes) (c : ℕ) (rest : Bytes) where
  pub finish_line-Holds :
      Holds max b p (l ++ (c ∷ rest)) junk
      → p ≤ max
      → ((finish_line b (length l)).0 ≡ a_line l)
        × Holds max (finish_line b (length l)).1 p rest junk
  unfolding finish_line
  finish_line-Holds h fits = (
    ap a_line (
        ap (take (length l)) text'
        ∙ take-append l (c ∷ (rest ++ (0 ∷ junk))) (length l) (omega arith)
        ∙ take-length l (length l) (omega arith)),
    record {
      text =
          drop-write_at_past b.buffer (0 ∷ []) (b.cur + length l) (b.cur + length l + 1)
            (omega (arith, inside, h.size)) (omega arith)
          ∙ ap (λ k. drop k b.buffer) (omega arith)
          ∙ sym (drop-drop (length l + 1) b.cur b.buffer)
          ∙ ap (drop (length l + 1)) text'
          ∙ drop-append_past l (c ∷ (rest ++ (0 ∷ junk))) (length l + 1) (omega arith)
          ∙ ap (λ k. drop k (c ∷ (rest ++ (0 ∷ junk)))) (plus_one_minus (length l));
      end_of_text = omega (arith, inside);
      size =
          length-write_at (b.cur + length l) (0 ∷ []) b.buffer (omega (arith, inside, h.size))
          ∙ h.size;
    },
  )
    where
      text' : drop b.cur b.buffer ≡ l ++ (c ∷ (rest ++ (0 ∷ junk)))
      text' = h.text ∙ append_assoc l (c ∷ rest) (0 ∷ junk)

      inside : p ≡ b.cur + length l + suc (length rest)
      inside = omega (arith, h.end_of_text, length-append l (c ∷ rest))
