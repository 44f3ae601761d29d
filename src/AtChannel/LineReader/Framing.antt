-- ===== src/AtChannel/LineReader/Framing.antt =====
-- `readline` cuts the incoming text into lines, however the reads cut it into pieces.
use mathlib.Core.List.{append-nil, append_assoc}
use platform_hardware_ril.Base.{
  ℕ, suc, ◌+◌, ◌-◌, ◌≤◌, ◌<◌, ◌≡◌, ◌⊎◌, inl, inr, refl, sym, ap, subst, ◌∙◌, true, none, some, [],
  ◌∷◌, ◌++◌, Bytes, arith, length, length-append, drop,
}
use platform_hardware_ril.AtChannel.LineReader.{
  on_eol, on_input, LineBuffer, got, interrupted, Inputs, Line, a_line, is_eol, find_next_eol,
  finish_line, skip_leading, store_read, make_room, read_until_eol,
}
use platform_hardware_ril.AtChannel.LineReader.Text.{
  All-append, IsText, Newlines, OneLine, StartsLine, All-append-left, All-append-right, two_cuts,
  Holds, store-Holds, NoLeading, skip_leading-Holds, find_next_eol-found, find_next_eol-none,
  finish_line-Holds,
}

-- The reads to come deliver the text `q`: each stores some of the next bytes, at least one and no
-- more than it is asked for, or fails with EINTR; and there are enough of them.
abbrev pub Feeds : Bytes → Inputs → Type 0
Feeds [] inputs = Unit
Feeds (c ∷ q) [] = ⊥
Feeds (c ∷ q) (read ∷ inputs) =
    (n : ℕ)
    → 0 < n
    → ((read n ≡ interrupted) × Feeds (c ∷ q) inputs)
      ⊎ ((x : ℕ) × (bytes : Bytes) × (rest : Bytes) × (read n ≡ got (x ∷ bytes))
          × (c ∷ q ≡ (x ∷ bytes) ++ rest)
          × (suc (length bytes) ≤ n)
          × Feeds rest inputs)

-- What is left behind a line: text in the buffer and reads that together make up `more`.
pub record Kept (max : ℕ) (more : Bytes) (b : LineBuffer) (inputs : Inputs) : Type 0 where
  pub p : ℕ
  pub text : Bytes
  pub junk : Bytes
  pub to_come : Bytes
  pub holds : Holds max b p text junk
  pub in_bounds : p ≤ max
  pub joined : text ++ to_come ≡ more
  pub feeds : Feeds to_come inputs

abbrev pub Returns : ℕ → Bytes → Bytes → Line × LineBuffer × Inputs → Type 0
Returns max l more (line, b, inputs) = (line ≡ a_line l) × Kept max more b inputs

-- A line `l` behind newlines, with its terminator and what follows.
pub record IsLine (nl l : Bytes) (c : ℕ) : Type 0 where
  pub newlines : Newlines nl
  pub starts : StartsLine l
  pub one_line : OneLine l
  pub no_zero : IsText l
  pub ends : is_eol c ≡ true

IsLine-Newlines :
    {nl l : Bytes} {c : ℕ} (nl2 : Bytes) → IsLine nl l c → Newlines nl2 → IsLine nl2 l c
IsLine-Newlines nl2 h n = record {
  newlines = n;
  starts = h.starts;
  one_line = h.one_line;
  no_zero = h.no_zero;
  ends = h.ends;
}

-- How far the text `z` reaches into the newlines, the line and the rest.
pub data Reach (z q nl l : Bytes) (c : ℕ) (more : Bytes) : Type 0 where
  whole : (z' : Bytes) → z ≡ nl ++ (l ++ (c ∷ z')) → z' ++ q ≡ more → Reach z q nl l c more
  in_line :
      (l1 l2 : Bytes) → z ≡ nl ++ l1 → l ≡ l1 ++ l2 → q ≡ l2 ++ (c ∷ more) → Reach z q nl l c more
  in_newlines : (nl2 : Bytes) → nl ≡ z ++ nl2 → q ≡ nl2 ++ (l ++ (c ∷ more)) → Reach z q nl l c more

Reach-line :
    (e q nl l : Bytes) (c : ℕ) (more z : Bytes)
    → z ≡ nl ++ e
    → e ++ q ≡ l ++ (c ∷ more)
    → Reach z q nl l c more
Reach-line e q nl l c more z ze h = elim (two_cuts e q l (c ∷ more) h) [
  | inr (x, e', p, r) ↦ in_line e (x ∷ e') ze p r
  | inl ([], p, r) ↦ in_line e [] ze (sym (append-nil l) ∙ sym p ∙ sym (append-nil e)) r
  | inl ((y ∷ z'), p, r) ↦ whole z' (cc) (cc)
]

pub Reach-lem :
    (z q nl l : Bytes) (c : ℕ) (more : Bytes)
    → z ++ q ≡ nl ++ (l ++ (c ∷ more))
    → Reach z q nl l c more
Reach-lem z q nl l c more h = elim (two_cuts z q nl (l ++ (c ∷ more)) h) [
  | inl (e, p, r) ↦ Reach-line e q nl l c more z p r
  | inr (x, e, p, r) ↦ in_newlines (x ∷ e) p r
]

NoLeading-prefix : (l1 l2 : Bytes) → OneLine (l1 ++ l2) → NoLeading l1
NoLeading-prefix [] l2 h = tt
NoLeading-prefix (x ∷ l1) l2 h = h.0

NoLeading-line : (l rest : Bytes) → StartsLine l → OneLine l → NoLeading (l ++ rest)
NoLeading-line [] rest s o = absurd s
NoLeading-line (x ∷ l) rest s o = o.0

StartsLine-prefix : (l1 l2 : Bytes) → StartsLine (l1 ++ l2) → (l1 ≡ []) ⊎ StartsLine l1
StartsLine-prefix [] l2 h = inl refl
StartsLine-prefix (x ∷ l1) l2 h = inr h

-- The text in the buffer and the text to come are newlines, a line and the rest, and the line has
-- not wholly come. `limit` bounds what the buffer must hold before the line is whole.
pub record Waiting (max limit : ℕ) (l : Bytes) (c : ℕ) (more q : Bytes) (b : LineBuffer) (p : ℕ)
    : Type 0 where
  pub nl : Bytes
  pub text : Bytes
  pub junk : Bytes
  pub holds : Holds max b p text junk
  pub text_only : IsText text
  pub is_line : IsLine nl l c
  pub joined : text ++ q ≡ nl ++ (l ++ (c ∷ more))
  pub not_whole : length text ≤ length nl + length l
  pub fits : b.cur + length nl + length l ≤ limit

-- what the scan behind `skip_leading` finds
abbrev pub Scanned : ℕ → ℕ → Bytes → ℕ → Bytes → Bytes → LineBuffer → ℕ → Type 0
Scanned max limit l c more q b p =
    ((find_next_eol (drop b.cur b.buffer) ≡ some (length l))
      × ((inputs : Inputs)
          → Feeds q inputs
          → Returns max l more
              ((finish_line b (length l)).0, (finish_line b (length l)).1, inputs)))
    ⊎ ((find_next_eol (drop b.cur b.buffer) ≡ none) × Waiting max limit l c more q b p)

module _ {max : ℕ} {b : LineBuffer} {p : ℕ} {z junk : Bytes} (limit : ℕ) (q nl l : Bytes) (c : ℕ)
    (more : Bytes) (holds : Holds max b p z junk) (in_bounds : p ≤ max) (text_only : IsText z)
    (is_line : IsLine nl l c) (joined : z ++ q ≡ nl ++ (l ++ (c ∷ more)))
    (fits : b.cur + length nl + length l ≤ limit) where
  scan-whole :
      (z' : Bytes)
      → z ≡ nl ++ (l ++ (c ∷ z'))
      → z' ++ q ≡ more
      → Scanned max limit l c more q (skip_leading b) p
  scan-whole z' e r = inl (
    rw held.text (
        rw append_assoc (
          find_next_eol-found l c (z' ++ (0 ∷ junk)) is_line.starts is_line.one_line is_line.no_zero
            is_line.ends)),
    λ inputs feeds.
        let (same, after) = finish_line-Holds l c z' held in_bounds in
        (
          same,
          record {
            p = p;
            text = z';
            junk = junk;
            to_come = q;
            holds = after;
            in_bounds = in_bounds;
            joined = r;
            feeds = feeds;
          },
        ),
  )
    where
      held : Holds max (skip_leading b) p (l ++ (c ∷ z')) junk
      held =
          skip_leading-Holds nl (l ++ (c ∷ z')) (rw e at holds) is_line.newlines
            (NoLeading-line l (c ∷ z') is_line.starts is_line.one_line)

  scan-part :
      (nl1 nl2 l1 : Bytes)
      → z ≡ nl1 ++ l1
      → Newlines nl1
      → NoLeading l1
      → (l1 ≡ []) ⊎ StartsLine l1
      → OneLine l1
      → IsLine nl2 l c
      → l1 ++ q ≡ nl2 ++ (l ++ (c ∷ more))
      → length l1 ≤ length nl2 + length l
      → length nl1 + length nl2 ≤ length nl
      → Scanned max limit l c more q (skip_leading b) p
  scan-part nl1 nl2 l1 e n nol s o line' j le len = inr (
    rw held.text (find_next_eol-none l1 junk s o text'),
    record {
      nl = nl2;
      text = l1;
      junk = junk;
      holds = held;
      text_only = text';
      is_line = line';
      joined = j;
      not_whole = le;
      fits = omega (
        arith,
        held.end_of_text,
        holds.end_of_text,
        ap (λ (t : Bytes). length t) e,
        length-append nl1 l1,
        fits,
      );
    },
  )
    where
      held : Holds max (skip_leading b) p l1 junk
      held = skip_leading-Holds nl1 l1 (rw e at holds) n nol

      text' : IsText l1
      text' = All-append-right _ nl1 l1 (rw e at text_only)

  pub scan : Reach z q nl l c more → Scanned max limit l c more q (skip_leading b) p
  scan (whole z' e r) = scan-whole z' e r
  scan (in_line l1 l2 e r s) =
      scan-part nl [] l1 e is_line.newlines (NoLeading-prefix l1 l2 one)
        (StartsLine-prefix l1 l2 starts) (All-append-left _ l1 l2 one)
        (IsLine-Newlines [] is_line tt)
        (ap (◌++◌ l1) s
          ∙ sym (append_assoc l1 l2 (c ∷ more))
          ∙ ap (λ (t : Bytes). t ++ (c ∷ more)) (sym r))
        (omega (arith, ap (λ (t : Bytes). length t) r, length-append l1 l2)) (omega arith)
    where
      one : OneLine (l1 ++ l2)
      one = rw r at is_line.one_line

      starts : StartsLine (l1 ++ l2)
      starts = rw r at is_line.starts
  scan (in_newlines nl2 e r) =
      scan-part z nl2 [] (sym (append-nil z)) (All-append-left _ z nl2 newlines) tt (inl refl) tt
        (IsLine-Newlines nl2 is_line (All-append-right _ z nl2 newlines)) r (omega arith)
        (omega (arith, ap (λ (t : Bytes). length t) e, length-append z nl2))
    where
      newlines : Newlines (z ++ nl2)
      newlines = rw e at is_line.newlines

q-ne-nil :
    {max limit : ℕ} {l : Bytes} {c : ℕ} {more : Bytes} {b : LineBuffer} {p : ℕ}
    → ¬ Waiting max limit l c more [] b p
q-ne-nil {l = l} {c} {more} w = omega (
  arith,
  ap (λ (t : Bytes). length t) w.joined,
  length-append w.text [],
  length-append w.nl (l ++ (c ∷ more)),
  length-append l (c ∷ more),
  w.not_whole,
)

module _ {max limit : ℕ} (l : Bytes) (c : ℕ) (more : Bytes) (room : limit < max) where
  Waiting-bound : {q : Bytes} {b : LineBuffer} {p : ℕ} → Waiting max limit l c more q b p → p < max
  Waiting-bound w = omega (arith, w.holds.end_of_text, w.not_whole, w.fits)

  make_room-lem : (b : LineBuffer) (p : ℕ) → p < max → make_room max b p ≡ (b, p)
  unfolding make_room
  make_room-lem b p h = ground arith

  -- one read, in a buffer that waits for the rest of the line
  store-Scanned :
      {q' : Bytes} {b : LineBuffer} {p : ℕ} (bytes q : Bytes)
      → Waiting max limit l c more q' b p
      → q' ≡ bytes ++ q
      → IsText q'
      → length bytes ≤ max - p
      → Scanned max limit l c more q (store_read p bytes b) (p + length bytes)
  unfolding store_read
  store-Scanned {q'} {b} {p} bytes q w e t asked =
      scan limit q w.nl l c more (store-Holds bytes w.holds fits) fits
        (All-append _ w.text bytes w.text_only (All-append-left _ bytes q (rw e at t))) w.is_line
        joined w.fits (Reach-lem (w.text ++ bytes) q w.nl l c more joined)
    where
      fits : p + length bytes ≤ max
      fits = omega (arith, Waiting-bound w, asked)

      joined : (w.text ++ bytes) ++ q ≡ w.nl ++ (l ++ (c ∷ more))
      joined = append_assoc w.text bytes q ∙ ap (◌++◌ w.text) (sym e) ∙ w.joined

  pub read_until_eol-Returns :
      (inputs : Inputs) (q : Bytes) (b : LineBuffer) (p : ℕ)
      → Waiting max limit l c more q b p
      → IsText q
      → Feeds q inputs
      → Returns max l more (read_until_eol max inputs b p)
  unfolding read_until_eol on_input on_eol
  read_until_eol-Returns inputs [] b p w t f = absurd (q-ne-nil w)
  read_until_eol-Returns [] (x ∷ q) b p w t f = absurd f
  read_until_eol-Returns (read ∷ inputs) (x ∷ q) b p w t f =
      rw (make_room-lem b p (Waiting-bound w))
        (elim (f (max - p) (omega (arith, Waiting-bound w))) [
          | inl (e, f') ↦ rw e (read_until_eol-Returns inputs (x ∷ q) b p w t f')
          | inr (y, bytes, rest, e, split, asked, f') ↦
              rw e (elim (store-Scanned (y ∷ bytes) rest w split t asked) [
                | inl (found, done) ↦ rw found (done inputs f')
                | inr (more_to_come, w') ↦ rw more_to_come (
                    read_until_eol-Returns inputs rest _ (p + suc (length bytes)) w'
                      (All-append-right _ (y ∷ bytes) rest (subst IsText split t)) f')
              ])
        ])
