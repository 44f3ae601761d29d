-- ===== src/AtChannel/LineReader/Stream.antt =====
-- Calls of `readline` on a stream of lines.
use mathlib.Core.List.{append_assoc}
use platform_hardware_ril.Base.{
  length-replicate, replicate, ap₂, subst, ℕ, zero, suc, ◌+◌, ◌-◌, ◌≤◌, ◌<◌, ◌≡◌, inl, inr, refl,
  sym, ap, ◌∙◌, [], ◌∷◌, ◌++◌, Bytes, All, arith, length, length-append, take, drop, List, map,
}
use platform_hardware_ril.AtChannel.LineReader.{
  initial, readline_at, LineBuffer, Inputs, Line, a_line, on_eol, empty_buffer, strlen,
  skip_leading, read_until_eol, readline, readline_more, move_up,
}
use platform_hardware_ril.AtChannel.LineReader.Text.{
  IsText, All-append-left, All-append-right, Holds, strlen-text,
}
use platform_hardware_ril.AtChannel.LineReader.Framing.{
  Feeds, Kept, Returns, IsLine, Waiting, Reach-lem, scan, read_until_eol-Returns,
}
use platform_hardware_ril.Memory.{
  slice, write_at, drop-write_at, length-write_at, get_elem?-drop, take-append_past,
}

-- an empty buffer
empty_buffer-Holds :
    {max : ℕ} {b : LineBuffer} {p : ℕ} {x junk : Bytes}
    → Holds max b p x junk
    → Holds max (empty_buffer b) 0 [] (drop 1 b.buffer)
unfolding empty_buffer
empty_buffer-Holds {b = b} h = record {
  text = drop-write_at b.buffer (0 ∷ []) 0 0 (omega arith) (omega arith);
  end_of_text = refl;
  size = length-write_at 0 (0 ∷ []) b.buffer (omega (arith, h.size)) ∙ h.size;
}

one_more : (a n : ℕ) → a + (n + 1) - a - n ≡ 1
one_more a n = omega arith

-- a partial line at the start of the buffer
abbrev moved : LineBuffer → LineBuffer
moved b =
    let len = strlen (drop b.cur b.buffer) in
    record { buffer = write_at 0 (slice b.buffer b.cur (b.cur + (len + 1))) b.buffer; cur = 0 }

moved-Holds :
    {max : ℕ} {b : LineBuffer} {p : ℕ} {x junk : Bytes}
    → Holds max b p x junk
    → p ≤ max
    → IsText x
    → Holds max (moved b) (length x) x (drop (length x + 1) b.buffer)
moved-Holds {b = b} {p} {x} {junk} h le t =
    rw (counted, copied)
      (record {
        text =
            drop-write_at b.buffer (x ++ (0 ∷ [])) 0 0 (omega arith) (omega arith)
            ∙ append_assoc x (0 ∷ []) (drop (0 + length (x ++ (0 ∷ []))) b.buffer)
            ∙ ap (λ n. x ++ (0 ∷ drop n b.buffer)) (omega (arith, length-append x (0 ∷ [])));
        end_of_text = omega arith;
        size =
            length-write_at 0 (x ++ (0 ∷ [])) b.buffer
              (omega (arith, length-append x (0 ∷ []), h.size, h.end_of_text))
            ∙ h.size;
      })
  where
    counted : strlen (drop b.cur b.buffer) ≡ length x
    counted = rw h.text (strlen-text x junk t)

    copied : slice b.buffer b.cur (b.cur + (length x + 1)) ≡ x ++ (0 ∷ [])
    copied =
        ap (take (b.cur + (length x + 1) - b.cur)) h.text
        ∙ take-append_past x (0 ∷ junk) (b.cur + (length x + 1) - b.cur) (omega arith)
        ∙ ap (λ n. x ++ take n (0 ∷ junk)) (one_more b.cur (length x))

module _ {max : ℕ} {b : LineBuffer} {inputs : Inputs} (nl l : Bytes) (c : ℕ) (more : Bytes)
    (kept : Kept max (nl ++ (l ++ (c ∷ more))) b inputs) (is_line : IsLine nl l c)
    (text_only : IsText (nl ++ (l ++ (c ∷ more)))) (room : length nl + length l < max) where
  to_come-IsText : IsText kept.to_come
  to_come-IsText =
      All-append-right _ kept.text kept.to_come (subst IsText (sym kept.joined) text_only)

  text-IsText : IsText kept.text
  text-IsText = All-append-left _ kept.text kept.to_come (subst IsText (sym kept.joined) text_only)

  move_up-Returns :
      {limit : ℕ} (b' : LineBuffer) (p : ℕ)
      → Waiting max limit l c more kept.to_come b' p
      → p ≤ max
      → limit ≤ b'.cur + length nl + length l
      → Returns max l more (move_up max inputs b')
  unfolding move_up
  move_up-Returns b' p w le e =
      subst (λ n. Returns max l more (read_until_eol max inputs (moved b') n)) (sym counted)
        (read_until_eol-Returns l c more room inputs kept.to_come (moved b') (length w.text)
          (record {
            nl = w.nl;
            text = w.text;
            junk = drop (length w.text + 1) b'.buffer;
            holds = moved-Holds w.holds le w.text_only;
            text_only = w.text_only;
            is_line = w.is_line;
            joined = w.joined;
            not_whole = w.not_whole;
            fits = omega (arith, w.fits);
          })
          to_come-IsText kept.feeds)
    where
      counted : strlen (drop b'.cur b'.buffer) ≡ length w.text
      counted = rw w.holds.text (strlen-text w.text w.junk w.text_only)

  readline_more-Returns : Returns max l more (readline_more max inputs b)
  unfolding readline_more on_eol
  readline_more-Returns =
      elim (scan (b.cur + length nl + length l) kept.to_come nl l c more kept.holds kept.in_bounds
        text-IsText is_line kept.joined (omega arith)
        (Reach-lem kept.text kept.to_come nl l c more kept.joined)) [
          | inl (found, done) ↦ rw found (done inputs kept.feeds)
          | inr (partial, w) ↦ rw partial (
              move_up-Returns (skip_leading b) kept.p w kept.in_bounds
                (unfold skip_leading in omega arith))
        ]

  readline_empty-Returns :
      kept.text ≡ [] → Returns max l more (read_until_eol max inputs (empty_buffer b) 0)
  unfolding empty_buffer
  readline_empty-Returns e =
      read_until_eol-Returns l c more room inputs kept.to_come (empty_buffer b) 0
        (record {
          nl = nl;
          text = [];
          junk = _;
          holds = empty_buffer-Holds kept.holds;
          text_only = tt;
          is_line = is_line;
          joined = ap (λ (t : Bytes). t ++ kept.to_come) (sym e) ∙ kept.joined;
          not_whole = omega arith;
          fits = omega arith;
        })
        to_come-IsText kept.feeds

  -- One call of `readline`, where what the buffer holds and the reads deliver is newlines, a line
  -- that starts with no '>' and has no byte 0, its terminator, and the rest: however the reads cut
  -- the text, the call returns exactly the line, if it fits in the buffer with the newlines, and the
  -- buffer and the reads to come make up exactly the rest.
  pub readline-Returns : Returns max l more (readline max inputs b)
  unfolding readline readline_at
  readline-Returns = go kept.text refl
    where
      go : (x : Bytes) → kept.text ≡ x → Returns max l more (readline max inputs b)
      go [] e =
          rw
            (get_elem?-drop b.buffer b.cur 0 kept.junk
              (kept.holds.text ∙ ap (λ (t : Bytes). t ++ (0 ∷ kept.junk)) e))
            (readline_empty-Returns e)
      go (x ∷ xs) e =
          rw
            (
              get_elem?-drop b.buffer b.cur x (xs ++ (0 ∷ kept.junk))
                  (kept.holds.text ∙ ap (λ (t : Bytes). t ++ (0 ∷ kept.junk)) e),
              (subst IsText e text-IsText).0,
            )
            readline_more-Returns

-- newlines, a line and its terminator
pub record Item : Type 0 where
  pub newlines : Bytes
  pub line : Bytes
  pub terminator : ℕ

abbrev pub stream : List Item → Bytes
stream [] = []
stream (i ∷ is) = i.newlines ++ (i.line ++ (i.terminator ∷ stream is))

-- The line is one that `readline` can read in a buffer of this size.
abbrev pub IsItem : ℕ → Item → Type 0
IsItem max i = IsLine i.newlines i.line i.terminator × (length i.newlines + length i.line < max)

-- so many calls of `readline` in a row
unfoldable pub readlines : ℕ → ℕ → Inputs → LineBuffer → List Line
readlines max zero inputs b = []
readlines max (suc n) inputs b =
    let (line, b', inputs') = readline max inputs b in line ∷ readlines max n inputs' b'

IsText-rest : (nl l : Bytes) (c : ℕ) (more : Bytes) → IsText (nl ++ (l ++ (c ∷ more))) → IsText more
IsText-rest nl l c more t = (All-append-right _ l (c ∷ more) (All-append-right _ nl _ t)).1

readlines-Kept :
    (max : ℕ) (items : List Item) (inputs : Inputs) (b : LineBuffer)
    → All (IsItem max) items
    → IsText (stream items)
    → Kept max (stream items) b inputs
    → readlines max (length items) inputs b ≡ map (λ i. a_line i.line) items
unfolding readlines
readlines-Kept max [] inputs b h t k = refl
readlines-Kept max (i ∷ is) inputs b (h, hs) t k =
    let (same, kept) = readline-Returns i.newlines i.line i.terminator (stream is) k h.0 t h.1 in
    ap₂ ◌∷◌ same
      (readlines-Kept max is _ _ hs (IsText-rest i.newlines i.line i.terminator (stream is) t) kept)

-- The reader, from the start of the channel: on a stream of lines it returns exactly those lines, in
-- order, whatever pieces the reads deliver, if each line starts with no '>', holds no byte 0 and
-- fits in the buffer with the newlines before it.
pub readlines-stream :
    (max : ℕ) (items : List Item) (inputs : Inputs)
    → All (IsItem max) items
    → IsText (stream items)
    → Feeds (stream items) inputs
    → readlines max (length items) inputs (initial max) ≡ map (λ i. a_line i.line) items
readlines-stream max items inputs h t f =
    readlines-Kept max items inputs (initial max) h t (record {
      p = 0;
      text = [];
      junk = replicate max 0;
      to_come = stream items;
      holds = record {
        text = refl;
        end_of_text = refl;
        size = omega (arith, length-replicate {A = ℕ} max 0);
      };
      in_bounds = omega arith;
      joined = refl;
      feeds = f;
    })
