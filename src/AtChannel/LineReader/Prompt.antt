-- ===== src/AtChannel/LineReader/Prompt.antt =====
-- The "> " prompt is returned with no newline behind it, and what that does to the buffer.
use platform_hardware_ril.Base.{subst}
use platform_hardware_ril.AtChannel.LineReader.{Line}
use platform_hardware_ril.Base.{
  ◌<◌, ℕ, ◌+◌, ◌≤◌, ◌≡◌, refl, sym, ap, ◌∙◌, some, [], ◌∷◌, ◌++◌, Bytes, arith, length, drop,
}
use platform_hardware_ril.AtChannel.LineReader.Text.{IsText}
use mathlib.Core.List.{append_assoc}
use platform_hardware_ril.AtChannel.LineReader.Framing.{Feeds, Kept, Returns, IsLine}
use platform_hardware_ril.AtChannel.LineReader.Stream.{readline-Returns}
use platform_hardware_ril.Memory.{
  get_elem?-outside, write_at, drop-write_at_past, drop-drop, get_elem?-drop, get_elem?-outside,
  length-write_at,
}
use platform_hardware_ril.AtChannel.LineReader.{
  false, LineBuffer, Inputs, a_line, fault, is_eol, count_newlines, is_prompt, find_next_eol,
  finish_line, skip_leading, on_eol, readline, readline_at, readline_more,
}

-- the buffer behind a prompt: `s_ATBufferCur` is one past the terminator
abbrev after_prompt : LineBuffer → LineBuffer
after_prompt b = record { buffer = write_at (b.cur + 2) (0 ∷ []) b.buffer; cur = b.cur + 2 + 1 }

-- Two calls in a row: what the second one makes of the buffer and the reads that the first one leaves.
abbrev pub readline_twice : ℕ → Inputs → LineBuffer → Line × LineBuffer × Inputs
readline_twice max inputs b =
    let (line, b', inputs') = readline max inputs b in readline max inputs' b'

skip_leading-none :
    (b : LineBuffer) (x : ℕ) (rest : Bytes)
    → drop b.cur b.buffer ≡ x ∷ rest
    → is_eol x ≡ false
    → skip_leading b ≡ b
unfolding skip_leading count_newlines
skip_leading-none b x rest e h = rw (e, h) (ap (λ k. record b { cur = k }) (omega arith))

module _ (max : ℕ) (inputs : Inputs) (b : LineBuffer) (junk : Bytes)
    (at_prompt : drop b.cur b.buffer ≡ b'>' ∷ b' ' ∷ 0 ∷ junk) where
  skip_leading-prompt : skip_leading b ≡ b
  skip_leading-prompt = skip_leading-none b b'>' (b' ' ∷ 0 ∷ junk) at_prompt (unfold is_eol in refl)

  find_next_eol-prompt : find_next_eol (drop b.cur b.buffer) ≡ some 2
  unfolding find_next_eol is_prompt
  find_next_eol-prompt = rw at_prompt refl

  finish_line-prompt : finish_line b 2 ≡ (a_line (b'>' ∷ b' ' ∷ []), after_prompt b)
  unfolding finish_line
  finish_line-prompt = rw at_prompt refl

  -- A prompt with its terminator behind it is returned as a line.
  readline-prompt : readline max inputs b ≡ (a_line (b'>' ∷ b' ' ∷ []), after_prompt b, inputs)
  unfolding readline readline_at readline_more on_eol
  readline-prompt =
      rw (get_elem?-drop b.buffer b.cur b'>' (b' ' ∷ 0 ∷ junk) at_prompt)
        (rw (skip_leading-prompt, find_next_eol-prompt, finish_line-prompt))

  drop-after_prompt :
      b.cur + 3 ≤ length b.buffer → drop (after_prompt b).cur (after_prompt b).buffer ≡ junk
  drop-after_prompt h =
      drop-write_at_past b.buffer (0 ∷ []) (b.cur + 2) (b.cur + 2 + 1) (omega arith) (omega arith)
      ∙ ap (λ k. drop k b.buffer) (omega arith)
      ∙ sym (drop-drop 3 b.cur b.buffer)
      ∙ ap (drop 3) at_prompt

  -- Where the text at the cursor is a prompt, a call of `readline` returns it, and the next call does not
  -- start at the end of the text that was read, but behind its terminator. If an earlier read left a
  -- text `l1` there, it is taken for the start of the next line: where the line `l2` is sent, the second
  -- call returns `l1 ++ l2`.
  pub readline-stale :
      (l1 l2 : Bytes) (c : ℕ) (rest more : Bytes)
      → length b.buffer ≡ max + 1
      → b.cur + 3 + length l1 ≤ max
      → junk ≡ l1 ++ (0 ∷ rest)
      → IsLine [] (l1 ++ l2) c
      → IsText ((l1 ++ l2) ++ (c ∷ more))
      → length (l1 ++ l2) < max
      → Feeds (l2 ++ (c ∷ more)) inputs
      → ((readline max inputs b).0 ≡ a_line (b'>' ∷ b' ' ∷ []))
        × Returns max (l1 ++ l2) more (readline_twice max inputs b)
  readline-stale l1 l2 c rest more size inside e line t room feeds = (
    ap (λ r. r.0) readline-prompt,
    subst (λ r. Returns max (l1 ++ l2) more (readline max r.2 r.1)) (sym readline-prompt)
        (readline-Returns [] (l1 ++ l2) c more kept line t (omega arith)),
  )
    where
      kept : Kept max ([] ++ ((l1 ++ l2) ++ (c ∷ more))) (after_prompt b) inputs
      kept = record {
        p = b.cur + 3 + length l1;
        text = l1;
        junk = rest;
        to_come = l2 ++ (c ∷ more);
        holds = record {
          text = drop-after_prompt (omega arith) ∙ e;
          end_of_text = omega arith;
          size = length-write_at (b.cur + 2) (0 ∷ []) b.buffer (omega arith) ∙ size;
        };
        in_bounds = inside;
        joined = sym (append_assoc l1 l2 (c ∷ more));
        feeds = feeds;
      }

  -- Where the text at the cursor is a prompt whose terminator is the last byte of the buffer, a call of
  -- `readline` returns it, and the next call reads outside the buffer.
  pub readline-outside :
      b.cur + 3 ≡ length b.buffer
      → ((readline max inputs b).0 ≡ a_line (b'>' ∷ b' ' ∷ []))
        × ((readline_twice max inputs b).0 ≡ fault)
  readline-outside e =
      (ap (λ r. r.0) readline-prompt, ap (λ r. (readline max r.2 r.1).0) readline-prompt ∙ outside)
    where
      outside : (readline max inputs (after_prompt b)).0 ≡ fault
      outside =
          unfold readline readline_at in
          rw
            (get_elem?-outside (after_prompt b).buffer (after_prompt b).cur
              (omega (arith, length-write_at (b.cur + 2) (0 ∷ []) b.buffer (omega arith))))
            refl
