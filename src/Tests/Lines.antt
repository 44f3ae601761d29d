-- ===== src/Tests/Lines.antt =====
-- `readline` of reference-ril/atchannel.c in a small buffer.
use platform_hardware_ril.Base.{◌≡◌, refl, ◌++◌, List, [], ◌∷◌, All, Bytes, codes, arith, inr}
use platform_hardware_ril.AtChannel.LineReader.{
  LineBuffer, got, Inputs, a_line, fault, initial, readline, readline_at, readline_more,
  read_until_eol, make_room, empty_buffer, move_up, on_eol, on_input, store_read, skip_leading,
  count_newlines, find_next_eol, finish_line, strlen, is_eol,
}
use platform_hardware_ril.AtChannel.LineReader.Text.{IsText}
use platform_hardware_ril.AtChannel.LineReader.Framing.{Feeds, IsLine, Returns}
use platform_hardware_ril.AtChannel.LineReader.Stream.{
  Item, IsItem, stream, readlines, readlines-stream,
}
use platform_hardware_ril.AtChannel.LineReader.Prompt.{
  readline_twice, readline-stale, readline-outside,
}
use platform_hardware_ril.Memory.{write_at}

-- reads that deliver one byte each
abbrev one_by_one : Bytes → Inputs
one_by_one [] = []
one_by_one (c ∷ cs) = (λ n. got (c ∷ [])) ∷ one_by_one cs

one_by_one-Feeds : (q : Bytes) → Feeds q (one_by_one q)
one_by_one-Feeds [] = tt
one_by_one-Feeds (c ∷ q) = λ n h. inr (c, [], q, refl, refl, h, one_by_one-Feeds q)

abbrev item : Bytes → Bytes → Item
item nl l = record { newlines = nl; line = l; terminator = b'\r' }

abbrev items : List Item
items = item [] (codes "AB") ∷ item (b'\n' ∷ []) (codes "C") ∷ []

items-IsItem : All (IsItem 8) items
unfolding is_eol
items-IsItem = ground arith

items-IsText : IsText (stream items)
items-IsText = ground arith

readlines-stream_example :
    readlines 8 2 (one_by_one (codes "AB\r\nC\r")) (initial 8)
    ≡ a_line (codes "AB") ∷ a_line (codes "C") ∷ []
readlines-stream_example =
    readlines-stream 8 items (one_by_one (codes "AB\r\nC\r")) items-IsItem items-IsText
      (one_by_one-Feeds (codes "AB\r\nC\r"))

-- the buffer behind the line "ABCDE" and then the prompt: "DE" is left from the line
abbrev behind_line : LineBuffer
behind_line = record {
  buffer = codes "> " ++ (0 ∷ codes "DE" ++ (0 ∷ b'\n' ∷ 0 ∷ 0 ∷ []));
  cur = 0;
}

merged-IsLine : IsLine [] (codes "DEOK") b'\r'
unfolding is_eol
merged-IsLine = ground arith

merged-IsText : IsText (codes "DEOK\r")
merged-IsText = ground arith

-- the modem has sent "OK" alone
readline-stale_example :
    ((readline 8 (one_by_one (codes "OK\r")) behind_line).0 ≡ a_line (codes "> "))
    × Returns 8 (codes "DEOK") [] (readline_twice 8 (one_by_one (codes "OK\r")) behind_line)
readline-stale_example =
    readline-stale 8 (one_by_one (codes "OK\r")) behind_line
      (codes "DE" ++ (0 ∷ b'\n' ∷ 0 ∷ 0 ∷ [])) refl (codes "DE") (codes "OK") b'\r'
      (b'\n' ∷ 0 ∷ 0 ∷ []) [] refl (omega arith) refl merged-IsLine merged-IsText (omega arith)
      (one_by_one-Feeds (codes "OK\r"))

-- the whole story from the start of the channel, in three reads
abbrev story : Inputs
story = (λ n. got (codes "ABCDE\r\n")) ∷ (λ n. got (codes "> ")) ∷ (λ n. got (codes "OK\r")) ∷ []

story_runs :
    readlines 8 3 story (initial 8)
    ≡ a_line (codes "ABCDE") ∷ a_line (codes "> ") ∷ a_line (codes "DEOK") ∷ []
unfolding readlines readline readline_at readline_more read_until_eol make_room empty_buffer move_up
    on_eol on_input store_read skip_leading count_newlines find_next_eol finish_line strlen write_at
story_runs = refl

abbrev at_end : LineBuffer
at_end = record { buffer = codes "ABCDEF" ++ (codes "> " ++ (0 ∷ [])); cur = 6 }

readline-outside_example :
    ((readline 8 [] at_end).0 ≡ a_line (codes "> ")) × ((readline_twice 8 [] at_end).0 ≡ fault)
readline-outside_example = readline-outside 8 [] at_end [] refl refl
