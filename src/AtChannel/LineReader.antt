-- ===== src/AtChannel/LineReader.antt =====
-- `readline` of reference-ril/atchannel.c with its static buffer. `s_ATBufferCur` is an index into
-- `s_ATBuffer`, and what a `char *` reads is what the buffer holds from there on.
pub mod Text
pub mod Framing
pub mod Stream
pub mod Prompt
use mathlib.Core.Option
use platform_hardware_ril.Base.{
  ℕ, suc, ◌+◌, ◌-◌, ◌*◌, Bool, false, ◌&&◌, ◌||◌, Option, none, some, List, [], ◌∷◌, ◌++◌, Bytes,
  ◌==◌, if◌then◌else◌, length, get_elem?, take, drop, replicate,
}
use platform_hardware_ril.Memory.{slice, write_at}

-- MAX_AT_RESPONSE; the functions below take the size as an argument.
abbrev pub max_at_response : ℕ
max_at_response = 8 * 1024

-- s_ATBuffer, of one byte more than the size, and s_ATBufferCur
pub record LineBuffer : Type 0 where
  pub buffer : Bytes
  pub cur : ℕ

-- what one read(2) does: it stores bytes (at least one), returns 0, fails, or fails with EINTR
pub data Input : Type 0 where
  got : Bytes → Input
  eof failed interrupted : Input

-- The calls of read(2) to come, each as a function of the count that it is asked for.
abbrev pub Inputs : Type 0
Inputs = List (ℕ → Input)

-- What `readline` returns: a line, or NULL. It may wait for input that has not come, and `fault`
-- stands for a read outside the buffer.
pub data Line : Type 0 where
  a_line : Bytes → Line
  closed waiting fault : Line

unfoldable pub is_eol : ℕ → Bool
is_eol c = c == b'\r' || c == b'\n'

-- the loops that skip over leading newlines: how many there are
unfoldable pub count_newlines : Bytes → ℕ
unfolding is_eol
count_newlines [] = 0
count_newlines (c ∷ cs) = let n = count_newlines cs in if is_eol c then suc n else 0

-- the loop of `findNextEOL`: where the first '\0', '\r' or '\n' stands, if it is no '\0'
unfoldable pub find_newline : Bytes → Option ℕ
unfolding is_eol
find_newline [] = none
find_newline (c ∷ cs) =
    let later = Option.map suc (find_newline cs) in
    if c == 0 then none else if is_eol c then some 0 else later

-- `cur[0] == '>' && cur[1] == ' ' && cur[2] == '\0'`
unfoldable pub is_prompt : Bytes → Bool
is_prompt (a ∷ b ∷ c ∷ rest) = a == b'>' && b == b' ' && c == 0
is_prompt _ = false

unfoldable pub find_next_eol : Bytes → Option ℕ
unfolding find_newline is_prompt
find_next_eol memory = if is_prompt memory then some 2 else find_newline memory

unfoldable pub strlen : Bytes → ℕ
strlen [] = 0
strlen (c ∷ cs) = let n = strlen cs in if c == 0 then 0 else suc n

-- "a full line in the buffer. Place a \0 over the \r and return"; the line ends `eol` bytes on.
unfoldable pub finish_line : LineBuffer → ℕ → Line × LineBuffer
finish_line b eol = (
  a_line (take eol (drop b.cur b.buffer)),
  record { buffer = write_at (b.cur + eol) (0 ∷ []) b.buffer; cur = b.cur + eol + 1 },
)

-- `s_ATBufferCur = s_ATBuffer; *s_ATBufferCur = '\0'`
unfoldable pub empty_buffer : LineBuffer → LineBuffer
empty_buffer b = record { buffer = write_at 0 (0 ∷ []) b.buffer; cur = 0 }

-- "skip over leading newlines"
unfoldable pub skip_leading : LineBuffer → LineBuffer
skip_leading b = record b { cur = b.cur + count_newlines (drop b.cur b.buffer) }

-- the bytes of one read stored at `p_read`, with a terminator behind them
unfoldable pub store_read : ℕ → Bytes → LineBuffer → LineBuffer
store_read p_read bytes b =
    skip_leading (record b { buffer = write_at p_read (bytes ++ 0 ∷ []) b.buffer })

-- What is left of the loop of `readline`, as a function of the buffer and `p_read`.
abbrev pub Loop : Type 0
Loop = LineBuffer → ℕ → Line × LineBuffer × Inputs

-- the loop's test behind a read: `loop` is what follows if no whole line is there
unfoldable pub on_eol : Loop → Inputs → LineBuffer → ℕ → Option ℕ → Line × LineBuffer × Inputs
on_eol loop inputs b p_read none = loop b p_read
on_eol loop inputs b p_read (some eol) = let (line, b') = finish_line b eol in (line, b', inputs)

-- the loop's body behind the call of read
unfoldable pub on_input : Loop → Inputs → LineBuffer → ℕ → Input → Line × LineBuffer × Inputs
on_input loop inputs b p_read interrupted = loop b p_read
on_input loop inputs b p_read eof = (closed, b, inputs)
on_input loop inputs b p_read failed = (closed, b, inputs)
on_input loop inputs b p_read (got bytes) =
    let stored = store_read p_read bytes b in
    on_eol loop inputs stored (p_read + length bytes)
      (find_next_eol (drop stored.cur stored.buffer))

module _ (max : ℕ) where
  -- at the top of the loop: "Input line exceeded buffer", and the buffer is dropped
  unfoldable pub make_room : LineBuffer → ℕ → LineBuffer × ℕ
  make_room b p_read = if max - p_read == 0 then (empty_buffer b, 0) else (b, p_read)

  -- `while (p_eol == NULL)`. A retry for EINTR comes back to the top of the loop, where the test
  -- on the room changes nothing a second time.
  unfoldable pub read_until_eol : Inputs → LineBuffer → ℕ → Line × LineBuffer × Inputs
  read_until_eol [] b p_read = (waiting, b, [])
  read_until_eol (read ∷ inputs) b p_read =
      let (b', p) = make_room b p_read in
      on_input (read_until_eol inputs) inputs b' p (read (max - p))

  -- "a partial line. move it up and prepare to read more"
  unfoldable pub move_up : Inputs → LineBuffer → Line × LineBuffer × Inputs
  move_up inputs b =
      let len = strlen (drop b.cur b.buffer) in
      let text = slice b.buffer b.cur (b.cur + (len + 1)) in
      read_until_eol inputs (record { buffer = write_at 0 text b.buffer; cur = 0 }) len

  -- "there's data in the buffer from the last read"
  unfoldable pub readline_more : Inputs → LineBuffer → Line × LineBuffer × Inputs
  readline_more inputs b =
      let b' = skip_leading b in
      on_eol (λ left p_read. move_up inputs left) inputs b' 0
        (find_next_eol (drop b'.cur b'.buffer))

  -- `*s_ATBufferCur`, and the test on it
  unfoldable pub readline_at : Inputs → LineBuffer → Option ℕ → Line × LineBuffer × Inputs
  readline_at inputs b none = (fault, b, inputs)
  readline_at inputs b (some c) =
      if c == 0 then read_until_eol inputs (empty_buffer b) 0 else readline_more inputs b

  unfoldable pub readline : Inputs → LineBuffer → Line × LineBuffer × Inputs
  readline inputs b = readline_at inputs b (get_elem? b.buffer b.cur)

  -- a static buffer is zero at the start
  abbrev pub initial : LineBuffer
  initial = record { buffer = replicate (suc max) 0; cur = 0 }
