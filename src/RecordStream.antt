-- ===== src/RecordStream.antt =====
-- librilutils/record_stream.c: a stream of records, each behind its length in four bytes. The
-- buffer is memory, and `unconsumed` and `read_end` are pointers into it.
pub mod Spec
pub mod Refine
pub mod Framing
use platform_hardware_ril.Base.{
  ℕ, ◌+◌, ◌-◌, ◌*◌, ◌&&◌, Option, none, some, [], ◌∷◌, Bytes, ltb, ◌==◌, if◌then◌else◌, length,
}
use platform_hardware_ril.Memory.{slice, write_at}

abbrev pub header_size : ℕ
header_size = 4

-- `buffer_end` is the end of the allocation: `max_record_len + header_size`.
pub record RecordStream : Type 0 where
  pub max_record_len : ℕ
  pub buffer : Bytes
  pub unconsumed : ℕ
  pub read_end : ℕ
  pub buffer_end : ℕ

-- `record_stream_new` behind its assertion; malloc does not say what the buffer holds.
unfoldable pub record_stream_new : ℕ → Bytes → Option RecordStream
record_stream_new max garbage =
    if ltb 0xffff max
    then none
    else some (record {
      max_record_len = max;
      buffer = garbage;
      unconsumed = 0;
      read_end = 0;
      buffer_end = max + header_size;
    })

-- ntohl of the word that four bytes make in memory: the first byte is the most significant.
unfoldable pub ntohl : Bytes → ℕ
ntohl (a ∷ b ∷ c ∷ d ∷ []) = ((a * 256 + b) * 256 + c) * 256 + d
ntohl _ = 0

unfoldable pub get_end_of_record : Bytes → ℕ → ℕ → Option ℕ
get_end_of_record buf begin_at end_at =
    if ltb end_at (begin_at + header_size)
    then none
    else (let len = ntohl (slice buf begin_at (begin_at + header_size)) in
        let ret = begin_at + header_size + len in if ltb end_at ret then none else some ret)

-- a record in place: the pointer to it, and its length
pub record Found : Type 0 where
  pub start : ℕ
  pub len : ℕ

-- behind `record_end = getEndOfRecord(...)`
unfoldable pub take_record : RecordStream → Option ℕ → Option Found × RecordStream
take_record rs none = (none, rs)
take_record rs (some record_end) =
    let start = rs.unconsumed + header_size in
    (
      some (record { start = start; len = record_end - start }),
      record rs { unconsumed = record_end },
    )

unfoldable pub get_next_record : RecordStream → Option Found × RecordStream
get_next_record rs = take_record rs (get_end_of_record rs.buffer rs.unconsumed rs.read_end)

-- what read(2) returns: bytes (at least one), 0 at the end of the stream, or -1
pub data Read : Type 0 where
  got : Bytes → Read
  eof failed : Read

-- what `record_stream_get_next` returns: 0 with a record, 0 with NULL, -1 from read, -1 with EAGAIN,
-- and the failed assertion behind "this should never happen"
pub data Outcome : Type 0 where
  a_record : Found → Outcome
  end_of_stream read_error again too_long : Outcome

-- "move remainder to the beginning of the buffer"
unfoldable pub compact : RecordStream → RecordStream
compact rs =
    if rs.unconsumed == 0
    then rs
    else (let moved = slice rs.buffer rs.unconsumed rs.read_end in
        record rs { buffer = write_at 0 moved rs.buffer; read_end = length moved; unconsumed = 0 })

-- the last call of `getNextRecord`
unfoldable pub retry : Option Found × RecordStream → Outcome × RecordStream
retry (some found, rs) = (a_record found, rs)
retry (none, rs) = (again, rs)

-- behind the call of read
unfoldable pub after_read : RecordStream → Read → Outcome × RecordStream
after_read rs eof = (end_of_stream, rs)
after_read rs failed = (read_error, rs)
after_read rs (got bytes) = retry (
    get_next_record (record rs {
      buffer = write_at rs.read_end bytes rs.buffer;
      read_end = rs.read_end + length bytes;
    }))

unfoldable pub fill : (ℕ → Read) → RecordStream → Outcome × RecordStream
fill read rs =
    if rs.unconsumed == 0 && rs.read_end == rs.buffer_end
    then (too_long, rs)
    else (let moved = compact rs in after_read moved (read (moved.buffer_end - moved.read_end)))

-- behind the first call of `getNextRecord`
unfoldable pub first_try : (ℕ → Read) → Option Found × RecordStream → Outcome × RecordStream
first_try read (some found, rs) = (a_record found, rs)
first_try read (none, rs) = fill read rs

-- The argument is read(2) on the stream's descriptor, as a function of the count asked for.
unfoldable pub record_stream_get_next : (ℕ → Read) → RecordStream → Outcome × RecordStream
record_stream_get_next read rs = first_try read (get_next_record rs)
