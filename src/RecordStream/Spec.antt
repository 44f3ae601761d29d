-- ===== src/RecordStream/Spec.antt =====
-- What a record stream promises, with no buffer in it: the bytes read and not yet returned are a
-- sequence, and a record is taken off its front.
use platform_hardware_ril.Base.{
  ℕ, ◌-◌, Option, none, some, [], ◌∷◌, ◌++◌, Bytes, ltb, ◌==◌, if◌then◌else◌, length, take, drop,
}
use platform_hardware_ril.RecordStream.{ntohl, Read, got, eof, failed}

-- the first record of a sequence of bytes, and what follows it
unfoldable pub decode : Bytes → Option (Bytes × Bytes)
decode (a ∷ b ∷ c ∷ d ∷ rest) =
    let len = ntohl (a ∷ b ∷ c ∷ d ∷ []) in
    if ltb (length rest) len then none else some (take len rest, drop len rest)
decode _ = none

pub data Reply : Type 0 where
  a_record : Bytes → Reply
  end_of_stream read_error again too_long : Reply

abbrev pub reply_to : Option (Bytes × Bytes) → Bytes → Reply × Bytes
reply_to (some (content, rest)) pending = (a_record content, rest)
reply_to none pending = (again, pending)

abbrev pub after_read : Bytes → Read → Reply × Bytes
after_read pending eof = (end_of_stream, pending)
after_read pending failed = (read_error, pending)
after_read pending (got bytes) = reply_to (decode (pending ++ bytes)) (pending ++ bytes)

-- with no whole record there
abbrev pub read_more : ℕ → (ℕ → Read) → Bytes → Reply × Bytes
read_more cap read pending =
    if length pending == cap
    then (too_long, pending)
    else after_read pending (read (cap - length pending))

abbrev pub reply_or_read : ℕ → (ℕ → Read) → Bytes → Option (Bytes × Bytes) → Reply × Bytes
reply_or_read cap read pending (some (content, rest)) = (a_record content, rest)
reply_or_read cap read pending none = read_more cap read pending

-- One request on a stream that holds at most `cap` bytes: a record that is there already, or one
-- read of at most the room left.
unfoldable pub next : ℕ → (ℕ → Read) → Bytes → Reply × Bytes
next cap read pending = reply_or_read cap read pending (decode pending)
