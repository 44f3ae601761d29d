-- ===== src/RecordStream/Refine.antt =====
-- The buffer implements the abstract stream, and no access leaves the buffer.
use platform_hardware_ril.Base.{
  ℕ, ◌+◌, ◌-◌, ◌≤◌, ◌<◌, ◌≡◌, refl, ap, ◌∙◌, ◌&&◌, Option, none, some, [], ◌∷◌, ◌++◌, Bytes, arith,
  ltb, ◌==◌, if◌then◌else◌, Bool-cases, inl, inr, length, take, drop,
}
use platform_hardware_ril.Memory.{
  slice, write_at, length-slice, length-write_at, slice-drop, slice-take, slice-write_at,
  slice-write_at_start,
}
use platform_hardware_ril.RecordStream.{
  RecordStream, Read, got, eof, failed, Found, Outcome, ntohl, get_end_of_record, take_record,
  get_next_record, compact, retry, after_read, fill, first_try, record_stream_get_next,
}
use platform_hardware_ril.RecordStream.Spec
use platform_hardware_ril.RecordStream.Spec.{decode, Reply}

-- The pointers are in order inside the allocation.
pub record IsValid (rs : RecordStream) : Type 0 where
  pub allocated : rs.buffer_end ≡ length rs.buffer
  pub in_order : rs.unconsumed ≤ rs.read_end
  pub in_bounds : rs.read_end ≤ rs.buffer_end
  pub room : rs.buffer_end ≡ rs.max_record_len + 4

abbrev pub pending : RecordStream → Bytes
pending rs = slice rs.buffer rs.unconsumed rs.read_end

-- `getEndOfRecord` at `begin` agrees with the abstract decoder on the bytes from `begin` to `end`.
abbrev Agrees : Bytes → ℕ → ℕ → Option ℕ → Option (Bytes × Bytes) → Type 0
Agrees buf b e none none = Unit
Agrees buf b e (some r) (some (content, rest)) =
    (slice buf (b + 4) r ≡ content) × (slice buf r e ≡ rest) × (b + 4 ≤ r) × (r ≤ e)
Agrees buf b e _ _ = ⊥

module _ (buf : Bytes) (b e : ℕ) (le : b ≤ e) (inside : e ≤ length buf) where
  end_of_record-short :
      (s : Bytes) → slice buf b e ≡ s → length s < 4 → get_end_of_record buf b e ≡ none
  unfolding get_end_of_record
  end_of_record-short s q short =
      ground (arith, length-slice buf b e inside, ap (λ (t : Bytes). length t) q)

  module _ (w x y z : ℕ) (rest : Bytes) (q : slice buf b e ≡ w ∷ x ∷ y ∷ z ∷ rest) where
    abbrev len : ℕ
    len = ntohl (w ∷ x ∷ y ∷ z ∷ [])

    length-rest : b + 4 + length rest ≡ e
    length-rest = omega (arith, length-slice buf b e inside, ap (λ (t : Bytes). length t) q)

    slice-header : slice buf b (b + 4) ≡ w ∷ x ∷ y ∷ z ∷ []
    slice-header = slice-take buf b 4 e (omega (arith, length-rest)) ∙ rw q

    slice-body : slice buf (b + 4) e ≡ rest
    slice-body = slice-drop buf b 4 e ∙ rw q

    end_of_record-value :
        get_end_of_record buf b e ≡ (if ltb (length rest) len then none else some (b + 4 + len))
    unfolding get_end_of_record
    end_of_record-value = rw slice-header (ground (arith, length-rest))

    end_of_record-long : Agrees buf b e (get_end_of_record buf b e) (decode (w ∷ x ∷ y ∷ z ∷ rest))
    unfolding decode
    end_of_record-long = elim (Bool-cases (ltb (length rest) len)) [
      | inl short ↦ rw (end_of_record-value, short) tt
      | inr long ↦
          rw (end_of_record-value, long)
            (
              slice-take buf (b + 4) len e (ground (arith, length-rest)) ∙ ap (take len) slice-body,
              slice-drop buf (b + 4) len e ∙ ap (drop len) slice-body,
              omega arith,
              ground (arith, length-rest),
            )
    ]

  end_of_record-Agrees :
      (s : Bytes) → slice buf b e ≡ s → Agrees buf b e (get_end_of_record buf b e) (decode s)
  unfolding decode
  end_of_record-Agrees [] q = rw (end_of_record-short [] q (omega arith)) tt
  end_of_record-Agrees (w ∷ []) q = rw (end_of_record-short (w ∷ []) q (omega arith)) tt
  end_of_record-Agrees (w ∷ x ∷ []) q = rw (end_of_record-short (w ∷ x ∷ []) q (omega arith)) tt
  end_of_record-Agrees (w ∷ x ∷ y ∷ []) q =
      rw (end_of_record-short (w ∷ x ∷ y ∷ []) q (omega arith)) tt
  end_of_record-Agrees (w ∷ x ∷ y ∷ z ∷ rest) q = end_of_record-long w x y z rest q

-- what is left in the buffer, behind what is returned
abbrev pub view : Outcome × RecordStream → Reply × Bytes
view (Outcome.a_record found, rs) =
    (Reply.a_record (slice rs.buffer found.start (found.start + found.len)), pending rs)
view (Outcome.end_of_stream, rs) = (Reply.end_of_stream, pending rs)
view (Outcome.read_error, rs) = (Reply.read_error, pending rs)
view (Outcome.again, rs) = (Reply.again, pending rs)
view (Outcome.too_long, rs) = (Reply.too_long, pending rs)

-- read(2) stores no more bytes than it was asked for.
abbrev pub IsRead : (ℕ → Read) → Type 0
IsRead read = (n : ℕ) (bytes : Bytes) → read n ≡ got bytes → length bytes ≤ n

-- `getNextRecord` takes the first record off the bytes in the buffer, or finds none and changes
-- nothing.
abbrev Taken : RecordStream → Option (Bytes × Bytes) → Option Found × RecordStream → Type 0
Taken rs none (none, rs') = rs' ≡ rs
Taken rs (some (content, rest)) (some found, rs') =
    (slice rs'.buffer found.start (found.start + found.len) ≡ content)
    × (pending rs' ≡ rest)
    × IsValid rs'
    × (rs'.buffer_end ≡ rs.buffer_end)
Taken rs _ _ = ⊥

get_next_record-Taken :
    (rs : RecordStream) → IsValid rs → Taken rs (decode (pending rs)) (get_next_record rs)
unfolding get_next_record take_record
get_next_record-Taken rs v =
    go (get_end_of_record rs.buffer rs.unconsumed rs.read_end) (decode (pending rs)) (
      end_of_record-Agrees rs.buffer rs.unconsumed rs.read_end v.in_order (omega arith) (pending rs)
        refl)
  where
    go :
        (r : Option ℕ) (d : Option (Bytes × Bytes))
        → Agrees rs.buffer rs.unconsumed rs.read_end r d
        → Taken rs d (take_record rs r)
    go none none h = refl
    go (some r) (some (content, rest)) (h1, h2, h3, h4) =
        (ap (λ k. slice rs.buffer (rs.unconsumed + 4) k) (omega arith) ∙ h1, h2, omega arith, refl)
    go none (some d) h = elim h [ ]
    go (some r) none h = elim h [ ]

record Compacted (rs rs' : RecordStream) : Type 0 where
  valid : IsValid rs'
  at_start : rs'.unconsumed ≡ 0
  same_bytes : pending rs' ≡ pending rs
  same_end : rs'.buffer_end ≡ rs.buffer_end

compact-Compacted : (rs : RecordStream) → IsValid rs → Compacted rs (compact rs)
unfolding compact
compact-Compacted rs v = elim (Bool-cases (rs.unconsumed == 0)) [
  | inl e ↦ rw e (record { valid = v; at_start = ground arith; same_bytes = refl; same_end = refl })
  | inr e ↦ rw e (record {
    valid = omega (arith, fits, length-write_at 0 (pending rs) rs.buffer (omega (arith, fits)));
    at_start = refl;
    same_bytes = slice-write_at_start rs.buffer (pending rs) (omega (arith, fits));
    same_end = refl;
  })
]
  where
    fits : length (pending rs) ≡ rs.read_end - rs.unconsumed
    fits = length-slice rs.buffer rs.unconsumed rs.read_end (omega arith)

-- A reply and what the buffer holds behind it are those of the abstract stream.
abbrev pub Meets : RecordStream → Reply × Bytes → Outcome × RecordStream → Type 0
Meets rs reply r = (view r ≡ reply) × IsValid r.1 × (r.1.buffer_end ≡ rs.buffer_end)

retry-Meets :
    (rs : RecordStream) (p : Bytes)
    → IsValid rs
    → pending rs ≡ p
    → Meets rs (Spec.reply_to (decode p) p) (retry (get_next_record rs))
unfolding retry
retry-Meets rs p v e =
    rw (← e) (go (decode (pending rs)) (get_next_record rs) (get_next_record-Taken rs v))
  where
    go :
        (d : Option (Bytes × Bytes)) (t : Option Found × RecordStream)
        → Taken rs d t
        → Meets rs (Spec.reply_to d (pending rs)) (retry t)
    go none (none, rs') h = rw h (refl, v, refl)
    go (some (content, rest)) (some found, rs') (h1, h2, h3, h4) = (rw (h1, h2), h3, h4)
    go none (some found, rs') h = elim h [ ]
    go (some d) (none, rs') h = elim h [ ]

after_read-Meets :
    (rs : RecordStream) (r : Read)
    → IsValid rs
    → ((bytes : Bytes) → r ≡ got bytes → length bytes ≤ rs.buffer_end - rs.read_end)
    → Meets rs (Spec.after_read (pending rs) r) (after_read rs r)
unfolding after_read
after_read-Meets rs eof v h = (refl, v, refl)
after_read-Meets rs failed v h = (refl, v, refl)
after_read-Meets rs (got bytes) v h =
    retry-Meets filled (pending rs ++ bytes)
      (omega (arith, h bytes refl, length-write_at rs.read_end bytes rs.buffer room))
      (slice-write_at rs.buffer bytes rs.unconsumed rs.read_end (rs.read_end + length bytes)
        v.in_order refl room)
  where
    room : rs.read_end + length bytes ≤ length rs.buffer
    room = omega (arith, h bytes refl)

    filled : RecordStream
    filled = record rs {
      buffer = write_at rs.read_end bytes rs.buffer;
      read_end = rs.read_end + length bytes;
    }

-- behind the compaction, the read is asked for the room that the bytes kept leave
Compacted-Meets :
    (read : ℕ → Read) (rs moved : RecordStream)
    → IsRead read
    → Compacted rs moved
    → Meets rs
        (Spec.after_read (pending rs) (read (rs.buffer_end - length (pending rs))))
        (after_read moved (read (moved.buffer_end - moved.read_end)))
Compacted-Meets read rs moved sound c =
    rw (← c.same_bytes, ← c.same_end, asked)
      (after_read-Meets moved (read (moved.buffer_end - moved.read_end)) c.valid
        (λ bytes. sound _ bytes))
  where
    asked : moved.buffer_end - length (pending moved) ≡ moved.buffer_end - moved.read_end
    asked =
        omega
          (arith, length-slice moved.buffer moved.unconsumed moved.read_end (omega arith), c.valid)

fill-Meets :
    (read : ℕ → Read) (rs : RecordStream)
    → IsRead read
    → IsValid rs
    → Meets rs (Spec.read_more rs.buffer_end read (pending rs)) (fill read rs)
unfolding fill
fill-Meets read rs sound v = elim (Bool-cases (length (pending rs) == rs.buffer_end)) [
  | inl full ↦ rw (full_test, full) (refl, v, refl)
  | inr more ↦
      rw (full_test, more) (Compacted-Meets read rs (compact rs) sound (compact-Compacted rs v))
]
  where
    full_test :
        (rs.unconsumed == 0 && rs.read_end == rs.buffer_end)
        ≡ (length (pending rs) == rs.buffer_end)
    full_test = ground (arith, length-slice rs.buffer rs.unconsumed rs.read_end (omega arith))

-- `record_stream_get_next` does what the abstract stream does, on every branch: the reply, with the
-- bytes of the record that it points to, and the bytes kept for later calls are those of
-- `Spec.next`. The pointers stay in order and inside the buffer, so every access is in bounds; the
-- read asks for the room that is left, and read(2) stores no more than it is asked for.
pub record_stream_get_next_refines :
    (read : ℕ → Read) (rs : RecordStream)
    → IsRead read
    → IsValid rs
    → Meets rs (Spec.next rs.buffer_end read (pending rs)) (record_stream_get_next read rs)
unfolding record_stream_get_next Spec.next first_try
record_stream_get_next_refines read rs sound v =
    go (decode (pending rs)) (get_next_record rs) (get_next_record-Taken rs v)
  where
    go :
        (d : Option (Bytes × Bytes)) (t : Option Found × RecordStream)
        → Taken rs d t
        → Meets rs (Spec.reply_or_read rs.buffer_end read (pending rs) d) (first_try read t)
    go none (none, rs') h = rw h (fill-Meets read rs sound v)
    go (some (content, rest)) (some found, rs') (h1, h2, h3, h4) = (rw (h1, h2), h3, h4)
    go none (some found, rs') h = elim h [ ]
    go (some d) (none, rs') h = elim h [ ]
