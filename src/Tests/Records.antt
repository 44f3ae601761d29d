-- ===== src/Tests/Records.antt =====
-- librilutils/record_stream.c at a small buffer.
use platform_hardware_ril.Base.{
  ◌≡◌, refl, ℕ, [], ◌∷◌, Bytes, codes, arith, length, take, ap, length-take, zero, suc,
}
use platform_hardware_ril.RecordStream.{
  RecordStream, Read, got, Outcome, record_stream_get_next, get_next_record, get_end_of_record,
  take_record, first_try, fill, compact, after_read, retry, ntohl,
}
use platform_hardware_ril.RecordStream.Spec
use platform_hardware_ril.RecordStream.Spec.{Reply}
use platform_hardware_ril.RecordStream.Refine.{
  IsValid, IsRead, Meets, pending, view, record_stream_get_next_refines,
}
use platform_hardware_ril.RecordStream.Framing.{Delivers, Framed, record_stream_get_next-Framed}
use platform_hardware_ril.Memory.{take-length, write_at}

-- the end of the record "ab" has not come yet
abbrev half : RecordStream
half = record {
  max_record_len = 4;
  buffer = 9 ∷ 0 ∷ 0 ∷ 0 ∷ 2 ∷ b'a' ∷ 0 ∷ 0 ∷ [];
  unconsumed = 1;
  read_end = 6;
  buffer_end = 8;
}

abbrev rest_of_record : Bytes
rest_of_record = b'b' ∷ []

-- a stream that ends behind its next byte
abbrev one_byte : ℕ → Read
one_byte n = got (take n rest_of_record)

got-injective : {a b : Bytes} → got a ≡ got b → a ≡ b
got-injective e = cc

one_byte-IsRead : IsRead one_byte
one_byte-IsRead n bytes e = omega (arith, ap length (got-injective e), length-take n rest_of_record)

half-IsValid : IsValid half
half-IsValid = omega arith

half_reads : record_stream_get_next one_byte half ≡ (
  Outcome.a_record (record { start = 4; len = 2 }),
  record {
    max_record_len = 4;
    buffer = 0 ∷ 0 ∷ 0 ∷ 2 ∷ b'a' ∷ b'b' ∷ 0 ∷ 0 ∷ [];
    unconsumed = 6;
    read_end = 6;
    buffer_end = 8;
  },
)
unfolding record_stream_get_next first_try fill compact after_read retry get_next_record
    get_end_of_record take_record ntohl write_at
half_reads = refl

one_byte-Delivers : Delivers rest_of_record one_byte
one_byte-Delivers zero pos some_left = absurd (omega arith)
one_byte-Delivers (suc n) pos some_left = (
  rest_of_record,
  [],
  ap got (take-length rest_of_record (suc n) (omega arith)),
  refl,
  omega arith,
)

record_stream_get_next_refines_example :
    Meets half (Spec.next 8 one_byte (pending half)) (record_stream_get_next one_byte half)
record_stream_get_next_refines_example =
    record_stream_get_next_refines one_byte half one_byte-IsRead half-IsValid

record_stream_get_next-Framed_example :
    Framed rest_of_record (codes "ab") [] (view (record_stream_get_next one_byte half))
record_stream_get_next-Framed_example =
    record_stream_get_next-Framed one_byte half rest_of_record (codes "ab") [] half-IsValid
      one_byte-IsRead one_byte-Delivers refl (omega arith)
