-- ===== src/RecordStream/Framing.antt =====
-- The writer's side of a record stream, and what the reader makes of it.
use mathlib.Core.List.{append_assoc}
use platform_hardware_ril.Base.{
  ℕ, ◌+◌, ◌-◌, ◌/◌, ◌%◌, ◌≤◌, ◌<◌, ◌≡◌, ◌≢◌, ◌⊎◌, inl, inr, refl, sym, ap, ◌∙◌, false, none, some,
  List, [], ◌∷◌, ◌++◌, Bytes, arith, ltb, ◌==◌, Bool-cases, length, length-append, take, drop,
}
use platform_hardware_ril.Memory.{take-append, take-length, drop-append, drop-length}
use platform_hardware_ril.RecordStream.{RecordStream, Read, got, ntohl, record_stream_get_next}
use platform_hardware_ril.RecordStream.Spec
use platform_hardware_ril.RecordStream.Spec.{decode, Reply, a_record, again}
use platform_hardware_ril.RecordStream.Refine.{
  IsValid, IsRead, pending, view, record_stream_get_next_refines,
}

-- a record behind its length in four bytes, the most significant first
abbrev pub encode : Bytes → Bytes
encode r =
    (length r / 16777216)
    ∷ ((length r / 65536) % 256)
    ∷ ((length r / 256) % 256)
    ∷ (length r % 256)
    ∷ r

abbrev pub encode_all : List Bytes → Bytes
encode_all [] = []
encode_all (r ∷ rs) = encode r ++ encode_all rs

ntohl-encode :
    (n : ℕ) → ntohl ((n / 16777216) ∷ ((n / 65536) % 256) ∷ ((n / 256) % 256) ∷ (n % 256) ∷ []) ≡ n
unfolding ntohl
ntohl-encode n = omega arith

-- Where one text is written in two ways, by a known part in front.
split_front :
    (rest q r more : Bytes)
    → rest ++ q ≡ r ++ more
    → length r ≤ length rest
    → (take (length r) rest ≡ r) × (drop (length r) rest ++ q ≡ more)
split_front rest q r more e le = (
  sym (take-append rest q (length r) le)
      ∙ ap (take (length r)) e
      ∙ take-append r more (length r) (omega arith)
      ∙ take-length r (length r) (omega arith),
  sym (drop-append rest q (length r) le)
      ∙ ap (drop (length r)) e
      ∙ drop-append r more (length r) (omega arith)
      ∙ rw (drop-length r (length r) (omega arith)),
)

-- The decoder on the first bytes of a stream that starts with a record: it waits for the whole of
-- it, and then returns exactly that record.
decode-prefix :
    (p q r more : Bytes)
    → p ++ q ≡ encode r ++ more
    → ((decode p ≡ none) × (length p < 4 + length r))
      ⊎ ((rest : Bytes) × (decode p ≡ some (r, rest)) × (rest ++ q ≡ more))
unfolding decode
decode-prefix [] q r more e = inl (refl, omega arith)
decode-prefix (w ∷ []) q r more e = inl (refl, omega arith)
decode-prefix (w ∷ x ∷ []) q r more e = inl (refl, omega arith)
decode-prefix (w ∷ x ∷ y ∷ []) q r more e = inl (refl, omega arith)
decode-prefix (w ∷ x ∷ y ∷ z ∷ rest) q r more e = elim (Bool-cases (ltb (length rest) (length r))) [
  | inl short ↦ inl (rw (header, short), ground arith)
  | inr long ↦
      let (front, back) = split_front rest q r more body (ground arith) in
      inr (drop (length r) rest, rw (header, long, front), back)
]
  where
    body : rest ++ q ≡ r ++ more
    body = cc e

    header : ntohl (w ∷ x ∷ y ∷ z ∷ []) ≡ length r
    header = cc (e, ntohl-encode (length r))

-- read(2) on a stream whose bytes to come are `q`: asked for at least one byte, it stores some of
-- the first of them, at least one and no more than asked for, as long as there are any.
abbrev pub Delivers : Bytes → (ℕ → Read) → Type 0
Delivers q read =
    (n : ℕ)
    → 0 < n
    → q ≢ []
    → (bytes : Bytes) × (rest : Bytes) × (read n ≡ got bytes)
      × (q ≡ bytes ++ rest)
      × (0 < length bytes)

-- how far one call has come: the record `r` is returned and `more` is what follows, or the call is
-- to be made again, with fewer bytes to come
abbrev pub Framed : Bytes → Bytes → Bytes → Reply × Bytes → Type 0
Framed q r more (reply, p) =
    ((q' : Bytes) × (reply ≡ a_record r) × (p ++ q' ≡ more) × (length q' ≤ length q))
    ⊎ ((q' : Bytes) × (reply ≡ again) × (p ++ q' ≡ encode r ++ more) × (length q' < length q))

-- the call that has to read
module _ (p q r more : Bytes) (e : p ++ q ≡ encode r ++ more) where
  length-both : length p + length q ≡ 4 + length r + length more
  length-both =
      omega
        (arith, ap (λ (t : Bytes). length t) e, length-append p q, length-append (encode r) more)

  after_read-Framed :
      (bytes rest : Bytes)
      → q ≡ bytes ++ rest
      → 0 < length bytes
      → Framed q r more (Spec.after_read p (got bytes))
  after_read-Framed bytes rest qs some_read = elim (decode-prefix (p ++ bytes) rest r more joined) [
    | inr (after, d, back) ↦ rw d (inl (rest, refl, back, omega (arith, shorter)))
    | inl (d, short) ↦ rw d (inr (rest, refl, joined, omega (arith, shorter)))
  ]
    where
      joined : (p ++ bytes) ++ rest ≡ encode r ++ more
      joined = append_assoc p bytes rest ∙ ap (◌++◌ p) (sym qs) ∙ e

      shorter : length q ≡ length bytes + length rest
      shorter = ap (λ (t : Bytes). length t) qs ∙ length-append bytes rest

  read_more-Framed :
      (cap : ℕ) (read : ℕ → Read)
      → length p < 4 + length r
      → length r + 4 ≤ cap
      → Delivers q read
      → Framed q r more (Spec.read_more cap read p)
  read_more-Framed cap read short fits delivers =
      let (bytes, rest, e', qs, some_read) = delivers (cap - length p) (omega arith) not_done in
      rw (not_full, e') (after_read-Framed bytes rest qs some_read)
    where
      not_done : q ≢ []
      not_done q_nil = omega (arith, length-both, ap (λ (t : Bytes). length t) q_nil)

      not_full : (length p == cap) ≡ false
      not_full = ground arith

next-Framed :
    (cap : ℕ) (read : ℕ → Read) (p q r more : Bytes)
    → p ++ q ≡ encode r ++ more
    → length r + 4 ≤ cap
    → Delivers q read
    → Framed q r more (Spec.next cap read p)
unfolding Spec.next
next-Framed cap read p q r more e fits delivers = elim (decode-prefix p q r more e) [
  | inr (rest, d, back) ↦ rw d (inl (q, refl, back, omega arith))
  | inl (d, short) ↦ rw d (read_more-Framed p q r more e cap read short fits delivers)
]

-- Take a stream whose bytes in the buffer and bytes to come are one record of at most
-- `max_record_len` bytes and then any others. A call returns exactly that record, with the others
-- left in the buffer and to come; or it returns EAGAIN with nothing lost and fewer bytes to come.
pub record_stream_get_next-Framed :
    (read : ℕ → Read) (rs : RecordStream) (q r more : Bytes)
    → IsValid rs
    → IsRead read
    → Delivers q read
    → pending rs ++ q ≡ encode r ++ more
    → length r ≤ rs.max_record_len
    → Framed q r more (view (record_stream_get_next read rs))
record_stream_get_next-Framed read rs q r more v sound delivers e fits =
    let (same, v', same_end) = record_stream_get_next_refines read rs sound v in
    rw same (next-Framed rs.buffer_end read (pending rs) q r more e (omega arith) delivers)
