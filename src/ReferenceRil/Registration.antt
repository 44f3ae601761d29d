-- ===== src/ReferenceRil/Registration.antt =====
-- `parseRegistrationState` of reference-ril/reference-ril.c: which lines it parses inside the array
-- that it allocates, and which it does not.
use platform_hardware_ril.Base.{
  lt→ltb, ℕ, suc, ◌+◌, ◌<◌, ◌≤◌, ◌≡◌, refl, ◌∙◌, Bool, true, false, Option, none, some, List, [],
  ◌∷◌, Bytes, arith, ltb, ◌==◌, if◌then◌else◌, length, set, get_or, replicate, length-set,
  length-replicate,
}
use platform_hardware_ril.Base.Int.{ℤ, pos, negsuc}
use platform_hardware_ril.AtTok.{
  Status, success, failure, Cursor, at_tok_start, at_tok_nextint, at_tok_nexthexint,
}
use platform_hardware_ril.ReferenceRil.{tech_from_modem_type}

-- "count number of commas"
unfoldable pub count_commas : Bytes → ℕ
count_commas [] = 0
count_commas (c ∷ cs) = let n = count_commas cs in if c == b',' then suc n else n

-- The array `resp` and the cursor, the label `error`, or a store outside the array.
pub data Scan : Type 0 where
  scanned : List ℤ → Cursor → Scan
  failed outside : Scan

-- `resp[i] = v`, if a value is stored
unfoldable pub write_int : ℕ → Option ℤ → List ℤ → Option (List ℤ)
write_int i none resp = some resp
write_int i (some v) resp = if ltb i (length resp) then some (set resp i v) else none

unfoldable pub after_write : Status → Cursor → Option (List ℤ) → Scan
after_write status cur none = outside
after_write failure cur (some resp) = failed
after_write success cur (some resp) = scanned resp cur

-- `err = next(&line, &resp[i]); if (err < 0) goto error;`
unfoldable pub read_into : (Cursor → Status × Option ℤ × Cursor) → ℕ → Scan → Scan
read_into next i (scanned resp cur) =
    let (status, v, cur') = next cur in after_write status cur' (write_int i v resp)
read_into next i failed = failed
read_into next i outside = outside

-- `err = at_tok_nextint(&line, &skip); if (err < 0) goto error;`
unfoldable pub skip_int : Scan → Scan
skip_int (scanned resp cur) =
    let (status, v, cur') = at_tok_nextint cur in after_write status cur' (some resp)
skip_int failed = failed
skip_int outside = outside

-- `resp[i] = -1;`
unfoldable pub reset_at : ℕ → Scan → Scan
reset_at i (scanned resp cur) = after_write success cur (write_int i (some (negsuc 0)) resp)
reset_at i failed = failed
reset_at i outside = outside

abbrev no_location : Scan → Scan
no_location s = reset_at 2 (reset_at 1 (read_into at_tok_nextint 0 s))

abbrev location : Scan → Scan
location s =
    read_into at_tok_nexthexint 2 (read_into at_tok_nexthexint 1 (read_into at_tok_nextint 0 s))

-- `switch (commas)`
unfoldable pub read_fields : ℕ → Scan → Scan
read_fields commas s =
    if commas == 0
    then no_location s
    else if commas == 1
    then no_location (skip_int s)
    else if commas == 2
    then location s
    else if commas == 3
    then location (skip_int s)
    else if commas == 4
    then read_into at_tok_nexthexint 3 (location (skip_int s))
    else failed

-- What is stored through `response`, `items` and `type`, and in `s_lac` and `s_cid`.
pub record State : Type 0 where
  pub response : List ℤ
  pub items : ℕ
  pub type : ℤ
  pub lac : ℤ
  pub cid : ℤ

-- what the function does: 0, -1, or a store outside the array that it allocated
pub data Outcome : Type 0 where
  parsed : State → Outcome
  invalid overflow : Outcome

unfoldable pub finish : ℕ → ℕ → Scan → Outcome
finish tech commas (scanned resp cur) = parsed (record {
  response = resp;
  items = commas + 1;
  type = tech_from_modem_type tech;
  lac = get_or resp 1 (pos 0);
  cid = get_or resp 2 (pos 0);
})
finish tech commas failed = invalid
finish tech commas outside = overflow

-- behind the prefix; the allocation succeeds
unfoldable pub parse_text : ℕ → Bytes → Outcome
parse_text tech text =
    let commas = count_commas text in
    finish tech commas (read_fields commas (scanned (replicate (commas + 1) (pos 0)) (some text)))

-- behind `at_tok_start`, which leaves a cursor where it succeeds
unfoldable pub behind_prefix : ℕ → Status × Cursor → Outcome
behind_prefix tech (success, some text) = parse_text tech text
behind_prefix tech _ = invalid

-- The first argument is TECH(sMdmInfo).
unfoldable pub parse_registration_state : ℕ → Bytes → Outcome
parse_registration_state tech str = behind_prefix tech (at_tok_start (some str))

-- Inside an array of a size.
abbrev Within : ℕ → Scan → Type 0
Within n (scanned resp cur) = length resp ≡ n
Within n failed = Unit
Within n outside = ⊥

after_write-Within :
    (n i : ℕ) (status : Status) (cur : Cursor) (v : Option ℤ) (resp : List ℤ)
    → length resp ≡ n
    → i < n
    → Within n (after_write status cur (write_int i v resp))
unfolding after_write write_int
after_write-Within n i success cur none resp e h = e
after_write-Within n i failure cur none resp e h = tt
after_write-Within n i success cur (some v) resp e h =
    rw (lt→ltb i (length resp) (omega arith)) (length-set resp i v ∙ e)
after_write-Within n i failure cur (some v) resp e h = rw (lt→ltb i (length resp) (omega arith)) tt

read_into-Within :
    (next : Cursor → Status × Option ℤ × Cursor) (n i : ℕ) (s : Scan)
    → Within n s
    → i < n
    → Within n (read_into next i s)
unfolding read_into
read_into-Within next n i (scanned resp cur) w h =
    after_write-Within n i (next cur).0 (next cur).2 (next cur).1 resp w h
read_into-Within next n i failed w h = tt
read_into-Within next n i outside w h = w

reset_at-Within : (n i : ℕ) (s : Scan) → Within n s → i < n → Within n (reset_at i s)
unfolding reset_at
reset_at-Within n i (scanned resp cur) w h =
    after_write-Within n i success cur (some (negsuc 0)) resp w h
reset_at-Within n i failed w h = tt
reset_at-Within n i outside w h = w

skip_int-Within : (n : ℕ) (s : Scan) → Within n s → Within n (skip_int s)
unfolding skip_int after_write
skip_int-Within n (scanned resp cur) w = go (at_tok_nextint cur)
  where
    go : (r : Status × Option ℤ × Cursor) → Within n (after_write r.0 r.2 (some resp))
    go (success, v, cur') = w
    go (failure, v, cur') = tt
skip_int-Within n failed w = tt
skip_int-Within n outside w = w

no_location-Within : (n : ℕ) (s : Scan) → 2 < n → Within n s → Within n (no_location s)
no_location-Within n s h w =
    reset_at-Within n 2 _
      (reset_at-Within n 1 _ (read_into-Within at_tok_nextint n 0 s w (omega arith)) (omega arith))
      h

location-Within : (n : ℕ) (s : Scan) → 2 < n → Within n s → Within n (location s)
location-Within n s h w =
    read_into-Within at_tok_nexthexint n 2 _
      (read_into-Within at_tok_nexthexint n 1 _
        (read_into-Within at_tok_nextint n 0 s w (omega arith)) (omega arith))
      h

if-Within :
    (n : ℕ) (b : Bool) (s t : Scan)
    → (b ≡ true → Within n s)
    → Within n t
    → Within n (if b then s else t)
if-Within n true s t h k = h refl
if-Within n false s t h k = k

read_fields-Within :
    (commas : ℕ) (s : Scan)
    → 2 ≤ commas
    → Within (commas + 1) s
    → Within (commas + 1) (read_fields commas s)
unfolding read_fields
read_fields-Within commas s h w =
    if-Within n (commas == 0) _ _ (λ e. no_location-Within n s past w)
      (if-Within n (commas == 1) _ _ (λ e. no_location-Within n (skip_int s) past skipped)
        (if-Within n (commas == 2) _ _ (λ e. location-Within n s past w)
          (if-Within n (commas == 3) _ _ (λ e. location-Within n (skip_int s) past skipped)
            (if-Within n (commas == 4) _ failed
              (λ e.
                read_into-Within at_tok_nexthexint n 3 _
                  (location-Within n (skip_int s) past skipped) (ground arith))
              tt))))
  where
    n : ℕ
    n = commas + 1

    past : 2 < n
    past = omega arith

    skipped : Within n (skip_int s)
    skipped = skip_int-Within n s w

-- The array holds as many numbers as `items` says, one for each field of the line.
abbrev pub IsSound : ℕ → Outcome → Type 0
IsSound commas (parsed state) = (state.items ≡ commas + 1) × (length state.response ≡ state.items)
IsSound commas invalid = Unit
IsSound commas overflow = ⊥

finish-IsSound :
    (tech commas : ℕ) (s : Scan) → Within (commas + 1) s → IsSound commas (finish tech commas s)
unfolding finish
finish-IsSound tech commas (scanned resp cur) w = (refl, w)
finish-IsSound tech commas failed w = tt
finish-IsSound tech commas outside w = w

-- Where the text behind the prefix has two commas or more, `parseRegistrationState` stores nothing
-- outside its array, and where it succeeds `items` is the length of the array, which is the
-- number of fields.
pub parse_registration_state-IsSound :
    (tech : ℕ) (str text : Bytes)
    → at_tok_start (some str) ≡ (success, some text)
    → 2 ≤ count_commas text
    → IsSound (count_commas text) (parse_registration_state tech str)
unfolding parse_registration_state behind_prefix parse_text
parse_registration_state-IsSound tech str text e h = rw e (
    finish-IsSound tech commas _
      (read_fields-Within commas _ h (length-replicate (commas + 1) (pos 0))))
  where
    commas : ℕ
    commas = count_commas text

-- Where the text behind the prefix has no comma and starts with a number, as in "+CREG: 1",
-- `parseRegistrationState` stores outside its array.
pub parse_registration_state_overflow :
    (tech : ℕ) (str text : Bytes) (v : ℤ) (cur : Cursor)
    → at_tok_start (some str) ≡ (success, some text)
    → count_commas text ≡ 0
    → at_tok_nextint (some text) ≡ (success, some v, cur)
    → parse_registration_state tech str ≡ overflow
unfolding parse_registration_state behind_prefix parse_text read_fields read_into reset_at write_int
    after_write finish
parse_registration_state_overflow tech str text v cur e none_there f = rw (e, none_there, f) refl

-- Where it has one comma between two numbers, as in "+CREG: 2,1", it does so as well.
pub parse_registration_state_overflow_two :
    (tech : ℕ) (str text : Bytes) (n v : ℤ) (cur rest : Cursor)
    → at_tok_start (some str) ≡ (success, some text)
    → count_commas text ≡ 1
    → at_tok_nextint (some text) ≡ (success, some n, cur)
    → at_tok_nextint cur ≡ (success, some v, rest)
    → parse_registration_state tech str ≡ overflow
unfolding parse_registration_state behind_prefix parse_text read_fields skip_int read_into reset_at
    write_int after_write finish
parse_registration_state_overflow_two tech str text n v cur rest e one_there f g =
    rw (e, one_there, f, g) refl
