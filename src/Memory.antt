-- ===== src/Memory.antt =====
-- A buffer of bytes and pointers into it, as a list and indices: the bytes between two pointers,
-- a write at a pointer, and the laws by which the readers of the two streams are proved.
use platform_hardware_ril.Base.{
  none, some, get_elem?, sym, ℕ, zero, suc, ◌+◌, ◌-◌, ◌≤◌, ◌≡◌, refl, ap, ◌∙◌, [], ◌∷◌, ◌++◌, List,
  Bytes, arith, length, take, drop, length-append, length-take, length-drop,
}

-- the bytes at `i`, …, `j - 1`
abbrev pub slice : Bytes → ℕ → ℕ → Bytes
slice buf i j = take (j - i) (drop i buf)

-- memcpy(buf + i, bs, n) for the `n` bytes of `bs`, inside the buffer
unfoldable pub write_at : ℕ → Bytes → Bytes → Bytes
write_at i bs buf = take i buf ++ (bs ++ drop (i + length bs) buf)

suc_plus : (n m : ℕ) → suc (n + m) ≡ suc n + m
suc_plus n m = omega arith

minus_zero : (m : ℕ) → 0 - suc m ≡ 0
minus_zero m = omega arith

module _ {ℓ} {A : Type ℓ} where
  pub drop-nil : (n : ℕ) → drop {A = A} n [] ≡ []
  drop-nil zero = refl
  drop-nil (suc n) = refl

  pub take-nil : (n : ℕ) → take {A = A} n [] ≡ []
  take-nil zero = refl
  take-nil (suc n) = refl

  pub drop-drop : (m n : ℕ) (xs : List A) → drop m (drop n xs) ≡ drop (n + m) xs
  drop-drop m zero xs = ap (λ k. drop k xs) (omega arith)
  drop-drop m (suc n) [] = drop-nil m ∙ sym (drop-nil (suc n + m))
  drop-drop m (suc n) (x ∷ xs) = drop-drop m n xs ∙ ap (λ (k : ℕ). drop k (x ∷ xs)) (suc_plus n m)

  pub drop-take : (m n : ℕ) (xs : List A) → drop m (take n xs) ≡ take (n - m) (drop m xs)
  drop-take zero n xs = ap (λ k. take k xs) (omega arith)
  drop-take (suc m) zero xs = rw (minus_zero m)
  drop-take (suc m) (suc n) [] = sym (take-nil (suc n - suc m))
  drop-take (suc m) (suc n) (x ∷ xs) = drop-take m n xs ∙ ap (λ k. take k (drop m xs)) (omega arith)

  pub take-take : (m n : ℕ) (xs : List A) → m ≤ n → take m (take n xs) ≡ take m xs
  take-take zero n xs h = refl
  take-take (suc m) zero xs h = absurd (omega arith)
  take-take (suc m) (suc n) [] h = refl
  take-take (suc m) (suc n) (x ∷ xs) h = ap (◌∷◌ x) (take-take m n xs (omega arith))

  pub take-length : (xs : List A) (n : ℕ) → length xs ≤ n → take n xs ≡ xs
  take-length [] n h = take-nil n
  take-length (x ∷ xs) zero h = absurd (omega arith)
  take-length (x ∷ xs) (suc n) h = ap (◌∷◌ x) (take-length xs n (omega arith))

  pub drop-length : (xs : List A) (n : ℕ) → length xs ≤ n → drop n xs ≡ []
  drop-length [] n h = drop-nil n
  drop-length (x ∷ xs) zero h = absurd (omega arith)
  drop-length (x ∷ xs) (suc n) h = drop-length xs n (omega arith)

  pub take-append : (xs ys : List A) (n : ℕ) → n ≤ length xs → take n (xs ++ ys) ≡ take n xs
  take-append xs ys zero h = refl
  take-append [] ys (suc n) h = absurd (omega arith)
  take-append (x ∷ xs) ys (suc n) h = ap (◌∷◌ x) (take-append xs ys n (omega arith))

  pub drop-append : (xs ys : List A) (n : ℕ) → n ≤ length xs → drop n (xs ++ ys) ≡ drop n xs ++ ys
  drop-append xs ys zero h = refl
  drop-append [] ys (suc n) h = absurd (omega arith)
  drop-append (x ∷ xs) ys (suc n) h = drop-append xs ys n (omega arith)

  pub take-append_past :
      (xs ys : List A) (n : ℕ) → length xs ≤ n → take n (xs ++ ys) ≡ xs ++ take (n - length xs) ys
  take-append_past [] ys n h = ap (λ k. take k ys) (omega arith)
  take-append_past (x ∷ xs) ys zero h = absurd (omega arith)
  take-append_past (x ∷ xs) ys (suc n) h =
      ap (◌∷◌ x) (take-append_past xs ys n (omega arith) ∙ ap (λ k. xs ++ take k ys) (omega arith))

  pub drop-append_past :
      (xs ys : List A) (n : ℕ) → length xs ≤ n → drop n (xs ++ ys) ≡ drop (n - length xs) ys
  drop-append_past [] ys n h = ap (λ k. drop k ys) (omega arith)
  drop-append_past (x ∷ xs) ys zero h = absurd (omega arith)
  drop-append_past (x ∷ xs) ys (suc n) h =
      drop-append_past xs ys n (omega arith) ∙ ap (λ k. drop k ys) (omega arith)

pub length-slice : (buf : Bytes) (i j : ℕ) → j ≤ length buf → length (slice buf i j) ≡ j - i
length-slice buf i j h = omega (arith, length-take (j - i) (drop i buf), length-drop i buf)

pub length-write_at :
    (i : ℕ) (bs buf : Bytes) → i + length bs ≤ length buf → length (write_at i bs buf) ≡ length buf
unfolding write_at
length-write_at i bs buf h = omega (
  arith,
  length-append (take i buf) (bs ++ drop (i + length bs) buf),
  length-append bs (drop (i + length bs) buf),
  length-take i buf,
  length-drop (i + length bs) buf,
)

-- Parts of a slice.
pub slice-drop : (buf : Bytes) (i k j : ℕ) → slice buf (i + k) j ≡ drop k (slice buf i j)
slice-drop buf i k j =
    ap (λ n. take n (drop (i + k) buf)) (omega arith)
    ∙ ap (take (j - i - k)) (sym (drop-drop k i buf))
    ∙ sym (drop-take k (j - i) (drop i buf))

pub slice-take :
    (buf : Bytes) (i k j : ℕ) → i + k ≤ j → slice buf i (i + k) ≡ take k (slice buf i j)
slice-take buf i k j h =
    ap (λ n. take n (drop i buf)) (omega arith)
    ∙ sym (take-take k (j - i) (drop i buf) (omega arith))

-- A write touches nothing before it, and leaves its bytes where it was made.
pub drop-write_at :
    (buf bs : Bytes) (i j : ℕ)
    → i ≤ j
    → j ≤ length buf
    → drop i (write_at j bs buf) ≡ slice buf i j ++ (bs ++ drop (j + length bs) buf)
unfolding write_at
drop-write_at buf bs i j le h =
    drop-append (take j buf) (bs ++ drop (j + length bs) buf) i (omega (arith, length-take j buf))
    ∙ ap (λ xs. xs ++ (bs ++ drop (j + length bs) buf)) (drop-take i j buf)

-- Bytes written at the end of a slice extend it.
pub slice-write_at :
    (buf bs : Bytes) (i j k : ℕ)
    → i ≤ j
    → k ≡ j + length bs
    → k ≤ length buf
    → slice (write_at j bs buf) i k ≡ slice buf i j ++ bs
slice-write_at buf bs i j k le e h = rw (drop-write_at buf bs i j le (omega arith)) (
    take-append_past (slice buf i j) (bs ++ after) (k - i) (omega (arith, length-slice buf i j))
    ∙ ap (◌++◌ (slice buf i j)) (
        ap (λ n. take n (bs ++ after)) (omega (arith, length-slice buf i j))
        ∙ take-append bs after (length bs) (omega arith)
        ∙ take-length bs (length bs) (omega arith)))
  where
    after : Bytes
    after = drop (j + length bs) buf

-- Bytes written at the start, as by memmove.
pub slice-write_at_start :
    (buf bs : Bytes) → length bs ≤ length buf → slice (write_at 0 bs buf) 0 (length bs) ≡ bs
slice-write_at_start buf bs h = slice-write_at buf bs 0 0 (length bs) (omega arith) (omega arith) h

-- A write touches nothing behind it.
pub drop-write_at_past :
    (buf bs : Bytes) (j k : ℕ)
    → j ≤ length buf
    → j + length bs ≤ k
    → drop k (write_at j bs buf) ≡ drop k buf
unfolding write_at
drop-write_at_past buf bs j k h le =
    drop-append_past (take j buf) (bs ++ after) k (omega (arith, length-take j buf))
    ∙ drop-append_past bs after (k - length (take j buf)) (omega (arith, length-take j buf))
    ∙ drop-drop (k - length (take j buf) - length bs) (j + length bs) buf
    ∙ ap (λ n. drop n buf) (omega (arith, length-take j buf))
  where
    after : Bytes
    after = drop (j + length bs) buf

pub get_elem?-drop :
    (buf : Bytes) (i c : ℕ) (rest : Bytes) → drop i buf ≡ c ∷ rest → get_elem? buf i ≡ some c
get_elem?-drop [] zero c rest h = cc
get_elem?-drop [] (suc i) c rest h = cc
get_elem?-drop (x ∷ buf) zero c rest h = cc
get_elem?-drop (x ∷ buf) (suc i) c rest h = get_elem?-drop buf i c rest h

pub get_elem?-outside : (buf : Bytes) (i : ℕ) → length buf ≤ i → get_elem? buf i ≡ none
get_elem?-outside [] i h = refl
get_elem?-outside (x ∷ buf) zero h = absurd (omega arith)
get_elem?-outside (x ∷ buf) (suc i) h = get_elem?-outside buf i (omega arith)
