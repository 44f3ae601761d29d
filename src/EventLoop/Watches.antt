-- ===== src/EventLoop/Watches.antt =====
-- The table of watched descriptors of libril/ril_event.cpp: its indices and `nfds` stay right, and
-- what select finds ready is queued.
use mathlib.Core.Option
use mathlib.Core.Option.{some-injective}
use platform_hardware_ril.Base.{
  replicate, ltb, ◌⊎◌, subst, ℕ, zero, suc, ◌<◌, ◌≡◌, ◌≢◌, refl, ap, ◌∙◌, sym, Bool, true, false,
  Option, none, some, [], ◌∷◌, arith, if◌then◌else◌, inl, inr, Bool-cases, Option-cases, get_elem?,
  get_elem?-set_self, get_elem?-set_ne, length, set,
}
use platform_hardware_ril.Base.Int.{+ℤ_mono, ℤ, pos, negsuc, ◌+ℤ◌, ◌≤ℤ◌, ltb_ℤ, pos_part}
use platform_hardware_ril.EventLoop.{
  ril_event_init, Event, Heap, Table, Loop, store, first_free, add_at, ril_event_add, largest_fd,
  remove_watch, del_at, ril_event_del, max_fd_events, eq_ℤ,
}
use platform_hardware_ril.EventLoop.Timers.{store-same, store-other}

-- the event that the table has at an index
abbrev pub Watches : Table → ℕ → ℕ → Type 0
Watches table i p = get_elem? table i ≡ some (some p)

-- Every watched event has its own slot's index, a descriptor that is not negative, and one that
-- select is asked about: it is below `nfds`. An event whose index is that of a slot is in it.
pub record IsValid (s : Loop) : Type 0 where
  pub indexed : (i p : ℕ) → Watches s.watch_table i p → (s.heap p).index ≡ pos i
  pub placed : (i p : ℕ) → (s.heap p).index ≡ pos i → Watches s.watch_table i p
  pub proper : (i p : ℕ) → Watches s.watch_table i p → pos 0 ≤ℤ (s.heap p).fd
  pub covered : (i p : ℕ) → Watches s.watch_table i p → (s.heap p).fd +ℤ pos 1 ≤ℤ s.nfds

same_or_not : (a b : ℕ) → (a ≡ b) ⊎ (a ≢ b)
same_or_not a b = omega arith

pos_inj : {i j : ℕ} → pos i ≡ pos j → i ≡ j
pos_inj e = ap pos_part e

-- What holds of a stored event: of the new one at its pointer, of the old ones elsewhere.
pub store-split :
    (P : Event → Type 0) (p q : ℕ) (e : Event) (heap : Heap)
    → (q ≡ p → P e)
    → (q ≢ p → P (heap q))
    → P (store p e heap q)
store-split P p q e heap new old = elim (same_or_not q p) [
  | inl h ↦ subst P (sym (ap (store p e heap) h ∙ store-same p e heap)) (new h)
  | inr h ↦ subst P (sym (store-other p q e heap h)) (old h)
]

inside : (table : Table) (i : ℕ) (v : Option ℕ) → get_elem? table i ≡ some v → i < length table
inside [] zero v e = cc
inside [] (suc i) v e = cc
inside (x ∷ table) zero v e = omega arith
inside (x ∷ table) (suc i) v e = omega (arith, inside table i v e)

-- A watch behind a change of one slot is the new one or an old one.
Watches-set :
    (table : Table) (i j q : ℕ) (old v : Option ℕ)
    → get_elem? table i ≡ some old
    → Watches (set table i v) j q
    → ((j ≡ i) × (v ≡ some q)) ⊎ ((j ≢ i) × Watches table j q)
Watches-set table i j q old v here w = elim (same_or_not j i) [
  | inl e ↦ inl (
    e,
    some-injective v (some q) (
        sym (get_elem?-set_self table i v (inside table i old here))
        ∙ ap (get_elem? (set table i v)) (sym e)
        ∙ w),
  )
  | inr e ↦ inr (e, sym (get_elem?-set_ne table v (λ h. e (sym h))) ∙ w)
]

first_free-none :
    (table : Table) (i : ℕ) → first_free table ≡ some i → get_elem? table i ≡ some none
unfolding first_free
first_free-none [] zero e = cc
first_free-none [] (suc i) e = cc
first_free-none (none ∷ slots) zero e = refl
first_free-none (none ∷ slots) (suc i) e = absurd (omega (arith, some-injective 0 (suc i) e))
first_free-none (some p ∷ slots) i e = elim (Option-cases (first_free slots)) [
  | inl f ↦ cc
  | inr (k, f) ↦
      subst (λ n. get_elem? (some p ∷ slots) n ≡ some none)
        (some-injective (suc k) i (sym (ap (Option.map suc) f) ∙ e)) (first_free-none slots k f)
]

raised : (fd n : ℤ) → ℤ
raised fd n = if ltb_ℤ fd n then n else fd +ℤ pos 1

raise_le : (fd n : ℤ) → (fd +ℤ pos 1 ≤ℤ raised fd n) × (n ≤ℤ raised fd n)
unfolding raised ◌+ℤ◌
raise_le fd n = ground arith

-- `add_at` on a free slot, for an event that is in none.
add_at-IsValid :
    (p i : ℕ) (s : Loop)
    → IsValid s
    → get_elem? s.watch_table i ≡ some none
    → ((j : ℕ) → (s.heap p).index ≢ pos j)
    → pos 0 ≤ℤ (s.heap p).fd
    → IsValid (add_at p (some i) s)
unfolding add_at raised
add_at-IsValid p i s v free away fd = record {
  indexed = λ j q w. elim (Watches-set s.watch_table i j q none (some p) free w) [
    | inl (e, f) ↦
        store-split (λ x. x.index ≡ pos j) p q _ s.heap (λ h. ap pos (sym e))
          (λ h. absurd (h (sym (some-injective p q f))))
    | inr (h, old) ↦
        store-split (λ x. x.index ≡ pos j) p q _ s.heap
          (λ e. absurd (away j (ap (λ r. (s.heap r).index) (sym e) ∙ v.indexed j q old)))
          (λ e. v.indexed j q old)
  ];
  placed = λ j q.
      store-split (λ x. x.index ≡ pos j → Watches (set s.watch_table i (some p)) j q) p q _ s.heap
        (λ e f.
          subst (λ k. Watches (set s.watch_table i (some p)) k q) (pos_inj f)
            (get_elem?-set_self s.watch_table i (some p) (inside s.watch_table i none free)
              ∙ ap (λ r. some (some r)) (sym e)))
        (λ e f.
          get_elem?-set_ne s.watch_table (some p) (λ h. other j q h (v.placed j q f))
          ∙ v.placed j q f);
  proper = λ j q w.
      store-split (λ x. pos 0 ≤ℤ x.fd) p q _ s.heap (λ e. fd)
        (λ h. v.proper j q (old_watch j q w h));
  covered = λ j q w.
      store-split (λ x. x.fd +ℤ pos 1 ≤ℤ raised (s.heap p).fd s.nfds) p q _ s.heap
        (λ e. (raise_le (s.heap p).fd s.nfds).0)
        (λ h. omega (arith, (raise_le (s.heap p).fd s.nfds).1, v.covered j q (old_watch j q w h)));
}
  where
    other : (j q : ℕ) → i ≡ j → Watches s.watch_table j q → ⊥
    other j q h w = cc

    -- a watch of another event is an old one
    old_watch :
        (j q : ℕ) → Watches (set s.watch_table i (some p)) j q → q ≢ p → Watches s.watch_table j q
    old_watch j q w h = elim (Watches-set s.watch_table i j q none (some p) free w) [
      | inl (e, f) ↦ absurd (h (sym (some-injective p q f)))
      | inr (h, old) ↦ old
    ]

-- Where the watches are valid, and an event has no slot yet and a descriptor that is not negative,
-- `ril_event_add` leaves them valid, also when all slots are taken.
pub ril_event_add-IsValid :
    (p : ℕ) (s : Loop)
    → IsValid s
    → ((j : ℕ) → (s.heap p).index ≢ pos j)
    → pos 0 ≤ℤ (s.heap p).fd
    → IsValid (ril_event_add p s)
unfolding ril_event_add add_at
ril_event_add-IsValid p s v away fd = elim (Option-cases (first_free s.watch_table)) [
  | inl e ↦ rw e v
  | inr (i, e) ↦
      subst (λ o. IsValid (add_at p o s)) (sym e)
        (add_at-IsValid p i s v (first_free-none s.watch_table i e) away fd)
]

largest_fd-least : (heap : Heap) (n : ℤ) (table : Table) → n ≤ℤ largest_fd heap n table
unfolding largest_fd
largest_fd-least heap n [] = omega arith
largest_fd-least heap n (none ∷ slots) = largest_fd-least heap n slots
largest_fd-least heap n (some p ∷ slots) =
    ground (arith, largest_fd-least heap (if ltb_ℤ n (heap p).fd then (heap p).fd else n) slots)

abbrev larger : ℤ → ℤ → ℤ
larger n fd = if ltb_ℤ n fd then fd else n

larger_le : (n fd : ℤ) → fd ≤ℤ larger n fd
larger_le n fd = ground arith

largest_fd-bound :
    (heap : Heap) (n : ℤ) (table : Table) (i p : ℕ)
    → Watches table i p
    → (heap p).fd ≤ℤ largest_fd heap n table
unfolding largest_fd
largest_fd-bound heap n [] zero p w = cc
largest_fd-bound heap n [] (suc i) p w = cc
largest_fd-bound heap n (none ∷ slots) zero p w = cc
largest_fd-bound heap n (none ∷ slots) (suc i) p w = largest_fd-bound heap n slots i p w
largest_fd-bound heap n (some q ∷ slots) zero p w =
    subst (λ r. (heap r).fd ≤ℤ largest_fd heap (larger n (heap q).fd) slots)
      (some-injective q p (some-injective (some q) (some p) w))
      (omega (arith, larger_le n (heap q).fd, largest_fd-least heap (larger n (heap q).fd) slots))
largest_fd-bound heap n (some q ∷ slots) (suc i) p w =
    largest_fd-bound heap (if ltb_ℤ n (heap q).fd then (heap q).fd else n) slots i p w

either_le : (x m n : ℤ) (b : Bool) → x ≤ℤ m → x ≤ℤ n → x ≤ℤ (if b then m else n)
either_le x m n true h k = h
either_le x m n false h k = k

-- `removeWatch` at the slot of an event.
pub remove_watch-IsValid :
    (p i : ℕ) (s : Loop) → IsValid s → Watches s.watch_table i p → IsValid (remove_watch p i s)
unfolding remove_watch
remove_watch-IsValid p i s v here = record {
  indexed = λ j q w.
      store-split (λ x. x.index ≡ pos j) p q _ s.heap (λ e. absurd ((old_watch j q w).1 e))
        (λ h. v.indexed j q (old_watch j q w).0);
  placed = λ j q.
      store-split (λ x. x.index ≡ pos j → Watches (set s.watch_table i none) j q) p q _ s.heap
        (λ e f. cc)
        (λ h f.
          get_elem?-set_ne s.watch_table none (λ e. h (
            some-injective q p (
              some-injective (some q) (some p)
                (sym (v.placed j q f) ∙ ap (get_elem? s.watch_table) (sym e) ∙ here))))
          ∙ v.placed j q f);
  proper = λ j q w.
      store-split (λ x. pos 0 ≤ℤ x.fd) p q _ s.heap (λ e. absurd ((old_watch j q w).1 e))
        (λ h. v.proper j q (old_watch j q w).0);
  covered = λ j q w.
      either_le _ _ _ (eq_ℤ ((s.heap p).fd +ℤ pos 1) s.nfds)
        (+ℤ_mono _ _ (pos 1) (pos 1) (largest_fd-bound _ (pos 0) (set s.watch_table i none) j q w)
          (omega arith))
        (store-split (λ x. x.fd +ℤ pos 1 ≤ℤ s.nfds) p q _ s.heap
          (λ e. absurd ((old_watch j q w).1 e)) (λ h. v.covered j q (old_watch j q w).0));
}
  where
    old_watch :
        (j q : ℕ) → Watches (set s.watch_table i none) j q → Watches s.watch_table j q × (q ≢ p)
    old_watch j q w = elim (Watches-set s.watch_table i j q (some p) none here w) [
      | inl (e, f) ↦ cc
      | inr (h, old) ↦ (
        old,
        λ e.
            h (
              pos_inj
                (sym (v.indexed j q old) ∙ ap (λ r. (s.heap r).index) e ∙ v.indexed i p here)),
      )
    ]

-- Where the watches are valid, `ril_event_del` leaves them valid; also of an event in no slot.
pub ril_event_del-IsValid : (p : ℕ) (s : Loop) → IsValid s → IsValid (ril_event_del p s)
unfolding ril_event_del del_at
ril_event_del-IsValid p s v = at_index (s.heap p).index refl
  where
    at_index : (n : ℤ) → (s.heap p).index ≡ n → IsValid (del_at p n s)
    at_index (negsuc n) e = v
    at_index (pos i) e = elim (Bool-cases (ltb i max_fd_events)) [
      | inl f ↦ rw f (remove_watch-IsValid p i s v (v.placed i p e))
      | inr f ↦ rw f v
    ]

no_watch : (n i p : ℕ) → Watches (replicate n none) i p → ⊥
no_watch zero i p w = cc
no_watch (suc n) zero p w = cc
no_watch (suc n) (suc i) p w = no_watch n i p w

-- After `ril_event_init` the watches are valid, where no event has a slot's index.
pub ril_event_init-IsValid :
    (s : Loop) → ((i p : ℕ) → (s.heap p).index ≢ pos i) → IsValid (ril_event_init s)
unfolding ril_event_init
ril_event_init-IsValid s away = record {
  indexed = λ i p w. absurd (no_watch max_fd_events i p w);
  placed = λ i p e. absurd (away i p e);
  proper = λ i p w. absurd (no_watch max_fd_events i p w);
  covered = λ i p w. absurd (no_watch max_fd_events i p w);
}
