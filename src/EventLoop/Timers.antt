-- ===== src/EventLoop/Timers.antt =====
-- The list of timers of libril/ril_event.cpp: it stays sorted, what is due leaves it, and the wait
-- ends at the first of them.
use mathlib.Core.Option
use platform_hardware_ril.Base.{
  ℕ, ◌<◌, ◌≡◌, ◌≢◌, refl, ap, ap₂, ◌∙◌, sym, Bool, true, false, not, some, List, [], ◌∷◌, ◌++◌, All,
  arith, if◌then◌else◌, inl, inr, Bool-cases,
}
use platform_hardware_ril.EventLoop.Times.{
  Time, time_lt, time_add, time_sub, time_lt-false, time_lt_trans, million,
}
use platform_hardware_ril.EventLoop.{
  Event, Heap, Loop, store, insert_timer, ril_timer_add, expire, process_timeouts,
  calc_next_timeout,
}

abbrev pub timeout_of : Heap → ℕ → Time
timeout_of heap p = (heap p).timeout

-- no timer is earlier than one in front of it
abbrev pub IsSorted : (ℕ → Time) → List ℕ → Type 0
IsSorted at [] = Unit
IsSorted at (p ∷ ps) = All (λ q. time_lt (at q) (at p) ≡ false) ps × IsSorted at ps

abbrev pub IsFresh : ℕ → List ℕ → Type 0
IsFresh p qs = All (λ q. q ≢ p) qs

-- The second list is the first with `p` put in somewhere.
pub data Inserts : ℕ → List ℕ → List ℕ → Type 0 where
  here : {p : ℕ} {qs : List ℕ} → Inserts p qs (p ∷ qs)
  later : {p q : ℕ} {qs rs : List ℕ} → Inserts p qs rs → Inserts p (q ∷ qs) (q ∷ rs)

All-map : {P Q : ℕ → Type 0} → ((q : ℕ) → P q → Q q) → (qs : List ℕ) → All P qs → All Q qs
All-map f [] h = tt
All-map f (q ∷ qs) (h, hs) = (f q h, All-map f qs hs)

insert_timer-All :
    (P : ℕ → Type 0) (at : ℕ → Time) (p : ℕ) (qs : List ℕ)
    → P p
    → All P qs
    → All P (insert_timer at p qs)
unfolding insert_timer
insert_timer-All P at p [] h hs = (h, tt)
insert_timer-All P at p (q ∷ qs) h (k, ks) = elim (Bool-cases (time_lt (at q) (at p))) [
  | inl e ↦ rw e (k, insert_timer-All P at p qs h ks)
  | inr e ↦ rw e (h, (k, ks))
]

insert_timer-IsSorted :
    (at : ℕ → Time) (p : ℕ) (qs : List ℕ) → IsSorted at qs → IsSorted at (insert_timer at p qs)
unfolding insert_timer
insert_timer-IsSorted at p [] h = (tt, tt)
insert_timer-IsSorted at p (q ∷ qs) (h, hs) = elim (Bool-cases (time_lt (at q) (at p))) [
  | inl e ↦ rw e (
    insert_timer-All (λ r. time_lt (at r) (at q) ≡ false) at p qs (time_lt-false (at q) (at p) e) h,
    insert_timer-IsSorted at p qs hs,
  )
  | inr e ↦ rw e ((e, All-map (λ r k. time_lt_trans (at p) (at q) (at r) e k) qs h), (h, hs))
]

insert_timer-Inserts : (at : ℕ → Time) (p : ℕ) (qs : List ℕ) → Inserts p qs (insert_timer at p qs)
unfolding insert_timer
insert_timer-Inserts at p [] = here
insert_timer-Inserts at p (q ∷ qs) = elim (Bool-cases (time_lt (at q) (at p))) [
  | inl e ↦ rw e (later (insert_timer-Inserts at p qs))
  | inr e ↦ rw e here
]

pub store-same : (p : ℕ) (e : Event) (heap : Heap) → store p e heap p ≡ e
unfolding store
store-same p e heap = ground arith

pub store-other : (p q : ℕ) (e : Event) (heap : Heap) → q ≢ p → store p e heap q ≡ heap q
unfolding store
store-other p q e heap h = ground arith

-- A store outside a list of timers leaves it sorted.
IsSorted-agree :
    (at at' : ℕ → Time) (qs : List ℕ)
    → All (λ q. at' q ≡ at q) qs
    → IsSorted at qs
    → IsSorted at' qs
IsSorted-agree at at' [] h k = tt
IsSorted-agree at at' (q ∷ qs) (h, hs) (k, ks) = (first qs hs k, IsSorted-agree at at' qs hs ks)
  where
    first :
        (rs : List ℕ)
        → All (λ r. at' r ≡ at r) rs
        → All (λ r. time_lt (at r) (at q) ≡ false) rs
        → All (λ r. time_lt (at' r) (at' q) ≡ false) rs
    first [] es fs = tt
    first (r ∷ rs) (e, es) (f, fs) = (ap₂ time_lt e h ∙ f, first rs es fs)

-- Where `p` is on no list of timers and the timers are sorted, `ril_timer_add` with a time puts `p`
-- into the list, takes nothing out, leaves the list sorted, and sets its timeout to now plus tv.
pub ril_timer_add-IsSorted :
    (now tv : Time) (p : ℕ) (s : Loop)
    → IsFresh p s.timer_list
    → IsSorted (timeout_of s.heap) s.timer_list
    → IsSorted
        (timeout_of (ril_timer_add now p (some tv) s).heap)
        (ril_timer_add now p (some tv) s).timer_list
      × Inserts p s.timer_list (ril_timer_add now p (some tv) s).timer_list
      × (timeout_of (ril_timer_add now p (some tv) s).heap p ≡ time_add now tv)
unfolding ril_timer_add
ril_timer_add-IsSorted now tv p s fresh sorted = (
  insert_timer-IsSorted at p s.timer_list (
      IsSorted-agree (timeout_of s.heap) at s.timer_list
        (All-map (λ q h. ap (λ e. e.timeout) (store-other p q _ s.heap h)) s.timer_list fresh)
        sorted),
  insert_timer-Inserts at p s.timer_list,
  ap (λ e. e.timeout) (store-same p _ s.heap),
)
  where
    at : ℕ → Time
    at = timeout_of (ril_timer_add now p (some tv) s).heap

-- the members that pass a test, in their order
abbrev pub keep : (ℕ → Bool) → List ℕ → List ℕ
keep test [] = []
keep test (p ∷ ps) = let rest = keep test ps in if test p then p ∷ rest else rest

keep-All : (test : ℕ → Bool) (ps : List ℕ) → All (λ p. test p ≡ true) ps → keep test ps ≡ ps
keep-All test [] h = refl
keep-All test (p ∷ ps) (h, hs) = rw h (ap (◌∷◌ p) (keep-All test ps hs))

keep_none : (test : ℕ → Bool) (ps : List ℕ) → All (λ p. test p ≡ false) ps → keep test ps ≡ []
keep_none test [] h = refl
keep_none test (p ∷ ps) (h, hs) = rw h (keep_none test ps hs)

pub append_assoc : (ps qs rs : List ℕ) → (ps ++ qs) ++ rs ≡ ps ++ (qs ++ rs)
append_assoc [] qs rs = refl
append_assoc (p ∷ ps) qs rs = ap (◌∷◌ p) (append_assoc ps qs rs)

pub append-nil : (ps : List ℕ) → ps ++ [] ≡ ps
append-nil [] = refl
append-nil (p ∷ ps) = ap (◌∷◌ p) (append-nil ps)

-- a timer that is due at a time: its timeout is past
abbrev pub is_due : Heap → Time → ℕ → Bool
is_due heap now p = time_lt (heap p).timeout now

abbrev pub is_early : Heap → Time → ℕ → Bool
is_early heap now p = not (is_due heap now p)

expire-split :
    (heap : Heap) (now : Time) (ps pending : List ℕ)
    → IsSorted (timeout_of heap) ps
    → expire heap now ps pending
      ≡ (keep (is_early heap now) ps, pending ++ keep (is_due heap now) ps)
unfolding expire
expire-split heap now [] pending h = ap (λ qs. ([], qs)) (sym (append-nil pending))
expire-split heap now (p ∷ ps) pending (h, hs) = elim (Bool-cases (is_due heap now p)) [
  | inl e ↦ rw e (
      expire-split heap now ps (pending ++ p ∷ []) hs
      ∙ ap (λ qs. (keep (is_early heap now) ps, qs))
          (append_assoc pending (p ∷ []) (keep (is_due heap now) ps)))
  | inr e ↦ rw e (
      ap₂ (λ qs rs. (p ∷ qs, rs)) (sym (keep-All (is_early heap now) ps (early e)))
        (sym (append-nil pending)
          ∙ ap (◌++◌ pending) (sym (keep_none (is_due heap now) ps (late e)))))
]
  where
    late : is_due heap now p ≡ false → All (λ q. is_due heap now q ≡ false) ps
    late e = All-map (λ q k. time_lt_trans now (heap p).timeout (heap q).timeout e k) ps h

    early : is_due heap now p ≡ false → All (λ q. is_early heap now q ≡ true) ps
    early e = All-map (λ q k. ap not k) ps (late e)

-- On a sorted list of timers `processTimeouts` moves exactly those whose timeout is past to the end
-- of the pending list, in their order, and leaves the others, in their order.
pub process_timeouts_splits :
    (now : Time) (s : Loop)
    → IsSorted (timeout_of s.heap) s.timer_list
    → ((process_timeouts now s).timer_list ≡ keep (is_early s.heap now) s.timer_list)
      × ((process_timeouts now s).pending_list
          ≡ s.pending_list ++ keep (is_due s.heap now) s.timer_list)
unfolding process_timeouts
process_timeouts_splits now s h = (ap (λ r. r.0) split, ap (λ r. r.1) split)
  where
    split : expire s.heap now s.timer_list s.pending_list ≡ (
      keep (is_early s.heap now) s.timer_list,
      s.pending_list ++ keep (is_due s.heap now) s.timer_list,
    )
    split = expire-split s.heap now s.timer_list s.pending_list h

time_add-sub :
    (a b : Time)
    → a.tv_usec < million
    → b.tv_usec < million
    → time_lt b a ≡ true
    → time_add b (time_sub a b) ≡ a
unfolding time_add time_sub time_lt
time_add-sub a b h k e = grind arith

expire-on_time :
    (heap : Heap) (p : ℕ) (ps pending : List ℕ)
    → expire heap (heap p).timeout (p ∷ ps) pending ≡ (p ∷ ps, pending)
unfolding expire time_lt
expire-on_time heap p ps pending = ground arith

-- While the first timer is in the future, `calcNextTimeout` gives the time that reaches its timeout
-- exactly, and `processTimeouts` at that very time still moves nothing: the timer stays.
pub calc_next_timeout_stays :
    (now : Time) (p : ℕ) (ps : List ℕ) (s : Loop)
    → s.timer_list ≡ p ∷ ps
    → now.tv_usec < million
    → (s.heap p).timeout.tv_usec < million
    → time_lt now (s.heap p).timeout ≡ true
    → (Option.map (time_add now) (calc_next_timeout now s) ≡ some (s.heap p).timeout)
      × ((process_timeouts (s.heap p).timeout s).timer_list ≡ s.timer_list)
      × ((process_timeouts (s.heap p).timeout s).pending_list ≡ s.pending_list)
unfolding calc_next_timeout process_timeouts
calc_next_timeout_stays now p ps s e h k ahead = (
  rw (e, ahead) (ap some (time_add-sub (s.heap p).timeout now k h ahead)),
  ap (λ r. r.0) stays,
  ap (λ r. r.1) stays,
)
  where
    stays :
        expire s.heap (s.heap p).timeout s.timer_list s.pending_list
        ≡ (s.timer_list, s.pending_list)
    stays = rw e (expire-on_time s.heap p ps s.pending_list)
