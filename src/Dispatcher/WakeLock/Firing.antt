-- ===== src/Dispatcher/WakeLock/Firing.antt =====
-- The steps of `userTimerCallback`, between which other threads run: the callback, the test of the
-- last timer, and the `free`.
use platform_hardware_ril.Dispatcher.WakeLock.{cancel_last}
use platform_hardware_ril.Base.{
  ℕ, ◌≡◌, ◌≢◌, ◌≤◌, inl, inr, refl, sym, ap, ◌∙◌, subst, Bool, true, false, Option, none, some,
  List, ◌∷◌, ltb, ◌==◌, ==_iff, Bool-cases,
}
use mathlib.Core.Option.{some-injective}
use platform_hardware_ril.EventLoop.Times.{Time}
use platform_hardware_ril.Dispatcher.WakeLock.{
  TimedCallback, wake_timeout, vendor, Info, Wake, Call, acquire_wake_lock, release_wake_lock,
  trigger_ev_loop, request_at, internal_request_timed_callback, replace_last, count_grab,
  grab_partial_wake_lock, release_counted, release_lock, wake_timeout_callback, run_callback,
  free_at, forget_last, free_info, ril_request_timed_callback, points_at,
}
use platform_hardware_ril.Dispatcher.WakeLock.Infos.{
  find, find-free_at_other, cancel_last-allocated,
}
use platform_hardware_ril.Dispatcher.WakeLock.Invariant.{
  leb_old, timer, IsArmed, IsValid, Allocates, keep-PointsAtTimer, keep-IsArmed,
}
use platform_hardware_ril.Dispatcher.WakeLock.Queue.{Queued, take_pending, take-Queued}

-- Where `userTimerCallback` stands in the thread of the event loop: it is not running, or, for the
-- structure at an address, behind the callback, or behind the test of the last timer.
pub data Phase : Type 0 where
  idle : Phase
  called forgotten : ℕ → Phase

-- The structure is still allocated. Behind the callback it is not the last timer of a lock that is
-- held, and behind the test it is not the last timer.
abbrev pub InFlight : Phase → Wake → Type 0
InFlight idle w = Unit
InFlight (called p) w = (find p w.infos ≢ none) × (w.last ≡ some p → w.held ≡ false)
InFlight (forgotten p) w = (find p w.infos ≢ none) × (w.last ≢ some p)

-- The last timer of a lock that is held is not cancelled.
armed-found :
    (held : Bool) (last : Option ℕ) (p : ℕ) (is : List Info)
    → IsArmed held last is
    → last ≡ some p
    → held ≡ true
    → find p is ≡ some (timer p false)
armed-found false last p is a e h = cc
armed-found true none p is a e h = cc
armed-found true (some q) p is a e h =
    subst (λ r. find r is ≡ some (timer r false)) (some-injective q p e) a

not_held :
    (w : Wake) (i : Info) (p : ℕ)
    → IsValid w
    → find p w.infos ≡ some i
    → i ≢ timer p false
    → w.last ≡ some p
    → w.held ≡ false
not_held w i p v there n e = elim (Bool-cases w.held) [
  | inl h ↦ absurd (
      n (
        some-injective i (timer p false)
          (sym there ∙ armed-found w.held w.last p w.infos v.armed e h)))
  | inr h ↦ h
]

pub take-IsValid : (ps : List ℕ) (w : Wake) → IsValid w → IsValid (take_pending ps w)
unfolding take_pending
take-IsValid ps w v = record {
  new_version = v.new_version;
  counted = v.counted;
  pointed = v.pointed;
  armed = v.armed;
}

-- what holds behind the callback
abbrev pub Called : ℕ → Wake → Type 0
Called p w = IsValid w × Queued w × InFlight (called p) w

-- The callback of the first of the pending events.
pub run-Called :
    (p : ℕ) (ps : List ℕ) (callback : TimedCallback) (param_set : Bool) (w : Wake)
    → IsValid w
    → Queued w
    → w.loop.pending_list ≡ p ∷ ps
    → find p w.infos ≡ some (record { address = p; callback = callback; param_set = param_set })
    → Called p (
        run_callback
          (record { address = p; callback = callback; param_set = param_set })
          (take_pending ps w))
unfolding run_callback wake_timeout_callback release_wake_lock take_pending
run-Called p ps (vendor f) param_set w v q e there = (
  record { new_version = v.new_version; counted = v.counted; pointed = v.pointed; armed = v.armed },
  unfold take_pending in take-Queued p ps w e off q,
  (λ n. cc, off),
)
  where
    off : w.last ≡ some p → w.held ≡ false
    off = not_held w _ p v there (λ n. cc)
run-Called p ps wake_timeout true w v q e there = (
  record { new_version = v.new_version; counted = v.counted; pointed = v.pointed; armed = v.armed },
  unfold take_pending in take-Queued p ps w e off q,
  (λ n. cc, off),
)
  where
    off : w.last ≡ some p → w.held ≡ false
    off = not_held w _ p v there (λ n. cc)
run-Called p ps wake_timeout false w v q e there = rw (leb_old w.version v.new_version) (
  record { new_version = v.new_version; counted = refl; pointed = v.pointed; armed = tt },
  tt,
  (λ n. cc, λ n. refl),
)

points : (last : Option ℕ) (p : ℕ) → points_at last p ≡ true → last ≡ some p
points none p e = cc
points (some q) p e = ap some ((==_iff q p).0 e)

points_not : (last : Option ℕ) (p : ℕ) → points_at last p ≡ false → last ≢ some p
points_not none p e = λ f. cc
points_not (some q) p e = λ f. cc ((==_iff q p).1 (some-injective q p f))

pub forget-IsValid :
    (p : ℕ) (w : Wake)
    → IsValid w
    → InFlight (called p) w
    → IsValid (forget_last p w) × InFlight (forgotten p) (forget_last p w)
unfolding forget_last
forget-IsValid p w v (there, off) = elim (Bool-cases (points_at w.last p)) [
  | inl e ↦ rw e (
    record {
      new_version = v.new_version;
      counted = v.counted;
      pointed = tt;
      armed = subst (λ held. IsArmed held none w.infos) (sym (off (points w.last p e))) tt;
    },
    (there, λ f. cc),
  )
  | inr e ↦ rw e (v, (there, points_not w.last p e))
]

pub free-IsValid :
    (p : ℕ) (w : Wake) → IsValid w → InFlight (forgotten p) w → IsValid (free_info p w)
unfolding free_info
free-IsValid p w v (there, off) = record {
  new_version = v.new_version;
  counted = v.counted;
  pointed = keep-PointsAtTimer w.last w.infos _ kept v.pointed;
  armed = keep-IsArmed w.held w.last w.infos _ kept v.armed;
}
  where
    kept :
        (q : ℕ) (j : Info)
        → w.last ≡ some q
        → find q w.infos ≡ some j
        → find q (free_at p w.infos) ≡ some j
    kept q j e h = find-free_at_other q p w.infos (λ f. off (e ∙ ap some f)) ∙ h

-- What other threads do leaves the structure allocated, and does not make it the last timer of a lock
-- that is held.
cons-allocated : (p : ℕ) (i : Info) (is : List Info) → find p is ≢ none → find p (i ∷ is) ≢ none
cons-allocated p i is h = elim (Bool-cases (i.address == p)) [
  | inl e ↦ rw e (λ f. cc)
  | inr e ↦ rw e h
]

-- as far as the phase tells, another state keeps the structure and does not point at it
keeps-InFlight :
    (f : Phase) (w w' : Wake)
    → ((p : ℕ) → find p w.infos ≢ none → find p w'.infos ≢ none)
    → ((p : ℕ)
        → find p w.infos ≢ none
        → w'.last ≡ some p
        → (w.last ≡ some p) × (w.held ≡ false → w'.held ≡ false))
    → InFlight f w
    → InFlight f w'
keeps-InFlight idle w w' k l h = tt
keeps-InFlight (called p) w w' k l (there, off) =
    (k p there, λ e. let (old, still) = l p there e in still (off old))
keeps-InFlight (forgotten p) w w' k l (there, off) = (k p there, λ e. off (l p there e).0)

pub grab-InFlight :
    (call : Call) (q : ℕ) (f : Phase) (w : Wake)
    → 13 ≤ w.version
    → Allocates call q w
    → InFlight f w
    → InFlight f (grab_partial_wake_lock call w)
unfolding grab_partial_wake_lock count_grab internal_request_timed_callback request_at
    trigger_ev_loop replace_last acquire_wake_lock
grab-InFlight call q f w n (a, fresh) h =
    rw (leb_old w.version n, a)
      (elim (Bool-cases call.on_loop_thread) [
        | inl e ↦ rw e (keeps-InFlight f w _ allocated fresh_last h)
        | inr e ↦ rw e (keeps-InFlight f w _ allocated fresh_last h)
      ])
  where
    allocated :
        (p : ℕ)
        → find p w.infos ≢ none
        → find p (cancel_last w.last (timer q false ∷ w.infos)) ≢ none
    allocated p h = cancel_last-allocated p w.last _ (cons-allocated p (timer q false) w.infos h)

    fresh_last :
        (p : ℕ)
        → find p w.infos ≢ none
        → some q ≡ some p
        → (w.last ≡ some p) × (w.held ≡ false → true ≡ false)
    fresh_last p h e = absurd (h (subst (λ r. find r w.infos ≡ none) (some-injective q p e) fresh))

pub release-InFlight :
    (f : Phase) (w : Wake) → 13 ≤ w.version → InFlight f w → InFlight f (release_lock w)
unfolding release_lock release_counted release_wake_lock
release-InFlight f w n h = rw (leb_old w.version n) (elim (Bool-cases (ltb 1 w.count)) [
  | inl e ↦ rw e (keeps-InFlight f w _ (λ p k. k) (λ p k l. (l, λ m. m)) h)
  | inr e ↦ rw e (
      keeps-InFlight f w _ (λ p k. cancel_last-allocated p w.last w.infos k)
        (λ p k l. (l, λ m. refl)) h)
])

pub request-InFlight :
    (call : Call) (g p : ℕ) (param_set : Bool) (relative : Option Time) (f : Phase) (w : Wake)
    → call.allocated ≡ some p
    → InFlight f w
    → InFlight f (ril_request_timed_callback call g param_set relative w)
unfolding ril_request_timed_callback internal_request_timed_callback request_at trigger_ev_loop
request-InFlight call g p param_set relative f w a h = rw a (elim (Bool-cases call.on_loop_thread) [
  | inl e ↦
      rw e (keeps-InFlight f w _ (λ q k. cons-allocated q _ w.infos k) (λ q k l. (l, λ m. m)) h)
  | inr e ↦
      rw e (keeps-InFlight f w _ (λ q k. cons-allocated q _ w.infos k) (λ q k l. (l, λ m. m)) h)
])
