-- ===== src/Dispatcher/WakeLock/Invariant.antt =====
-- The wake lock with RIL version 13 or later: it is counted, and the latest timer always stands
-- behind it.
use platform_hardware_ril.Base.{
  ==_iff, ℕ, ◌≤◌, ◌≡◌, refl, ap, ◌∙◌, inl, inr, Bool, true, false, Option, none, some, List, ◌∷◌,
  arith, ltb, leb, ◌==◌, Bool-cases,
}
use platform_hardware_ril.EventLoop.Times.{Time}
use platform_hardware_ril.Dispatcher.WakeLock.{
  wake_timeout, vendor, Info, Wake, Call, acquire_wake_lock, release_wake_lock, cancel_last,
  trigger_ev_loop, request_at, internal_request_timed_callback, replace_last, count_grab,
  grab_partial_wake_lock, release_counted, release_lock, ril_request_timed_callback,
}
use platform_hardware_ril.Dispatcher.WakeLock.Infos.{
  find, find-cancel_at_same, find-cancel_at_other,
}

-- the structure of a wake-lock timer
abbrev pub timer : ℕ → Bool → Info
timer p param_set = record { address = p; callback = wake_timeout; param_set = param_set }

-- The pointer to the last timer is NULL or points at one that is not freed.
abbrev pub PointsAtTimer : Option ℕ → List Info → Type 0
PointsAtTimer none is = Unit
PointsAtTimer (some p) is = (b : Bool) × (find p is ≡ some (timer p b))

-- While the lock is held, the last timer is pending and not cancelled.
abbrev pub IsArmed : Bool → Option ℕ → List Info → Type 0
IsArmed false last is = Unit
IsArmed true none is = ⊥
IsArmed true (some p) is = find p is ≡ some (timer p false)

pub record IsValid (w : Wake) : Type 0 where
  pub new_version : 13 ≤ w.version
  pub counted : w.held ≡ ltb 0 w.count
  pub pointed : PointsAtTimer w.last w.infos
  pub armed : IsArmed w.held w.last w.infos

-- A cancelled timer is still there.
cancel_last-PointsAtTimer :
    (last : Option ℕ) (is : List Info)
    → PointsAtTimer last is
    → PointsAtTimer last (cancel_last last is)
unfolding cancel_last
cancel_last-PointsAtTimer none is h = tt
cancel_last-PointsAtTimer (some p) is (b, h) = (true, find-cancel_at_same p is (timer p b) h)

-- Behind a timer just allocated, the one before it is cancelled and the new one is not.
find-cancel_last-new :
    (last : Option ℕ) (p : ℕ) (is : List Info)
    → PointsAtTimer last is
    → find p is ≡ none
    → find p (cancel_last last (timer p false ∷ is)) ≡ some (timer p false)
unfolding cancel_last
find-cancel_last-new none p is h fresh = ground arith
find-cancel_last-new (some q) p is (b, h) fresh =
    find-cancel_at_other p q (timer p false ∷ is) (λ e. cc) ∙ ground arith

pub leb_old : (v : ℕ) → 13 ≤ v → leb 13 v ≡ true
leb_old v h = ground arith

-- what the system gives to a call that allocates at an address
abbrev pub Allocates : Call → ℕ → Wake → Type 0
Allocates call p w = (call.allocated ≡ some p) × (find p w.infos ≡ none)

-- `grabPartialWakeLock` holds the lock, counts it, and arms a timer of its own.
pub grab-IsValid :
    (call : Call) (p : ℕ) (w : Wake)
    → IsValid w
    → Allocates call p w
    → IsValid (grab_partial_wake_lock call w)
unfolding grab_partial_wake_lock count_grab internal_request_timed_callback request_at
    trigger_ev_loop replace_last acquire_wake_lock
grab-IsValid call p w v (a, fresh) =
    rw (leb_old w.version v.new_version, a)
      (elim (Bool-cases call.on_loop_thread) [
        | inl e ↦ rw e (record {
          new_version = v.new_version;
          counted = ground arith;
          pointed = (false, armed);
          armed = armed;
        })
        | inr e ↦ rw e (record {
          new_version = v.new_version;
          counted = ground arith;
          pointed = (false, armed);
          armed = armed;
        })
      ])
  where
    armed : find p (cancel_last w.last (timer p false ∷ w.infos)) ≡ some (timer p false)
    armed = find-cancel_last-new w.last p w.infos v.pointed fresh

pub release-IsValid : (w : Wake) → IsValid w → IsValid (release_lock w)
unfolding release_lock release_counted release_wake_lock
release-IsValid w v = rw (leb_old w.version v.new_version) (elim (Bool-cases (ltb 1 w.count)) [
  | inl e ↦ rw e (record {
    new_version = v.new_version;
    counted = ground (arith, v.counted);
    pointed = v.pointed;
    armed = v.armed;
  })
  | inr e ↦ rw e (record {
    new_version = v.new_version;
    counted = refl;
    pointed = cancel_last-PointsAtTimer w.last w.infos v.pointed;
    armed = tt;
  })
])

-- What is found stays found in a longer or a shorter list.
pub keep-PointsAtTimer :
    (last : Option ℕ) (is is' : List Info)
    → ((q : ℕ) (j : Info) → last ≡ some q → find q is ≡ some j → find q is' ≡ some j)
    → PointsAtTimer last is
    → PointsAtTimer last is'
keep-PointsAtTimer none is is' f h = tt
keep-PointsAtTimer (some q) is is' f (b, h) = (b, f q (timer q b) refl h)

pub keep-IsArmed :
    (held : Bool) (last : Option ℕ) (is is' : List Info)
    → ((q : ℕ) (j : Info) → last ≡ some q → find q is ≡ some j → find q is' ≡ some j)
    → IsArmed held last is
    → IsArmed held last is'
keep-IsArmed false last is is' f h = tt
keep-IsArmed true none is is' f h = h
keep-IsArmed true (some q) is is' f h = f q (timer q false) refl h

find-new :
    (i : Info) (is : List Info) (q : ℕ) (j : Info)
    → find i.address is ≡ none
    → find q is ≡ some j
    → find q (i ∷ is) ≡ some j
find-new i is q j fresh h = elim (Bool-cases (i.address == q)) [
  | inl e ↦ absurd (cc (ap (λ r. find r is) ((==_iff i.address q).0 e)))
  | inr e ↦ rw e h
]

-- Another structure allocated.
pub request-IsValid :
    (call : Call) (f p : ℕ) (param_set : Bool) (relative : Option Time) (w : Wake)
    → IsValid w
    → Allocates call p w
    → IsValid (ril_request_timed_callback call f param_set relative w)
unfolding ril_request_timed_callback internal_request_timed_callback request_at trigger_ev_loop
request-IsValid call f p param_set relative w v (a, fresh) =
    rw a (elim (Bool-cases call.on_loop_thread) [
      | inl e ↦ rw e (record {
        new_version = v.new_version;
        counted = v.counted;
        pointed = keep-PointsAtTimer w.last w.infos _ kept v.pointed;
        armed = keep-IsArmed w.held w.last w.infos _ kept v.armed;
      })
      | inr e ↦ rw e (record {
        new_version = v.new_version;
        counted = v.counted;
        pointed = keep-PointsAtTimer w.last w.infos _ kept v.pointed;
        armed = keep-IsArmed w.held w.last w.infos _ kept v.armed;
      })
    ])
  where
    new : Info
    new = record { address = p; callback = vendor f; param_set = param_set }

    kept :
        (q : ℕ) (j : Info)
        → w.last ≡ some q
        → find q w.infos ≡ some j
        → find q (new ∷ w.infos) ≡ some j
    kept q j e h = find-new new w.infos q j fresh h
