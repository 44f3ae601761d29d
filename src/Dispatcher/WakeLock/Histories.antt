-- ===== src/Dispatcher/WakeLock/Histories.antt =====
-- The wake lock over all histories of calls and timers, for RIL version 13 or later. What takes the mutex
-- of the wake lock is one step; `userTimerCallback`, which takes none, is three, and the other threads
-- run between them.
use platform_hardware_ril.Dispatcher.WakeLock.{TimedCallback, free_info}
use platform_hardware_ril.Dispatcher.WakeLock.Queue.{forget-Queued, free-Queued}
use platform_hardware_ril.Dispatcher.WakeLock.Firing.{
  InFlight, Phase, called, forget-IsValid, forgotten, free-IsValid, grab-InFlight, idle,
  release-InFlight, request-InFlight, run-Called,
}
use platform_hardware_ril.Base.{List, ◌∷◌}
use platform_hardware_ril.Dispatcher.WakeLock.Queue.{
  InLoop, IsQueued, Queued, grab-Queued, release-Queued, request-Queued, take_pending, time_out,
  time_out-Queued,
}
use platform_hardware_ril.Base.{
  Bool-cases, inl, inr, ℕ, ◌≤◌, ◌<◌, ◌≡◌, refl, sym, subst, Bool, true, false, Option, none, some,
  arith, ltb,
}
use platform_hardware_ril.EventLoop.Times.{Time}
use platform_hardware_ril.Dispatcher.WakeLock.{
  points_at, Wake, Call, grab_partial_wake_lock, release_lock, user_timer_callback,
  ril_request_timed_callback, wake_timeout_callback, run_callback, forget_last, release_wake_lock,
  count_grab, internal_request_timed_callback, acquire_wake_lock,
}
use platform_hardware_ril.Dispatcher.WakeLock.Infos.{find}
use platform_hardware_ril.Dispatcher.WakeLock.Invariant.{
  IsValid, PointsAtTimer, IsArmed, Allocates, timer, grab-IsValid, release-IsValid, request-IsValid,
  leb_old,
}

-- A wake lock is grabbed or released, or the vendor's library asks for a timed callback, whatever the
-- thread of the event loop does. That thread moves the timers that are due to its pending list; or it
-- takes the first of that list and calls its callback, tests and clears the pointer to the last
-- timer, and frees the structure. Every allocation succeeds. The events that are no timers are left
-- out.
pub data Step (w w' : Wake) : Phase → Phase → Type 0 where
  grabs :
      {f : Phase} (call : Call) (p : ℕ)
      → Allocates call p w
      → w' ≡ grab_partial_wake_lock call w
      → Step w w' f f
  releases : {f : Phase} → w' ≡ release_lock w → Step w w' f f
  asks :
      {f : Phase} (call : Call) (g p : ℕ) (param_set : Bool) (relative : Option Time)
      → Allocates call p w
      → w' ≡ ril_request_timed_callback call g param_set relative w
      → Step w w' f f
  expires : (now : Time) → w' ≡ time_out now w → Step w w' idle idle
  calls :
      (p : ℕ) (ps : List ℕ) (callback : TimedCallback) (param_set : Bool)
      → w.loop.pending_list ≡ p ∷ ps
      → find p w.infos ≡ some (record { address = p; callback = callback; param_set = param_set })
      → w'
        ≡ run_callback
            (record { address = p; callback = callback; param_set = param_set })
            (take_pending ps w)
      → Step w w' idle (called p)
  forgets : (p : ℕ) → w' ≡ forget_last p w → Step w w' (called p) (forgotten p)
  frees : (p : ℕ) → w' ≡ free_info p w → Step w w' (forgotten p) idle

pub data Reach (s : Wake) : Wake → Phase → Type 0 where
  here : Reach s s idle
  next : {w w' : Wake} {f f' : Phase} → Reach s w f → Step w w' f f' → Reach s w' f'

pub record IsGood (f : Phase) (w : Wake) : Type 0 where
  pub valid : IsValid w
  pub queued : Queued w
  pub in_flight : InFlight f w

time_out-IsValid : (now : Time) (w : Wake) → IsValid w → IsValid (time_out now w)
unfolding time_out
time_out-IsValid now w v = record {
  new_version = v.new_version;
  counted = v.counted;
  pointed = v.pointed;
  armed = v.armed;
}

Step-IsGood : {w w' : Wake} {f f' : Phase} → Step w w' f f' → IsGood f w → IsGood f' w'
Step-IsGood {w} {w'} (grabs {f} call p a e) g = subst (IsGood f) (sym e) (record {
  valid = grab-IsValid call p w g.valid a;
  queued = grab-Queued call p w g.valid.new_version a.0;
  in_flight = grab-InFlight call p f w g.valid.new_version a g.in_flight;
})
Step-IsGood {w} {w'} (releases {f} e) g = subst (IsGood f) (sym e) (record {
  valid = release-IsValid w g.valid;
  queued = release-Queued w g.valid.new_version g.queued;
  in_flight = release-InFlight f w g.valid.new_version g.in_flight;
})
Step-IsGood {w} {w'} (asks {f} call h p param_set relative a e) g =
    subst (IsGood f) (sym e) (record {
      valid = request-IsValid call h p param_set relative w g.valid a;
      queued = request-Queued call h p param_set relative w a.0 g.queued;
      in_flight = request-InFlight call h p param_set relative f w a.0 g.in_flight;
    })
Step-IsGood {w} {w'} (expires now e) g = subst (IsGood idle) (sym e) (record {
  valid = time_out-IsValid now w g.valid;
  queued = time_out-Queued now w g.queued;
  in_flight = tt;
})
Step-IsGood {w} {w'} (calls p ps callback param_set first there e) g =
    let (valid, queued, in_flight) =
      run-Called p ps callback param_set w g.valid g.queued first there in
    subst (IsGood (called p)) (sym e)
      (record { valid = valid; queued = queued; in_flight = in_flight })
Step-IsGood {w} {w'} (forgets p e) g =
    let (valid, in_flight) = forget-IsValid p w g.valid g.in_flight in
    subst (IsGood (forgotten p)) (sym e)
      (record { valid = valid; queued = forget-Queued p w g.queued; in_flight = in_flight })
Step-IsGood {w} {w'} (frees p e) g = subst (IsGood idle) (sym e) (record {
  valid = free-IsValid p w g.valid g.in_flight;
  queued = free-Queued p w g.queued;
  in_flight = tt;
})

Reach-IsGood : {s w : Wake} {f : Phase} → IsGood idle s → Reach s w f → IsGood f w
Reach-IsGood g here = g
Reach-IsGood g (next r st) = Step-IsGood st (Reach-IsGood g r)

-- `IsFree`: no lock is held and nothing is pending, as at the start.
pub record IsFree (w : Wake) : Type 0 where
  pub new_version : 13 ≤ w.version
  pub not_held : w.held ≡ false
  pub no_count : w.count ≡ 0
  pub no_timer : w.last ≡ none

pub IsFree-IsValid : (w : Wake) → IsFree w → IsValid w
IsFree-IsValid w f = record {
  new_version = f.new_version;
  counted = ground (arith, f.not_held, f.no_count);
  pointed = subst (λ last. PointsAtTimer last w.infos) (sym f.no_timer) tt;
  armed = subst (λ held. IsArmed held w.last w.infos) (sym f.not_held) tt;
}

IsFree-IsGood : (w : Wake) → IsFree w → IsGood idle w
IsFree-IsGood w f = record {
  valid = IsFree-IsValid w f;
  queued = subst (λ held. IsQueued held w.last w.loop) (sym f.not_held) tt;
  in_flight = tt;
}

-- With RIL version 13 or later, where every allocation succeeds, and with the three parts of
-- `userTimerCallback` and every other function as a step each: in every history that starts with nothing
-- pending, whatever is grabbed, released or asked for and whenever timers are due and fire, the lock is
-- held exactly while the count is not 0, and the pointer to the last timer is NULL or points at a timer
-- that is not freed.
pub Reach-counted :
    (s w : Wake) (f : Phase)
    → IsFree s
    → Reach s w f
    → (w.held ≡ ltb 0 w.count) × PointsAtTimer w.last w.infos
Reach-counted s w f free r =
    let v : IsValid w = (Reach-IsGood (IsFree-IsGood s free) r).valid in (v.counted, v.pointed)

-- The timer of a state gives the lock back: it is the last one, it is not freed, the event loop has it
-- among the timers that wait or those that are about to be called back, and after its callback the
-- lock is not held and the count is 0.
abbrev pub GivesBack : Wake → ℕ → Type 0
GivesBack w p =
    (w.last ≡ some p)
    × (find p w.infos ≡ some (timer p false))
    × InLoop p w.loop
    × ((user_timer_callback (timer p false) w).held ≡ false)
    × ((user_timer_callback (timer p false) w).count ≡ 0)

fired-held :
    (p : ℕ) (w : Wake)
    → 13 ≤ w.version
    → ((user_timer_callback (timer p false) w).held ≡ false)
      × ((user_timer_callback (timer p false) w).count ≡ 0)
unfolding user_timer_callback run_callback wake_timeout_callback release_wake_lock forget_last
    free_info
fired-held p w h = rw (leb_old w.version h) (elim (Bool-cases (points_at w.last p)) [
  | inl e ↦ rw e (refl, refl)
  | inr e ↦ rw e (refl, refl)
])

held-GivesBack :
    (w : Wake) (held : Bool) (last : Option ℕ)
    → IsValid w
    → w.last ≡ last
    → held ≡ true
    → IsArmed held last w.infos
    → IsQueued held last w.loop
    → (p : ℕ) × GivesBack w p
held-GivesBack w false last v e h a q = cc
held-GivesBack w true none v e h a q = absurd a
held-GivesBack w true (some p) v e h a q =
    let (not_held, no_count) = fired-held p w v.new_version in (p, (e, a, q, not_held, no_count))

-- With RIL version 13 or later, where every allocation succeeds, and with the three parts of
-- `userTimerCallback` and every other function as a step each: in every state of such a history in which
-- the lock is held, the event loop has a timer, waiting or about to be called back, whose structure is
-- allocated and not cancelled and whose callback gives the lock back.
pub Reach-GivesBack :
    (s w : Wake) (f : Phase) → IsFree s → Reach s w f → w.held ≡ true → (p : ℕ) × GivesBack w p
Reach-GivesBack s w f free r h =
    let g : IsGood f w = Reach-IsGood (IsFree-IsGood s free) r in
    held-GivesBack w w.held w.last g.valid refl h g.valid.armed g.queued

-- In such a history, where the lock is held and `calloc` then fails in `grabPartialWakeLock`, the lock
-- is given back though the count is not 0: those who grabbed it before no longer hold it, and the
-- lock is no longer held exactly while the count is not 0.
pub grab_no_memory :
    (call : Call) (s w : Wake) (f : Phase)
    → IsFree s
    → Reach s w f
    → w.held ≡ true
    → call.allocated ≡ none
    → ((grab_partial_wake_lock call w).held ≡ false) × (0 < (grab_partial_wake_lock call w).count)
unfolding grab_partial_wake_lock internal_request_timed_callback count_grab release_wake_lock
    acquire_wake_lock
grab_no_memory call s w f free r h e =
    let v : IsValid w = (Reach-IsGood (IsFree-IsGood s free) r).valid in
    (
      rw (leb_old w.version v.new_version, e) refl,
      rw (leb_old w.version v.new_version, e) (ground (arith, v.counted, h)),
    )
