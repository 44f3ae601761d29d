-- ===== src/Dispatcher/WakeLock.antt =====
-- The wake lock of libril/ril.cpp, and the timed callbacks by which it is given back. A
-- `UserCallbackInfo *` is a number, which also names the event inside the structure; the list
-- `infos` is what the allocated structures hold. A mutex makes each function one step, but for
-- `userTimerCallback`, which takes none: its call of the callback, its test of
-- `s_last_wake_timeout_info` and its `free` are a step each.
pub mod Infos
pub mod Invariant
pub mod Queue
pub mod Firing
pub mod Histories
use platform_hardware_ril.Base.{
  ℕ, suc, ◌-◌, Bool, true, false, not, ◌&&◌, Option, none, some, List, [], ◌∷◌, ltb, leb, ◌==◌,
  if◌then◌else◌,
}
use platform_hardware_ril.Base.Int.{negsuc}
use platform_hardware_ril.EventLoop.Times.{Time}
use platform_hardware_ril.EventLoop.{Loop, ril_event_set, ril_timer_add}

-- `p_callback`: `wakeTimeoutCallback`, or a function of the vendor's library
pub data TimedCallback : Type 0 where
  wake_timeout : TimedCallback
  vendor : ℕ → TimedCallback

-- A structure that is not freed; `param_set` is `userParam != NULL`.
pub record Info : Type 0 where
  pub address : ℕ
  pub callback : TimedCallback
  pub param_set : Bool

-- `held` is the kernel's lock of the name ANDROID_WAKE_LOCK_NAME; `version` is that of `s_callbacks`;
-- `wakeups` counts the bytes written to the wake-up pipe, and `vendor_calls` are the callbacks made.
pub record Wake : Type 0 where
  pub version : ℕ
  pub held : Bool
  pub count : ℕ
  pub last : Option ℕ
  pub infos : List Info
  pub loop : Loop
  pub wakeups : ℕ
  pub vendor_calls : List ℕ

-- What a call finds: what `calloc` returns, the time, and whether it runs in the event loop's thread.
pub record Call : Type 0 where
  pub allocated : Option ℕ
  pub now : Time
  pub on_loop_thread : Bool

unfoldable pub acquire_wake_lock : Wake → Wake
acquire_wake_lock w = record w { held = true }

unfoldable pub release_wake_lock : Wake → Wake
release_wake_lock w = record w { held = false }

-- `p->userParam = (void *)1` at an address
unfoldable pub cancel_at : ℕ → List Info → List Info
cancel_at p [] = []
cancel_at p (i ∷ is) =
    if i.address == p then record i { param_set = true } ∷ is else i ∷ cancel_at p is

-- `if (s_last_wake_timeout_info != NULL) s_last_wake_timeout_info->userParam = (void *)1;`
unfoldable pub cancel_last : Option ℕ → List Info → List Info
cancel_last none is = is
cancel_last (some p) is = cancel_at p is

unfoldable pub trigger_ev_loop : Call → Wake → Wake
trigger_ev_loop call w = if call.on_loop_thread then w else record w { wakeups = suc w.wakeups }

-- A `relativeTime` that is NULL counts as 0.
abbrev pub relative_or_zero : Option Time → Time
relative_or_zero none = record { tv_sec = 0; tv_usec = 0 }
relative_or_zero (some tv) = tv

-- with the structure allocated at an address
unfoldable pub request_at : Call → TimedCallback → Bool → Option Time → ℕ → Wake → Wake
request_at call callback param_set relative p w = trigger_ev_loop call (record w {
  infos = record { address = p; callback = callback; param_set = param_set } ∷ w.infos;
  loop =
      ril_timer_add call.now p (some (relative_or_zero relative))
        (ril_event_set p (negsuc 0) false w.loop);
})

unfoldable pub internal_request_timed_callback :
    Call → TimedCallback → Bool → Option Time → Wake → Option ℕ × Wake
internal_request_timed_callback call callback param_set relative w = elim call.allocated [
  | none ↦ (none, w)
  | some p ↦ (some p, request_at call callback param_set relative p w)
]

abbrev pub timeval_wake_timeout : Time
timeval_wake_timeout = record { tv_sec = 0; tv_usec = 200000 }

-- "s_last_wake_timeout_info = p_info", with the one before it cancelled
unfoldable pub replace_last : ℕ → Wake → Wake
replace_last p w = record w { infos = cancel_last w.last w.infos; last = some p }

-- behind the call of `internalRequestTimedCallback` in `grabPartialWakeLock`
unfoldable pub count_grab : Option ℕ × Wake → Wake
count_grab (none, w) = release_wake_lock w
count_grab (some p, w) = replace_last p (record w { count = suc w.count })

unfoldable pub grab_partial_wake_lock : Call → Wake → Wake
grab_partial_wake_lock call w =
    if leb 13 w.version
    then count_grab (
        internal_request_timed_callback call wake_timeout false (some timeval_wake_timeout)
          (acquire_wake_lock w))
    else acquire_wake_lock w

unfoldable pub release_counted : Wake → Wake
release_counted w =
    if ltb 1 w.count
    then record w { count = w.count - 1 }
    else record (release_wake_lock w) { count = 0; infos = cancel_last w.last w.infos }

-- `releaseWakeLock`
unfoldable pub release_lock : Wake → Wake
release_lock w = if leb 13 w.version then release_counted w else release_wake_lock w

-- The flag is `param != NULL`.
unfoldable pub wake_timeout_callback : Bool → Wake → Wake
wake_timeout_callback true w = w
wake_timeout_callback false w =
    if leb 13 w.version then record (release_wake_lock w) { count = 0 } else release_lock w

unfoldable pub run_callback : Info → Wake → Wake
run_callback i w = elim i.callback [
  | wake_timeout ↦ wake_timeout_callback i.param_set w
  | vendor f ↦ record w { vendor_calls = f ∷ w.vendor_calls }
]

-- free(p_info)
unfoldable pub free_at : ℕ → List Info → List Info
free_at p [] = []
free_at p (i ∷ is) = let rest = free_at p is in if i.address == p then rest else i ∷ rest

abbrev pub points_at : Option ℕ → ℕ → Bool
points_at none p = false
points_at (some q) p = q == p

-- `if (s_last_wake_timeout_info != NULL && s_last_wake_timeout_info == p_info) ... = NULL;`
unfoldable pub forget_last : ℕ → Wake → Wake
forget_last p w = if points_at w.last p then record w { last = none } else w

unfoldable pub free_info : ℕ → Wake → Wake
free_info p w = record w { infos = free_at p w.infos }

unfoldable pub user_timer_callback : Info → Wake → Wake
user_timer_callback i w = free_info i.address (forget_last i.address (run_callback i w))

-- `RIL_requestTimedCallback`, of the vendor's library
unfoldable pub ril_request_timed_callback : Call → ℕ → Bool → Option Time → Wake → Wake
ril_request_timed_callback call f param_set relative w =
    (internal_request_timed_callback call (vendor f) param_set relative w).1
