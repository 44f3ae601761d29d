-- ===== src/Tests/Daemon.antt =====
-- The wake lock, the requests and the unsolicited messages of libril/ril.cpp on short histories.
use platform_hardware_ril.Dispatcher.WakeLock.Firing.{idle}
use platform_hardware_ril.Base.{
  ℕ, ◌+◌, ◌≡◌, refl, true, false, none, some, List, [], ◌∷◌, codes, arith, ltb,
}
use platform_hardware_ril.Base.Int.{ℤ, pos, negsuc}
use platform_hardware_ril.EventLoop.Times.{Time}
use platform_hardware_ril.EventLoop.{Loop}
use platform_hardware_ril.Dispatcher.WakeLock.{
  Wake, Call, grab_partial_wake_lock, count_grab, internal_request_timed_callback, request_at,
  trigger_ev_loop, replace_last, acquire_wake_lock,
}
use platform_hardware_ril.Dispatcher.WakeLock.Invariant.{PointsAtTimer}
use platform_hardware_ril.Dispatcher.WakeLock.Histories.{
  Reach, here, next, grabs, IsFree, GivesBack, Reach-counted, Reach-GivesBack,
}
use platform_hardware_ril.Dispatcher.Requests.{
  Request, Dispatch, ril_on_request_ack, ril_on_request_complete,
}
use platform_hardware_ril.Dispatcher.Requests.Tokens.{
  Op, adds, acks, completes, run, pending_with, answered_with, added_with, run_balance,
  complete_once,
}
use platform_hardware_ril.Dispatcher.Unsolicited.{
  Daemon, Indication, ril_on_unsolicited_response, on_new_command_connect,
}
use platform_hardware_ril.Dispatcher.Unsolicited.Nitz.{indication, waking_type, nitz_reaches_client}

abbrev at_sec : ℕ → Time
at_sec n = record { tv_sec = n; tv_usec = 0 }

abbrev idle_loop : Loop
idle_loop = record {
  heap = λ p. record { fd = negsuc 0; index = negsuc 0; persist = false; timeout = at_sec 0 };
  read_fds = λ fd. false;
  nfds = pos 0;
  watch_table = [];
  timer_list = [];
  pending_list = [];
}

abbrev asleep : Wake
asleep = record {
  version = 15;
  held = false;
  count = 0;
  last = none;
  infos = [];
  loop = idle_loop;
  wakeups = 0;
  vendor_calls = [];
}

abbrev finds : ℕ → Call
finds p = record { allocated = some p; now = at_sec p; on_loop_thread = false }

abbrev no_memory : Call
no_memory = record { allocated = none; now = at_sec 0; on_loop_thread = false }

asleep-IsFree : IsFree asleep
asleep-IsFree = record {
  new_version = omega arith;
  not_held = refl;
  no_count = refl;
  no_timer = refl;
}

abbrev awake : Wake
awake = grab_partial_wake_lock (finds 7) asleep

grabbed : Reach asleep awake idle
grabbed = next here (grabs (finds 7) 7 (refl, refl) refl)

awake_held : awake.held ≡ true
unfolding grab_partial_wake_lock count_grab internal_request_timed_callback request_at
    trigger_ev_loop replace_last acquire_wake_lock
awake_held = refl

Reach-counted_example : (awake.held ≡ ltb 0 awake.count) × PointsAtTimer awake.last awake.infos
Reach-counted_example = Reach-counted asleep awake idle asleep-IsFree grabbed

Reach-GivesBack_example : (p : ℕ) × GivesBack awake p
Reach-GivesBack_example = Reach-GivesBack asleep awake idle asleep-IsFree grabbed awake_held

abbrev a_request : ℕ → ℕ → Request
a_request p serial = record {
  address = p;
  token = pos serial;
  number = 9;
  local = false;
  cancelled = false;
  was_ack_sent = false;
}

abbrev two_pending : Dispatch
two_pending = record { pending = a_request 3 41 ∷ a_request 5 42 ∷ []; wake = asleep; sent = [] }

-- an answer comes twice, and one for a token that never was
abbrev answers : List Op
answers =
    adds (some 8) (pos 42) 10
    ∷ acks (some 5)
    ∷ completes (finds 9) (some 5) 0 none
    ∷ completes (finds 10) (some 5) 0 none
    ∷ completes (finds 11) (some 77) 2 none
    ∷ []

run_balance_example :
    answered_with (pos 42) (run answers two_pending).sent
      + pending_with (pos 42) (run answers two_pending).pending
    ≡ added_with (pos 42) answers + 1
run_balance_example = run_balance (pos 42) answers two_pending ((refl, refl), ((refl, refl), tt))

abbrev afterwards : Dispatch
afterwards =
    run (adds (some 5) (pos 7) 40 ∷ acks (some 4) ∷ [])
      (ril_on_request_complete (finds 9) (some 3) 0 none two_pending)

complete_once_example :
    (ril_on_request_ack (some 3) afterwards ≡ afterwards)
    × (ril_on_request_complete (finds 1) (some 3) 2 none afterwards ≡ afterwards)
complete_once_example =
    complete_once 3 (finds 9) (finds 1) 0 2 none none
      (adds (some 5) (pos 7) 40 ∷ acks (some 4) ∷ []) two_pending ((omega arith, tt), (tt, tt))
      (omega arith, (tt, tt))

abbrev no_client : Daemon
no_client = record {
  register_called = true;
  wake = asleep;
  connected = false;
  indicated = [];
  last_nitz = none;
  nitz_received = 0;
}

abbrev returns_0 : Indication → ℤ
returns_0 i = pos 0

abbrev met : Daemon
met =
    on_new_command_connect returns_0 (finds 5) (finds 6) (codes "15")
      (record (ril_on_unsolicited_response returns_0 (finds 4) true 90 1008
        (some (codes "18/06/01")) no_client) { connected = true })

nitz_reaches_client_example :
    (met.indicated
      ≡ indication (waking_type no_client) 1008 (some (codes "18/06/01")) (some 90)
        ∷ indication (waking_type no_client) 1000 none none
        ∷ indication (waking_type no_client) 1034 (some (codes "15")) none
        ∷ [])
    × (met.last_nitz ≡ none)
nitz_reaches_client_example =
    nitz_reaches_client returns_0 (finds 4) (finds 5) (finds 6) 4 90 b'1' (codes "8/06/01")
      (codes "15") no_client refl refl refl
