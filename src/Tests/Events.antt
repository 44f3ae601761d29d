-- ===== src/Tests/Events.antt =====
-- The event loop of libril/ril_event.cpp on a few events.
use platform_hardware_ril.Base.{ℕ, ◌≡◌, refl, false, some, [], ◌∷◌, ◌++◌, arith, ◌==◌}
use platform_hardware_ril.Base.Int.{pos, negsuc}
use platform_hardware_ril.EventLoop.Times.{Time, time_lt, time_add}
use platform_hardware_ril.EventLoop.{
  insert_timer, Heap, Loop, store, ril_event_init, ril_event_add, ril_event_del, ril_timer_add,
  process_timeouts, process_read_readies, first_free, add_at, FdSet, eq_ℤ,
}
use platform_hardware_ril.EventLoop.Timers.{
  IsSorted, timeout_of, Inserts, keep, is_early, is_due, ril_timer_add-IsSorted,
  process_timeouts_splits,
}
use platform_hardware_ril.EventLoop.Watches.{
  IsValid, ril_event_init-IsValid, ril_event_add-IsValid, ril_event_del-IsValid,
}
use platform_hardware_ril.EventLoop.Ready.{ready_in, process_read_readies_queues}

abbrev at_sec : ℕ → Time
at_sec n = record { tv_sec = n; tv_usec = 0 }

-- The event at `p` watches the descriptor `p` and has its timeout `p` seconds after the start.
abbrev events : Heap
events p = record { fd = pos p; index = negsuc 0; persist = p == 4; timeout = at_sec p }

abbrev memory : Loop
memory = record {
  heap = events;
  read_fds = λ fd. false;
  nfds = pos 0;
  watch_table = [];
  timer_list = 5 ∷ 7 ∷ 9 ∷ [];
  pending_list = 2 ∷ [];
}

ril_timer_add-IsSorted_example :
    IsSorted
      (timeout_of (ril_timer_add (at_sec 3) 6 (some (at_sec 4)) memory).heap)
      (ril_timer_add (at_sec 3) 6 (some (at_sec 4)) memory).timer_list
    × Inserts 6 memory.timer_list (ril_timer_add (at_sec 3) 6 (some (at_sec 4)) memory).timer_list
    × (timeout_of (ril_timer_add (at_sec 3) 6 (some (at_sec 4)) memory).heap 6
        ≡ time_add (at_sec 3) (at_sec 4))
unfolding time_lt
ril_timer_add-IsSorted_example =
    ril_timer_add-IsSorted (at_sec 3) (at_sec 4) 6 memory
      (omega arith, (omega arith, (omega arith, tt))) ((refl, (refl, tt)), ((refl, tt), (tt, tt)))

-- A timer with the same timeout as another stands in front of it.
same_timeout : (ril_timer_add (at_sec 3) 6 (some (at_sec 4)) memory).timer_list ≡ 5 ∷ 6 ∷ 7 ∷ 9 ∷ []
unfolding ril_timer_add time_lt time_add store insert_timer
same_timeout = refl

process_timeouts_splits_example :
    ((process_timeouts (at_sec 8) memory).timer_list
      ≡ keep (is_early memory.heap (at_sec 8)) memory.timer_list)
    × ((process_timeouts (at_sec 8) memory).pending_list
        ≡ memory.pending_list ++ keep (is_due memory.heap (at_sec 8)) memory.timer_list)
unfolding time_lt
process_timeouts_splits_example =
    process_timeouts_splits (at_sec 8) memory ((refl, (refl, tt)), ((refl, tt), (tt, tt)))

abbrev started : Loop
started = ril_event_init memory

started-IsValid : IsValid started
started-IsValid = ril_event_init-IsValid memory (λ i p e. cc)

ril_event_add-IsValid_example : IsValid (ril_event_add 4 started)
unfolding ril_event_init
ril_event_add-IsValid_example =
    ril_event_add-IsValid 4 started started-IsValid (λ j e. cc) (omega arith)

abbrev watching : Loop
watching = ril_event_add 4 started

watching-IsValid : IsValid watching
unfolding ril_event_init
watching-IsValid = ril_event_add-IsValid 4 started started-IsValid (λ j e. cc) (omega arith)

ril_event_del-IsValid_example : IsValid (ril_event_del 4 watching)
ril_event_del-IsValid_example = ril_event_del-IsValid 4 watching watching-IsValid

abbrev four_ready : FdSet
four_ready fd = eq_ℤ fd (pos 4)

process_read_readies_queues_example :
    (process_read_readies four_ready 1 watching).pending_list
    ≡ watching.pending_list ++ ready_in watching.heap four_ready watching.watch_table
unfolding ril_event_init ril_event_add first_free add_at store
process_read_readies_queues_example =
    process_read_readies_queues four_ready 1 watching (omega arith)
