-- ===== src/EventLoop.antt =====
-- libril/ril_event.cpp: the table of watched descriptors, the sorted list of timers, and the loop
-- that selects, collects what is due on the pending list and fires it. A `struct ril_event *` is a
-- number, and the heap says what it points at; a circular list is the list of its members, each of
-- them on one list at most. The mutex and the logging are left out.
pub mod Times
pub mod Timers
pub mod Watches
pub mod Ready
use mathlib.Core.Option
use platform_hardware_ril.Base.{
  ℕ, zero, suc, ◌+◌, ◌-◌, Bool, true, false, not, ◌&&◌, Option, none, some, List, [], ◌∷◌, ◌++◌,
  ltb, ◌==◌, if◌then◌else◌, set, replicate,
}
use platform_hardware_ril.Base.Int.{ℤ, pos, negsuc, ◌+ℤ◌, pos_part, neg_part, ltb_ℤ}
use platform_hardware_ril.EventLoop.Times.{Time, time_lt, time_add, time_sub}

-- `func` and `param` are left to `Callback` below.
pub record Event : Type 0 where
  pub fd : ℤ
  pub index : ℤ
  pub persist : Bool
  pub timeout : Time

abbrev pub Heap : Type 0
Heap = ℕ → Event

-- an `fd_set`
abbrev pub FdSet : Type 0
FdSet = ℤ → Bool

abbrev pub Table : Type 0
Table = List (Option ℕ)

pub record Loop : Type 0 where
  pub heap : Heap
  pub read_fds : FdSet
  pub nfds : ℤ
  pub watch_table : Table
  pub timer_list : List ℕ
  pub pending_list : List ℕ

-- `*p = e`
unfoldable pub store : ℕ → Event → Heap → Heap
store p e heap q = if q == p then e else heap q

abbrev pub eq_ℤ : ℤ → ℤ → Bool
eq_ℤ a b = pos_part a + neg_part b == pos_part b + neg_part a

-- FD_SET and FD_CLR
unfoldable pub put_fd : ℤ → Bool → FdSet → FdSet
put_fd fd b fds n = if eq_ℤ n fd then b else fds n

abbrev pub max_fd_events : ℕ
max_fd_events = 8

-- `nfds` is left as it is.
unfoldable pub ril_event_init : Loop → Loop
ril_event_init s = record s {
  read_fds = λ fd. false;
  timer_list = [];
  pending_list = [];
  watch_table = replicate max_fd_events none;
}

unfoldable pub ril_event_set : ℕ → ℤ → Bool → Loop → Loop
ril_event_set p fd persist s =
    let fresh : Event = record {
      fd = fd;
      index = negsuc 0;
      persist = persist;
      timeout = record { tv_sec = 0; tv_usec = 0 };
    } in
    record s { heap = store p fresh s.heap }

-- the first index whose slot is NULL
unfoldable pub first_free : Table → Option ℕ
first_free [] = none
first_free (none ∷ slots) = some 0
first_free (some p ∷ slots) = Option.map suc (first_free slots)

-- the body of the loop, at the index where it breaks
unfoldable pub add_at : ℕ → Option ℕ → Loop → Loop
add_at p none s = s
add_at p (some i) s =
    let ev = s.heap p in
    record s {
      watch_table = set s.watch_table i (some p);
      heap = store p (record ev { index = pos i }) s.heap;
      read_fds = put_fd ev.fd true s.read_fds;
      nfds = if ltb_ℤ ev.fd s.nfds then s.nfds else ev.fd +ℤ pos 1;
    }

unfoldable pub ril_event_add : ℕ → Loop → Loop
ril_event_add p s = add_at p (first_free s.watch_table) s

-- the largest descriptor in the table, `n` at least
unfoldable pub largest_fd : Heap → ℤ → Table → ℤ
largest_fd heap n [] = n
largest_fd heap n (none ∷ slots) = largest_fd heap n slots
largest_fd heap n (some p ∷ slots) =
    largest_fd heap (if ltb_ℤ n (heap p).fd then (heap p).fd else n) slots

unfoldable pub remove_watch : ℕ → ℕ → Loop → Loop
remove_watch p i s =
    let ev = s.heap p in
    let table = set s.watch_table i none in
    let heap = store p (record ev { index = negsuc 0 }) s.heap in
    record s {
      watch_table = table;
      heap = heap;
      read_fds = put_fd ev.fd false s.read_fds;
      nfds =
          if eq_ℤ (ev.fd +ℤ pos 1) s.nfds then largest_fd heap (pos 0) table +ℤ pos 1 else s.nfds;
    }

unfoldable pub del_at : ℕ → ℤ → Loop → Loop
del_at p (negsuc n) s = s
del_at p (pos i) s = if ltb i max_fd_events then remove_watch p i s else s

unfoldable pub ril_event_del : ℕ → Loop → Loop
ril_event_del p s = del_at p (s.heap p).index s

-- "keep list sorted": in front of the first timer that is not earlier
unfoldable pub insert_timer : (ℕ → Time) → ℕ → List ℕ → List ℕ
insert_timer at p [] = p ∷ []
insert_timer at p (q ∷ qs) =
    let rest = insert_timer at p qs in if time_lt (at q) (at p) then q ∷ rest else p ∷ q ∷ qs

-- The times are those that `getNow` gives and that `tv` points at.
unfoldable pub ril_timer_add : Time → ℕ → Option Time → Loop → Loop
ril_timer_add now p none s = s
ril_timer_add now p (some tv) s =
    let ev : Event = record (s.heap p) { fd = negsuc 0; timeout = time_add now tv } in
    let heap = store p ev s.heap in
    record s { heap = heap; timer_list = insert_timer (λ q. (heap q).timeout) p s.timer_list }

-- the loop of `processTimeouts`: the timers that stay, and the pending list
unfoldable pub expire : Heap → Time → List ℕ → List ℕ → List ℕ × List ℕ
expire heap now [] pending = ([], pending)
expire heap now (p ∷ ps) pending =
    let later = expire heap now ps (pending ++ p ∷ []) in
    if time_lt (heap p).timeout now then later else (p ∷ ps, pending)

unfoldable pub process_timeouts : Time → Loop → Loop
process_timeouts now s =
    let (timers, pending) = expire s.heap now s.timer_list s.pending_list in
    record s { timer_list = timers; pending_list = pending }

-- a ready slot
unfoldable pub queue_ready : ℕ → ℕ → Loop → Loop
queue_ready p i s =
    let queued = record s { pending_list = s.pending_list ++ p ∷ [] } in
    if (s.heap p).persist then queued else remove_watch p i queued

-- The loop of `processReadReadies` from the index `i` on, over the slots that are left. A turn
-- changes no slot but its own, so the slots are those of the table at the start.
unfoldable pub read_readies : FdSet → ℕ → ℕ → Table → Loop → Loop
read_readies rfds n i [] s = s
read_readies rfds zero i (slot ∷ slots) s = s
read_readies rfds (suc n) i (none ∷ slots) s = read_readies rfds (suc n) (suc i) slots s
read_readies rfds (suc n) i (some p ∷ slots) s = elim (rfds (s.heap p).fd) [
  | true ↦ read_readies rfds n (suc i) slots (queue_ready p i s)
  | false ↦ read_readies rfds (suc n) (suc i) slots s
]

unfoldable pub process_read_readies : FdSet → ℕ → Loop → Loop
process_read_readies rfds n s = read_readies rfds n 0 s.watch_table s

-- `none` is -1.
unfoldable pub calc_next_timeout : Time → Loop → Option Time
calc_next_timeout now s = elim s.timer_list [
  | [] ↦ none
  | p ∷ ps ↦ some (
      if time_lt now (s.heap p).timeout
      then time_sub (s.heap p).timeout now
      else record { tv_sec = 0; tv_usec = 0 })
]

-- `ev->func(ev->fd, 0, ev->param)`: what the callback of an event does to the state. It may call
-- the functions above, which add nothing to the pending list.
abbrev pub Callback : Type 0
Callback = ℕ → Loop → Loop

unfoldable pub fire : Callback → List ℕ → Loop → Loop
fire func [] s = s
fire func (p ∷ ps) s = fire func ps (func p (record s { pending_list = ps }))

unfoldable pub fire_pending : Callback → Loop → Loop
fire_pending func s = fire func s.pending_list s

-- what select returns: a count and the descriptors that are ready, EINTR, or another error
pub data Selected : Type 0 where
  ready : ℕ → FdSet → Selected
  interrupted failed : Selected

-- one turn of the loop: the time before the wait, what select does on its arguments `nfds`, `rfds`
-- and the time to wait, and the time behind it
pub record Turn : Type 0 where
  pub before : Time
  pub select : ℤ → FdSet → Option Time → Selected
  pub now : Time

-- The flag is whether the loop goes on.
unfoldable pub after_select : Callback → Time → Selected → Loop → Bool × Loop
after_select func now failed s = (false, s)
after_select func now interrupted s = (true, s)
after_select func now (ready n rfds) s =
    (true, fire_pending func (process_read_readies rfds n (process_timeouts now s)))

unfoldable pub turn : Callback → Turn → Loop → Bool × Loop
turn func t s =
    after_select func t.now (t.select s.nfds s.read_fds (calc_next_timeout t.before s)) s

-- `ril_event_loop` over the turns that it makes
unfoldable pub ril_event_loop : Callback → List Turn → Loop → Bool × Loop
ril_event_loop func [] s = (true, s)
ril_event_loop func (t ∷ ts) s =
    let (goes_on, s') = turn func t s in
    elim goes_on [ true ↦ ril_event_loop func ts s' | false ↦ (false, s') ]
