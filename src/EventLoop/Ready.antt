-- ===== src/EventLoop/Ready.antt =====
-- `processReadReadies` of libril/ril_event.cpp: the walk over the table of watches.
use platform_hardware_ril.Base.{
  ℕ, zero, suc, ◌+◌, ◌≤◌, ◌≡◌, refl, ap, ap₂, ◌∙◌, sym, true, Option, none, some, List, [], ◌∷◌,
  ◌++◌, arith, if◌then◌else◌, inl, inr, Bool-cases, get_elem?, get_elem?-set_ne, length,
}
use platform_hardware_ril.EventLoop.{
  Heap, Table, Loop, remove_watch, queue_ready, read_readies, process_read_readies, FdSet,
}
use platform_hardware_ril.EventLoop.Timers.{append_assoc, append-nil}
use platform_hardware_ril.EventLoop.Watches.{Watches, IsValid, remove_watch-IsValid, store-split}

-- the slots from an index on
abbrev Rest : Table → ℕ → Table → Type 0
Rest slots i table = (k : ℕ) → get_elem? slots k ≡ get_elem? table (i + k)

queue_ready-IsValid :
    (p i : ℕ) (s : Loop) → IsValid s → Watches s.watch_table i p → IsValid (queue_ready p i s)
unfolding queue_ready
queue_ready-IsValid p i s v here = elim (Bool-cases (s.heap p).persist) [
  | inl e ↦ rw e queued
  | inr e ↦
      rw e (
        remove_watch-IsValid p i (record s { pending_list = s.pending_list ++ p ∷ [] }) queued here)
]
  where
    queued : IsValid (record s { pending_list = s.pending_list ++ p ∷ [] })
    queued = record {
      indexed = v.indexed;
      placed = v.placed;
      proper = v.proper;
      covered = v.covered;
    }

-- a turn at a slot changes no later one
queue_ready-Rest :
    (p i : ℕ) (slots : Table) (s : Loop)
    → Rest slots (suc i) s.watch_table
    → Rest slots (suc i) (queue_ready p i s).watch_table
unfolding queue_ready remove_watch
queue_ready-Rest p i slots s h k = elim (Bool-cases (s.heap p).persist) [
  | inl e ↦ rw e (h k)
  | inr e ↦ rw e (h k ∙ sym (get_elem?-set_ne s.watch_table none (omega arith)))
]

Rest-tail :
    (slot : Option ℕ) (slots table : Table) (i : ℕ)
    → Rest (slot ∷ slots) i table
    → Rest slots (suc i) table
Rest-tail slot slots table i h k = h (suc k) ∙ ap (get_elem? table) (omega arith)

Rest-head :
    (slot : Option ℕ) (slots table : Table) (i : ℕ)
    → Rest (slot ∷ slots) i table
    → get_elem? table i ≡ some slot
Rest-head slot slots table i h = ap (get_elem? table) (omega arith) ∙ sym (h 0)

read_readies-IsValid :
    (rfds : FdSet) (n i : ℕ) (slots : Table) (s : Loop)
    → IsValid s
    → Rest slots i s.watch_table
    → IsValid (read_readies rfds n i slots s)
unfolding read_readies
read_readies-IsValid rfds n i [] s v h = v
read_readies-IsValid rfds zero i (slot ∷ slots) s v h = v
read_readies-IsValid rfds (suc n) i (none ∷ slots) s v h =
    read_readies-IsValid rfds (suc n) (suc i) slots s v (Rest-tail none slots s.watch_table i h)
read_readies-IsValid rfds (suc n) i (some p ∷ slots) s v h =
    elim (Bool-cases (rfds (s.heap p).fd)) [
      | inl e ↦
          rw (e, read_readies)
            (read_readies-IsValid rfds n (suc i) slots (queue_ready p i s)
              (queue_ready-IsValid p i s v (Rest-head (some p) slots s.watch_table i h))
              (queue_ready-Rest p i slots s (Rest-tail (some p) slots s.watch_table i h)))
      | inr e ↦
          rw (e, read_readies)
            (read_readies-IsValid rfds (suc n) (suc i) slots s v
              (Rest-tail (some p) slots s.watch_table i h))
    ]

-- Where the watches are valid, `processReadReadies` leaves them valid, whatever select returned.
pub process_read_readies-IsValid :
    (rfds : FdSet) (n : ℕ) (s : Loop) → IsValid s → IsValid (process_read_readies rfds n s)
unfolding process_read_readies
process_read_readies-IsValid rfds n s v =
    read_readies-IsValid rfds n 0 s.watch_table s v
      (λ k. ap (get_elem? s.watch_table) (omega arith))

-- the watched events that select found ready, in the order of the table
abbrev pub ready_in : Heap → FdSet → Table → List ℕ
ready_in heap rfds [] = []
ready_in heap rfds (none ∷ slots) = ready_in heap rfds slots
ready_in heap rfds (some p ∷ slots) =
    let later = ready_in heap rfds slots in if rfds (heap p).fd then p ∷ later else later

ready_in-agree :
    (heap heap' : Heap) (rfds : FdSet) (slots : Table)
    → ((q : ℕ) → (heap' q).fd ≡ (heap q).fd)
    → ready_in heap' rfds slots ≡ ready_in heap rfds slots
ready_in-agree heap heap' rfds [] h = refl
ready_in-agree heap heap' rfds (none ∷ slots) h = ready_in-agree heap heap' rfds slots h
ready_in-agree heap heap' rfds (some p ∷ slots) h =
    ap₂ (λ fd later. if rfds fd then p ∷ later else later) (h p)
      (ready_in-agree heap heap' rfds slots h)

queue_ready-fd : (p i : ℕ) (s : Loop) (q : ℕ) → ((queue_ready p i s).heap q).fd ≡ (s.heap q).fd
unfolding queue_ready remove_watch
queue_ready-fd p i s q = elim (Bool-cases (s.heap p).persist) [
  | inl e ↦ rw e refl
  | inr e ↦ rw e (
      store-split (λ x. x.fd ≡ (s.heap q).fd) p q _ s.heap (λ h. ap (λ r. (s.heap r).fd) (sym h))
        (λ h. refl))
]

queue_ready-pending :
    (p i : ℕ) (s : Loop) → (queue_ready p i s).pending_list ≡ s.pending_list ++ p ∷ []
unfolding queue_ready remove_watch
queue_ready-pending p i s = elim (Bool-cases (s.heap p).persist) [
  | inl e ↦ rw e refl
  | inr e ↦ rw e refl
]

read_readies-queues :
    (rfds : FdSet) (n i : ℕ) (slots : Table) (s : Loop)
    → length (ready_in s.heap rfds slots) ≤ n
    → (read_readies rfds n i slots s).pending_list ≡ s.pending_list ++ ready_in s.heap rfds slots
unfolding read_readies
read_readies-queues rfds n i [] s h = sym (append-nil s.pending_list)
read_readies-queues rfds zero i (slot ∷ slots) s h =
    sym (append-nil s.pending_list)
    ∙ ap (◌++◌ s.pending_list) (no_more (ready_in s.heap rfds (slot ∷ slots)) h)
  where
    no_more : (ps : List ℕ) → length ps ≤ 0 → [] ≡ ps
    no_more [] k = refl
    no_more (p ∷ ps) k = absurd (omega arith)
read_readies-queues rfds (suc n) i (none ∷ slots) s h =
    read_readies-queues rfds (suc n) (suc i) slots s h
read_readies-queues rfds (suc n) i (some p ∷ slots) s h = elim (Bool-cases (rfds (s.heap p).fd)) [
  | inl e ↦
      rw (e, read_readies)
        (read_readies-queues rfds n (suc i) slots (queue_ready p i s) (fits e)
          ∙ ap₂ (◌++◌) (queue_ready-pending p i s) (same)
          ∙ append_assoc s.pending_list (p ∷ []) (ready_in s.heap rfds slots))
  | inr e ↦ rw (e, read_readies) (read_readies-queues rfds (suc n) (suc i) slots s (rw e at h))
]
  where
    same : ready_in (queue_ready p i s).heap rfds slots ≡ ready_in s.heap rfds slots
    same = ready_in-agree s.heap (queue_ready p i s).heap rfds slots (queue_ready-fd p i s)

    fits : rfds (s.heap p).fd ≡ true → length (ready_in (queue_ready p i s).heap rfds slots) ≤ n
    fits e = rw same (omega (arith, rw e at h))

-- Where select counts the ready events of the table, or more, `processReadReadies` puts exactly
-- those events at the end of the pending list, in the order of the table.
pub process_read_readies_queues :
    (rfds : FdSet) (n : ℕ) (s : Loop)
    → length (ready_in s.heap rfds s.watch_table) ≤ n
    → (process_read_readies rfds n s).pending_list
      ≡ s.pending_list ++ ready_in s.heap rfds s.watch_table
unfolding process_read_readies
process_read_readies_queues rfds n s h = read_readies-queues rfds n 0 s.watch_table s h
