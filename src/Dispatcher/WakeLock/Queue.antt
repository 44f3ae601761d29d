-- ===== src/Dispatcher/WakeLock/Queue.antt =====
-- The timer of the wake lock in the event loop: from `ril_timer_add` to its callback it is on the list
-- of timers or among the events that are about to be fired.
use platform_hardware_ril.Base.{
  ap, ◌≤◌, ℕ, ◌≡◌, ◌⊎◌, inl, inr, Bool, true, false, Option, none, some, List, [], ◌∷◌, ◌++◌, ltb,
  ◌==◌, ==_iff, Bool-cases, refl, sym, subst,
}
use platform_hardware_ril.EventLoop.Times.{Time, time_lt}
use platform_hardware_ril.EventLoop.{
  Heap, Loop, insert_timer, ril_timer_add, ril_event_set, expire, process_timeouts,
}
use platform_hardware_ril.Dispatcher.WakeLock.{
  Wake, Call, acquire_wake_lock, release_wake_lock, trigger_ev_loop, request_at,
  internal_request_timed_callback, replace_last, count_grab, grab_partial_wake_lock,
  release_counted, release_lock, forget_last, free_info, ril_request_timed_callback, points_at,
}
use platform_hardware_ril.Dispatcher.WakeLock.Invariant.{leb_old}

abbrev pub Among : ℕ → List ℕ → Type 0
Among p [] = ⊥
Among p (q ∷ qs) = (q ≡ p) ⊎ Among p qs

-- A timer waits, or it is due and its callback is about to be called.
abbrev pub InLoop : ℕ → Loop → Type 0
InLoop p s = Among p s.timer_list ⊎ Among p s.pending_list

insert-new : (at : ℕ → Time) (p : ℕ) (qs : List ℕ) → Among p (insert_timer at p qs)
unfolding insert_timer
insert-new at p [] = inl refl
insert-new at p (q ∷ qs) = elim (Bool-cases (time_lt (at q) (at p))) [
  | inl e ↦ rw e (inr (insert-new at p qs))
  | inr e ↦ rw e (inl refl)
]

insert-old : (at : ℕ → Time) (p r : ℕ) (qs : List ℕ) → Among r qs → Among r (insert_timer at p qs)
unfolding insert_timer
insert-old at p r [] h = absurd h
insert-old at p r (q ∷ qs) h = elim (Bool-cases (time_lt (at q) (at p))) [
  | inl e ↦ rw e (elim h [ inl f ↦ inl f | inr k ↦ inr (insert-old at p r qs k) ])
  | inr e ↦ rw e (inr h)
]

add-new : (now tv : Time) (p : ℕ) (s : Loop) → InLoop p (ril_timer_add now p (some tv) s)
unfolding ril_timer_add
add-new now tv p s = inl (insert-new _ p s.timer_list)

add-old :
    (now tv : Time) (p r : ℕ) (s : Loop) → InLoop r s → InLoop r (ril_timer_add now p (some tv) s)
unfolding ril_timer_add
add-old now tv p r s (inl h) = inl (insert-old _ p r s.timer_list h)
add-old now tv p r s (inr h) = inr h

Among-front : (p : ℕ) (xs ys : List ℕ) → Among p xs → Among p (xs ++ ys)
Among-front p [] ys h = absurd h
Among-front p (x ∷ xs) ys (inl e) = inl e
Among-front p (x ∷ xs) ys (inr h) = inr (Among-front p xs ys h)

Among-back : (p q : ℕ) (xs : List ℕ) → q ≡ p → Among p (xs ++ q ∷ [])
Among-back p q [] e = inl e
Among-back p q (x ∷ xs) e = inr (Among-back p q xs e)

expire-InLoop :
    (heap : Heap) (now : Time) (p : ℕ) (timers pending : List ℕ)
    → Among p timers ⊎ Among p pending
    → Among p (expire heap now timers pending).0 ⊎ Among p (expire heap now timers pending).1
unfolding expire
expire-InLoop heap now p [] pending h = h
expire-InLoop heap now p (q ∷ qs) pending h = elim (Bool-cases (time_lt (heap q).timeout now)) [
  | inl e ↦ rw e (expire-InLoop heap now p qs (pending ++ q ∷ []) (moved h))
  | inr e ↦ rw e h
]
  where
    moved : Among p (q ∷ qs) ⊎ Among p pending → Among p qs ⊎ Among p (pending ++ q ∷ [])
    moved (inl (inl e)) = inr (Among-back p q pending e)
    moved (inl (inr k)) = inl k
    moved (inr k) = inr (Among-front p pending (q ∷ []) k)

process-InLoop : (now : Time) (p : ℕ) (s : Loop) → InLoop p s → InLoop p (process_timeouts now s)
unfolding process_timeouts
process-InLoop now p s h = expire-InLoop s.heap now p s.timer_list s.pending_list h

-- `processTimeouts`
unfoldable pub time_out : Time → Wake → Wake
time_out now w = record w { loop = process_timeouts now w.loop }

-- `firePending` takes an event off its list before it calls the callback.
unfoldable pub take_pending : List ℕ → Wake → Wake
take_pending ps w = record w { loop = record w.loop { pending_list = ps } }

-- While the lock is held, the last timer is in the event loop.
abbrev pub IsQueued : Bool → Option ℕ → Loop → Type 0
IsQueued true (some p) s = InLoop p s
IsQueued _ last s = Unit

abbrev pub Queued : Wake → Type 0
Queued w = IsQueued w.held w.last w.loop

map-IsQueued :
    (held : Bool) (last : Option ℕ) (s s' : Loop)
    → ((p : ℕ) → InLoop p s → InLoop p s')
    → IsQueued held last s
    → IsQueued held last s'
map-IsQueued true (some p) s s' f h = f p h
map-IsQueued true none s s' f h = tt
map-IsQueued false last s s' f h = tt

pub grab-Queued :
    (call : Call) (p : ℕ) (w : Wake)
    → 13 ≤ w.version
    → call.allocated ≡ some p
    → Queued (grab_partial_wake_lock call w)
unfolding grab_partial_wake_lock count_grab internal_request_timed_callback request_at
    trigger_ev_loop replace_last acquire_wake_lock
grab-Queued call p w n a =
    rw (leb_old w.version n, a)
      (elim (Bool-cases call.on_loop_thread) [
        | inl e ↦ rw e (add-new call.now _ p _)
        | inr e ↦ rw e (add-new call.now _ p _)
      ])

pub release-Queued : (w : Wake) → 13 ≤ w.version → Queued w → Queued (release_lock w)
unfolding release_lock release_counted release_wake_lock
release-Queued w n h =
    rw (leb_old w.version n)
      (elim (Bool-cases (ltb 1 w.count)) [ inl e ↦ rw e h | inr e ↦ rw e tt ])

pub request-Queued :
    (call : Call) (f p : ℕ) (param_set : Bool) (relative : Option Time) (w : Wake)
    → call.allocated ≡ some p
    → Queued w
    → Queued (ril_request_timed_callback call f param_set relative w)
unfolding ril_request_timed_callback internal_request_timed_callback request_at trigger_ev_loop
    ril_event_set
request-Queued call f p param_set relative w a h = rw a (elim (Bool-cases call.on_loop_thread) [
  | inl e ↦ rw e (map-IsQueued w.held w.last _ _ (λ q. add-old call.now _ p q _) h)
  | inr e ↦ rw e (map-IsQueued w.held w.last _ _ (λ q. add-old call.now _ p q _) h)
])

pub time_out-Queued : (now : Time) (w : Wake) → Queued w → Queued (time_out now w)
unfolding time_out
time_out-Queued now w h = map-IsQueued w.held w.last _ _ (λ q. process-InLoop now q w.loop) h

-- Once the first of the pending events is taken off, the others are still there.
taken-InLoop :
    (p q : ℕ) (ps : List ℕ) (s : Loop)
    → s.pending_list ≡ p ∷ ps
    → (q == p) ≡ false
    → InLoop q s
    → InLoop q (record s { pending_list = ps })
taken-InLoop p q ps s e n (inl h) = inl h
taken-InLoop p q ps s e n (inr h) = inr (other (subst (Among q) e h))
  where
    other : Among q (p ∷ ps) → Among q ps
    other (inl f) = cc ((==_iff q p).1 (sym f))
    other (inr k) = k

popped-IsQueued :
    (held : Bool) (last : Option ℕ) (p : ℕ) (ps : List ℕ) (s : Loop)
    → s.pending_list ≡ p ∷ ps
    → (last ≡ some p → held ≡ false)
    → IsQueued held last s
    → IsQueued held last (record s { pending_list = ps })
popped-IsQueued true (some q) p ps s e n h = elim (Bool-cases (q == p)) [
  | inl f ↦ cc (n (ap some ((==_iff q p).0 f)))
  | inr f ↦ taken-InLoop p q ps s e f h
]
popped-IsQueued true none p ps s e n h = tt
popped-IsQueued false last p ps s e n h = tt

pub take-Queued :
    (p : ℕ) (ps : List ℕ) (w : Wake)
    → w.loop.pending_list ≡ p ∷ ps
    → (w.last ≡ some p → w.held ≡ false)
    → Queued w
    → Queued (take_pending ps w)
unfolding take_pending
take-Queued p ps w e n h = popped-IsQueued w.held w.last p ps w.loop e n h

no_timer-IsQueued : (held : Bool) (s : Loop) → IsQueued held none s
no_timer-IsQueued true s = tt
no_timer-IsQueued false s = tt

pub forget-Queued : (p : ℕ) (w : Wake) → Queued w → Queued (forget_last p w)
unfolding forget_last
forget-Queued p w h = elim (Bool-cases (points_at w.last p)) [
  | inl t ↦ rw t (no_timer-IsQueued w.held _)
  | inr t ↦ rw t h
]

pub free-Queued : (p : ℕ) (w : Wake) → Queued w → Queued (free_info p w)
unfolding free_info
free-Queued p w h = h
