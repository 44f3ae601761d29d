-- ===== src/Dispatcher/Requests/Tokens.antt =====
-- Over every history of requests, acknowledgements and responses: no request is lost, none is
-- answered twice, and a token that is not pending changes nothing.
use platform_hardware_ril.Base.{
  subst, ℕ, ◌+◌, ◌≡◌, ◌≢◌, refl, sym, ap, Bool, true, false, Option, none, some, List, [], ◌∷◌, All,
  Bytes, arith, ◌==◌, ==_iff, inl, inr, Bool-cases,
}
use platform_hardware_ril.Base.Int.{ℤ}
use platform_hardware_ril.EventLoop.{eq_ℤ}
use platform_hardware_ril.Dispatcher.WakeLock.{Call}
use platform_hardware_ril.Dispatcher.Requests.{
  Request, Sent, acknowledged, responded, Dispatch, add_request_to_list, take_or_ack,
  dequeue_if_ack, check_and_dequeue_request_info_if_ack, send_ack, ril_on_request_ack, expects_ack,
  respond, complete_request, ril_on_request_complete,
}

-- What happens: a request comes in, for which `calloc` returns an address or NULL; the vendor's
-- library acknowledges or completes a token.
pub data Op : Type 0 where
  adds : Option ℕ → ℤ → ℕ → Op
  acks : Option ℕ → Op
  completes : Call → Option ℕ → ℕ → Option Bytes → Op

unfoldable pub step : Op → Dispatch → Dispatch
step (adds p serial number) d = (add_request_to_list p serial number d).1
step (acks t) d = ril_on_request_ack t d
step (completes call t e response) d = ril_on_request_complete call t e response d

unfoldable pub run : List Op → Dispatch → Dispatch
run [] d = d
run (op ∷ ops) d = run ops (step op d)

abbrev one_if : Bool → ℕ
one_if true = 1
one_if false = 0

-- how many requests with a serial number are pending
abbrev pub pending_with : ℤ → List Request → ℕ
pending_with s [] = 0
pending_with s (r ∷ rs) = one_if (eq_ℤ r.token s) + pending_with s rs

-- how many responses with a serial number were sent
abbrev pub answered_with : ℤ → List Sent → ℕ
answered_with s [] = 0
answered_with s (acknowledged t ∷ sent) = answered_with s sent
answered_with s (responded type t number e response ∷ sent) =
    one_if (eq_ℤ t s) + answered_with s sent

abbrev added : ℤ → Op → ℕ
added s (adds (some p) t number) = one_if (eq_ℤ t s)
added s (adds none t number) = 0
added s (acks t) = 0
added s (completes call t e response) = 0

-- how many requests with a serial number came in, with memory for them
abbrev pub added_with : ℤ → List Op → ℕ
added_with s [] = 0
added_with s (op ∷ ops) = added s op + added_with s ops

-- A request of the service layer: no code sets the two flags.
abbrev pub IsRemote : Request → Type 0
IsRemote r = (r.local ≡ false) × (r.cancelled ≡ false)

-- of the request that is taken out or acknowledged, and the list behind
abbrev Dequeued : ℤ → Bool → List Request → Option Request × List Request → Type 0
Dequeued s is_ack before (none, rest) =
    (pending_with s rest ≡ pending_with s before) × All IsRemote rest
Dequeued s true before (some r, rest) =
    (pending_with s rest ≡ pending_with s before) × All IsRemote rest
Dequeued s false before (some r, rest) =
    (pending_with s before ≡ one_if (eq_ℤ r.token s) + pending_with s rest)
    × All IsRemote rest
    × IsRemote r

dequeue-Dequeued :
    (s : ℤ) (p : ℕ) (is_ack : Bool) (rs : List Request)
    → All IsRemote rs
    → Dequeued s is_ack rs (dequeue_if_ack p is_ack rs)
unfolding dequeue_if_ack take_or_ack
dequeue-Dequeued s p is_ack [] h = (refl, tt)
dequeue-Dequeued s p is_ack (r ∷ rs) (h, hs) = elim (Bool-cases (r.address == p)) [
  | inl e ↦ rw e (here is_ack)
  | inr e ↦ rw e (later is_ack (dequeue_if_ack p is_ack rs) (dequeue-Dequeued s p is_ack rs hs))
]
  where
    here : (b : Bool) → Dequeued s b (r ∷ rs) (take_or_ack b r rs)
    here true = (refl, (h, hs))
    here false = (refl, hs, h)

    later :
        (b : Bool) (x : Option Request × List Request)
        → Dequeued s b rs x
        → Dequeued s b (r ∷ rs) (x.0, r ∷ x.1)
    later b (none, rest) (e, all) = (ap (λ n. one_if (eq_ℤ r.token s) + n) e, (h, all))
    later true (some q, rest) (e, all) = (ap (λ n. one_if (eq_ℤ r.token s) + n) e, (h, all))
    later false (some q, rest) (e, all, hq) = (omega (arith, e), (h, all), hq)

check-Dequeued :
    (s : ℤ) (t : Option ℕ) (is_ack : Bool) (rs : List Request)
    → All IsRemote rs
    → Dequeued s is_ack rs (check_and_dequeue_request_info_if_ack t is_ack rs)
unfolding check_and_dequeue_request_info_if_ack
check-Dequeued s none is_ack rs h = (refl, h)
check-Dequeued s (some p) is_ack rs h = dequeue-Dequeued s p is_ack rs h

abbrev balance : ℤ → Dispatch → ℕ
balance s d = answered_with s d.sent + pending_with s d.pending

-- One step adds to the balance what comes in.
abbrev Balanced : ℤ → ℕ → Dispatch → Dispatch → Type 0
Balanced s n d d' = (balance s d' ≡ n + balance s d) × All IsRemote d'.pending

ack-Balanced :
    (s : ℤ) (d : Dispatch) (x : Option Request × List Request)
    → Dequeued s true d.pending x
    → Balanced s 0 d (send_ack x.0 (record d { pending = x.1 }))
unfolding send_ack
ack-Balanced s d (none, rest) (e, all) = (omega (arith, e), all)
ack-Balanced s d (some r, rest) (e, all) = elim (Bool-cases r.cancelled) [
  | inl c ↦ rw c (omega (arith, e), all)
  | inr c ↦ rw c (omega (arith, e), all)
]

complete-Balanced :
    (s : ℤ) (call : Call) (d : Dispatch) (x : Option Request × List Request) (n : ℕ)
    (response : Option Bytes)
    → Dequeued s false d.pending x
    → Balanced s 0 d (complete_request call x.0 n response (record d { pending = x.1 }))
unfolding complete_request respond expects_ack
complete-Balanced s call d (none, rest) n response (e, all) = (omega (arith, e), all)
complete-Balanced s call d (some r, rest) n response (e, all, (local, cancelled)) =
    rw (local, cancelled)
      (elim (Bool-cases (expects_ack r d.wake)) [
        | inl c ↦ rw c (omega (arith, e), all)
        | inr c ↦ rw c (omega (arith, e), all)
      ])

step-Balanced :
    (s : ℤ) (op : Op) (d : Dispatch)
    → All IsRemote d.pending
    → Balanced s (added s op) d (step op d)
unfolding step add_request_to_list ril_on_request_ack ril_on_request_complete
step-Balanced s (adds none t number) d h = (omega arith, h)
step-Balanced s (adds (some p) t number) d h = (omega arith, ((refl, refl), h))
step-Balanced s (acks t) d h = ack-Balanced s d _ (check-Dequeued s t true d.pending h)
step-Balanced s (completes call t e response) d h =
    complete-Balanced s call d _ e response (check-Dequeued s t false d.pending h)

-- In every history, of any requests, acknowledgements and responses, with any tokens, also invalid
-- ones: for each serial number, the responses sent and the requests still pending are together as
-- many as they were at the start and the requests that came in. So no request is lost, and none is
-- answered twice.
pub run_balance :
    (s : ℤ) (ops : List Op) (d : Dispatch)
    → All IsRemote d.pending
    → answered_with s (run ops d).sent + pending_with s (run ops d).pending
      ≡ added_with s ops + (answered_with s d.sent + pending_with s d.pending)
unfolding run
run_balance s [] d h = omega arith
run_balance s (op ∷ ops) d h =
    let (e, remote) : Balanced s (added s op) d (step op d) = step-Balanced s op d h in
    omega (arith, e, run_balance s ops (step op d) remote)

-- no pending request stands at an address
abbrev pub IsDead : ℕ → List Request → Type 0
IsDead p rs = All (λ r. r.address ≢ p) rs

dequeue_dead :
    (p : ℕ) (is_ack : Bool) (rs : List Request)
    → IsDead p rs
    → dequeue_if_ack p is_ack rs ≡ (none, rs)
unfolding dequeue_if_ack
dequeue_dead p is_ack [] h = refl
dequeue_dead p is_ack (r ∷ rs) (h, hs) = elim (Bool-cases (r.address == p)) [
  | inl e ↦ absurd (h ((==_iff r.address p).0 e))
  | inr e ↦ rw (e, dequeue_dead p is_ack rs hs) refl
]

abbrev pub IsUnique : List Request → Type 0
IsUnique [] = Unit
IsUnique (r ∷ rs) = IsDead r.address rs × IsUnique rs

dequeue-IsDead : (p : ℕ) (rs : List Request) → IsUnique rs → IsDead p (dequeue_if_ack p false rs).1
unfolding dequeue_if_ack take_or_ack
dequeue-IsDead p [] u = tt
dequeue-IsDead p (r ∷ rs) (dead, u) = elim (Bool-cases (r.address == p)) [
  | inl e ↦ rw e (subst (λ q. IsDead q rs) ((==_iff r.address p).0 e) dead)
  | inr e ↦ rw e ((λ f. cc ((==_iff r.address p).1 f)), dequeue-IsDead p rs u)
]

complete_pending :
    (call : Call) (r : Option Request) (e : ℕ) (response : Option Bytes) (d : Dispatch)
    → (complete_request call r e response d).pending ≡ d.pending
unfolding complete_request respond
complete_pending call none e response d = refl
complete_pending call (some r) e response d = ground arith

-- An acknowledgement or a response for a token that is not pending changes nothing at all.
pub dead_token :
    (p : ℕ) (call : Call) (e : ℕ) (response : Option Bytes) (d : Dispatch)
    → IsDead p d.pending
    → (ril_on_request_ack (some p) d ≡ d) × (ril_on_request_complete call (some p) e response d ≡ d)
unfolding ril_on_request_ack ril_on_request_complete check_and_dequeue_request_info_if_ack send_ack
    complete_request
dead_token p call e response d h =
    (rw (dequeue_dead p true d.pending h) refl, rw (dequeue_dead p false d.pending h) refl)

-- No new request is placed at an address.
abbrev pub Elsewhere : ℕ → Op → Type 0
Elsewhere p (adds (some q) serial number) = q ≢ p
Elsewhere p _ = Unit

dequeue-kept :
    (p q : ℕ) (is_ack : Bool) (rs : List Request)
    → IsDead p rs
    → IsDead p (dequeue_if_ack q is_ack rs).1
unfolding dequeue_if_ack take_or_ack
dequeue-kept p q is_ack [] h = tt
dequeue-kept p q is_ack (r ∷ rs) (n, h) = elim (Bool-cases (r.address == q)) [
  | inl e ↦ rw e (here is_ack)
  | inr e ↦ rw e (n, dequeue-kept p q is_ack rs h)
]
  where
    here : (b : Bool) → IsDead p (take_or_ack b r rs).1
    here true = (n, h)
    here false = h

check-kept :
    (p : ℕ) (t : Option ℕ) (is_ack : Bool) (rs : List Request)
    → IsDead p rs
    → IsDead p (check_and_dequeue_request_info_if_ack t is_ack rs).1
unfolding check_and_dequeue_request_info_if_ack
check-kept p none is_ack rs h = h
check-kept p (some q) is_ack rs h = dequeue-kept p q is_ack rs h

send_ack-pending : (o : Option Request) (d : Dispatch) → (send_ack o d).pending ≡ d.pending
unfolding send_ack
send_ack-pending none d = refl
send_ack-pending (some r) d = ground arith

step-kept :
    (p : ℕ) (op : Op) (d : Dispatch)
    → Elsewhere p op
    → IsDead p d.pending
    → IsDead p (step op d).pending
unfolding step add_request_to_list ril_on_request_ack ril_on_request_complete
step-kept p (adds none serial number) d n h = h
step-kept p (adds (some q) serial number) d n h = (n, h)
step-kept p (acks t) d n h =
    subst (IsDead p) (sym (send_ack-pending _ _)) (check-kept p t true d.pending h)
step-kept p (completes call t e response) d n h =
    subst (IsDead p) (sym (complete_pending call _ e response _)) (check-kept p t false d.pending h)

run-kept :
    (p : ℕ) (ops : List Op) (d : Dispatch)
    → All (Elsewhere p) ops
    → IsDead p d.pending
    → IsDead p (run ops d).pending
unfolding run
run-kept p [] d n h = h
run-kept p (op ∷ ops) d (n, ns) h = run-kept p ops (step op d) ns (step-kept p op d n h)

-- Where the pending requests stand at different addresses, a response ends its token: whatever
-- requests, acknowledgements and responses come afterwards, as long as no new request is placed at
-- the address, a later acknowledgement and a later response for the token change nothing at all.
pub complete_once :
    (p : ℕ) (call call' : Call) (e e' : ℕ) (response response' : Option Bytes) (ops : List Op)
    (d : Dispatch)
    → IsUnique d.pending
    → All (Elsewhere p) ops
    → let later = run ops (ril_on_request_complete call (some p) e response d) in
      (ril_on_request_ack (some p) later ≡ later)
      × (ril_on_request_complete call' (some p) e' response' later ≡ later)
complete_once p call call' e e' response response' ops d u n =
    dead_token p call' e' response' _ (run-kept p ops _ n dead)
  where
    unfolded :
        (ril_on_request_complete call (some p) e response d).pending
        ≡ (dequeue_if_ack p false d.pending).1
    unfolded =
        unfold ril_on_request_complete check_and_dequeue_request_info_if_ack in
        complete_pending call _ e response _

    dead : IsDead p (ril_on_request_complete call (some p) e response d).pending
    dead = subst (IsDead p) (sym unfolded) (dequeue-IsDead p d.pending u)
