-- ===== src/SapSocket/Queue.antt =====
-- `Ril_queue` of libril/rilSocketQueue.h, for the requests of a SAP socket: a linked list through
-- `p_next`, as the list of its addresses from `front` on.
use mathlib.Core.Option
use platform_hardware_ril.Base.{
  ℕ, Bool, true, false, Option, none, some, List, [], ◌∷◌, Bytes, ◌==◌, if◌then◌else◌,
}
use platform_hardware_ril.Base.Int.{ℤ}
use platform_hardware_ril.EventLoop.{eq_ℤ}

-- MsgHeader, as far as the sockets read it
pub record Header : Type 0 where
  pub token : ℤ
  pub id : ℕ
  pub payload : Bytes

-- SapSocketRequest; `curr` may be NULL.
pub record Request : Type 0 where
  pub token : ℤ
  pub curr : Option ℕ
  pub socket_id : ℕ

pub record Memory : Type 0 where
  pub requests : ℕ → Option Request
  pub headers : ℕ → Option Header

unfoldable pub store_request : ℕ → Request → Memory → Memory
store_request p r m = record m { requests = λ q. if q == p then some r else m.requests q }

unfoldable pub free_request : ℕ → Memory → Memory
free_request p m = record m { requests = λ q. if q == p then none else m.requests q }

unfoldable pub free_header : ℕ → Memory → Memory
free_header p m = record m { headers = λ q. if q == p then none else m.headers q }

abbrev pub empty_queue : List ℕ
empty_queue = []

-- at the front
unfoldable pub enqueue : ℕ → List ℕ → List ℕ
enqueue p ps = p ∷ ps

-- The element and the queue left; `none` is a wait.
unfoldable pub dequeue : List ℕ → Option (ℕ × List ℕ)
dequeue [] = none
dequeue (p ∷ ps) = some (p, ps)

-- `token == (*ppCur)->token && id == (*ppCur)->curr->id`; a NULL `curr` is read through.
unfoldable pub matches : ℕ → ℤ → Memory → Request → Option Bool
matches id token m r =
    if eq_ℤ token r.token
    then Option.map (λ h. id == h.id) (Option.bind r.curr m.headers)
    else some false

-- The queue and the memory behind `checkAndDequeue`; where nothing matches they stay.
unfoldable pub check_and_dequeue : ℕ → ℤ → List ℕ → Memory → Option (List ℕ × Memory)
check_and_dequeue id token [] m = some ([], m)
check_and_dequeue id token (p ∷ ps) m = elim (Option.bind (m.requests p) (matches id token m)) [
  | none ↦ none
  | some true ↦ some (ps, free_request p m)
  | some false ↦
      Option.map (λ (x : List ℕ × Memory). (p ∷ x.0, x.1)) (check_and_dequeue id token ps m)
]
