-- ===== src/SapSocket.antt =====
-- The SIM access profile socket: libril/RilSapSocket.cpp with the queue of libril/rilSocketQueue.h.
-- Pointers are numbers; what they point at is memory, where `none` is a structure that is freed (or
-- was never allocated). A result `none` is a read through such a pointer.
pub mod Queue
pub mod Complete
use mathlib.Core.Option
use platform_hardware_ril.Base.{
  ℕ, Bool, true, false, not, ◌&&◌, Option, none, some, List, [], ◌∷◌, ◌++◌, Bytes, codes, ltb, ◌==◌,
  if◌then◌else◌,
}
use platform_hardware_ril.Base.Int.{ℤ}
use platform_hardware_ril.Libc.{str_equal}
use platform_hardware_ril.SapSocket.Queue.{
  Memory, Request, Header, enqueue, check_and_dequeue, free_header, free_request, store_request,
}

-- A `RilSapSocket` in the list `head`; the flag is whether `uimFuncs` was set, and the queue is
-- `pendingResponseQueue`.
pub record Socket : Type 0 where
  pub name : Bytes
  pub id : ℕ
  pub has_funcs : Bool
  pub queue : List ℕ

-- what goes to the SAP service: the token, the message id, the error and the payload
pub record Response : Type 0 where
  pub token : ℤ
  pub id : ℕ
  pub error : ℕ
  pub payload : Bytes

-- `onRequest` of the vendor's library: the message id, the payload and the RIL_Token
pub record Asked : Type 0 where
  pub id : ℕ
  pub payload : Bytes
  pub t : ℕ

pub record Sap : Type 0 where
  pub memory : Memory
  pub sockets : List Socket
  pub asked : List Asked
  pub responses : List Response
  pub indications : List (ℕ × Bytes)

unfoldable pub get_socket_by_id : ℕ → List Socket → Option Socket
get_socket_by_id id [] = none
get_socket_by_id id (k ∷ ks) =
    let later = get_socket_by_id id ks in if k.id == id then some k else later

unfoldable pub socket_exists : Bytes → List Socket → Bool
socket_exists name [] = false
socket_exists name (k ∷ ks) =
    let later = socket_exists name ks in if str_equal k.name name then true else later

-- with memory for the list item
unfoldable pub add_socket_to_list : Bytes → ℕ → Bool → List Socket → List Socket
add_socket_to_list name id has_funcs ks =
    if socket_exists name ks
    then ks
    else ks ++ record { name = name; id = id; has_funcs = has_funcs; queue = [] } ∷ []

-- one of the tests of `initSapSocket`
unfoldable pub init_named : Bytes → ℕ → Bytes → Bool → List Socket → List Socket
init_named wanted id name has_funcs ks =
    if str_equal name wanted
    then (if socket_exists name ks then ks else add_socket_to_list name id has_funcs ks)
    else ks

-- as built for one SIM
unfoldable pub init_sap_socket : Bytes → Bool → List Socket → List Socket
init_sap_socket = init_named (codes "slot1") 0

-- The socket's queue is changed in place.
unfoldable pub put_socket : Socket → List Socket → List Socket
put_socket k [] = []
put_socket k (j ∷ ks) = if j.id == k.id then k ∷ ks else j ∷ put_socket k ks

-- behind the read of the header; the address is what `malloc` returns for the request
unfoldable pub dispatch_with : Socket → ℕ → ℕ → Sap → Header → Sap
dispatch_with k p hdr s h =
    let request : Request = record { token = h.token; curr = some hdr; socket_id = k.id } in
    let queued : Socket = record k { queue = enqueue p k.queue } in
    record s {
      memory = store_request p request s.memory;
      sockets = put_socket queued s.sockets;
      asked =
          if k.has_funcs
          then record { id = h.id; payload = h.payload; t = p } ∷ s.asked
          else s.asked;
    }

unfoldable pub dispatch_request : Socket → Option ℕ → ℕ → Sap → Option Sap
dispatch_request k none hdr s = some (record s { memory = free_header hdr s.memory })
dispatch_request k (some p) hdr s = Option.map (dispatch_with k p hdr s) (s.memory.headers hdr)

abbrev pub payload_of : Option Bytes → Bytes
payload_of none = []
payload_of (some bytes) = bytes

-- `sap::processResponse`, if there is memory for the payload
unfoldable pub send_response : Bool → Header → ℕ → Option Bytes → Sap → Sap
send_response false h e response s = s
send_response true h e response s = record s {
  responses =
      record { token = h.token; id = h.id; error = e; payload = payload_of response } ∷ s.responses;
}

-- behind `checkAndDequeue`: the queue left and the memory, then `free(hdr)`
unfoldable pub store_dequeued : Socket → ℕ → Sap → List ℕ × Memory → Sap
store_dequeued k hdr s (queue, memory) = record s {
  memory = free_header hdr memory;
  sockets = put_socket (record k { queue = queue }) s.sockets;
}

-- behind the read of the header
unfoldable pub complete_with : Socket → Bool → ℕ → ℕ → Option Bytes → Sap → Header → Option Sap
complete_with k memory hdr e response s h =
    Option.map (store_dequeued k hdr (send_response memory h e response s))
      (check_and_dequeue h.id h.token k.queue s.memory)

-- behind the read of `request->curr`
unfoldable pub complete_request : Socket → Bool → ℕ → Option Bytes → Sap → Request → Option Sap
complete_request k memory e response s r = elim r.curr [
  | none ↦ some s
  | some hdr ↦ Option.bind (s.memory.headers hdr) (complete_with k memory hdr e response s)
]

-- `onRequestComplete` of a socket; the first flag is whether `calloc` finds memory for the payload.
unfoldable pub on_request_complete : Socket → Bool → Option ℕ → ℕ → Option Bytes → Sap → Option Sap
on_request_complete k memory none e response s = some s
on_request_complete k memory (some t) e response s =
    Option.bind (s.memory.requests t) (complete_request k memory e response s)

-- no socket of the request's id: the header and the request are freed
unfoldable pub drop_request : ℕ → Request → Sap → Sap
drop_request t r s = record s {
  memory = free_request t (elim r.curr [ none ↦ s.memory | some hdr ↦ free_header hdr s.memory ]);
}

unfoldable pub complete_on : Bool → ℕ → ℕ → Option Bytes → Sap → Request → Option Sap
complete_on memory t e response s r = elim (get_socket_by_id r.socket_id s.sockets) [
  | none ↦ some (drop_request t r s)
  | some k ↦ on_request_complete k memory (some t) e response s
]

-- `sOnRequestComplete`, which reads through the token at once
unfoldable pub s_on_request_complete : Bool → Option ℕ → ℕ → Option Bytes → Sap → Option Sap
s_on_request_complete memory none e response s = none
s_on_request_complete memory (some t) e response s =
    Option.bind (s.memory.requests t) (complete_on memory t e response s)

-- `onUnsolicitedResponse`: data that is NULL or empty is not sent.
unfoldable pub on_unsolicited_response : Bool → ℕ → Option Bytes → Sap → Sap
on_unsolicited_response memory code none s = s
on_unsolicited_response memory code (some []) s = s
on_unsolicited_response memory code (some (b ∷ bs)) s =
    if memory then record s { indications = (code, b ∷ bs) ∷ s.indications } else s

-- `sOnUnsolicitedResponse`, as built for one SIM
unfoldable pub s_on_unsolicited_response : Bool → ℕ → Option Bytes → Sap → Sap
s_on_unsolicited_response memory code data_sent s = elim (get_socket_by_id 0 s.sockets) [
  | none ↦ s
  | some k ↦ on_unsolicited_response memory code data_sent s
]
