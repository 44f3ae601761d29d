-- ===== src/Dispatcher/Requests.antt =====
-- The pending requests of libril/ril.cpp, as built for one SIM: a request is added by the service
-- layer, and its RIL_Token, the address of its structure, comes back with an acknowledgement or a
-- response. The list holds what the structures hold.
pub mod Tokens
use platform_hardware_ril.Base.{
  ℕ, Bool, true, false, not, ◌&&◌, Option, none, some, List, [], ◌∷◌, Bytes, leb, ◌==◌,
  if◌then◌else◌,
}
use platform_hardware_ril.Base.Int.{ℤ}
use platform_hardware_ril.Dispatcher.WakeLock.{Wake, Call, grab_partial_wake_lock}

pub record Request : Type 0 where
  pub address : ℕ
  pub token : ℤ
  pub number : ℕ
  pub local : Bool
  pub cancelled : Bool
  pub was_ack_sent : Bool

pub data ResponseType : Type 0 where
  solicited unsolicited solicited_ack solicited_ack_exp unsolicited_ack_exp : ResponseType

-- What goes up to the radio service: `acknowledgeRequest`, or the call of a response function with
-- the response type, the token, the request's number, the error and the payload.
pub data Sent : Type 0 where
  acknowledged : ℤ → Sent
  responded : ResponseType → ℤ → ℕ → ℕ → Option Bytes → Sent

-- `s_pendingRequests`, the wake lock, and what was sent, the latest first
pub record Dispatch : Type 0 where
  pub pending : List Request
  pub wake : Wake
  pub sent : List Sent

-- The address is what `calloc` returns.
unfoldable pub add_request_to_list : Option ℕ → ℤ → ℕ → Dispatch → Option ℕ × Dispatch
add_request_to_list none serial request d = (none, d)
add_request_to_list (some p) serial request d =
    let new : Request = record {
      address = p;
      token = serial;
      number = request;
      local = false;
      cancelled = false;
      was_ack_sent = false;
    } in
    (some p, record d { pending = new ∷ d.pending })

-- what the loop does at the request it looks for; the flag is `isAck`
unfoldable pub take_or_ack : Bool → Request → List Request → Option Request × List Request
take_or_ack true r rs = let acked = record r { was_ack_sent = true } in (some acked, acked ∷ rs)
take_or_ack false r rs = (some r, rs)

unfoldable pub dequeue_if_ack : ℕ → Bool → List Request → Option Request × List Request
dequeue_if_ack p is_ack [] = (none, [])
dequeue_if_ack p is_ack (r ∷ rs) =
    let (found, rest) = dequeue_if_ack p is_ack rs in
    if r.address == p then take_or_ack is_ack r rs else (found, r ∷ rest)

-- The request found, if any, and the list behind; a token that is NULL finds none.
unfoldable pub check_and_dequeue_request_info_if_ack :
    Option ℕ → Bool → List Request → Option Request × List Request
check_and_dequeue_request_info_if_ack none is_ack rs = (none, rs)
check_and_dequeue_request_info_if_ack (some p) is_ack rs = dequeue_if_ack p is_ack rs

unfoldable pub send_ack : Option Request → Dispatch → Dispatch
send_ack none d = d
send_ack (some r) d = if r.cancelled then d else record d { sent = acknowledged r.token ∷ d.sent }

unfoldable pub ril_on_request_ack : Option ℕ → Dispatch → Dispatch
ril_on_request_ack t d =
    let (found, rest) = check_and_dequeue_request_info_if_ack t true d.pending in
    send_ack found (record d { pending = rest })

-- `s_callbacks.version >= 13 && pRI->wasAckSent == 1`
unfoldable pub expects_ack : Request → Wake → Bool
expects_ack r w = leb 13 w.version && r.was_ack_sent

unfoldable pub respond : Call → Request → ℕ → Option Bytes → Dispatch → Dispatch
respond call r e response d =
    if expects_ack r d.wake
    then record d {
      wake = grab_partial_wake_lock call d.wake;
      sent = responded solicited_ack_exp r.token r.number e response ∷ d.sent;
    }
    else record d { sent = responded solicited r.token r.number e response ∷ d.sent }

-- behind the test of the token
unfoldable pub complete_request : Call → Option Request → ℕ → Option Bytes → Dispatch → Dispatch
complete_request call none e response d = d
complete_request call (some r) e response d =
    if r.local then d else if r.cancelled then d else respond call r e response d

unfoldable pub ril_on_request_complete : Call → Option ℕ → ℕ → Option Bytes → Dispatch → Dispatch
ril_on_request_complete call t e response d =
    let (found, rest) = check_and_dequeue_request_info_if_ack t false d.pending in
    complete_request call found e response (record d { pending = rest })
