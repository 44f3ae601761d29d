-- ===== src/SapSocket/Complete.antt =====
-- Responses to the requests of a SAP socket: the one that is answered leaves the queue, if no other
-- request before it has its token and message id; otherwise that one does.
use platform_hardware_ril.Base.{
  ℕ, ◌≡◌, refl, ap, ◌∙◌, Bool, true, false, Option, none, some, List, [], ◌∷◌, ◌++◌, All, Bytes,
  arith, ◌==◌, ==_iff,
}
use mathlib.Core.Option
use platform_hardware_ril.Base.Int.{ℤ}
use platform_hardware_ril.EventLoop.{eq_ℤ}
use platform_hardware_ril.SapSocket.Queue.{
  Memory, Request, Header, matches, check_and_dequeue, free_request, free_header,
}
use platform_hardware_ril.SapSocket.{
  Socket, Sap, payload_of, send_response, store_dequeued, complete_with, complete_request,
  on_request_complete, put_socket,
}

-- A request whose structure and header are there, with their token and message id.
pub record Pends (m : Memory) (p : ℕ) (token : ℤ) (id : ℕ) : Type 0 where
  pub request : Request
  pub at : ℕ
  pub header : Header
  pub stored : m.requests p ≡ some request
  pub current : request.curr ≡ some at
  pub read : m.headers at ≡ some header
  pub request_token : request.token ≡ token
  pub header_token : header.token ≡ token
  pub header_id : header.id ≡ id

-- the test of `checkAndDequeue` at a request of the queue
abbrev pub test : ℕ → ℤ → Memory → ℕ → Option Bool
test id token m p = Option.bind (m.requests p) (matches id token m)

test_pending :
    (m : Memory) (p : ℕ) (token token' : ℤ) (id id' : ℕ)
    → Pends m p token id
    → eq_ℤ token' token ≡ true
    → test id' token' m p ≡ some (id' == id)
unfolding matches Option.bind
test_pending m p token token' id id' q e =
    rw (q.stored, q.request_token, e, q.current, q.read, q.header_id) refl

eq_ℤ-same : (a : ℤ) → eq_ℤ a a ≡ true
eq_ℤ-same a = ground arith

check_and_dequeue-first :
    (id : ℕ) (token : ℤ) (before after : List ℕ) (t : ℕ) (m : Memory)
    → All (λ p. test id token m p ≡ some false) before
    → test id token m t ≡ some true
    → check_and_dequeue id token (before ++ (t ∷ after)) m
      ≡ some (before ++ after, free_request t m)
unfolding check_and_dequeue
check_and_dequeue-first id token [] after t m h e = rw (e, check_and_dequeue) refl
check_and_dequeue-first id token (p ∷ before) after t m (h, hs) e =
    rw (h, check_and_dequeue) (rw (check_and_dequeue-first id token before after t m hs e) refl)

-- behind the response to a request: sent, freed with its header, and out of the queue
abbrev pub completed : Socket → ℕ → ℕ → List ℕ → Header → ℕ → Option Bytes → Sap → Sap
completed k t hdr queue h e response s = record s {
  memory = free_header hdr (free_request t s.memory);
  sockets = put_socket (record k { queue = queue }) s.sockets;
  responses =
      record { token = h.token; id = h.id; error = e; payload = payload_of response } ∷ s.responses;
}

complete_found :
    (k : Socket) (t hdr freed e : ℕ) (queue : List ℕ) (response : Option Bytes) (s : Sap)
    (r : Request) (h : Header)
    → s.memory.requests t ≡ some r
    → r.curr ≡ some hdr
    → s.memory.headers hdr ≡ some h
    → check_and_dequeue h.id h.token k.queue s.memory ≡ some (queue, free_request freed s.memory)
    → on_request_complete k true (some t) e response s
      ≡ some (
          store_dequeued k hdr
            (send_response true h e response s)
            (queue, free_request freed s.memory))
unfolding on_request_complete complete_with Option.bind complete_request
complete_found k t hdr freed e queue response s r h stored current read found =
    ap (λ o. Option.bind o (complete_request k true e response s)) stored
    ∙ rw current refl
    ∙ ap (λ o. Option.bind o (complete_with k true hdr e response s)) read
    ∙ ap (Option.map (store_dequeued k hdr (send_response true h e response s))) found

-- Where a request pends in the queue of its socket, and no request before it there has both its
-- token and its message id, `onRequestComplete` reads through no freed pointer: it sends one response with the
-- request's token and message id, takes that request out of the queue and no other, and frees
-- it and its header.
pub on_request_complete_first :
    (k : Socket) (t e id : ℕ) (token : ℤ) (before after : List ℕ) (response : Option Bytes)
    (s : Sap) (q : Pends s.memory t token id)
    → k.queue ≡ before ++ (t ∷ after)
    → All (λ p. test id token s.memory p ≡ some false) before
    → on_request_complete k true (some t) e response s
      ≡ some (completed k t q.at (before ++ after) q.header e response s)
unfolding store_dequeued send_response
on_request_complete_first k t e id token before after response s q queue others =
    complete_found k t q.at t e (before ++ after) response s q.request q.header q.stored q.current
      q.read
      (rw (q.header_id, q.header_token, queue)
        (check_and_dequeue-first id token before after t s.memory others hit))
  where
    hit : test id token s.memory t ≡ some true
    hit =
        test_pending s.memory t token token id id q (eq_ℤ-same token)
        ∙ ap some ((==_iff id id).1 refl)

freed_request : (p at : ℕ) (m : Memory) → (free_header at (free_request p m)).requests p ≡ none
unfolding free_header free_request
freed_request p at m = rw ((==_iff p p).1 refl) refl

freed_fault :
    (k : Socket) (p e : ℕ) (response : Option Bytes) (s : Sap) (memory : Bool)
    → s.memory.requests p ≡ none
    → on_request_complete k memory (some p) e response s ≡ none
unfolding on_request_complete Option.bind
freed_fault k p e response s memory h =
    ap (λ o. Option.bind o (complete_request k memory e response s)) h

-- Where the two requests at the front of a queue have the same token and the same message id, the
-- response to the second frees the first, the newer one, in its place: that response goes out, and
-- the one to the first then reads through the freed pointer, whatever socket it comes to.
pub twin_requests :
    (k k' : Socket) (p t e e' id : ℕ) (token : ℤ) (rest : List ℕ)
    (response response' : Option Bytes) (s : Sap) (memory : Bool)
    → Pends s.memory p token id
    → (q : Pends s.memory t token id) → k.queue ≡ p ∷ t ∷ rest
    → (s' : Sap) × (on_request_complete k true (some t) e response s ≡ some s')
      × (on_request_complete k' memory (some p) e' response' s' ≡ none)
unfolding store_dequeued send_response
twin_requests k k' p t e e' id token rest response response' s memory first q queue = (
  store_dequeued k q.at (send_response true q.header e response s)
      (t ∷ rest, free_request p s.memory),
  complete_found k t q.at p e (t ∷ rest) response s q.request q.header q.stored q.current q.read (
      rw (q.header_id, q.header_token, queue)
        (check_and_dequeue-first id token [] (t ∷ rest) p s.memory tt (
          test_pending s.memory p token token id id first (eq_ℤ-same token)
          ∙ ap some ((==_iff id id).1 refl)))),
  freed_fault k' p e' response' _ memory (freed_request p q.at s.memory),
)
