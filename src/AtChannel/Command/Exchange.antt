-- ===== src/AtChannel/Command/Exchange.antt =====
-- A whole exchange: a command, the lines that come back, and what the caller gets.
use platform_hardware_ril.AtChannel.Command.Sorting.{
  HasPrefix, IsOrdinary, sort, sorted, process_lines, process_lines-sorted,
}
use mathlib.Core.Option
use mathlib.Core.Option.{some-injective}
use mathlib.Core.List.{append-nil}
use platform_hardware_ril.Base.{
  ap₂, ◌≡◌, refl, ap, ◌∙◌, Bool, true, false, not, ◌||◌, Option, none, some, List, [], ◌∷◌, ◌++◌,
  map, Bytes, All, if◌then◌else◌,
}
use platform_hardware_ril.AtChannel.Lines.{is_final_response_success, is_final_response_error}
use platform_hardware_ril.AtChannel.Reader.{
  Channel, Response, process_pending, process_line_for, process_line, handle_final_response,
}
use platform_hardware_ril.AtChannel.Write.{Device, ok, writeline}
use platform_hardware_ril.AtChannel.Command.{
  Run, returns, reads_null, and_then, handled, other_command, other_thread, channel_closed,
  command_pending, Event, line, wakes, reverse_onto, Reply, Request, wait_for_response,
  at_send_command_full_nolock, after_writeline, test_response, finish_command, reply,
  clear_pending_command, reverse_intermediates, new_response, is_some,
}

-- The final response that ends an exchange: of success, or of an error.
abbrev pub IsFinal : Bool → Bytes → Type 0
IsFinal true f = is_final_response_success f ≡ true
IsFinal false f = (is_final_response_success f ≡ false) × (is_final_response_error f ≡ true)

process_line-final :
    (good : Bool) (f : Bytes) (c : Channel) (r : Response)
    → c.response ≡ some r
    → IsFinal good f
    → process_line f c ≡ some (handle_final_response f good r c)
unfolding process_line process_line_for process_pending
process_line-final true f c r e h = ap (λ o. process_line_for o f c) e ∙ rw h
process_line-final false f c r e h = ap (λ o. process_line_for o f c) e ∙ rw (h.0, h.1)

wait-lines :
    (timed wants_out : Bool) (ls : List Bytes) (events : List Event) (c d : Channel)
    → process_lines ls c ≡ some d
    → wait_for_response timed wants_out (map line ls ++ events) c
      ≡ wait_for_response timed wants_out events d
unfolding wait_for_response process_lines handled and_then Option.bind
wait-lines timed wants_out [] events c d e =
    ap (wait_for_response timed wants_out events) (some-injective _ _ e)
wait-lines timed wants_out (l ∷ ls) events c d e =
    one (process_line l c) e (λ x. wait-lines timed wants_out ls events x d)
  where
    one :
        (o : Option Channel)
        → Option.bind o (process_lines ls) ≡ some d
        → ((x : Channel)
            → process_lines ls x ≡ some d
            → wait_for_response timed wants_out (map line ls ++ events) x
              ≡ wait_for_response timed wants_out events d)
        → and_then
            (handled c.response_prefix o)
            (wait_for_response timed wants_out (map line ls ++ events))
          ≡ wait_for_response timed wants_out events d
    one none h ih = cc
    one (some x) h ih = ih x h

reverse_onto-reverse_onto :
    (d a xs : List Bytes) → reverse_onto d (reverse_onto a xs) ≡ reverse_onto (xs ++ d) a
unfolding reverse_onto
reverse_onto-reverse_onto d a [] = refl
reverse_onto-reverse_onto d a (x ∷ xs) = reverse_onto-reverse_onto d (x ∷ a) xs

-- The lists of a response come back in the order in which the lines came.
reverse_twice : (xs : List Bytes) → reverse_onto [] (reverse_onto [] xs) ≡ xs
unfolding reverse_onto
reverse_twice xs = reverse_onto-reverse_onto [] [] xs ∙ append-nil xs

-- the channel behind a command: nothing is pending, and the lines passed are with the handler
abbrev pub after_exchange : Request → Channel → Device → List Bytes → Channel
after_exchange q c device passed = record c {
  type = q.type;
  device = device;
  response = none;
  response_prefix = none;
  sms_pdu = none;
  unsolicited = c.unsolicited ++ map (λ l. (l, none)) passed;
}

-- the response that the caller gets
abbrev pub answer : Bool → Bytes → List Bytes → Response
answer good f kept = record { success = good; final_response = some f; intermediates = kept }

-- the channel behind `writeline`
abbrev pub started : Request → Channel → Device → Channel
started q c device = record c {
  device = device;
  type = q.type;
  response_prefix = q.prefix;
  sms_pdu = q.pdu;
  response = some new_response;
}

module _ (q : Request) (c : Channel) (device : Device) (opened : c.reader_closed ≡ false) where
  pub start_waiting :
      (events : List Event)
      → c.fd_open ≡ true
      → c.response ≡ none
      → writeline false q.command c.device ≡ some (ok, device)
      → at_send_command_full_nolock q events c
        ≡ wait_for_response q.timed q.wants_out events (started q c device)
  unfolding at_send_command_full_nolock after_writeline test_response
  start_waiting events fd idle sent =
      ap (λ o. if is_some o then returns (reply command_pending none c events) else sending) idle
      ∙ ap₂ (λ a b. after_writeline q events c (writeline (not a || b) q.command c.device)) fd
          opened
      ∙ ap (after_writeline q events c) sent
      ∙ ap
          (λ b.
            if b
            then returns (finish_command q.wants_out new_response (started q c device) events)
            else waiting)
          opened
    where
      sending : Run Reply
      sending =
          after_writeline q events c
            (writeline (not c.fd_open || c.reader_closed) q.command c.device)

      waiting : Run Reply
      waiting = wait_for_response q.timed q.wants_out events (started q c device)

  finish_waiting :
      (good : Bool) (f : Bytes) (events : List Event) (x : List Bytes × List Bytes)
      → IsFinal good f
      → wait_for_response q.timed q.wants_out
          (line f ∷ wakes ∷ events)
          (sorted (started q c device) new_response x)
        ≡ returns (record {
          code = ok;
          out = if q.wants_out then some (answer good f x.0) else none;
          channel = after_exchange q c device x.1;
          to_come = events;
        })
  unfolding wait_for_response test_response finish_command reply clear_pending_command
      reverse_intermediates handle_final_response handled and_then
  finish_waiting good f events x final =
      ap
        (λ m.
          and_then (handled q.prefix m) (wait_for_response q.timed q.wants_out (wakes ∷ events)))
        (process_line-final good f (sorted (started q c device) new_response x)
          (record new_response { intermediates = reverse_onto [] x.0 }) refl final)
      ∙ ap₂
          (λ b kept. returns (record {
            code = if b then channel_closed else ok;
            out = if q.wants_out then some (answer good f kept) else none;
            channel = after_exchange q c device x.1;
            to_come = events;
          }))
          opened (reverse_twice x.0)

-- A command on an open and idle channel, whose text goes out, and that sends no PDU: when the modem
-- answers by ordinary lines and a final response, and the waiting thread wakes, the call returns 0.
-- The response has the final line, whether it means success, and exactly the lines that the
-- command's type keeps, in the order in which they came; the other lines went to the handler, in
-- order; and nothing is pending any more.
pub send_command-answer :
    (q : Request) (c : Channel) (device : Device) (p : Bytes) (ls : List Bytes) (good : Bool)
    (f : Bytes) (events : List Event)
    → c.has_handler ≡ true
    → c.fd_open ≡ true
    → c.reader_closed ≡ false
    → c.response ≡ none
    → q.pdu ≡ none
    → HasPrefix q.type q.prefix p
    → writeline false q.command c.device ≡ some (ok, device)
    → All IsOrdinary ls
    → IsFinal good f
    → at_send_command_full_nolock q (map line ls ++ (line f ∷ wakes ∷ events)) c
      ≡ returns (record {
        code = ok;
        out = if q.wants_out then some (answer good f (sort q.type p false ls).0) else none;
        channel = after_exchange q c device (sort q.type p false ls).1;
        to_come = events;
      })
send_command-answer q c device p ls good f events h fd opened idle pdu prefix sent o final =
    start_waiting q c device opened _ fd idle sent
    ∙ wait-lines q.timed q.wants_out ls (line f ∷ wakes ∷ events) (started q c device) _
        (process_lines-sorted p ls o (started q c device) new_response h pdu refl prefix)
    ∙ finish_waiting q c device opened good f events (sort q.type p false ls) final

-- If another thread sends a command while a call waits, that thread finds a response pending and
-- clears it: when the first call wakes, whatever happens later, it reads through the NULL that is
-- left.
pub send_command-interrupted :
    (q : Request) (c : Channel) (device : Device) (events : List Event)
    → c.fd_open ≡ true
    → c.reader_closed ≡ false
    → c.response ≡ none
    → writeline false q.command c.device ≡ some (ok, device)
    → at_send_command_full_nolock q (other_command ∷ wakes ∷ events) c ≡ reads_null
unfolding wait_for_response other_thread and_then test_response clear_pending_command
send_command-interrupted q c device events fd opened idle sent =
    start_waiting q c device opened (other_command ∷ wakes ∷ events) fd idle sent
