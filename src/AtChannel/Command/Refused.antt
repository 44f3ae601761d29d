-- ===== src/AtChannel/Command/Refused.antt =====
-- A single-line command that the modem of reference-ril/atchannel.c refuses.
use platform_hardware_ril.Base.{
  All, Bytes, List, [], false, map, none, refl, some, true, ◌++◌, ◌∷◌, ◌≡◌,
}
use platform_hardware_ril.AtChannel.Command.{
  Event, and_then, at_send_command_full, at_send_command_singleline, check_response, count_timeout,
  line, request, returns, wakes,
}
use platform_hardware_ril.AtChannel.Command.Exchange.{
  after_exchange, IsFinal, answer, send_command-answer,
}
use platform_hardware_ril.AtChannel.Command.Sorting.{IsOrdinary, sort}
use platform_hardware_ril.AtChannel.Reader.{Channel, singleline}
use platform_hardware_ril.AtChannel.Write.{Device, ok, writeline}
use platform_hardware_ril.AtChannel.Lines.{str_starts_with}

-- no line starts with the prefix
abbrev pub Unrelated : Bytes → List Bytes → Type 0
Unrelated prefix = All (λ l. str_starts_with l prefix ≡ false)

sort-Unrelated :
    (prefix : Bytes) (ls : List Bytes)
    → Unrelated prefix ls
    → (sort singleline prefix false ls).0 ≡ []
unfolding sort
sort-Unrelated prefix [] h = refl
sort-Unrelated prefix (l ∷ ls) (e, h) = rw e (sort-Unrelated prefix ls h)

-- An open and idle channel takes a command.
pub record Sends (c : Channel) (command : Bytes) (device : Device) : Type 0 where
  pub handled_elsewhere : c.has_handler ≡ true
  pub opened : c.fd_open ≡ true
  pub reads : c.reader_closed ≡ false
  pub idle : c.response ≡ none
  pub sent : writeline false command c.device ≡ some (ok, device)

-- Where ordinary lines without the prefix come, and then a final response that is an error, the call
-- returns no error code, and a response without success and without a line.
pub singleline-refused :
    (command prefix f : Bytes) (ls : List Bytes) (events : List Event) (c : Channel)
    (device : Device)
    → Sends c command device
    → All IsOrdinary ls
    → Unrelated prefix ls
    → IsFinal false f
    → (d : Channel) × (at_send_command_singleline false command prefix true
          (map line ls ++ (line f ∷ wakes ∷ events))
          c
        ≡ returns
            (record { code = ok; out = some (answer false f []); channel = d; to_come = events }))
unfolding at_send_command_singleline at_send_command_full and_then count_timeout check_response
singleline-refused command prefix f ls events c device s o u final = (
  after_exchange (request command singleline (some prefix) none true) c device
      (sort singleline prefix false ls).1,
  rw
      (
        send_command-answer (request command singleline (some prefix) none true) c device prefix ls
            false f events s.handled_elsewhere s.opened s.reads s.idle refl refl s.sent o final,
        sort-Unrelated prefix ls u,
      )
      refl,
)
