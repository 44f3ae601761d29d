-- ===== src/ReferenceRil/Requests/Contexts.antt =====
-- The list of data calls that `requestOrSendDataCallList` of reference-ril/reference-ril.c makes: its
-- second loop keeps the contexts of the first.
use platform_hardware_ril.AtTok.{at_tok_nextint, at_tok_start}
use platform_hardware_ril.AtChannel.Reader.{Channel}
use platform_hardware_ril.AtChannel.Command.{Event, Run, returns}
use platform_hardware_ril.AtChannel.Command.Alone.{Alone}
use platform_hardware_ril.Base.{◌≢◌}
use platform_hardware_ril.ReferenceRil.Requests.{
  Errno, Payload, World, data_calls, generic_failure, no_error, nothing,
}
use platform_hardware_ril.AtChannel.Reader.{Response}
use platform_hardware_ril.AtChannel.Write.{Code, ok}
use platform_hardware_ril.Base.{codes, false, true, ◌⊎◌}
use platform_hardware_ril.AtChannel.Command.{Reply, at_send_command_multiline}
use mathlib.Core.Option
use platform_hardware_ril.ReferenceRil.Requests.{DataCall}
use platform_hardware_ril.AtTok.{Cursor, Status, success}
use platform_hardware_ril.Base.Int.{ℤ}
use platform_hardware_ril.Base.{Bytes, List, Option, [], none, some, ◌∷◌, ◌≡◌}
use platform_hardware_ril.ReferenceRil.Requests.DataCalls.{contexts}

-- A step of the parser keeps the context.
abbrev Keeps : ℤ × ℤ → Status × Cursor × DataCall → Type 0
Keeps c (code, cur, d) = (d.cid, d.active) ≡ c

-- The list is as long, and has the same contexts in the same order, where there is one.
abbrev Same : List DataCall → Option (List DataCall) → Type 0
Same ds none = Unit
Same ds (some es) = contexts es ≡ contexts ds

-- What the lines of "+CGACT:" say: behind a colon each has the number of a context and its state.
abbrev pub Says : List Bytes → List (ℤ × ℤ) → Type 0
Says [] [] = Unit
Says (l ∷ ls) ((n, state) ∷ cs) =
    ((cur next rest : Cursor) × (at_tok_start (some l) ≡ (success, cur))
      × (at_tok_nextint cur ≡ (success, some n, next))
      × (at_tok_nextint next ≡ (success, some state, rest)))
    × Says ls cs
Says _ _ = ⊥

-- The first loop reads what the lines say.
abbrev Reads : List (ℤ × ℤ) → Option (List DataCall) → Type 0
Reads cs none = ⊥
Reads cs (some ds) = contexts ds ≡ cs

-- The second command did not bring an empty list: it failed, or a line came, which may not be
-- understood.
abbrev pub Blames : Code → Option Response → Type 0
Blames ok none = ⊥
Blames ok (some r) = (r.success ≡ false) ⊎ (r.intermediates ≢ [])
Blames _ out = Unit

-- The answer is a list of data calls with these contexts; or a failure, with the reason in what the
-- second command brought.
abbrev pub ListAnswered : List (Errno × Payload) → List (ℤ × ℤ) → Run Reply → World → Type 0
ListAnswered old cs m w =
    ((es : List DataCall) × (w.answers ≡ (no_error, data_calls es) ∷ old) × (contexts es ≡ cs))
    ⊎ ((w.answers ≡ (generic_failure, nothing) ∷ old)
        × ((r : Reply) × (m ≡ returns r) × Blames r.code r.out))

-- the second command
abbrev pub details_command : List Event → Channel → Run Reply
details_command = at_send_command_multiline false (codes "AT+CGDCONT?") (codes "+CGDCONT:") true
