-- ===== src/AtChannel/Command/Closed.antt =====
-- A command on a channel that is closed.
use platform_hardware_ril.AtChannel.Command.{
  Event, Request, after_writeline, at_send_command_full, at_send_command_full_nolock,
  check_response, clear_pending_command, count_timeout, is_some, reply,
}
use platform_hardware_ril.AtChannel.Write.{write_ended, writeline}
use platform_hardware_ril.AtChannel.Reader.{Channel}
use platform_hardware_ril.Base.{Bool-cases, not, ◌||◌}
use platform_hardware_ril.AtChannel.Command.{
  Reply, Run, returns, and_then, blocked, reads_null, not_followed,
}
use platform_hardware_ril.AtChannel.Write.{Code, ok}
use platform_hardware_ril.Base.{◌≢◌, List, false, inl, inr, refl, true, ◌≡◌}

-- A channel on which a command ends at once: its descriptor or its reader is closed.
abbrev pub IsClosed : Channel → Type 0
IsClosed c = (not c.fd_open || c.reader_closed) ≡ true

-- A command on a closed channel returns with an error, and leaves it closed.
abbrev pub EndsClosed : Run Reply → Type 0
EndsClosed (returns r) = IsClosed r.channel × (r.code ≢ ok)
EndsClosed _ = ⊥

pub full-EndsClosed :
    (q : Request) (events : List Event) (c : Channel)
    → IsClosed c
    → EndsClosed (at_send_command_full false q events c)
unfolding at_send_command_full at_send_command_full_nolock after_writeline writeline write_ended
    reply count_timeout clear_pending_command and_then
full-EndsClosed q events c h = elim (Bool-cases (is_some c.response)) [
  | inl e ↦ simp (e) (h, λ e. cc)
  | inr e ↦ simp (e, h) (refl, λ e. cc)
]

pub checked-EndsClosed :
    (m : Run Reply)
    → EndsClosed m
    → EndsClosed (and_then m (λ r. returns (check_response r.code r.out r)))
unfolding and_then check_response
checked-EndsClosed (returns r) h = unchanged r.code (h.1) refl
  where
    unchanged :
        (code : Code)
        → r.code ≢ ok
        → r.code ≡ code
        → EndsClosed (returns (check_response code r.out r))
    unchanged ok n e = absurd (n e)
    unchanged _ n e = h
checked-EndsClosed blocked h = absurd h
checked-EndsClosed reads_null h = absurd h
checked-EndsClosed not_followed h = absurd h
