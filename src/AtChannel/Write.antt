-- ===== src/AtChannel/Write.antt =====
-- `writeline` and `writeCtrlZ` of reference-ril/atchannel.c: a text and a last byte, written to the
-- channel by as many calls of write(2) as it takes.
use mathlib.Core.List.{append_assoc, append-nil}
use platform_hardware_ril.Base.{
  All, ◌<◌, take-append-drop, length-drop, ℕ, zero, suc, ◌≡◌, ◌⊎◌, inl, inr, refl, sym, ap, ◌∙◌,
  Bool, false, Option, none, some, List, [], ◌∷◌, ◌++◌, Bytes, arith, if◌then◌else◌, length, take,
  drop,
}

-- one write(2): so many bytes written, an error, or EINTR
pub data Written : Type 0 where
  wrote : ℕ → Written
  failed interrupted : Written

-- The device: what the calls of write(2) to come will do, and all that has been written.
pub record Device : Type 0 where
  pub writes : List Written
  pub output : Bytes

-- what a function of the channel returns: 0, or AT_ERROR_*
pub data Code : Type 0 where
  ok generic command_pending channel_closed timeout invalid_thread invalid_response : Code

-- Behind the loop over the text: `none` is a call of write that does not come back.
abbrev pub Result : Type 0
Result = Option (Code × Device)

-- "the main string": what is left of it, and what follows the loop
unfoldable pub write_text : List Written → Bytes → Bytes → (List Written → Bytes → Result) → Result
write_text writes [] out next = next writes out
write_text [] (c ∷ s) out next = none
write_text (interrupted ∷ writes) (c ∷ s) out next = write_text writes (c ∷ s) out next
write_text (failed ∷ writes) (c ∷ s) out next =
    some (generic, record { writes = writes; output = out })
write_text (wrote n ∷ writes) (c ∷ s) out next =
    write_text writes (drop n (c ∷ s)) (out ++ take n (c ∷ s)) next

-- the last byte: tried again when nothing was written
unfoldable pub write_last : ℕ → List Written → Bytes → Result
write_last last [] out = none
write_last last (interrupted ∷ writes) out = write_last last writes out
write_last last (wrote zero ∷ writes) out = write_last last writes out
write_last last (wrote (suc n) ∷ writes) out =
    some (ok, record { writes = writes; output = out ++ (last ∷ []) })
write_last last (failed ∷ writes) out = some (generic, record { writes = writes; output = out })

-- `shut` is `s_fd < 0 || s_readerClosed > 0`
unfoldable pub write_ended : ℕ → Bool → Bytes → Device → Result
write_ended last shut s d =
    if shut then some (channel_closed, d) else write_text d.writes s d.output (write_last last)

unfoldable pub writeline : Bool → Bytes → Device → Result
writeline = write_ended b'\r'

unfoldable pub write_ctrl_z : Bool → Bytes → Device → Result
write_ctrl_z = write_ended 26

-- Whether the calls of write to come, if they come back, take the text and the byte behind it: some
-- of the text goes out at each, and an error ends it.
abbrev pub Ends : ℕ → Bytes → Bytes → Result → Type 0
Ends last s out none = Unit
Ends last s out (some (code, d)) =
    ((code ≡ ok) × (d.output ≡ out ++ (s ++ (last ∷ []))))
    ⊎ ((code ≡ generic)
        × ((sent : Bytes) × (unsent : Bytes) × (d.output ≡ out ++ sent)
            × (sent ++ unsent ≡ s ++ (last ∷ []))))

step-Ends :
    (last n : ℕ) (s out : Bytes) (r : Result)
    → Ends last (drop n s) (out ++ take n s) r
    → Ends last s out r
step-Ends last n s out none h = tt
step-Ends last n s out (some (code, d)) (inl (e, o)) = inl (
  e,
  o
      ∙ append_assoc out (take n s) (drop n s ++ (last ∷ []))
      ∙ ap (◌++◌ out) (
          sym (append_assoc (take n s) (drop n s) (last ∷ []))
          ∙ ap (λ (t : Bytes). t ++ (last ∷ [])) (take-append-drop n s)),
)
step-Ends last n s out (some (code, d)) (inr (e, (sent, unsent, o, split))) = inr (
  e,
  (
    take n s ++ sent,
    unsent,
    o ∙ append_assoc out (take n s) sent,
    append_assoc (take n s) sent unsent
        ∙ ap (◌++◌ (take n s)) split
        ∙ sym (append_assoc (take n s) (drop n s) (last ∷ []))
        ∙ ap (λ (t : Bytes). t ++ (last ∷ [])) (take-append-drop n s),
  ),
)

write_last-Ends :
    (last : ℕ) (writes : List Written) (out : Bytes) → Ends last [] out (write_last last writes out)
unfolding write_last
write_last-Ends last [] out = tt
write_last-Ends last (interrupted ∷ writes) out = write_last-Ends last writes out
write_last-Ends last (wrote zero ∷ writes) out = write_last-Ends last writes out
write_last-Ends last (wrote (suc n) ∷ writes) out = inl (refl, refl)
write_last-Ends last (failed ∷ writes) out = inr (refl, ([], last ∷ [], sym (append-nil out), refl))

write_text-Ends :
    (last : ℕ) (writes : List Written) (s out : Bytes)
    → Ends last s out (write_text writes s out (write_last last))
unfolding write_text
write_text-Ends last writes [] out = write_last-Ends last writes out
write_text-Ends last [] (c ∷ s) out = tt
write_text-Ends last (interrupted ∷ writes) (c ∷ s) out = write_text-Ends last writes (c ∷ s) out
write_text-Ends last (failed ∷ writes) (c ∷ s) out =
    inr (refl, ([], (c ∷ s) ++ (last ∷ []), sym (append-nil out), refl))
write_text-Ends last (wrote n ∷ writes) (c ∷ s) out =
    step-Ends last n (c ∷ s) out _
      (write_text-Ends last writes (drop n (c ∷ s)) (out ++ take n (c ∷ s)))

-- `writeline` on an open channel, whatever short, interrupted or failing writes the device makes: if
-- it returns 0, exactly the text and one '\r' have gone out; if it returns AT_ERROR_GENERIC, a part
-- of them from the start has; and it returns nothing else.
pub writeline-Ends : (s : Bytes) (d : Device) → Ends b'\r' s d.output (writeline false s d)
unfolding writeline write_ended
writeline-Ends s d = write_text-Ends b'\r' d.writes s d.output

pub write_ctrl_z-Ends : (s : Bytes) (d : Device) → Ends 26 s d.output (write_ctrl_z false s d)
unfolding write_ctrl_z write_ended
write_ctrl_z-Ends s d = write_text-Ends 26 d.writes s d.output

-- On a device whose calls of write each take at least one byte, `writeline` returns 0, if as many
-- calls come back as there are bytes to write.
abbrev Writes : Written → Type 0
Writes (wrote n) = 0 < n
Writes _ = ⊥

write_text-returns :
    (last : ℕ) (writes : List Written) (s out : Bytes)
    → All Writes writes
    → length s < length writes
    → (d : Device) × (write_text writes s out (write_last last) ≡ some (ok, d))
unfolding write_text write_last
write_text-returns last [] s out h le = absurd (omega arith)
write_text-returns last (wrote zero ∷ writes) s out h le = absurd (omega (arith, h.0))
write_text-returns last (wrote (suc n) ∷ writes) [] out h le = (_, refl)
write_text-returns last (wrote (suc n) ∷ writes) (c ∷ s) out h le =
    write_text-returns last writes (drop n s) _ h.1 (omega (arith, length-drop n s))
write_text-returns last (failed ∷ writes) s out h le = absurd h.0
write_text-returns last (interrupted ∷ writes) s out h le = absurd h.0

pub writeline-returns :
    (s : Bytes) (d : Device)
    → All Writes d.writes
    → length s < length d.writes
    → (d' : Device) × (writeline false s d ≡ some (ok, d'))
unfolding writeline write_ended
writeline-returns s d = write_text-returns b'\r' d.writes s d.output
