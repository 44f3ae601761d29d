-- ===== src/ReferenceRil/Requests/Names.antt =====
-- The array of three strings that `requestOperator` of reference-ril/reference-ril.c fills.
use platform_hardware_ril.AtChannel.Command.{returns}
use platform_hardware_ril.ReferenceRil.Requests.Network.{on_no_error}
use platform_hardware_ril.ReferenceRil.Requests.Operator.{
  Names, answer_names, more_or_null, name_of_start, name_of_token, names, no_names, outside,
  read_names, request_operator, store_name,
}
use platform_hardware_ril.AtChannel.Write.{ok}
use platform_hardware_ril.ReferenceRil.Requests.{Code, answer, fail, resume, send_multiline}
use platform_hardware_ril.AtChannel.Reader.{Response}
use platform_hardware_ril.Base.{codes, false, true, ◌==◌}
use platform_hardware_ril.AtChannel.Command.{Reply, at_send_command_multiline}
use platform_hardware_ril.ReferenceRil.Requests.{World, faults}
use platform_hardware_ril.AtTok.{Cursor, Status, at_tok_hasmore, failure, success}
use platform_hardware_ril.Base.Int.{ℤ}
use platform_hardware_ril.Base.{
  Bool-cases, Bytes, List, Option, [], arith, inl, inr, length, length-set, ltb, none, refl,
  replicate, some, suc, ℕ, ◌+◌, ◌<◌, ◌∙◌, ◌∷◌, ◌≡◌, ◌≢◌, ◌≤◌,
}

abbrev NotOutside : Names → Type 0
NotOutside outside = ⊥
NotOutside _ = Unit

store-NotOutside :
    (next : List (Option Bytes) → Names) (n i : ℕ) (v : Option Bytes)
    (response : List (Option Bytes))
    → i < n
    → length response ≡ n
    → ((resp : List (Option Bytes)) → length resp ≡ n → NotOutside (next resp))
    → NotOutside (store_name next i v response)
unfolding store_name
store-NotOutside next n i v response h e f = elim (Bool-cases (ltb i (length response))) [
  | inl t ↦ rw t (f _ (length-set response i v ∙ e))
  | inr t ↦ absurd (ground (arith, e, h, t))
]

token-NotOutside :
    (next : List (Option Bytes) → Names) (n i : ℕ) (response : List (Option Bytes))
    (t : Status × Option Bytes × Cursor)
    → i < n
    → length response ≡ n
    → ((resp : List (Option Bytes)) → length resp ≡ n → NotOutside (next resp))
    → NotOutside (name_of_token next i response t)
unfolding name_of_token
token-NotOutside next n i response (success, none, cur) h e f = f response e
token-NotOutside next n i response (success, some v, cur) h e f =
    store-NotOutside next n i (some v) response h e f
token-NotOutside next n i response (failure, none, cur) h e f = tt
token-NotOutside next n i response (failure, some v, cur) h e f =
    store-NotOutside _ n i (some v) response h e (λ resp q. tt)

more-NotOutside :
    (next : List (Option Bytes) → Names) (n i : ℕ) (response : List (Option Bytes))
    (more : Cursor → Names) (t : Status × Option ℤ × Cursor)
    → i < n
    → length response ≡ n
    → ((resp : List (Option Bytes)) → length resp ≡ n → NotOutside (next resp))
    → ((cur : Cursor) → NotOutside (more cur))
    → NotOutside (more_or_null next i response more t)
unfolding more_or_null
more-NotOutside next n i response more (success, skip, cur) h e f g =
    elim (Bool-cases (at_tok_hasmore cur)) [
      | inl t ↦ rw t (g cur)
      | inr t ↦ rw t (store-NotOutside next n i none response h e f)
    ]
more-NotOutside next n i response more (failure, skip, cur) h e f g = tt

start-NotOutside :
    (next : List (Option Bytes) → Names) (n i : ℕ) (response : List (Option Bytes))
    (s : Status × Cursor)
    → i < n
    → length response ≡ n
    → ((resp : List (Option Bytes)) → length resp ≡ n → NotOutside (next resp))
    → NotOutside (name_of_start next i response s)
unfolding name_of_start
start-NotOutside next n i response (success, cur) h e f =
    more-NotOutside next n i response _ _ h e f (λ cur.
      more-NotOutside next n i response _ _ h e f
        (λ cur. token-NotOutside next n i response _ h e f))
start-NotOutside next n i response (failure, cur) h e f = tt

lines-NotOutside :
    (ls : List Bytes) (n i : ℕ) (response : List (Option Bytes))
    → i + length ls ≤ n
    → length response ≡ n
    → NotOutside (read_names ls i response)
unfolding read_names
lines-NotOutside [] n i response h e = tt
lines-NotOutside (l ∷ ls) n i response h e =
    start-NotOutside _ n i response _ (omega arith) e
      (λ resp q. lines-NotOutside ls n (suc i) resp (omega arith) q)

names-NotFault : (w : World) (i : ℕ) (o : Names) → NotOutside o → answer_names w i o ≢ faults
unfolding answer_names fail answer
names-NotFault w i (names response) h e = elim (Bool-cases (i == 3)) [ inl t ↦ cc | inr t ↦ cc ]
names-NotFault w i no_names h e = cc
names-NotFault w i outside h e = h

reply-NotFault :
    (w : World) (code : Code) (resp : Response)
    → length resp.intermediates ≤ 3
    → on_no_error fail
        (λ r w.
          answer_names w (length r.intermediates) (read_names r.intermediates 0 (replicate 3 none)))
        code
        (some resp)
        w
      ≢ faults
unfolding on_no_error fail answer
reply-NotFault w ok resp h =
    names-NotFault w _ _ (lines-NotOutside resp.intermediates 3 0 _ (omega (arith, h)) refl)
reply-NotFault w _ resp h = λ e. cc

-- Where the modem's response to the command of OPERATOR has three lines at most, the handler stores
-- nothing outside of its array of three strings, and reads nothing through NULL.
pub operator_within :
    (w : World) (r : Reply) (resp : Response)
    → at_send_command_multiline false
        (codes "AT+COPS=3,0;+COPS?;+COPS=3,1;+COPS?;+COPS=3,2;+COPS?")
        (codes "+COPS:")
        true
        w.to_come
        w.channel
      ≡ returns r
    → r.out ≡ some resp
    → length resp.intermediates ≤ 3
    → request_operator w ≢ faults
unfolding request_operator send_multiline resume
operator_within w r resp e o h = rw (e, o) (reply-NotFault _ r.code resp h)
