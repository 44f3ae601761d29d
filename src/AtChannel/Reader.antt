-- ===== src/AtChannel/Reader.antt =====
-- The reader thread of reference-ril/atchannel.c: where each line goes. What the C file keeps in
-- static variables is a record; a call of the handler of unsolicited lines is an entry of a list.
use mathlib.Core.Option
use platform_hardware_ril.Base.{
  suc, ℕ, Bool, true, false, not, ◌&&◌, ◌||◌, Option, none, some, List, [], ◌∷◌, ◌++◌, Bytes, codes,
  if◌then◌else◌,
}
use platform_hardware_ril.Libc.{is_digit, str_equal}
use platform_hardware_ril.AtChannel.Lines.{
  str_starts_with, is_final_response_success, is_final_response_error, is_sms_unsolicited,
}
use platform_hardware_ril.AtChannel.Write.{Device, Code, write_ctrl_z}

pub data CommandType : Type 0 where
  no_result numeric singleline multiline : CommandType

-- ATResponse; the list of intermediate lines is the one that `p_intermediates` heads.
pub record Response : Type 0 where
  pub success : Bool
  pub final_response : Option Bytes
  pub intermediates : List Bytes

-- `fd_open` is `s_fd >= 0`, and a handler that is not NULL is a `true`.
pub record Channel : Type 0 where
  pub fd_open : Bool
  pub has_handler : Bool
  pub has_on_reader_closed : Bool
  pub has_on_timeout : Bool
  pub type : CommandType
  pub response_prefix : Option Bytes
  pub sms_pdu : Option Bytes
  pub response : Option Response
  pub reader_closed : Bool
  pub device : Device
  pub unsolicited : List (Bytes × Option Bytes)
  pub closed_callbacks : ℕ
  pub timeout_callbacks : ℕ

unfoldable pub add_intermediate : Bytes → Response → Channel → Channel
add_intermediate line r c = record c {
  response = some (record r { intermediates = line ∷ r.intermediates });
}

unfoldable pub handle_final_response : Bytes → Bool → Response → Channel → Channel
handle_final_response line success r c = record c {
  response = some (record r { success = success; final_response = some line });
}

-- `s_unsolHandler(line, pdu)`, if there is a handler
unfoldable pub call_handler : Bytes → Option Bytes → Channel → Channel
call_handler line pdu c =
    if c.has_handler then record c { unsolicited = c.unsolicited ++ (line, pdu) ∷ [] } else c

unfoldable pub handle_unsolicited : Bytes → Channel → Channel
handle_unsolicited line c = call_handler line none c

abbrev pub is_nil {ℓ} : {A : Type ℓ} → List A → Bool
is_nil [] = true
is_nil (x ∷ xs) = false

-- `isdigit(line[0])`
unfoldable pub starts_with_digit : Bytes → Bool
unfolding is_digit
starts_with_digit [] = false
starts_with_digit (c ∷ cs) = is_digit c

-- `strStartsWith(line, s_responsePrefix)`; `none` is the read through a NULL prefix.
unfoldable pub has_prefix : Bytes → Option Bytes → Option Bool
has_prefix line none = none
has_prefix line (some p) = some (str_starts_with line p)

unfoldable pub take_or_pass : Bytes → Response → Channel → Bool → Channel
take_or_pass line r c true = add_intermediate line r c
take_or_pass line r c false = handle_unsolicited line c

-- the `switch (s_type)`. As in the source, a single line is compared with the prefix only where
-- there is none yet. `none`: the line could not be handled.
unfoldable pub by_type : CommandType → Bytes → Response → Channel → Option Channel
by_type no_result line r c = some (handle_unsolicited line c)
by_type numeric line r c =
    some (take_or_pass line r c (is_nil r.intermediates && starts_with_digit line))
by_type singleline line r c =
    if is_nil r.intermediates
    then Option.map (take_or_pass line r c) (has_prefix line c.response_prefix)
    else some (handle_unsolicited line c)
by_type multiline line r c = Option.map (take_or_pass line r c) (has_prefix line c.response_prefix)

-- `writeCtrlZ(s_smsPDU); s_smsPDU = NULL;`, with what it returns passed over. `none`: the write did
-- not come back.
unfoldable pub after_pdu : Channel → Option (Code × Device) → Option Channel
after_pdu c none = none
after_pdu c (some (code, device)) = some (record c { device = device; sms_pdu = none })

abbrev pub prompt : Bytes
prompt = codes "> "

-- behind the tests for final responses: the test for a prompt
unfoldable pub prompt_or_type : Option Bytes → Bytes → Response → Channel → Option Channel
prompt_or_type none line r c = by_type c.type line r c
prompt_or_type (some pdu) line r c =
    if str_equal line prompt
    then after_pdu c (write_ctrl_z (not c.fd_open || c.reader_closed) pdu c.device)
    else by_type c.type line r c

-- with a command pending
unfoldable pub process_pending : Bytes → Response → Channel → Option Channel
process_pending line r c =
    if is_final_response_success line
    then some (handle_final_response line true r c)
    else if is_final_response_error line
    then some (handle_final_response line false r c)
    else prompt_or_type c.sms_pdu line r c

unfoldable pub process_line_for : Option Response → Bytes → Channel → Option Channel
process_line_for none line c = some (handle_unsolicited line c)
process_line_for (some r) line c = process_pending line r c

unfoldable pub process_line : Bytes → Channel → Option Channel
process_line line c = process_line_for c.response line c

-- `onReaderClosed`
unfoldable pub reader_is_closed : Channel → Channel
reader_is_closed c =
    if c.has_on_reader_closed && not c.reader_closed
    then record c { reader_closed = true; closed_callbacks = suc c.closed_callbacks }
    else c

-- `readerLoop` on the lines that `readline` returns before it returns NULL
unfoldable pub reader_loop : List Bytes → Channel → Option Channel
reader_loop [] c = some (reader_is_closed c)
reader_loop (line ∷ []) c =
    if is_sms_unsolicited line
    then some (reader_is_closed c)
    else Option.map reader_is_closed (process_line line c)
reader_loop (line ∷ line2 ∷ lines) c = elim (is_sms_unsolicited line) [
  | true ↦ reader_loop lines (call_handler line (some line2) c)
  | false ↦ Option.bind (process_line line c) (reader_loop (line2 ∷ lines))
]
