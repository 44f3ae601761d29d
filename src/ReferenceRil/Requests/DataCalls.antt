-- ===== src/ReferenceRil/Requests/DataCalls.antt =====
-- `requestOrSendDataCallList` of reference-ril/reference-ril.c. Of RIL_Data_Call_Response_v11 the
-- fields that the function changes behind the first loop, without `suggestedRetryTime`, `pcscf` and
-- `mtu`.
use mathlib.Core.Option
use platform_hardware_ril.ReferenceRil.Requests.{
  DataCall, Outcome, World, answer, data_calls, done, fail, no_error, on_success, send_multiline,
}
use platform_hardware_ril.ReferenceRil.Requests.Once.{
  Answers, answer-once, fail-once, on_success-once, send_multiline-once,
}
use platform_hardware_ril.ReferenceRil.{put_token, ◌then_parse◌}
use platform_hardware_ril.AtTok.{
  Cursor, Status, at_tok_nextint, at_tok_nextstr, at_tok_start, failure, success,
}
use platform_hardware_ril.Base.Int.{negsuc, pos, ℤ}
use platform_hardware_ril.Base.{
  Bool, Bytes, List, Option, [], codes, false, if◌then◌else◌, none, some, true, ◌∷◌,
}
use platform_hardware_ril.ReferenceRil.Requests.Network.{first_int}
use platform_hardware_ril.ReferenceRil.Requests.CurrentCalls.{int_equal}

unfoldable pub get_radio_interface_name : Bool → Bytes
get_radio_interface_name true = codes "radio0"
get_radio_interface_name false = codes "eth0"

abbrev new_data_call : DataCall
new_data_call = record {
  status = negsuc 0;
  cid = negsuc 0;
  active = negsuc 0;
  type = [];
  ifname = [];
  addresses = [];
  dnses = [];
  gateways = [];
}

-- a line of "+CGACT:"
unfoldable pub context_of_line : Bytes → Status × Cursor × DataCall
context_of_line l =
    let (code, cur) = at_tok_start (some l) in
    (code, cur, new_data_call)
    then_parse (λ cur. put_token (λ n d. record d { cid = n }) (at_tok_nextint cur))
    then_parse (λ cur. put_token (λ n d. record d { active = n }) (at_tok_nextint cur))

unfoldable pub add_context :
    Status × Cursor × DataCall → Option (List DataCall) → Option (List DataCall)
add_context (success, cur, d) (some ds) = some (d ∷ ds)
add_context (success, cur, d) none = none
add_context (failure, cur, d) ds = none

-- the first loop; `none` is the label `error`
unfoldable pub read_contexts : List Bytes → Option (List DataCall)
read_contexts [] = some []
read_contexts (l ∷ ls) = add_context (context_of_line l) (read_contexts ls)

-- the details behind the number of the context
unfoldable pub read_details : Bytes → Cursor → DataCall → Status × Cursor × DataCall
read_details interface_name cur d =
    put_token (λ s d. record d { type = s }) (at_tok_nextstr cur) (record d { status = pos 0 })
    then_parse (λ cur. put_token (λ s d. d) (at_tok_nextstr cur))
    then_parse (λ cur d.
        put_token (λ s d. record d { addresses = s }) (at_tok_nextstr cur)
          (record d { ifname = interface_name }))
    then_parse (λ cur d.
        (success, cur, record d { dnses = codes "8.8.8.8 8.8.4.4"; gateways = [] }))

unfoldable pub put_details : Status × Cursor × DataCall → List DataCall → Option (List DataCall)
put_details (success, cur, d) ds = some (d ∷ ds)
put_details (failure, cur, d) ds = none

-- The first element of the context; a context that is not there is passed over.
unfoldable pub update_context :
    ℤ → (DataCall → Status × Cursor × DataCall) → List DataCall → Option (List DataCall)
update_context n details [] = some []
update_context n details (d ∷ ds) =
    let rest = update_context n details ds in
    if int_equal d.cid n then put_details (details d) ds else Option.map (λ more. d ∷ more) rest

-- a line of "+CGDCONT:"
unfoldable pub details_of_cid : Bytes → List DataCall → Status × Cursor × ℤ → Option (List DataCall)
details_of_cid interface_name ds (success, cur, n) =
    update_context n (read_details interface_name cur) ds
details_of_cid interface_name ds (failure, cur, n) = none

unfoldable pub details_of_line : Bytes → List DataCall → Bytes → Option (List DataCall)
details_of_line interface_name ds l = details_of_cid interface_name ds (first_int l)

-- the second loop
unfoldable pub read_all_details : Bytes → List Bytes → List DataCall → Option (List DataCall)
read_all_details interface_name [] ds = some ds
read_all_details interface_name (l ∷ ls) ds =
    Option.bind (details_of_line interface_name ds l) (read_all_details interface_name ls)

-- What is told, by an answer or by an unsolicited response: `none` is the failure.
unfoldable pub behind_details :
    (Option (List DataCall) → World → Outcome) → Bytes → List DataCall → World → Outcome
behind_details tell interface_name ds =
    send_multiline (codes "AT+CGDCONT?") (codes "+CGDCONT:")
      (on_success (tell none) (λ r. tell (read_all_details interface_name r.intermediates ds)))

unfoldable pub behind_contexts :
    (Option (List DataCall) → World → Outcome) → Bytes → Option (List DataCall) → World → Outcome
behind_contexts tell interface_name none = tell none
behind_contexts tell interface_name (some ds) = behind_details tell interface_name ds

unfoldable pub request_or_send_data_call_list :
    Bool → (Option (List DataCall) → World → Outcome) → World → Outcome
request_or_send_data_call_list has_wifi tell =
    send_multiline (codes "AT+CGACT?") (codes "+CGACT:") (
      on_success (tell none) (λ r.
        behind_contexts tell (get_radio_interface_name has_wifi) (read_contexts r.intermediates)))

unfoldable pub answer_list : Option (List DataCall) → World → Outcome
answer_list none = fail
answer_list (some ds) = answer no_error (data_calls ds)

-- RIL_UNSOL_DATA_CALL_LIST_CHANGED
unfoldable pub send_list : Option (List DataCall) → World → Outcome
send_list told w = done (record w { data_call_lists = told ∷ w.data_call_lists })

-- The flag is the result of `hasWifiCapability`, which reads a system property.
unfoldable pub request_data_call_list : Bool → World → Outcome
request_data_call_list has_wifi = request_or_send_data_call_list has_wifi answer_list

unfoldable pub on_data_call_list_changed : Bool → World → Outcome
on_data_call_list_changed has_wifi = request_or_send_data_call_list has_wifi send_list

answer_list-once : (b : Bool) (told : Option (List DataCall)) → Answers b (answer_list told)
unfolding answer_list
answer_list-once b none = fail-once b
answer_list-once b (some ds) = answer-once b _ _

behind_contexts-once :
    (b : Bool) (name : Bytes) (o : Option (List DataCall))
    → Answers b (behind_contexts answer_list name o)
unfolding behind_contexts behind_details
behind_contexts-once b name none = answer_list-once b none
behind_contexts-once b name (some ds) =
    send_multiline-once b _ _ _
      (on_success-once b _ _ (answer_list-once b none) (λ r. answer_list-once b _))

pub data_call_list-once : (b has_wifi : Bool) → Answers b (request_data_call_list has_wifi)
unfolding request_data_call_list request_or_send_data_call_list
data_call_list-once b has_wifi =
    send_multiline-once b _ _ _
      (on_success-once b _ _ (answer_list-once b none) (λ r. behind_contexts-once b _ _))

-- What the second loop keeps: the contexts and whether each is active.
abbrev pub contexts : List DataCall → List (ℤ × ℤ)
contexts [] = []
contexts (d ∷ ds) = (d.cid, d.active) ∷ contexts ds
