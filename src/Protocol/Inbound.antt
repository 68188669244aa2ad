-- ===== src/Protocol/Inbound.antt =====
-- `parse`, `response`, `recv` and `event` of src/protocol.rs.
pub mod Response
pub mod Received
pub mod Messages
pub mod Ranges
pub mod Events
use wu_kong_easy_sdk_rust.Base.{
  String, Bool, true, false, not, ◌||◌, Option, none, some, and_then, is_some, or_else, str_eq,
  if◌then◌else◌,
}
use wu_kong_easy_sdk_rust.Base.Int.{ℤ, pos, int_eq}
use wu_kong_easy_sdk_rust.Json.{Json, Base64}
use wu_kong_easy_sdk_rust.Types.Failure.{
  Error, Result, ok, err, protocol, server, reject_if, ok_or, ◌>>=◌, ◌>>◌,
}
use wu_kong_easy_sdk_rust.Types.Text.{is_empty}
use wu_kong_easy_sdk_rust.Types.Messages.{RecvMessage, CustomEvent}
use wu_kong_easy_sdk_rust.Types.Decode.{
  is_object, as_str, value_get, value_i64, read_recv_message, read_custom_event,
}
use wu_kong_easy_sdk_rust.Protocol.Normalize.{decode}

module _ (J : Json) where
  open J use {Value, from_str, from_slice}

  -- `v != "2.0"`
  abbrev differs : Value → String → Bool
  differs v s = elim (as_str J v) [ none ↦ true | some t ↦ not (str_eq t s) ]

  abbrev other_version : Value → Bool
  other_version v = elim (value_get J v "jsonrpc") [ none ↦ false | some j ↦ differs j "2.0" ]

  unfoldable pub parse : String → Result Value
  parse text = do
    value ← ok_or (from_str text) (protocol "invalid JSON")
    reject_if (not (is_object J value) || other_version value)
        (protocol "expected JSON-RPC 2.0 object")
    ok value

  -- The reason in a result, under either spelling.
  abbrev pub reason_of : Value → Option Value
  reason_of v = or_else (value_get J v "reasonCode") (value_get J v "reason_code")

  -- Only a missing reason and the number 1 pass.
  unfoldable pub check_reason : Option Value → Result (Unit {0})
  check_reason none = ok tt
  check_reason (some r) = do
    code ← ok_or (value_i64 J r) (protocol "invalid reason code")
    reject_if (not (int_eq code (pos 1))) (server code)

  unfoldable pub rpc_error : Value → Error
  rpc_error e = elim (and_then (value_get J e "code") (value_i64 J)) [
    | none ↦ protocol "invalid RPC error"
    | some code ↦ server code
  ]

  unfoldable pub one_of : Option Value → Option Value → Result Value
  unfolding check_reason rpc_error
  one_of (some result) none = check_reason (reason_of result) >> ok result
  one_of none (some e) = err (rpc_error e)
  one_of none none = err (protocol "expected exactly one result or error")
  one_of (some result) (some e) = err (protocol "expected exactly one result or error")

  unfoldable pub response : Value → Result Value
  unfolding one_of
  response v = one_of (value_get J v "result") (value_get J v "error")

  -- A text that is Base64 of JSON is replaced by that JSON, anything else stays.
  unfoldable pub decode_payload : Base64 → Value → Value
  decode_payload B payload = elim (as_str J payload) [
    | none ↦ payload
    | some encoded ↦ elim (and_then (B.decode encoded) from_slice) [
      | none ↦ payload
      | some json ↦ json
    ]
  ]

  unfoldable pub recv : Base64 → Value → Result (RecvMessage J)
  recv B v = do
    message ← decode J (read_recv_message J) v
    reject_if (is_empty message.message_id || is_empty message.channel_id)
        (protocol "missing message identity")
    ok (record message { payload = decode_payload B message.payload })

  -- A text that is JSON is replaced by that JSON, anything else stays.
  unfoldable pub decode_body : Value → Value
  decode_body body = elim (and_then (as_str J body) from_str) [ none ↦ body | some json ↦ json ]

  unfoldable pub event : Value → Result (CustomEvent J)
  event v = do
    reject_if (not (is_some (value_get J v "data"))) (protocol "missing event data")
    e ← decode J (read_custom_event J) v
    reject_if (is_empty e.id || is_empty e.event_type) (protocol "missing event identity")
    ok (record e { body = decode_body e.body })
