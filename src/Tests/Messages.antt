-- ===== src/Tests/Messages.antt =====
-- Requests, responses and notifications at concrete inputs.
use wu_kong_easy_sdk_rust.Base.{◌≡◌, ◌↔◌, refl, none, some, [], ◌∷◌}
use wu_kong_easy_sdk_rust.Base.Int.{pos}
use wu_kong_easy_sdk_rust.Types.Failure.{ok, err, server}
use wu_kong_easy_sdk_rust.Types.Messages.{
  SendResult, RecvMessage, CustomEvent, default_send_options, default_header,
}
use wu_kong_easy_sdk_rust.Types.Decode.{
  as_object, as_str, value_get, value_i64, read_send_result, read_recv_message,
}
use wu_kong_easy_sdk_rust.Types.Text.{trim}
use wu_kong_easy_sdk_rust.Protocol.Normalize.{normalize, decode}
use wu_kong_easy_sdk_rust.Protocol.Normalize.Names.{is_snake, snake_of}
use wu_kong_easy_sdk_rust.Protocol.Normalize.Lookup.{value_get-normalize}
use wu_kong_easy_sdk_rust.Protocol.Outbound.{send, send_params}
use wu_kong_easy_sdk_rust.Protocol.Inbound.{response, recv, decode_payload}
use wu_kong_easy_sdk_rust.Protocol.Inbound.Response.{response-ok_iff, response-server_iff}
use wu_kong_easy_sdk_rust.Protocol.Inbound.Received.{Acknowledges, decode-send_result_iff}
use wu_kong_easy_sdk_rust.Protocol.Inbound.Messages.{Receives, recv-ok_iff}
use wu_kong_easy_sdk_rust.Protocol.RoundTrip.{recv-send}
use wu_kong_easy_sdk_rust.Tests.Serde.{
  Tree, string, number, object, Members, end, member, ack_result, ack_value, serde, serde-IsLawful,
  unary64, tree_depth, unary, ones, read_unary, codes, tree_text, bytes_read,
}

-- A notification in snake_case with a numeric message ID and the payload "{}".
abbrev incoming : Members
incoming = member "message_id" (number 12) (
    member "message_seq" (number 3) (
      member "timestamp" (number 1000) (
        member "channel_id" (string "room") (
          member "channel_type" (number 2) (
            member "from_uid" (string "ann")
              (member "payload" (string (unary (123 ∷ 125 ∷ []))) end))))))

abbrev pub received : RecvMessage serde
received = record {
  header = default_header;
  message_id = "12";
  message_seq = 3;
  timestamp = pos 1000;
  channel_id = "room";
  channel_type = 2;
  from_uid = "ann";
  payload = object end;
  client_msg_no = none;
  setting = none;
  topic = none;
}

abbrev pub acked : SendResult
acked = record { message_id = "900"; message_seq = 4; reason_code = pos 1 }

-- The parameters of a SEND of the payload "{}".
abbrev outgoing : Tree
outgoing = object (send_params serde unary64 "room" 2 (123 ∷ 125 ∷ []) default_send_options "no-1")

outgoing-send : send serde unary64 "room" 2 (object end) default_send_options "no-1" ≡ ok outgoing
unfolding send codes tree_text trim as_object default_send_options
outgoing-send = refl

received-recv : recv serde unary64 (object incoming) ≡ ok received
unfolding recv decode read_recv_message tree_depth as_str value_i64 decode_payload read_unary unary
    ones bytes_read
received-recv = refl

recv-send_example : received.payload ≡ object end
unfolding codes tree_text bytes_read as_object send_params default_send_options
recv-send_example =
    recv-send serde serde-IsLawful unary64 "room" 2 (object end) outgoing (object incoming) incoming
      default_send_options "no-1" (123 ∷ 125 ∷ []) received refl refl outgoing-send refl refl
      received-recv

value_get-normalize_example :
    value_get serde (normalize serde (object ack_result)) "messageSeq" ≡ some (number 4)
unfolding as_object is_snake snake_of
value_get-normalize_example =
    value_get-normalize serde serde-IsLawful (object ack_result) "messageSeq"

recv-ok_iff_example :
    (recv serde unary64 (object incoming) ≡ ok received)
    ↔ ((raw : RecvMessage serde) × Receives serde serde-IsLawful unary64 incoming raw received)
unfolding as_object
recv-ok_iff_example =
    recv-ok_iff serde serde-IsLawful unary64 (object incoming) incoming received refl

response-ok_iff_example : response serde ack_value ≡ ok (object ack_result)
unfolding value_i64 as_object
response-ok_iff_example = (response-ok_iff serde ack_value (object ack_result)).1 (refl, refl, refl)

response-server_iff_example :
    response serde (object (member "error" (object (member "code" (number 5) end)) end))
    ≡ err (server (pos 5))
unfolding value_i64 as_object
response-server_iff_example =
    (response-server_iff serde (object (member "error" (object (member "code" (number 5) end)) end))
        (pos 5)).1
      refl

decode-send_result_iff_example :
    (decode serde (read_send_result serde) (object ack_result) ≡ ok acked)
    ↔ Acknowledges serde ack_result acked
unfolding as_object
decode-send_result_iff_example =
    decode-send_result_iff serde serde-IsLawful (object ack_result) ack_result acked refl

abbrev happening : Members
happening = member "id" (string "e1") (
    member "type" (string "typing")
      (member "timestamp" (number 1000) (member "data" (string "{}") end)))

abbrev happened : CustomEvent serde
happened = record {
  header = none;
  id = "e1";
  event_type = "typing";
  timestamp = pos 1000;
  body = object end;
}
