-- ===== src/Protocol/Outbound.antt =====
-- `request`, `connect` and `send` of src/protocol.rs.
pub mod Sending
use wu_kong_easy_sdk_rust.Base.{
  ℕ, String, Bool, not, ◌||◌, ◌&&◌, List, Option, none, some, option_map, is_some, unwrap_or, ◌==◌,
}
use wu_kong_easy_sdk_rust.Json.{Json, Base64, Shape}
use wu_kong_easy_sdk_rust.Types.Failure.{
  Result, ok, invalid_input, protocol, reject_if, ok_or, ◌>>=◌, ◌>>◌,
}
use wu_kong_easy_sdk_rust.Types.Text.{is_empty, trim}
use wu_kong_easy_sdk_rust.Types.Device.{Auth, device_code}
use wu_kong_easy_sdk_rust.Types.Messages.{SendOptions}
use wu_kong_easy_sdk_rust.Types.Decode.{
  is_object, is_array, json_string, json_object, write_header, write_setting,
}

-- `is_some_and(|s| s.trim().is_empty())`
abbrev pub is_blank_number : Option String → Bool
is_blank_number none = Bool.false
is_blank_number (some s) = is_empty (trim s)

module _ (J : Json) where
  open J use {Value, Map, into, insert, empty, from_u64, to_vec}

  abbrev pub json_u64 : ℕ → Value
  json_u64 n = into (Shape.number (from_u64 n))

  unfoldable pub request : String → Value → String → Value
  request method params id = json_object J (
      insert
        (insert
          (insert (insert empty "jsonrpc" (json_string J "2.0")) "method" (json_string J method))
          "params" params)
        "id" (json_string J id))

  -- The clock's milliseconds since the epoch are an argument.
  unfoldable pub connect_params : Auth → ℕ → Value
  unfolding device_code
  connect_params auth now_millis = json_object J (
      insert
        (insert
          (insert
            (insert (insert empty "uid" (json_string J auth.uid)) "token"
              (json_string J auth.token))
            "deviceId" (json_string J auth.device_id))
          "deviceFlag" (json_u64 (device_code auth.device_flag)))
        "clientTimestamp" (json_u64 now_millis))

  unfoldable pub connect : Auth → ℕ → String → Value
  unfolding request connect_params
  connect auth now_millis id = request "connect" (connect_params auth now_millis) id

  -- `params[key] = v` when there is one.
  abbrev pub insert_some : String → Option Value → Map → Map
  insert_some key none m = m
  insert_some key (some v) m = insert m key v

  abbrev pub bad_send : String → ℕ → Value → SendOptions → Bool
  bad_send channel kind payload options =
      is_empty (trim channel)
      || kind == 0
      || (not (is_object J payload) && not (is_array J payload))
      || is_blank_number options.client_msg_no

  -- The `params` object, with the optional entries last.
  unfoldable pub send_params : Base64 → String → ℕ → List ℕ → SendOptions → String → Map
  send_params B channel kind bytes options generated_id =
      let required =
        insert
          (insert
            (insert
              (insert (insert empty "channelId" (json_string J channel)) "channelType"
                (json_u64 kind))
              "payload" (json_string J (B.encode bytes)))
            "clientMsgNo" (json_string J (unwrap_or options.client_msg_no generated_id)))
          "header" (write_header J options.header) in
      insert_some "topic" (option_map (json_string J) options.topic)
        (insert_some "setting" (option_map (write_setting J) options.setting) required)

  -- The UUID that stands in for a missing `client_msg_no` is an argument.
  unfoldable pub send : Base64 → String → ℕ → Value → SendOptions → String → Result Value
  send B channel kind payload options generated_id = do
    reject_if (bad_send channel kind payload options)
        (invalid_input "send requires a channel, nonzero type and JSON object/array")
    bytes ← ok_or (to_vec payload) (protocol "payload encoding")
    ok (json_object J (send_params B channel kind bytes options generated_id))
