-- ===== src/Types/Decode.antt =====
-- What `#[derive(Deserialize, Serialize)]` and the `#[serde(...)]` attributes of src/types.rs say of
-- each struct: which keys it reads, which fields may be absent, and how it is written. A struct is
-- read from an object by key, or from an array by position, as serde's derived code does.
use wu_kong_easy_sdk_rust.Base.{
  ℕ, ◌^◌, ◌≡◌, arith, String, Bool, false, Option, none, some, List, length, get_elem?, leb, ltb,
  if◌then◌else◌, and_then, option_map, is_some,
}
use wu_kong_easy_sdk_rust.Base.Int.{ℤ, pos}
use wu_kong_easy_sdk_rust.Json.{Json, Shape}
use wu_kong_easy_sdk_rust.Types.Messages.{
  Header, default_header, MessageSetting, ConnectResult, SendResult, RecvMessage, CustomEvent,
}

infixl 5 ◌>>=◌
abbrev ◌>>=◌ {ℓ κ} : {A : Type ℓ} {B : Type κ} → Option A → (A → Option B) → Option B
m >>= f = and_then m f

module _ (J : Json) where
  open J use {Value, Map, out, into, get, insert, empty, as_u64, as_i64}

  unfoldable pub as_object : Value → Option Map
  as_object v = elim (out v) [ Shape.object m ↦ some m | _ ↦ none ]

  unfoldable pub as_str : Value → Option String
  as_str v = elim (out v) [ Shape.string s ↦ some s | _ ↦ none ]

  unfoldable pub as_array : Value → Option (List Value)
  as_array v = elim (out v) [ Shape.array vs ↦ some vs | _ ↦ none ]

  abbrev pub is_array : Value → Bool
  is_array v = is_some (as_array v)

  abbrev pub is_object : Value → Bool
  is_object v = is_some (as_object v)

  -- `value.get(key)`: nothing for a value that is no object.
  abbrev pub value_get : Value → String → Option Value
  value_get v key = and_then (as_object v) (λ m. get m key)

  -- `Value::as_u64`, `Value::as_i64`
  unfoldable pub value_u64 : Value → Option ℕ
  value_u64 v = elim (out v) [ Shape.number n ↦ as_u64 n | _ ↦ none ]

  unfoldable pub value_i64 : Value → Option ℤ
  value_i64 v = elim (out v) [ Shape.number n ↦ as_i64 n | _ ↦ none ]

  pub as_object-out : (v : Value) (m : Map) → as_object v ≡ some m → out v ≡ Shape.object m
  unfolding as_object
  as_object-out v m h = ground arith

  abbrev pub read_bool : Value → Option Bool
  read_bool v = elim (out v) [ Shape.bool b ↦ some b | _ ↦ none ]

  -- An unsigned integer of `w` bits.
  abbrev pub read_uint : ℕ → Value → Option ℕ
  read_uint w v = do n ← value_u64 v; if ltb n (2 ^ w) then some n else none

  -- Where a struct's field stands: by position, and by key.
  abbrev pub Fields : Type 0
  Fields = ℕ → String → Option Value

  -- Longer arrays than the struct has fields are refused.
  abbrev pub fields : ℕ → Value → Option Fields
  fields n v = elim (out v) [
    | Shape.object m ↦ some (λ i key. get m key)
    | Shape.array vs ↦ if leb (length vs) n then some (λ i key. get_elem? vs i) else none
    | _ ↦ none
  ]

  pub fields_of_object :
      (n : ℕ) (v : Value) (m : Map) → as_object v ≡ some m → fields n v ≡ some (λ i key. get m key)
  fields_of_object n v m e = rw (fields, as_object-out v m e)

  abbrev pub required {ℓ} : {A : Type ℓ} → (Value → Option A) → Option Value → Option A
  required read f = and_then f read

  -- `#[serde(default)]` at a type that is no `Option`
  abbrev pub or_default {ℓ} : {A : Type ℓ} → (Value → Option A) → A → Option Value → Option A
  or_default read d none = some d
  or_default read d (some v) = read v

  -- `#[serde(default)]` at an `Option`: `null` is `None`.
  abbrev pub optional {ℓ} : {A : Type ℓ} → (Value → Option A) → Option Value → Option (Option A)
  optional read none = some none
  optional read (some v) = elim (out v) [ Shape.null ↦ some none | _ ↦ option_map some (read v) ]

  unfoldable pub read_header : Value → Option Header
  read_header v = do
    at ← fields 4 v
    no_persist ← or_default read_bool false (at 0 "noPersist")
    red_dot ← or_default read_bool false (at 1 "redDot")
    sync_once ← or_default read_bool false (at 2 "syncOnce")
    dup ← or_default read_bool false (at 3 "dup")
    some (record { no_persist = no_persist; red_dot = red_dot; sync_once = sync_once; dup = dup })

  unfoldable pub read_setting : Value → Option MessageSetting
  read_setting v = do
    at ← fields 4 v
    receipt ← or_default read_bool false (at 0 "receipt")
    signal ← or_default read_bool false (at 1 "signal")
    stream ← or_default read_bool false (at 2 "stream")
    topic ← or_default read_bool false (at 3 "topic")
    some (record { receipt = receipt; signal = signal; stream = stream; topic = topic })

  unfoldable pub read_connect_result : Value → Option ConnectResult
  read_connect_result v = do
    at ← fields 6 v
    reason_code ← required value_i64 (at 0 "reasonCode")
    server_key ← or_default as_str "" (at 1 "serverKey")
    salt ← or_default as_str "" (at 2 "salt")
    time_diff ← or_default value_i64 (pos 0) (at 3 "timeDiff")
    server_version ← or_default (read_uint 32) 0 (at 4 "serverVersion")
    node_id ← or_default value_u64 0 (at 5 "nodeId")
    some (record {
      reason_code = reason_code;
      server_key = server_key;
      salt = salt;
      time_diff = time_diff;
      server_version = server_version;
      node_id = node_id;
    })

  unfoldable pub read_send_result : Value → Option SendResult
  read_send_result v = do
    at ← fields 3 v
    message_id ← required as_str (at 0 "messageId")
    message_seq ← required value_u64 (at 1 "messageSeq")
    reason_code ← required value_i64 (at 2 "reasonCode")
    some (record { message_id = message_id; message_seq = message_seq; reason_code = reason_code })

  unfoldable pub read_recv_message : Value → Option (RecvMessage J)
  read_recv_message v = do
    at ← fields 11 v
    header ← or_default read_header default_header (at 0 "header")
    message_id ← required as_str (at 1 "messageId")
    message_seq ← required value_u64 (at 2 "messageSeq")
    timestamp ← required value_i64 (at 3 "timestamp")
    channel_id ← required as_str (at 4 "channelId")
    channel_type ← required (read_uint 8) (at 5 "channelType")
    from_uid ← required as_str (at 6 "fromUid")
    payload ← at 7 "payload"
    client_msg_no ← optional as_str (at 8 "clientMsgNo")
    setting ← optional read_setting (at 9 "setting")
    topic ← optional as_str (at 10 "topic")
    some (record {
      header = header;
      message_id = message_id;
      message_seq = message_seq;
      timestamp = timestamp;
      channel_id = channel_id;
      channel_type = channel_type;
      from_uid = from_uid;
      payload = payload;
      client_msg_no = client_msg_no;
      setting = setting;
      topic = topic;
    })

  unfoldable pub read_custom_event : Value → Option (CustomEvent J)
  read_custom_event v = do
    at ← fields 5 v
    header ← optional read_header (at 0 "header")
    id ← required as_str (at 1 "id")
    event_type ← required as_str (at 2 "type")
    timestamp ← required value_i64 (at 3 "timestamp")
    body ← at 4 "data"
    some (record {
      header = header;
      id = id;
      event_type = event_type;
      timestamp = timestamp;
      body = body;
    })

  -- `json!(b)`, `json!(s)`, `json!({...})` of a map
  abbrev pub json_bool : Bool → Value
  json_bool b = into (Shape.bool b)

  abbrev pub json_string : String → Value
  json_string s = into (Shape.string s)

  abbrev pub json_object : Map → Value
  json_object m = into (Shape.object m)

  unfoldable pub write_header : Header → Value
  write_header h = json_object (
      insert
        (insert
          (insert (insert empty "noPersist" (json_bool h.no_persist)) "redDot"
            (json_bool h.red_dot))
          "syncOnce" (json_bool h.sync_once))
        "dup" (json_bool h.dup))

  unfoldable pub write_setting : MessageSetting → Value
  write_setting s = json_object (
      insert
        (insert
          (insert (insert empty "receipt" (json_bool s.receipt)) "signal" (json_bool s.signal))
          "stream" (json_bool s.stream))
        "topic" (json_bool s.topic))
