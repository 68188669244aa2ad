-- ===== src/Protocol/Normalize.antt =====
-- `normalize` and `decode` of src/protocol.rs. `Value`s are finite, so the recursion into "header"
-- takes the depth of the value for fuel.
pub mod Names
pub mod Fuel
pub mod Lookup
use wu_kong_easy_sdk_rust.Base.{
  ℕ, zero, suc, String, Option, none, some, List, [], ◌∷◌, and_then, is_some,
}
use wu_kong_easy_sdk_rust.Json.{Json, Shape}
use wu_kong_easy_sdk_rust.Types.Failure.{Result, protocol, ok_or}
use wu_kong_easy_sdk_rust.Types.Text.{to_decimal}
use wu_kong_easy_sdk_rust.Types.Decode.{as_object, value_u64, json_string, json_object}

-- The table of the loop, in its order.
abbrev pub aliases : List (String × String)
aliases =
    ("reason_code", "reasonCode")
    ∷ ("server_key", "serverKey")
    ∷ ("time_diff", "timeDiff")
    ∷ ("server_version", "serverVersion")
    ∷ ("node_id", "nodeId")
    ∷ ("message_id", "messageId")
    ∷ ("message_seq", "messageSeq")
    ∷ ("channel_id", "channelId")
    ∷ ("channel_type", "channelType")
    ∷ ("from_uid", "fromUid")
    ∷ ("client_msg_no", "clientMsgNo")
    ∷ ("no_persist", "noPersist")
    ∷ ("red_dot", "redDot")
    ∷ ("sync_once", "syncOnce")
    ∷ []

module _ (J : Json) where
  open J use {Value, Map, out, into, get, insert, remove, depth}

  -- `object.entry(key).or_insert(v)`
  unfoldable pub or_insert : Map → String → Value → Map
  or_insert m key v = elim (get m key) [ none ↦ insert m key v | some old ↦ m ]

  -- `if let Some(v) = object.remove(snake) { object.entry(camel).or_insert(v); }`
  unfoldable pub rename : String × String → Map → Map
  unfolding or_insert
  rename (snake, camel) m = elim (get m snake) [
    | none ↦ m
    | some v ↦ or_insert (remove m snake) camel v
  ]

  unfoldable pub rename_all : List (String × String) → Map → Map
  rename_all [] m = m
  rename_all (p ∷ ps) m = rename_all ps (rename p m)

  -- A number that is a `u64` becomes its decimal text.
  unfoldable pub stringify : Value → Value
  unfolding to_decimal value_u64
  stringify v = elim (value_u64 J v) [ none ↦ v | some n ↦ json_string J (to_decimal n) ]

  -- `if let Some(v) = object.get_mut(key) { *v = f(v) }`
  unfoldable pub modify : String → (Value → Value) → Map → Map
  modify key f m = elim (get m key) [ none ↦ m | some v ↦ insert m key (f v) ]

  -- The names, then the message ID.
  unfoldable pub normalize_fields : Map → Map
  unfolding rename_all rename modify stringify
  normalize_fields m = modify "messageId" stringify (rename_all aliases m)

  -- `if let Some(object) = value.as_object_mut() { f(object) }`
  abbrev on_object : Value → (Map → Map) → Value
  on_object v f = elim (as_object J v) [ none ↦ v | some m ↦ json_object J (f m) ]

  unfoldable pub normalize_at : ℕ → Value → Value
  unfolding normalize_fields as_object
  normalize_at zero v = on_object v normalize_fields
  normalize_at (suc fuel) v =
      on_object v (λ m. modify "header" (normalize_at fuel) (normalize_fields m))

  unfoldable pub normalize : Value → Value
  unfolding normalize_at
  normalize v = normalize_at (depth v) v

  -- `decode::<T>`, where `read` is the `Deserialize` of `T`.
  unfoldable pub decode {ℓ} : {A : Type ℓ} → (Value → Option A) → Value → Result A
  unfolding normalize
  decode read v = ok_or (read (normalize v)) (protocol "invalid fields")
