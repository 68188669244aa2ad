-- ===== src/Types/Messages.antt =====
-- The message records and events of src/types.rs. A field that the source calls `data` is `body`
-- here, and `type` is `event_type` on both sides.
use wu_kong_easy_sdk_rust.Base.{ℕ, String, Bool, true, false, Option, none}
use wu_kong_easy_sdk_rust.Base.Int.{ℤ}
use wu_kong_easy_sdk_rust.Json.{Json}
use wu_kong_easy_sdk_rust.Types.Failure.{Error}

pub record Header : Type 0 where
  pub no_persist : Bool
  pub red_dot : Bool
  pub sync_once : Bool
  pub dup : Bool

-- `Header::default()`
abbrev pub default_header : Header
default_header = record { no_persist = false; red_dot = false; sync_once = false; dup = false }

pub record MessageSetting : Type 0 where
  pub receipt : Bool
  pub signal : Bool
  pub stream : Bool
  pub topic : Bool

pub record SendOptions : Type 0 where
  pub client_msg_no : Option String
  pub header : Header
  pub setting : Option MessageSetting
  pub topic : Option String

unfoldable pub default_send_options : SendOptions
default_send_options = record {
  client_msg_no = none;
  header = record default_header { red_dot = true };
  setting = none;
  topic = none;
}

pub record ConnectResult : Type 0 where
  pub reason_code : ℤ
  pub server_key : String
  pub salt : String
  pub time_diff : ℤ
  pub server_version : ℕ
  pub node_id : ℕ

pub record SendResult : Type 0 where
  pub message_id : String
  pub message_seq : ℕ
  pub reason_code : ℤ

pub data DisconnectReason : Type 0 where
  manual transport heartbeat_timeout : DisconnectReason
  server : ℤ → DisconnectReason

module _ (J : Json) where
  open J use {Value}

  pub record RecvMessage : Type 0 where
    pub header : Header
    pub message_id : String
    pub message_seq : ℕ
    pub timestamp : ℤ
    pub channel_id : String
    pub channel_type : ℕ
    pub from_uid : String
    pub payload : Value
    pub client_msg_no : Option String
    pub setting : Option MessageSetting
    pub topic : Option String

  pub record CustomEvent : Type 0 where
    pub header : Option Header
    pub id : String
    pub event_type : String
    pub timestamp : ℤ
    pub body : Value

  pub data Event : Type 0 where
    connect : ConnectResult → Event
    disconnect : DisconnectReason → Event
    message : RecvMessage → Event
    send_ack : SendResult → Event
    reconnecting : ℕ → ℕ → Event
    custom_event : CustomEvent → Event
    error : Error → Event
