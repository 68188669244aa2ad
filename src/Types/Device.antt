-- ===== src/Types/Device.antt =====
-- The enumerations of src/types.rs with their wire numbers, and `Auth`.
use wu_kong_easy_sdk_rust.Base.{ℕ, String}

pub data DeviceFlag : Type 0 where
  app web desktop : DeviceFlag

-- `flag as u8`
unfoldable pub device_code : DeviceFlag → ℕ
device_code app = 0
device_code web = 1
device_code desktop = 2

pub data ChannelType : Type 0 where
  person group customer_service community community_topic info data_channel temp live visitors :
      ChannelType

-- `u8::from(channel_type)`
unfoldable pub channel_code : ChannelType → ℕ
channel_code person = 1
channel_code group = 2
channel_code customer_service = 3
channel_code community = 4
channel_code community_topic = 5
channel_code info = 6
channel_code data_channel = 7
channel_code temp = 8
channel_code live = 9
channel_code visitors = 10

pub data ReasonCode : Type 0 where
  unknown success auth_fail subscriber_not_exist in_blacklist channel_not_exist : ReasonCode
  user_not_on_node sender_offline msg_key_error payload_decode_error : ReasonCode
  forward_send_packet_error not_allow_send connect_kick not_in_whitelist : ReasonCode
  query_token_error system_error channel_id_error node_match_error node_not_match : ReasonCode
  ban not_support_header client_key_is_empty rate_limit : ReasonCode
  not_support_channel_type disband send_ban : ReasonCode

-- `reason as i64`; no known reason is negative.
unfoldable pub reason_number : ReasonCode → ℕ
reason_number unknown = 0
reason_number success = 1
reason_number auth_fail = 2
reason_number subscriber_not_exist = 3
reason_number in_blacklist = 4
reason_number channel_not_exist = 5
reason_number user_not_on_node = 6
reason_number sender_offline = 7
reason_number msg_key_error = 8
reason_number payload_decode_error = 9
reason_number forward_send_packet_error = 10
reason_number not_allow_send = 11
reason_number connect_kick = 12
reason_number not_in_whitelist = 13
reason_number query_token_error = 14
reason_number system_error = 15
reason_number channel_id_error = 16
reason_number node_match_error = 17
reason_number node_not_match = 18
reason_number ban = 19
reason_number not_support_header = 20
reason_number client_key_is_empty = 21
reason_number rate_limit = 22
reason_number not_support_channel_type = 23
reason_number disband = 24
reason_number send_ban = 25

pub record Auth : Type 0 where
  pub uid : String
  pub token : String
  pub device_id : String
  pub device_flag : DeviceFlag

-- `Auth::new`; the generated device ID is an argument.
unfoldable pub new_auth : String → String → String → Auth
new_auth uid token generated_id = record {
  uid = uid;
  token = token;
  device_id = generated_id;
  device_flag = desktop;
}

-- `Debug` of `Auth`, which shows none of its fields.
unfoldable pub format_auth : Auth → String
format_auth auth = "Auth([REDACTED])"
