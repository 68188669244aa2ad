-- ===== src/Tests/Clients.antt =====
-- Handles at concrete inputs.
use wu_kong_easy_sdk_rust.Base.{
  ◌+◌, ℕ, ◌≡◌, refl, String, true, false, Option, none, some, List, [], ◌∷◌, arith, inr,
}
use wu_kong_easy_sdk_rust.Types.Failure.{ok}
use wu_kong_easy_sdk_rust.Types.Device.{Auth, desktop}
use wu_kong_easy_sdk_rust.Types.Text.{is_whitespace, trim, contains_char, byte_length, to_decimal}
use wu_kong_easy_sdk_rust.Types.Text.Blank.{is_blank}
use wu_kong_easy_sdk_rust.Types.Options.{Options, default_options}
use wu_kong_easy_sdk_rust.Types.Options.Validity.{default_options-IsValid}
use wu_kong_easy_sdk_rust.Types.Messages.{default_send_options}
use wu_kong_easy_sdk_rust.Types.Decode.{as_object, write_header}
use wu_kong_easy_sdk_rust.Protocol.Outbound
use wu_kong_easy_sdk_rust.Protocol.Outbound.{send_params, request}
use wu_kong_easy_sdk_rust.Session.State.{Command}
use wu_kong_easy_sdk_rust.Client.Tls.{tls_config, tls_config-ok_iff}
use wu_kong_easy_sdk_rust.Client.Create.{Uri, new, new-ok_iff}
use wu_kong_easy_sdk_rust.Client.Handle.{Handle, join, new_run, too_large}
use wu_kong_easy_sdk_rust.Client.Handle.Admission.{admitted, command_of, admit_send-ok_iff}
use wu_kong_easy_sdk_rust.Client.Handle.Lifecycle.{join-again}
use wu_kong_easy_sdk_rust.Tests.Serde.{object, end, serde, unary64, codes, tree_text, unary, ones}

abbrev pub auth : Auth
auth = record { uid = "ann"; token = "t"; device_id = "d"; device_flag = desktop }

abbrev parse_uri : String → Option Uri
parse_uri url = some (record { scheme = some "wss"; host = some "im"; authority = some "im:443" })

new-ok_iff_example :
    new parse_uri (λ o. ok tt) "wss://im:443" auth default_options
    ≡ ok (record { url = "wss://im:443"; auth = auth; options = default_options })
unfolding contains_char is_blank is_whitespace
new-ok_iff_example = (new-ok_iff parse_uri (λ o. ok tt) "wss://im:443" auth default_options _).1 (
  default_options-IsValid,
  record {
    uri = record { scheme = some "wss"; host = some "im"; authority = some "im:443" };
    parses = refl;
    websocket = inr refl;
    hosted = refl;
    anonymous = refl;
    whole = refl;
  },
  record { uid = refl; token = refl; device = refl },
  refl,
  refl,
)

abbrev online : Handle serde
online = record {
  is_destroyed = false;
  connected = true;
  generation = 2;
  free_slots = 5;
  running = some (new_run serde 7);
}

abbrev params : serde.Value
params = object (send_params serde unary64 "room" 2 (123 ∷ 125 ∷ []) default_send_options "no-1")

abbrev queued_command : Command serde
queued_command =
    command_of serde unary64 default_options "room" 2 (object end) default_send_options true 70
      "no-1" "id-1" 3 online params

admit_send-ok_iff_example :
    admitted serde unary64 default_options "room" 2
      (object end)
      default_send_options
      true
      70
      "no-1"
      "id-1"
      3
      online
    ≡ (
      record online {
        free_slots = 4;
        running = some (record (new_run serde 7) { queue = queued_command ∷ [] });
      },
      ok queued_command,
    )
unfolding default_options Outbound.send codes tree_text trim as_object default_send_options
    too_large byte_length request send_params write_header unary ones to_decimal
admit_send-ok_iff_example =
    (admit_send-ok_iff serde unary64 default_options "room" 2 (object end) default_send_options true
        70 "no-1" "id-1" 3 online _ queued_command).1
      (
        4,
        params,
        record {
          alive = refl;
          online = refl;
          slot = refl;
          accepted = refl;
          fits = refl;
          online_still = refl;
        },
        (new_run serde 7, refl, refl, omega arith, refl, refl),
      )

abbrev offline : Handle serde
offline = record online { connected = false; running = none }

abbrev started : Handle serde
started = record offline { running = some (new_run serde 7) }

join-again_example : join serde false 8 started ≡ ok (started, true)
unfolding join
join-again_example = join-again serde offline started true false true 7 8 refl

-- A store of roots that is a count, and refuses the empty certificate.
abbrev count_root : ℕ → List ℕ → Option ℕ
count_root n [] = none
count_root n (b ∷ bs) = some (n + 1)

abbrev with_root : Options
with_root = record default_options { additional_root_certificates = (48 ∷ []) ∷ [] }

tls_config-ok_iff_example : tls_config 140 count_root (some true) (λ b n. n) with_root ≡ ok 141
tls_config-ok_iff_example =
    (tls_config-ok_iff 140 count_root (some true) (λ b n. n) with_root 141).1
      (141, (141, refl, refl), (true, refl, refl))
