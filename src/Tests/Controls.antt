-- ===== src/Tests/Controls.antt =====
-- A run of the group probe at concrete inputs: a send, an interruption that is armed, and the end.
use wu_kong_easy_sdk_rust.Base.{refl, true, false, none, [], ◌∷◌}
use wu_kong_easy_sdk_rust.Types.Device.{channel_code}
use wu_kong_easy_sdk_rust.Types.Failure.{ok}
use wu_kong_easy_sdk_rust.Types.Text.{byte_length, to_decimal}
use wu_kong_easy_sdk_rust.Types.Decode.{as_object, as_str, as_array, value_u64, value_i64}
use wu_kong_easy_sdk_rust.Types.Messages.{DisconnectReason, Event}
use wu_kong_easy_sdk_rust.Probe.Observe.{Turn, judge_group, on_event, drain, sweep, observe}
use wu_kong_easy_sdk_rust.Probe.Interruption.{silent, all_silent}
use wu_kong_easy_sdk_rust.Probe.Commands.{outcome_group, accept_ack, last_of}
use wu_kong_easy_sdk_rust.Probe.Control.{
  Line, probe_payload, read_line, recipient, recipients_of, read_group, handle_group, dispatch,
  control,
}
use wu_kong_easy_sdk_rust.Probe.Control.Faithful.{Faithful, control-Faithful}
use wu_kong_easy_sdk_rust.Tests.Serde.{serde, tree_read, tree_text, same_text}
use wu_kong_easy_sdk_rust.Tests.Messages.{received, acked}

abbrev delivery : Event serde
delivery =
    Event.message
      (record received { from_uid = "group-alice"; payload = probe_payload serde "p" "n" })

abbrev window : Turn serde
window = record {
  inboxes =
      ([], none)
      ∷ (delivery ∷ [], none)
      ∷ (Event.send_ack acked ∷ delivery ∷ [], none)
      ∷ ([], none)
      ∷ [];
  elapsed = 600_000_000;
  later = 600_000_000;
}

abbrev sending : Line serde
sending = record {
  text = "send";
  nonce = "n";
  outcome = ok (record acked { message_id = "12"; message_seq = 3 });
  turns = window ∷ [];
  drained = [];
  arrivals = [];
  all_connected = true;
}

abbrev arming : Line serde
arming = record sending {
  text = "arm_reconnect";
  drained = (Event.disconnect DisconnectReason.transport ∷ [], none) ∷ [];
}

abbrev stopping : Line serde
stopping = record sending { text = "stop" }

control-Faithful_example :
    Faithful serde same_text false (λ k. 0) [] (sending ∷ arming ∷ stopping ∷ [])
unfolding control read_line handle_group dispatch read_group recipient recipients_of judge_group
    on_event drain sweep observe silent all_silent outcome_group accept_ack last_of channel_code
    tree_text to_decimal tree_read as_object as_str as_array value_u64 value_i64 byte_length
    probe_payload
control-Faithful_example =
    control-Faithful serde same_text false (λ k. 0) (sending ∷ arming ∷ stopping ∷ []) refl
