-- ===== src/Tests/Networks.antt =====
-- A run of the network probe at concrete inputs: a pair, an exchange, and the end of both.
use wu_kong_easy_sdk_rust.Base.{ℕ, String, refl, true, none, [], ◌∷◌}
use wu_kong_easy_sdk_rust.Types.Device.{channel_code}
use wu_kong_easy_sdk_rust.Types.Failure.{ok, err, destroyed, timeout, backpressure}
use wu_kong_easy_sdk_rust.Types.Text.{byte_length}
use wu_kong_easy_sdk_rust.Types.Decode.{as_object, as_str}
use wu_kong_easy_sdk_rust.Types.Messages.{Event}
use wu_kong_easy_sdk_rust.Probe.{pass, failed, lagged, elapsed}
use wu_kong_easy_sdk_rust.Probe.Interruption.{silent, all_silent}
use wu_kong_easy_sdk_rust.Probe.Control.{read_line, control}
use wu_kong_easy_sdk_rust.Probe.Network.{
  user, next_message, quiet, Round, receive, exchange_round, exchange_rounds,
}
use wu_kong_easy_sdk_rust.Probe.Network.Control.{
  Doing, items, make_pair, destroy_pair, stop_probe, exchange_phase, on_phase, handle_network,
}
use wu_kong_easy_sdk_rust.Probe.Network.Orderly.{Orderly, control_network-Orderly}
use wu_kong_easy_sdk_rust.Tests.Serde.{end, object, serde, tree_read, tree_text, same_text}
use wu_kong_easy_sdk_rust.Tests.Messages.{received, acked}
use wu_kong_easy_sdk_rust.Tests.Workers.{welcomed}

-- The users take turns.
abbrev exchanged : ℕ → Round serde same_text
exchanged index = record {
  payload = object end;
  outcome = ok (record acked { message_id = "12"; message_seq = 3 });
  inbox = (
    Event.message
          (record received { from_uid = user index; channel_id = user index; channel_type = 1 })
        ∷ [],
    elapsed,
  );
}

abbrev doing : String → Doing serde same_text
doing op = record {
  text = op;
  created = pass tt;
  connects = λ index. ok welcomed;
  connects_again = λ index. err destroyed;
  round = exchanged;
  lag_round = λ index. (exchanged 0, ([], none));
  slow = failed (lagged 40);
  window = (([], none) ∷ ([], none) ∷ [], 160_000_000) ∷ [];
  pending = true;
  rejected = err backpressure;
  first = err timeout;
  second = err timeout;
  payload_a = object end;
  payload_b = object end;
  inbox = ([], elapsed);
  events = [];
  states = [];
  end = elapsed;
}

control_network-Orderly_example :
    Orderly serde same_text none
      (doing "new" ∷ doing "exchange" ∷ doing "destroy" ∷ doing "stop" ∷ [])
unfolding control read_line handle_network make_pair destroy_pair stop_probe on_phase exchange_phase
    items exchange_rounds exchange_round receive next_message quiet silent all_silent channel_code
    tree_text tree_read as_object as_str byte_length
control_network-Orderly_example =
    control_network-Orderly serde same_text
      (doing "new" ∷ doing "exchange" ∷ doing "destroy" ∷ doing "stop" ∷ []) refl
