-- ===== src/Tests/Roundtrips.antt =====
-- A run of the round-trip probe at concrete inputs, with the peer in the same program.
use wu_kong_easy_sdk_rust.Base.{refl, String, true, false, some, [], ◌∷◌}
use wu_kong_easy_sdk_rust.Types.Failure.{ok}
use wu_kong_easy_sdk_rust.Types.Messages.{Event}
use wu_kong_easy_sdk_rust.Types.Text.{to_decimal}
use wu_kong_easy_sdk_rust.Probe.{closed}
use wu_kong_easy_sdk_rust.Probe.Smoke.{
  smoke_payload, await_match, Inboxes, Leg, reply_of_peer, reconnect_between, smoke_round,
  smoke_rounds, run_smoke,
}
use wu_kong_easy_sdk_rust.Probe.Smoke.Echoes.{Answered, Reconnected, run_smoke-Answered}
use wu_kong_easy_sdk_rust.Tests.Serde.{serde, tree_text, same_text}
use wu_kong_easy_sdk_rust.Tests.Messages.{received, acked}
use wu_kong_easy_sdk_rust.Tests.Workers.{welcomed}

abbrev leg : String → Leg serde same_text
leg nonce = record {
  nonce = nonce;
  outcome = ok acked;
  peer_outcome = ok acked;
  connected = true;
  still_connected = false;
  reconnects = ok welcomed;
}

-- A message from a sender with the payload of a nonce.
abbrev note : String → String → Event serde
note sender nonce =
    Event.message (record received { from_uid = sender; payload = smoke_payload serde nonce })

abbrev before : Inboxes serde same_text
before = record {
  incoming =
      (Event.connect welcomed ∷ note "bob" "a" ∷ note "eve" "b" ∷ note "bob" "b" ∷ [], closed);
  peer_incoming = some (note "ann" "a" ∷ note "ann" "b" ∷ [], closed);
}

abbrev after : Inboxes serde same_text
after = record { incoming = ([], closed); peer_incoming = some ([], closed) }

run_smoke-Answered_example :
    (middle : Inboxes serde same_text) × Answered serde same_text "ann" "bob"
      (leg "a")
      before
      middle
    × Reconnected serde same_text (leg "a")
    × Answered serde same_text "ann" "bob" (leg "b") middle after
unfolding run_smoke smoke_rounds smoke_round reply_of_peer reconnect_between await_match
    smoke_payload tree_text to_decimal
run_smoke-Answered_example =
    run_smoke-Answered serde same_text "ann" "bob" (some (ok welcomed)) (ok welcomed) (leg "a")
      (leg "b") before after refl
