-- ===== src/Tests/Soaks.antt =====
-- A run of the soak probe at concrete inputs: eleven sends over four connections, one of them interrupted.
use wu_kong_easy_sdk_rust.Base.{String, true, false, some, List, [], ◌∷◌}
use wu_kong_easy_sdk_rust.Types.Failure.{ok, err, disconnected}
use wu_kong_easy_sdk_rust.Types.Messages.{DisconnectReason, Event}
use wu_kong_easy_sdk_rust.Probe.Soak.{
  StringSet, Heard, heard, Arrival, arrived, Soak, SoakTurn, soak_payload,
}
use wu_kong_easy_sdk_rust.Probe.Soak.Evidence.{Evidence}
use wu_kong_easy_sdk_rust.Tests.Serde.{serde}
use wu_kong_easy_sdk_rust.Tests.Messages.{received, acked}
use wu_kong_easy_sdk_rust.Tests.Workers.{welcomed}

abbrev connected : Heard serde
connected = heard (Event.connect welcomed)

abbrev broken_off : Heard serde
broken_off = heard (Event.disconnect DisconnectReason.transport)

abbrev good_turn : List (Heard serde) → String → SoakTurn serde
good_turn before nonce = record {
  elapsed = 1_000_000;
  connected = true;
  heard_before = before;
  nonce = nonce;
  outcome = some (ok acked);
  heard_during = [];
  connected_after = true;
}

abbrev bad_turn : SoakTurn serde
bad_turn = record (good_turn [] "lost") {
  outcome = some (err disconnected);
  heard_during = broken_off ∷ [];
  connected_after = false;
}

abbrev turns : List (SoakTurn serde)
turns =
    good_turn (connected ∷ []) "a"
    ∷ bad_turn
    ∷ good_turn (connected ∷ []) "b"
    ∷ good_turn (broken_off ∷ connected ∷ []) "c"
    ∷ good_turn (broken_off ∷ connected ∷ []) "d"
    ∷ good_turn [] "e"
    ∷ good_turn [] "f"
    ∷ good_turn [] "g"
    ∷ good_turn [] "h"
    ∷ good_turn [] "i"
    ∷ good_turn [] "j"
    ∷ record (good_turn [] "") { elapsed = 10_000_000_000 }
    ∷ []

abbrev echo : String → Arrival serde
echo nonce = arrived (record received { payload = soak_payload serde nonce })

abbrev nonces : StringSet
nonces = "a" ∷ "b" ∷ "c" ∷ "d" ∷ "e" ∷ "f" ∷ "g" ∷ "h" ∷ "i" ∷ "j" ∷ []

abbrev finished : Soak serde
finished = record {
  sent = 11;
  completed = 10;
  interrupted = 1;
  last_recovered = 4;
  received = "j" ∷ "i" ∷ "h" ∷ "g" ∷ "f" ∷ "e" ∷ "d" ∷ "c" ∷ "b" ∷ "a" ∷ [];
  issued = "j" ∷ "i" ∷ "h" ∷ "g" ∷ "f" ∷ "e" ∷ "d" ∷ "c" ∷ "b" ∷ "lost" ∷ "a" ∷ [];
  observer = record {
    observed = record { connects = 4; disconnects = 3; failures = 0; lagged = false };
    runs = true;
  };
  incoming = [];
}
