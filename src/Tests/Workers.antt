-- ===== src/Tests/Workers.antt =====
-- Attempts, sessions and ends of a worker at concrete inputs.
use wu_kong_easy_sdk_rust.Base.{◌≡◌, refl, true, false, none, some, List, [], ◌∷◌, All, arith}
use wu_kong_easy_sdk_rust.Base.Int.{pos}
use wu_kong_easy_sdk_rust.Types.Failure.{ok, transport, timeout, server, reconnect_exhausted}
use wu_kong_easy_sdk_rust.Types.Options.{default_options}
use wu_kong_easy_sdk_rust.Types.Options.Validity.{default_options-IsValid}
use wu_kong_easy_sdk_rust.Types.Messages.{ConnectResult}
use wu_kong_easy_sdk_rust.Types.Decode.{value_i64, as_object, as_str, read_connect_result}
use wu_kong_easy_sdk_rust.Protocol.Normalize.{decode}
use wu_kong_easy_sdk_rust.Protocol.Inbound.{parse, response}
use wu_kong_easy_sdk_rust.Session.State.{Io, completes}
use wu_kong_easy_sdk_rust.Session.Incoming.{Frame, text, ping, pong}
use wu_kong_easy_sdk_rust.Worker.Establish.{
  authenticated, handshake, authenticated-ok_iff, handshake-ok_iff,
}
use wu_kong_easy_sdk_rust.Worker.Supervise.{
  WorkerState, Attempt, refused, served, before_socket, pass, supervise, run,
}
use wu_kong_easy_sdk_rust.Worker.Supervise.Pairing.{track, track-supervise}
use wu_kong_easy_sdk_rust.Worker.Supervise.Reconnects.{
  refusals, IsAnnounced, supervise-refusals, supervise-IsAnnounced,
}
use wu_kong_easy_sdk_rust.Worker.Supervise.Ends.{fresh, pass-ended_iff, run-fresh}
use wu_kong_easy_sdk_rust.Tests.Serde.{serde, tree_read, tree_depth}

abbrev pub welcomed : ConnectResult
welcomed = record {
  reason_code = pos 1;
  server_key = "";
  salt = "";
  time_diff = pos 0;
  server_version = 0;
  node_id = 0;
}

-- A session that ends with a missing pong, a failed attempt, and a session that the server ends.
abbrev story : List Attempt
story =
    served 0 welcomed timeout (4 ∷ [])
    ∷ refused 11 transport
    ∷ served 12 welcomed (server (pos 12)) []
    ∷ []

-- A worker that was connected once and has made four attempts since.
abbrev tired : WorkerState
tired = record (fresh 3) { established = true; attempt = 4 }

track-supervise_example :
    track serde false (supervise serde default_options (fresh 0) story).deeds ≡ some false
track-supervise_example = track-supervise serde default_options (fresh 0) story

supervise-refusals_example :
    (supervise serde default_options tired (refusals ((5, transport) ∷ (6, timeout) ∷ []))).ended
    ≡ some reconnect_exhausted
unfolding default_options
supervise-refusals_example =
    supervise-refusals serde default_options tired ((5, transport) ∷ (6, timeout) ∷ []) refl
      (omega arith) (refl, (refl, tt))

supervise-IsAnnounced_example :
    All
      (IsAnnounced serde default_options)
      (supervise serde default_options tired (refused 5 transport ∷ [])).deeds
unfolding default_options
supervise-IsAnnounced_example =
    supervise-IsAnnounced serde default_options tired (refused 5 transport ∷ [])
      default_options-IsValid.limits (omega arith)

pass-ended_iff_example : (pass serde default_options tired (refused 5 transport)).ended ≡ none
unfolding default_options
pass-ended_iff_example =
    (pass-ended_iff serde default_options tired (refused 5 transport)).1 (refl, refl, omega arith)

run-fresh_example :
    (run serde default_options (fresh 0) story (before_socket 0) (8 ∷ [])).1.first_result
    ≡ some (ok welcomed)
run-fresh_example = (run-fresh serde default_options 0 story (before_socket 0) (8 ∷ [])).0

abbrev pub arriving : List (Frame × Io)
arriving = (ping, completes) ∷ (pong, completes) ∷ (text "hello", completes) ∷ []

welcomed-authenticated : authenticated serde "h" "hello" ≡ ok welcomed
unfolding authenticated parse tree_read as_object as_str value_i64 response decode
    read_connect_result tree_depth
welcomed-authenticated = refl

handshake-ok_iff_example : handshake serde "h" arriving ≡ ok welcomed
handshake-ok_iff_example = (handshake-ok_iff serde "h" arriving welcomed).1 (
  (ping, completes) ∷ (pong, completes) ∷ [],
  "hello",
  completes,
  [],
  refl,
  (tt, (tt, tt)),
  (authenticated-ok_iff serde "h" "hello" welcomed).0 welcomed-authenticated,
)
