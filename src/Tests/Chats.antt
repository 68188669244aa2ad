-- ===== src/Tests/Chats.antt =====
-- A chat at concrete inputs: a line, a message that arrives, an interruption of the connection, and the end.
use wu_kong_easy_sdk_rust.Base.{◌≡◌, some, List, [], ◌∷◌, map}
use wu_kong_easy_sdk_rust.Types.Failure.{ok}
use wu_kong_easy_sdk_rust.Types.Messages.{DisconnectReason, Event}
use wu_kong_easy_sdk_rust.Probe.{pass}
use wu_kong_easy_sdk_rust.Probe.Chat.{Choice, typed, heard, out_line, chat}
use wu_kong_easy_sdk_rust.Probe.Chat.Private.{redact, chat-redact}
use wu_kong_easy_sdk_rust.Tests.Serde.{serde}
use wu_kong_easy_sdk_rust.Tests.Messages.{received, acked}

abbrev talk : List (Choice serde)
talk =
    typed (pass (some "hello")) (ok acked)
    ∷ heard (pass (Event.message received))
    ∷ heard (pass (Event.disconnect DisconnectReason.transport))
    ∷ typed (pass (some "/quit")) (ok acked)
    ∷ []

chat-redact_example :
    ((chat serde (map (redact serde) talk)).printed
      ≡ out_line "SEND accepted by server"
        ∷ out_line "Message received"
        ∷ out_line "Disconnected"
        ∷ [])
    × ((chat serde (map (redact serde) talk)).result ≡ some (pass tt))
unfolding chat
chat-redact_example = chat-redact serde talk
