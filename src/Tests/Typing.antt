-- ===== src/Tests/Typing.antt =====
-- The effects of a concrete run fit their types.
use wu_kong_easy_sdk_rust.Base.{All}
use wu_kong_easy_sdk_rust.Types.Options.{default_options}
use wu_kong_easy_sdk_rust.Session.Round.{session}
use wu_kong_easy_sdk_rust.Session.Typed.{Fits, session-Fits}
use wu_kong_easy_sdk_rust.Tests.Serde.{serde, serde-IsLawful, unary64}
use wu_kong_easy_sdk_rust.Tests.Sessions.{awaiting, whole_run}

session-Fits_example : All Fits (session serde unary64 default_options awaiting whole_run).effects
session-Fits_example = session-Fits serde serde-IsLawful unary64 default_options awaiting whole_run
