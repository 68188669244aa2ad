-- ===== src/Session/Receipts/Rounds.antt =====
-- The receipts of the branches, the rounds and the runs of `Worker::session` in src/client.rs.
use wu_kong_easy_sdk_rust.Json.{Json}
use wu_kong_easy_sdk_rust.Types.Options.{Options}
use wu_kong_easy_sdk_rust.Session.State.{State}
