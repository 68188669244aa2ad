-- ===== src/Tests/Sessions.antt =====
-- Runs of a session at concrete inputs.
use wu_kong_easy_sdk_rust.Base.{ℕ, ◌≤◌, ◌+◌, ◌≡◌, refl, Bool, false, some, List, [], ◌∷◌}
use wu_kong_easy_sdk_rust.Types.Options.{default_options}
use wu_kong_easy_sdk_rust.Types.Text.{byte_length}
use wu_kong_easy_sdk_rust.Session.State.{PendingMap, State, completes, lookup, remove, write_value}
use wu_kong_easy_sdk_rust.Session.Incoming.{text, on_frame, on_text, on_value, on_response}
use wu_kong_easy_sdk_rust.Session.Round.{
  Input, timer_ready, command_ready, frame_ready, expire, expired_ids, round, session, housekeep,
  retain_open, on_branch, on_command, on_timer,
}
use wu_kong_easy_sdk_rust.Session.Answers.{answers, held}
use wu_kong_easy_sdk_rust.Session.Rounds.{IsFreshRun, held_in, answers-session_le}
use wu_kong_easy_sdk_rust.Session.Deadlines.{unexpired, timeouts, expire_lem}
use wu_kong_easy_sdk_rust.Tests.Serde.{end, object, serde, unary64, tree_read, tree_text}
use wu_kong_easy_sdk_rust.Protocol.Outbound.{request}
use wu_kong_easy_sdk_rust.Types.Decode.{as_object, as_str}
use wu_kong_easy_sdk_rust.Protocol.Inbound.{parse}

-- Two sends are pending, and a pong is awaited.
abbrev pub two_pending : PendingMap
two_pending =
    ("a", record { deadline = 50; reply = 7 }) ∷ ("b", record { deadline = 20; reply = 8 }) ∷ []

abbrev pub awaiting : State
awaiting = record { pending = two_pending; next_ping = 100; ping = some ("p", 90) }

abbrev pub all_open : ℕ → Bool
all_open t = false

-- The answer to "a" comes at 30, when "b" is overdue.
abbrev answer_input : Input serde
answer_input = record {
  now = 30;
  closed = all_open;
  closed_later = all_open;
  branch = frame_ready (text "ack") 31 completes;
}

-- A new send with the ticket 9.
abbrev command_input : Input serde
command_input = record {
  now = 40;
  closed = all_open;
  closed_later = all_open;
  branch =
      command_ready
        (some (record { generation = 1; id = "c"; params = object end; deadline = 60; reply = 9 }))
        1 41 completes;
}

-- The pong is still missing when the timer fires at 95.
abbrev timer_input : Input serde
timer_input = record {
  now = 94;
  closed = all_open;
  closed_later = all_open;
  branch = timer_ready 95 95 "q" completes;
}

abbrev pub whole_run : List (Input serde)
whole_run = answer_input ∷ command_input ∷ timer_input ∷ []

whole_run-IsFresh : IsFreshRun serde unary64 default_options awaiting whole_run
unfolding default_options round housekeep retain_open expired_ids expire lookup remove on_branch
    on_command on_timer write_value on_frame on_text on_value on_response parse tree_read as_object
    as_str tree_text request byte_length
whole_run-IsFresh = (tt, (refl, (tt, tt)))

answers-session_le_example :
    answers 9 (session serde unary64 default_options awaiting whole_run).effects
      + held_in serde unary64 default_options 9
          (session serde unary64 default_options awaiting whole_run).result
    ≤ 1
unfolding session held
answers-session_le_example =
    answers-session_le serde unary64 default_options 9 awaiting whole_run whole_run-IsFresh

expire_lem_example :
    expire serde (expired_ids 30 two_pending) two_pending
    ≡ (timeouts serde 30 two_pending, unexpired 30 two_pending)
unfolding lookup
expire_lem_example = expire_lem serde 30 two_pending (refl, (refl, tt))
