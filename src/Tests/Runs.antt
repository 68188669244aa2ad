-- ===== src/Tests/Runs.antt =====
-- Deadlines, timers and receipts of sessions, and a worker over its sessions, at concrete inputs.
use wu_kong_easy_sdk_rust.Base.{ℕ, ◌<◌, ◌≡◌, ◌⊎◌, refl, true, none, some, [], ◌∷◌, length, arith}
use wu_kong_easy_sdk_rust.Types.Failure.{ok, err, timeout}
use wu_kong_easy_sdk_rust.Types.Options.{default_options}
use wu_kong_easy_sdk_rust.Types.Text.{byte_length, to_decimal}
use wu_kong_easy_sdk_rust.Types.Decode.{as_object, as_str, value_i64, read_connect_result}
use wu_kong_easy_sdk_rust.Protocol.Outbound
use wu_kong_easy_sdk_rust.Protocol.Outbound.{request}
use wu_kong_easy_sdk_rust.Protocol.Normalize.{decode}
use wu_kong_easy_sdk_rust.Protocol.Inbound.{parse, response}
use wu_kong_easy_sdk_rust.Session.State.{State, completes, lookup, remove, write_value, fail}
use wu_kong_easy_sdk_rust.Session.Incoming.{text, on_frame, on_text, on_value, on_response}
use wu_kong_easy_sdk_rust.Session.Round.{
  Input, timer_ready, frame_ready, expire, expired_ids, round, session, housekeep, start, earliest,
  timer, retain_open, on_branch, on_command, on_timer,
}
use wu_kong_easy_sdk_rust.Session.Answers.{one_if, answers, held}
use wu_kong_easy_sdk_rust.Session.Heartbeat.{ends_overdue}
use wu_kong_easy_sdk_rust.Session.Liveness.{DueBy, session-answers_due}
use wu_kong_easy_sdk_rust.Session.Wakeups.{pings, on_timer-progress}
use wu_kong_easy_sdk_rust.Worker.Establish.{establish, handshake, authenticated}
use wu_kong_easy_sdk_rust.Worker.Supervise.{served, pass}
use wu_kong_easy_sdk_rust.Worker.Supervise.Ends.{fresh}
use wu_kong_easy_sdk_rust.Worker.Supervise.Heartbeats.{
  Trial, established, attempt_of, loses_pong, heartbeats, heartbeats-pass,
}
use wu_kong_easy_sdk_rust.Tests.Serde.{serde, unary64, tree_read, tree_text, tree_depth}
use wu_kong_easy_sdk_rust.Tests.Sessions.{two_pending, awaiting, all_open}
use wu_kong_easy_sdk_rust.Tests.Workers.{welcomed, arriving}
use wu_kong_easy_sdk_rust.Tests.Clients.{auth}

-- The answer to "a" comes before anything is due, and a quiet round after the deadline of "b".
abbrev early : Input serde
early = record {
  now = 10;
  closed = all_open;
  closed_later = all_open;
  branch = frame_ready (text "ack") 11 completes;
}

abbrev late : Input serde
late = record {
  now = 20;
  closed = all_open;
  closed_later = all_open;
  branch = timer_ready 20 20 "q" completes;
}

abbrev settled : State
settled = record awaiting { pending = [] }

two_due : DueBy 8 20 two_pending
two_due = (λ e. omega (arith, e), (λ e. omega arith, tt))

session-answers_due_example :
    (answers 8 (session serde unary64 default_options awaiting (early ∷ late ∷ [])).effects
      ≡ held 8 two_pending)
    × (held 8 settled.pending ≡ 0)
unfolding default_options round housekeep retain_open expired_ids expire lookup remove on_branch
    on_command on_timer write_value on_frame on_text on_value on_response parse tree_read as_object
    as_str tree_text request byte_length session
session-answers_due_example =
    session-answers_due serde unary64 default_options 8 20 awaiting settled (early ∷ []) late
      (refl, (refl, tt)) two_due ((refl, tt), ((refl, tt), tt)) (tt, (tt, tt)) (omega arith) refl

on_timer-progress_example :
    (on_timer serde unary64 default_options awaiting 20 20 "q" completes ≡ fail timeout)
    ⊎ (((awaiting.ping ≡ none)
          × (on_timer serde unary64 default_options awaiting 20 20 "q" completes
              ≡ pings serde unary64 default_options awaiting 20 "q" completes))
        ⊎ (0 < length (expired_ids 20 two_pending)))
unfolding timer earliest
on_timer-progress_example =
    on_timer-progress serde unary64 default_options awaiting 20 20 "q" completes (omega arith)

-- The timer pings when the interval is over, and finds no pong when that deadline is over too.
abbrev tick : ℕ → Input serde
tick now = record {
  now = now;
  closed = all_open;
  closed_later = all_open;
  branch = timer_ready now now "p" completes;
}

abbrev mute : Trial serde
mute = record {
  random = 0;
  now_millis = 5;
  id = "h";
  opening = completes;
  writing = completes;
  frames = arriving;
  started = 0;
  inputs = tick 25000000000 ∷ tick 99000000000 ∷ [];
  queued = [];
}

established-mute : established serde unary64 default_options auth mute ≡ ok welcomed
unfolding default_options establish write_value byte_length tree_text Outbound.connect to_decimal
    handshake authenticated parse tree_read as_object as_str response value_i64 decode
    read_connect_result tree_depth request
established-mute = refl

session-mute :
    (session serde unary64 default_options (start default_options 0) mute.inputs).result
    ≡ err timeout
unfolding default_options session start round housekeep retain_open expired_ids expire on_branch
    on_timer write_value byte_length tree_text request
session-mute = refl

attempt_of-mute :
    attempt_of serde unary64 default_options auth mute ≡ some (served 0 welcomed timeout [])
attempt_of-mute = rw (established-mute, session-mute) refl

loses_pong-mute : loses_pong serde unary64 default_options auth mute ≡ true
unfolding default_options session start round housekeep retain_open expired_ids expire on_branch
    on_timer write_value byte_length tree_text request ends_overdue
loses_pong-mute = rw established-mute refl

heartbeats-pass_example :
    heartbeats serde (pass serde default_options (fresh 0) (served 0 welcomed timeout [])).deeds
    ≡ one_if (loses_pong serde unary64 default_options auth mute)
heartbeats-pass_example =
    heartbeats-pass serde unary64 default_options auth (fresh 0) mute (served 0 welcomed timeout [])
      attempt_of-mute
