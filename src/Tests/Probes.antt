-- ===== src/Tests/Probes.antt =====
-- A window of the group probe, and a send of an earlier socket, at concrete inputs.
use wu_kong_easy_sdk_rust.Base.{◌≡◌, refl, some, [], ◌∷◌, arith}
use wu_kong_easy_sdk_rust.Types.Failure.{err, disconnected}
use wu_kong_easy_sdk_rust.Types.Options.{default_options}
use wu_kong_easy_sdk_rust.Session.State.{completes, reply, lookup}
use wu_kong_easy_sdk_rust.Session.Round.{
  Input, command_ready, round, housekeep, retain_open, expired_ids, expire, on_branch, on_command,
}
use wu_kong_easy_sdk_rust.Session.Answers.{held}
use wu_kong_easy_sdk_rust.System.{System, serve, Reaches, here, then_step}
use wu_kong_easy_sdk_rust.System.Fence.{granted, IsStale}
use wu_kong_easy_sdk_rust.System.Fence.Runs.{granted-Reaches}
use wu_kong_easy_sdk_rust.Tests.Serde.{serde, unary64}
use wu_kong_easy_sdk_rust.Tests.Systems.{queued_up, command, all_open, open_session}

-- The second socket is open, and the command of the first one is still in the queue.
abbrev reconnected : System serde
reconnected = record queued_up { generation = 2 }

abbrev fenced : System serde
fenced = record reconnected { queue = [] }

abbrev taking_late : Input serde
taking_late = record {
  now = 11;
  closed = all_open;
  closed_later = all_open;
  branch = command_ready (some command) 2 12 completes;
}

to_fenced :
    Reaches serde unary64 default_options reconnected (reply 0 (err disconnected) ∷ []) fenced
unfolding default_options round housekeep retain_open expired_ids expire on_branch on_command lookup
to_fenced =
    then_step here (serve open_session open_session taking_late [] refl (refl, refl) refl refl)

reconnected-IsStale : IsStale {J = serde} 0 1 reconnected
unfolding held
reconnected-IsStale = record {
  old = omega arith;
  called = tt;
  waits = (λ same. refl, tt);
  unanswered = refl;
}

granted-Reaches_example :
    (granted {J = serde} 0 (reply 0 (err disconnected) ∷ []) ≡ 0) × IsStale {J = serde} 0 1 fenced
unfolding to_fenced
granted-Reaches_example =
    granted-Reaches serde unary64 default_options 0 1 to_fenced reconnected-IsStale
      (tt, λ e. omega (arith, e))
