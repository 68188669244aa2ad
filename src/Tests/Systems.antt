-- ===== src/Tests/Systems.antt =====
-- A client with one caller at concrete inputs.
use wu_kong_easy_sdk_rust.Base.{
  ℕ, ◌+◌, ◌≤◌, refl, Bool, true, false, none, some, List, [], ◌∷◌, arith,
}
use wu_kong_easy_sdk_rust.Types.Options.{default_options}
use wu_kong_easy_sdk_rust.Types.Text.{trim, byte_length, to_decimal}
use wu_kong_easy_sdk_rust.Types.Failure.{err, timeout}
use wu_kong_easy_sdk_rust.Types.Messages.{default_send_options}
use wu_kong_easy_sdk_rust.Types.Decode.{as_object, write_header}
use wu_kong_easy_sdk_rust.Protocol.Outbound
use wu_kong_easy_sdk_rust.Protocol.Outbound.{send_params, request}
use wu_kong_easy_sdk_rust.Session.State.{
  State, Command, Effect, completes, reply, write, lookup, remove, insert, write_value,
}
use wu_kong_easy_sdk_rust.Session.Answers.{answers}
use wu_kong_easy_sdk_rust.Session.Round.{
  Input, timer_ready, command_ready, start, round, housekeep, retain_open, expired_ids, expire,
  on_branch, on_command, on_timer,
}
use wu_kong_easy_sdk_rust.Client.Handle.{too_large}
use wu_kong_easy_sdk_rust.System.{
  serving, cleared, System, idle, permits, command_of, link, stamp, acquire, clear, enter, call,
  push, count, announce, serve, open_run, Reaches, here, then_step,
}
use wu_kong_easy_sdk_rust.System.Permits.{permits-Reaches}
use wu_kong_easy_sdk_rust.System.Accounts.{places, answers-Reaches}
use wu_kong_easy_sdk_rust.System.Life.{Life, Lives}
use wu_kong_easy_sdk_rust.System.Life.Steps.{Courses, Lives-Reaches}
use wu_kong_easy_sdk_rust.Tests.Serde.{object, end, serde, unary64, codes, tree_text, unary, ones}

-- The parameters of a SEND of the payload "{}".
abbrev params : serde.Value
params = object (send_params serde unary64 "room" 2 (123 ∷ 125 ∷ []) default_send_options "no-1")

abbrev pub open_session : State
open_session = record { pending = []; next_ping = default_options.ping_interval; ping = none }

-- The caller has its parameters, and a deadline from the instant 10.
abbrev waiting : System serde
waiting = record (idle serde) {
  generation = 1;
  callers =
      record { ticket = 0; phase = cleared 1 params "id-1" (10 + default_options.request_timeout) }
      ∷ [];
  accepting = true;
  stage = serving open_session;
  next_ticket = 1;
}

to_waiting : Reaches serde unary64 default_options (idle serde) [] waiting
unfolding default_options start Outbound.send codes tree_text trim as_object default_send_options
    byte_length request send_params write_header unary ones to_decimal too_large
to_waiting =
    then_step
      (then_step
        (then_step
          (then_step
            (then_step
              (then_step (then_step (then_step here (open_run refl refl refl)) (count refl refl))
                (announce 0 refl))
              (enter refl))
            (call [] [] 0 _ _ refl (link refl)))
          (call [] [] 0 _ _ refl stamp))
        (call [] [] 0 _ _ refl (acquire (omega arith))))
      (call [] [] 0 _ _ refl
        (clear "room" 2 (object end) default_send_options "no-1" "id-1" 10 refl refl refl))

abbrev pub command : Command serde
command = command_of serde 0 1 params "id-1" (10 + default_options.request_timeout)

abbrev pub queued_up : System serde
queued_up = record waiting { callers = []; queue = command ∷ [] }

to_queued_up : Reaches serde unary64 default_options (idle serde) [] queued_up
unfolding default_options
to_queued_up = then_step to_waiting (push [] [] 0 1 params "id-1" _ refl refl (omega arith))

-- The session takes the command at 12 and writes it, and gives it up at its deadline.
abbrev pub all_open : ℕ → Bool
all_open t = false

abbrev taking : Input serde
taking = record {
  now = 11;
  closed = all_open;
  closed_later = all_open;
  branch = command_ready (some command) 1 12 completes;
}

abbrev written : State
written = record open_session {
  pending = ("id-1", record { deadline = 10 + default_options.request_timeout; reply = 0 }) ∷ [];
}

abbrev in_flight : System serde
in_flight = record queued_up { queue = []; stage = serving written }

abbrev late : Input serde
late = record {
  now = 10 + default_options.request_timeout;
  closed = all_open;
  closed_later = all_open;
  branch = timer_ready 0 0 "q" completes;
}

abbrev timed_out : System serde
timed_out = record in_flight { stage = serving open_session }

abbrev all_done : List (Effect serde)
all_done = write (request serde "send" params "id-1") ∷ reply 0 (err timeout) ∷ []

to_timed_out : Reaches serde unary64 default_options (idle serde) all_done timed_out
unfolding default_options codes tree_text trim as_object default_send_options lookup remove insert
    byte_length request send_params write_header unary ones to_decimal write_value round housekeep
    retain_open expired_ids expire on_branch on_command on_timer
to_timed_out =
    then_step
      (then_step to_queued_up (serve open_session written taking [] refl (refl, refl) refl refl))
      (serve written open_session late [] refl refl tt refl)

permits-Reaches_example : permits serde waiting ≤ default_options.max_in_flight
permits-Reaches_example = permits-Reaches serde unary64 default_options to_waiting

answers-Reaches_example : answers 0 all_done + places serde 0 timed_out ≤ 1
answers-Reaches_example = answers-Reaches serde unary64 default_options 0 to_timed_out

Lives-Reaches_example :
    (l : Life) × Courses serde unary64 default_options 0 timed_out all_done to_timed_out l
    × Lives 0 timed_out l
Lives-Reaches_example = Lives-Reaches serde unary64 default_options 0 to_timed_out
