-- ===== src/Probe/Chat.antt =====
-- examples/chat.rs, the loop of its `run`: lines from the standard input are sent, and events are told.
pub mod Private
use wu_kong_easy_sdk_rust.Base.{
  String, Bool, Option, none, some, List, [], ◌∷◌, str_eq, if◌then◌else◌,
}
use wu_kong_easy_sdk_rust.Json.{Json}
use wu_kong_easy_sdk_rust.Types.Failure.{Result, ok, err}
use wu_kong_easy_sdk_rust.Types.Messages.{SendResult, Event}
use wu_kong_easy_sdk_rust.Types.Decode.{json_string, json_object}
use wu_kong_easy_sdk_rust.Protocol.Outbound.{json_u64}
use wu_kong_easy_sdk_rust.Probe.{Fault, lagged, Verdict, pass, failed}

-- What is printed, on the standard output or on that of errors.
pub data Printed : Type 0 where
  out_line err_line : String → Printed

module _ (J : Json) where
  open J use {Value, empty, insert}

  -- Which branch of `select!` is taken: a line, if there is one, with the outcome of its send; what the
  -- receiver yields; or the interrupt from the keyboard.
  pub data Choice : Type 0 where
    typed : Verdict (Option String) → Result SendResult → Choice
    heard : Verdict (Event J) → Choice
    interrupted : Choice

  -- What the loop tells and sends, and how it ends; none while it goes on.
  pub record Chat : Type 0 where
    pub printed : List Printed
    pub sent : List Value
    pub result : Option (Verdict (Unit {0}))

  abbrev pub quits : Verdict (Unit {0}) → Chat
  quits v = record { printed = []; sent = []; result = some v }

  abbrev pub telling : Printed → Chat → Chat
  telling p c = record c { printed = p ∷ c.printed }

  -- `{"type":1,"content":line}`
  unfoldable pub chat_payload : String → Value
  chat_payload line =
      json_object J (insert (insert empty "type" (json_u64 J 1)) "content" (json_string J line))

  abbrev pub outcome_line : Result SendResult → Printed
  outcome_line (ok ack) = out_line "SEND accepted by server"
  outcome_line (err e) = err_line "SEND failed; acceptance may be unknown"

  -- What is told of an event.
  abbrev pub event_line : Event J → Option Printed
  event_line (Event.message m) = some (out_line "Message received")
  event_line (Event.reconnecting n d) = some (out_line "Reconnecting")
  event_line (Event.connect r) = some (out_line "Authenticated")
  event_line (Event.disconnect r) = some (out_line "Disconnected")
  event_line (Event.error e) = some (err_line "Connection operation failed")
  event_line _ = none

  abbrev pub tell_event : Option Printed → Chat → Chat
  tell_event none c = c
  tell_event (some p) c = telling p c

  unfoldable pub chat : List Choice → Chat
  chat [] = record { printed = []; sent = []; result = none }
  chat (typed (failed f) outcome ∷ cs) = quits (failed f)
  chat (typed (pass none) outcome ∷ cs) = quits (pass tt)
  chat (typed (pass (some line)) outcome ∷ cs) =
      let rest = chat cs in
      if str_eq line "/quit" then quits (pass tt) else record {
        printed = outcome_line outcome ∷ rest.printed;
        sent = chat_payload line ∷ rest.sent;
        result = rest.result;
      }
  chat (heard (pass e) ∷ cs) = let rest = chat cs in tell_event (event_line e) rest
  chat (heard (failed (lagged n)) ∷ cs) =
      telling (err_line "Events lost; reconcile application state") (quits (pass tt))
  chat (heard (failed f) ∷ cs) = quits (pass tt)
  chat (interrupted ∷ cs) = quits (pass tt)
