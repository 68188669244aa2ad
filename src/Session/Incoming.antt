-- ===== src/Session/Incoming.antt =====
-- The `socket.next()` branch of `Worker::session` in src/client.rs.
use wu_kong_easy_sdk_rust.Base.{
  ℕ, ◌+◌, String, Bool, false, Option, none, some, List, [], ◌∷◌, ◌++◌, and_then, or_else,
  unwrap_or, str_eq, if◌then◌else◌,
}
use wu_kong_easy_sdk_rust.Base.Int.{ℤ, pos}
use wu_kong_easy_sdk_rust.Json.{Json, Base64, Shape}
use wu_kong_easy_sdk_rust.Types.Failure
use wu_kong_easy_sdk_rust.Types.Failure.{Error, Result, ok, err, transport, protocol, server}
use wu_kong_easy_sdk_rust.Types.Options.{Options}
use wu_kong_easy_sdk_rust.Types.Messages.{SendResult, RecvMessage, Event}
use wu_kong_easy_sdk_rust.Types.Decode.{
  as_str, value_get, value_i64, json_string, json_object, write_header, read_send_result,
}
use wu_kong_easy_sdk_rust.Protocol.Normalize.{decode}
use wu_kong_easy_sdk_rust.Protocol.Outbound.{json_u64}
use wu_kong_easy_sdk_rust.Protocol.Inbound.{parse, response, recv, event}
use wu_kong_easy_sdk_rust.Session.State.{
  State, Io, Act, Effect, emit, reply, lookup, remove, pure, fail, lift, perform, write_value,
  flush_socket, ◌>>=◌, ◌>>◌,
}

-- What the socket yields: `closed` stands for a close frame, an error and the end of the stream.
pub data Frame : Type 0 where
  text : String → Frame
  ping pong binary closed : Frame

abbrev pub matches_ping : Option (String × ℕ) → String → Bool
matches_ping none id = false
matches_ping (some (ping_id, deadline)) id = str_eq ping_id id

module _ (J : Json) (B : Base64) (o : Options) where
  open J use {Value, into, insert, empty}

  -- `ping = None; next_ping = Instant::now() + ping_interval`
  abbrev pub pong_received : State → ℕ → State
  pong_received s now = record s { ping = none; next_ping = now + o.ping_interval }

  -- The answer to a pending send.
  unfoldable pub send_answer : Value → Result SendResult
  send_answer value = Failure.◌>>=◌ (response J value) (decode J (read_send_result J))

  abbrev pub ack_events : Result SendResult → List (Effect J)
  ack_events (ok ack) = emit (Event.send_ack ack) ∷ []
  ack_events (err e) = []

  unfoldable pub on_response : State → Value → String → ℕ → Act J State
  unfolding send_answer
  on_response s value id now =
      if matches_ping s.ping id
      then lift (response J value) >>= (λ _. pure (pong_received s now))
      else elim (lookup id s.pending) [
        | none ↦ pure s
        | some p ↦ record {
          effects = ack_events (send_answer value) ++ (reply p.reply (send_answer value) ∷ []);
          result = ok (record s { pending = remove id s.pending });
        }
      ]

  -- The RECVACK notification of a message.
  unfoldable pub recv_ack : RecvMessage J → Value
  recv_ack m =
      let params = json_object J (
        insert
          (insert (insert empty "header" (write_header J m.header)) "messageId"
            (json_string J m.message_id))
          "messageSeq" (json_u64 J m.message_seq)) in
      json_object J (
        insert
          (insert (insert empty "jsonrpc" (json_string J "2.0")) "method" (json_string J "recvack"))
          "params" params)

  unfoldable pub on_recv : Result (RecvMessage J) → Io → Act J (Unit {0})
  on_recv (ok message) io =
      perform (emit (Event.message message) ∷ []) >> write_value J o (recv_ack message) io
  on_recv (err e) io = perform (emit (Event.error e) ∷ [])

  unfoldable pub on_event : Value → Act J (Unit {0})
  on_event params = elim (event J params) [
    | ok e ↦ perform (emit (Event.custom_event e) ∷ [])
    | err e ↦ perform (emit (Event.error e) ∷ [])
  ]

  -- The code of a server's "disconnect"; one that is missing or no number is 0.
  unfoldable pub disconnect_code : Value → ℤ
  disconnect_code params =
      unwrap_or
        (and_then (or_else (value_get J params "reasonCode") (value_get J params "reason_code"))
          (value_i64 J))
        (pos 0)

  unfoldable pub on_method : State → String → Value → ℕ → Io → Act J State
  on_method s method params now io =
      if str_eq method "recv"
      then on_recv (recv J B params) io >> pure s
      else if str_eq method "event"
      then on_event params >> pure s
      else if str_eq method "disconnect"
      then fail (server (disconnect_code params))
      else if str_eq method "pong"
      then pure (pong_received s now)
      else pure s

  -- A message with an ID is a response, one with a method a notification.
  unfoldable pub on_value : State → Value → ℕ → Io → Act J State
  on_value s value now io = elim (and_then (value_get J value "id") (as_str J)) [
    | some id ↦ on_response s value id now
    | none ↦ elim (and_then (value_get J value "method") (as_str J)) [
      | some method ↦
          on_method s method (unwrap_or (value_get J value "params") (into Shape.null)) now io
      | none ↦
          perform (emit (Event.error (protocol "missing response ID or method")) ∷ []) >> pure s
    ]
  ]

  unfoldable pub on_text : State → String → ℕ → Io → Act J State
  on_text s t now io = elim (parse J t) [
    | ok value ↦ on_value s value now io
    | err e ↦ perform (emit (Event.error e) ∷ []) >> pure s
  ]

  -- `now` is the clock where the frame is handled, `io` the fate of the write or flush it causes.
  unfoldable pub on_frame : State → Frame → ℕ → Io → Act J State
  on_frame s (text t) now io = on_text s t now io
  on_frame s ping now io = flush_socket J io >> pure s
  on_frame s pong now io = pure s
  on_frame s binary now io =
      perform (emit (Event.error (protocol "expected a text message")) ∷ []) >> pure s
  on_frame s closed now io = fail transport
