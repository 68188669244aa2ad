-- ===== src/Session/Heartbeat.antt =====
-- When a session ends with `Timeout`.
use wu_kong_easy_sdk_rust.Base.{
  ℕ, ◌≡◌, refl, String, Bool, true, false, none, some, List, [], ◌∷◌, leb, arith, Option-cases, inl,
  inr, ◌∙◌, and_then,
}
use wu_kong_easy_sdk_rust.Json.{Json, Base64}
use wu_kong_easy_sdk_rust.Types.Failure.{Result, Result-cases, ok, err, timeout}
use wu_kong_easy_sdk_rust.Types.Options.{Options}
use wu_kong_easy_sdk_rust.Types.Decode.{as_str, value_get, json_object}
use wu_kong_easy_sdk_rust.Types.Messages.{RecvMessage}
use wu_kong_easy_sdk_rust.Protocol.Outbound.{request}
use wu_kong_easy_sdk_rust.Protocol.Inbound.{parse, response, one_of, check_reason, rpc_error, recv}
use wu_kong_easy_sdk_rust.Session.State.{
  State, Io, completes, fails, Command, write_value, flush_socket,
}
use wu_kong_easy_sdk_rust.Session.Incoming.{
  Frame, text, ping, pong, binary, closed, recv_ack, on_response, on_recv, on_event, on_method,
  on_value, on_text, on_frame,
}
use wu_kong_easy_sdk_rust.Session.Round.{
  retain_open, expired_ids, expire, Branch, timer_ready, command_ready, frame_ready, Input,
  housekeep, on_timer, on_command, on_branch, round, session,
}

-- Whether a result is the error `Timeout`.
abbrev pub times_out {ℓ} : {A : Type ℓ} → Result A → Bool
times_out (err timeout) = true
times_out _ = false

module _ (J : Json) (B : Base64) (o : Options) where
  open J use {Value, empty}

  times_out-response : (v : Value) → times_out (response J v) ≡ false
  unfolding response one_of check_reason rpc_error
  times_out-response v = ground arith

  times_out-write_value : (v : Value) (io : Io) → times_out (write_value J o v io).result ≡ false
  unfolding write_value
  times_out-write_value v completes = ground arith
  times_out-write_value v fails = ground arith

  times_out-on_response :
      (s : State) (value : Value) (id : String) (now : ℕ)
      → times_out (on_response J B o s value id now).result ≡ false
  unfolding on_response
  times_out-on_response s value id now = ground (arith, times_out-response value)

  times_out-on_recv :
      (r : Result (RecvMessage J)) (io : Io) → times_out (on_recv J B o r io).result ≡ false
  unfolding on_recv
  times_out-on_recv (ok m) io = ground (arith, times_out-write_value (recv_ack J B o m) io)
  times_out-on_recv (err e) io = refl

  times_out-on_event : (params : Value) → times_out (on_event J B o params).result ≡ false
  unfolding on_event
  times_out-on_event params = ground arith

  times_out-on_method :
      (s : State) (method : String) (params : Value) (now : ℕ) (io : Io)
      → times_out (on_method J B o s method params now io).result ≡ false
  unfolding on_method
  times_out-on_method s method params now io =
      ground (arith, times_out-on_recv (recv J B params) io, times_out-on_event params)

  times_out-on_value :
      (s : State) (value : Value) (now : ℕ) (io : Io)
      → times_out (on_value J B o s value now io).result ≡ false
  unfolding on_value
  times_out-on_value s value now io =
      elim (Option-cases (and_then (value_get J value "id") (as_str J))) [
        | inr (id, e) ↦ rw (e, on_value) (times_out-on_response s value id now)
        | inl e ↦ elim (Option-cases (and_then (value_get J value "method") (as_str J))) [
          | inl e' ↦ rw (e, on_value, e') refl
          | inr (method, e') ↦ rw (e, on_value, e') (times_out-on_method s method _ now io)
        ]
      ]

  times_out-on_text :
      (s : State) (t : String) (now : ℕ) (io : Io)
      → times_out (on_text J B o s t now io).result ≡ false
  unfolding on_text
  times_out-on_text s t now io = elim (Result-cases (parse J t)) [
    | inl (value, e) ↦ rw (e, on_text) (times_out-on_value s value now io)
    | inr (e', e) ↦ rw (e, on_text) refl
  ]

  times_out-on_frame :
      (s : State) (f : Frame) (now : ℕ) (io : Io)
      → times_out (on_frame J B o s f now io).result ≡ false
  unfolding on_frame flush_socket
  times_out-on_frame s (text t) now io = times_out-on_text s t now io
  times_out-on_frame s ping now completes = refl
  times_out-on_frame s ping now fails = refl
  times_out-on_frame s pong now io = refl
  times_out-on_frame s binary now io = refl
  times_out-on_frame s closed now io = refl

  times_out-on_command :
      (s : State) (c : Command J) (gone : ℕ → Bool) (generation now : ℕ) (io : Io)
      → times_out (on_command J B o s c gone generation now io).result ≡ false
  unfolding on_command
  times_out-on_command s c gone generation now io =
      ground (arith, times_out-write_value (request J "send" c.params c.id) io)

  -- Whether the timer branch is taken at an instant not before the deadline of the awaited pong.
  abbrev pub pong_overdue : State → Branch J → Bool
  pong_overdue s (timer_ready now later id io) = elim (s.ping) [
    | none ↦ false
    | some (ping_id, deadline) ↦ leb deadline now
  ]
  pong_overdue s _ = false

  times_out-on_branch :
      (s : State) (gone : ℕ → Bool) (b : Branch J)
      → times_out (on_branch J B o s gone b).result ≡ pong_overdue s b
  unfolding on_branch on_timer
  times_out-on_branch s gone (timer_ready now later id io) =
      ground (arith, times_out-write_value (request J "ping" (json_object J empty) id) io)
  times_out-on_branch s gone (command_ready none generation now io) = refl
  times_out-on_branch s gone (command_ready (some c) generation now io) =
      times_out-on_command s c gone generation now io
  times_out-on_branch s gone (frame_ready f now io) = times_out-on_frame s f now io

  abbrev housekept : State → Input J → State
  housekept s i = record s {
    pending =
        (expire J (expired_ids i.now (retain_open i.closed s.pending))
          (retain_open i.closed s.pending)).1;
  }

  pong_overdue-housekept :
      (s : State) (i : Input J) (b : Branch J) → pong_overdue (housekept s i) b ≡ pong_overdue s b
  pong_overdue-housekept s i (timer_ready now later id io) = refl
  pong_overdue-housekept s i (command_ready c generation now io) = refl
  pong_overdue-housekept s i (frame_ready f now io) = refl

  -- A round ends its session with `Timeout` exactly when its timer branch runs while a pong is
  -- awaited whose deadline is not after that branch's clock. No frame, no command and no failed
  -- write ends a session with that error.
  pub times_out-round :
      (s : State) (i : Input J) → times_out (round J B o s i).result ≡ pong_overdue s i.branch
  unfolding round housekeep
  times_out-round s i =
      times_out-on_branch (housekept s i) i.closed_later i.branch
      ∙ pong_overdue-housekept s i i.branch

  -- Whether the round that ends a run ends it because of an overdue pong.
  unfoldable pub ends_overdue : State → List (Input J) → Bool
  ends_overdue s [] = false
  ends_overdue s (i ∷ is) = elim ((round J B o s i).result) [
    | ok s' ↦ ends_overdue s' is
    | err e ↦ pong_overdue s i.branch
  ]

  pub times_out-session :
      (s : State) (is : List (Input J)) → times_out (session J B o s is).result ≡ ends_overdue s is
  unfolding session ends_overdue
  times_out-session s [] = refl
  times_out-session s (i ∷ is) = elim (Result-cases (round J B o s i).result) [
    | inl (s', e) ↦ rw (e, session, ends_overdue) (times_out-session s' is)
    | inr (x, e) ↦ rw (e, session, ends_overdue) (rw e at (times_out-round s i))
  ]
