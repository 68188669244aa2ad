-- ===== src/Worker/Supervise.antt =====
-- `Worker::supervise` and `Worker::run` of src/client.rs. What an attempt to establish a socket and
-- its session come to is an input; the model says what the worker does with it. What the session
-- itself does, between the `Connect` event and the answers to the queue, is in Session.
pub mod Pairing
pub mod Reconnects
pub mod Ends
pub mod Heartbeats
use wu_kong_easy_sdk_rust.Base.{
  ℕ, ◌+◌, ◌%◌, ◌^◌, ltb, leb, Bool, true, false, not, ◌||◌, Option, none, some, List, [], ◌∷◌, ◌++◌,
  map, or_else, if◌then◌else◌,
}
use wu_kong_easy_sdk_rust.Json.{Json}
use wu_kong_easy_sdk_rust.Types.Failure.{
  Error, Result, ok, err, server, protocol, reconnect_exhausted, disconnected, is_timeout,
}
use wu_kong_easy_sdk_rust.Types.Options.{Options}
use wu_kong_easy_sdk_rust.Types.Messages
use wu_kong_easy_sdk_rust.Types.Messages.{ConnectResult, DisconnectReason, Event}
use wu_kong_easy_sdk_rust.Backoff.{reconnect_delay}

pub data Status : Type 0 where
  connecting : Status
  ready : ConnectResult → Status
  failed : Error → Status

-- The cells the worker shares with the handles, and the local variables of `supervise`.
pub record WorkerState : Type 0 where
  pub connected : Bool
  pub generation : ℕ
  pub status : Status
  pub first_result : Option (Result ConnectResult)
  pub established : Bool
  pub attempt : ℕ

-- What `establish` comes to, and for a socket how its session ends and which commands are still
-- queued then (their tickets). `random` is the number that the delay before the attempt draws.
pub data Attempt : Type 0 where
  refused : (random : ℕ) → Error → Attempt
  served : (random : ℕ) → ConnectResult → Error → (queued : List ℕ) → Attempt

-- Where the worker is when it is cancelled.
pub data Cut : Type 0 where
  before_socket : (random : ℕ) → Cut
  in_session : (random : ℕ) → ConnectResult → Cut

-- From `established = true` to the start of the session.
unfoldable pub welcome : WorkerState → ConnectResult → WorkerState
welcome w result = record {
  connected = true;
  generation = (w.generation + 1) % 2 ^ 64;
  status = Status.ready result;
  first_result = or_else w.first_result (some (ok result));
  established = true;
  attempt = 0;
}

-- After the session: everything still queued is failed.
unfoldable pub part : WorkerState → WorkerState
part w = record w { connected = false; status = Status.connecting }

abbrev pub reason : Error → DisconnectReason
reason e = if is_timeout e then DisconnectReason.heartbeat_timeout else DisconnectReason.transport

abbrev pub is_rejection : Error → Bool
is_rejection (server code) = true
is_rejection (protocol text) = true
is_rejection _ = false

module _ (J : Json) where
  pub data Deed : Type 0 where
    emit : Event J → Deed
    sleep : ℕ → Deed
    answer : ℕ → Error → Deed

  pub record Pass : Type 0 where
    pub deeds : List Deed
    pub worker : WorkerState
    -- The error that ends the loop.
    pub ended : Option Error

  abbrev pub announce : ℕ → ℕ → List Deed
  announce attempt delay = emit (Event.reconnecting attempt delay) ∷ sleep delay ∷ []

  -- `if attempt > 0 { emit(Reconnecting); sleep(delay) }`
  unfoldable pub wait : Options → WorkerState → ℕ → List Deed
  wait o w random =
      if ltb 0 w.attempt then announce w.attempt (reconnect_delay o w.attempt random) else []

  -- The end of the loop body: another attempt, if there is one left.
  unfoldable pub again : Options → List Deed → WorkerState → Pass
  again o deeds w =
      if leb o.max_reconnect_attempts w.attempt
      then record {
        deeds = deeds ++ (emit (Event.error reconnect_exhausted) ∷ []);
        worker = w;
        ended = some reconnect_exhausted;
      }
      else record { deeds = deeds; worker = record w { attempt = w.attempt + 1 }; ended = none }

  unfoldable pub on_refused : Options → WorkerState → ℕ → Error → Pass
  on_refused o w random e =
      let deeds = wait o w random ++ (emit (Event.error e) ∷ []) in
      if not w.established || is_rejection e
      then record { deeds = deeds; worker = w; ended = some e }
      else again o deeds w

  unfoldable pub on_outcome : Options → List Deed → WorkerState → Error → Pass
  on_outcome o deeds w (server code) = record {
    deeds = deeds ++ (emit (Event.disconnect (DisconnectReason.server code)) ∷ []);
    worker = w;
    ended = some (server code);
  }
  on_outcome o deeds w e =
      again o (deeds ++ (emit (Event.disconnect (reason e)) ∷ emit (Event.error e) ∷ [])) w

  unfoldable pub on_served : Options → WorkerState → ℕ → ConnectResult → Error → List ℕ → Pass
  on_served o w random result outcome queued =
      on_outcome o
        (wait o w random
          ++ (emit (Event.connect result) ∷ map (λ ticket. answer ticket disconnected) queued))
        (part (welcome w result)) outcome

  unfoldable pub pass : Options → WorkerState → Attempt → Pass
  pass o w (refused random e) = on_refused o w random e
  pass o w (served random result outcome queued) = on_served o w random result outcome queued

  -- The loop, as far as the attempts go.
  unfoldable pub supervise : Options → WorkerState → List Attempt → Pass
  supervise o w [] = record { deeds = []; worker = w; ended = none }
  supervise o w (a ∷ rest) =
      let one = pass o w a in
      let more = supervise o one.worker rest in
      elim (one.ended) [
        | some e ↦ one
        | none ↦ record {
          deeds = one.deeds ++ more.deeds;
          worker = more.worker;
          ended = more.ended;
        }
      ]

  -- What is done before the worker is cancelled where `cut` says.
  unfoldable pub cancelled : Options → WorkerState → Cut → List Deed × WorkerState
  cancelled o w (before_socket random) = (wait o w random, w)
  cancelled o w (in_session random result) =
      (wait o w random ++ (emit (Event.connect result) ∷ []), welcome w result)

  -- The end of `run`: the cells are closed and the commands left in the queue are answered.
  unfoldable pub finish : List Deed → WorkerState → Error → List ℕ → List Deed × WorkerState
  finish deeds w e queued = (
    deeds ++ map (λ ticket. answer ticket e) queued,
    record w {
      connected = false;
      first_result = or_else w.first_result (some (err e));
      status = Status.failed e;
    },
  )

  -- `run`: the loop ends by itself, or it is cancelled after the given attempts.
  unfoldable pub run : Options → WorkerState → List Attempt → Cut → List ℕ → List Deed × WorkerState
  run o w attempts cut queued =
      let all = supervise o w attempts in
      let (last, left) = cancelled o all.worker cut in
      elim (all.ended) [
        | some e ↦ finish all.deeds all.worker e queued
        | none ↦
            finish (all.deeds ++ last ++ (emit (Event.disconnect DisconnectReason.manual) ∷ []))
              left disconnected queued
      ]
