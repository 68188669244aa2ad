-- ===== src/Client/Handle.antt =====
-- The operations of `Client` of src/client.rs on a handle: `connect`, `send_with_options`,
-- `disconnect` and `destroy`. The permits of commands that the worker took from the queue are
-- counted outside: a handle knows its free slots and what is queued. In `send_with_options` the
-- run of the handle is the one found under the lock, all else is what was read before.
pub mod Admission
pub mod Lifecycle
use wu_kong_easy_sdk_rust.Base.{
  ℕ, zero, suc, ◌+◌, String, Bool, true, false, not, ◌||◌, ◌&&◌, Option, none, some, is_some, List,
  [], ◌∷◌, ◌++◌, length, ltb, leb, if◌then◌else◌,
}
use wu_kong_easy_sdk_rust.Json.{Json, Base64}
use wu_kong_easy_sdk_rust.Types.Failure.{
  Error, Result, ok, err, destroyed, not_connected, backpressure, message_too_large, disconnected,
  timeout, ◌>>=◌, runtime_unavailable,
}
use wu_kong_easy_sdk_rust.Types.Options.{Options}
use wu_kong_easy_sdk_rust.Types.Text.{byte_length}
use wu_kong_easy_sdk_rust.Types.Messages.{
  ConnectResult, SendResult, SendOptions, default_send_options,
}
use wu_kong_easy_sdk_rust.Protocol.Outbound
use wu_kong_easy_sdk_rust.Protocol.Outbound.{request}
use wu_kong_easy_sdk_rust.Session.State.{Command}
use wu_kong_easy_sdk_rust.Worker.Supervise.{Status}

-- What the await of a reply sees: the deadline, a dropped channel, or the answer.
pub data Reply : Type 0 where
  expired dropped : Reply
  replied : Result SendResult → Reply

unfoldable pub receive : Reply → Result SendResult
receive expired = err timeout
receive dropped = err disconnected
receive (replied r) = r

-- What the last loop of `connect` sees in the cell of a run in turn, until its worker is gone.
unfoldable pub await_first : List (Option (Result ConnectResult)) → Result ConnectResult
await_first [] = err disconnected
await_first (none ∷ seen) = await_first seen
await_first (some r ∷ seen) = r

unfoldable pub await_status : List Status → Result ConnectResult
await_status [] = err disconnected
await_status (Status.connecting ∷ seen) = await_status seen
await_status (Status.ready r ∷ seen) = ok r
await_status (Status.failed e ∷ seen) = err e

module _ (J : Json) where
  open J use {Value, to_string}

  -- A run: its task, whether that has finished, whether its first result is there, and its queue, which
  -- the worker closes.
  pub record Running : Type 0 where
    pub task : ℕ
    pub finished : Bool
    pub decided : Bool
    pub closed : Bool
    pub queue : List (Command J)

  pub record Handle : Type 0 where
    pub is_destroyed : Bool
    pub connected : Bool
    pub generation : ℕ
    pub free_slots : ℕ
    pub running : Option Running

  abbrev pub is_connected : Handle → Bool
  is_connected h = h.connected

  abbrev pub new_run : (task : ℕ) → Running
  new_run task = record {
    task = task;
    finished = false;
    decided = false;
    closed = false;
    queue = [];
  }

  abbrev pub needs_run : Option Running → Bool
  needs_run none = true
  needs_run (some run) = run.finished

  abbrev pub undecided : Option Running → Bool
  undecided none = true
  undecided (some run) = not run.decided

  -- The first half of `connect`: the handle with a run, and whether the first result is awaited. `task` is
  -- what `spawn` returns, if it is called.
  unfoldable pub join : Bool → (task : ℕ) → Handle → Result (Handle × Bool)
  join has_runtime task h =
      if h.is_destroyed
      then err destroyed
      else if needs_run h.running
      then if has_runtime
        then ok (record h { running = some (new_run task) }, true)
        else err runtime_unavailable
      else ok (h, undecided h.running)

  -- `connect`, over what its loop sees.
  unfoldable pub connect :
      Bool
      → (task : ℕ) → Handle
      → List (Option (Result ConnectResult))
      → List Status
      → Result (Handle × Result ConnectResult)
  connect has_runtime task h first_seen status_seen = elim (join has_runtime task h) [
    | err e ↦ err e
    | ok (h', initial) ↦
        ok (h', (if initial then await_first first_seen else await_status status_seen))
  ]

  -- `disconnect` waits until the worker has finished, which leaves nothing connected.
  unfoldable pub disconnect : Handle → Handle
  disconnect h = elim (h.running) [
    | none ↦ h
    | some run ↦ record h { connected = false; running = none }
  ]

  unfoldable pub destroy : Handle → Handle
  unfolding disconnect
  destroy h = disconnect (record h { is_destroyed = true })

  -- `try_send` on the queue of `max_in_flight` places, and with it the end of the admission.
  unfoldable pub enqueue : Options → Handle → ℕ → Command J → Handle × Result (Command J)
  enqueue o h left c = elim (h.running) [
    | none ↦ (h, err not_connected)
    | some run ↦
        if run.closed
        then (h, err disconnected)
        else if leb o.max_in_flight (length run.queue)
        then (h, err backpressure)
        else (
          record h {
            free_slots = left;
            running = some (record run { queue = run.queue ++ (c ∷ []) });
          },
          ok c,
        )
  ]

  unfoldable pub too_large : Options → Value → String → Bool
  too_large o params id =
      ltb o.max_message_size (byte_length (to_string (request J "send" params id)))

  -- `send_with_options` up to the await. `still` is whether the client is connected when the lock on
  -- the run is held, `now` the clock; the IDs are drawn, and `reply` is the ticket. A slot is held
  -- only by a command that is queued.
  unfoldable pub admit_send :
      Base64
      → Options
      → Handle
      → String
      → ℕ
      → Value
      → SendOptions
      → (still : Bool) → (now : ℕ) → (generated_id id : String) → (reply : ℕ)
      → Handle × Result (Command J)
  admit_send B o h channel kind payload options still now generated_id id reply =
      if h.is_destroyed
      then (h, err destroyed)
      else if not (is_connected h)
      then (h, err not_connected)
      else elim (h.free_slots) [
        | zero ↦ (h, err backpressure)
        | suc left ↦ elim (Outbound.send J B channel kind payload options generated_id) [
          | err e ↦ (h, err e)
          | ok params ↦
              if too_large o params id
              then (h, err message_too_large)
              else if not still
              then (h, err not_connected)
              else enqueue o h left (record {
                generation = h.generation;
                id = id;
                params = params;
                deadline = now + o.request_timeout;
                reply = reply;
              })
        ]
      ]

  -- `send_with_options`, with what the await of its reply sees.
  unfoldable pub send_with_options :
      Base64
      → Options
      → Handle
      → String
      → ℕ
      → Value
      → SendOptions
      → (still : Bool) → (now : ℕ) → (generated_id id : String) → (reply : ℕ) → Reply
      → Handle × Result SendResult
  unfolding admit_send receive
  send_with_options B o h channel kind payload options still now generated_id id reply seen =
      let (h', admitted) =
        admit_send B o h channel kind payload options still now generated_id id reply in
      (h', (admitted >>= λ command. receive seen))

  unfoldable pub send :
      Base64
      → Options
      → Handle
      → String
      → ℕ
      → Value
      → (still : Bool) → (now : ℕ) → (generated_id id : String) → (reply : ℕ) → Reply
      → Handle × Result SendResult
  unfolding send_with_options
  send B o h channel kind payload still now generated_id id reply seen =
      send_with_options B o h channel kind payload default_send_options still now generated_id id
        reply seen
