-- ===== src/System/Sends.antt =====
-- `send_with_options` of src/client.rs on a handle, against the system of callers, queue and worker: a send
-- that no other thread interrupts is a run of its steps.
use wu_kong_easy_sdk_rust.Base.{
  ℕ, suc, ◌+◌, ◌-◌, ◌≡◌, ◌<◌, refl, String, Bool, true, not, Option, none, some, List, [], ◌∷◌,
  ◌++◌, length, arith,
}
use wu_kong_easy_sdk_rust.Json.{Json, Base64}
use wu_kong_easy_sdk_rust.Types.Failure.{Result, ok, err}
use wu_kong_easy_sdk_rust.Types.Options.{Options}
use wu_kong_easy_sdk_rust.Types.Messages.{SendOptions}
use wu_kong_easy_sdk_rust.Session.State.{Command, Effect}
use wu_kong_easy_sdk_rust.Client.Handle.{Running, Handle}
use wu_kong_easy_sdk_rust.Client.Handle.Admission.{Passes, admitted, command_of}
use wu_kong_easy_sdk_rust.System.{
  is_online, System, Step, permits, entered, linked, stamped, holding, cleared, link, stamp,
  acquire, clear, enter, call, push,
}

module _ (J : Json) where
  -- What a send adds to the queue.
  abbrev pub added : Result (Command J) → List (Command J)
  added (ok c) = c ∷ []
  added (err e) = []

  -- What a handle knows of its run, if it has one: its task, whether that has finished, and whether its
  -- first result is there.
  abbrev pub Held : Type 0
  Held = Option (ℕ × Bool × Bool)

  abbrev pub shown_run : Held → (accepting : Bool) → List (Command J) → Option (Running J)
  shown_run none accepting queue = none
  shown_run (some (task, finished, decided)) accepting queue = some (record {
    task = task;
    finished = finished;
    decided = decided;
    closed = not accepting;
    queue = queue;
  })

  module _ (B : Base64) (o : Options) (run : Held) where
    -- The step is one of the caller with the ticket.
    abbrev pub IsOwn : ℕ → (s s' : System J) (es : List (Effect J)) → Step J B o s es s' → Type 0
    IsOwn t s s' es (enter alive) = s.next_ticket ≡ t
    IsOwn t s s' es (call before after u p q e st) = u ≡ t
    IsOwn t s s' es (push before after u g params id deadline e open_now room) = u ≡ t
    IsOwn t s s' es st = ⊥

    -- Steps of the caller with the ticket and of no one else.
    pub data Alone (t : ℕ) (s : System J) : System J → Type 0 where
      no_step : Alone t s s
      own_step :
          (u v : System J) (es : List (Effect J)) (st : Step J B o u es v)
          → Alone t s u
          → IsOwn t u v es st
          → Alone t s v

    -- The handle over the state of the system: its free slots are the permits that nobody holds.
    abbrev pub view : System J → Handle J
    view s = record {
      is_destroyed = s.is_destroyed;
      connected = is_online s.stage;
      generation = s.generation;
      free_slots = o.max_in_flight - permits J s;
      running = shown_run run s.accepting s.queue;
    }

    abbrev pub with_sent : System J → Command J → System J
    with_sent s c = record s { queue = s.queue ++ (c ∷ []); next_ticket = suc s.next_ticket }

    module _ (channel : String) (kind : ℕ) (payload : J.Value) (options : SendOptions) (now : ℕ)
        (generated_id id : String) where
      -- A send with the next ticket; the connection is the same when it is looked at again.
      abbrev pub sending : System J → Handle J × Result (Command J)
      sending s =
          admitted J B o channel kind payload options (is_online s.stage) now generated_id id
            s.next_ticket (view s)

      abbrev sent_command : System J → J.Value → Command J
      sent_command s params =
          command_of J B o channel kind payload options (is_online s.stage) now generated_id id
            s.next_ticket (view s) params

      steps :
          (s : System J) (left : ℕ) (params : J.Value)
          → Passes J B o channel kind payload options
              (is_online s.stage)
              now
              generated_id
              id
              s.next_ticket
              (view s)
              left
              params
          → s.accepting ≡ true
          → length s.queue < o.max_in_flight
          → Alone s.next_ticket s (with_sent s (sent_command s params))
      steps s left params p open_now room =
          let t = s.next_ticket in
          let g = s.generation in
          let deadline = now + o.request_timeout in
          let linking = call [] s.callers t entered (some linked) refl (link p.online) in
          let stamping = call [] s.callers t linked (some (stamped g)) refl stamp in
          let acquiring =
            call [] s.callers t (stamped g) (some (holding g)) refl
              (acquire (omega (arith, p.slot))) in
          let clearing =
            call [] s.callers t (holding g) (some (cleared g params id deadline)) refl
              (clear channel kind payload options generated_id id now p.accepted p.fits p.online) in
          let pushing = push [] s.callers t g params id deadline refl open_now room in
          own_step _ _ [] pushing
            (own_step _ _ [] clearing
              (own_step _ _ [] acquiring
                (own_step _ _ [] stamping
                  (own_step _ _ [] linking (own_step _ _ [] (enter p.alive) no_step refl) refl)
                  refl)
                refl)
              refl)
            refl

      -- A system that has come by steps of this send alone to where the handle is after it; the caller is
      -- gone again.
      pub record Realized (s : System J) (r : Handle J × Result (Command J)) : Type 0 where
        pub after : System J
        pub steps : Alone s.next_ticket s after
        pub left : after.callers ≡ s.callers
        pub shown : view after ≡ r.0
        pub queued : after.queue ≡ s.queue ++ added r.1
