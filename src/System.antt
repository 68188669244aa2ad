-- ===== src/System.antt =====
-- The callers of a client, its queue and its worker as one system that takes steps in any order
-- (src/client.rs). A send is modelled from its entry to its place in the queue in the steps between
-- which other threads run; the mutex around the run is left out, and a worker without a socket may
-- answer from the queue at any time, which only allows more orders. A round of the session is one step. The permit of a send lives with the caller, then with the
-- command, then with the pending entry, and a dropped permit returns to the semaphore, so that the
-- free ones are those which nobody holds.
pub mod Permits
pub mod Fence
pub mod Accounts
pub mod Life
pub mod Sends
use wu_kong_easy_sdk_rust.Base.{
  ℕ, suc, ◌+◌, ◌%◌, ◌^◌, ◌≤◌, ◌<◌, ◌≡◌, String, Bool, true, false, Option, none, some, List, [],
  ◌∷◌, ◌++◌, length,
}
use wu_kong_easy_sdk_rust.Json.{Json, Base64}
use wu_kong_easy_sdk_rust.Types.Failure.{Error, ok, err, disconnected}
use wu_kong_easy_sdk_rust.Types.Options.{Options}
use wu_kong_easy_sdk_rust.Types.Messages.{SendOptions}
use wu_kong_easy_sdk_rust.Protocol.Outbound
use wu_kong_easy_sdk_rust.Session.State.{State, Command, Effect, reply}
use wu_kong_easy_sdk_rust.Session.Round.{
  Branch, timer_ready, command_ready, frame_ready, Input, start, round,
}
use wu_kong_easy_sdk_rust.Session.Rounds.{IsFresh}
use wu_kong_easy_sdk_rust.Client.Handle.{too_large}

-- Where the worker is: without a socket, with a socket whose generation is counted but which is not
-- yet announced as connected, in its session, or after the session but still announced.
pub data Stage : Type 0 where
  offline counted broken : Stage
  serving : State → Stage

-- `connected.load`
abbrev pub is_online : Stage → Bool
is_online offline = false
is_online counted = false
is_online broken = true
is_online (serving st) = true

module _ (J : Json) where
  open J use {Value}

  -- How far a call of `send_with_options` is: past the test of `destroyed`, past the first test of the
  -- connection, past the reading of the generation, with a permit, and past the test under the lock
  -- with its parameters, ID and deadline.
  pub data Phase : Type 0 where
    entered linked : Phase
    stamped holding : (generation : ℕ) → Phase
    cleared : (generation : ℕ) (params : Value) (id : String) (deadline : ℕ) → Phase

  -- The ticket names the reply channel.
  pub record Caller : Type 0 where
    pub ticket : ℕ
    pub phase : Phase

  pub record System : Type 0 where
    pub is_destroyed : Bool
    pub generation : ℕ
    pub callers : List Caller
    pub queue : List (Command J)
    -- Whether there is a run whose queue is open.
    pub accepting : Bool
    pub stage : Stage
    pub next_ticket : ℕ

  -- A client that is new, before its first `connect`.
  abbrev pub idle : System
  idle = record {
    is_destroyed = false;
    generation = 0;
    callers = [];
    queue = [];
    accepting = false;
    stage = offline;
    next_ticket = 0;
  }

  abbrev pub holds_permit : Phase → ℕ
  holds_permit entered = 0
  holds_permit linked = 0
  holds_permit (stamped g) = 0
  holds_permit (holding g) = 1
  holds_permit (cleared g params id deadline) = 1

  abbrev pub held_by : List Caller → ℕ
  held_by [] = 0
  held_by (x ∷ xs) = holds_permit x.phase + held_by xs

  abbrev pub outstanding : Stage → ℕ
  outstanding (serving st) = length st.pending
  outstanding _ = 0

  -- The permits that are taken.
  abbrev pub permits : System → ℕ
  permits s = held_by s.callers + length s.queue + outstanding s.stage

  -- The command that a caller puts into the queue.
  abbrev pub command_of : ℕ → ℕ → Value → String → ℕ → Command J
  command_of ticket generation params id deadline = record {
    generation = generation;
    id = id;
    params = params;
    deadline = deadline;
    reply = ticket;
  }

  -- What a round leaves of the queue: a command comes from its head, with the generation that the
  -- worker reads then; and the queue may be closed under a session, by the drop of the last handle,
  -- which the worker sees when it is empty.
  abbrev pub Takes : System → Branch J → List (Command J) → Type 0
  Takes s (command_ready (some c) generation now io) rest =
      (s.queue ≡ c ∷ rest) × (generation ≡ s.generation)
  Takes s (command_ready none generation now io) rest = (s.queue ≡ []) × (rest ≡ [])
  Takes s _ rest = s.queue ≡ rest

  module _ (B : Base64) (o : Options) where
    -- A step of one caller by itself: what becomes of it.
    pub data CallerStep (s : System) (t : ℕ) : Phase → Option Phase → Type 0 where
      link : is_online s.stage ≡ true → CallerStep s t entered (some linked)
      stamp : CallerStep s t linked (some (stamped s.generation))
      acquire :
          {g : ℕ} → permits s < o.max_in_flight → CallerStep s t (stamped g) (some (holding g))
      clear :
          {g : ℕ} {params : Value} (channel : String) (kind : ℕ) (payload : Value)
          (options : SendOptions) (generated_id id : String) (now : ℕ)
          → Outbound.send J B channel kind payload options generated_id ≡ ok params
          → too_large J o params id ≡ false
          → is_online s.stage ≡ true
          → CallerStep s t (holding g) (some (cleared g params id (now + o.request_timeout)))
      -- An error return at any point, or a future that is dropped.
      quit : {p : Phase} → CallerStep s t p none

    abbrev pub after_step : ℕ → Option Phase → List Caller → List Caller
    after_step t none xs = xs
    after_step t (some p) xs = record { ticket = t; phase = p } ∷ xs

    -- A step, with what it does to the outside.
    pub data Step (s : System) : List (Effect J) → System → Type 0 where
      enter :
          s.is_destroyed ≡ false
          → Step s [] (record s {
            callers = record { ticket = s.next_ticket; phase = entered } ∷ s.callers;
            next_ticket = suc s.next_ticket;
          })
      call :
          (before after : List Caller) (t : ℕ) (p : Phase) (q : Option Phase)
          → s.callers ≡ before ++ (record { ticket = t; phase = p } ∷ after)
          → CallerStep s t p q
          → Step s [] (record s { callers = before ++ after_step t q after })
      push :
          (before after : List Caller) (t g : ℕ) (params : Value) (id : String) (deadline : ℕ)
          → s.callers
            ≡ before ++ (record { ticket = t; phase = cleared g params id deadline } ∷ after)
          → s.accepting ≡ true
          → length s.queue < o.max_in_flight
          → Step s [] (record s {
            callers = before ++ after;
            queue = s.queue ++ (command_of t g params id deadline ∷ []);
          })
      -- `generation.fetch_add`, then `connected.store(true)` and the start of the session.
      count :
          s.stage ≡ offline
          → s.accepting ≡ true
          → Step s [] (record s { stage = counted; generation = (s.generation + 1) % 2 ^ 64 })
      announce :
          (now : ℕ) → s.stage ≡ counted → Step s [] (record s { stage = serving (start o now) })
      serve :
          (st st' : State) (i : Input J) (rest : List (Command J))
          → s.stage ≡ serving st
          → Takes s i.branch rest
          → IsFresh J st i.branch
          → (round J B o st i).result ≡ ok st'
          → Step s (round J B o st i).effects (record s { stage = serving st'; queue = rest })
      fail :
          (st : State) (i : Input J) (e : Error) (rest : List (Command J))
          → s.stage ≡ serving st
          → Takes s i.branch rest
          → IsFresh J st i.branch
          → (round J B o st i).result ≡ err e
          → Step s (round J B o st i).effects (record s { stage = broken; queue = rest })
      part : s.stage ≡ broken → Step s [] (record s { stage = offline })
      -- `while let Ok(command) = try_recv()`
      drain :
          (c : Command J) (rest : List (Command J))
          → s.stage ≡ offline
          → s.queue ≡ c ∷ rest
          → Step s (reply c.reply (err disconnected) ∷ []) (record s { queue = rest })
      -- The worker ends by itself or is cancelled, closes its queue, and answers what is left in it.
      stop : Step s [] (record s { stage = offline; accepting = false })
      settle :
          (e : Error) (c : Command J) (rest : List (Command J))
          → s.accepting ≡ false
          → s.queue ≡ c ∷ rest
          → Step s (reply c.reply (err e) ∷ []) (record s { queue = rest })
      -- `connect` makes a new run when the old worker has finished.
      open_run :
          s.is_destroyed ≡ false
          → s.accepting ≡ false
          → s.queue ≡ []
          → Step s [] (record s { accepting = true })
      destroy : Step s [] (record s { is_destroyed = true })

    -- What the system may come to, with all that it does on the way.
    pub data Reaches (s : System) : List (Effect J) → System → Type 0 where
      here : Reaches s [] s
      then_step :
          {es fs : List (Effect J)} {t u : System}
          → Reaches s es t
          → Step t fs u
          → Reaches s (es ++ fs) u
