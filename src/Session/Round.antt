-- ===== src/Session/Round.antt =====
-- One round of the loop of `Worker::session` in src/client.rs, and a run of rounds.
use wu_kong_easy_sdk_rust.Base.{
  ℕ, ◌+◌, String, Bool, not, Option, none, some, List, [], ◌∷◌, ◌++◌, min, leb, ◌==◌, if◌then◌else◌,
}
use wu_kong_easy_sdk_rust.Json.{Json, Base64}
use wu_kong_easy_sdk_rust.Types.Failure.{ok, err, timeout, disconnected}
use wu_kong_easy_sdk_rust.Types.Options.{Options}
use wu_kong_easy_sdk_rust.Types.Decode.{json_object}
use wu_kong_easy_sdk_rust.Protocol.Outbound.{request}
use wu_kong_easy_sdk_rust.Session.State.{
  PendingMap, State, Io, Command, Act, Effect, reply, lookup, remove, insert, pure, fail, perform,
  write_value, ◌>>=◌, ◌>>◌,
}
use wu_kong_easy_sdk_rust.Session.Incoming.{Frame, on_frame}

-- `session` begins with no send pending and a ping due after the interval.
unfoldable pub start : Options → ℕ → State
start o now = record { pending = []; next_ping = now + o.ping_interval; ping = none }

-- `pending.retain(|_, p| !p.reply.is_closed())`; `closed` says which receivers are gone.
unfoldable pub retain_open : (ℕ → Bool) → PendingMap → PendingMap
retain_open closed [] = []
retain_open closed ((id, p) ∷ m) =
    let rest = retain_open closed m in if closed p.reply then rest else (id, p) ∷ rest

unfoldable pub expired_ids : ℕ → PendingMap → List String
expired_ids now [] = []
expired_ids now ((id, p) ∷ m) =
    let rest = expired_ids now m in if leb p.deadline now then id ∷ rest else rest

-- The deadline of the heartbeat: the pong's if one is awaited, else that of the next ping.
abbrev pub heartbeat_deadline : State → ℕ
heartbeat_deadline s = elim (s.ping) [ none ↦ s.next_ping | some (id, deadline) ↦ deadline ]

unfoldable pub earliest : PendingMap → ℕ → ℕ
earliest [] d = d
earliest ((id, p) ∷ m) d = min p.deadline (earliest m d)

-- The instant at which the timer branch of a round is ready.
unfoldable pub timer : State → ℕ
unfolding earliest
timer s = earliest s.pending (heartbeat_deadline s)

module _ (J : Json) where
  open J use {Value, empty}

  -- `for id in expired { if let Some(p) = pending.remove(&id) { p.reply.send(Err(Timeout)) } }`
  unfoldable pub expire : List String → PendingMap → List (Effect J) × PendingMap
  expire [] m = ([], m)
  expire (id ∷ ids) m = elim (lookup id m) [
    | none ↦ expire ids m
    | some p ↦
        let (effects, rest) = expire ids (remove id m) in
        (reply p.reply (err timeout) ∷ effects, rest)
  ]

  -- Which branch of `select!` is taken, with the clock readings, the fresh ID, the generation and
  -- the fate of the write that the branch meets.
  pub data Branch : Type 0 where
    timer_ready : (now later : ℕ) (id : String) (io : Io) → Branch
    command_ready : Option (Command J) → (generation now : ℕ) (io : Io) → Branch
    frame_ready : Frame → (now : ℕ) (io : Io) → Branch

  pub record Input : Type 0 where
    -- The clock and the closed receivers at the head of the loop, and those in the branch.
    pub now : ℕ
    pub closed : ℕ → Bool
    pub closed_later : ℕ → Bool
    pub branch : Branch

  -- The head of the loop body.
  unfoldable pub housekeep : State → Input → Act J State
  housekeep s i =
      let kept = retain_open i.closed s.pending in
      let (effects, rest) = expire (expired_ids i.now kept) kept in
      record { effects = effects; result = ok (record s { pending = rest }) }

  -- `pending.insert(id, Pending { deadline, reply, _permit })`
  abbrev pub admit : State → Command J → State
  admit s c = record s {
    pending = insert c.id (record { deadline = c.deadline; reply = c.reply }) s.pending;
  }

  module _ (B : Base64) (o : Options) where
    unfoldable pub on_timer : State → ℕ → ℕ → String → Io → Act J State
    on_timer s now later id io = elim (s.ping) [
      | some (ping_id, deadline) ↦ if leb deadline now then fail timeout else pure s
      | none ↦
          if leb s.next_ping now
          then write_value J o (request J "ping" (json_object J empty) id) io
            >> pure (record s { ping = some (id, later + o.pong_timeout) })
          else pure s
    ]

    -- A command is written only if someone waits for it, on its own generation and before its
    -- deadline. It is pending whatever becomes of the write, which ends the session if it fails.
    unfoldable pub on_command : State → Command J → (ℕ → Bool) → ℕ → ℕ → Io → Act J State
    on_command s c closed generation now io =
        if closed c.reply
        then pure s
        else if not (c.generation == generation)
        then perform (reply c.reply (err disconnected) ∷ []) >> pure s
        else if leb c.deadline now
        then perform (reply c.reply (err timeout) ∷ []) >> pure s
        else write_value J o (request J "send" c.params c.id) io >> pure (admit s c)

    unfoldable pub on_branch : State → (ℕ → Bool) → Branch → Act J State
    on_branch s closed (timer_ready now later id io) = on_timer s now later id io
    on_branch s closed (command_ready none generation now io) = fail disconnected
    on_branch s closed (command_ready (some c) generation now io) =
        on_command s c closed generation now io
    on_branch s closed (frame_ready f now io) = on_frame J B o s f now io

    unfoldable pub round : State → Input → Act J State
    round s i = housekeep s i >>= λ s'. on_branch s' i.closed_later i.branch

    -- The loop, over the inputs of its rounds: the state after them, or the error that ended it.
    unfoldable pub session : State → List Input → Act J State
    session s [] = pure s
    session s (i ∷ is) = elim ((round s i).result) [
      | err e ↦ record { effects = (round s i).effects; result = err e }
      | ok s' ↦ record {
        effects = (round s i).effects ++ (session s' is).effects;
        result = (session s' is).result;
      }
    ]
