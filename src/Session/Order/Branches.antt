-- ===== src/Session/Order/Branches.antt =====
-- The branches of a round in two states that hold the same pending sends in different orders.
use wu_kong_easy_sdk_rust.Base.{
  ℕ, ◌+◌, ◌≡◌, refl, String, Bool, true, false, none, some, [], ◌∷◌, leb, ◌==◌, str_eq,
  if◌then◌else◌, Option-cases, inl, inr, not, and_then,
}
use wu_kong_easy_sdk_rust.Base.Reorders.{Reorders}
use wu_kong_easy_sdk_rust.Json.{Json, Base64}
use wu_kong_easy_sdk_rust.Types.Failure.{
  Error, Result, Result-cases, ok, err, timeout, disconnected,
}
use wu_kong_easy_sdk_rust.Types.Options.{Options}
use wu_kong_easy_sdk_rust.Types.Decode.{as_str, value_get, json_object}
use wu_kong_easy_sdk_rust.Protocol.Outbound.{request}
use wu_kong_easy_sdk_rust.Protocol.Inbound.{parse, response, recv}
use wu_kong_easy_sdk_rust.Session.State.{
  PendingMap, State, Io, Command, Act, reply, lookup, write_value, flush_socket, ◌>>=◌, pure, fail,
  lift, perform,
}
use wu_kong_easy_sdk_rust.Session.Incoming.{
  Frame, text, ping, pong, binary, closed, matches_ping, on_response, on_recv, on_event, on_method,
  on_value, on_text, on_frame, pong_received,
}
use wu_kong_easy_sdk_rust.Session.Round.{
  Branch, timer_ready, command_ready, frame_ready, admit, on_timer, on_command, on_branch,
}
use wu_kong_easy_sdk_rust.Session.Deadlines.{NodupKeys}
use wu_kong_easy_sdk_rust.Session.Order.{Reorders-SameLookups, Reorders-remove, Reorders-insert}

abbrev pub with_pending : State → PendingMap → State
with_pending s m = record s { pending = m }

-- Both fail alike, or both go on with the same pending sends and the same heartbeat.
pub data Agree : Result State → Result State → Type 0 where
  both_ok :
      (s : State) (m : PendingMap) → Reorders s.pending m → Agree (ok s) (ok (with_pending s m))
  both_err : (e : Error) → Agree (err e) (err e)

pub record Parallel {J : Json} (x y : Act J State) : Type 0 where
  pub effects : x.effects ≡ y.effects
  pub result : Agree x.result y.result

module _ {J : Json} where
  Parallel-if :
      (b : Bool) (x y x' y' : Act J State)
      → Parallel x x'
      → Parallel y y'
      → Parallel (if b then x else y) (if b then x' else y')
  Parallel-if true x y x' y' h k = h
  Parallel-if false x y x' y' h k = k

  Parallel-fail : (e : Error) → Parallel {J = J} (fail e) (fail e)
  Parallel-fail e = record { effects = refl; result = both_err e }

  Parallel-pure :
      (s : State) (m : PendingMap)
      → Reorders s.pending m
      → Parallel {J = J} (pure s) (pure (with_pending s m))
  Parallel-pure s m d = record { effects = refl; result = both_ok s m d }

  Parallel-then {ℓ} :
      {A : Type ℓ} (a : Act J A) (s : State) (m : PendingMap)
      → Reorders s.pending m
      → Parallel (a >>= λ x. pure s) (a >>= λ x. pure (with_pending s m))
  Parallel-then a s m d = elim (Result-cases a.result) [
    | inl (x, e) ↦ record { effects = rw e refl; result = rw e (both_ok s m d) }
    | inr (x, e) ↦ record { effects = rw e refl; result = rw e (both_err x) }
  ]

module _ (J : Json) (B : Base64) (o : Options) (m : PendingMap) where
  open J use {Value}

  Parallel-on_response :
      (s : State) (value : Value) (id : String) (now : ℕ)
      → Reorders s.pending m
      → NodupKeys s.pending
      → Parallel
          (on_response J B o s value id now)
          (on_response J B o (with_pending s m) value id now)
  unfolding on_response
  Parallel-on_response s value id now d h =
      Parallel-if (matches_ping s.ping id) _ _ _ _
        (Parallel-then (lift (response J value)) (pong_received J B o s now) m d)
        (rw ((Reorders-SameLookups d h).1 id) (elim (Option-cases (lookup id m)) [
          | inl e ↦ rw e (Parallel-pure s m d)
          | inr (p, e) ↦
              rw e (record { effects = refl; result = both_ok _ _ (Reorders-remove id d h) })
        ]))

  Parallel-on_method :
      (s : State) (method : String) (params : Value) (now : ℕ) (io : Io)
      → Reorders s.pending m
      → Parallel
          (on_method J B o s method params now io)
          (on_method J B o (with_pending s m) method params now io)
  unfolding on_method
  Parallel-on_method s method params now io d =
      Parallel-if (str_eq method "recv") _ _ _ _
        (Parallel-then (on_recv J B o (recv J B params) io) s m d)
        (Parallel-if (str_eq method "event") _ _ _ _ (Parallel-then (on_event J B o params) s m d) (
          Parallel-if (str_eq method "disconnect") _ _ _ _ (Parallel-fail _) (
            Parallel-if (str_eq method "pong") _ _ _ _
              (Parallel-pure (pong_received J B o s now) m d) (Parallel-pure s m d))))

  Parallel-on_value :
      (s : State) (value : Value) (now : ℕ) (io : Io)
      → Reorders s.pending m
      → NodupKeys s.pending
      → Parallel (on_value J B o s value now io) (on_value J B o (with_pending s m) value now io)
  unfolding on_value
  Parallel-on_value s value now io d h =
      elim (Option-cases (and_then (value_get J value "id") (as_str J))) [
        | inr (id, e) ↦ rw (e, on_value) (Parallel-on_response s value id now d h)
        | inl e ↦ elim (Option-cases (and_then (value_get J value "method") (as_str J))) [
          | inl e' ↦ rw (e, on_value, e') (record { effects = refl; result = both_ok s m d })
          | inr (method, e') ↦ rw (e, on_value, e') (Parallel-on_method s method _ now io d)
        ]
      ]

  Parallel-on_frame :
      (s : State) (f : Frame) (now : ℕ) (io : Io)
      → Reorders s.pending m
      → NodupKeys s.pending
      → Parallel (on_frame J B o s f now io) (on_frame J B o (with_pending s m) f now io)
  unfolding on_frame on_text
  Parallel-on_frame s (text x) now io d h = elim (Result-cases (parse J x)) [
    | inl (value, e) ↦ rw (e, on_text) (Parallel-on_value s value now io d h)
    | inr (e', e) ↦ rw (e, on_text) (record { effects = refl; result = both_ok s m d })
  ]
  Parallel-on_frame s ping now io d h = Parallel-then (flush_socket J io) s m d
  Parallel-on_frame s pong now io d h = Parallel-pure s m d
  Parallel-on_frame s binary now io d h = record { effects = refl; result = both_ok s m d }
  Parallel-on_frame s closed now io d h = Parallel-fail _

  Parallel-on_timer :
      (s : State) (now later : ℕ) (id : String) (io : Io)
      → Reorders s.pending m
      → Parallel
          (on_timer J B o s now later id io)
          (on_timer J B o (with_pending s m) now later id io)
  unfolding on_timer
  Parallel-on_timer s now later id io d = elim (Option-cases s.ping) [
    | inl e ↦
        rw (e, on_timer)
          (Parallel-if (leb s.next_ping now) _ _ _ _
            (Parallel-then (write_value J o (request J "ping" (json_object J J.empty) id) io)
              (record s { ping = some (id, later + o.pong_timeout) }) m d)
            (Parallel-pure s m d))
    | inr (p, e) ↦
        rw (e, on_timer) (Parallel-if (leb p.1 now) _ _ _ _ (Parallel-fail _) (Parallel-pure s m d))
  ]

  Parallel-on_command :
      (s : State) (c : Command J) (gone : ℕ → Bool) (generation now : ℕ) (io : Io)
      → Reorders s.pending m
      → NodupKeys s.pending
      → Parallel
          (on_command J B o s c gone generation now io)
          (on_command J B o (with_pending s m) c gone generation now io)
  unfolding on_command
  Parallel-on_command s c gone generation now io d h =
      Parallel-if (gone c.reply) _ _ _ _ (Parallel-pure s m d) (
        Parallel-if (not (c.generation == generation)) _ _ _ _
          (Parallel-then (perform (reply c.reply (err disconnected) ∷ [])) s m d)
          (Parallel-if (leb c.deadline now) _ _ _ _
            (Parallel-then (perform (reply c.reply (err timeout) ∷ [])) s m d)
            (Parallel-then (write_value J o (request J "send" c.params c.id) io) (admit J s c) _
              (Reorders-insert c.id _ d h))))

  -- A branch has the very same effects whatever the order of the pending sends, fails in both or in
  -- neither, and leaves the same pending sends.
  pub Parallel-on_branch :
      (s : State) (gone : ℕ → Bool) (b : Branch J)
      → Reorders s.pending m
      → NodupKeys s.pending
      → Parallel (on_branch J B o s gone b) (on_branch J B o (with_pending s m) gone b)
  unfolding on_branch
  Parallel-on_branch s gone (timer_ready now later id io) d h =
      Parallel-on_timer s now later id io d
  Parallel-on_branch s gone (command_ready none generation now io) d h = Parallel-fail _
  Parallel-on_branch s gone (command_ready (some c) generation now io) d h =
      Parallel-on_command s c gone generation now io d h
  Parallel-on_branch s gone (frame_ready f now io) d h = Parallel-on_frame s f now io d h
