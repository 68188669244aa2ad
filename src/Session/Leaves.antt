-- ===== src/Session/Leaves.antt =====
-- A predicate on the pending sends over the branches of a round.
use wu_kong_easy_sdk_rust.Base.{
  ℕ, ◌+◌, String, Bool, true, false, none, some, List, [], ◌∷◌, leb, ◌==◌, str_eq, if◌then◌else◌,
  Option-cases, inl, inr, not, and_then,
}
use wu_kong_easy_sdk_rust.Json.{Json, Base64}
use wu_kong_easy_sdk_rust.Types.Failure.{
  Error, Result, Result-cases, ok, err, timeout, disconnected,
}
use wu_kong_easy_sdk_rust.Types.Options.{Options}
use wu_kong_easy_sdk_rust.Types.Decode.{as_str, value_get, json_object}
use wu_kong_easy_sdk_rust.Protocol.Outbound.{request}
use wu_kong_easy_sdk_rust.Protocol.Inbound.{parse, response, recv}
use wu_kong_easy_sdk_rust.Session.State.{
  PendingMap, State, Io, Act, reply, lookup, remove, insert, write_value, flush_socket, ◌>>=◌, pure,
  fail, lift, perform,
}
use wu_kong_easy_sdk_rust.Session.Incoming.{
  Frame, text, ping, pong, binary, closed, matches_ping, on_response, on_recv, on_event, on_method,
  on_value, on_text, on_frame, pong_received,
}
use wu_kong_easy_sdk_rust.Session.Round.{
  expire, Branch, timer_ready, command_ready, frame_ready, Input, housekeep, admit, on_timer,
  on_command, on_branch, round,
}
use wu_kong_easy_sdk_rust.Session.Rounds.{swept}

-- Where a part of the loop body goes on, its pending sends satisfy the predicate.
abbrev pub Holds : (PendingMap → Type 0) → Result State → Type 0
Holds P (ok s) = P s.pending
Holds P (err e) = Unit

pub record Leaves {J : Json} (P : PendingMap → Type 0) (m : Act J State) : Type 0 where
  pub left : Holds P m.result

module _ {J : Json} {P : PendingMap → Type 0} where
  Leaves-if :
      (b : Bool) (x y : Act J State) → Leaves P x → Leaves P y → Leaves P (if b then x else y)
  Leaves-if true x y h k = h
  Leaves-if false x y h k = k

  Leaves-fail : (e : Error) → Leaves {J = J} P (fail e)
  Leaves-fail e = record { left = tt }

  Leaves-pure : (s : State) → P s.pending → Leaves {J = J} P (pure s)
  Leaves-pure s h = record { left = h }

  Leaves-then {ℓ} :
      {A : Type ℓ} (m : Act J A) (s : State) → P s.pending → Leaves P (m >>= λ a. pure s)
  Leaves-then m s h = record {
    left = elim (Result-cases m.result) [ inl (a, e) ↦ rw e h | inr (x, e) ↦ rw e tt ];
  }

-- What a command adds satisfies the predicate too.
abbrev pub Admits : {J : Json} → (PendingMap → Type 0) → State → Branch J → Type 0
Admits P s (command_ready (some c) generation now io) =
    P (insert c.id (record { deadline = c.deadline; reply = c.reply }) s.pending)
Admits P s _ = Unit

module _ (P : PendingMap → Type 0)
    (drops : (key : String) (m : PendingMap) → P m → P (remove key m)) (J : Json) (B : Base64)
    (o : Options) where
  open J use {Value}

  -- The loop over the expired IDs only removes.
  pub left-expire : (ids : List String) (m : PendingMap) → P m → P (expire J ids m).1
  unfolding expire
  left-expire [] m h = h
  left-expire (id ∷ ids) m h = elim (Option-cases (lookup id m)) [
    | inl e ↦ rw (e, expire) (left-expire ids m h)
    | inr (p, e) ↦ rw (e, expire) (left-expire ids (remove id m) (drops id m h))
  ]

  Leaves-on_response :
      (s : State) (value : Value) (id : String) (now : ℕ)
      → P s.pending
      → Leaves P (on_response J B o s value id now)
  unfolding on_response
  Leaves-on_response s value id now h =
      Leaves-if (matches_ping s.ping id) _ _
        (Leaves-then (lift (response J value)) (pong_received J B o s now) h)
        (elim (Option-cases (lookup id s.pending)) [
          | inl e ↦ rw e (Leaves-pure s h)
          | inr (p, e) ↦ rw e (record { left = drops id s.pending h })
        ])

  Leaves-on_method :
      (s : State) (method : String) (params : Value) (now : ℕ) (io : Io)
      → P s.pending
      → Leaves P (on_method J B o s method params now io)
  unfolding on_method
  Leaves-on_method s method params now io h =
      Leaves-if (str_eq method "recv") _ _ (Leaves-then (on_recv J B o (recv J B params) io) s h) (
        Leaves-if (str_eq method "event") _ _ (Leaves-then (on_event J B o params) s h) (
          Leaves-if (str_eq method "disconnect") _ _ (Leaves-fail _) (
            Leaves-if (str_eq method "pong") _ _ (Leaves-pure (pong_received J B o s now) h)
              (Leaves-pure s h))))

  Leaves-on_value :
      (s : State) (value : Value) (now : ℕ) (io : Io)
      → P s.pending
      → Leaves P (on_value J B o s value now io)
  unfolding on_value
  Leaves-on_value s value now io h =
      elim (Option-cases (and_then (value_get J value "id") (as_str J))) [
        | inr (id, e) ↦ rw (e, on_value) (Leaves-on_response s value id now h)
        | inl e ↦ elim (Option-cases (and_then (value_get J value "method") (as_str J))) [
          | inl e' ↦ rw (e, on_value, e') (record { left = h })
          | inr (method, e') ↦ rw (e, on_value, e') (Leaves-on_method s method _ now io h)
        ]
      ]

  Leaves-on_frame :
      (s : State) (f : Frame) (now : ℕ) (io : Io)
      → P s.pending
      → Leaves P (on_frame J B o s f now io)
  unfolding on_frame on_text
  Leaves-on_frame s (text x) now io h = elim (Result-cases (parse J x)) [
    | inl (value, e) ↦ rw (e, on_text) (Leaves-on_value s value now io h)
    | inr (e', e) ↦ rw (e, on_text) (record { left = h })
  ]
  Leaves-on_frame s ping now io h = Leaves-then (flush_socket J io) s h
  Leaves-on_frame s pong now io h = Leaves-pure s h
  Leaves-on_frame s binary now io h = record { left = h }
  Leaves-on_frame s closed now io h = Leaves-fail _

  Leaves-on_branch :
      (s : State) (gone : ℕ → Bool) (b : Branch J)
      → P s.pending
      → Admits P s b
      → Leaves P (on_branch J B o s gone b)
  unfolding on_branch on_timer on_command
  Leaves-on_branch s gone (timer_ready now later id io) h more = elim (Option-cases s.ping) [
    | inl e ↦
        rw (e, on_timer)
          (Leaves-if (leb s.next_ping now) _ _
            (Leaves-then (write_value J o (request J "ping" (json_object J J.empty) id) io)
              (record s { ping = some (id, later + o.pong_timeout) }) h)
            (Leaves-pure s h))
    | inr (p, e) ↦ rw (e, on_timer) (Leaves-if (leb p.1 now) _ _ (Leaves-fail _) (Leaves-pure s h))
  ]
  Leaves-on_branch s gone (command_ready none generation now io) h more = Leaves-fail _
  Leaves-on_branch s gone (command_ready (some c) generation now io) h more =
      Leaves-if (gone c.reply) _ _ (Leaves-pure s h) (
        Leaves-if (not (c.generation == generation)) _ _
          (Leaves-then (perform (reply c.reply (err disconnected) ∷ [])) s h)
          (Leaves-if (leb c.deadline now) _ _
            (Leaves-then (perform (reply c.reply (err timeout) ∷ [])) s h)
            (Leaves-then (write_value J o (request J "send" c.params c.id) io) (admit J s c)
              (more))))
  Leaves-on_branch s gone (frame_ready f now io) h more = Leaves-on_frame s f now io h

  pub Leaves-round :
      (s : State) (i : Input J)
      → P (swept J s i).pending
      → Admits P (swept J s i) i.branch
      → Holds P (round J B o s i).result
  unfolding round housekeep
  Leaves-round s i h more = (Leaves-on_branch (swept J s i) i.closed_later i.branch h more).left
