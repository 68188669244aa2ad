-- ===== src/Session/Balance.antt =====
-- The account of a ticket over the branches of a round: the answers given and the sends still held.
use wu_kong_easy_sdk_rust.Base.{
  ℕ, ◌+◌, ◌≤◌, ◌≡◌, refl, String, Bool, true, false, [], ◌∷◌, if◌then◌else◌, arith, Option-cases,
  Bool-cases, inl, inr, and_then,
}
use wu_kong_easy_sdk_rust.Json.{Json, Base64}
use wu_kong_easy_sdk_rust.Types.Failure.{Error, Result, Result-cases, ok, err}
use wu_kong_easy_sdk_rust.Types.Options.{Options}
use wu_kong_easy_sdk_rust.Types.Messages.{RecvMessage, Event}
use wu_kong_easy_sdk_rust.Types.Decode.{as_str, value_get}
use wu_kong_easy_sdk_rust.Protocol.Inbound.{parse, recv}
use wu_kong_easy_sdk_rust.Session.State.{
  State, Io, Act, emit, lookup, write_value, flush_socket, ◌>>◌, pure, fail, perform,
}
use wu_kong_easy_sdk_rust.Session.Incoming.{
  Frame, text, ping, pong, binary, closed, matches_ping, on_response, on_recv, on_event, recv_ack,
  on_method, on_value, on_text, on_frame,
}
use wu_kong_easy_sdk_rust.Session.Answers.{held, answers, answers-append, held-remove}

-- Out of `n` sends with a ticket those not answered are still pending; where the session ended, no
-- more than those are answered.
abbrev pub Account : {J : Json} → ℕ → ℕ → Act J State → Type 0
Account t n m = elim (m.result) [
  | ok s ↦ answers t m.effects + held t s.pending ≡ n
  | err e ↦ answers t m.effects ≤ n
]

pub record Balanced {J : Json} (t n : ℕ) (m : Act J State) : Type 0 where
  pub account : Account t n m

-- Effects that answer nobody.
pub record IsQuiet {ℓ} {J : Json} {A : Type ℓ} (t : ℕ) (m : Act J A) : Type 0 where
  pub none_answered : answers t m.effects ≡ 0

module _ {J : Json} {t n : ℕ} where
  pub Balanced-if :
      (b : Bool) (x y : Act J State)
      → Balanced t n x
      → Balanced t n y
      → Balanced t n (if b then x else y)
  Balanced-if true x y h k = h
  Balanced-if false x y h k = k

  pub Balanced-fail : (e : Error) → Balanced {J = J} t n (fail e)
  unfolding answers
  Balanced-fail e = record { account = omega arith }

  -- `n` sends are pending, and nothing happens.
  pub Balanced-pure : (s : State) → held t s.pending ≡ n → Balanced {J = J} t n (pure s)
  unfolding answers
  Balanced-pure s h = record { account = omega arith }

  pub Balanced-quiet :
      (m : Act J (Unit {0})) (s : State)
      → IsQuiet t m
      → held t s.pending ≡ n
      → Balanced t n (m >> pure s)
  unfolding answers
  Balanced-quiet m s q h = record {
    account = ground (arith, answers-append t m.effects [], q.none_answered);
  }

module _ (J : Json) (B : Base64) (o : Options) (t : ℕ) where
  open J use {Value}

  perform-IsQuiet : (e : Event J) → IsQuiet {J = J} t (perform (emit e ∷ []))
  unfolding answers
  perform-IsQuiet e = record { none_answered = refl }

  pub write_value-IsQuiet : (v : Value) (io : Io) → IsQuiet t (write_value J o v io)
  unfolding write_value answers
  write_value-IsQuiet v io = record { none_answered = ground arith }

  flush_socket-IsQuiet : (io : Io) → IsQuiet t (flush_socket J io)
  unfolding flush_socket answers
  flush_socket-IsQuiet io = record { none_answered = refl }

  on_recv-IsQuiet : (r : Result (RecvMessage J)) (io : Io) → IsQuiet t (on_recv J B o r io)
  unfolding on_recv answers
  on_recv-IsQuiet (ok message) io = record {
    none_answered = (write_value-IsQuiet (recv_ack J B o message) io).none_answered;
  }
  on_recv-IsQuiet (err e) io = record { none_answered = refl }

  on_event-IsQuiet : (params : Value) → IsQuiet t (on_event J B o params)
  unfolding on_event answers
  on_event-IsQuiet params = record { none_answered = ground arith }

  on_response-Balanced :
      (s : State) (value : Value) (id : String) (now : ℕ)
      → Balanced t (held t s.pending) (on_response J B o s value id now)
  unfolding on_response answers
  on_response-Balanced s value id now = elim (Bool-cases (matches_ping s.ping id)) [
    | inl hit ↦ record { account = ground arith }
    | inr miss ↦ elim (Option-cases (lookup id s.pending)) [
      | inl e ↦ record { account = ground arith }
      | inr (p, e) ↦ record { account = ground (arith, held-remove t id p s.pending e) }
    ]
  ]

  on_method-Balanced :
      (s : State) (method : String) (params : Value) (now : ℕ) (io : Io)
      → Balanced t (held t s.pending) (on_method J B o s method params now io)
  unfolding on_method
  on_method-Balanced s method params now io =
      Balanced-if _ _ _ (Balanced-quiet _ s (on_recv-IsQuiet (recv J B params) io) refl) (
        Balanced-if _ _ _ (Balanced-quiet _ s (on_event-IsQuiet params) refl) (
          Balanced-if _ _ _ (Balanced-fail _)
            (Balanced-if _ _ _ (Balanced-pure _ refl) (Balanced-pure s refl))))

  on_value-Balanced :
      (s : State) (value : Value) (now : ℕ) (io : Io)
      → Balanced t (held t s.pending) (on_value J B o s value now io)
  unfolding on_value
  on_value-Balanced s value now io =
      elim (Option-cases (and_then (value_get J value "id") (as_str J))) [
        | inl e ↦ elim (Option-cases (and_then (value_get J value "method") (as_str J))) [
          | inl e' ↦ rw (e, on_value, e') (Balanced-quiet _ s (perform-IsQuiet _) refl)
          | inr (method, e') ↦ rw (e, on_value, e') (on_method-Balanced s method _ now io)
        ]
        | inr (id, e) ↦ rw (e, on_value) (on_response-Balanced s value id now)
      ]

  pub on_frame-Balanced :
      (s : State) (f : Frame) (now : ℕ) (io : Io)
      → Balanced t (held t s.pending) (on_frame J B o s f now io)
  unfolding on_frame on_text
  on_frame-Balanced s (text x) now io = elim (Result-cases (parse J x)) [
    | inl (value, e) ↦ rw (e, on_text) (on_value-Balanced s value now io)
    | inr (e', e) ↦ rw (e, on_text) (Balanced-quiet _ s (perform-IsQuiet _) refl)
  ]
  on_frame-Balanced s ping now io = Balanced-quiet _ s (flush_socket-IsQuiet io) refl
  on_frame-Balanced s pong now io = Balanced-pure s refl
  on_frame-Balanced s binary now io = Balanced-quiet _ s (perform-IsQuiet _) refl
  on_frame-Balanced s closed now io = Balanced-fail _
