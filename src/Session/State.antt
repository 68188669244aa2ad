-- ===== src/Session/State.antt =====
-- The state of `Worker::session`, what it does to the outside, and `Worker::write`/`flush`.
-- A reply channel is a number, its ticket; instants are nanoseconds. A `HashMap` of pending sends is
-- an association list, since the code never depends on its order.
use wu_kong_easy_sdk_rust.Base.{
  ℕ, String, Option, none, some, List, [], ◌∷◌, ◌++◌, ltb, str_eq, if◌then◌else◌,
}
use wu_kong_easy_sdk_rust.Json.{Json}
use wu_kong_easy_sdk_rust.Types.Failure.{Error, Result, ok, err, transport, message_too_large}
use wu_kong_easy_sdk_rust.Types.Options.{Options}
use wu_kong_easy_sdk_rust.Types.Text.{byte_length}
use wu_kong_easy_sdk_rust.Types.Messages.{SendResult, Event}

pub record Pending : Type 0 where
  pub deadline : ℕ
  pub reply : ℕ

abbrev pub PendingMap : Type 0
PendingMap = List (String × Pending)

-- `HashMap::get`, `remove` and `insert`
unfoldable pub lookup : String → PendingMap → Option Pending
lookup key [] = none
lookup key ((id, p) ∷ m) = if str_eq id key then some p else lookup key m

unfoldable pub remove : String → PendingMap → PendingMap
remove key [] = []
remove key ((id, p) ∷ m) = if str_eq id key then m else (id, p) ∷ remove key m

unfoldable pub insert : String → Pending → PendingMap → PendingMap
unfolding remove
insert key p m = (key, p) ∷ remove key m

-- The local variables of `session`.
pub record State : Type 0 where
  pub pending : PendingMap
  pub next_ping : ℕ
  pub ping : Option (String × ℕ)

-- Whether a write or a flush of the socket completes in time.
pub data Io : Type 0 where
  completes fails : Io

module _ (J : Json) where
  open J use {Value}

  pub record Command : Type 0 where
    pub generation : ℕ
    pub id : String
    pub params : Value
    pub deadline : ℕ
    pub reply : ℕ

  -- What a session does, in order: broadcast an event, answer a send, write a text frame, flush.
  pub data Effect : Type 0 where
    emit : Event J → Effect
    reply : ℕ → Result SendResult → Effect
    write : Value → Effect
    flush : Effect

  -- A part of the loop body: its effects, and its result or the error that ends the session.
  pub record Act {ℓ} (A : Type ℓ) : Type ℓ where
    pub effects : List Effect
    pub result : Result A

module _ {J : Json} where
  abbrev pub pure {ℓ} : {A : Type ℓ} → A → Act J A
  pure a = record { effects = []; result = ok a }

  abbrev pub fail {ℓ} : {A : Type ℓ} → Error → Act J A
  fail e = record { effects = []; result = err e }

  -- `result?`
  abbrev pub lift {ℓ} : {A : Type ℓ} → Result A → Act J A
  lift r = record { effects = []; result = r }

  abbrev pub perform : List (Effect J) → Act J (Unit {0})
  perform es = record { effects = es; result = ok tt }

  infixl 5 ◌>>=◌ ◌>>◌
  abbrev pub ◌>>=◌ {ℓ κ} : {A : Type ℓ} {B : Type κ} → Act J A → (A → Act J B) → Act J B
  m >>= f = elim (m.result) [
    | ok a ↦ record { effects = m.effects ++ (f a).effects; result = (f a).result }
    | err e ↦ record { effects = m.effects; result = err e }
  ]

  abbrev pub ◌>>◌ {ℓ} : {B : Type ℓ} → Act J (Unit {0}) → Act J B → Act J B
  m >> k = m >>= λ _. k

module _ (J : Json) where
  open J use {Value, to_string}

  -- The result of a write that is tried.
  abbrev pub io_result : Io → Result (Unit {0})
  io_result completes = ok tt
  io_result fails = err transport

  unfoldable pub write_value : Options → Value → Io → Act J (Unit {0})
  write_value o v io =
      if ltb o.max_message_size (byte_length (to_string v))
      then fail message_too_large
      else record { effects = write v ∷ []; result = io_result io }

  unfoldable pub flush_socket : Io → Act J (Unit {0})
  flush_socket io = record { effects = flush ∷ []; result = io_result io }
