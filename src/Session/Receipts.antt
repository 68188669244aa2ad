-- ===== src/Session/Receipts.antt =====
-- What `Worker::session` (src/client.rs) writes, and in which order with the messages it announces.
pub mod Rounds
use wu_kong_easy_sdk_rust.Base.{
  ℕ, ◌<◌, ◌≡◌, refl, String, Bool, true, false, not, Option, none, some, List, [], ◌∷◌, ◌++◌, leb,
  ltb, str_eq, if◌then◌else◌, and_then, arith, Option-cases, Bool-cases, inl, inr, ◌==◌,
}
use wu_kong_easy_sdk_rust.Json.{Json, Base64}
use wu_kong_easy_sdk_rust.Types.Failure.{
  Error, Result, Result-cases, ok, err, message_too_large, timeout, disconnected, transport,
}
use wu_kong_easy_sdk_rust.Types.Options.{Options}
use wu_kong_easy_sdk_rust.Types.Text.{byte_length}
use wu_kong_easy_sdk_rust.Types.Messages.{SendResult, RecvMessage, Event}
use wu_kong_easy_sdk_rust.Types.Decode.{as_str, value_get, json_object}
use wu_kong_easy_sdk_rust.Protocol.Outbound.{request}
use wu_kong_easy_sdk_rust.Protocol.Inbound.{parse, response, recv, event}
use wu_kong_easy_sdk_rust.Session.State.{
  PendingMap, State, Io, completes, fails, Command, Act, Effect, emit, reply, write, flush, lookup,
  remove, ◌>>=◌, ◌>>◌, pure, fail, lift, perform, write_value, flush_socket, io_result,
}
use wu_kong_easy_sdk_rust.Session.Incoming.{
  Frame, text, ping, pong, binary, closed, matches_ping, pong_received, send_answer, ack_events,
  recv_ack, on_response, on_recv, on_event, on_method, on_value, on_text, on_frame,
}
use wu_kong_easy_sdk_rust.Session.Round.{
  retain_open, expired_ids, expire, Branch, timer_ready, command_ready, frame_ready, Input,
  housekeep, admit, on_timer, on_command, on_branch, round, session,
}

module _ (J : Json) (B : Base64) (o : Options) where
  open J use {Value}

  abbrev pub IsRequest : Value → Type 0
  IsRequest v =
      (method : String) × (params : Value) × (id : String) × (v ≡ request J method params id)

  -- Each announced message is followed at once by its RECVACK, and all else that is written is a
  -- request. `last` says what holds of the message if the effects end between the two, `awaited` is the message that
  -- is to be acknowledged.
  unfoldable pub Receipted :
      (RecvMessage J → Type 0) → Option (RecvMessage J) → List (Effect J) → Type 0
  Receipted last none [] = Unit
  Receipted last none (emit (Event.message m) ∷ es) = Receipted last (some m) es
  Receipted last none (write v ∷ es) = IsRequest v × Receipted last none es
  Receipted last none (_ ∷ es) = Receipted last none es
  Receipted last (some m) [] = last m
  Receipted last (some m) (write v ∷ es) = (v ≡ recv_ack J B o m) × Receipted last none es
  Receipted last (some m) (_ ∷ es) = ⊥

  pub Receipted-append :
      (first last : RecvMessage J → Type 0) (never : (m : RecvMessage J) → first m → ⊥)
      (awaited : Option (RecvMessage J)) (es fs : List (Effect J))
      → Receipted first awaited es
      → Receipted last none fs
      → Receipted last awaited (es ++ fs)
  unfolding Receipted
  Receipted-append first last never none [] fs h k = k
  Receipted-append first last never none (emit (Event.message m) ∷ es) fs h k =
      Receipted-append first last never (some m) es fs h k
  Receipted-append first last never none (emit (Event.connect r) ∷ es) fs h k =
      Receipted-append first last never none es fs h k
  Receipted-append first last never none (emit (Event.disconnect r) ∷ es) fs h k =
      Receipted-append first last never none es fs h k
  Receipted-append first last never none (emit (Event.send_ack r) ∷ es) fs h k =
      Receipted-append first last never none es fs h k
  Receipted-append first last never none (emit (Event.reconnecting n d) ∷ es) fs h k =
      Receipted-append first last never none es fs h k
  Receipted-append first last never none (emit (Event.custom_event e) ∷ es) fs h k =
      Receipted-append first last never none es fs h k
  Receipted-append first last never none (emit (Event.error e) ∷ es) fs h k =
      Receipted-append first last never none es fs h k
  Receipted-append first last never none (write v ∷ es) fs h k =
      (h.0, Receipted-append first last never none es fs h.1 k)
  Receipted-append first last never none (reply t r ∷ es) fs h k =
      Receipted-append first last never none es fs h k
  Receipted-append first last never none (flush ∷ es) fs h k =
      Receipted-append first last never none es fs h k
  Receipted-append first last never (some m) [] fs h k = absurd (never m h)
  Receipted-append first last never (some m) (write v ∷ es) fs h k =
      (h.0, Receipted-append first last never none es fs h.1 k)
  Receipted-append first last never (some m) (emit e ∷ es) fs h k = elim h [ ]
  Receipted-append first last never (some m) (reply t r ∷ es) fs h k = elim h [ ]
  Receipted-append first last never (some m) (flush ∷ es) fs h k = elim h [ ]

  -- Only a receipt that does not fit may be missing, and the session ends with this error.
  abbrev pub Missing {ℓ} : {A : Type ℓ} → Result A → RecvMessage J → Type 0
  Missing (ok a) m = ⊥
  Missing (err e) m =
      (e ≡ message_too_large) × (o.max_message_size < byte_length (J.to_string (recv_ack J B o m)))

  pub record KeepsReceipts {ℓ} {A : Type ℓ} (m : Act J A) : Type 0 where
    pub receipts : Receipted (Missing m.result) none m.effects

  pub KeepsReceipts-if {ℓ} :
      {A : Type ℓ} (b : Bool) (x y : Act J A)
      → KeepsReceipts x
      → KeepsReceipts y
      → KeepsReceipts (if b then x else y)
  KeepsReceipts-if true x y h k = h
  KeepsReceipts-if false x y h k = k

  -- A part without effects, and two parts in a row.
  pub KeepsReceipts-lift {ℓ} : {A : Type ℓ} (r : Result A) → KeepsReceipts (lift {J = J} r)
  unfolding Receipted
  KeepsReceipts-lift r = record { receipts = tt }

  pub KeepsReceipts-then {ℓ κ} :
      {A : Type ℓ} {C : Type κ} (m : Act J A) (f : A → Act J C)
      → KeepsReceipts m
      → ((a : A) → KeepsReceipts (f a))
      → KeepsReceipts (m >>= f)
  KeepsReceipts-then m f h k = elim (Result-cases m.result) [
    | inl (a, e) ↦ record {
      receipts = rw e (
          Receipted-append (λ m. ⊥) _ (λ m x. x) none m.effects (f a).effects (rw e at h.receipts)
            (k a).receipts);
    }
    | inr (x, e) ↦ record { receipts = rw e (rw e at h.receipts) }
  ]
