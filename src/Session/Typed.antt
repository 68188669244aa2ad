-- ===== src/Session/Typed.antt =====
-- The values that a session (src/client.rs) hands out: what it announces and answers fits the types of
-- src/types.rs.
use wu_kong_easy_sdk_rust.Base.{
  ℕ, ◌≡◌, refl, String, Bool, true, false, none, some, List, [], ◌∷◌, ◌++◌, leb, ltb, ◌==◌, str_eq,
  if◌then◌else◌, Option-cases, inl, inr, not, and_then, All, All-append,
}
use wu_kong_easy_sdk_rust.Json.{Json, IsLawful, Base64}
use wu_kong_easy_sdk_rust.Types.Failure.{
  Result, Result-cases, ok, err, message_too_large, bind-ok_iff,
}
use wu_kong_easy_sdk_rust.Types.Options.{Options}
use wu_kong_easy_sdk_rust.Types.Text.{byte_length}
use wu_kong_easy_sdk_rust.Types.Messages.{SendResult, RecvMessage, Event}
use wu_kong_easy_sdk_rust.Types.Decode.{as_str, value_get, json_object, read_send_result}
use wu_kong_easy_sdk_rust.Protocol.Outbound.{request}
use wu_kong_easy_sdk_rust.Protocol.Normalize.{decode}
use wu_kong_easy_sdk_rust.Protocol.Inbound.{parse, response, recv, event}
use wu_kong_easy_sdk_rust.Protocol.Inbound.Ranges.{
  ResultFits, MessageFits, decode-ResultFits, recv-MessageFits,
}
use wu_kong_easy_sdk_rust.Session.State.{
  PendingMap, State, Io, Act, Effect, emit, reply, write, lookup, remove, ◌>>=◌, fail, lift,
  perform, write_value, flush_socket, io_result,
}
use wu_kong_easy_sdk_rust.Session.Incoming.{
  Frame, text, ping, pong, binary, closed, matches_ping, send_answer, ack_events, recv_ack,
  on_response, on_recv, on_event, on_method, on_value, on_text, on_frame,
}
use wu_kong_easy_sdk_rust.Session.Round.{
  retain_open, expired_ids, expire, Branch, timer_ready, command_ready, frame_ready, Input,
  housekeep, on_timer, on_command, on_branch, round, session,
}

module _ {J : Json} where
  abbrev pub Fits : Effect J → Type 0
  Fits (emit (Event.message m)) = MessageFits m
  Fits (emit (Event.send_ack r)) = ResultFits r
  Fits (reply t (ok r)) = ResultFits r
  Fits _ = Unit

  record AllFit {ℓ} {A : Type ℓ} (m : Act J A) : Type 0 where
    fits : All Fits m.effects

  AllFit-if {ℓ} :
      {A : Type ℓ} (b : Bool) (x y : Act J A) → AllFit x → AllFit y → AllFit (if b then x else y)
  AllFit-if true x y h k = h
  AllFit-if false x y h k = k

  AllFit-then {ℓ κ} :
      {A : Type ℓ} {B : Type κ} (m : Act J A) (next : A → Act J B)
      → AllFit m
      → ((a : A) → AllFit (next a))
      → AllFit (m >>= next)
  AllFit-then m next h k = elim (Result-cases m.result) [
    | inl (a, e) ↦ record { fits = rw e (All-append Fits m.effects _ h.fits (k a).fits) }
    | inr (x, e) ↦ record { fits = rw e h.fits }
  ]

  AllFit-none {ℓ} : {A : Type ℓ} (r : Result A) → AllFit (record { effects = []; result = r })
  AllFit-none r = record { fits = tt }

module _ (J : Json) (L : IsLawful J) (B : Base64) (o : Options) where
  open J use {Value}

  AllFit-write_value : (v : Value) (io : Io) → AllFit (write_value J o v io)
  unfolding write_value
  AllFit-write_value v io =
      AllFit-if (ltb o.max_message_size (byte_length (J.to_string v))) (fail message_too_large)
        (record { effects = write v ∷ []; result = io_result J io }) (record { fits = tt })
        (record { fits = (tt, tt) })

  AllFit-flush_socket : (io : Io) → AllFit (flush_socket J io)
  unfolding flush_socket
  AllFit-flush_socket io = record { fits = (tt, tt) }

  answered :
      (r : Result SendResult) (t : ℕ)
      → ((a : SendResult) → r ≡ ok a → ResultFits a)
      → All Fits (ack_events J B o r ++ (reply t r ∷ []))
  answered (ok a) t h = (h a refl, (h a refl, tt))
  answered (err e) t h = (tt, tt)

  send_answer-ResultFits : (v : Value) (a : SendResult) → send_answer J B o v ≡ ok a → ResultFits a
  unfolding send_answer
  send_answer-ResultFits v a h =
      let (w, shown, read) = (bind-ok_iff (response J v) (decode J (read_send_result J)) a).0 h in
      decode-ResultFits J L w a read

  AllFit-on_response :
      (s : State) (value : Value) (id : String) (now : ℕ)
      → AllFit (on_response J B o s value id now)
  unfolding on_response
  AllFit-on_response s value id now =
      AllFit-if (matches_ping s.ping id) _ _
        (AllFit-then (lift (response J value)) _ (AllFit-none _) (λ a. AllFit-none _))
        (elim (Option-cases (lookup id s.pending)) [
          | inl e ↦ rw e (AllFit-none _)
          | inr (p, e) ↦ rw e (record {
            fits = answered (send_answer J B o value) p.reply (send_answer-ResultFits value);
          })
        ])

  AllFit-on_recv :
      (r : Result (RecvMessage J)) (io : Io)
      → ((m : RecvMessage J) → r ≡ ok m → MessageFits m)
      → AllFit (on_recv J B o r io)
  unfolding on_recv
  AllFit-on_recv (ok m) io h =
      AllFit-then (perform (emit (Event.message m) ∷ [])) _ (record { fits = (h m refl, tt) })
        (λ u. AllFit-write_value (recv_ack J B o m) io)
  AllFit-on_recv (err e) io h = record { fits = (tt, tt) }

  AllFit-on_event : (params : Value) → AllFit (on_event J B o params)
  unfolding on_event
  AllFit-on_event params = elim (Result-cases (event J params)) [
    | inl (e, k) ↦ rw (k, on_event) (record { fits = (tt, tt) })
    | inr (e, k) ↦ rw (k, on_event) (record { fits = (tt, tt) })
  ]

  AllFit-on_method :
      (s : State) (method : String) (params : Value) (now : ℕ) (io : Io)
      → AllFit (on_method J B o s method params now io)
  unfolding on_method
  AllFit-on_method s method params now io =
      AllFit-if (str_eq method "recv") _ _
        (AllFit-then _ _ (AllFit-on_recv (recv J B params) io (recv-MessageFits J L B params))
          (λ u. AllFit-none _))
        (AllFit-if (str_eq method "event") _ _
          (AllFit-then _ _ (AllFit-on_event params) (λ u. AllFit-none _))
          (AllFit-if (str_eq method "disconnect") _ _ (AllFit-none _)
            (AllFit-if (str_eq method "pong") _ _ (AllFit-none _) (AllFit-none _))))

  AllFit-on_value :
      (s : State) (value : Value) (now : ℕ) (io : Io) → AllFit (on_value J B o s value now io)
  unfolding on_value
  AllFit-on_value s value now io =
      elim (Option-cases (and_then (value_get J value "id") (as_str J))) [
        | inr (id, e) ↦ rw (e, on_value) (AllFit-on_response s value id now)
        | inl e ↦ elim (Option-cases (and_then (value_get J value "method") (as_str J))) [
          | inl e' ↦ rw (e, on_value, e') (record { fits = (tt, tt) })
          | inr (method, e') ↦ rw (e, on_value, e') (AllFit-on_method s method _ now io)
        ]
      ]

  AllFit-on_frame : (s : State) (f : Frame) (now : ℕ) (io : Io) → AllFit (on_frame J B o s f now io)
  unfolding on_frame on_text
  AllFit-on_frame s (text x) now io = elim (Result-cases (parse J x)) [
    | inl (value, e) ↦ rw (e, on_text) (AllFit-on_value s value now io)
    | inr (e', e) ↦ rw (e, on_text) (record { fits = (tt, tt) })
  ]
  AllFit-on_frame s ping now io =
      AllFit-then (flush_socket J io) _ (AllFit-flush_socket io) (λ u. AllFit-none _)
  AllFit-on_frame s pong now io = AllFit-none _
  AllFit-on_frame s binary now io = record { fits = (tt, tt) }
  AllFit-on_frame s closed now io = AllFit-none _

  AllFit-on_branch :
      (s : State) (gone : ℕ → Bool) (b : Branch J) → AllFit (on_branch J B o s gone b)
  unfolding on_branch on_timer on_command
  AllFit-on_branch s gone (timer_ready now later id io) = elim (Option-cases s.ping) [
    | inl e ↦
        rw (e, on_timer)
          (AllFit-if (leb s.next_ping now) _ _
            (AllFit-then (write_value J o (request J "ping" (json_object J J.empty) id) io) _
              (AllFit-write_value _ io) (λ u. AllFit-none _))
            (AllFit-none _))
    | inr (p, e) ↦ rw (e, on_timer) (AllFit-if (leb p.1 now) _ _ (AllFit-none _) (AllFit-none _))
  ]
  AllFit-on_branch s gone (command_ready none generation now io) = AllFit-none _
  AllFit-on_branch s gone (command_ready (some c) generation now io) =
      AllFit-if (gone c.reply) _ _ (AllFit-none _) (
        AllFit-if (not (c.generation == generation)) _ _ (record { fits = (tt, tt) })
          (AllFit-if (leb c.deadline now) _ _ (record { fits = (tt, tt) })
            (AllFit-then (write_value J o (request J "send" c.params c.id) io) _
              (AllFit-write_value _ io) (λ u. AllFit-none _))))
  AllFit-on_branch s gone (frame_ready f now io) = AllFit-on_frame s f now io

  expired : (ids : List String) (m : PendingMap) → All Fits (expire J ids m).0
  unfolding expire
  expired [] m = tt
  expired (id ∷ ids) m = elim (Option-cases (lookup id m)) [
    | inl e ↦ rw (e, expire) (expired ids m)
    | inr (p, e) ↦ rw (e, expire) (tt, expired ids (remove id m))
  ]

  AllFit-round : (s : State) (i : Input J) → AllFit (round J B o s i)
  unfolding round housekeep
  AllFit-round s i =
      AllFit-then (housekeep J s i) _
        (record { fits = expired (expired_ids i.now (retain_open i.closed s.pending)) _ })
        (λ s'. AllFit-on_branch s' i.closed_later i.branch)

  -- Over any run of a session, each message that it announces has a message ID and a channel ID, a
  -- sequence number of 64 bits and a channel type of 8 bits, and each SENDACK that it announces or
  -- hands to a sender has a sequence number of 64 bits, whatever numbers the server wrote.
  pub session-Fits : (s : State) (is : List (Input J)) → All Fits (session J B o s is).effects
  unfolding session
  session-Fits s [] = tt
  session-Fits s (i ∷ is) = elim (Result-cases (round J B o s i).result) [
    | inl (s', e) ↦
        rw (e, session)
          (All-append Fits (round J B o s i).effects _ (AllFit-round s i).fits (session-Fits s' is))
    | inr (x, e) ↦ rw (e, session) (AllFit-round s i).fits
  ]
