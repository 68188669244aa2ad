-- ===== src/Worker/Establish.antt =====
-- `Worker::establish` of src/client.rs: opening a socket and authenticating on it. The deadline of
-- the whole is met where the frames that arrive in time end.
use wu_kong_easy_sdk_rust.Base.{
  ℕ, String, ◌≡◌, ◌↔◌, refl, false, not, Option, Bool, eq_iff, none, some, List, [], ◌∷◌, ◌++◌, All,
  and_then, arith, str_eq, ap, ◌∙◌,
}
use wu_kong_easy_sdk_rust.Json.{Json}
use wu_kong_easy_sdk_rust.Types.Failure.{
  Error, bind-ok_iff, Result, ok, err, timeout, transport, protocol, reject_if, ◌>>=◌, ◌>>◌,
}
use wu_kong_easy_sdk_rust.Types.Options.{Options}
use wu_kong_easy_sdk_rust.Types.Device.{Auth}
use wu_kong_easy_sdk_rust.Types.Messages.{ConnectResult}
use wu_kong_easy_sdk_rust.Types.Decode.{as_str, value_get, read_connect_result}
use wu_kong_easy_sdk_rust.Protocol.Normalize.{decode}
use wu_kong_easy_sdk_rust.Protocol.Outbound
use wu_kong_easy_sdk_rust.Protocol.Inbound.{parse, response}
use wu_kong_easy_sdk_rust.Session.State.{Io, completes, fails, io_result, write_value}
use wu_kong_easy_sdk_rust.Session.Incoming.{Frame, text, ping, pong, binary, closed}

-- A frame that does not decide the authentication: a pong, or a ping that is flushed.
abbrev pub IsIdle : Frame × Io → Type 0
IsIdle (ping, completes) = Unit
IsIdle (pong, io) = Unit
IsIdle _ = ⊥

module _ (J : Json) where
  open J use {Value}

  -- The first text must be the answer to the request `id`.
  unfoldable pub authenticated : String → String → Result ConnectResult
  authenticated id t = do
    value ← parse J t
    reject_if
        (not (elim (and_then (value_get J value "id") (as_str J)) [
          | none ↦ false
          | some answered ↦ str_eq answered id
        ]))
        (protocol "unexpected authentication response")
    result ← response J value
    decode J (read_connect_result J) result

  -- Each frame comes with the fate of the flush that it may cause.
  unfoldable pub handshake : String → List (Frame × Io) → Result ConnectResult
  handshake id [] = err timeout
  handshake id ((text t, io) ∷ fs) = authenticated id t
  handshake id ((ping, completes) ∷ fs) = handshake id fs
  handshake id ((ping, fails) ∷ fs) = err transport
  handshake id ((pong, io) ∷ fs) = handshake id fs
  handshake id ((binary, io) ∷ fs) = err transport
  handshake id ((closed, io) ∷ fs) = err transport

  -- `opening` and `writing` are the fates of the connection and of the authentication request.
  unfoldable pub establish :
      Options → Auth → ℕ → String → Io → Io → List (Frame × Io) → Result ConnectResult
  establish o auth now_millis id opening writing frames =
      io_result J opening
      >> ((write_value J o (Outbound.connect J auth now_millis id) writing).result
          >> handshake id frames)

  -- A text that is a JSON-RPC response under the ID of the request, with a result that reads as one of a
  -- connection.
  pub record IsAccepted (id t : String) (r : ConnectResult) : Type 0 where
    pub value : Value
    pub parses : parse J t ≡ ok value
    pub named : and_then (value_get J value "id") (as_str J) ≡ some id
    pub result : Value
    pub answers : response J value ≡ ok result
    pub reads : decode J (read_connect_result J) result ≡ ok r

  is_named :
      (o : Option String) (id : String)
      → (not (elim o [ none ↦ false | some answered ↦ str_eq answered id ]) ≡ false) ↔ (o ≡ some id)
  is_named none id = ground arith
  is_named (some answered) id = ground (arith, eq_iff answered id)

  guarded_iff :
      {A : Type 0} (b : Bool) (e : Error) (m : Result A) (a : A)
      → ((reject_if b e >> m) ≡ ok a) ↔ ((b ≡ false) × (m ≡ ok a))
  guarded_iff b e m a = ground arith

  pub authenticated-ok_iff :
      (id t : String) (r : ConnectResult) → (authenticated id t ≡ ok r) ↔ IsAccepted id t r
  unfolding authenticated
  authenticated-ok_iff id t r = (
    λ h.
        let (value, parses, h1) = (bind-ok_iff (parse J t) _ r).0 h in
        let (named, h2) = (guarded_iff _ _ _ r).0 h1 in
        let (result, answers, reads) = (bind-ok_iff (response J value) _ r).0 h2 in
        record {
          value = value;
          parses = parses;
          named = (is_named _ id).0 named;
          result = result;
          answers = answers;
          reads = reads;
        },
    λ a. (bind-ok_iff (parse J t) _ r).1 (
      a.value,
      a.parses,
      (guarded_iff _ _ _ r).1 (
        (is_named _ id).1 a.named,
        (bind-ok_iff (response J a.value) _ r).1 (a.result, a.answers, a.reads),
      ),
    ),
  )

  -- What the frames must be for the handshake to give a result.
  abbrev pub Answers : String → List (Frame × Io) → ConnectResult → Type 0
  Answers id frames r =
      (before : List (Frame × Io)) × (t : String) × (io : Io) × (rest : List (Frame × Io)) × (frames
        ≡ before ++ ((text t, io) ∷ rest))
      × All IsIdle before
      × IsAccepted id t r

  handshake-skip :
      (id : String) (before fs : List (Frame × Io))
      → All IsIdle before
      → handshake id (before ++ fs) ≡ handshake id fs
  unfolding handshake
  handshake-skip id [] fs h = refl
  handshake-skip id ((ping, completes) ∷ before) fs h = handshake-skip id before fs h.1
  handshake-skip id ((pong, io) ∷ before) fs h = handshake-skip id before fs h.1
  handshake-skip id ((text t, io) ∷ before) fs h = elim (h.0) [ ]
  handshake-skip id ((ping, fails) ∷ before) fs h = elim (h.0) [ ]
  handshake-skip id ((binary, io) ∷ before) fs h = elim (h.0) [ ]
  handshake-skip id ((closed, io) ∷ before) fs h = elim (h.0) [ ]

  one_more :
      (id : String) (f : Frame × Io) (fs : List (Frame × Io)) (r : ConnectResult)
      → IsIdle f
      → Answers id fs r
      → Answers id (f ∷ fs) r
  one_more id f fs r idle (before, t, io, rest, same, all, answered) =
      (f ∷ before, t, io, rest, ap (λ gs. f ∷ gs) same, (idle, all), answered)

  Answers-handshake :
      (id : String) (frames : List (Frame × Io)) (r : ConnectResult)
      → handshake id frames ≡ ok r
      → Answers id frames r
  unfolding handshake
  Answers-handshake id [] r h = ground arith
  Answers-handshake id ((text t, io) ∷ fs) r h =
      ([], t, io, fs, refl, tt, (authenticated-ok_iff id t r).0 h)
  Answers-handshake id ((ping, completes) ∷ fs) r h =
      one_more id (ping, completes) fs r tt (Answers-handshake id fs r h)
  Answers-handshake id ((ping, fails) ∷ fs) r h = ground arith
  Answers-handshake id ((pong, io) ∷ fs) r h =
      one_more id (pong, io) fs r tt (Answers-handshake id fs r h)
  Answers-handshake id ((binary, io) ∷ fs) r h = ground arith
  Answers-handshake id ((closed, io) ∷ fs) r h = ground arith

  -- The handshake gives a result exactly if, after pings that are flushed and pongs only, a text comes
  -- in time that parses as JSON-RPC, has the ID of the request, and is a response whose result reads as
  -- that of a connection: any other frame before it, and any other first text, ends it.
  pub handshake-ok_iff :
      (id : String) (frames : List (Frame × Io)) (r : ConnectResult)
      → (handshake id frames ≡ ok r) ↔ Answers id frames r
  unfolding handshake
  handshake-ok_iff id frames r = (
    Answers-handshake id frames r,
    λ (before, t, io, rest, same, all, answered).
        ap (handshake id) same
        ∙ handshake-skip id before ((text t, io) ∷ rest) all
        ∙ (authenticated-ok_iff id t r).1 answered,
  )
