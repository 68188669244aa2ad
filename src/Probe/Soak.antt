-- ===== src/Probe/Soak.antt =====
-- `run` of examples/acceptance.rs: one client sends to a peer for a number of seconds, over many
-- interruptions, and judges the echoes. The observer task is an explicit fold over what its receiver
-- yields; how far it has come when the loop reads its counters is an input.
pub mod Echo
pub mod Account
pub mod Window
pub mod Evidence
use wu_kong_easy_sdk_rust.Base.{
  ℕ, ◌+◌, ◌*◌, ◌%◌, ◌^◌, String, Bool, true, false, not, ◌||◌, ◌&&◌, Option, none, some, List, [],
  ◌∷◌, any, ltb, leb, ◌==◌, str_eq, if◌then◌else◌, and_then,
}
use wu_kong_easy_sdk_rust.Base.Int.{pos, int_eq}
use wu_kong_easy_sdk_rust.Json.{Json}
use wu_kong_easy_sdk_rust.Types.Failure.{Error, Result, ok, err, disconnected, protocol}
use wu_kong_easy_sdk_rust.Types.Options.{Options, default_options, from_secs}
use wu_kong_easy_sdk_rust.Types.Messages.{ConnectResult, SendResult, RecvMessage, Event}
use wu_kong_easy_sdk_rust.Types.Decode.{as_str, value_get, json_string, json_object}
use wu_kong_easy_sdk_rust.Protocol.Outbound.{json_u64}
use wu_kong_easy_sdk_rust.Probe.{Fault, said, raised, Verdict, pass, failed, ◌>>=◌, fail_if}

-- `seconds` must be from 10 to 900.
abbrev pub bad_duration : ℕ → Bool
bad_duration seconds = not (leb 10 seconds && leb seconds 900)

-- The options of the client, over the bytes of the file that WK_TEST_CA_DER names, if it is set.
unfoldable pub soak_options : Option (List ℕ) → Options
unfolding default_options
soak_options certificate = record default_options {
  ping_interval = 250_000_000;
  pong_timeout = from_secs 1;
  connect_timeout = from_secs 3;
  request_timeout = from_secs 3;
  max_reconnect_attempts = 20;
  reconnect_delay = 100_000_000;
  max_reconnect_delay = 500_000_000;
  additional_root_certificates = elim certificate [ none ↦ [] | some bytes ↦ bytes ∷ [] ];
}

-- A counter of type `u64`.
abbrev pub one_more : ℕ → ℕ
one_more n = (n + 1) % 2 ^ 64

pub record Observed : Type 0 where
  pub connects : ℕ
  pub disconnects : ℕ
  pub failures : ℕ
  pub lagged : Bool

-- `HashSet<String>`
abbrev pub StringSet : Type 0
StringSet = List String

unfoldable pub holds : StringSet → String → Bool
holds set s = any (λ k. str_eq k s) set

-- `insert`; whether the string is new is `not (holds …)`.
abbrev pub include : String → StringSet → StringSet
include s set = if holds set s then set else s ∷ set

-- How an attempt ends: `timeout(…, attempt).await`.
pub data Ended : Type 0 where
  echoed timed_out : Ended
  broken : Error → Ended

module _ (J : Json) where
  open J use {Value, empty}

  -- What the receiver of the observer yields: `gone` is any error but that it lags.
  pub data Heard : Type 0 where
    heard : Event J → Heard
    missed gone : Heard

  -- The observer: its counters, and whether it has not stopped. A message goes into the channel
  -- of the main loop, whose receiver lives until the observer is aborted.
  pub record Observer : Type 0 where
    pub observed : Observed
    pub runs : Bool

  abbrev pub fresh_observer : Observer
  fresh_observer = record {
    observed = record { connects = 0; disconnects = 0; failures = 0; lagged = false };
    runs = true;
  }

  unfoldable pub on_heard : Observed → Heard → Observer
  on_heard n (heard (Event.connect c)) = record {
    observed = record n { connects = one_more n.connects };
    runs = true;
  }
  on_heard n (heard (Event.disconnect r)) = record {
    observed = record n { disconnects = one_more n.disconnects };
    runs = true;
  }
  on_heard n (heard (Event.error e)) = record {
    observed = record n { failures = one_more n.failures };
    runs = true;
  }
  on_heard n (heard _) = record { observed = n; runs = true }
  on_heard n missed = record { observed = record n { lagged = true }; runs = false }
  on_heard n gone = record { observed = n; runs = false }

  unfoldable pub listen : Observer → List Heard → Observer
  listen obs [] = obs
  listen obs (h ∷ hs) = if obs.runs then listen (on_heard obs.observed h) hs else obs

  -- `{"type":1,"content":"WSS 你好 🦀","nonce":nonce}`
  unfoldable pub soak_payload : String → Value
  soak_payload nonce = json_object J (
      J.insert
        (J.insert (J.insert empty "type" (json_u64 J 1)) "content" (json_string J "WSS 你好 🦀"))
        "nonce" (json_string J nonce))

  -- What `incoming.recv()` yields in turn; where the attempt is cut off by its timeout it does not
  -- yield. The end of the list is the end of the channel.
  pub data Arrival : Type 0 where
    arrived : RecvMessage J → Arrival
    cut : Arrival

  -- An attempt leaves the nonces received and what is still to arrive.
  pub record Attempt : Type 0 where
    pub ended : Ended
    pub received : StringSet
    pub incoming : List Arrival

  -- The local variables of the loop, with the observer and the channel.
  pub record Soak : Type 0 where
    pub sent : ℕ
    pub completed : ℕ
    pub interrupted : ℕ
    pub last_recovered : ℕ
    pub received : StringSet
    pub issued : StringSet
    pub observer : Observer
    pub incoming : List Arrival

  abbrev pub initial : List Arrival → Soak
  initial incoming = record {
    sent = 0;
    completed = 0;
    interrupted = 0;
    last_recovered = 0;
    received = [];
    issued = [];
    observer = fresh_observer;
    incoming = incoming;
  }

  -- One turn: the time since the start, whether the client is connected, what the observer hears
  -- before the turn, the nonce drawn, how the send ends, what the observer hears until the
  -- attempt has ended, and whether the client is connected then.
  pub record SoakTurn : Type 0 where
    pub elapsed : ℕ
    pub connected : Bool
    pub heard_before : List Heard
    pub nonce : String
    pub outcome : Option (Result SendResult)
    pub heard_during : List Heard
    pub connected_after : Bool

  module _ (same : Value → Value → Bool) where
    abbrev pub nonce_of : RecvMessage J → Option String
    nonce_of m = and_then (value_get J m.payload "nonce") (as_str J)

    abbrev pub ends : Ended → StringSet → List Arrival → Attempt
    ends e received rest = record { ended = e; received = received; incoming = rest }

    -- A message whose nonce is `candidate`; `rest_of` is the rest of the loop.
    abbrev pub on_echo :
        (peer : String) (issued : StringSet) (payload : Value)
        → RecvMessage J
        → String
        → StringSet
        → List Arrival
        → Attempt
        → Attempt
    on_echo peer issued payload m candidate received rest rest_of =
        if not (str_eq m.from_uid peer)
          || not (holds issued candidate)
          || holds received candidate
          || not (same m.payload (soak_payload candidate))
        then ends (broken (protocol "unexpected, duplicate or corrupt echo")) received rest
        else if same m.payload payload
        then ends echoed (include candidate received) rest
        else rest_of

    -- The loop of an attempt. The nonces of an attempt that fails are not looked at again.
    unfoldable pub await_echo :
        (peer : String) (issued : StringSet) (payload : Value) → StringSet → List Arrival → Attempt
    await_echo peer issued payload received [] = ends (broken disconnected) received []
    await_echo peer issued payload received (cut ∷ rest) = ends timed_out received rest
    await_echo peer issued payload received (arrived m ∷ rest) = elim (nonce_of m) [
      | none ↦ ends (broken (protocol "missing nonce")) received rest
      | some candidate ↦
          on_echo peer issued payload m candidate received rest
            (await_echo peer issued payload (include candidate received) rest)
    ]

    -- `outcome` is that of `send`, none if the timeout comes first.
    unfoldable pub attempt :
        (peer : String) (issued : StringSet) (payload : Value)
        → Option (Result SendResult)
        → StringSet
        → List Arrival
        → Attempt
    attempt peer issued payload none received incoming = ends timed_out received incoming
    attempt peer issued payload (some (err e)) received incoming = ends (broken e) received incoming
    attempt peer issued payload (some (ok ack)) received incoming =
        if not (int_eq ack.reason_code (pos 1))
        then ends (broken (protocol "non-success ACK")) received incoming
        else await_echo peer issued payload received incoming

    -- `Ok(Ok(()))`
    abbrev pub complete : Soak → Soak
    complete s = record s {
      completed = one_more s.completed;
      last_recovered = s.observer.observed.connects;
    }

    -- Any other failure must come with an interruption that was observed; the text is shortened.
    unfoldable pub interrupt : Soak → (before : ℕ) → (still_connected : Bool) → Verdict Soak
    interrupt s before still_connected =
        fail_if (still_connected && (s.observer.observed.disconnects == before))
          "unexplained online send/echo failure"
        >>= λ seen. pass (record s { interrupted = one_more s.interrupted })

    unfoldable pub conclude : Soak → (before : ℕ) → Bool → Ended → Verdict Soak
    conclude s before still_connected echoed = pass (complete s)
    conclude s before still_connected timed_out = interrupt s before still_connected
    conclude s before still_connected (broken (protocol reason)) = failed (raised (protocol reason))
    conclude s before still_connected (broken e) = interrupt s before still_connected

    abbrev pub hear : Soak → List Heard → Soak
    hear s hs = record s { observer = listen s.observer hs }

    -- The state when an attempt has ended.
    abbrev pub attempted : (peer : String) → Soak → SoakTurn → Attempt → Soak
    attempted peer s t a = record s {
      sent = one_more s.sent;
      received = a.received;
      issued = include t.nonce s.issued;
      incoming = a.incoming;
      observer = listen s.observer t.heard_during;
    }

    -- A turn with a connected client.
    unfoldable pub exchange : (peer : String) → Soak → SoakTurn → Verdict Soak
    exchange peer s t =
        let a =
          attempt peer (include t.nonce s.issued) (soak_payload t.nonce) t.outcome s.received
            s.incoming in
        conclude (attempted peer s t a) s.observer.observed.disconnects t.connected_after a.ended

    unfoldable pub soak_turn : (peer : String) → Soak → SoakTurn → Verdict Soak
    soak_turn peer s t =
        let s' = hear s t.heard_before in if t.connected then exchange peer s' t else pass s'

    -- `while started.elapsed() < Duration::from_secs(seconds)`, none while it goes on.
    unfoldable pub soak :
        (peer : String) (seconds : ℕ) → Soak → List SoakTurn → Option (Verdict Soak)
    soak peer seconds s [] = none
    soak peer seconds s (t ∷ ts) =
        if ltb t.elapsed (from_secs seconds)
        then elim (soak_turn peer s t) [
          | failed f ↦ some (failed f)
          | pass s' ↦ soak peer seconds s' ts
        ]
        else some (pass (hear s t.heard_before))

    -- The last test.
    unfoldable pub suffices : ℕ → Soak → Verdict Soak
    suffices seconds s =
        let n = s.observer.observed in
        fail_if
          (ltb s.completed seconds
            || ltb n.connects 4
            || ltb n.disconnects 3
            || not (s.last_recovered == n.connects)
            || n.lagged)
          "insufficient sustained recovery evidence"
        >>= λ enough. pass s

    abbrev pub concluding : ℕ → Option (Verdict Soak) → Option (Verdict Soak)
    concluding seconds none = none
    concluding seconds (some v) = some (v >>= λ s. suffices seconds s)

    -- The whole run, from how the first `connect` ends.
    unfoldable pub run_soak :
        (peer : String) (seconds : ℕ)
        → Result ConnectResult
        → List Arrival
        → List SoakTurn
        → Option (Verdict Soak)
    run_soak peer seconds opened incoming ts =
        if bad_duration seconds then some (failed (said "invalid duration")) else elim opened [
          | err e ↦ some (failed (raised e))
          | ok r ↦ concluding seconds (soak peer seconds (initial incoming) ts)
        ]
