-- ===== src/Probe/Network/Control.antt =====
-- `control` of examples/network_acceptance.rs: the commands on a pair of clients, of which there is one at
-- a time, and what each phase asks for.
use wu_kong_easy_sdk_rust.Base.{
  ℕ, zero, suc, String, Bool, true, false, not, ◌||◌, Option, none, some, List, [], ◌∷◌, str_eq,
  if◌then◌else◌, unwrap_or,
}
use wu_kong_easy_sdk_rust.Json.{Json}
use wu_kong_easy_sdk_rust.Types.Failure.{Result, err, destroyed}
use wu_kong_easy_sdk_rust.Types.Options.{Options, default_options, from_secs}
use wu_kong_easy_sdk_rust.Types.Messages.{ConnectResult, SendResult, Event}
use wu_kong_easy_sdk_rust.Types.Decode.{read_bool}
use wu_kong_easy_sdk_rust.Probe.{Fault, said, Verdict, pass, failed, ◌>>=◌, fail_if}
use wu_kong_easy_sdk_rust.Probe.Observe.{Drained}
use wu_kong_easy_sdk_rust.Probe.Interruption.{Arrivals}
use wu_kong_easy_sdk_rust.Probe.Control.{Next, goes_on, stops, field, control}
use wu_kong_easy_sdk_rust.Probe.Network.{
  quiet, disconnected, recovered, raise, Round, exchange_rounds, lag_rounds, missed_by, blocked_ack,
}

-- The options of both clients, over the bytes of the file that WK_TEST_CA_DER names.
unfoldable pub pair_options : List ℕ → Options
unfolding default_options
pair_options certificate = record default_options {
  additional_root_certificates = certificate ∷ [];
  connect_timeout = from_secs 2;
  request_timeout = 800_000_000;
  ping_interval = 250_000_000;
  pong_timeout = from_secs 3;
  reconnect_delay = 100_000_000;
  max_reconnect_delay = 300_000_000;
  max_reconnect_attempts = 30;
  max_in_flight = 2;
  event_capacity = 16;
}

-- The items of a loop over `0..count`, from an index on.
unfoldable pub items {ℓ} : {A : Type ℓ} → ℕ → ℕ → (ℕ → A) → List A
items zero index item = []
items (suc count) index item = item index ∷ items count (suc index) item

abbrev pub is_destroyed : Result ConnectResult → Bool
is_destroyed (err destroyed) = true
is_destroyed _ = false

-- The pair while there is one, by its counter of deliveries.
abbrev pub Owned : Type 0
Owned = Option ℕ

module _ (J : Json) where
  open J use {Value}

  module _ (same : Value → Value → Bool) where
    -- A line, and what its command meets: whether the pair can be made, how its clients connect and how
    -- they do once destroyed, the rounds of "exchange" and of "lag", the window of `quiet`, what "blocked_ack"
    -- sees (whether the first two sends are still pending when they have been polled), what the slow
    -- observer yields, and what the first inbox yields in "disconnected" and in "recovered".
    pub record Doing : Type 0 where
      pub text : String
      pub created : Verdict (Unit {0})
      pub connects : ℕ → Result ConnectResult
      pub connects_again : ℕ → Result ConnectResult
      pub round : ℕ → Round J same
      pub lag_round : ℕ → Round J same × Drained J
      pub slow : Verdict (Event J)
      pub window : List (List (Drained J) × ℕ)
      pub pending : Bool
      pub rejected : Result SendResult
      pub first : Result SendResult
      pub second : Result SendResult
      pub payload_a : Value
      pub payload_b : Value
      pub inbox : Arrivals J
      pub events : List (Event J)
      pub states : List (Event J × Bool)
      pub end : Fault

    -- "new"
    unfoldable pub make_pair : Owned → Doing → Verdict (Next Owned)
    make_pair (some delivered) d = failed (said "previous clients still owned")
    make_pair none d = d.created >>= λ made. raise J same (d.connects 0) >>= λ a.
        raise J same (d.connects 1) >>= λ b. pass (goes_on (some 0))

    -- "destroy"
    unfoldable pub destroy_pair : Owned → Doing → Verdict (Next Owned)
    destroy_pair none d = failed (said "missing clients")
    destroy_pair (some delivered) d =
        fail_if (not (is_destroyed (d.connects_again 0)) || not (is_destroyed (d.connects_again 1)))
          "destroyed client remained usable"
        >>= λ gone. pass (goes_on none)

    -- "stop"
    unfoldable pub stop_probe : Owned → Verdict (Next Owned)
    stop_probe (some delivered) = failed (said "stop before destroy")
    stop_probe none = pass stops

    -- `self.quiet().await?` at the end of a phase.
    abbrev pub and_quiet : Verdict ℕ → Doing → Option (Verdict ℕ)
    and_quiet (failed f) d = some (failed f)
    and_quiet (pass n) d = elim (quiet J d.window) [
      | none ↦ none
      | some v ↦ some (v >>= λ silence. pass n)
    ]

    -- `Pair::exchange`
    unfoldable pub exchange_phase : (count : ℕ) → ℕ → Doing → Option (Verdict ℕ)
    exchange_phase count delivered d =
        and_quiet (exchange_rounds J same 0 (items count 0 d.round) delivered) d

    -- `Pair::lag`
    unfoldable pub lag_phase : ℕ → Doing → Option (Verdict ℕ)
    lag_phase delivered d =
        and_quiet
          (lag_rounds J same (items 48 0 d.lag_round) delivered >>= λ n.
            missed_by J same d.slow >>= λ missed. pass n)
          d

    -- `Pair::blocked_ack`
    unfoldable pub blocked_phase : ℕ → Doing → Verdict ℕ
    blocked_phase delivered d =
        fail_if (not d.pending) "blocked request completed before admission check" >>= λ held.
        blocked_ack J same d.rejected d.first d.second d.payload_a d.payload_b d.inbox delivered

    abbrev pub heartbeat_of : Value → Bool
    heartbeat_of command = unwrap_or (field J command "heartbeat" (read_bool J)) false

    -- The operations on a pair.
    unfoldable pub on_phase : ℕ → Value → String → Doing → Option (Verdict ℕ)
    on_phase delivered command op d =
        if str_eq op "exchange"
        then exchange_phase 2 delivered d
        else if str_eq op "blocked_ack"
        then some (blocked_phase delivered d)
        else if str_eq op "lag"
        then lag_phase delivered d
        else if str_eq op "quiet" || str_eq op "arm"
        then and_quiet (pass delivered) d
        else if str_eq op "disconnected"
        then some (disconnected J (heartbeat_of command) d.events d.end >>= λ lost. pass delivered)
        else if str_eq op "recovered"
        then some (recovered J d.states d.end >>= λ back. pass delivered)
        else some (failed (said "unknown operation"))

    abbrev pub keeps_pair : Option (Verdict ℕ) → Option (Verdict (Next Owned))
    keeps_pair none = none
    keeps_pair (some v) = some (v >>= λ n. pass (goes_on (some n)))

    unfoldable pub handle_network : Owned → Value → String → Doing → Option (Verdict (Next Owned))
    handle_network pair command op d =
        if str_eq op "new"
        then some (make_pair pair d)
        else if str_eq op "destroy"
        then some (destroy_pair pair d)
        else if str_eq op "stop"
        then some (stop_probe pair)
        else elim pair [
          | none ↦ some (failed (said "missing clients"))
          | some delivered ↦ keeps_pair (on_phase delivered command op d)
        ]

    abbrev pub control_network : List Doing → Option (Verdict (Unit {0}))
    control_network ds = control J Doing.text handle_network none ds
