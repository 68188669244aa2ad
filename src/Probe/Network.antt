-- ===== src/Probe/Network.antt =====
-- The phases of `Pair` in examples/network_acceptance.rs. What the two inboxes yield is an input.
pub mod Control
pub mod Exchange
pub mod Phases
pub mod Kept
pub mod Moves
pub mod Orderly
use wu_kong_easy_sdk_rust.Base.{
  ℕ, suc, ◌+◌, ◌%◌, String, Bool, true, false, not, ◌||◌, ◌&&◌, Option, none, some, List, [], ◌∷◌,
  leb, ◌==◌, str_eq, if◌then◌else◌,
}
use wu_kong_easy_sdk_rust.Base.Int.{pos, int_eq}
use wu_kong_easy_sdk_rust.Json.{Json}
use wu_kong_easy_sdk_rust.Types.Failure.{Result, ok, err, timeout, backpressure}
use wu_kong_easy_sdk_rust.Types.Text.{is_empty}
use wu_kong_easy_sdk_rust.Types.Device.{channel_code, person}
use wu_kong_easy_sdk_rust.Types.Messages.{SendResult, RecvMessage, DisconnectReason, Event}
use wu_kong_easy_sdk_rust.Probe.{Fault, said, raised, lagged, Verdict, pass, failed, ◌>>=◌, fail_if}
use wu_kong_easy_sdk_rust.Probe.Observe.{Drained}
use wu_kong_easy_sdk_rust.Probe.Interruption.{Arrivals, silent, all_silent}

-- `USERS`
abbrev pub user : ℕ → String
user index = if index == 0 then "network-alice" else "network-bob"

module _ (J : Json) where
  open J use {Value}

  -- The next message of an inbox, with what is left of it.
  unfoldable pub next_message : Arrivals J → Verdict (RecvMessage J × Arrivals J)
  next_message ([], end) = failed end
  next_message (Event.message m ∷ es, end) = pass (m, (es, end))
  next_message (_ ∷ es, end) = next_message (es, end)

  -- One turn of `quiet`: the inboxes, and the time since its start.
  unfoldable pub quiet : List (List (Drained J) × ℕ) → Option (Verdict (Unit {0}))
  quiet [] = none
  quiet ((inboxes, elapsed) ∷ turns) =
      elim (all_silent J "unexpected late delivery or automatic replay" inboxes) [
        | failed f ↦ some (failed f)
        | pass u ↦ let rest = quiet turns in if leb 150000000 elapsed then some (pass tt) else rest
      ]

  abbrev pub is_heartbeat : DisconnectReason → Bool
  is_heartbeat DisconnectReason.heartbeat_timeout = true
  is_heartbeat _ = false

  unfoldable pub disconnected : (heartbeat : Bool) → List (Event J) → Fault → Verdict (Unit {0})
  disconnected heartbeat [] end = failed end
  disconnected heartbeat (Event.disconnect r ∷ es) end =
      fail_if (heartbeat && not (is_heartbeat r)) "blackhole did not cause a heartbeat timeout"
  disconnected heartbeat (Event.message m ∷ es) end = failed (said "unexpected fault-phase message")
  disconnected heartbeat (_ ∷ es) end = disconnected heartbeat es end

  -- Each event comes with whether the client is connected when it is looked at.
  unfoldable pub recovered : List (Event J × Bool) → Fault → Verdict (Unit {0})
  recovered [] end = failed end
  recovered ((Event.connect c, is_connected) ∷ es) end =
      let rest = recovered es end in if is_connected then pass tt else rest
  recovered ((Event.message m, is_connected) ∷ es) end =
      failed (said "old SEND replayed on recovery")
  recovered ((_, is_connected) ∷ es) end = recovered es end

  module _ (same : Value → Value → Bool) where
    -- A delivery from the user `from`, and the counter of deliveries.
    unfoldable pub receive : ℕ → Value → Arrivals J → ℕ → Verdict (RecvMessage J × Arrivals J × ℕ)
    receive from payload inbox delivered = next_message inbox >>= λ (m, left).
        fail_if
          (not (str_eq m.from_uid (user from))
            || not (str_eq m.channel_id (user from))
            || not (m.channel_type == channel_code person)
            || not (same m.payload payload)
            || is_empty m.message_id
            || str_eq m.message_id "0"
            || m.message_seq == 0)
          "unexpected, duplicate or corrupt delivery"
        >>= λ fine. pass (m, left, delivered + 1)

    abbrev pub identifies : SendResult → RecvMessage J → Bool
    identifies ack m = str_eq ack.message_id m.message_id && (ack.message_seq == m.message_seq)

    -- `?` on a result of the library.
    abbrev pub raise {ℓ} : {A : Type ℓ} → Result A → Verdict A
    raise (ok a) = pass a
    raise (err e) = failed (raised e)

    -- A round of `exchange` or of `lag`: the payload, how the send ends, and the inbox of the other user.
    pub record Round : Type 0 where
      pub payload : Value
      pub outcome : Result SendResult
      pub inbox : Arrivals J

    unfoldable pub exchange_round : ℕ → Round → ℕ → Verdict ℕ
    exchange_round from r delivered = raise r.outcome >>= λ ack.
        receive from r.payload r.inbox delivered >>= λ (m, left, count).
        fail_if (not (int_eq ack.reason_code (pos 1)) || not (identifies ack m))
          "SENDACK does not identify the delivered message"
        >>= λ fine. pass count

    -- The rounds from an index on; the users take turns.
    unfoldable pub exchange_rounds : ℕ → List Round → ℕ → Verdict ℕ
    exchange_rounds index [] delivered = pass delivered
    exchange_rounds index (r ∷ rs) delivered =
        exchange_round (index % 2) r delivered >>= λ count. exchange_rounds (suc index) rs count

    -- The rounds of `lag`, all from the first user, whose own inbox must stay silent.
    unfoldable pub lag_rounds : List (Round × Drained J) → ℕ → Verdict ℕ
    lag_rounds [] delivered = pass delivered
    lag_rounds ((r, (es, end)) ∷ rs) delivered = raise r.outcome >>= λ ack.
        receive 0 r.payload r.inbox delivered >>= λ (m, left, count).
        fail_if (not (identifies ack m)) "slow-observer phase metadata mismatch" >>= λ fine.
        silent J "unexpected lag-phase recipient" es end >>= λ alone. lag_rounds rs count

    -- What `try_recv` of the slow observer must say.
    abbrev pub missed_by : Verdict (Event J) → Verdict ℕ
    missed_by (failed (lagged missed)) =
        if leb 32 missed
        then pass missed
        else failed (said "slow observer did not explicitly report Lagged")
    missed_by _ = failed (said "slow observer did not explicitly report Lagged")

    abbrev pub is_backpressure : Result SendResult → Bool
    is_backpressure (err backpressure) = true
    is_backpressure _ = false

    abbrev pub is_timed_out : Result SendResult → Bool
    is_timed_out (err timeout) = true
    is_timed_out _ = false

    -- `blocked_ack`, once its first two sends are under way: the third is refused, both messages arrive,
    -- and the two sends time out.
    unfoldable pub blocked_ack :
        (rejected first second : Result SendResult) (payload_a payload_b : Value)
        → Arrivals J
        → ℕ
        → Verdict ℕ
    blocked_ack rejected first second payload_a payload_b inbox delivered =
        fail_if (not (is_backpressure rejected)) "full admission did not return Backpressure"
        >>= λ a. receive 0 payload_a inbox delivered >>= λ (m, left, count).
            receive 0 payload_b left count >>= λ (m', left', count').
            fail_if (not (is_timed_out first) || not (is_timed_out second))
              "lost SENDACK did not preserve timeout semantics"
            >>= λ b. pass count'
