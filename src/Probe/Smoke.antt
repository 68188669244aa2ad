-- ===== src/Probe/Smoke.antt =====
-- examples/roundtrip.rs: two rounds of a message to a peer and back, with a reconnect between them. An
-- assertion that fails stands as a failure with its own text.
pub mod Echoes
use wu_kong_easy_sdk_rust.Base.{
  ℕ, suc, String, Bool, true, false, not, ◌||◌, ◌&&◌, Option, none, some, List, [], ◌∷◌, ◌==◌,
  str_eq, if◌then◌else◌,
}
use wu_kong_easy_sdk_rust.Base.Int.{pos, int_eq}
use wu_kong_easy_sdk_rust.Json.{Json}
use wu_kong_easy_sdk_rust.Types.Failure.{Result, ok, err}
use wu_kong_easy_sdk_rust.Types.Options.{Options, default_options, from_secs}
use wu_kong_easy_sdk_rust.Types.Messages.{ConnectResult, SendResult, RecvMessage, Event}
use wu_kong_easy_sdk_rust.Types.Decode.{json_string, json_object}
use wu_kong_easy_sdk_rust.Protocol.Outbound.{json_u64}
use wu_kong_easy_sdk_rust.Probe.{Fault, said, Verdict, pass, failed, ◌>>=◌, fail_if}
use wu_kong_easy_sdk_rust.Probe.Interruption.{Arrivals}
use wu_kong_easy_sdk_rust.Probe.Network.{raise}

unfoldable pub smoke_options : Options
unfolding default_options
smoke_options = record default_options { ping_interval = 50_000_000; pong_timeout = from_secs 2 }

module _ (J : Json) where
  open J use {Value, empty, insert}

  -- `{"type":1,"content":"你好 Rust 🦀","nonce":nonce}`
  unfoldable pub smoke_payload : String → Value
  smoke_payload nonce = json_object J (
      insert (insert (insert empty "type" (json_u64 J 1)) "content" (json_string J "你好 Rust 🦀"))
        "nonce" (json_string J nonce))

  module _ (same : Value → Value → Bool) where
    -- `receive`: what is left of the inbox after the first message from the sender with the payload.
    unfoldable pub await_match :
        (sender : String) (payload : Value) → Arrivals J → Verdict (Arrivals J)
    await_match sender payload ([], end) = failed end
    await_match sender payload (Event.message m ∷ es, end) =
        let rest = await_match sender payload (es, end) in
        if str_eq m.from_uid sender && same m.payload payload then pass (es, end) else rest
    await_match sender payload (_ ∷ es, end) = await_match sender payload (es, end)

    -- The inboxes of the client and of the peer, if this program runs one.
    pub record Inboxes : Type 0 where
      pub incoming : Arrivals J
      pub peer_incoming : Option (Arrivals J)

    -- A round: the nonce, how the sends of the client and of the peer end, whether the client is connected
    -- after the pause, and, for the first round, after `disconnect`, and how it connects again.
    pub record Leg : Type 0 where
      pub nonce : String
      pub outcome : Result SendResult
      pub peer_outcome : Result SendResult
      pub connected : Bool
      pub still_connected : Bool
      pub reconnects : Result ConnectResult

    -- The part of the peer.
    unfoldable pub reply_of_peer :
        (uid : String) (payload : Value) → Leg → Option (Arrivals J) → Verdict (Option (Arrivals J))
    reply_of_peer uid payload l none = pass none
    reply_of_peer uid payload l (some inbox) = await_match uid payload inbox >>= λ left.
        raise J same l.peer_outcome >>= λ sent. pass (some left)

    unfoldable pub reconnect_between : (index : ℕ) → Leg → Verdict (Unit {0})
    reconnect_between index l =
        if index == 0
        then (fail_if l.still_connected "still connected" >>= λ gone.
            raise J same l.reconnects >>= λ r. pass tt)
        else pass tt

    unfoldable pub smoke_round :
        (uid peer_uid : String) (index : ℕ) → Leg → Inboxes → Verdict Inboxes
    smoke_round uid peer_uid index l s = raise J same l.outcome >>= λ ack.
        fail_if (not (int_eq ack.reason_code (pos 1))) "reason code" >>= λ accepted.
        reply_of_peer uid (smoke_payload l.nonce) l s.peer_incoming >>= λ peer_left.
        await_match peer_uid (smoke_payload l.nonce) s.incoming >>= λ left.
        fail_if (not l.connected) "not connected" >>= λ alive. reconnect_between index l >>= λ back.
        pass (record { incoming = left; peer_incoming = peer_left })

    unfoldable pub smoke_rounds :
        (uid peer_uid : String) (index : ℕ) → List Leg → Inboxes → Verdict Inboxes
    smoke_rounds uid peer_uid index [] s = pass s
    smoke_rounds uid peer_uid index (l ∷ ls) s =
        smoke_round uid peer_uid index l s >>= λ s'. smoke_rounds uid peer_uid (suc index) ls s'

    -- How the peer, if there is one, connects.
    abbrev pub peer_opens : Option (Result ConnectResult) → Verdict (Unit {0})
    peer_opens none = pass tt
    peer_opens (some r) = raise J same r >>= λ opened. pass tt

    unfoldable pub run_smoke :
        (uid peer_uid : String)
        → Option (Result ConnectResult)
        → Result ConnectResult
        → (first second : Leg) → Inboxes
        → Verdict Inboxes
    run_smoke uid peer_uid peer_connects connects first second s = peer_opens peer_connects >>= λ a.
        raise J same connects >>= λ b. smoke_rounds uid peer_uid 0 (first ∷ second ∷ []) s
