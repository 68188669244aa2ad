-- ===== src/Probe/Smoke/Echoes.antt =====
-- What a run of examples/roundtrip.rs that passes has seen.
use wu_kong_easy_sdk_rust.Base.{
  ℕ, ◌≡◌, refl, String, Bool, true, false, not, ◌&&◌, List, [], ◌∷◌, ◌++◌, str_eq, arith, ap, sym,
  ◌∙◌, Bool-cases, inl, inr, Option, none, some,
}
use wu_kong_easy_sdk_rust.Base.Int.{pos, int_eq}
use wu_kong_easy_sdk_rust.Json.{Json}
use wu_kong_easy_sdk_rust.Types.Failure.{Result, ok}
use wu_kong_easy_sdk_rust.Types.Messages.{ConnectResult, SendResult, RecvMessage, Event}
use wu_kong_easy_sdk_rust.Probe.{Fault, pass, fail_if}
use wu_kong_easy_sdk_rust.Probe.Observe.Exact.{bind-pass, pass-injective}
use wu_kong_easy_sdk_rust.Probe.Interruption.{Arrivals}
use wu_kong_easy_sdk_rust.Probe.Network.{raise}
use wu_kong_easy_sdk_rust.Probe.Network.Exchange.{raise-pass}
use wu_kong_easy_sdk_rust.Probe.Smoke.{
  smoke_payload, await_match, Inboxes, Leg, reply_of_peer, reconnect_between, smoke_round,
  smoke_rounds, peer_opens, run_smoke,
}

module _ (J : Json) (same : J.Value → J.Value → Bool) where
  -- The inbox holds a message from the sender with the payload, and is left after it.
  pub record Matches (sender : String) (payload : J.Value) (inbox left : Arrivals J) : Type 0 where
    pub before : List (Event J)
    pub message : RecvMessage J
    pub split : inbox.0 ≡ before ++ (Event.message message ∷ left.0)
    pub from : str_eq message.from_uid sender ≡ true
    pub intact : same message.payload payload ≡ true

  Matches-later :
      (sender : String) (payload : J.Value) (e : Event J) (es : List (Event J)) (end : Fault)
      (left : Arrivals J)
      → Matches sender payload (es, end) left
      → Matches sender payload (e ∷ es, end) left
  Matches-later sender payload e es end left m = record {
    before = e ∷ m.before;
    message = m.message;
    split = ap (λ xs. e ∷ xs) m.split;
    from = m.from;
    intact = m.intact;
  }

  Matches-await_match :
      (sender : String) (payload : J.Value) (es : List (Event J)) (end : Fault) (left : Arrivals J)
      → await_match J same sender payload (es, end) ≡ pass left
      → Matches sender payload (es, end) left
  unfolding await_match
  Matches-await_match sender payload [] end left h = absurd (cc)
  Matches-await_match sender payload (Event.message m ∷ es) end left h =
      elim (Bool-cases (str_eq m.from_uid sender && same m.payload payload)) [
        | inl e ↦ rw (sym (pass-injective (es, end) left (rw e at h))) (record {
          before = [];
          message = m;
          split = refl;
          from = ground (arith, e);
          intact = ground (arith, e);
        })
        | inr e ↦
            Matches-later sender payload (Event.message m) es end left
              (Matches-await_match sender payload es end left (rw e at h))
      ]
  Matches-await_match sender payload (e ∷ es) end left h =
      Matches-later sender payload e es end left (Matches-await_match sender payload es end left h)

  -- The peer of this program, if there is one, received the payload and sent it back.
  pub data Replied (uid : String) (l : Leg J same)
      : (before after : Option (Arrivals J)) → Type 0 where
    elsewhere : Replied uid l none none
    returned :
        (inbox left : Arrivals J) (ack : SendResult)
        → Matches uid (smoke_payload J l.nonce) inbox left
        → l.peer_outcome ≡ ok ack
        → Replied uid l (some inbox) (some left)

  Replied-reply_of_peer :
      (uid : String) (l : Leg J same) (before after : Option (Arrivals J))
      → reply_of_peer J same uid (smoke_payload J l.nonce) l before ≡ pass after
      → Replied uid l before after
  unfolding reply_of_peer
  Replied-reply_of_peer uid l none after h =
      rw (sym (pass-injective none after h)) Replied.elsewhere
  Replied-reply_of_peer uid l (some inbox) after h =
      let (left, came, h1) =
        bind-pass (await_match J same uid (smoke_payload J l.nonce) inbox) _ after h in
      let (ack, sent, last) =
        bind-pass (raise J same l.peer_outcome) (λ sent. pass (some left)) after h1 in
      rw (sym (pass-injective (some left) after last)) (
        Replied.returned inbox left ack
          (Matches-await_match uid (smoke_payload J l.nonce) inbox.0 inbox.1 left came)
          (raise-pass J same l.peer_outcome ack sent))

  -- The client disconnected and connected again.
  pub record Reconnected (l : Leg J same) : Type 0 where
    pub gone : l.still_connected ≡ false
    pub result : ConnectResult
    pub again : l.reconnects ≡ ok result

  Reconnected-reconnect_between :
      (l : Leg J same) (u : Unit {0}) → reconnect_between J same 0 l ≡ pass u → Reconnected l
  unfolding reconnect_between
  Reconnected-reconnect_between l u h =
      let (v, gone, h1) = bind-pass (fail_if l.still_connected "still connected") _ u h in
      let (result, again, last) = bind-pass (raise J same l.reconnects) (λ r. pass tt) u h1 in
      record {
        gone = ground (arith, gone);
        result = result;
        again = raise-pass J same l.reconnects result again;
      }

  -- A round was acknowledged, came back from the peer, and left the client connected.
  pub record Answered (uid peer_uid : String) (l : Leg J same) (s s' : Inboxes J same)
      : Type 0 where
    pub ack : SendResult
    pub sent : l.outcome ≡ ok ack
    pub accepted : int_eq ack.reason_code (pos 1) ≡ true
    pub reply : Replied uid l s.peer_incoming s'.peer_incoming
    pub back : Matches peer_uid (smoke_payload J l.nonce) s.incoming s'.incoming
    pub alive : l.connected ≡ true

  smoke_round-Answered :
      (uid peer_uid : String) (index : ℕ) (l : Leg J same) (s s' : Inboxes J same)
      → smoke_round J same uid peer_uid index l s ≡ pass s'
      → Answered uid peer_uid l s s'
        × ((u : Unit {0}) × (reconnect_between J same index l ≡ pass u))
  unfolding smoke_round
  smoke_round-Answered uid peer_uid index l s s' h =
      let (ack, sent, h1) = bind-pass (raise J same l.outcome) _ s' h in
      let (u, accepted, h2) =
        bind-pass (fail_if (not (int_eq ack.reason_code (pos 1))) "reason code") _ s' h1 in
      let (peer_left, replied, h3) =
        bind-pass (reply_of_peer J same uid (smoke_payload J l.nonce) l s.peer_incoming) _ s' h2 in
      let (left, came, h4) =
        bind-pass (await_match J same peer_uid (smoke_payload J l.nonce) s.incoming) _ s' h3 in
      let (v, alive, h5) = bind-pass (fail_if (not l.connected) "not connected") _ s' h4 in
      let (w, again, last) =
        bind-pass (reconnect_between J same index l)
          (λ back. pass (record { incoming = left; peer_incoming = peer_left })) s' h5 in
      rw (sym (pass-injective (record { incoming = left; peer_incoming = peer_left }) s' last)) (
        record {
          ack = ack;
          sent = raise-pass J same l.outcome ack sent;
          accepted = ground (arith, accepted);
          reply = Replied-reply_of_peer uid l s.peer_incoming peer_left replied;
          back =
              Matches-await_match peer_uid (smoke_payload J l.nonce) s.incoming.0 s.incoming.1 left
                came;
          alive = ground (arith, alive);
        },
        (w, again),
      )

  -- A run of the round-trip probe passes only if both rounds were acknowledged with success, their
  -- payloads reached the peer, where this program runs one, which sent them back, and came back from the
  -- peer, the second after the first in each inbox, the client was connected after each pause, and between
  -- the rounds it disconnected and connected again.
  pub run_smoke-Answered :
      (uid peer_uid : String) (peer_connects : Option (Result ConnectResult))
      (connects : Result ConnectResult) (first second : Leg J same) (s s'' : Inboxes J same)
      → run_smoke J same uid peer_uid peer_connects connects first second s ≡ pass s''
      → (s' : Inboxes J same) × Answered uid peer_uid first s s'
        × Reconnected first
        × Answered uid peer_uid second s' s''
  unfolding run_smoke smoke_rounds
  run_smoke-Answered uid peer_uid peer_connects connects first second s s'' h =
      let (a, opened, h1) = bind-pass (peer_opens J same peer_connects) _ s'' h in
      let (b, linked, h2) = bind-pass (raise J same connects) _ s'' h1 in
      let (s', one, h3) = bind-pass (smoke_round J same uid peer_uid 0 first s) _ s'' h2 in
      let (t, two, last) =
        bind-pass (smoke_round J same uid peer_uid 1 second s') (λ x. pass x) s'' h3 in
      let (answered, came_back) = smoke_round-Answered uid peer_uid 0 first s s' one in
      (
        s',
        answered,
        Reconnected-reconnect_between first came_back.0 came_back.1,
        (smoke_round-Answered uid peer_uid 1 second s' s'' (two ∙ last)).0,
      )
