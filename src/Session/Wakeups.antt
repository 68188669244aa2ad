-- ===== src/Session/Wakeups.antt =====
-- The timer of the loop of `Worker::session` (src/client.rs): what it is set to, and what is due when
-- it fires.
use wu_kong_easy_sdk_rust.Base.{
  ℕ, ◌+◌, ◌≤◌, ◌<◌, ◌≡◌, String, none, some, [], ◌∷◌, length, leb, arith, Option-cases, Bool-cases,
  inl, inr, ◌⊎◌,
}
use wu_kong_easy_sdk_rust.Json.{Json, Base64}
use wu_kong_easy_sdk_rust.Types.Failure.{timeout}
use wu_kong_easy_sdk_rust.Types.Options.{Options}
use wu_kong_easy_sdk_rust.Types.Decode.{json_object}
use wu_kong_easy_sdk_rust.Protocol.Outbound.{request}
use wu_kong_easy_sdk_rust.Session.State.{PendingMap, State, Io, Act, write_value, ◌>>◌, pure, fail}
use wu_kong_easy_sdk_rust.Session.Round.{expired_ids, earliest, timer, heartbeat_deadline, on_timer}

-- What has come if an instant is not before the least deadline.
earliest_came :
    (now d : ℕ) (m : PendingMap) → earliest m d ≤ now → (d ≤ now) ⊎ (0 < length (expired_ids now m))
unfolding earliest expired_ids
earliest_came now d [] h = inl h
earliest_came now d ((id, p) ∷ m) h = elim (Bool-cases (leb p.deadline now)) [
  | inl e ↦ inr (ground (arith, e))
  | inr e ↦ elim (earliest_came now d m (ground (arith, h, e))) [
    | inl came ↦ inl came
    | inr some_due ↦ inr (ground (arith, e, some_due))
  ]
]

module _ (J : Json) (B : Base64) (o : Options) where
  -- The write of a ping and what follows it.
  abbrev pub pings : State → ℕ → String → Io → Act J State
  pings s later id io =
      write_value J o (request J "ping" (json_object J J.empty) id) io
      >> pure (record s { ping = some (id, later + o.pong_timeout) })

  -- A timer that fires, which is at its instant or later, fires for something: the branch ends the
  -- session with `Timeout`, or it pings while no pong is awaited, or there are sends that the head of
  -- the next round expires if its clock shows no less. The loop does not spin.
  pub on_timer-progress :
      (s : State) (now later : ℕ) (id : String) (io : Io)
      → timer s ≤ now
      → (on_timer J B o s now later id io ≡ fail timeout)
        ⊎ (((s.ping ≡ none) × (on_timer J B o s now later id io ≡ pings s later id io))
            ⊎ (0 < length (expired_ids now s.pending)))
  unfolding on_timer timer
  on_timer-progress s now later id io h =
      elim (earliest_came now (heartbeat_deadline s) s.pending h) [
        | inr due ↦ inr (inr due)
        | inl came ↦ elim (Option-cases s.ping) [
          | inl e ↦
              inr (inl (e, (let due = rw e at came in rw (e, on_timer) (ground (arith, due)))))
          | inr (p, e) ↦ (let due = rw e at came in inl (rw (e, on_timer) (ground (arith, due))))
        ]
      ]
