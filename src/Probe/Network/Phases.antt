-- ===== src/Probe/Network/Phases.antt =====
-- What the phases of examples/network_acceptance.rs have seen where they pass.
use wu_kong_easy_sdk_rust.Base.{
  ℕ, ◌≤◌, ◌≡◌, refl, Bool, true, false, some, List, [], ◌∷◌, ◌++◌, leb, arith, All, ap, ◌⊎◌, inl,
  inr, Bool-cases,
}
use wu_kong_easy_sdk_rust.Json.{Json}
use wu_kong_easy_sdk_rust.Types.Messages.{ConnectResult, DisconnectReason, Event}
use wu_kong_easy_sdk_rust.Probe.{Fault, pass}
use wu_kong_easy_sdk_rust.Probe.Observe.{Drained}
use wu_kong_easy_sdk_rust.Probe.Observe.Exact.{Verdict-cases}
use wu_kong_easy_sdk_rust.Probe.Interruption.{all_silent}
use wu_kong_easy_sdk_rust.Probe.Interruption.Waits.{IsNoMessage}
use wu_kong_easy_sdk_rust.Probe.Control.Dispatch.{AllQuiet, all_silent-AllQuiet}
use wu_kong_easy_sdk_rust.Probe.Network.{quiet, is_heartbeat, disconnected, recovered}

module _ (J : Json) where
  -- No inbox holds a message in any turn of the window, up to one that comes after 150 milliseconds.
  abbrev pub StaysQuiet : List (List (Drained J) × ℕ) → Type 0
  StaysQuiet [] = ⊥
  StaysQuiet ((inboxes, elapsed) ∷ turns) =
      AllQuiet J inboxes × ((150000000 ≤ elapsed) ⊎ StaysQuiet turns)

  pub quiet-StaysQuiet :
      (turns : List (List (Drained J) × ℕ)) → quiet J turns ≡ some (pass tt) → StaysQuiet turns
  unfolding quiet
  quiet-StaysQuiet [] h = absurd (cc)
  quiet-StaysQuiet ((inboxes, elapsed) ∷ turns) h =
      elim (Verdict-cases (all_silent J "unexpected late delivery or automatic replay" inboxes)) [
        | inr (f, e) ↦ absurd (let h' = rw (quiet, e) at h in cc)
        | inl (u, e) ↦ (
          all_silent-AllQuiet J _ inboxes e,
          elim (Bool-cases (leb 150000000 elapsed)) [
            | inl late ↦ inl (ground (arith, late))
            | inr early ↦ inr (quiet-StaysQuiet turns (rw (quiet, e, early) at h))
          ],
        )
      ]

  -- The connection is lost before any message, by a heartbeat timeout if that is asked for.
  pub record Loses (heartbeat : Bool) (es : List (Event J)) : Type 0 where
    pub before : List (Event J)
    pub reason : DisconnectReason
    pub after : List (Event J)
    pub split : es ≡ before ++ (Event.disconnect reason ∷ after)
    pub quiet : All (IsNoMessage J) before
    pub cause : heartbeat ≡ true → reason ≡ DisconnectReason.heartbeat_timeout

  cause_of :
      (r : DisconnectReason) → is_heartbeat J r ≡ true → r ≡ DisconnectReason.heartbeat_timeout
  cause_of DisconnectReason.heartbeat_timeout h = refl
  cause_of r h = absurd (cc)

  Loses-later :
      (heartbeat : Bool) (e : Event J) (es : List (Event J))
      → IsNoMessage J e
      → Loses heartbeat es
      → Loses heartbeat (e ∷ es)
  Loses-later heartbeat e es silent l = record {
    before = e ∷ l.before;
    reason = l.reason;
    after = l.after;
    split = ap (λ xs. e ∷ xs) l.split;
    quiet = (silent, l.quiet);
    cause = l.cause;
  }

  pub disconnected-Loses :
      (heartbeat : Bool) (es : List (Event J)) (end : Fault)
      → disconnected J heartbeat es end ≡ pass tt
      → Loses heartbeat es
  unfolding disconnected
  disconnected-Loses heartbeat [] end h = absurd (cc)
  disconnected-Loses heartbeat (Event.disconnect r ∷ es) end h = record {
    before = [];
    reason = r;
    after = es;
    split = refl;
    quiet = tt;
    cause = λ asked. cause_of r (ground (arith, h, asked));
  }
  disconnected-Loses heartbeat (Event.message m ∷ es) end h = absurd (cc)
  disconnected-Loses heartbeat (e ∷ es) end h =
      Loses-later heartbeat e es tt (disconnected-Loses heartbeat es end h)

  -- A connection is made and found to be up before any message.
  pub record Recovers (es : List (Event J × Bool)) : Type 0 where
    pub before : List (Event J × Bool)
    pub result : ConnectResult
    pub after : List (Event J × Bool)
    pub split : es ≡ before ++ ((Event.connect result, true) ∷ after)
    pub quiet : All (λ (e, up). IsNoMessage J e) before

  Recovers-later :
      (e : Event J) (up : Bool) (es : List (Event J × Bool))
      → IsNoMessage J e
      → Recovers es
      → Recovers ((e, up) ∷ es)
  Recovers-later e up es silent l = record {
    before = (e, up) ∷ l.before;
    result = l.result;
    after = l.after;
    split = ap (λ xs. (e, up) ∷ xs) l.split;
    quiet = (silent, l.quiet);
  }

  pub recovered-Recovers :
      (es : List (Event J × Bool)) (end : Fault) → recovered J es end ≡ pass tt → Recovers es
  unfolding recovered
  recovered-Recovers [] end h = absurd (cc)
  recovered-Recovers ((Event.connect c, true) ∷ es) end h = record {
    before = [];
    result = c;
    after = es;
    split = refl;
    quiet = tt;
  }
  recovered-Recovers ((Event.connect c, false) ∷ es) end h =
      Recovers-later (Event.connect c) false es tt (recovered-Recovers es end h)
  recovered-Recovers ((Event.message m, up) ∷ es) end h = absurd (cc)
  recovered-Recovers ((e, up) ∷ es) end h = Recovers-later e up es tt (recovered-Recovers es end h)
