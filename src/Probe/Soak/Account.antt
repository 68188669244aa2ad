-- ===== src/Probe/Soak/Account.antt =====
-- The account that a run of examples/acceptance.rs keeps of its sends, over its turns.
use wu_kong_easy_sdk_rust.Base.{
  ℕ, ◌+◌, ◌%◌, ◌^◌, ◌≤◌, ◌≡◌, refl, String, Bool, true, false, not, ◌||◌, ◌&&◌, some, List, [], ◌∷◌,
  length, any, ltb, ◌==◌, arith, ◌∙◌, ◌⊎◌, sym, Bool-cases, inl, inr, if◌then◌else◌,
}
use wu_kong_easy_sdk_rust.Json.{Json}
use wu_kong_easy_sdk_rust.Types.Failure.{protocol}
use wu_kong_easy_sdk_rust.Types.Options.{from_secs}
use wu_kong_easy_sdk_rust.Types.Messages.{Event}
use wu_kong_easy_sdk_rust.Probe.{pass}
use wu_kong_easy_sdk_rust.Probe.Observe.Exact.{Verdict-cases, pass-injective}
use wu_kong_easy_sdk_rust.Probe.Soak.{
  include, one_more, soak_payload, Heard, heard, missed, gone, Observed, listen, on_heard, Observer,
  Ended, echoed, timed_out, broken, attempt, Soak, SoakTurn, complete, interrupt, conclude, hear,
  attempted, exchange, soak_turn, soak,
}
use wu_kong_easy_sdk_rust.Probe.Soak.Echo.{
  Distinct, Within, Within-insert, one_if_echoed, attempt-Gives,
}

module _ {J : Json} where
  -- The account of a run so far.
  pub record IsSound (s : Soak J) : Type 0 where
    pub distinct : Distinct s.received
    pub within : Within s.issued s.received
    pub echoes : s.completed ≤ length s.received
    pub accounted : s.sent ≡ (s.completed + s.interrupted) % 2 ^ 64

  -- Whether what the observer heard holds a disconnection.
  abbrev pub is_disconnect : Heard J → Bool
  is_disconnect (heard (Event.disconnect r)) = true
  is_disconnect h = false

  -- Whether the connection was seen to fail during a turn with a connected client.
  abbrev pub sees_outage : SoakTurn J → Bool
  sees_outage t = t.connected && (not t.connected_after || any is_disconnect t.heard_during)

  abbrev pub outages : List (SoakTurn J) → ℕ
  outages [] = 0
  outages (t ∷ ts) = (if sees_outage t then 1 else 0) + outages ts

  on_heard_quiet :
      (obs : Observed) (h : Heard J)
      → is_disconnect h ≡ false
      → (on_heard J obs h).observed.disconnects ≡ obs.disconnects
  unfolding on_heard
  on_heard_quiet obs (heard (Event.disconnect r)) q = cc
  on_heard_quiet obs (heard (Event.connect c)) q = refl
  on_heard_quiet obs (heard (Event.error e)) q = refl
  on_heard_quiet obs (heard e) q = refl
  on_heard_quiet obs missed q = refl
  on_heard_quiet obs gone q = refl

  listen_quiet :
      (obs : Observer J) (hs : List (Heard J))
      → any is_disconnect hs ≡ false
      → (listen J obs hs).observed.disconnects ≡ obs.observed.disconnects
  unfolding listen
  listen_quiet obs [] h = refl
  listen_quiet obs (x ∷ hs) h = elim (Bool-cases obs.runs) [
    | inl e ↦ rw e (
        listen_quiet (on_heard J obs.observed x) hs (ground (arith, h))
        ∙ on_heard_quiet obs.observed x (ground (arith, h)))
    | inr e ↦ rw e refl
  ]

module _ (J : Json) (same : J.Value → J.Value → Bool) (peer : String) where
  pass-interrupt :
      (s s' : Soak J) (before : ℕ) (still : Bool)
      → interrupt J same s before still ≡ pass s'
      → ((still && (s.observer.observed.disconnects == before)) ≡ false)
        × (s' ≡ record s { interrupted = one_more s.interrupted })
  unfolding interrupt
  pass-interrupt s s' before still h =
      elim (Bool-cases (still && (s.observer.observed.disconnects == before))) [
        | inl e ↦ (let h' = rw e at h in cc)
        | inr e ↦ (e, (let h' = rw e at h in cc))
      ]

  -- How an attempt that does not fail the run is booked.
  pub pass-conclude :
      (s s' : Soak J) (before : ℕ) (still : Bool) (e : Ended)
      → conclude J same s before still e ≡ pass s'
      → ((one_if_echoed e ≡ 1) × (s' ≡ complete J same s))
        ⊎ (((still && (s.observer.observed.disconnects == before)) ≡ false)
            × (s' ≡ record s { interrupted = one_more s.interrupted }))
  unfolding conclude
  pass-conclude s s' before still echoed h = inl (refl, (cc))
  pass-conclude s s' before still timed_out h = inr (pass-interrupt s s' before still h)
  pass-conclude s s' before still (broken (protocol reason)) h = absurd (cc)
  pass-conclude s s' before still (broken e) h = inr (pass-interrupt s s' before still h)

  wrapped_left : (a b c : ℕ) → c ≡ (a + b) % 2 ^ 64 → one_more c ≡ (one_more a + b) % 2 ^ 64
  wrapped_left a b c h = omega (arith, h)

  wrapped_right : (a b c : ℕ) → c ≡ (a + b) % 2 ^ 64 → one_more c ≡ (a + one_more b) % 2 ^ 64
  wrapped_right a b c h = omega (arith, h)

  one_more-le : (n : ℕ) → one_more n ≤ n + 1
  one_more-le n = omega arith

  abbrev mid : Soak J → SoakTurn J → Soak J
  mid s t = attempted J same peer s t (
      attempt J same peer (include t.nonce s.issued) (soak_payload J t.nonce) t.outcome s.received
        s.incoming)

  outage_seen :
      (s : Soak J) (t : SoakTurn J)
      → t.connected ≡ true
      → (t.connected_after
          && ((listen J s.observer t.heard_during).observed.disconnects
              == s.observer.observed.disconnects))
        ≡ false
      → sees_outage t ≡ true
  outage_seen s t c out = elim (Bool-cases (any is_disconnect t.heard_during)) [
    | inl e ↦ rw (c, e) (ground arith)
    | inr e ↦ rw c (ground (arith, out, listen_quiet s.observer t.heard_during e))
  ]

  exchange-IsSound :
      (s s' : Soak J) (t : SoakTurn J)
      → t.connected ≡ true
      → IsSound s
      → exchange J same peer s t ≡ pass s'
      → IsSound s' × (s'.interrupted ≤ s.interrupted + (if sees_outage t then 1 else 0))
  unfolding exchange
  exchange-IsSound s s' t c h k =
      let g =
        attempt-Gives J same peer (include t.nonce s.issued) (soak_payload J t.nonce) t.outcome
          s.received s.incoming h.distinct (Within-insert t.nonce s.issued s.received h.within) in
      elim (pass-conclude (mid s t) s' s.observer.observed.disconnects t.connected_after _ k) [
        | inl (one, e) ↦ rw e (
          record {
            distinct = g.distinct;
            within = g.within;
            echoes = omega (arith, one_more-le s.completed, h.echoes, rw one at g.more);
            accounted = wrapped_left s.completed s.interrupted s.sent h.accounted;
          },
          omega arith,
        )
        | inr (out, e) ↦ rw e (
          record {
            distinct = g.distinct;
            within = g.within;
            echoes = omega (arith, h.echoes, g.more);
            accounted = wrapped_right s.completed s.interrupted s.sent h.accounted;
          },
          rw (outage_seen s t c out) (one_more-le s.interrupted),
        )
      ]

  hear-IsSound : (s : Soak J) (hs : List (Heard J)) → IsSound s → IsSound (hear J same s hs)
  hear-IsSound s hs h = record {
    distinct = h.distinct;
    within = h.within;
    echoes = h.echoes;
    accounted = h.accounted;
  }

  passed_injective : (a b : Soak J) → some (pass a) ≡ some (pass b) → a ≡ b
  passed_injective a b h = cc

  soak_turn-IsSound :
      (s s' : Soak J) (t : SoakTurn J)
      → IsSound s
      → soak_turn J same peer s t ≡ pass s'
      → IsSound s' × (s'.interrupted ≤ s.interrupted + (if sees_outage t then 1 else 0))
  unfolding soak_turn exchange
  soak_turn-IsSound s s' t h k = elim (Bool-cases t.connected) [
    | inl e ↦
        exchange-IsSound (hear J same s t.heard_before) s' t e (hear-IsSound s t.heard_before h)
          (rw e at k)
    | inr e ↦
        rw (sym (pass-injective _ s' (rw e at k))) (hear-IsSound s t.heard_before h, omega arith)
  ]

  pub soak-IsSound :
      (seconds : ℕ) (s s' : Soak J) (ts : List (SoakTurn J))
      → IsSound s
      → soak J same peer seconds s ts ≡ some (pass s')
      → IsSound s' × (s'.interrupted ≤ s.interrupted + outages ts)
  unfolding soak
  soak-IsSound seconds s s' [] h k = absurd (cc)
  soak-IsSound seconds s s' (t ∷ ts) h k = elim (Bool-cases (ltb t.elapsed (from_secs seconds))) [
    | inl e ↦ elim (Verdict-cases (soak_turn J same peer s t)) [
      | inl (s1, f) ↦
          let (sound, few) = soak_turn-IsSound s s1 t h f in
          let (sound', few') = soak-IsSound seconds s1 s' ts sound (rw (e, f) at k) in
          (sound', omega (arith, few, few'))
      | inr (x, f) ↦ absurd (let k' = rw (e, f) at k in cc)
    ]
    | inr e ↦
        rw (sym (passed_injective _ s' (rw e at k))) (hear-IsSound s t.heard_before h, omega arith)
  ]
