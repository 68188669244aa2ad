-- ===== src/Probe/Soak/Window.antt =====
-- How long a run of examples/acceptance.rs lasts, and what its observer hears until then.
use mathlib.Core.List.{append-nil}
use wu_kong_easy_sdk_rust.Base.{
  ℕ, suc, ◌+◌, ◌%◌, ◌^◌, ◌≤◌, ◌<◌, ◌≡◌, refl, String, Bool, true, false, some, List, [], ◌∷◌, ◌++◌,
  All, ltb, arith, ◌∙◌, sym, ap, Bool-cases, inl, inr, if◌then◌else◌,
}
use wu_kong_easy_sdk_rust.Json.{Json}
use wu_kong_easy_sdk_rust.Types.Options.{from_secs}
use wu_kong_easy_sdk_rust.Types.Messages.{Event}
use wu_kong_easy_sdk_rust.Probe.{pass}
use wu_kong_easy_sdk_rust.Probe.Observe.Exact.{Verdict-cases, pass-injective}
use wu_kong_easy_sdk_rust.Probe.Soak.{
  one_more, Heard, heard, missed, gone, Observed, Observer, on_heard, listen, Soak, SoakTurn, hear,
  exchange, soak_turn, soak,
}
use wu_kong_easy_sdk_rust.Probe.Soak.Account.{pass-conclude}

module _ {J : Json} where
  -- The connections and the disconnections that the receiver yields before it fails.
  unfoldable pub connections : List (Heard J) → ℕ
  connections [] = 0
  connections (heard (Event.connect c) ∷ hs) = suc (connections hs)
  connections (heard e ∷ hs) = connections hs
  connections (missed ∷ hs) = 0
  connections (gone ∷ hs) = 0

  unfoldable pub disconnections : List (Heard J) → ℕ
  disconnections [] = 0
  disconnections (heard (Event.disconnect r) ∷ hs) = suc (disconnections hs)
  disconnections (heard e ∷ hs) = disconnections hs
  disconnections (missed ∷ hs) = 0
  disconnections (gone ∷ hs) = 0

  -- The receiver misses no event before its channel is gone.
  unfoldable pub MissesNone : List (Heard J) → Type 0
  MissesNone [] = Unit
  MissesNone (heard e ∷ hs) = MissesNone hs
  MissesNone (missed ∷ hs) = ⊥
  MissesNone (gone ∷ hs) = Unit

  listen_stopped :
      (obs : Observer J) (hs : List (Heard J)) → obs.runs ≡ false → listen J obs hs ≡ obs
  unfolding listen
  listen_stopped obs [] e = refl
  listen_stopped obs (h ∷ hs) e = rw e refl

  listen-append :
      (obs : Observer J) (hs ks : List (Heard J))
      → listen J obs (hs ++ ks) ≡ listen J (listen J obs hs) ks
  unfolding listen
  listen-append obs [] ks = refl
  listen-append obs (h ∷ hs) ks = elim (Bool-cases obs.runs) [
    | inl e ↦ rw e (listen-append (on_heard J obs.observed h) hs ks)
    | inr e ↦
        listen_stopped obs (h ∷ (hs ++ ks)) e
        ∙ sym (listen_stopped obs ks e)
        ∙ sym (ap (λ o. listen J o ks) (listen_stopped obs (h ∷ hs) e))
  ]

  -- What an observer that runs makes of what it hears.
  pub record Counts (n : Observed) (hs : List (Heard J)) (m : Observed) : Type 0 where
    pub connects : m.connects ≡ (n.connects + connections hs) % 2 ^ 64
    pub disconnects : m.disconnects ≡ (n.disconnects + disconnections hs) % 2 ^ 64
    pub misses : m.lagged ≡ false → MissesNone hs

  pub listen-Counts :
      (n : Observed) (hs : List (Heard J))
      → n.connects < 2 ^ 64
      → n.disconnects < 2 ^ 64
      → Counts n hs (listen J (record { observed = n; runs = true }) hs).observed
  unfolding listen on_heard connections disconnections MissesNone
  listen-Counts n [] c d = record {
    connects = omega (arith, c);
    disconnects = omega (arith, d);
    misses = λ e. tt;
  }
  listen-Counts n (heard (Event.connect r) ∷ hs) c d =
      let k = listen-Counts (record n { connects = one_more n.connects }) hs (omega arith) d in
      record {
        connects = omega (arith, k.connects);
        disconnects = k.disconnects;
        misses = k.misses;
      }
  listen-Counts n (heard (Event.disconnect r) ∷ hs) c d =
      let k =
        listen-Counts (record n { disconnects = one_more n.disconnects }) hs c (omega arith) in
      record {
        connects = k.connects;
        disconnects = omega (arith, k.disconnects);
        misses = k.misses;
      }
  listen-Counts n (heard (Event.error e) ∷ hs) c d =
      let k = listen-Counts (record n { failures = one_more n.failures }) hs c d in
      record { connects = k.connects; disconnects = k.disconnects; misses = k.misses }
  listen-Counts n (heard (Event.message m) ∷ hs) c d =
      let k = listen-Counts n hs c d in
      record { connects = k.connects; disconnects = k.disconnects; misses = k.misses }
  listen-Counts n (heard (Event.send_ack r) ∷ hs) c d =
      let k = listen-Counts n hs c d in
      record { connects = k.connects; disconnects = k.disconnects; misses = k.misses }
  listen-Counts n (heard (Event.reconnecting a b) ∷ hs) c d =
      let k = listen-Counts n hs c d in
      record { connects = k.connects; disconnects = k.disconnects; misses = k.misses }
  listen-Counts n (heard (Event.custom_event e) ∷ hs) c d =
      let k = listen-Counts n hs c d in
      record { connects = k.connects; disconnects = k.disconnects; misses = k.misses }
  listen-Counts n (missed ∷ hs) c d =
      let stays =
        listen_stopped (record { observed = record n { lagged = true }; runs = false }) hs refl in
      rw stays (record {
        connects = omega (arith, c);
        disconnects = omega (arith, d);
        misses = λ e. absurd (cc);
      })
  listen-Counts n (gone ∷ hs) c d =
      let stays = listen_stopped (record { observed = n; runs = false }) hs refl in
      rw stays
        (record { connects = omega (arith, c); disconnects = omega (arith, d); misses = λ e. tt })

  -- What is heard in a turn, and in some turns and the last one.
  abbrev pub heard_in : SoakTurn J → List (Heard J)
  heard_in t = t.heard_before ++ (if t.connected then t.heard_during else [])

  abbrev pub heard_until : List (SoakTurn J) → SoakTurn J → List (Heard J)
  heard_until [] last = last.heard_before
  heard_until (t ∷ ts) last = heard_in t ++ heard_until ts last

  -- The turns before the time is over, and the first one after it, in which the loop ends.
  pub record Window (seconds : ℕ) (ts : List (SoakTurn J)) : Type 0 where
    pub before : List (SoakTurn J)
    pub last : SoakTurn J
    pub after : List (SoakTurn J)
    pub split : ts ≡ before ++ (last ∷ after)
    pub running : All (λ t. t.elapsed < from_secs seconds) before
    pub over : from_secs seconds ≤ last.elapsed

  -- All that the observer hears until then.
  abbrev pub all_heard : (seconds : ℕ) (ts : List (SoakTurn J)) → Window seconds ts → List (Heard J)
  all_heard seconds ts w = heard_until w.before w.last

module _ (J : Json) (same : J.Value → J.Value → Bool) (peer : String) where
  observer-exchange :
      (s s' : Soak J) (t : SoakTurn J)
      → exchange J same peer s t ≡ pass s'
      → s'.observer ≡ listen J s.observer t.heard_during
  unfolding exchange
  observer-exchange s s' t k =
      elim (pass-conclude J same peer _ s' s.observer.observed.disconnects t.connected_after _ k) [
        | inl (one, e) ↦ ap (λ (z : Soak J). z.observer) e
        | inr (out, e) ↦ ap (λ (z : Soak J). z.observer) e
      ]

  observer-soak_turn :
      (s s' : Soak J) (t : SoakTurn J)
      → soak_turn J same peer s t ≡ pass s'
      → s'.observer ≡ listen J s.observer (heard_in t)
  unfolding soak_turn exchange
  observer-soak_turn s s' t k = elim (Bool-cases t.connected) [
    | inl e ↦ rw e (
        observer-exchange (hear J same s t.heard_before) s' t (rw e at k)
        ∙ sym (listen-append s.observer t.heard_before t.heard_during))
    | inr e ↦
        rw (e, append-nil t.heard_before)
          (ap (λ (z : Soak J). z.observer) (sym (pass-injective _ s' (rw e at k))))
  ]

  passed_same : (a b : Soak J) → some (pass a) ≡ some (pass b) → a ≡ b
  passed_same a b h = cc

  pub soak-Window :
      (seconds : ℕ) (s s' : Soak J) (ts : List (SoakTurn J))
      → soak J same peer seconds s ts ≡ some (pass s')
      → (w : Window seconds ts) × (s'.observer ≡ listen J s.observer (all_heard seconds ts w))
  unfolding soak
  soak-Window seconds s s' [] k = absurd (cc)
  soak-Window seconds s s' (t ∷ ts) k = elim (Bool-cases (ltb t.elapsed (from_secs seconds))) [
    | inl e ↦ elim (Verdict-cases (soak_turn J same peer s t)) [
      | inl (s1, f) ↦
          let (w, observed) = soak-Window seconds s1 s' ts (rw (e, f) at k) in
          (
            record {
              before = t ∷ w.before;
              last = w.last;
              after = w.after;
              split = ap (λ xs. t ∷ xs) w.split;
              running = (ground (arith, e), w.running);
              over = w.over;
            },
            observed
                ∙ ap (λ o. listen J o (heard_until w.before w.last)) (observer-soak_turn s s1 t f)
                ∙ sym (listen-append s.observer (heard_in t) (heard_until w.before w.last)),
          )
      | inr (x, f) ↦ absurd (let k' = rw (e, f) at k in cc)
    ]
    | inr e ↦ (
      record {
        before = [];
        last = t;
        after = ts;
        split = refl;
        running = tt;
        over = ground (arith, e);
      },
      ap (λ (z : Soak J). z.observer) (sym (passed_same _ s' (rw e at k))),
    )
  ]
