-- ===== src/Probe/Network/Kept.antt =====
-- What an operation on the pair of examples/network_acceptance.rs has seen where it passes, and how many
-- deliveries it adds.
use mathlib.Core.Option.{some-injective}
use wu_kong_easy_sdk_rust.Base.{
  ℕ, zero, suc, ◌+◌, ◌≤◌, ◌≡◌, refl, String, Bool, true, not, ◌||◌, some, length, leb, str_eq,
  eq_iff, arith, sym, ap, ◌∙◌, ◌⊎◌, inl, inr, Bool-cases, Option-cases, if◌then◌else◌,
}
use wu_kong_easy_sdk_rust.Json.{Json}
use wu_kong_easy_sdk_rust.Types.Messages.{Event}
use wu_kong_easy_sdk_rust.Probe.{said, lagged, Verdict, pass, failed, ◌>>=◌, fail_if}
use wu_kong_easy_sdk_rust.Probe.Observe.Exact.{bind-pass, pass-injective}
use wu_kong_easy_sdk_rust.Probe.Network.{quiet, disconnected, recovered, lag_rounds, missed_by}
use wu_kong_easy_sdk_rust.Probe.Network.Control.{
  items, Doing, and_quiet, exchange_phase, lag_phase, blocked_phase, heartbeat_of, on_phase,
}
use wu_kong_easy_sdk_rust.Probe.Network.Exchange.{
  AllDelivered, exchange_rounds-AllDelivered, AllLagged, lag_rounds-AllLagged, Blocked,
  blocked_ack-Blocked,
}
use wu_kong_easy_sdk_rust.Probe.Network.Phases.{
  StaysQuiet, quiet-StaysQuiet, Loses, disconnected-Loses, Recovers, recovered-Recovers,
}

length-items :
    {A : Type 0} (count index : ℕ) (item : ℕ → A) → length (items count index item) ≡ count
unfolding items
length-items zero index item = refl
length-items (suc count) index item = ap suc (length-items count (suc index) item)

one_of :
    (op : String) → (str_eq op "quiet" || str_eq op "arm") ≡ true → (op ≡ "quiet") ⊎ (op ≡ "arm")
one_of op h = elim (Bool-cases (str_eq op "quiet")) [
  | inl e ↦ inl ((eq_iff op "quiet").0 e)
  | inr e ↦ inr ((eq_iff op "arm").0 (rw e at h))
]

module _ (J : Json) (same : J.Value → J.Value → Bool) where
  -- What a phase has seen, with the deliveries before and after it.
  pub data Kept (command : J.Value) (d : Doing J same) : String → ℕ → ℕ → Type 0 where
    exchanged :
        (n : ℕ)
        → AllDelivered J same 0 (items 2 0 d.round)
        → StaysQuiet J d.window
        → Kept command d "exchange" n (n + 2)
    blocked :
        (n : ℕ)
        → d.pending ≡ true
        → Blocked J same d.rejected d.first d.second d.payload_a d.payload_b d.inbox
        → Kept command d "blocked_ack" n (n + 2)
    lagging :
        (n missed : ℕ)
        → AllLagged J same (items 48 0 d.lag_round)
        → d.slow ≡ failed (lagged missed)
        → 32 ≤ missed
        → StaysQuiet J d.window
        → Kept command d "lag" n (n + 48)
    quiet_phase :
        (n : ℕ) (op : String)
        → (op ≡ "quiet") ⊎ (op ≡ "arm")
        → StaysQuiet J d.window
        → Kept command d op n n
    lost :
        (n : ℕ) → Loses J (heartbeat_of J same command) d.events → Kept command d "disconnected" n n
    back : (n : ℕ) → Recovers J d.states → Kept command d "recovered" n n

  and_quiet-pass :
      (v : Verdict ℕ) (d : Doing J same) (n : ℕ)
      → and_quiet J same v d ≡ some (pass n)
      → (v ≡ pass n) × StaysQuiet J d.window
  and_quiet-pass (failed f) d n h = absurd (cc)
  and_quiet-pass (pass k) d n h = elim (Option-cases (quiet J d.window)) [
    | inl e ↦ absurd (let h' = rw (e, and_quiet) at h in cc)
    | inr (v, e) ↦
        let (u, silent, same_n) =
          bind-pass v (λ silence. pass k) n (some-injective _ _ (rw (e, and_quiet) at h)) in
        (same_n, quiet-StaysQuiet J d.window (e ∙ ap (λ w. some w) silent))
  ]

  Kept-exchange :
      (command : J.Value) (d : Doing J same) (n m : ℕ)
      → exchange_phase J same 2 n d ≡ some (pass m)
      → Kept command d "exchange" n m
  unfolding exchange_phase
  Kept-exchange command d n m h =
      let (passed, silent) = and_quiet-pass _ d m h in
      let (all, total) = exchange_rounds-AllDelivered J same 0 (items 2 0 d.round) n m passed in
      rw (total ∙ ap (λ k. n + k) (length-items 2 0 d.round)) (exchanged n all silent)

  Kept-blocked :
      (command : J.Value) (d : Doing J same) (n m : ℕ)
      → blocked_phase J same n d ≡ pass m
      → Kept command d "blocked_ack" n m
  unfolding blocked_phase
  Kept-blocked command d n m h =
      let (u, held, rest) =
        bind-pass (fail_if (not d.pending) "blocked request completed before admission check") _ m
          h in
      let (all, total) =
        blocked_ack-Blocked J same d.rejected d.first d.second d.payload_a d.payload_b d.inbox n m
          rest in
      rw total (blocked n (ground (arith, held)) all)

  missed_of :
      (v : Verdict (Event J)) (n : ℕ)
      → missed_by J same v ≡ pass n
      → (v ≡ failed (lagged n)) × (32 ≤ n)
  missed_of (failed (lagged k)) n h = elim (Bool-cases (leb 32 k)) [
    | inl e ↦
        let same_n = pass-injective k n (rw e at h) in rw (sym same_n) (refl, ground (arith, e))
    | inr e ↦ absurd (let h' = rw e at h in cc)
  ]
  missed_of (failed f) n h = absurd (cc)
  missed_of (pass e) n h = absurd (cc)

  Kept-lag :
      (command : J.Value) (d : Doing J same) (n m : ℕ)
      → lag_phase J same n d ≡ some (pass m)
      → Kept command d "lag" n m
  unfolding lag_phase
  Kept-lag command d n m h =
      let (passed, silent) = and_quiet-pass _ d m h in
      let (k, rounds, rest) = bind-pass (lag_rounds J same (items 48 0 d.lag_round) n) _ m passed in
      let (missed, slow, last) = bind-pass (missed_by J same d.slow) (λ missed. pass k) m rest in
      let (all, total) = lag_rounds-AllLagged J same (items 48 0 d.lag_round) n k rounds in
      rw (sym (pass-injective k m last) ∙ total ∙ ap (λ i. n + i) (length-items 48 0 d.lag_round)) (
        lagging n missed all (missed_of d.slow missed slow).0 (missed_of d.slow missed slow).1
          silent)

  then_same :
      (v : Verdict (Unit {0})) (n m : ℕ)
      → some (v >>= λ u. pass n) ≡ some (pass m)
      → (v ≡ pass tt) × (m ≡ n)
  then_same v n m h =
      let (u, done, e) = bind-pass v (λ u. pass n) m (some-injective _ _ h) in
      (done, sym (pass-injective n m e))

  -- The phases that send nothing.
  Kept-watching :
      (command : J.Value) (d : Doing J same) (op : String) (n m : ℕ)
      → (if str_eq op "quiet" || str_eq op "arm"
          then and_quiet J same (pass n) d
          else if str_eq op "disconnected"
          then some (disconnected J (heartbeat_of J same command) d.events d.end >>= λ lost. pass n)
          else if str_eq op "recovered"
          then some (recovered J d.states d.end >>= λ back. pass n)
          else some (failed (said "unknown operation")))
        ≡ some (pass m)
      → Kept command d op n m
  Kept-watching command d op n m h = elim (Bool-cases (str_eq op "quiet" || str_eq op "arm")) [
    | inl e ↦
        let (passed, silent) = and_quiet-pass (pass n) d m (rw e at h) in
        rw (sym (pass-injective n m passed)) (quiet_phase n op (one_of op e) silent)
    | inr a ↦ elim (Bool-cases (str_eq op "disconnected")) [
      | inl e ↦
          let (passed, same_n) =
            then_same (disconnected J (heartbeat_of J same command) d.events d.end) n m
              (rw (a, e) at h) in
          rw ((eq_iff op "disconnected").0 e, same_n)
            (lost n (disconnected-Loses J (heartbeat_of J same command) d.events d.end passed))
      | inr b ↦ elim (Bool-cases (str_eq op "recovered")) [
        | inl e ↦
            let (passed, same_n) = then_same (recovered J d.states d.end) n m (rw (a, b, e) at h) in
            rw ((eq_iff op "recovered").0 e, same_n)
              (back n (recovered-Recovers J d.states d.end passed))
        | inr c ↦ absurd (let h' = rw (a, b, c) at h in cc)
      ]
    ]
  ]

  pub Kept-on_phase :
      (command : J.Value) (d : Doing J same) (op : String) (n m : ℕ)
      → on_phase J same n command op d ≡ some (pass m)
      → Kept command d op n m
  unfolding on_phase
  Kept-on_phase command d op n m h = elim (Bool-cases (str_eq op "exchange")) [
    | inl e ↦ rw ((eq_iff op "exchange").0 e) (Kept-exchange command d n m (rw e at h))
    | inr a ↦ elim (Bool-cases (str_eq op "blocked_ack")) [
      | inl e ↦
          rw ((eq_iff op "blocked_ack").0 e)
            (Kept-blocked command d n m (some-injective _ _ (rw (a, e) at h)))
      | inr b ↦ elim (Bool-cases (str_eq op "lag")) [
        | inl e ↦ rw ((eq_iff op "lag").0 e) (Kept-lag command d n m (rw (a, b, e) at h))
        | inr c ↦ Kept-watching command d op n m (rw (a, b, c) at h)
      ]
    ]
  ]
