-- ===== src/Probe/Soak/Evidence.antt =====
-- What a run of examples/acceptance.rs that passes has seen.
use wu_kong_easy_sdk_rust.Base.{ℕ, ◌≤◌, ◌≡◌, String, Bool, Option, List, ◌%◌, ◌^◌}
use wu_kong_easy_sdk_rust.Json.{Json}
use wu_kong_easy_sdk_rust.Probe.Soak.{Soak, SoakTurn}
use wu_kong_easy_sdk_rust.Probe.Soak.Window.{
  connections, disconnections, MissesNone, Window, all_heard,
}
use wu_kong_easy_sdk_rust.Probe.Soak.Account.{IsSound, outages}

module _ (J : Json) (same : J.Value → J.Value → Bool) (peer : String) where
  -- What a run that passes has shown.
  pub record Evidence (seconds : ℕ) (ts : List (SoakTurn J)) (s : Soak J) : Type 0 where
    pub duration : (10 ≤ seconds) × (seconds ≤ 900)
    pub sound : IsSound s
    pub enough : seconds ≤ s.completed
    pub explained : s.interrupted ≤ outages ts
    pub window : Window seconds ts
    pub counted : s.observer.observed.connects ≡ connections (all_heard seconds ts window) % 2 ^ 64
    pub broken_off :
        s.observer.observed.disconnects ≡ disconnections (all_heard seconds ts window) % 2 ^ 64
    pub connects : 4 ≤ s.observer.observed.connects
    pub disconnects : 3 ≤ s.observer.observed.disconnects
    pub recovered : s.last_recovered ≡ s.observer.observed.connects
    pub kept_up : MissesNone (all_heard seconds ts window)
