-- ===== src/Probe/Control/Dispatch.antt =====
-- Which command of examples/group_acceptance.rs or of examples/cluster_acceptance.rs passed, from how
-- its line was handled.
use mathlib.Core.Option.{some-injective}
use wu_kong_easy_sdk_rust.Base.{
  ℕ, ◌≡◌, refl, String, Option, none, some, List, [], ◌∷◌, str_eq, eq_iff, Bool-cases, inl, inr,
  ◌⊎◌, All, sym,
}
use wu_kong_easy_sdk_rust.Json.{Json}
use wu_kong_easy_sdk_rust.Types.Messages.{Event}
use wu_kong_easy_sdk_rust.Probe.{Fault, Verdict, pass, failed, ◌>>=◌}
use wu_kong_easy_sdk_rust.Probe.Observe.{Drained}
use wu_kong_easy_sdk_rust.Probe.Observe.Exact.{bind-pass, pass-injective}
use wu_kong_easy_sdk_rust.Probe.Interruption.{silent, all_silent, arm_reconnect}
use wu_kong_easy_sdk_rust.Probe.Interruption.Waits.{IsNoMessage}
use wu_kong_easy_sdk_rust.Probe.Commands.{Sequences}
use wu_kong_easy_sdk_rust.Probe.Control.{Next, goes_on, stops, Line, after_send, dispatch}

module _ (J : Json) where
  -- Inboxes that hold no message and no fault.
  abbrev pub AllQuiet : List (Drained J) → Type 0
  AllQuiet inboxes = All (λ (es, end). All (IsNoMessage J) es × (end ≡ none)) inboxes

  pub silent-IsNoMessage :
      (text : String) (es : List (Event J)) (end : Option Fault)
      → silent J text es end ≡ pass tt
      → All (IsNoMessage J) es × (end ≡ none)
  unfolding silent
  silent-IsNoMessage text [] none h = (tt, refl)
  silent-IsNoMessage text [] (some f) h = cc
  silent-IsNoMessage text (Event.message m ∷ es) end h = cc
  silent-IsNoMessage text (e ∷ es) end h =
      let (quiet, ended) = silent-IsNoMessage text es end h in ((tt, quiet), ended)

  pub all_silent-AllQuiet :
      (text : String) (inboxes : List (Drained J))
      → all_silent J text inboxes ≡ pass tt
      → AllQuiet inboxes
  unfolding all_silent
  all_silent-AllQuiet text [] h = tt
  all_silent-AllQuiet text ((es, end) ∷ rest) h =
      let (u, one, others) = bind-pass (silent J text es end) _ tt h in
      (silent-IsNoMessage text es end one, all_silent-AllQuiet text rest others)

  then_goes_on :
      (v : Verdict (Unit {0})) (s : Sequences) (next : Next Sequences)
      → some (v >>= λ u. pass (goes_on s)) ≡ some (pass next)
      → (v ≡ pass tt) × (next ≡ goes_on s)
  then_goes_on v s next h =
      let (u, done, same) = bind-pass v (λ u. pass (goes_on s)) next (some-injective _ _ h) in
      (done, sym (pass-injective (goes_on s) next same))

  -- Which operation a command was, where it passed.
  pub dispatch-cases :
      (sent : Option (Verdict (Next Sequences))) (waited : Verdict (Unit {0})) (s : Sequences)
      (op : String) (l : Line J) (next : Next Sequences)
      → dispatch J sent waited s op l ≡ some (pass next)
      → ((op ≡ "send") × (sent ≡ some (pass next)))
        ⊎ ((op ≡ "arm_reconnect") × AllQuiet l.drained × (next ≡ goes_on s))
        ⊎ ((op ≡ "wait_reconnect") × (waited ≡ pass tt) × (next ≡ goes_on s))
        ⊎ ((op ≡ "stop") × (next ≡ stops))
  unfolding dispatch
  dispatch-cases sent waited s op l next h = elim (Bool-cases (str_eq op "send")) [
    | inl e ↦ inl ((eq_iff op "send").0 e, rw e at h)
    | inr a ↦ elim (Bool-cases (str_eq op "arm_reconnect")) [
      | inl e ↦
          let (done, same) = then_goes_on (arm_reconnect J l.drained) s next (rw (a, e) at h) in
          inr (inl ((eq_iff op "arm_reconnect").0 e, all_silent-AllQuiet _ l.drained done, same))
      | inr b ↦ elim (Bool-cases (str_eq op "wait_reconnect")) [
        | inl e ↦
            let (done, same) = then_goes_on waited s next (rw (a, b, e) at h) in
            inr (inr (inl ((eq_iff op "wait_reconnect").0 e, done, same)))
        | inr c ↦ elim (Bool-cases (str_eq op "stop")) [
          | inl e ↦ inr (inr (inr ((eq_iff op "stop").0 e, (let h' = rw (a, b, c, e) at h in cc))))
          | inr d ↦ absurd (let h' = rw (a, b, c, d) at h in cc)
        ]
      ]
    ]
  ]

  pub after_send-pass :
      (o : Option (Verdict (ℕ × Sequences))) (next : Next Sequences)
      → after_send J o ≡ some (pass next)
      → (n : ℕ) × (s' : Sequences) × (o ≡ some (pass (n, s'))) × (next ≡ goes_on s')
  after_send-pass none next h = absurd (cc)
  after_send-pass (some (failed f)) next h = absurd (cc)
  after_send-pass (some (pass (n, s'))) next h =
      (n, s', refl, sym (pass-injective (goes_on s') next (some-injective _ _ h)))
