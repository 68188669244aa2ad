-- ===== src/Probe/Network/Moves.antt =====
-- How a line of the input of examples/network_acceptance.rs moves the pair of clients, where it passes.
use mathlib.Core.Option.{some-injective}
use wu_kong_easy_sdk_rust.Base.{
  ℕ, ◌≡◌, refl, String, Bool, true, Option, none, some, str_eq, eq_iff, arith, sym, ap, ◌∙◌, inl,
  inr, Bool-cases,
}
use wu_kong_easy_sdk_rust.Json.{Json}
use wu_kong_easy_sdk_rust.Types.Failure.{Result, ok, err, destroyed}
use wu_kong_easy_sdk_rust.Types.Messages.{ConnectResult}
use wu_kong_easy_sdk_rust.Probe.{said, Verdict, pass, failed}
use wu_kong_easy_sdk_rust.Probe.Observe.Exact.{bind-pass, pass-injective}
use wu_kong_easy_sdk_rust.Probe.Control.{Next, goes_on, stops}
use wu_kong_easy_sdk_rust.Probe.Network.{raise}
use wu_kong_easy_sdk_rust.Probe.Network.Control.{
  is_destroyed, Owned, Doing, make_pair, destroy_pair, stop_probe, on_phase, keeps_pair,
  handle_network,
}
use wu_kong_easy_sdk_rust.Probe.Network.Exchange.{raise-pass}
use wu_kong_easy_sdk_rust.Probe.Network.Kept.{Kept, Kept-on_phase}

module _ (J : Json) (same : J.Value → J.Value → Bool) where
  -- What becomes of the pair at a line.
  pub data Moves (d : Doing J same) (command : J.Value) (op : String)
      : Owned → Next Owned → Type 0 where
    made :
        (a b : ConnectResult)
        → op ≡ "new"
        → d.connects 0 ≡ ok a
        → d.connects 1 ≡ ok b
        → Moves d command op none (goes_on (some 0))
    gone :
        (n : ℕ)
        → op ≡ "destroy"
        → d.connects_again 0 ≡ err destroyed
        → d.connects_again 1 ≡ err destroyed
        → Moves d command op (some n) (goes_on none)
    ended : op ≡ "stop" → Moves d command op none stops
    kept : (n m : ℕ) → Kept J same command d op n m → Moves d command op (some n) (goes_on (some m))

  destroyed_of : (r : Result ConnectResult) → is_destroyed r ≡ true → r ≡ err destroyed
  destroyed_of (ok a) h = absurd (cc)
  destroyed_of (err destroyed) h = refl
  destroyed_of (err e) h = absurd (cc)

  Moves-make_pair :
      (pair : Owned) (command : J.Value) (d : Doing J same) (next : Next Owned)
      → make_pair J same pair d ≡ pass next
      → Moves d command "new" pair next
  unfolding make_pair
  Moves-make_pair (some n) command d next h = absurd (cc)
  Moves-make_pair none command d next h =
      let (u, created, h1) = bind-pass d.created _ next h in
      let (a, first, h2) = bind-pass (raise J same (d.connects 0)) _ next h1 in
      let (b, second, h3) =
        bind-pass (raise J same (d.connects 1)) (λ b. pass (goes_on (some 0))) next h2 in
      rw (sym (pass-injective (goes_on (some 0)) next h3)) (
        made a b refl (raise-pass J same (d.connects 0) a first)
          (raise-pass J same (d.connects 1) b second))

  Moves-destroy_pair :
      (pair : Owned) (command : J.Value) (d : Doing J same) (next : Next Owned)
      → destroy_pair J same pair d ≡ pass next
      → Moves d command "destroy" pair next
  unfolding destroy_pair
  Moves-destroy_pair none command d next h = absurd (cc)
  Moves-destroy_pair (some n) command d next h =
      let (u, refused, h1) = bind-pass _ (λ gone. pass (goes_on none)) next h in
      rw (sym (pass-injective (goes_on none) next h1)) (
        gone n refl (destroyed_of (d.connects_again 0) (ground (arith, refused)))
          (destroyed_of (d.connects_again 1) (ground (arith, refused))))

  Moves-stop_probe :
      (pair : Owned) (command : J.Value) (d : Doing J same) (next : Next Owned)
      → stop_probe J same pair ≡ pass next
      → Moves d command "stop" pair next
  unfolding stop_probe
  Moves-stop_probe (some n) command d next h = absurd (cc)
  Moves-stop_probe none command d next h = rw (sym (pass-injective stops next h)) (ended refl)

  Moves-phase :
      (n : ℕ) (command : J.Value) (op : String) (d : Doing J same) (next : Next Owned)
      (o : Option (Verdict ℕ))
      → o ≡ on_phase J same n command op d
      → keeps_pair J same o ≡ some (pass next)
      → Moves d command op (some n) next
  Moves-phase n command op d next none e h = absurd (cc)
  Moves-phase n command op d next (some v) e h =
      let (m, passed, last) =
        bind-pass v (λ m. pass (goes_on (some m))) next (some-injective _ _ h) in
      rw (sym (pass-injective (goes_on (some m)) next last))
        (kept n m (Kept-on_phase J same command d op n m (sym e ∙ ap (λ w. some w) passed)))

  Moves-owned :
      (pair : Owned) (command : J.Value) (op : String) (d : Doing J same) (next : Next Owned)
      → (elim pair [
        | none ↦ some (failed (said "missing clients"))
        | some delivered ↦ keeps_pair J same (on_phase J same delivered command op d)
      ])
        ≡ some (pass next)
      → Moves d command op pair next
  Moves-owned none command op d next h = absurd (cc)
  Moves-owned (some n) command op d next h = Moves-phase n command op d next _ refl h

  pub Moves-handle_network :
      (pair : Owned) (command : J.Value) (op : String) (d : Doing J same) (next : Next Owned)
      → handle_network J same pair command op d ≡ some (pass next)
      → Moves d command op pair next
  unfolding handle_network
  Moves-handle_network pair command op d next h = elim (Bool-cases (str_eq op "new")) [
    | inl e ↦
        rw ((eq_iff op "new").0 e)
          (Moves-make_pair pair command d next (some-injective _ _ (rw e at h)))
    | inr a ↦ elim (Bool-cases (str_eq op "destroy")) [
      | inl e ↦
          rw ((eq_iff op "destroy").0 e)
            (Moves-destroy_pair pair command d next (some-injective _ _ (rw (a, e) at h)))
      | inr b ↦ elim (Bool-cases (str_eq op "stop")) [
        | inl e ↦
            rw ((eq_iff op "stop").0 e)
              (Moves-stop_probe pair command d next (some-injective _ _ (rw (a, b, e) at h)))
        | inr c ↦ Moves-owned pair command op d next (rw (a, b, c) at h)
      ]
    ]
  ]
