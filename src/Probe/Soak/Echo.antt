-- ===== src/Probe/Soak/Echo.antt =====
-- What an attempt of examples/acceptance.rs leaves: the nonces it received.
use wu_kong_easy_sdk_rust.Base.{
  ℕ, ◌+◌, ◌≤◌, ◌≡◌, String, Bool, true, false, Option, none, some, List, [], ◌∷◌, length, str_eq,
  not, arith, Option-cases, Bool-cases, inl, inr, All, ◌||◌,
}
use wu_kong_easy_sdk_rust.Base.Int.{pos, int_eq}
use wu_kong_easy_sdk_rust.Json.{Json}
use wu_kong_easy_sdk_rust.Types.Failure.{Result, ok, err}
use wu_kong_easy_sdk_rust.Types.Messages.{SendResult, RecvMessage}
use wu_kong_easy_sdk_rust.Probe.Soak.{
  StringSet, holds, include, soak_payload, Arrival, arrived, cut, Ended, echoed, timed_out, broken,
  Attempt, nonce_of, on_echo, await_echo, attempt,
}

-- No string is in the list twice.
abbrev pub Distinct : StringSet → Type 0
Distinct [] = Unit
Distinct (s ∷ set) = (holds set s ≡ false) × Distinct set

abbrev pub Within : StringSet → StringSet → Type 0
Within big set = All (λ s. holds big s ≡ true) set

abbrev pub one_if_echoed : Ended → ℕ
one_if_echoed echoed = 1
one_if_echoed timed_out = 0
one_if_echoed (broken e) = 0

pub Within-insert : (s : String) (big set : StringSet) → Within big set → Within (include s big) set
unfolding holds
Within-insert s big [] h = tt
Within-insert s big (k ∷ set) h = (ground (arith, h.0), Within-insert s big set h.1)

-- From the nonces received before: distinct, all issued, and one more if the attempt has its echo.
pub record Gives {J : Json} (issued before : StringSet) (a : Attempt J) : Type 0 where
  pub distinct : Distinct a.received
  pub within : Within issued a.received
  pub more : one_if_echoed a.ended + length before ≤ length a.received

Distinct-insert : (s : String) (set : StringSet) → Distinct set → Distinct (include s set)
Distinct-insert s set d = elim (Bool-cases (holds set s)) [ inl e ↦ rw e d | inr e ↦ rw e (e, d) ]

within_inserted :
    (big : StringSet) (s : String) (set : StringSet)
    → holds big s ≡ true
    → Within big set
    → Within big (include s set)
within_inserted big s set h w = elim (Bool-cases (holds set s)) [
  | inl e ↦ rw e w
  | inr e ↦ rw e (h, w)
]

module _ (J : Json) (same : J.Value → J.Value → Bool) (peer : String) (issued : StringSet)
    (payload : J.Value) where
  on_echo-Gives :
      (m : RecvMessage J) (candidate : String) (received : StringSet) (rest : List (Arrival J))
      (rest_of : Attempt J)
      → Distinct received
      → Within issued received
      → (holds issued candidate ≡ true → Gives issued (include candidate received) rest_of)
      → Gives issued received (on_echo J same peer issued payload m candidate received rest rest_of)
  on_echo-Gives m candidate received rest rest_of d w next =
      elim (Bool-cases (
        not (str_eq m.from_uid peer)
        || not (holds issued candidate)
        || holds received candidate
        || not (same m.payload (soak_payload J candidate)))) [
          | inl e ↦ rw e (record { distinct = d; within = w; more = omega arith })
          | inr e ↦
              let old : holds issued candidate ≡ true = ground (arith, e) in
              let fresh : holds received candidate ≡ false = ground (arith, e) in
              elim (Bool-cases (same m.payload payload)) [
                | inl f ↦
                    rw (e, f)
                      (record {
                        distinct = Distinct-insert candidate received d;
                        within = within_inserted issued candidate received old w;
                        more = rw fresh (omega arith);
                      })
                | inr f ↦
                    rw (e, f)
                      (record {
                        distinct = (next old).distinct;
                        within = (next old).within;
                        more = omega (arith, rw fresh at (next old).more);
                      })
              ]
        ]

  pub await_echo-Gives :
      (received : StringSet) (incoming : List (Arrival J))
      → Distinct received
      → Within issued received
      → Gives issued received (await_echo J same peer issued payload received incoming)
  unfolding await_echo
  await_echo-Gives received [] d w = record { distinct = d; within = w; more = omega arith }
  await_echo-Gives received (cut ∷ rest) d w = record {
    distinct = d;
    within = w;
    more = omega arith;
  }
  await_echo-Gives received (arrived m ∷ rest) d w = elim (Option-cases (nonce_of J same m)) [
    | inl e ↦ rw (e, await_echo) (record { distinct = d; within = w; more = omega arith })
    | inr (candidate, e) ↦
        rw (e, await_echo)
          (on_echo-Gives m candidate received rest _ d w (λ old.
            await_echo-Gives (include candidate received) rest
              (Distinct-insert candidate received d)
              (within_inserted issued candidate received old w)))
  ]

  pub attempt-Gives :
      (outcome : Option (Result SendResult)) (received : StringSet) (incoming : List (Arrival J))
      → Distinct received
      → Within issued received
      → Gives issued received (attempt J same peer issued payload outcome received incoming)
  unfolding attempt
  attempt-Gives none received incoming d w = record { distinct = d; within = w; more = omega arith }
  attempt-Gives (some (err e)) received incoming d w = record {
    distinct = d;
    within = w;
    more = omega arith;
  }
  attempt-Gives (some (ok ack)) received incoming d w =
      elim (Bool-cases (int_eq ack.reason_code (pos 1))) [
        | inl e ↦ rw e (await_echo-Gives received incoming d w)
        | inr e ↦ rw e (record { distinct = d; within = w; more = omega arith })
      ]
