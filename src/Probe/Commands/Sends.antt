-- ===== src/Probe/Commands/Sends.antt =====
-- What the command "send" of the probes in examples/ establishes.
use mathlib.Core.Option.{some-injective}
use wu_kong_easy_sdk_rust.Base.{
  ℕ, ◌≡◌, ◌⊎◌, refl, String, Bool, true, false, not, ◌&&◌, Option, none, some, List, length, ◌==◌,
  str_eq, if◌then◌else◌, arith, Bool-cases, inl, inr, ap, sym, subst, eq_iff,
}
use wu_kong_easy_sdk_rust.Base.Int.{pos, int_eq}
use wu_kong_easy_sdk_rust.Json.{Json}
use wu_kong_easy_sdk_rust.Types.Failure.{Result, ok, err, timeout, server}
use wu_kong_easy_sdk_rust.Types.Messages.{SendResult}
use wu_kong_easy_sdk_rust.Probe.{Verdict, pass, failed}
use wu_kong_easy_sdk_rust.Probe.Observe.{Turn, Expectation}
use wu_kong_easy_sdk_rust.Probe.Observe.Exact.{Verdict-cases, pass-injective, bind-pass}
use wu_kong_easy_sdk_rust.Probe.Observe.Delivery.{Exactly, observe-exact}
use wu_kong_easy_sdk_rust.Probe.Commands.{
  Sequences, last_of, record_last, is_at_most, has_none, accept_ack, Demand, outcome_group,
  outcome_cluster, with_sequences, expecting, send_group, send_cluster,
}

-- The sequences but that of the key stay; that one may go up.
abbrev pub Rises : String → Sequences → Sequences → Type 0
Rises key s s' =
    (k : String)
    → (last_of k s' ≡ last_of k s)
      ⊎ ((k ≡ key) × ((n : ℕ) × (last_of k s' ≡ some n) × (is_at_most n (last_of k s) ≡ false)))

Rises-same : (key : String) (s s' : Sequences) → s ≡ s' → Rises key s s'
Rises-same key s s' e k = inl (ap (last_of k) (sym e))

Rises-record_last :
    (key : String) (n : ℕ) (s : Sequences)
    → is_at_most n (last_of key s) ≡ false
    → Rises key s (record_last key n s)
unfolding last_of
Rises-record_last key n s h k = elim (Bool-cases (str_eq key k)) [
  | inl e ↦
      let same : key ≡ k = (eq_iff key k).0 e in
      inr (sym same, (n, rw e refl, subst (λ x. is_at_most n (last_of x s) ≡ false) same h))
  | inr e ↦ inl (rw e refl)
]

-- The SENDACK of an outcome.
abbrev pub acked : Result SendResult → Option SendResult
acked (ok ack) = some ack
acked (err e) = none

abbrev Judged : Type 0
Judged = Option SendResult × Sequences

passed : (x y : Judged) → pass x ≡ pass y → x.1 ≡ y.1
passed x y h = ap (λ (z : Judged). z.1) (pass-injective x y h)

Rises-accept_ack :
    (key : String) (ack : SendResult) (s s' : Sequences) (a : Option SendResult)
    → accept_ack key ack s ≡ pass (a, s')
    → Rises key s s'
unfolding accept_ack
Rises-accept_ack key ack s s' a h =
    let (u, fine, same) =
      bind-pass _ (λ fine. pass (some ack, record_last key ack.message_seq s)) (a, s') h in
    let above : is_at_most ack.message_seq (last_of key s) ≡ false = ground (arith, fine) in
    let stored = passed (some ack, record_last key ack.message_seq s) (a, s') same in
    subst (Rises key s) stored (Rises-record_last key ack.message_seq s above)

Rises-outcome_group :
    (d : Demand) (r : Result SendResult) (s s' : Sequences) (a : Option SendResult)
    → outcome_group d r s ≡ pass (a, s')
    → Rises d.key s s'
unfolding outcome_group
Rises-outcome_group d (ok ack) s s' a h =
    elim (Bool-cases (int_eq d.reason (pos 1) && int_eq ack.reason_code (pos 1))) [
      | inl e ↦ Rises-accept_ack d.key ack s s' a (rw e at h)
      | inr e ↦ (let other = rw e at h in cc)
    ]
Rises-outcome_group d (err (server code)) s s' a h =
    elim (Bool-cases
      (not (int_eq d.reason (pos 1)) && int_eq code d.reason && has_none d.recipients)) [
        | inl e ↦ Rises-same d.key s s' (passed (none, s) (a, s') (rw e at h))
        | inr e ↦ (let other = rw e at h in cc)
      ]
Rises-outcome_group d (err e) s s' a h = cc

Rises-outcome_cluster :
    (d : Demand) (r : Result SendResult) (s s' : Sequences) (a : Option SendResult)
    → outcome_cluster d r s ≡ pass (a, s')
    → Rises d.key s s'
unfolding outcome_cluster
Rises-outcome_cluster d (err timeout) s s' a h =
    elim (Bool-cases (d.unknown && int_eq d.reason (pos 0) && (length d.recipients == 1))) [
      | inl e ↦ Rises-same d.key s s' (passed (none, s) (a, s') (rw e at h))
      | inr e ↦ (let other = rw e at h in cc)
    ]
Rises-outcome_cluster d (ok ack) s s' a h = Rises-outcome_group d (ok ack) s s' a h
Rises-outcome_cluster d (err e) s s' a h = Rises-outcome_group d (err e) s s' a h

of_first : (x y : Judged) → pass x ≡ pass y → y.0 ≡ x.0
of_first x y h = ap (λ (z : Judged). z.0) (pass-injective y x (sym h))

acked-accept_ack :
    (key : String) (ack : SendResult) (s s' : Sequences) (a : Option SendResult)
    → accept_ack key ack s ≡ pass (a, s')
    → a ≡ some ack
unfolding accept_ack
acked-accept_ack key ack s s' a h =
    let (u, fine, same) =
      bind-pass _ (λ fine. pass (some ack, record_last key ack.message_seq s)) (a, s') h in
    of_first (some ack, record_last key ack.message_seq s) (a, s') same

acked-outcome_group :
    (d : Demand) (r : Result SendResult) (s s' : Sequences) (a : Option SendResult)
    → outcome_group d r s ≡ pass (a, s')
    → a ≡ acked r
unfolding outcome_group
acked-outcome_group d (ok ack) s s' a h =
    elim (Bool-cases (int_eq d.reason (pos 1) && int_eq ack.reason_code (pos 1))) [
      | inl e ↦ acked-accept_ack d.key ack s s' a (rw e at h)
      | inr e ↦ (let other = rw e at h in cc)
    ]
acked-outcome_group d (err (server code)) s s' a h =
    elim (Bool-cases
      (not (int_eq d.reason (pos 1)) && int_eq code d.reason && has_none d.recipients)) [
        | inl e ↦ of_first (none, s) (a, s') (rw e at h)
        | inr e ↦ (let other = rw e at h in cc)
      ]
acked-outcome_group d (err e) s s' a h = cc

acked-outcome_cluster :
    (d : Demand) (r : Result SendResult) (s s' : Sequences) (a : Option SendResult)
    → outcome_cluster d r s ≡ pass (a, s')
    → a ≡ acked r
unfolding outcome_cluster
acked-outcome_cluster d (err timeout) s s' a h =
    elim (Bool-cases (d.unknown && int_eq d.reason (pos 0) && (length d.recipients == 1))) [
      | inl e ↦ of_first (none, s) (a, s') (rw e at h)
      | inr e ↦ (let other = rw e at h in cc)
    ]
acked-outcome_cluster d (ok ack) s s' a h = acked-outcome_group d (ok ack) s s' a h
acked-outcome_cluster d (err e) s s' a h = acked-outcome_group d (err e) s s' a h

pass_in : {A : Type 0} (a b : A) → some (pass a) ≡ some (pass b) → a ≡ b
pass_in a b h = pass-injective a b (some-injective (pass a) (pass b) h)

module _ (J : Json) (same : J.Value → J.Value → Bool) where
  with_sequences-pass :
      (s s' : Sequences) (o : Option (Verdict ℕ)) (n : ℕ)
      → with_sequences J same s o ≡ some (pass (n, s'))
      → (o ≡ some (pass n)) × (s ≡ s')
  with_sequences-pass s s' none n h = cc
  with_sequences-pass s s' (some (failed f)) n h = cc
  with_sequences-pass s s' (some (pass m)) n h =
      let both = pass_in (m, s) (n, s') h in
      (ap (λ (z : ℕ × Sequences). some (pass z.0)) both, ap (λ (z : ℕ × Sequences). z.1) both)

  -- The command "send" passes, for the group probe and for the cluster probe, only if in the turns up to
  -- then each recipient that it names got exactly one message and every other client none, each of these is
  -- the message that was sent, under the identity of its SENDACK, the
  -- returned number is that of the recipients among the four clients, and no recorded sequence
  -- number has changed but the one of the key, which if it has changed was not recorded or lower.
  pub send-exact :
      (is_cluster : Bool) (x : Expectation J) (d : Demand) (outcome : Result SendResult)
      (s s' : Sequences) (turns : List (Turn J)) (n : ℕ)
      → (if is_cluster
          then send_cluster J same x d outcome s turns
          else send_group J same x d outcome s turns)
        ≡ some (pass (n, s'))
      → Exactly J same (expecting J same x d (acked outcome)) is_cluster turns n × Rises d.key s s'
  send-exact true x d outcome s s' turns n h = elim (Verdict-cases (outcome_cluster d outcome s)) [
    | inl (judged, e) ↦
        let (seen, stored) = with_sequences-pass judged.1 s' _ n (rw (e, send_cluster) at h) in
        (
          subst (λ a. Exactly J same (expecting J same x d a) true turns n)
              (acked-outcome_cluster d outcome s judged.1 judged.0 e)
              (observe-exact J same (expecting J same x d judged.0) true turns n seen),
          subst (Rises d.key s) stored (Rises-outcome_cluster d outcome s judged.1 judged.0 e),
        )
    | inr (f, e) ↦ (let stopped = rw (e, send_cluster) at h in cc)
  ]
  send-exact false x d outcome s s' turns n h = elim (Verdict-cases (outcome_group d outcome s)) [
    | inl (judged, e) ↦
        let (seen, stored) = with_sequences-pass judged.1 s' _ n (rw (e, send_group) at h) in
        (
          subst (λ a. Exactly J same (expecting J same x d a) false turns n)
              (acked-outcome_group d outcome s judged.1 judged.0 e)
              (observe-exact J same (expecting J same x d judged.0) false turns n seen),
          subst (Rises d.key s) stored (Rises-outcome_group d outcome s judged.1 judged.0 e),
        )
    | inr (f, e) ↦ (let stopped = rw (e, send_group) at h in cc)
  ]
