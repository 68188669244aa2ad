-- ===== src/Probe/Observe/Delivery.antt =====
-- Which messages `observe` of the group and the cluster probe lets reach its clients.
use mathlib.Core.Option.{some-injective}
use wu_kong_easy_sdk_rust.Types.Device.{channel_code, group}
use wu_kong_easy_sdk_rust.Base.{
  ℕ, ◌≡◌, refl, Bool, true, false, none, some, List, ◌++◌, if◌then◌else◌, arith, inl, inr, sym, ◌∙◌,
  eq_iff, Option-cases,
}
use wu_kong_easy_sdk_rust.Json.{Json}
use wu_kong_easy_sdk_rust.Types.Messages.{SendResult, RecvMessage}
use wu_kong_easy_sdk_rust.Probe.{pass}
use wu_kong_easy_sdk_rust.Probe.Observe.{
  Seen, contains, one_if, count_seen, Turn, Judge, observe, Expectation, judge_group, judge_cluster,
  observe_group, observe_cluster, channel_seen,
}
use wu_kong_easy_sdk_rust.Probe.Observe.Exact.{heard, EachTurn, observe-exactly}

module _ (J : Json) where
  module _ (same : J.Value → J.Value → Bool) (x : Expectation J) where
    -- The message is the one that was sent, in its channel and from its sender, and has the identity that
    -- the SENDACK gave it. Without a SENDACK there is one only in the cluster probe, if that is allowed.
    pub record Carries (is_cluster : Bool) (m : RecvMessage J) : Type 0 where
      pub kind : m.channel_type ≡ (if is_cluster then x.channel_type else channel_code group)
      pub place : m.channel_id ≡ (if is_cluster then channel_seen J same x else x.channel)
      pub from : m.from_uid ≡ x.sender
      pub intact : same m.payload x.payload ≡ true
      pub identified :
          (ack : SendResult)
          → x.ack ≡ some ack
          → (m.message_id ≡ ack.message_id) × (m.message_seq ≡ ack.message_seq)
      pub accepted : x.ack ≡ none → (is_cluster ≡ true) × (x.unknown ≡ true)

    -- What is returned by a run from the start, after which turns.
    abbrev pub Exactly : Bool → List (Turn J) → ℕ → Type 0
    Exactly is_cluster ts n =
        (before : List (Turn J)) × (after : List (Turn J)) × (ts ≡ before ++ after)
        × ((j : ℕ) → heard J j before ≡ one_if (contains x.expected j))
        × EachTurn J (Carries is_cluster) before
        × (n ≡ count_seen (contains x.expected))

    abbrev IsStrict : Bool → Judge J → Type 0
    IsStrict is_cluster judge =
        (seen : Seen) (i : ℕ) (m : RecvMessage J)
        → judge seen i m ≡ pass tt
        → (contains x.expected i ≡ true) × (seen i ≡ false) × Carries is_cluster m

    judge_group-IsStrict : IsStrict false (judge_group J same x)
    unfolding judge_group
    judge_group-IsStrict seen i m h = elim (Option-cases x.ack) [
      | inl e ↦ absurd (let h' = rw e at h in ground (arith, h'))
      | inr (ack, e) ↦
          let h' = rw e at h in
          (
            ground (arith, h'),
            ground (arith, h'),
            record {
              kind = ground (arith, h');
              place = ground (arith, h', eq_iff m.channel_id x.channel);
              from = ground (arith, h', eq_iff m.from_uid x.sender);
              intact = ground (arith, h');
              identified = λ a e'.
                  let one = some-injective ack a (sym e ∙ e') in
                  rw (sym one)
                    (ground (arith, h', eq_iff m.message_id ack.message_id), ground (arith, h'));
              accepted = λ e'. absurd (let both = sym e ∙ e' in cc);
            },
          )
    ]

    judge_cluster-IsStrict : IsStrict true (judge_cluster J same x)
    unfolding judge_cluster
    judge_cluster-IsStrict seen i m h = elim (Option-cases x.ack) [
      | inl e ↦
          let h' = rw e at h in
          (
            ground (arith, h'),
            ground (arith, h'),
            record {
              kind = ground (arith, h');
              place = ground (arith, h', eq_iff m.channel_id (channel_seen J same x));
              from = ground (arith, h', eq_iff m.from_uid x.sender);
              intact = ground (arith, h');
              identified = λ a e'. absurd (let both = sym e ∙ e' in cc);
              accepted = λ e'. (refl, ground (arith, h'));
            },
          )
      | inr (ack, e) ↦
          let h' = rw e at h in
          (
            ground (arith, h'),
            ground (arith, h'),
            record {
              kind = ground (arith, h');
              place = ground (arith, h', eq_iff m.channel_id (channel_seen J same x));
              from = ground (arith, h', eq_iff m.from_uid x.sender);
              intact = ground (arith, h');
              identified = λ a e'.
                  let one = some-injective ack a (sym e ∙ e') in
                  rw (sym one)
                    (ground (arith, h', eq_iff m.message_id ack.message_id), ground (arith, h'));
              accepted = λ e'. absurd (let both = sym e ∙ e' in cc);
            },
          )
    ]

    from_start :
        (is_cluster : Bool) (judge : Judge J) (ts : List (Turn J)) (n : ℕ)
        → IsStrict is_cluster judge
        → observe J judge x.expected (λ i. false) ts ≡ some (pass n)
        → Exactly is_cluster ts n
    from_start is_cluster judge ts n strict h =
        let (before, after, split, all_heard, all_fit, total) =
          observe-exactly J judge x.expected (Carries is_cluster) strict ts (λ i. false) n h
            (λ j never. cc) in
        (before, after, split, λ j. omega (arith, all_heard j), all_fit, total)

    -- The group probe and the cluster probe pass a window only if, in the turns up to then, each inbox
    -- that is expected got exactly one message and every other inbox none, each of them is the message that
    -- was sent, under the identity of its SENDACK, and they return how many of the four inboxes are
    -- expected.
    pub observe-exact :
        (is_cluster : Bool) (ts : List (Turn J)) (n : ℕ)
        → (if is_cluster then observe_cluster J same x ts else observe_group J same x ts)
          ≡ some (pass n)
        → Exactly is_cluster ts n
    observe-exact true ts n h =
        from_start true (judge_cluster J same x) ts n judge_cluster-IsStrict h
    observe-exact false ts n h = from_start false (judge_group J same x) ts n judge_group-IsStrict h
