-- ===== src/Probe/Commands.antt =====
-- The command "send" of `control` in examples/group_acceptance.rs and in examples/cluster_acceptance.rs:
-- how the outcome of a send is judged before its delivery is observed. The fields of the command are
-- arguments, and so is the key of the sequence that the channel belongs to.
pub mod Sends
use wu_kong_easy_sdk_rust.Base.{
  ℕ, String, Bool, true, false, not, ◌||◌, ◌&&◌, Option, none, some, List, [], ◌∷◌, length, leb,
  ◌==◌, str_eq, if◌then◌else◌,
}
use wu_kong_easy_sdk_rust.Base.Int.{ℤ, pos, int_eq}
use wu_kong_easy_sdk_rust.Json.{Json}
use wu_kong_easy_sdk_rust.Types.Failure.{Error, Result, ok, err, timeout, server}
use wu_kong_easy_sdk_rust.Types.Text.{is_empty}
use wu_kong_easy_sdk_rust.Types.Messages.{SendResult}
use wu_kong_easy_sdk_rust.Probe.{Fault, said, Verdict, pass, failed, ◌>>=◌, fail_if}
use wu_kong_easy_sdk_rust.Probe.Observe.{Turn, Expectation, observe_group, observe_cluster}

-- `sequences`, the last sequence number of each key: the newest entry of a key counts.
abbrev pub Sequences : Type 0
Sequences = List (String × ℕ)

unfoldable pub last_of : String → Sequences → Option ℕ
last_of key [] = none
last_of key ((k, n) ∷ s) = if str_eq k key then some n else last_of key s

abbrev pub record_last : String → ℕ → Sequences → Sequences
record_last key n s = (key, n) ∷ s

-- `is_some_and(|last| ack.message_seq <= *last)`
abbrev pub is_at_most : ℕ → Option ℕ → Bool
is_at_most n none = false
is_at_most n (some last) = leb n last

abbrev pub has_none : List ℕ → Bool
has_none [] = true
has_none (x ∷ xs) = false

unfoldable pub accept_ack :
    String → SendResult → Sequences → Verdict (Option SendResult × Sequences)
accept_ack key ack s =
    fail_if
      (is_empty ack.message_id
        || str_eq ack.message_id "0"
        || ack.message_seq == 0
        || is_at_most ack.message_seq (last_of key s))
      "invalid or non-increasing SENDACK identity"
    >>= λ fine. pass (some ack, record_last key ack.message_seq s)

-- What a command asks of its send: the reason, the recipients, the key, and whether the outcome may stay
-- unknown.
pub record Demand : Type 0 where
  pub reason : ℤ
  pub recipients : List ℕ
  pub key : String
  pub unknown : Bool

abbrev unexpected : Verdict (Option SendResult × Sequences)
unexpected = failed (said "unexpected send outcome")

unfoldable pub outcome_group :
    Demand → Result SendResult → Sequences → Verdict (Option SendResult × Sequences)
outcome_group d (ok ack) s =
    if int_eq d.reason (pos 1) && int_eq ack.reason_code (pos 1)
    then accept_ack d.key ack s
    else unexpected
outcome_group d (err (server code)) s =
    if not (int_eq d.reason (pos 1)) && int_eq code d.reason && has_none d.recipients
    then pass (none, s)
    else unexpected
outcome_group d (err e) s = unexpected

-- The cluster probe also lets a single recipient's send end in a timeout.
unfoldable pub outcome_cluster :
    Demand → Result SendResult → Sequences → Verdict (Option SendResult × Sequences)
unfolding outcome_group
outcome_cluster d (err timeout) s =
    if d.unknown && int_eq d.reason (pos 0) && (length d.recipients == 1)
    then pass (none, s)
    else unexpected
outcome_cluster d r s = outcome_group d r s

module _ (J : Json) (same : J.Value → J.Value → Bool) where
  -- The deliveries with the sequences, once the window is over.
  abbrev pub with_sequences : Sequences → Option (Verdict ℕ) → Option (Verdict (ℕ × Sequences))
  with_sequences s none = none
  with_sequences s (some (failed f)) = some (failed f)
  with_sequences s (some (pass n)) = some (pass (n, s))

  -- What the window is to see of the send with the SENDACK.
  abbrev pub expecting : Expectation J → Demand → Option SendResult → Expectation J
  expecting x d ack = record x { expected = d.recipients; ack = ack; unknown = d.unknown }

  abbrev pub send_group :
      Expectation J
      → Demand
      → Result SendResult
      → Sequences
      → List (Turn J)
      → Option (Verdict (ℕ × Sequences))
  send_group x d outcome s turns = elim (outcome_group d outcome s) [
    | failed f ↦ some (failed f)
    | pass (ack, s') ↦ with_sequences s' (observe_group J same (expecting x d ack) turns)
  ]

  abbrev pub send_cluster :
      Expectation J
      → Demand
      → Result SendResult
      → Sequences
      → List (Turn J)
      → Option (Verdict (ℕ × Sequences))
  send_cluster x d outcome s turns = elim (outcome_cluster d outcome s) [
    | failed f ↦ some (failed f)
    | pass (ack, s') ↦ with_sequences s' (observe_cluster J same (expecting x d ack) turns)
  ]
