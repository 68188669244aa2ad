-- ===== src/Probe/Observe.antt =====
-- `observe` of examples/group_acceptance.rs and of examples/cluster_acceptance.rs: a bounded window in
-- which a message must reach exactly the expected clients. The two differ in what they accept. The
-- texts of the errors are shortened.
pub mod Exact
pub mod Delivery
use wu_kong_easy_sdk_rust.Base.{
  ℕ, suc, ◌+◌, String, Bool, true, false, not, ◌||◌, ◌&&◌, Option, none, some, List, [], ◌∷◌, any,
  all, leb, ◌==◌, str_eq, if◌then◌else◌,
}
use wu_kong_easy_sdk_rust.Json.{Json}
use wu_kong_easy_sdk_rust.Types.Failure.{Error}
use wu_kong_easy_sdk_rust.Types.Text.{is_empty}
use wu_kong_easy_sdk_rust.Types.Device.{channel_code, group}
use wu_kong_easy_sdk_rust.Types.Messages.{SendResult, RecvMessage, Event}
use wu_kong_easy_sdk_rust.Probe.{Fault, said, raised, Verdict, pass, failed, ◌>>=◌, fail_if}

-- `[bool; 4]`, by index.
abbrev pub Seen : Type 0
Seen = ℕ → Bool

abbrev pub mark : ℕ → Seen → Seen
mark i seen = λ j. if i == j then true else seen j

-- `expected.contains(&index)`
abbrev pub contains : List ℕ → ℕ → Bool
contains xs i = any (λ k. k == i) xs

abbrev pub one_if : Bool → ℕ
one_if true = 1
one_if false = 0

-- `seen.into_iter().filter(|item| *item).count()`
abbrev pub count_seen : Seen → ℕ
count_seen seen = one_if (seen 0) + one_if (seen 1) + one_if (seen 2) + one_if (seen 3)

module _ (J : Json) where
  -- What `try_recv` yields from one inbox until it is empty, which is `none`, or fails.
  abbrev pub Drained : Type 0
  Drained = List (Event J) × Option Fault

  -- One turn of the loop: what the inboxes hold, and the time since the start as it is read twice.
  pub record Turn : Type 0 where
    pub inboxes : List Drained
    pub elapsed : ℕ
    pub later : ℕ

  -- The judgement of a message at an inbox.
  abbrev pub Judge : Type 0
  Judge = Seen → ℕ → RecvMessage J → Verdict (Unit {0})

  module _ (judge : Judge) where
    unfoldable pub on_event : Seen → ℕ → Event J → Verdict Seen
    on_event seen i (Event.message m) = judge seen i m >>= λ accepted. pass (mark i seen)
    on_event seen i (Event.error e) = failed (raised e)
    on_event seen i (Event.disconnect r) =
        failed (said "unexpected disconnect during group delivery")
    on_event seen i _ = pass seen

    -- `loop { match inbox.try_recv() { … } }`
    unfoldable pub drain : Seen → ℕ → List (Event J) → Option Fault → Verdict Seen
    drain seen i [] none = pass seen
    drain seen i [] (some f) = failed f
    drain seen i (e ∷ es) end = on_event seen i e >>= λ seen'. drain seen' i es end

    -- `for (index, inbox) in inboxes.iter_mut().enumerate()`
    unfoldable pub sweep : Seen → ℕ → List Drained → Verdict Seen
    sweep seen i [] = pass seen
    sweep seen i ((es, end) ∷ rest) = drain seen i es end >>= λ seen'. sweep seen' (suc i) rest

    -- The loop over its turns; none while it goes on.
    unfoldable pub observe : List ℕ → Seen → List Turn → Option (Verdict ℕ)
    observe expected seen [] = none
    observe expected seen (t ∷ ts) = elim (sweep seen 0 t.inboxes) [
      | failed f ↦ some (failed f)
      | pass seen' ↦
          let rest = observe expected seen' ts in
          if all seen' expected && leb 500000000 t.elapsed
          then some (pass (count_seen seen'))
          else if leb 8000000000 t.later
          then some (failed (said "group recipients did not complete before deadline"))
          else rest
    ]

  -- What a turn is judged by; `sender` is the UID of the sender, and `same` the equality of values.
  pub record Expectation : Type 0 where
    pub expected : List ℕ
    pub sender : String
    pub channel : String
    pub channel_type : ℕ
    pub payload : J.Value
    pub ack : Option SendResult
    pub unknown : Bool

  module _ (same : J.Value → J.Value → Bool) (x : Expectation) where
    -- Whether the message is not the one of a SENDACK.
    abbrev pub differs : SendResult → RecvMessage J → Bool
    differs ack m =
        not (str_eq m.message_id ack.message_id) || not (m.message_seq == ack.message_seq)

    unfoldable pub judge_group : Judge
    judge_group seen i m =
        fail_if (not (contains x.expected i) || seen i) "unexpected or duplicate recipient" >>= λ a.
        elim (x.ack) [
          | none ↦ failed (said "rejected send was delivered")
          | some ack ↦
              fail_if
                (not (m.channel_type == channel_code group)
                  || not (str_eq m.channel_id x.channel)
                  || not (str_eq m.from_uid x.sender)
                  || not (same m.payload x.payload)
                  || differs ack m)
                "message metadata/payload mismatch"
        ]

    -- `if channel_type == 1 { USERS[sender] } else { channel }`
    abbrev pub channel_seen : String
    channel_seen = if x.channel_type == 1 then x.sender else x.channel

    abbrev pub differs_if_known : Option SendResult → RecvMessage J → Bool
    differs_if_known none m = false
    differs_if_known (some ack) m = differs ack m

    abbrev pub is_known : Option SendResult → Bool
    is_known none = false
    is_known (some ack) = true

    unfoldable pub judge_cluster : Judge
    judge_cluster seen i m =
        fail_if (not (contains x.expected i) || seen i) "unexpected recipient" >>= λ a.
        fail_if (not (is_known x.ack) && not x.unknown) "rejected send was delivered" >>= λ b.
        fail_if
          (not (m.channel_type == x.channel_type)
            || not (str_eq m.channel_id channel_seen)
            || not (str_eq m.from_uid x.sender)
            || not (same m.payload x.payload)
            || is_empty m.message_id
            || str_eq m.message_id "0"
            || m.message_seq == 0
            || differs_if_known x.ack m)
          "message metadata/payload mismatch"

    abbrev pub observe_group : List Turn → Option (Verdict ℕ)
    observe_group ts = observe judge_group x.expected (λ i. false) ts

    abbrev pub observe_cluster : List Turn → Option (Verdict ℕ)
    observe_cluster ts = observe judge_cluster x.expected (λ i. false) ts
