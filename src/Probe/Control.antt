-- ===== src/Probe/Control.antt =====
-- `control` of examples/group_acceptance.rs and of examples/cluster_acceptance.rs: the loop over the lines
-- of the standard input and the reading of a command. The texts of the errors of serde_json are
-- left out.
pub mod Loop
pub mod Dispatch
pub mod Faithful
pub mod Reading
use Prim.Native.String.{compare, ◌++◌ as ◌<>◌}
use Prim.Native.Nat.{Ordering}
use wu_kong_easy_sdk_rust.Base.{
  ℕ, ◌%◌, String, Bool, true, false, not, Option, none, some, List, [], ◌∷◌, any, ltb, ◌==◌, str_eq,
  if◌then◌else◌, and_then, unwrap_or, get_elem?,
}
use wu_kong_easy_sdk_rust.Base.Int.{ℤ}
use wu_kong_easy_sdk_rust.Json.{Json}
use wu_kong_easy_sdk_rust.Types.Failure.{Result}
use wu_kong_easy_sdk_rust.Types.Device.{channel_code, group}
use wu_kong_easy_sdk_rust.Types.Text.{byte_length}
use wu_kong_easy_sdk_rust.Types.Messages.{SendResult}
use wu_kong_easy_sdk_rust.Types.Decode.{
  as_str, as_array, value_get, value_u64, value_i64, read_bool, json_string, json_object,
}
use wu_kong_easy_sdk_rust.Protocol.Outbound.{json_u64}
use wu_kong_easy_sdk_rust.Probe.{Fault, said, Verdict, pass, failed, ◌>>=◌, fail_if}
use wu_kong_easy_sdk_rust.Probe.Observe.{Drained, Turn, Expectation}
use wu_kong_easy_sdk_rust.Probe.Interruption.{
  Arrivals, arm_reconnect, wait_reconnect_group, wait_reconnect_cluster,
}
use wu_kong_easy_sdk_rust.Probe.Commands.{Sequences, Demand, send_group, send_cluster}

-- `USERS`
abbrev pub users : List String
users = "group-alice" ∷ "group-bob" ∷ "group-carol" ∷ "group-dave" ∷ []

-- `ok_or(text)?`
abbrev pub require {ℓ} : {A : Type ℓ} → Option A → String → Verdict A
require none text = failed (said text)
require (some a) text = pass a

abbrev pub is_le : Ordering → Bool
is_le Ordering.gt = false
is_le _ = true

abbrev pub str_le : String → String → Bool
str_le a b = is_le (compare a b)

-- `format!("person:{}:{}", pair[0], pair[1])` of the sorted pair.
unfoldable pub person_key : String → String → String
person_key a b = if str_le a b then "person:" <> a <> ":" <> b else "person:" <> b <> ":" <> a

-- The key of the sequence of a channel in the cluster probe.
unfoldable pub sequence_key : ℕ → (sender channel : String) → String
sequence_key channel_type sender channel =
    if channel_type == 1 then person_key sender channel else "group:" <> channel

-- A command "send" as it is read; the sender is a user.
pub record Order : Type 0 where
  pub sender : String
  pub channel : String
  pub channel_type : ℕ
  pub phase : String
  pub demand : Demand

-- What becomes of the loop after a command.
pub data Next {ℓ} (S : Type ℓ) : Type ℓ where
  goes_on : S → Next S
  stops : Next S

module _ (J : Json) where
  open J use {Value, from_str, empty, insert}

  -- `command[key].as_…()`
  abbrev pub field {ℓ} : {A : Type ℓ} → Value → String → (Value → Option A) → Option A
  field command key read = and_then (value_get J command key) read

  -- A recipient is the index of a client.
  unfoldable pub recipient : Value → Verdict ℕ
  recipient v =
      require (and_then (value_u64 J v) (λ i. if ltb i 4 then some i else none)) "invalid recipient"

  unfoldable pub recipients_of : List Value → Verdict (List ℕ)
  recipients_of [] = pass []
  recipients_of (v ∷ vs) = recipient v >>= λ i. recipients_of vs >>= λ is. pass (i ∷ is)

  abbrev pub sender_of : Value → Verdict String
  sender_of command = require (field command "sender" (value_u64 J)) "missing sender" >>= λ i.
      require (get_elem? users i) "invalid sender"

  unfoldable pub read_group : Value → Verdict Order
  read_group command = do
    sender ← sender_of command
    channel ← require (field command "channel" (as_str J)) "missing channel"
    phase ← require (field command "phase" (as_str J)) "missing phase"
    reason ← require (field command "reason" (value_i64 J)) "missing reason"
    listed ← require (field command "recipients" (as_array J)) "missing recipients"
    expected ← recipients_of listed
    pass (record {
      sender = sender;
      channel = channel;
      channel_type = channel_code group;
      phase = phase;
      demand = record { reason = reason; recipients = expected; key = channel; unknown = false };
    })

  -- `as u8`
  abbrev pub channel_type_of : Value → ℕ
  channel_type_of command = unwrap_or (field command "channel_type" (value_u64 J)) 2 % 256

  unfoldable pub read_cluster : Value → Verdict Order
  read_cluster command = do
    sender ← sender_of command
    channel ← require (field command "channel" (as_str J)) "missing channel"
    phase ← require (field command "phase" (as_str J)) "missing phase"
    reason ← require (field command "reason" (value_i64 J)) "missing reason"
    listed ← require (field command "recipients" (as_array J)) "missing recipients"
    expected ← recipients_of listed
    pass (record {
      sender = sender;
      channel = channel;
      channel_type = channel_type_of command;
      phase = phase;
      demand = record {
        reason = reason;
        recipients = expected;
        key = sequence_key (channel_type_of command) sender channel;
        unknown = unwrap_or (field command "unknown" (read_bool J)) false;
      };
    })

  -- `{"type":1,"content":"群消息 Rust 🦀","phase":phase,"nonce":nonce}`
  unfoldable pub probe_payload : (phase nonce : String) → Value
  probe_payload phase nonce = json_object J (
      insert
        (insert (insert (insert empty "type" (json_u64 J 1)) "content" (json_string J "群消息 Rust 🦀"))
          "phase" (json_string J phase))
        "nonce" (json_string J nonce))

  unfoldable pub read_line : String → Verdict (Value × String)
  read_line text = do
    fits ← fail_if (ltb 4096 (byte_length text)) "control command too large"
    command ← require (from_str text) "not JSON"
    op ← require (field command "op" (as_str J)) "missing operation"
    pass (command, op)

  -- The loop, over what a command does with the state; none while a command goes on. A line comes
  -- with what its command meets.
  unfoldable pub control {ℓ κ} :
      {S : Type ℓ} {L : Type κ}
      → (L → String)
      → (S → Value → String → L → Option (Verdict (Next S)))
      → S
      → List L
      → Option (Verdict (Unit {0}))
  control text_of handle s [] = some (failed (said "control stream ended before stop"))
  control text_of handle s (l ∷ ls) = elim (read_line (text_of l)) [
    | failed f ↦ some (failed f)
    | pass (command, op) ↦ elim (handle s command op l) [
      | none ↦ none
      | some (failed f) ↦ some (failed f)
      | some (pass stops) ↦ some (pass tt)
      | some (pass (goes_on s')) ↦ control text_of handle s' ls
    ]
  ]

  -- What the window is to see, but for what `send` fills in.
  abbrev pub expectation : Order → (nonce : String) → Expectation J
  expectation order nonce = record {
    expected = order.demand.recipients;
    sender = order.sender;
    channel = order.channel;
    channel_type = order.channel_type;
    payload = probe_payload order.phase nonce;
    ack = none;
    unknown = order.demand.unknown;
  }

  -- A line, the nonce drawn, and what its command meets: how the send ends, the turns of its window,
  -- what the inboxes hold or yield, and whether all clients are connected.
  pub record Line : Type 0 where
    pub text : String
    pub nonce : String
    pub outcome : Result SendResult
    pub turns : List (Turn J)
    pub drained : List (Drained J)
    pub arrivals : List (Arrivals J)
    pub all_connected : Bool

  abbrev pub after_send : Option (Verdict (ℕ × Sequences)) → Option (Verdict (Next Sequences))
  after_send none = none
  after_send (some (failed f)) = some (failed f)
  after_send (some (pass (n, s))) = some (pass (goes_on s))

  -- The `match` on the operation, over what "send" and "wait_reconnect" do.
  unfoldable pub dispatch :
      (sent : Option (Verdict (Next Sequences))) (waited : Verdict (Unit {0}))
      → Sequences
      → String
      → Line
      → Option (Verdict (Next Sequences))
  dispatch sent waited s op l =
      if str_eq op "send"
      then sent
      else if str_eq op "arm_reconnect"
      then some (arm_reconnect J l.drained >>= λ quiet. pass (goes_on s))
      else if str_eq op "wait_reconnect"
      then some (waited >>= λ back. pass (goes_on s))
      else if str_eq op "stop"
      then some (pass stops)
      else some (failed (said "unknown operation"))

  module _ (same : Value → Value → Bool) where
    abbrev pub on_send_group : Verdict Order → Sequences → Line → Option (Verdict (Next Sequences))
    on_send_group (failed f) s l = some (failed f)
    on_send_group (pass order) s l =
        after_send (send_group J same (expectation order l.nonce) order.demand l.outcome s l.turns)

    abbrev pub on_send_cluster :
        Verdict Order → Sequences → Line → Option (Verdict (Next Sequences))
    on_send_cluster (failed f) s l = some (failed f)
    on_send_cluster (pass order) s l =
        after_send
          (send_cluster J same (expectation order l.nonce) order.demand l.outcome s l.turns)

    unfoldable pub handle_group :
        Sequences → Value → String → Line → Option (Verdict (Next Sequences))
    unfolding dispatch
    handle_group s command op l =
        dispatch (on_send_group (read_group command) s l)
          (wait_reconnect_group J l.arrivals l.all_connected) s op l

    -- Whether the command does not select the client.
    unfoldable pub skips_of : Value → ℕ → Bool
    skips_of command index = elim (field command "clients" (as_array J)) [
      | none ↦ false
      | some selected ↦ not (any (λ v. same v (json_u64 J index)) selected)
    ]

    unfoldable pub handle_cluster :
        (nodes : ℕ → ℕ) → Sequences → Value → String → Line → Option (Verdict (Next Sequences))
    unfolding dispatch
    handle_cluster nodes s command op l =
        dispatch (on_send_cluster (read_cluster command) s l)
          (wait_reconnect_cluster J (skips_of command) nodes l.arrivals l.all_connected) s op l

    abbrev pub control_group : List Line → Option (Verdict (Unit {0}))
    control_group ls = control Line.text handle_group [] ls

    abbrev pub control_cluster : (nodes : ℕ → ℕ) → List Line → Option (Verdict (Unit {0}))
    control_cluster nodes ls = control Line.text (handle_cluster nodes) [] ls
