-- ===== src/Probe/Control/Faithful.antt =====
-- What a run of `control` of examples/group_acceptance.rs or of examples/cluster_acceptance.rs that
-- passes has seen.
use wu_kong_easy_sdk_rust.Base.{
  ℕ, ◌≡◌, refl, String, Bool, true, false, Option, some, List, [], ◌∷◌, inl, inr, if◌then◌else◌,
  sym, ◌∙◌,
}
use wu_kong_easy_sdk_rust.Json.{Json}
use wu_kong_easy_sdk_rust.Probe.{Verdict, pass, failed}
use wu_kong_easy_sdk_rust.Probe.Observe.Delivery.{Exactly}
use wu_kong_easy_sdk_rust.Probe.Interruption.{wait_reconnect_group, wait_reconnect_cluster}
use wu_kong_easy_sdk_rust.Probe.Interruption.Waits.{
  AllReturn, node_for, skipped, wait_reconnect-AllReturn,
}
use wu_kong_easy_sdk_rust.Probe.Commands.{Sequences, expecting}
use wu_kong_easy_sdk_rust.Probe.Commands.Sends.{Rises, acked, send-exact}
use wu_kong_easy_sdk_rust.Probe.Control.{
  Order, Next, goes_on, Line, read_group, read_cluster, expectation, read_line, dispatch,
  on_send_group, on_send_cluster, handle_group, handle_cluster, skips_of, control, control_group,
  control_cluster,
}
use wu_kong_easy_sdk_rust.Probe.Control.Dispatch.{AllQuiet, dispatch-cases, after_send-pass}
use wu_kong_easy_sdk_rust.Probe.Control.Loop.{control-next}

module _ (J : Json) where
  module _ (same : J.Value → J.Value → Bool) (is_cluster : Bool) (nodes : ℕ → ℕ) where
    -- What the probe reads of a command "send".
    abbrev pub read_order : J.Value → Verdict Order
    read_order command = if is_cluster then read_cluster J command else read_group J command

    -- The commands up to a "stop" were kept: a "send" reached its recipients and no one else by what was sent, and raised
    -- no sequence number but its own; nothing had arrived at an "arm_reconnect"; and at a
    -- "wait_reconnect" all came back.
    pub data Faithful : Sequences → List (Line J) → Type 0 where
      stopped :
          (s : Sequences) (l : Line J) (ls : List (Line J)) (command : J.Value)
          → read_line J l.text ≡ pass (command, "stop")
          → Faithful s (l ∷ ls)
      delivered :
          (s s' : Sequences) (l : Line J) (ls : List (Line J)) (command : J.Value) (order : Order)
          (n : ℕ)
          → read_line J l.text ≡ pass (command, "send")
          → read_order command ≡ pass order
          → Exactly J same
              (expecting J same (expectation J order l.nonce) order.demand (acked l.outcome))
              is_cluster
              l.turns
              n
          → Rises order.demand.key s s'
          → Faithful s' ls
          → Faithful s (l ∷ ls)
      armed :
          (s : Sequences) (l : Line J) (ls : List (Line J)) (command : J.Value)
          → read_line J l.text ≡ pass (command, "arm_reconnect")
          → AllQuiet J l.drained
          → Faithful s ls
          → Faithful s (l ∷ ls)
      returned :
          (s : Sequences) (l : Line J) (ls : List (Line J)) (command : J.Value)
          → read_line J l.text ≡ pass (command, "wait_reconnect")
          → l.all_connected ≡ true
          → AllReturn J
              (node_for J is_cluster nodes)
              (skipped J is_cluster (skips_of J same command))
              0
              l.arrivals
          → Faithful s ls
          → Faithful s (l ∷ ls)

    abbrev handle : Sequences → J.Value → String → Line J → Option (Verdict (Next Sequences))
    handle = if is_cluster then handle_cluster J same nodes else handle_group J same

    abbrev on_send : Verdict Order → Sequences → Line J → Option (Verdict (Next Sequences))
    on_send v s l = if is_cluster then on_send_cluster J same v s l else on_send_group J same v s l

    abbrev waited : J.Value → Line J → Verdict (Unit {0})
    waited command l =
        if is_cluster
        then wait_reconnect_cluster J (skips_of J same command) nodes l.arrivals l.all_connected
        else wait_reconnect_group J l.arrivals l.all_connected

  handle_lem :
      (same : J.Value → J.Value → Bool) (is_cluster : Bool) (nodes : ℕ → ℕ) (s : Sequences)
      (command : J.Value) (op : String) (l : Line J)
      → handle same is_cluster nodes s command op l
        ≡ dispatch J
            (on_send same is_cluster nodes (read_order same is_cluster nodes command) s l)
            (waited same is_cluster nodes command l)
            s
            op
            l
  unfolding handle_group handle_cluster dispatch
  handle_lem same true nodes s command op l = refl
  handle_lem same false nodes s command op l = refl

  -- A command "send" that passes was sent and observed.
  on_send-pass :
      (same : J.Value → J.Value → Bool) (is_cluster : Bool) (nodes : ℕ → ℕ) (v : Verdict Order)
      (s : Sequences) (l : Line J) (next : Next Sequences)
      → on_send same is_cluster nodes v s l ≡ some (pass next)
      → (order : Order) × (n : ℕ) × (s' : Sequences) × (v ≡ pass order)
        × (next ≡ goes_on s')
        × Exactly J same
            (expecting J same (expectation J order l.nonce) order.demand (acked l.outcome))
            is_cluster
            l.turns
            n
        × Rises order.demand.key s s'
  on_send-pass same true nodes (failed f) s l next h = absurd (cc)
  on_send-pass same false nodes (failed f) s l next h = absurd (cc)
  on_send-pass same true nodes (pass order) s l next h =
      let (n, s', sent, same_next) = after_send-pass J _ next h in
      let (exact, rises) =
        send-exact J same true (expectation J order l.nonce) order.demand l.outcome s s' l.turns n
          sent in
      (order, n, s', refl, same_next, exact, rises)
  on_send-pass same false nodes (pass order) s l next h =
      let (n, s', sent, same_next) = after_send-pass J _ next h in
      let (exact, rises) =
        send-exact J same false (expectation J order l.nonce) order.demand l.outcome s s' l.turns n
          sent in
      (order, n, s', refl, same_next, exact, rises)

  module _ (same : J.Value → J.Value → Bool) (is_cluster : Bool) (nodes : ℕ → ℕ) where
    abbrev run_by : Sequences → List (Line J) → Option (Verdict (Unit {0}))
    run_by s ls = control J Line.text (handle same is_cluster nodes) s ls

    Faithful-run_by :
        (s : Sequences) (ls : List (Line J))
        → run_by s ls ≡ some (pass tt)
        → Faithful same is_cluster nodes s ls
    unfolding control
    Faithful-run_by s [] h = absurd (cc)
    Faithful-run_by s (l ∷ ls) h =
        let (command, op, next, read, handled, later) =
          control-next J Line.text (handle same is_cluster nodes) s l ls h in
        let shape =
          dispatch-cases J _ (waited same is_cluster nodes command l) s op l next
            (sym (handle_lem same is_cluster nodes s command op l) ∙ handled) in
        elim shape [
          | inl (is_send, sent) ↦
              let (order, n, s', ordered, same_next, exact, rises) =
                on_send-pass same is_cluster nodes _ s l next sent in
              delivered s s' l ls command order n (rw is_send at read) ordered exact rises
                (Faithful-run_by s' ls (later s' same_next))
          | inr (inl (is_arm, quiet, same_next)) ↦
              armed s l ls command (rw is_arm at read) quiet
                (Faithful-run_by s ls (later s same_next))
          | inr (inr (inl (is_wait, back, same_next))) ↦
              let (linked, all_back) =
                wait_reconnect-AllReturn J is_cluster (skips_of J same command) nodes l.arrivals
                  l.all_connected back in
              returned s l ls command (rw is_wait at read) linked all_back
                (Faithful-run_by s ls (later s same_next))
          | inr (inr (inr (is_stop, last))) ↦ stopped s l ls command (rw is_stop at read)
        ]

  -- A run of the group probe or of the cluster probe passes only if it read a "stop", and if up to then
  -- each "send" reached exactly the recipients that it names, once each, by messages of its sender, channel
  -- and payload under the identity of its SENDACK, if it had one, and raised the recorded sequence number
  -- of its own channel or none; nothing had arrived at any "arm_reconnect"; and at each
  -- "wait_reconnect" all clients were connected and all inboxes that it selects had seen the
  -- interruption and no message.
  pub control-Faithful :
      (same : J.Value → J.Value → Bool) (is_cluster : Bool) (nodes : ℕ → ℕ) (ls : List (Line J))
      → (if is_cluster then control_cluster J same nodes ls else control_group J same ls)
        ≡ some (pass tt)
      → Faithful same is_cluster nodes [] ls
  control-Faithful same true nodes ls h = Faithful-run_by same true nodes [] ls h
  control-Faithful same false nodes ls h = Faithful-run_by same false nodes [] ls h
