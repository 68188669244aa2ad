-- ===== src/Probe/Interruption.antt =====
-- The commands "arm_reconnect" and "wait_reconnect" of `control` in examples/group_acceptance.rs and in
-- examples/cluster_acceptance.rs: nothing may arrive while the connections are interrupted.
pub mod Waits
use wu_kong_easy_sdk_rust.Base.{
  ℕ, suc, String, Bool, true, false, not, Option, none, some, List, [], ◌∷◌, ◌==◌, if◌then◌else◌,
}
use wu_kong_easy_sdk_rust.Json.{Json}
use wu_kong_easy_sdk_rust.Types.Messages.{ConnectResult, Event}
use wu_kong_easy_sdk_rust.Probe.{Fault, said, Verdict, pass, failed, ◌>>=◌, fail_if}
use wu_kong_easy_sdk_rust.Probe.Observe.{Drained}

module _ (J : Json) where
  -- What `recv` yields in turn, and the fault after that: the timeout, or one of the receiver.
  abbrev pub Arrivals : Type 0
  Arrivals = List (Event J) × Fault

  -- `loop { match inbox.try_recv() { … } }` where a message fails with the text.
  unfoldable pub silent : String → List (Event J) → Option Fault → Verdict (Unit {0})
  silent message_text [] none = pass tt
  silent message_text [] (some f) = failed f
  silent message_text (Event.message m ∷ es) end = failed (said message_text)
  silent message_text (_ ∷ es) end = silent message_text es end

  unfoldable pub all_silent : String → List (Drained J) → Verdict (Unit {0})
  all_silent message_text [] = pass tt
  all_silent message_text ((es, end) ∷ rest) =
      silent message_text es end >>= λ quiet. all_silent message_text rest

  -- "arm_reconnect"
  abbrev pub arm_reconnect : List (Drained J) → Verdict (Unit {0})
  arm_reconnect = all_silent "late group message before interruption"

  -- The loop of "wait_reconnect" on one inbox; `is_node` says which node a new connection may have.
  unfoldable pub await_reconnect :
      (ConnectResult → Bool) → (disconnected : Bool) → List (Event J) → Fault → Verdict (Unit {0})
  await_reconnect is_node gone [] end = failed end
  await_reconnect is_node gone (Event.disconnect r ∷ es) end = await_reconnect is_node true es end
  await_reconnect is_node true (Event.connect c ∷ es) end =
      fail_if (not (is_node c)) "reconnected to a different ingress"
  await_reconnect is_node gone (Event.message m ∷ es) end =
      failed (said "unexpected message during interruption")
  await_reconnect is_node gone (_ ∷ es) end = await_reconnect is_node gone es end

  -- Any node will do for the group probe, whose receivers all have to see the interruption.
  unfoldable pub await_all : List Arrivals → Verdict (Unit {0})
  await_all [] = pass tt
  await_all ((es, end) ∷ rest) = await_reconnect (λ c. true) false es end >>= λ back. await_all rest

  -- `clients.iter().all(Client::is_connected)` is an argument.
  abbrev pub wait_reconnect_group : List Arrivals → Bool → Verdict (Unit {0})
  wait_reconnect_group inboxes all_connected =
      await_all inboxes >>= λ back. fail_if (not all_connected) "client failed to reconnect"

  -- The cluster probe skips the clients that its command does not select, and each client must come
  -- back to its own node.
  unfoldable pub await_selected :
      (skips : ℕ → Bool) → (nodes : ℕ → ℕ) → (index : ℕ) → List Arrivals → Verdict (Unit {0})
  await_selected skips nodes i [] = pass tt
  await_selected skips nodes i ((es, end) ∷ rest) =
      let next = await_selected skips nodes (suc i) rest in
      if skips i
      then next
      else await_reconnect (λ c. c.node_id == nodes i) false es end >>= λ back. next

  abbrev pub wait_reconnect_cluster :
      (ℕ → Bool) → (ℕ → ℕ) → List Arrivals → Bool → Verdict (Unit {0})
  wait_reconnect_cluster skips nodes inboxes all_connected =
      await_selected skips nodes 0 inboxes >>= λ back.
      fail_if (not all_connected) "client failed to reconnect"
