-- ===== src/Probe/Interruption/Waits.antt =====
-- What a receiver must have yielded where the probes of examples/ pass an interruption.
use wu_kong_easy_sdk_rust.Base.{
  ℕ, suc, ◌≡◌, refl, Bool, true, false, List, [], ◌∷◌, ◌++◌, ◌==◌, if◌then◌else◌, arith, Bool-cases,
  inl, inr, ap, All,
}
use wu_kong_easy_sdk_rust.Json.{Json}
use wu_kong_easy_sdk_rust.Types.Messages.{ConnectResult, Event}
use wu_kong_easy_sdk_rust.Probe.{Fault, pass}
use wu_kong_easy_sdk_rust.Probe.Observe.Exact.{bind-pass}
use wu_kong_easy_sdk_rust.Probe.Interruption.{
  Arrivals, await_reconnect, await_all, wait_reconnect_group, await_selected,
  wait_reconnect_cluster,
}

module _ (J : Json) where
  abbrev pub IsNoMessage : Event J → Type 0
  IsNoMessage (Event.message m) = ⊥
  IsNoMessage _ = Unit

  abbrev pub disconnects : List (Event J) → Bool
  disconnects [] = false
  disconnects (Event.disconnect r ∷ es) = true
  disconnects (_ ∷ es) = disconnects es

  -- The connection is lost, then made again to the node, and no message comes in between.
  pub record Returns (node : ConnectResult → Bool) (gone : Bool) (es : List (Event J))
      : Type 0 where
    pub before : List (Event J)
    pub result : ConnectResult
    pub after : List (Event J)
    pub split : es ≡ before ++ (Event.connect result ∷ after)
    pub quiet : All IsNoMessage before
    pub lost : (if gone then true else disconnects before) ≡ true
    pub same : node result ≡ true

  one_more :
      (node : ConnectResult → Bool) (gone now : Bool) (e : Event J) (es : List (Event J))
      → IsNoMessage e
      → ((before : List (Event J))
          → (if now then true else disconnects before) ≡ true
          → (if gone then true else disconnects (e ∷ before)) ≡ true)
      → Returns node now es
      → Returns node gone (e ∷ es)
  one_more node gone now e es silent keep r = record {
    before = e ∷ r.before;
    result = r.result;
    after = r.after;
    split = ap (λ xs. e ∷ xs) r.split;
    quiet = (silent, r.quiet);
    lost = keep r.before r.lost;
    same = r.same;
  }

  Returns-await_reconnect :
      (node : ConnectResult → Bool) (gone : Bool) (es : List (Event J)) (end : Fault)
      → await_reconnect J node gone es end ≡ pass tt
      → Returns node gone es
  unfolding await_reconnect
  Returns-await_reconnect node gone [] end h = cc
  Returns-await_reconnect node gone (Event.disconnect r ∷ es) end h =
      one_more node gone true (Event.disconnect r) es tt (λ b k. ground arith)
        (Returns-await_reconnect node true es end h)
  Returns-await_reconnect node true (Event.connect c ∷ es) end h = record {
    before = [];
    result = c;
    after = es;
    split = refl;
    quiet = tt;
    lost = refl;
    same = ground arith;
  }
  Returns-await_reconnect node false (Event.connect c ∷ es) end h =
      one_more node false false (Event.connect c) es tt (λ b k. k)
        (Returns-await_reconnect node false es end h)
  Returns-await_reconnect node gone (Event.message m ∷ es) end h = cc
  Returns-await_reconnect node gone (Event.send_ack r ∷ es) end h =
      one_more node gone gone (Event.send_ack r) es tt (λ b k. k)
        (Returns-await_reconnect node gone es end h)
  Returns-await_reconnect node gone (Event.reconnecting n d ∷ es) end h =
      one_more node gone gone (Event.reconnecting n d) es tt (λ b k. k)
        (Returns-await_reconnect node gone es end h)
  Returns-await_reconnect node gone (Event.custom_event x ∷ es) end h =
      one_more node gone gone (Event.custom_event x) es tt (λ b k. k)
        (Returns-await_reconnect node gone es end h)
  Returns-await_reconnect node gone (Event.error x ∷ es) end h =
      one_more node gone gone (Event.error x) es tt (λ b k. k)
        (Returns-await_reconnect node gone es end h)

  -- So it is for each inbox that is not skipped, from the index `i`.
  abbrev pub AllReturn : (ℕ → ConnectResult → Bool) → (ℕ → Bool) → ℕ → List (Arrivals J) → Type 0
  AllReturn node skips i [] = Unit
  AllReturn node skips i ((es, end) ∷ rest) =
      (skips i ≡ false → Returns (node i) false es) × AllReturn node skips (suc i) rest

  AllReturn-await_all :
      (i : ℕ) (inboxes : List (Arrivals J))
      → await_all J inboxes ≡ pass tt
      → AllReturn (λ k c. true) (λ k. false) i inboxes
  unfolding await_all
  AllReturn-await_all i [] h = tt
  AllReturn-await_all i ((es, end) ∷ rest) h =
      let (u, one, others) =
        bind-pass (await_reconnect J (λ c. true) false es end) (λ back. await_all J rest) tt h in
      (
        λ kept. Returns-await_reconnect (λ c. true) false es end one,
        AllReturn-await_all (suc i) rest others,
      )

  AllReturn-await_selected :
      (skips : ℕ → Bool) (nodes : ℕ → ℕ) (i : ℕ) (inboxes : List (Arrivals J))
      → await_selected J skips nodes i inboxes ≡ pass tt
      → AllReturn (λ k c. c.node_id == nodes k) skips i inboxes
  unfolding await_selected
  AllReturn-await_selected skips nodes i [] h = tt
  AllReturn-await_selected skips nodes i ((es, end) ∷ rest) h = elim (Bool-cases (skips i)) [
    | inl e ↦ (
      λ kept. ground (arith, e, kept),
      AllReturn-await_selected skips nodes (suc i) rest (rw e at h),
    )
    | inr e ↦
        let (u, one, others) =
          bind-pass (await_reconnect J (λ c. c.node_id == nodes i) false es end)
            (λ back. await_selected J skips nodes (suc i) rest) tt (rw e at h) in
        (
          λ kept. Returns-await_reconnect (λ c. c.node_id == nodes i) false es end one,
          AllReturn-await_selected skips nodes (suc i) rest others,
        )
  ]

  -- What each probe asks of a new connection, and which inboxes it skips.
  abbrev pub node_for : Bool → (ℕ → ℕ) → ℕ → ConnectResult → Bool
  node_for true nodes k c = c.node_id == nodes k
  node_for false nodes k c = true

  abbrev pub skipped : Bool → (ℕ → Bool) → ℕ → Bool
  skipped true skips k = skips k
  skipped false skips k = false

  -- The two probes pass an interruption only if all clients are connected at the end and each inbox, the
  -- skipped ones of the cluster probe apart, has shown a lost connection and then a new one, for the
  -- cluster probe to the client's own node, with no message up to then.
  pub wait_reconnect-AllReturn :
      (is_cluster : Bool) (skips : ℕ → Bool) (nodes : ℕ → ℕ) (inboxes : List (Arrivals J))
      (connected : Bool)
      → (if is_cluster
          then wait_reconnect_cluster J skips nodes inboxes connected
          else wait_reconnect_group J inboxes connected)
        ≡ pass tt
      → (connected ≡ true)
        × AllReturn (node_for is_cluster nodes) (skipped is_cluster skips) 0 inboxes
  wait_reconnect-AllReturn true skips nodes inboxes connected h =
      let (u, all_back, linked) = bind-pass (await_selected J skips nodes 0 inboxes) _ tt h in
      (ground (arith, linked), AllReturn-await_selected skips nodes 0 inboxes all_back)
  wait_reconnect-AllReturn false skips nodes inboxes connected h =
      let (u, all_back, linked) = bind-pass (await_all J inboxes) _ tt h in
      (ground (arith, linked), AllReturn-await_all 0 inboxes all_back)
