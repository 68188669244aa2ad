-- ===== src/System/Fence/Rounds.antt =====
-- A round of the session (src/client.rs) that meets a command of an earlier socket.
use wu_kong_easy_sdk_rust.Base.{
  ℕ, ◌≡◌, ◌≢◌, refl, String, false, none, some, List, [], ◌∷◌, ◌++◌, arith, sym, ◌∙◌, subst, ◌==◌,
  inl, inr, ◌⊎◌, Bool-cases, Option-cases, ==_iff, All,
}
use wu_kong_easy_sdk_rust.Json.{Json, Base64}
use wu_kong_easy_sdk_rust.Types.Failure.{Error, ok, err, disconnected}
use wu_kong_easy_sdk_rust.Types.Options.{Options}
use wu_kong_easy_sdk_rust.Session.State.{
  PendingMap, State, Io, Command, Effect, reply, lookup, remove,
}
use wu_kong_easy_sdk_rust.Session.Round.{
  retain_open, expired_ids, expire, Branch, timer_ready, command_ready, frame_ready, Input,
  housekeep, on_command, on_branch, round,
}
use wu_kong_easy_sdk_rust.Session.Answers.{held, held-expire, held-retain_open}
use wu_kong_easy_sdk_rust.Session.Rounds.{swept, IsFresh}
use wu_kong_easy_sdk_rust.System.{System, Takes}
use wu_kong_easy_sdk_rust.System.Accounts.{takes_ticket, round_account, failed_round_account}
use wu_kong_easy_sdk_rust.System.Fence.{granted, granted-append, granted-le, StaleCommand, IsStale}

ok-injective {ℓ} : {A : Type ℓ} (a b : A) → ok a ≡ ok b → a ≡ b
ok-injective a b h = cc

module _ (J : Json) (B : Base64) (o : Options) (t : ℕ) where
  granted-expire : (ids : List String) (m : PendingMap) → granted t (expire J ids m).0 ≡ 0
  unfolding expire granted
  granted-expire [] m = refl
  granted-expire (id ∷ ids) m = elim (Option-cases (lookup id m)) [
    | inl e ↦ rw (e, expire) (granted-expire ids m)
    | inr (p, e) ↦ rw (e, expire) (granted-expire ids (remove id m))
  ]

  abbrev quiet_effects : State → Input J → List (Effect J)
  quiet_effects st i =
      (expire J (expired_ids i.now (retain_open i.closed st.pending))
        (retain_open i.closed st.pending)).0

  -- What a round that takes a command of another generation comes to.
  record Passes (st : State) (i : Input J) : Type 0 where
    result : (round J B o st i).result ≡ ok (swept J st i)
    effects : granted t (round J B o st i).effects ≡ 0

  stale_round :
      (st : State) (i : Input J) (c : Command J) (generation now : ℕ) (io : Io)
      → i.branch ≡ command_ready (some c) generation now io
      → (c.generation == generation) ≡ false
      → Passes st i
  unfolding round housekeep on_branch on_command
  stale_round st i c generation now io e other =
      let quiet =
        granted-expire (expired_ids i.now (retain_open i.closed st.pending))
          (retain_open i.closed st.pending) in
      let ended : (fs : List (Effect J))
          → granted t fs ≡ 0
          → granted t (quiet_effects st i ++ fs) ≡ 0 =
        λ fs h. granted-append t (quiet_effects st i) fs ∙ omega (arith, quiet, h) in
      elim (Bool-cases (i.closed_later c.reply)) [
        | inl gone ↦ record {
          result = rw (e, on_branch, on_command, gone) refl;
          effects = rw (e, on_branch, on_command, gone) (ended [] (unfold granted in refl));
        }
        | inr open_yet ↦ record {
          result = rw (e, on_branch, on_command, open_yet, other) refl;
          effects =
              rw (e, on_branch, on_command, open_yet, other)
                (ended (reply c.reply (err disconnected) ∷ []) (unfold granted in refl));
        }
      ]

  -- It leaves none pending of a ticket that had none.
  none_swept :
      (st : State) (i : Input J) → held t st.pending ≡ 0 → held t (swept J st i).pending ≡ 0
  none_swept st i h = ground (
    arith,
    held-expire J t (expired_ids i.now (retain_open i.closed st.pending))
        (retain_open i.closed st.pending),
    held-retain_open t i.closed st.pending,
  )

  takes_cases :
      (b : Branch J)
      → (takes_ticket J t b ≡ 0)
        ⊎ ((c : Command J) × (generation : ℕ) × (now : ℕ) × (io : Io) × (b
              ≡ command_ready (some c) generation now io)
            × (c.reply ≡ t))
  takes_cases (timer_ready now later id io) = inl refl
  takes_cases (command_ready none generation now io) = inl refl
  takes_cases (command_ready (some c) generation now io) = elim (Bool-cases (c.reply == t)) [
    | inl e ↦ inr (c, generation, now, io, refl, (==_iff c.reply t).0 e)
    | inr e ↦ inl (rw e refl)
  ]
  takes_cases (frame_ready f now io) = inl refl

  module _ (g : ℕ) where
    unequal : (a b : ℕ) → a ≡ g → b ≢ g → (a == b) ≡ false
    unequal a b h k = ground (arith, h, k)

    -- A command with the ticket that a round takes is of another generation.
    stale_taken :
        (s : System J) (st : State) (i : Input J) (rest : List (Command J))
        → Takes J s i.branch rest
        → IsStale t g s
        → s.generation ≢ g
        → (takes_ticket J t i.branch ≡ 0) ⊎ Passes st i
    stale_taken s st i rest takes stale now_other = elim (takes_cases i.branch) [
      | inl none_taken ↦ inl none_taken
      | inr (c, generation, now, io, b, same) ↦
          let taken = subst (λ x. Takes J s x rest) b takes in
          let stamped_g = (subst (All (StaleCommand t g)) taken.0 stale.waits).0 same in
          inr (
            stale_round st i c generation now io b (
              unequal c.generation generation stamped_g
                (subst (λ n. n ≢ g) (sym taken.1) now_other)))
    ]

    pub served_stale :
        (s : System J) (st st' : State) (i : Input J) (rest : List (Command J))
        → held t st.pending ≡ 0
        → Takes J s i.branch rest
        → IsFresh J st i.branch
        → (round J B o st i).result ≡ ok st'
        → IsStale t g s
        → s.generation ≢ g
        → (held t st'.pending ≡ 0) × (granted t (round J B o st i).effects ≡ 0)
    served_stale s st st' i rest none_held takes fresh r stale other =
        elim (stale_taken s st i rest takes stale other) [
          | inl untaken ↦
              let account = round_account J B o t st st' i fresh r in
              let few = granted-le t (round J B o st i).effects in
              (
                omega (arith, account, untaken, none_held),
                omega (arith, account, untaken, none_held, few),
              )
          | inr passes ↦
              let same : swept J st i ≡ st' = ok-injective _ _ (sym passes.result ∙ r) in
              (subst (λ x. held t x.pending ≡ 0) same (none_swept st i none_held), passes.effects)
        ]

    pub failed_stale :
        (s : System J) (st : State) (i : Input J) (x : Error) (rest : List (Command J))
        → held t st.pending ≡ 0
        → Takes J s i.branch rest
        → IsFresh J st i.branch
        → (round J B o st i).result ≡ err x
        → IsStale t g s
        → s.generation ≢ g
        → granted t (round J B o st i).effects ≡ 0
    failed_stale s st i x rest none_held takes fresh r stale other =
        elim (stale_taken s st i rest takes stale other) [
          | inl untaken ↦
              let account = failed_round_account J B o t st i x fresh r in
              let few = granted-le t (round J B o st i).effects in
              omega (arith, account, untaken, none_held, few)
          | inr passes ↦ passes.effects
        ]
