-- ===== src/Client/Handle/Lifecycle.antt =====
-- What `destroy` leaves of a handle, and how calls of `connect` join.
use wu_kong_easy_sdk_rust.Base.{
  ℕ, ◌≡◌, refl, Bool, false, Option, none, some, List, arith, Bool-cases, inl, inr,
}
use wu_kong_easy_sdk_rust.Json.{Json}
use wu_kong_easy_sdk_rust.Types.Failure.{Result, ok, err, destroyed}
use wu_kong_easy_sdk_rust.Types.Messages.{ConnectResult}
use wu_kong_easy_sdk_rust.Worker.Supervise.{Status}
use wu_kong_easy_sdk_rust.Client.Handle.{
  Running, Handle, join, connect, disconnect, destroy, new_run, needs_run, undecided,
}

module _ (J : Json) where
  -- After `destroy`, a client that had a run refuses every `connect` with `Destroyed`, and has neither
  -- a run nor a connection.
  pub destroy-refuses :
      (h : Handle J) (has_runtime : Bool) (task : ℕ)
      (first_seen : List (Option (Result ConnectResult))) (status_seen : List Status)
      (run : Running J)
      → h.running ≡ some run
      → (connect J has_runtime task (destroy J h) first_seen status_seen ≡ err destroyed)
        × ((destroy J h).connected ≡ false)
        × ((destroy J h).running ≡ none)
  unfolding destroy disconnect connect join
  destroy-refuses h has_runtime task first_seen status_seen run k = ground (arith, k)

  let_in :
      (h h' : Handle J) (has_runtime initial : Bool) (task : ℕ)
      → join J has_runtime task h ≡ ok (h', initial)
      → (h'.is_destroyed ≡ false) × (needs_run J h'.running ≡ false)
  unfolding join
  let_in h h' has_runtime initial task e = elim (Bool-cases h.is_destroyed) [
    | inl a ↦ ground (arith, a, e)
    | inr a ↦ elim (Bool-cases (needs_run J h.running)) [
      | inr b ↦ let same : h ≡ h' = ground (arith, a, b, e) in rw (← same) (a, b)
      | inl b ↦
          let same : record h { running = some (new_run J task) } ≡ h' = ground (arith, a, b, e) in
          rw (← same) (a, refl)
    ]
  ]

  -- Calls of `connect` join: after one that was let in, the next keeps the handle as it is, with the run of
  -- the same task whatever task it might have spawned, and awaits the first result as long as that is
  -- not decided.
  pub join-again :
      (h h' : Handle J) (has_runtime has_runtime' initial : Bool) (task task' : ℕ)
      → join J has_runtime task h ≡ ok (h', initial)
      → join J has_runtime' task' h' ≡ ok (h', undecided J h'.running)
  unfolding join
  join-again h h' has_runtime has_runtime' initial task task' e =
      let (alive, runs) = let_in h h' has_runtime initial task e in simp (alive, runs, join)
