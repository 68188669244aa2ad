-- ===== src/Worker/Supervise/Ends.antt =====
-- How the supervision and the worker end, and what the first caller of `connect` is told.
use wu_kong_easy_sdk_rust.Base.{
  ℕ, ◌<◌, ◌≡◌, ◌↔◌, refl, true, false, none, some, List, [], ◌∷◌, arith, Option-cases, inl, inr,
}
use wu_kong_easy_sdk_rust.Json.{Json}
use wu_kong_easy_sdk_rust.Types.Failure.{Error, Result, ok, err, server, disconnected}
use wu_kong_easy_sdk_rust.Types.Options.{Options}
use wu_kong_easy_sdk_rust.Types.Messages.{ConnectResult}
use wu_kong_easy_sdk_rust.Worker.Supervise.{
  Status, WorkerState, Attempt, refused, served, Cut, before_socket, in_session, Deed, welcome,
  again, is_rejection, on_refused, part, on_outcome, on_served, pass, supervise, cancelled, finish,
  run,
}

-- When the loop goes on after an attempt.
abbrev pub WillRetry : Options → WorkerState → Attempt → Type 0
WillRetry o w (refused random e) =
    (w.established ≡ true) × (is_rejection e ≡ false) × (w.attempt < o.max_reconnect_attempts)
WillRetry o w (served random r (server code) queued) = ⊥
WillRetry o w (served random r e queued) = 0 < o.max_reconnect_attempts

-- The first answer to `connect`: it is decided by the first attempt alone.
abbrev pub first_answer : List Attempt → Cut → Result ConnectResult
first_answer [] (before_socket random) = err disconnected
first_answer [] (in_session random r) = ok r
first_answer (refused random e ∷ tries) cut = err e
first_answer (served random r e queued ∷ tries) cut = ok r

-- The cells of a worker that `connect` has just made.
abbrev pub fresh : ℕ → WorkerState
fresh generation = record {
  connected = false;
  generation = generation;
  status = Status.connecting;
  first_result = none;
  established = false;
  attempt = 0;
}

module _ (J : Json) (o : Options) where
  again-ended_iff :
      (ds : List (Deed J)) (w : WorkerState)
      → ((again J o ds w).ended ≡ none) ↔ (w.attempt < o.max_reconnect_attempts)
  unfolding again
  again-ended_iff ds w = ground arith

  -- The loop goes on after an attempt exactly if attempts are left and the failure is no rejection
  -- and not the very first; after a session, exactly if the server did not end it and reconnecting is
  -- allowed at all.
  pub pass-ended_iff :
      (w : WorkerState) (a : Attempt) → ((pass J o w a).ended ≡ none) ↔ WillRetry o w a
  unfolding pass on_refused on_served on_outcome again part welcome
  pass-ended_iff w (refused random e) = ground arith
  pass-ended_iff w (served random r (server code) queued) = (λ h. ground arith, λ h. ground arith)
  pass-ended_iff w (served random r e queued) = again-ended_iff _ _

  -- A first result stays.
  first_result-pass :
      (w : WorkerState) (a : Attempt) (x : Result ConnectResult)
      → w.first_result ≡ some x
      → (pass J o w a).worker.first_result ≡ some x
  unfolding pass on_refused on_served on_outcome again part welcome
  first_result-pass w (refused random e) x h = ground arith
  first_result-pass w (served random r (server code) queued) x h = rw h refl
  first_result-pass w (served random r e queued) x h = ground arith

  first_result-supervise :
      (w : WorkerState) (tries : List Attempt) (x : Result ConnectResult)
      → w.first_result ≡ some x
      → (supervise J o w tries).worker.first_result ≡ some x
  unfolding supervise
  first_result-supervise w [] x h = h
  first_result-supervise w (a ∷ tries) x h = elim (Option-cases (pass J o w a).ended) [
    | inl e ↦
        rw (e, supervise)
          (first_result-supervise (pass J o w a).worker tries x (first_result-pass w a x h))
    | inr (y, e) ↦ rw (e, supervise) (first_result-pass w a x h)
  ]

  first_result-cancelled :
      (w : WorkerState) (cut : Cut) (x : Result ConnectResult)
      → w.first_result ≡ some x
      → (cancelled J o w cut).1.first_result ≡ some x
  unfolding cancelled welcome
  first_result-cancelled w (before_socket random) x h = h
  first_result-cancelled w (in_session random r) x h = rw h refl

  -- The cell of a run whose loop left it filled.
  first_result-run :
      (w : WorkerState) (tries : List Attempt) (cut : Cut) (queued : List ℕ)
      (x : Result ConnectResult)
      → (supervise J o w tries).worker.first_result ≡ some x
      → (run J o w tries cut queued).1.first_result ≡ some x
  unfolding run finish cancelled welcome
  first_result-run w tries cut queued x h = elim (Option-cases (supervise J o w tries).ended) [
    | inr (e, k) ↦ rw (k, run, finish, h) refl
    | inl k ↦
        rw (k, run, finish, first_result-cancelled (supervise J o w tries).worker cut x h) refl
  ]

  -- A worker whose first socket stands has its first result.
  first_result-served :
      (w : WorkerState) (random : ℕ) (r : ConnectResult) (e : Error) (queued : List ℕ)
      → w.first_result ≡ none
      → (pass J o w (served random r e queued)).worker.first_result ≡ some (ok r)
  unfolding pass on_served on_outcome again part welcome
  first_result-served w random r (server code) queued h = rw h refl
  first_result-served w random r e queued h = ground arith

  first_result-opened :
      (w : WorkerState) (a : Attempt) (tries : List Attempt) (x : Result ConnectResult)
      → (pass J o w a).worker.first_result ≡ some x
      → (supervise J o w (a ∷ tries)).worker.first_result ≡ some x
  unfolding supervise
  first_result-opened w a tries x h = elim (Option-cases (pass J o w a).ended) [
    | inl e ↦ rw (e, supervise) (first_result-supervise (pass J o w a).worker tries x h)
    | inr (y, e) ↦ rw (e, supervise) h
  ]

  run-closed :
      (w : WorkerState) (tries : List Attempt) (cut : Cut) (queued : List ℕ)
      → ((run J o w tries cut queued).1.connected ≡ false)
        × ((e : Error) × ((run J o w tries cut queued).1.status ≡ Status.failed e))
  unfolding run finish
  run-closed w tries cut queued = elim (Option-cases (supervise J o w tries).ended) [
    | inr (e, k) ↦ rw (k, run, finish) (refl, (e, refl))
    | inl k ↦ rw (k, run, finish) (refl, (disconnected, refl))
  ]

  first_result-run-fresh :
      (g : ℕ) (tries : List Attempt) (cut : Cut) (queued : List ℕ)
      → (run J o (fresh g) tries cut queued).1.first_result ≡ some (first_answer tries cut)
  unfolding run supervise pass on_refused finish cancelled welcome
  first_result-run-fresh g [] (before_socket random) queued = refl
  first_result-run-fresh g [] (in_session random r) queued = refl
  first_result-run-fresh g (refused random e ∷ tries) cut queued = refl
  first_result-run-fresh g (served random r e waiting ∷ tries) cut queued =
      first_result-run (fresh g) (served random r e waiting ∷ tries) cut queued _ (
        first_result-opened (fresh g) (served random r e waiting) tries _
          (first_result-served (fresh g) random r e waiting refl))

  -- A new worker answers the first `connect` by its first attempt: with the error if the attempt
  -- failed, which ends the worker, with its result if the server accepted it, whatever comes later,
  -- and with `Disconnected` if it was cancelled before. When the worker has ended it is not
  -- connected, and the status is a failure.
  pub run-fresh :
      (g : ℕ) (tries : List Attempt) (cut : Cut) (queued : List ℕ)
      → let w = (run J o (fresh g) tries cut queued).1 in
        (w.first_result ≡ some (first_answer tries cut))
        × ((w.connected ≡ false) × ((e : Error) × (w.status ≡ Status.failed e)))
  run-fresh g tries cut queued =
      (first_result-run-fresh g tries cut queued, run-closed (fresh g) tries cut queued)
