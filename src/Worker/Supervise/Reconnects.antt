-- ===== src/Worker/Supervise/Reconnects.antt =====
-- How many attempts to reconnect the supervision makes, and how long it waits before each.
use wu_kong_easy_sdk_rust.Base.{
  ℕ, ◌+◌, ◌-◌, ◌≤◌, ◌≡◌, true, false, not, ◌||◌, none, some, List, [], ◌∷◌, ◌++◌, map, All, length,
  ltb, leb, arith, Bool-cases, Option-cases, inl, inr, if◌then◌else◌,
}
use wu_kong_easy_sdk_rust.Json.{Json}
use wu_kong_easy_sdk_rust.Types.Failure.{Error, server, reconnect_exhausted, disconnected}
use wu_kong_easy_sdk_rust.Types.Options.{Options}
use wu_kong_easy_sdk_rust.Types.Options.Validity.{IsLimited}
use wu_kong_easy_sdk_rust.Types.Messages.{Event}
use wu_kong_easy_sdk_rust.Backoff.Bounds.{reconnect_delay_bounds}
use wu_kong_easy_sdk_rust.Worker.Supervise.{
  WorkerState, Attempt, refused, served, Deed, emit, sleep, answer, wait, welcome, again,
  is_rejection, on_refused, part, on_outcome, on_served, pass, supervise,
}

-- Attempts that fail, with the numbers that their delays draw.
abbrev pub refusals : List (ℕ × Error) → List Attempt
refusals [] = []
refusals ((random, e) ∷ es) = refused random e ∷ refusals es

abbrev pub IsTransient : ℕ × Error → Type 0
IsTransient (random, e) = is_rejection e ≡ false

module _ (J : Json) (o : Options) where
  -- Once a connection was established, attempts that fail for no rejection are made until
  -- `max_reconnect_attempts` of them are spent, counting those before, and the loop then ends with
  -- `ReconnectExhausted`: it goes on after that many failures or fewer and never survives one more.
  pub supervise-refusals :
      (w : WorkerState) (es : List (ℕ × Error))
      → w.established ≡ true
      → w.attempt ≤ o.max_reconnect_attempts
      → All IsTransient es
      → (supervise J o w (refusals es)).ended ≡ (
          if leb (length es) (o.max_reconnect_attempts - w.attempt)
          then none
          else some reconnect_exhausted)
  unfolding supervise pass on_refused again
  supervise-refusals w [] h k t = ground arith
  supervise-refusals w ((random, e) ∷ es) h k t =
      ground (arith, supervise-refusals (record w { attempt = w.attempt + 1 }) es)

  -- An announced attempt is one of those configured, and its delay is within the maximum.
  abbrev pub IsAnnounced : Deed J → Type 0
  IsAnnounced (emit (Event.reconnecting n delay)) =
      (1 ≤ n) × (n ≤ o.max_reconnect_attempts) × (delay ≤ o.max_reconnect_delay)
  IsAnnounced (sleep delay) = delay ≤ o.max_reconnect_delay
  IsAnnounced _ = Unit

  All-append :
      (ds es : List (Deed J)) → All IsAnnounced ds → All IsAnnounced es → All IsAnnounced (ds ++ es)
  All-append [] es h k = k
  All-append (d ∷ ds) es (h, hs) k = (h, All-append ds es hs k)

  wait-IsAnnounced :
      (w : WorkerState) (random : ℕ)
      → IsLimited o
      → w.attempt ≤ o.max_reconnect_attempts
      → All IsAnnounced (wait J o w random)
  unfolding wait
  wait-IsAnnounced w random l h = elim (Bool-cases (ltb 0 w.attempt)) [
    | inl e ↦
        let (_, _, below) = reconnect_delay_bounds o w.attempt random l in
        rw (e, wait) ((ground arith, h, below), (below, tt))
    | inr e ↦ rw (e, wait) tt
  ]

  again-IsAnnounced :
      (ds : List (Deed J)) (w : WorkerState)
      → All IsAnnounced ds
      → All IsAnnounced (again J o ds w).deeds
  unfolding again
  again-IsAnnounced ds w h = elim (Bool-cases (leb o.max_reconnect_attempts w.attempt)) [
    | inl e ↦ rw (e, again) (All-append ds _ h (tt, tt))
    | inr e ↦ rw (e, again) h
  ]

  again-attempt :
      (ds : List (Deed J)) (w : WorkerState)
      → w.attempt ≤ o.max_reconnect_attempts
      → (again J o ds w).worker.attempt ≤ o.max_reconnect_attempts
  unfolding again
  again-attempt ds w h = ground arith

  answers-IsAnnounced :
      (queued : List ℕ) → All IsAnnounced (map (λ t. answer t disconnected) queued)
  answers-IsAnnounced [] = tt
  answers-IsAnnounced (t ∷ queued) = (tt, answers-IsAnnounced queued)

  on_outcome-IsAnnounced :
      (ds : List (Deed J)) (w : WorkerState) (e : Error)
      → All IsAnnounced ds
      → All IsAnnounced (on_outcome J o ds w e).deeds
  unfolding on_outcome
  on_outcome-IsAnnounced ds w (server code) h = All-append ds _ h (tt, tt)
  on_outcome-IsAnnounced ds w e h = again-IsAnnounced _ w (All-append ds _ h (tt, (tt, tt)))

  on_outcome-attempt :
      (ds : List (Deed J)) (w : WorkerState) (e : Error)
      → w.attempt ≤ o.max_reconnect_attempts
      → (on_outcome J o ds w e).worker.attempt ≤ o.max_reconnect_attempts
  unfolding on_outcome
  on_outcome-attempt ds w (server code) h = h
  on_outcome-attempt ds w e h = again-attempt _ w h

  pass-IsAnnounced :
      (w : WorkerState) (a : Attempt)
      → IsLimited o
      → w.attempt ≤ o.max_reconnect_attempts
      → All IsAnnounced (pass J o w a).deeds
        × ((pass J o w a).worker.attempt ≤ o.max_reconnect_attempts)
  unfolding pass on_served on_refused part welcome
  pass-IsAnnounced w (served random r e queued) l h = (
    on_outcome-IsAnnounced _ _ e (
        All-append (wait J o w random) _ (wait-IsAnnounced w random l h)
          (tt, answers-IsAnnounced queued)),
    on_outcome-attempt _ (part (welcome w r)) e (omega arith),
  )
  pass-IsAnnounced w (refused random e) l h =
      let failed =
        All-append (wait J o w random) (emit (Event.error e) ∷ []) (wait-IsAnnounced w random l h)
          (tt, tt) in
      elim (Bool-cases (not w.established || is_rejection e)) [
        | inl k ↦ rw (k, on_refused) (failed, h)
        | inr k ↦ rw (k, on_refused) (again-IsAnnounced _ w failed, again-attempt _ w h)
      ]

  -- With options within the limits, every `Reconnecting` event of the loop carries a number from 1 to
  -- `max_reconnect_attempts` and a delay of at most `max_reconnect_delay`, and every sleep is at most
  -- that long. The loop starts with no more than those attempts counted.
  pub supervise-IsAnnounced :
      (w : WorkerState) (tries : List Attempt)
      → IsLimited o
      → w.attempt ≤ o.max_reconnect_attempts
      → All IsAnnounced (supervise J o w tries).deeds
  unfolding supervise
  supervise-IsAnnounced w [] l h = tt
  supervise-IsAnnounced w (a ∷ tries) l h =
      let (announced, left) = pass-IsAnnounced w a l h in
      elim (Option-cases (pass J o w a).ended) [
        | inl e ↦
            rw (e, supervise)
              (All-append (pass J o w a).deeds _ announced
                (supervise-IsAnnounced (pass J o w a).worker tries l left))
        | inr (y, e) ↦ rw (e, supervise) announced
      ]
