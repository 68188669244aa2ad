-- ===== src/Worker/Supervise/Pairing.antt =====
-- The events of the supervision: how connections open, close and are announced.
use wu_kong_easy_sdk_rust.Base.{
  ℕ, ◌≡◌, refl, Bool, true, false, not, ◌||◌, Option, none, some, List, [], ◌∷◌, ◌++◌, map, leb,
  arith, and_then, Bool-cases, Option-cases, inl, inr, ◌∙◌, if◌then◌else◌,
}
use wu_kong_easy_sdk_rust.Json.{Json}
use wu_kong_easy_sdk_rust.Types.Failure.{Error, server, reconnect_exhausted, disconnected}
use wu_kong_easy_sdk_rust.Types.Options.{Options}
use wu_kong_easy_sdk_rust.Types.Messages.{ConnectResult, DisconnectReason, Event}
use wu_kong_easy_sdk_rust.Worker.Supervise.{
  WorkerState, Attempt, refused, served, Deed, emit, sleep, answer, wait, welcome, again,
  is_rejection, on_refused, part, on_outcome, on_served, pass, supervise, reason,
}

module _ (J : Json) where
  -- Whether a connection is open after the deeds, from whether one is open before: nothing if one is
  -- opened or awaited while another is open, or closed while none is.
  unfoldable pub track : Bool → List (Deed J) → Option Bool
  track up [] = some up
  track up (emit (Event.connect r) ∷ ds) = let next = track true ds in if up then none else next
  track up (emit (Event.disconnect r) ∷ ds) = let next = track false ds in if up then next else none
  track up (emit (Event.reconnecting n d) ∷ ds) =
      let next = track false ds in if up then none else next
  track up (sleep d ∷ ds) = let next = track false ds in if up then none else next
  track up (emit (Event.message m) ∷ ds) = track up ds
  track up (emit (Event.send_ack a) ∷ ds) = track up ds
  track up (emit (Event.custom_event c) ∷ ds) = track up ds
  track up (emit (Event.error e) ∷ ds) = track up ds
  track up (answer t e ∷ ds) = track up ds

  track-append :
      (up : Bool) (ds es : List (Deed J))
      → track up (ds ++ es) ≡ and_then (track up ds) (λ now. track now es)
  unfolding track
  track-append up [] es = refl
  track-append up (emit (Event.connect r) ∷ ds) es = ground (arith, track-append true ds es)
  track-append up (emit (Event.disconnect r) ∷ ds) es = ground (arith, track-append false ds es)
  track-append up (emit (Event.reconnecting n d) ∷ ds) es = ground (arith, track-append false ds es)
  track-append up (emit (Event.message m) ∷ ds) es = track-append up ds es
  track-append up (emit (Event.send_ack a) ∷ ds) es = track-append up ds es
  track-append up (emit (Event.custom_event c) ∷ ds) es = track-append up ds es
  track-append up (emit (Event.error e) ∷ ds) es = track-append up ds es
  track-append up (sleep d ∷ ds) es = ground (arith, track-append false ds es)
  track-append up (answer t e ∷ ds) es = track-append up ds es

  track-wait :
      (o : Options) (w : WorkerState) (random : ℕ) → track false (wait J o w random) ≡ some false
  unfolding track wait
  track-wait o w random = ground arith

  track-again :
      (o : Options) (ds : List (Deed J)) (w : WorkerState)
      → track false ds ≡ some false
      → track false (again J o ds w).deeds ≡ some false
  unfolding again track
  track-again o ds w h = elim (Bool-cases (leb o.max_reconnect_attempts w.attempt)) [
    | inl e ↦
        rw (e, again)
          (track-append false ds (emit (Event.error reconnect_exhausted) ∷ []) ∙ rw h refl)
    | inr e ↦ rw (e, again) h
  ]

  track-answers :
      (queued : List ℕ) → track true (map (λ t. answer t disconnected) queued) ≡ some true
  unfolding track
  track-answers [] = refl
  track-answers (t ∷ queued) = track-answers queued

  -- A connection is open when a session ends.
  track-opened :
      (o : Options) (w : WorkerState) (random : ℕ) (r : ConnectResult) (queued : List ℕ)
      → track false
          (wait J o w random ++ (emit (Event.connect r) ∷ map (λ t. answer t disconnected) queued))
        ≡ some true
  unfolding track
  track-opened o w random r queued =
      track-append false (wait J o w random) _ ∙ rw (track-wait o w random) (track-answers queued)

  track-closed :
      (ds : List (Deed J)) (reason : DisconnectReason) (e : Error)
      → track false ds ≡ some true
      → track false (ds ++ (emit (Event.disconnect reason) ∷ emit (Event.error e) ∷ []))
        ≡ some false
  unfolding track
  track-closed ds reason e h = track-append false ds _ ∙ rw h refl

  track-on_outcome :
      (o : Options) (ds : List (Deed J)) (w : WorkerState) (e : Error)
      → track false ds ≡ some true
      → track false (on_outcome J o ds w e).deeds ≡ some false
  unfolding on_outcome track
  track-on_outcome o ds w (server code) h = track-append false ds _ ∙ rw h refl
  track-on_outcome o ds w e h = track-again o _ w (track-closed ds _ _ h)

  track-pass :
      (o : Options) (w : WorkerState) (a : Attempt) → track false (pass J o w a).deeds ≡ some false
  unfolding pass on_served on_refused track
  track-pass o w (served random r outcome queued) =
      track-on_outcome o _ (part (welcome w r)) outcome (track-opened o w random r queued)
  track-pass o w (refused random e) =
      let failed =
        track-append false (wait J o w random) (emit (Event.error e) ∷ [])
        ∙ rw (track-wait o w random) refl in
      elim (Bool-cases (not w.established || is_rejection e)) [
        | inl h ↦ rw (h, on_refused) failed
        | inr h ↦ rw (h, on_refused) (track-again o _ w failed)
      ]

  -- Whatever its attempts come to, the worker opens and closes connections in turn: each `Connect`
  -- is followed by one `Disconnect` before the next `Connect` or the end, and `Reconnecting` and the
  -- delays come only while no connection is open.
  pub track-supervise :
      (o : Options) (w : WorkerState) (tries : List Attempt)
      → track false (supervise J o w tries).deeds ≡ some false
  unfolding supervise track
  track-supervise o w [] = refl
  track-supervise o w (a ∷ tries) = elim (Option-cases (pass J o w a).ended) [
    | inl e ↦
        rw (e, supervise)
          (track-append false (pass J o w a).deeds _
            ∙ rw (track-pass o w a) (track-supervise o (pass J o w a).worker tries))
    | inr (x, e) ↦ rw (e, supervise) (track-pass o w a)
  ]
