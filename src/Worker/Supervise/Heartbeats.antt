-- ===== src/Worker/Supervise/Heartbeats.antt =====
-- The worker over the runs of `establish` and `session` themselves (src/client.rs): how a missing
-- pong reaches the application.
use mathlib.Core.Option.{some-injective}
use wu_kong_easy_sdk_rust.Base.{
  ℕ, ◌+◌, ◌≡◌, refl, String, Bool, true, false, ◌&&◌, Option, none, some, List, [], ◌∷◌, ◌++◌, map,
  arith, inl, inr, ◌∙◌, ap, sym, subst,
}
use wu_kong_easy_sdk_rust.Json.{Json, Base64}
use wu_kong_easy_sdk_rust.Types.Failure.{
  Error, Result, Result-cases, ok, err, server, timeout, reconnect_exhausted, disconnected,
  is_timeout,
}
use wu_kong_easy_sdk_rust.Types.Options.{Options}
use wu_kong_easy_sdk_rust.Types.Device.{Auth}
use wu_kong_easy_sdk_rust.Types.Messages.{ConnectResult, DisconnectReason, Event}
use wu_kong_easy_sdk_rust.Session.State.{Io, State}
use wu_kong_easy_sdk_rust.Session.Incoming.{Frame}
use wu_kong_easy_sdk_rust.Session.Round.{Input, start, session}
use wu_kong_easy_sdk_rust.Session.Answers.{one_if}
use wu_kong_easy_sdk_rust.Session.Heartbeat.{times_out, ends_overdue, times_out-session}
use wu_kong_easy_sdk_rust.Worker.Establish.{establish}
use wu_kong_easy_sdk_rust.Worker.Supervise.{
  WorkerState, Attempt, refused, served, Deed, emit, answer, wait, welcome, again, on_refused, part,
  on_outcome, on_served, pass,
}

module _ (J : Json) where
  -- How often the deeds tell the application that the pong is missing.
  unfoldable pub heartbeats : List (Deed J) → ℕ
  heartbeats [] = 0
  heartbeats (emit (Event.disconnect DisconnectReason.heartbeat_timeout) ∷ ds) = 1 + heartbeats ds
  heartbeats (_ ∷ ds) = heartbeats ds

  heartbeats-append :
      (ds es : List (Deed J)) → heartbeats (ds ++ es) ≡ heartbeats ds + heartbeats es
  unfolding heartbeats
  heartbeats-append [] es = omega arith
  heartbeats-append (emit (Event.disconnect DisconnectReason.heartbeat_timeout) ∷ ds) es =
      omega (arith, heartbeats-append ds es)
  heartbeats-append (_ ∷ ds) es = heartbeats-append ds es

  heartbeats-wait :
      (o : Options) (w : WorkerState) (random : ℕ) → heartbeats (wait J o w random) ≡ 0
  unfolding heartbeats wait
  heartbeats-wait o w random = ground arith

  heartbeats-answers :
      (tickets : List ℕ) → heartbeats (map (λ t. answer t disconnected) tickets) ≡ 0
  unfolding heartbeats
  heartbeats-answers [] = refl
  heartbeats-answers (t ∷ ts) = heartbeats-answers ts

  heartbeats-again :
      (o : Options) (ds : List (Deed J)) (w : WorkerState)
      → heartbeats (again J o ds w).deeds ≡ heartbeats ds
  unfolding again
  heartbeats-again o ds w =
      let one_more = heartbeats-append ds (emit (Event.error reconnect_exhausted) ∷ []) in
      unfold heartbeats in ground (arith, one_more)

  heartbeats-on_outcome :
      (o : Options) (ds : List (Deed J)) (w : WorkerState) (e : Error)
      → heartbeats (on_outcome J o ds w e).deeds ≡ heartbeats ds + one_if (is_timeout e)
  unfolding on_outcome heartbeats
  heartbeats-on_outcome o ds w (server code) =
      heartbeats-append ds (emit (Event.disconnect (DisconnectReason.server code)) ∷ [])
  heartbeats-on_outcome o ds w timeout =
      heartbeats-again o _ w
      ∙ heartbeats-append ds (
          emit (Event.disconnect DisconnectReason.heartbeat_timeout)
          ∷ emit (Event.error timeout)
          ∷ [])
  heartbeats-on_outcome o ds w e =
      heartbeats-again o _ w
      ∙ heartbeats-append ds
          (emit (Event.disconnect DisconnectReason.transport) ∷ emit (Event.error e) ∷ [])

  -- A session tells of a missing pong exactly if it ended with `Timeout`.
  heartbeats-on_served :
      (o : Options) (w : WorkerState) (random : ℕ) (r : ConnectResult) (e : Error) (queued : List ℕ)
      → heartbeats (on_served J o w random r e queued).deeds ≡ one_if (is_timeout e)
  unfolding on_served
  heartbeats-on_served o w random r e queued =
      let answered = map (λ t. answer t disconnected) queued in
      let waited = heartbeats-append (wait J o w random) (emit (Event.connect r) ∷ answered) in
      let all =
        heartbeats-on_outcome o (wait J o w random ++ (emit (Event.connect r) ∷ answered))
          (part (welcome w r)) e in
      unfold heartbeats in
      omega (arith, all, waited, heartbeats-wait o w random, heartbeats-answers queued)

  heartbeats-on_refused :
      (o : Options) (w : WorkerState) (random : ℕ) (e : Error)
      → heartbeats (on_refused J o w random e).deeds ≡ 0
  unfolding on_refused
  heartbeats-on_refused o w random e =
      let ds = wait J o w random ++ (emit (Event.error e) ∷ []) in
      let waited = heartbeats-append (wait J o w random) (emit (Event.error e) ∷ []) in
      unfold heartbeats in
      ground (arith, waited, heartbeats-wait o w random, heartbeats-again o ds w)

-- What an attempt meets: how the opening and the authentication go, the rounds of the session with
-- the clock at its start, and what is queued at its end.
pub record Trial (J : Json) : Type 0 where
  pub random : ℕ
  pub now_millis : ℕ
  pub id : String
  pub opening : Io
  pub writing : Io
  pub frames : List (Frame × Io)
  pub started : ℕ
  pub inputs : List (Input J)
  pub queued : List ℕ

abbrev is_ok {ℓ} : {A : Type ℓ} → Result A → Bool
is_ok (ok a) = true
is_ok (err e) = false

module _ (J : Json) (B : Base64) (o : Options) (auth : Auth) where
  -- `match self.establish().await` with `let outcome = self.session(&mut socket).await`; none while
  -- the session goes on.
  abbrev pub come_to : Trial J → Result ConnectResult → Result State → Option Attempt
  come_to x (err e) outcome = some (refused x.random e)
  come_to x (ok r) (ok s) = none
  come_to x (ok r) (err e) = some (served x.random r e x.queued)

  abbrev pub established : Trial J → Result ConnectResult
  established x = establish J o auth x.now_millis x.id x.opening x.writing x.frames

  abbrev pub attempt_of : Trial J → Option Attempt
  attempt_of x = come_to x (established x) (session J B o (start o x.started) x.inputs).result

  -- Whether the attempt gets a session that an overdue pong ends.
  abbrev pub loses_pong : Trial J → Bool
  loses_pong x = is_ok (established x) && ends_overdue J B o (start o x.started) x.inputs

  times_out-is_timeout : (e : Error) → times_out {A = State} (err e) ≡ is_timeout e
  times_out-is_timeout e = ground arith

  -- The application is told `HeartbeatTimeout` for an attempt exactly if its handshake succeeds and the
  -- round that ends its session is one whose timer finds the deadline of the awaited pong passed, and
  -- then it is told once. A timeout of the connection, of a write or of a send is never told so.
  pub heartbeats-pass :
      (w : WorkerState) (x : Trial J) (a : Attempt)
      → attempt_of x ≡ some a
      → heartbeats J (pass J o w a).deeds ≡ one_if (loses_pong x)
  unfolding pass
  heartbeats-pass w x a h = elim (Result-cases (established x)) [
    | inr (e, r) ↦
        let same = some-injective _ a (rw r at h) in
        subst (λ y. heartbeats J (pass J o w y).deeds ≡ one_if (loses_pong x)) same
          (rw r (heartbeats-on_refused J o w x.random e))
    | inl (c, r) ↦ elim (Result-cases (session J B o (start o x.started) x.inputs).result) [
      | inl (s, q) ↦ (let none_yet = rw (r, q) at h in cc)
      | inr (e, q) ↦
          let same = some-injective _ a (rw (r, q) at h) in
          let overdue = rw q at (times_out-session J B o (start o x.started) x.inputs) in
          subst (λ y. heartbeats J (pass J o w y).deeds ≡ one_if (loses_pong x)) same
            (rw r (
              heartbeats-on_served J o w x.random c e x.queued
              ∙ ap one_if (sym (times_out-is_timeout e) ∙ overdue)))
    ]
  ]
