-- ===== src/System/Accounts.antt =====
-- Where each send is, and how often it is answered, in every order of steps.
use wu_kong_easy_sdk_rust.Base.{
  ℕ, ◌+◌, ◌≤◌, ◌≡◌, Bool, Option, none, some, List, [], ◌∷◌, ◌++◌, arith, ap, ◌∙◌, ◌==◌,
}
use wu_kong_easy_sdk_rust.Json.{Json, Base64}
use wu_kong_easy_sdk_rust.Types.Failure.{Error, ok, err}
use wu_kong_easy_sdk_rust.Types.Options.{Options}
use wu_kong_easy_sdk_rust.Session.State.{State, Command, Effect}
use wu_kong_easy_sdk_rust.Session.Round.{
  Branch, timer_ready, command_ready, frame_ready, Input, start, round,
}
use wu_kong_easy_sdk_rust.System.{
  Stage, serving, Phase, cleared, Caller, System, idle, command_of, Takes, after_step, Step, enter,
  call, push, count, announce, serve, fail, part, drain, stop, settle, open_run, destroy, Reaches,
  here, then_step,
}
use wu_kong_easy_sdk_rust.Base.{ltb, if◌then◌else◌}
use wu_kong_easy_sdk_rust.Session.Answers.{one_if, held, answers, answers-append}
use wu_kong_easy_sdk_rust.Session.Rounds.{taken, IsFresh, kept_of-le, round-Balanced}

module _ (J : Json) where
  -- How many callers, queued commands and pending sends have a ticket.
  abbrev pub calling : ℕ → List (Caller J) → ℕ
  calling t [] = 0
  calling t (x ∷ xs) = one_if (x.ticket == t) + calling t xs

  abbrev pub queued : ℕ → List (Command J) → ℕ
  queued t [] = 0
  queued t (c ∷ cs) = one_if (c.reply == t) + queued t cs

  abbrev pub pending : ℕ → Stage → ℕ
  pending t (serving st) = held t st.pending
  pending t _ = 0

  -- Whether the ticket is still to be given out.
  abbrev pub unused : ℕ → System J → ℕ
  unused t s = if ltb t s.next_ticket then 0 else 1

  abbrev pub places : ℕ → System J → ℕ
  places t s = unused t s + calling t s.callers + queued t s.queue + pending t s.stage

  pub calling-append :
      (t : ℕ) (xs ys : List (Caller J)) → calling t (xs ++ ys) ≡ calling t xs + calling t ys
  calling-append t [] ys = omega arith
  calling-append t (x ∷ xs) ys = omega (arith, calling-append t xs ys)

  pub queued-append :
      (t : ℕ) (xs ys : List (Command J)) → queued t (xs ++ ys) ≡ queued t xs + queued t ys
  queued-append t [] ys = omega arith
  queued-append t (x ∷ xs) ys = omega (arith, queued-append t xs ys)

  -- The callers with a ticket, where one with the ticket `u` stands among them.
  pub calling-split :
      (t : ℕ) {xs : List (Caller J)} (before after : List (Caller J)) (u : ℕ) (p : Phase J)
      → xs ≡ before ++ (record { ticket = u; phase = p } ∷ after)
      → calling t xs ≡ calling t before + (one_if (u == t) + calling t after)
  calling-split t before after u p e = ap (calling t) e ∙ calling-append t before _

  -- The command that a branch takes, if its ticket is the one asked for.
  abbrev pub takes_ticket : ℕ → Branch J → ℕ
  takes_ticket t (command_ready (some c) generation now io) = one_if (c.reply == t)
  takes_ticket t _ = 0

  pub queued-Takes :
      (t : ℕ) (s : System J) (b : Branch J) (rest : List (Command J))
      → Takes J s b rest
      → queued t s.queue ≡ takes_ticket t b + queued t rest
  queued-Takes t s (timer_ready now later id io) rest h = omega (arith, ap (queued t) h)
  queued-Takes t s (command_ready none generation now io) rest h =
      omega (arith, ap (queued t) h.0, ap (queued t) h.1)
  queued-Takes t s (command_ready (some c) generation now io) rest h =
      omega (arith, ap (queued t) h.0)
  queued-Takes t s (frame_ready f now io) rest h = omega (arith, ap (queued t) h)

  pub taken-le : (t : ℕ) (gone : ℕ → Bool) (b : Branch J) → taken J t gone b ≤ takes_ticket t b
  taken-le t gone (timer_ready now later id io) = omega arith
  taken-le t gone (command_ready none generation now io) = omega arith
  taken-le t gone (command_ready (some c) generation now io) = ground arith
  taken-le t gone (frame_ready f now io) = omega arith

  module _ (B : Base64) (o : Options) where
    pub calling-call :
        (t : ℕ) (before after : List (Caller J)) (u : ℕ) (q : Option (Phase J))
        → calling t (before ++ after_step J B o u q after)
          ≤ calling t before + (one_if (u == t) + calling t after)
    calling-call t before after u none = omega (arith, calling-append t before after)
    calling-call t before after u (some p) =
        omega (arith, calling-append t before (record { ticket = u; phase = p } ∷ after))

    -- A round answers what it took from the queue or held before, or holds it afterwards.
    pub round_account :
        (t : ℕ) (st st' : State) (i : Input J)
        → IsFresh J st i.branch
        → (round J B o st i).result ≡ ok st'
        → answers t (round J B o st i).effects + held t st'.pending
          ≤ takes_ticket t i.branch + held t st.pending
    round_account t st st' i fresh r = omega (
      arith,
      rw r at ((round-Balanced J B o t st i fresh).account),
      taken-le t i.closed_later i.branch,
      kept_of-le J B o t st i,
    )

    pub failed_round_account :
        (t : ℕ) (st : State) (i : Input J) (e : Error)
        → IsFresh J st i.branch
        → (round J B o st i).result ≡ err e
        → answers t (round J B o st i).effects ≤ takes_ticket t i.branch + held t st.pending
    failed_round_account t st i e fresh r = omega (
      arith,
      rw r at ((round-Balanced J B o t st i fresh).account),
      taken-le t i.closed_later i.branch,
      kept_of-le J B o t st i,
    )

    -- No step makes a second place for a ticket, and an answer takes one away.
    places-Step :
        (t : ℕ) {s s' : System J} {es : List (Effect J)}
        → Step J B o s es s'
        → answers t es + places t s' ≤ places t s
    unfolding answers
    places-Step t (enter alive) = ground arith
    places-Step t (call before after u p q e st) =
        omega (arith, calling-split t before after u p e, calling-call t before after u q)
    places-Step t {s} (push before after u g params id deadline e open_now room) = omega (
      arith,
      calling-split t before after u (cleared g params id deadline) e,
      calling-append t before after,
      queued-append t s.queue (command_of J u g params id deadline ∷ []),
    )
    places-Step t (count off on) = omega (arith, ap (pending t) off)
    places-Step t (announce now e) = unfold start held in omega (arith, ap (pending t) e)
    places-Step t {s} (serve st st' i rest e takes fresh r) = omega (
      arith,
      ap (pending t) e,
      queued-Takes t s i.branch rest takes,
      round_account t st st' i fresh r,
    )
    places-Step t {s} (fail st i x rest e takes fresh r) = omega (
      arith,
      ap (pending t) e,
      queued-Takes t s i.branch rest takes,
      failed_round_account t st i x fresh r,
    )
    places-Step t (part e) = omega arith
    places-Step t (drain c rest e q) = omega (arith, ap (queued t) q)
    places-Step t stop = omega arith
    places-Step t (settle x c rest e q) = omega (arith, ap (queued t) q)
    places-Step t (open_run alive off q) = omega arith
    places-Step t destroy = omega arith

    -- However the callers of a client, its sessions, its reconnects and its runs take turns, no send is
    -- answered twice, and one that is answered is neither with a caller nor in the queue nor pending
    -- any more. The IDs of commands do not collide with those of pending sends.
    pub answers-Reaches :
        (t : ℕ) {s : System J} {es : List (Effect J)}
        → Reaches J B o (idle J) es s
        → answers t es + places t s ≤ 1
    unfolding answers
    answers-Reaches t here = ground arith
    answers-Reaches t (then_step {es} {fs} r st) =
        omega (arith, answers-append t es fs, answers-Reaches t r, places-Step t st)
