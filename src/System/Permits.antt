-- ===== src/System/Permits.antt =====
-- The permits that a client gives out, in every order of steps.
use wu_kong_easy_sdk_rust.Base.{
  ℕ, ◌+◌, ◌≤◌, ◌<◌, ◌≡◌, String, Option, none, some, List, [], ◌∷◌, ◌++◌, length, length-append,
  arith, ap, ◌∙◌,
}
use wu_kong_easy_sdk_rust.Json.{Json, Base64}
use wu_kong_easy_sdk_rust.Types.Options.{Options}
use wu_kong_easy_sdk_rust.Session.State.{Command, Effect}
use wu_kong_easy_sdk_rust.Session.Round.{Branch, timer_ready, command_ready, frame_ready, start}
use wu_kong_easy_sdk_rust.System.{
  Phase, linked, stamped, holding, cleared, Caller, System, idle, holds_permit, held_by,
  outstanding, permits, command_of, Takes, CallerStep, link, stamp, acquire, clear, quit,
  after_step, Step, enter, call, push, count, announce, serve, fail, part, drain, stop, settle,
  open_run, destroy, Reaches, here, then_step,
}
use wu_kong_easy_sdk_rust.Session.Size.{commands_of, AtMost-round}

module _ (J : Json) (B : Base64) (o : Options) where
  held_by-append : (xs ys : List (Caller J)) → held_by J (xs ++ ys) ≡ held_by J xs + held_by J ys
  held_by-append [] ys = omega arith
  held_by-append (x ∷ xs) ys = omega (arith, held_by-append xs ys)

  -- The permits of callers of whom one is in the phase `p`.
  split :
      {xs : List (Caller J)} (before after : List (Caller J)) (t : ℕ) (p : Phase J)
      → xs ≡ before ++ (record { ticket = t; phase = p } ∷ after)
      → held_by J xs ≡ held_by J before + (holds_permit J p + held_by J after)
  split before after t p e = ap (held_by J) e ∙ held_by-append before _

  call-permits :
      {s : System J} (before after : List (Caller J)) (t : ℕ) (p : Phase J) (q : Option (Phase J))
      → s.callers ≡ before ++ (record { ticket = t; phase = p } ∷ after)
      → CallerStep J B o s t p q
      → permits J s ≤ o.max_in_flight
      → permits J (record s { callers = before ++ after_step J B o t q after }) ≤ o.max_in_flight
  call-permits before after t p q e (link online) h = omega (
    arith,
    h,
    split before after t p e,
    held_by-append before (record { ticket = t; phase = linked } ∷ after),
  )
  call-permits before after t p q e stamp h = omega (
    arith,
    h,
    split before after t p e,
    held_by-append before (record { ticket = t; phase = stamped _ } ∷ after),
  )
  call-permits before after t p q e (acquire {g} room) h = omega (
    arith,
    h,
    room,
    split before after t p e,
    held_by-append before (record { ticket = t; phase = holding g } ∷ after),
  )
  call-permits before after t p q e (clear {g} {params} c k y u d i n x v w) h = omega (
    arith,
    h,
    split before after t p e,
    held_by-append before
        (record { ticket = t; phase = cleared g params i (n + o.request_timeout) } ∷ after),
  )
  call-permits before after t p q e quit h =
      omega (arith, h, split before after t p e, held_by-append before after)

  length-Takes :
      (s : System J) (b : Branch J) (rest : List (Command J))
      → Takes J s b rest
      → length s.queue ≡ length rest + commands_of b
  length-Takes s (timer_ready now later id io) rest h = omega (arith, ap length h)
  length-Takes s (command_ready none generation now io) rest h =
      omega (arith, ap length h.0, ap length h.1)
  length-Takes s (command_ready (some c) generation now io) rest h = omega (arith, ap length h.0)
  length-Takes s (frame_ready f now io) rest h = omega (arith, ap length h)

  -- Each step keeps to the permits there are.
  permits-Step :
      {s s' : System J} {es : List (Effect J)}
      → Step J B o s es s'
      → permits J s ≤ o.max_in_flight
      → permits J s' ≤ o.max_in_flight
  permits-Step (enter alive) h = omega (arith, h)
  permits-Step (call before after t p q e st) h = call-permits before after t p q e st h
  permits-Step {s} (push before after t g params id deadline e open_now room) h = omega (
    arith,
    h,
    split before after t (cleared g params id deadline) e,
    held_by-append before after,
    length-append s.queue (command_of J t g params id deadline ∷ []),
  )
  permits-Step (count off on) h = omega (arith, h, ap (outstanding J) off)
  permits-Step (announce now e) h = unfold start in omega (arith, h, ap (outstanding J) e)
  permits-Step {s} (serve st st' i rest e takes fresh r) h =
      let grown = rw r at (AtMost-round J B o st i) in
      omega (arith, h, ap (outstanding J) e, length-Takes s i.branch rest takes, grown)
  permits-Step {s} (fail st i x rest e takes fresh r) h =
      omega (arith, h, length-Takes s i.branch rest takes)
  permits-Step (part e) h = omega (arith, h)
  permits-Step (drain c rest e q) h = omega (arith, h, ap length q)
  permits-Step stop h = omega (arith, h)
  permits-Step (settle x c rest e q) h = omega (arith, h, ap length q)
  permits-Step (open_run alive off q) h = omega (arith, h)
  permits-Step destroy h = omega (arith, h)

  -- However callers, session and worker take turns, the calls with a permit, the queued commands and
  -- the pending sends are at most `max_in_flight` together, from a client that is new.
  pub permits-Reaches :
      {s : System J} {es : List (Effect J)}
      → Reaches J B o (idle J) es s
      → permits J s ≤ o.max_in_flight
  permits-Reaches here = omega arith
  permits-Reaches (then_step r st) = permits-Step st (permits-Reaches r)

  -- So the queue, which has `max_in_flight` places, has one left for every call that has passed its test
  -- under the lock.
  push-room :
      {s : System J} {es : List (Effect J)} (before after : List (Caller J)) (t g : ℕ)
      (params : J.Value) (id : String) (deadline : ℕ)
      → Reaches J B o (idle J) es s
      → s.callers ≡ before ++ (record { ticket = t; phase = cleared g params id deadline } ∷ after)
      → length s.queue < o.max_in_flight
  push-room {s} before after t g params id deadline r e =
      omega (arith, permits-Reaches r, split before after t (cleared g params id deadline) e)
