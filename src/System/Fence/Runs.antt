-- ===== src/System/Fence/Runs.antt =====
-- The steps and runs of the system (src/client.rs) for a send that was stamped on an earlier socket.
use wu_kong_easy_sdk_rust.Base.{
  ℕ, ◌<◌, ◌≡◌, ◌≢◌, refl, List, [], ◌∷◌, arith, ap, sym, ◌∙◌, subst, All, All-append, All-split,
}
use wu_kong_easy_sdk_rust.Json.{Json, Base64}
use wu_kong_easy_sdk_rust.Types.Failure.{Error, err, disconnected}
use wu_kong_easy_sdk_rust.Types.Options.{Options}
use wu_kong_easy_sdk_rust.Session.State.{Command, Effect, reply}
use wu_kong_easy_sdk_rust.Session.Round.{start}
use wu_kong_easy_sdk_rust.Session.Answers.{held}
use wu_kong_easy_sdk_rust.System.{
  System, Step, enter, call, push, count, announce, serve, fail, part, drain, stop, settle,
  open_run, destroy, Reaches, here, then_step,
}
use wu_kong_easy_sdk_rust.System.Accounts.{pending}
use wu_kong_easy_sdk_rust.System.Fence.{
  granted, granted-append, StaleCaller, StaleCommand, IsStale, stale_after, stale_rest,
}
use wu_kong_easy_sdk_rust.System.Fence.Rounds.{served_stale, failed_stale}

module _ (J : Json) (B : Base64) (o : Options) (t g : ℕ) where
  -- Only the queue has changed, and nothing is granted.
  fewer :
      (s s' : System J) (c : Command J) (e : Error)
      → IsStale t g s
      → t < s'.next_ticket
      → All (StaleCaller t g) s'.callers
      → All (StaleCommand t g) s'.queue
      → pending J t s'.stage ≡ 0
      → IsStale t g s' × (granted {J = J} t (reply c.reply (err e) ∷ []) ≡ 0)
  unfolding granted
  fewer s s' c e v old called waits unanswered =
      (record { old = old; called = called; waits = waits; unanswered = unanswered }, refl)

  IsStale-Step :
      {s s' : System J} {es : List (Effect J)}
      → Step J B o s es s'
      → IsStale t g s
      → s.generation ≢ g
      → IsStale t g s' × (granted t es ≡ 0)
  unfolding granted
  IsStale-Step (enter alive) v n = (
    record {
      old = omega (arith, v.old);
      called = (λ same. omega (arith, same, v.old), v.called);
      waits = v.waits;
      unanswered = v.unanswered;
    },
    refl,
  )
  IsStale-Step {s} (call before after u p q e st) v n =
      let (a, b) =
        All-split (StaleCaller t g) before _ (subst (All (StaleCaller t g)) e v.called) in
      (
        record {
          old = v.old;
          called = All-append (StaleCaller t g) before _ a (stale_after t g u p q after st b.0 b.1);
          waits = v.waits;
          unanswered = v.unanswered;
        },
        refl,
      )
  IsStale-Step {s} (push before after u k params id deadline e open_now room) v n =
      let (a, b) =
        All-split (StaleCaller t g) before _ (subst (All (StaleCaller t g)) e v.called) in
      (
        record {
          old = v.old;
          called = All-append (StaleCaller t g) before after a b.1;
          waits = All-append (StaleCommand t g) s.queue _ v.waits (b.0, tt);
          unanswered = v.unanswered;
        },
        refl,
      )
  IsStale-Step (count off on) v n =
      (record { old = v.old; called = v.called; waits = v.waits; unanswered = refl }, refl)
  IsStale-Step (announce now e) v n = (
    record {
      old = v.old;
      called = v.called;
      waits = v.waits;
      unanswered = unfold start held in refl;
    },
    refl,
  )
  IsStale-Step {s} (serve st st' i rest e takes fresh r) v n =
      let (kept, quiet) =
        served_stale J B o t g s st st' i rest (sym (ap (pending J t) e) ∙ v.unanswered) takes fresh
          r v n in
      (
        record {
          old = v.old;
          called = v.called;
          waits = stale_rest t g s i.branch rest takes v.waits;
          unanswered = kept;
        },
        quiet,
      )
  IsStale-Step {s} (fail st i x rest e takes fresh r) v n = (
    record {
      old = v.old;
      called = v.called;
      waits = stale_rest t g s i.branch rest takes v.waits;
      unanswered = refl;
    },
    failed_stale J B o t g s st i x rest (sym (ap (pending J t) e) ∙ v.unanswered) takes fresh r v
        n,
  )
  IsStale-Step (part e) v n =
      (record { old = v.old; called = v.called; waits = v.waits; unanswered = refl }, refl)
  IsStale-Step {s} {s'} (drain c rest e q) v n =
      fewer s s' c disconnected v v.old v.called (subst (All (StaleCommand t g)) q v.waits).1
        v.unanswered
  IsStale-Step stop v n =
      (record { old = v.old; called = v.called; waits = v.waits; unanswered = refl }, refl)
  IsStale-Step {s} {s'} (settle x c rest e q) v n =
      fewer s s' c x v v.old v.called (subst (All (StaleCommand t g)) q v.waits).1 v.unanswered
  IsStale-Step (open_run alive off q) v n =
      (record { old = v.old; called = v.called; waits = v.waits; unanswered = v.unanswered }, refl)
  IsStale-Step destroy v n =
      (record { old = v.old; called = v.called; waits = v.waits; unanswered = v.unanswered }, refl)

  -- Before none of the steps is `g` the generation of the socket.
  abbrev pub Avoids : {s s' : System J} {es : List (Effect J)} → Reaches J B o s es s' → Type 0
  Avoids here = Unit
  Avoids (then_step {t = u} r st) = Avoids r × (u.generation ≢ g)

  -- A send that has read the generation `g` and is with its caller or in the queue, while the generation
  -- is another: over any run in which the counter does not come back to `g`, it is never pending on a
  -- later socket and no answer to it says that the server has accepted it. The IDs of commands
  -- do not collide with those of pending sends.
  pub granted-Reaches :
      {s s' : System J} {es : List (Effect J)} (r : Reaches J B o s es s')
      → IsStale t g s
      → Avoids r
      → (granted t es ≡ 0) × IsStale t g s'
  granted-Reaches here v far = (unfold granted in refl, v)
  granted-Reaches (then_step {es} {fs} r st) v far =
      let (quiet, w) = granted-Reaches r v far.0 in
      let (w', quiet') = IsStale-Step st w far.1 in
      (granted-append t es fs ∙ omega (arith, quiet, quiet'), w')
