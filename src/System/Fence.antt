-- ===== src/System/Fence.antt =====
-- What becomes of a send that was stamped with the generation of an earlier socket (src/client.rs).
pub mod Rounds
pub mod Runs
use wu_kong_easy_sdk_rust.Base.{
  ℕ, suc, ◌+◌, ◌≤◌, ◌<◌, ◌≡◌, ◌≢◌, refl, String, Bool, true, false, Option, none, some, List, [],
  ◌∷◌, ◌++◌, arith, ap, sym, ◌∙◌, subst, ◌==◌, inl, inr, ◌⊎◌, Bool-cases, All,
}
use wu_kong_easy_sdk_rust.Json.{Json, Base64}
use wu_kong_easy_sdk_rust.Types.Failure.{Error, ok, err, disconnected}
use wu_kong_easy_sdk_rust.Types.Options.{Options}
use wu_kong_easy_sdk_rust.Session.State.{State, Command, Effect, emit, reply, write, flush}
use wu_kong_easy_sdk_rust.Session.Round.{
  Branch, timer_ready, command_ready, frame_ready, Input, start, round,
}
use wu_kong_easy_sdk_rust.Session.Answers.{one_if, answers}
use wu_kong_easy_sdk_rust.System
use wu_kong_easy_sdk_rust.System.{
  Stage, offline, counted, broken, serving, Phase, entered, linked, stamped, holding, cleared,
  Caller, System, Takes, CallerStep, link, stamp, acquire, clear, quit, after_step,
}
use wu_kong_easy_sdk_rust.System.Accounts.{pending}

-- How many answers to a ticket say that the server has accepted the send.
unfoldable pub granted : {J : Json} → ℕ → List (Effect J) → ℕ
granted t [] = 0
granted t (reply u (ok r) ∷ es) = one_if (u == t) + granted t es
granted t (_ ∷ es) = granted t es

pub granted-append :
    {J : Json} (t : ℕ) (es fs : List (Effect J))
    → granted t (es ++ fs) ≡ granted t es + granted t fs
unfolding granted
granted-append t [] fs = omega arith
granted-append t (reply u (ok r) ∷ es) fs = omega (arith, granted-append t es fs)
granted-append t (reply u (err e) ∷ es) fs = granted-append t es fs
granted-append t (emit e ∷ es) fs = granted-append t es fs
granted-append t (write v ∷ es) fs = granted-append t es fs
granted-append t (flush ∷ es) fs = granted-append t es fs

pub granted-le : {J : Json} (t : ℕ) (es : List (Effect J)) → granted t es ≤ answers t es
unfolding granted answers
granted-le t [] = omega arith
granted-le t (reply u (ok r) ∷ es) = omega (arith, granted-le t es)
granted-le t (reply u (err e) ∷ es) = omega (arith, granted-le t es)
granted-le t (emit e ∷ es) = granted-le t es
granted-le t (write v ∷ es) = granted-le t es
granted-le t (flush ∷ es) = granted-le t es

module _ {J : Json} (t g : ℕ) where
  -- A call that has read the generation `g`.
  abbrev pub HasRead : Phase J → Type 0
  HasRead entered = ⊥
  HasRead linked = ⊥
  HasRead (stamped k) = k ≡ g
  HasRead (holding k) = k ≡ g
  HasRead (cleared k params id deadline) = k ≡ g

  abbrev pub StaleCaller : Caller J → Type 0
  StaleCaller x = x.ticket ≡ t → HasRead x.phase

  abbrev pub StaleCommand : Command J → Type 0
  StaleCommand c = c.reply ≡ t → c.generation ≡ g

  -- The send with the ticket has read the generation `g`, and is not pending.
  pub record IsStale (s : System J) : Type 0 where
    pub old : t < s.next_ticket
    pub called : All StaleCaller s.callers
    pub waits : All StaleCommand s.queue
    pub unanswered : pending J t s.stage ≡ 0

  pub stale_after :
      {B : Base64} {o : Options} {s : System J} (u : ℕ) (p : Phase J) (q : Option (Phase J))
      (after : List (Caller J))
      → CallerStep J B o s u p q
      → StaleCaller (record { ticket = u; phase = p })
      → All StaleCaller after
      → All StaleCaller (after_step J B o u q after)
  stale_after u p q after (link on) h k = (λ same. elim (h same) [ ], k)
  stale_after u p q after stamp h k = (λ same. elim (h same) [ ], k)
  stale_after u p q after (acquire room) h k = (h, k)
  stale_after u p q after (clear c y v d n i w x z a) h k = (h, k)
  stale_after u p q after quit h k = k

  pub stale_rest :
      (s : System J) (b : Branch J) (rest : List (Command J))
      → Takes J s b rest
      → All StaleCommand s.queue
      → All StaleCommand rest
  stale_rest s (timer_ready now later id io) rest h k = subst (All StaleCommand) h k
  stale_rest s (command_ready none generation now io) rest h k =
      subst (All StaleCommand) (sym h.1) tt
  stale_rest s (command_ready (some c) generation now io) rest h k =
      (subst (All StaleCommand) h.0 k).1
  stale_rest s (frame_ready f now io) rest h k = subst (All StaleCommand) h k
