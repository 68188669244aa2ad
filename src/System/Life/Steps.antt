-- ===== src/System/Life/Steps.antt =====
-- The steps of the system (src/client.rs) as moves of one send's life.
use wu_kong_easy_sdk_rust.Base.{
  ℕ, suc, ◌+◌, ◌≤◌, ◌≡◌, refl, List, [], ◌∷◌, ◌++◌, arith, ap, ◌∙◌, ◌==◌, zero, inl, inr,
  Bool-cases, zero_or_suc,
}
use wu_kong_easy_sdk_rust.Json.{Json, Base64}
use wu_kong_easy_sdk_rust.Types.Options.{Options}
use wu_kong_easy_sdk_rust.Session.State.{Command, Effect}
use wu_kong_easy_sdk_rust.Session.Round.{start}
use wu_kong_easy_sdk_rust.System.{
  entered, cleared, Caller, System, idle, Reaches, here, then_step, command_of, Step, enter, call,
  push, count, announce, serve, fail, part, drain, stop, settle, open_run, destroy,
}
use wu_kong_easy_sdk_rust.Session.Answers.{one_if, held, answers}
use wu_kong_easy_sdk_rust.System.Accounts.{
  calling, queued, pending, unused, calling-append, queued-append, calling-split, takes_ticket,
  queued-Takes, calling-call, round_account, failed_round_account,
}
use wu_kong_easy_sdk_rust.System.Life.{
  Life, unborn, in_call, in_queue, in_session, over, Move, stay, begin, give_up, line_up, unused_in,
  calling_in, queued_in, Lives, onward, Next,
}

module _ (J : Json) (B : Base64) (o : Options) (t : ℕ) where
  -- A step that leaves the callers alone and takes `x` from the queue.
  Lives-onward :
      (s s' : System J) (l : Life) (x n : ℕ)
      → Lives t s l
      → unused J t s' ≡ unused J t s
      → calling J t s'.callers ≡ calling J t s.callers
      → queued J t s.queue ≡ x + queued J t s'.queue
      → n + pending J t s'.stage ≤ x + pending J t s.stage
      → Next t s' l n
  Lives-onward s s' l x n v same_u same_a h k =
      let (l', move, u, a, b, c) =
        onward l x n (queued J t s'.queue) (pending J t s'.stage) (omega (arith, h, v.waits))
          (omega (arith, k, v.awaits)) in
      (
        l',
        move,
        record {
          not_begun = same_u ∙ v.not_begun ∙ u;
          called = same_a ∙ v.called ∙ a;
          waits = b;
          awaits = c;
        },
      )

  abbrev entering : System J → System J
  entering s = record s {
    callers = record { ticket = s.next_ticket; phase = entered } ∷ s.callers;
    next_ticket = suc s.next_ticket;
  }

  Lives-older : (s : System J) (l : Life) → Lives t s l → unused_in l ≡ 0 → Next t (entering s) l 0
  Lives-older s l v old = (
    l,
    stay,
    record {
      not_begun = ground (arith, v.not_begun, old);
      called = ground (arith, v.called, v.not_begun, old);
      waits = v.waits;
      awaits = v.awaits;
    },
  )

  Lives-enter : (s : System J) (l : Life) → Lives t s l → Next t (entering s) l 0
  Lives-enter s unborn v = elim (Bool-cases (s.next_ticket == t)) [
    | inl e ↦ (
      in_call,
      begin,
      record {
        not_begun = ground (arith, e);
        called = ground (arith, v.called, e);
        waits = v.waits;
        awaits = v.awaits;
      },
    )
    | inr e ↦ (
      unborn,
      stay,
      record {
        not_begun = ground (arith, e, v.not_begun);
        called = ground (arith, v.called, e);
        waits = v.waits;
        awaits = v.awaits;
      },
    )
  ]
  Lives-enter s in_call v = Lives-older s in_call v refl
  Lives-enter s in_queue v = Lives-older s in_queue v refl
  Lives-enter s in_session v = Lives-older s in_session v refl
  Lives-enter s over v = Lives-older s over v refl

  -- Callers change, and `x` more commands with the ticket are in the queue.
  abbrev moved : System J → List (Caller J) → List (Command J) → System J
  moved s xs cs = record s { callers = xs; queue = cs }

  Lives-unmoved :
      (s : System J) (l : Life) (xs : List (Caller J)) (cs : List (Command J))
      → Lives t s l
      → calling J t xs ≡ calling_in l
      → queued J t cs ≡ queued_in l
      → Next t (moved s xs cs) l 0
  Lives-unmoved s l xs cs v h k =
      (l, stay, record { not_begun = v.not_begun; called = h; waits = k; awaits = v.awaits })

  Lives-moved :
      (s : System J) (l : Life) (x : ℕ) (xs : List (Caller J)) (cs : List (Command J))
      → Lives t s l
      → x + calling J t xs ≤ calling J t s.callers
      → queued J t cs ≡ x + queued J t s.queue
      → Next t (moved s xs cs) l 0
  Lives-moved s in_call zero xs cs v h k = elim (zero_or_suc (calling J t xs)) [
    | inl e ↦ (
      over,
      give_up,
      record {
        not_begun = v.not_begun;
        called = e;
        waits = omega (arith, k, v.waits);
        awaits = v.awaits;
      },
    )
    | inr (n, e) ↦
        Lives-unmoved s in_call xs cs v (omega (arith, e, h, v.called)) (omega (arith, k, v.waits))
  ]
  Lives-moved s in_call (suc x) xs cs v h k = (
    in_queue,
    line_up,
    record {
      not_begun = v.not_begun;
      called = omega (arith, h, v.called);
      waits = omega (arith, h, k, v.called, v.waits);
      awaits = v.awaits;
    },
  )
  Lives-moved s unborn x xs cs v h k =
      Lives-unmoved s unborn xs cs v (omega (arith, h, v.called))
        (omega (arith, h, k, v.called, v.waits))
  Lives-moved s in_queue x xs cs v h k =
      Lives-unmoved s in_queue xs cs v (omega (arith, h, v.called))
        (omega (arith, h, k, v.called, v.waits))
  Lives-moved s in_session x xs cs v h k =
      Lives-unmoved s in_session xs cs v (omega (arith, h, v.called))
        (omega (arith, h, k, v.called, v.waits))
  Lives-moved s over x xs cs v h k =
      Lives-unmoved s over xs cs v (omega (arith, h, v.called))
        (omega (arith, h, k, v.called, v.waits))

  -- Every step of the system is a step of each send's life, or leaves it as it is, and gives the send
  -- the answers that its life says: a send goes from its call to the queue, from there to the session,
  -- and gets its one answer as it leaves the queue or the session for good. IDs do not collide.
  pub Lives-Step :
      {s s' : System J} {es : List (Effect J)} (l : Life)
      → Step J B o s es s'
      → Lives t s l
      → Next t s' l (answers t es)
  unfolding answers
  Lives-Step {s} l (enter alive) v = Lives-enter s l v
  Lives-Step {s} l (call before after u p q e st) v =
      Lives-moved s l 0 _ s.queue v
        (omega (arith, calling-split J t before after u p e, calling-call J B o t before after u q))
        (omega arith)
  Lives-Step {s} l (push before after u g params id deadline e open_now room) v =
      Lives-moved s l (one_if (u == t)) _ _ v
        (omega (
          arith,
          calling-split J t before after u (cleared g params id deadline) e,
          calling-append J t before after,
        ))
        (omega (arith, queued-append J t s.queue (command_of J u g params id deadline ∷ [])))
  Lives-Step {s} {s'} l (count off on) v =
      Lives-onward s s' l 0 0 v refl refl (omega arith) (omega (arith, ap (pending J t) off))
  Lives-Step {s} {s'} l (announce now e) v =
      Lives-onward s s' l 0 0 v refl refl (omega arith)
        (unfold start held in omega (arith, ap (pending J t) e))
  Lives-Step {s} {s'} l (serve st st' i rest e takes fresh r) v =
      Lives-onward s s' l (takes_ticket J t i.branch) _ v refl refl
        (queued-Takes J t s i.branch rest takes)
        (omega (arith, ap (pending J t) e, round_account J B o t st st' i fresh r))
  Lives-Step {s} {s'} l (fail st i x rest e takes fresh r) v =
      Lives-onward s s' l (takes_ticket J t i.branch) _ v refl refl
        (queued-Takes J t s i.branch rest takes)
        (omega (arith, ap (pending J t) e, failed_round_account J B o t st i x fresh r))
  Lives-Step {s} {s'} l (part e) v = Lives-onward s s' l 0 0 v refl refl (omega arith) (omega arith)
  Lives-Step {s} {s'} l (drain c rest e q) v =
      Lives-onward s s' l (one_if (c.reply == t)) _ v refl refl (ap (queued J t) q) (omega arith)
  Lives-Step {s} {s'} l stop v = Lives-onward s s' l 0 0 v refl refl (omega arith) (omega arith)
  Lives-Step {s} {s'} l (settle x c rest e q) v =
      Lives-onward s s' l (one_if (c.reply == t)) _ v refl refl (ap (queued J t) q) (omega arith)
  Lives-Step {s} {s'} l (open_run alive off q) v =
      Lives-onward s s' l 0 0 v refl refl (omega arith) (omega arith)
  Lives-Step {s} {s'} l destroy v = Lives-onward s s' l 0 0 v refl refl (omega arith) (omega arith)

module _ (J : Json) (B : Base64) (o : Options) (t : ℕ) where
  -- A run, step by step, as the life of the ticket: each step is one move of that life, which gives the
  -- answers that the step gives, and in between the ticket is where its life says.
  pub data Courses
      : (s : System J) (es : List (Effect J)) → Reaches J B o (idle J) es s → Life → Type 0 where
    not_yet : Courses (idle J) [] here unborn
    and_move :
        (s u : System J) (es fs : List (Effect J)) (r : Reaches J B o (idle J) es s)
        (st : Step J B o s fs u) (k l : Life)
        → Courses s es r k
        → Move k (answers t fs) l
        → Lives t u l
        → Courses u (es ++ fs) (then_step r st) l

  -- However the callers of a client, its sessions, its reconnects and its runs take turns, each step
  -- is one move in the life of each ticket, which goes from before its call to the call, the queue and the
  -- session and never back, and the step gives the ticket the answers of that move: one where it leaves
  -- the session or the queue by an answer, and none else. After each step the ticket is exactly in the
  -- place of its life: with no caller yet, in its call, in the queue, pending, or in none of them any
  -- more. The IDs of commands do not collide with those of pending sends.
  pub Lives-Reaches :
      {s : System J} {es : List (Effect J)} (r : Reaches J B o (idle J) es s)
      → (l : Life) × Courses s es r l × Lives t s l
  Lives-Reaches here = (
    unborn,
    not_yet,
    record { not_begun = ground arith; called = refl; waits = refl; awaits = refl },
  )
  Lives-Reaches (then_step {es} {fs} {t = s} {u = u} r st) =
      let (k, path, lives) = Lives-Reaches r in
      let (l, move, lives') = Lives-Step J B o t k st lives in
      (l, and_move s u es fs r st k l path move lives', lives')
