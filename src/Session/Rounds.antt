-- ===== src/Session/Rounds.antt =====
-- The account of a ticket over one whole round of a session, and over a run of rounds.
use native.Mathlib.Nat.{zero-add}
use wu_kong_easy_sdk_rust.Base.{
  ℕ, ◌+◌, ◌≤◌, ◌≡◌, refl, String, Bool, none, some, List, [], ◌∷◌, ◌++◌, leb, ◌==◌, if◌then◌else◌,
  arith, Option-cases, Bool-cases, inl, inr, ◌∙◌, not,
}
use wu_kong_easy_sdk_rust.Json.{Json, Base64}
use wu_kong_easy_sdk_rust.Types.Failure.{
  Error, Result, Result-cases, ok, err, timeout, disconnected,
}
use wu_kong_easy_sdk_rust.Types.Options.{Options}
use wu_kong_easy_sdk_rust.Protocol.Outbound.{request}
use wu_kong_easy_sdk_rust.Session.State.{
  Pending, PendingMap, State, Io, Command, Act, Effect, reply, lookup, remove, insert, ◌>>◌, pure,
  perform,
}
use wu_kong_easy_sdk_rust.Session.Round.{
  retain_open, expired_ids, expire, Branch, timer_ready, command_ready, frame_ready, Input,
  housekeep, admit, on_timer, on_command, on_branch, round, session,
}
use wu_kong_easy_sdk_rust.Session.Answers.{
  one_if, held, answers, answers-append, remove_absent, held-retain_open, held-expire,
}
use wu_kong_easy_sdk_rust.Session.Balance.{
  Balanced, Balanced-if, Balanced-fail, Balanced-pure, Balanced-quiet, write_value-IsQuiet,
  on_frame-Balanced,
}

pub lookup-remove-none :
    (id key : String) (m : PendingMap) → lookup id m ≡ none → lookup id (remove key m) ≡ none
unfolding lookup remove
lookup-remove-none id key [] h = refl
lookup-remove-none id key ((i, p) ∷ m) h = ground (arith, lookup-remove-none id key m)

pub lookup-retain_open-none :
    (id : String) (closed : ℕ → Bool) (m : PendingMap)
    → lookup id m ≡ none
    → lookup id (retain_open closed m) ≡ none
unfolding lookup retain_open
lookup-retain_open-none id closed [] h = refl
lookup-retain_open-none id closed ((i, p) ∷ m) h =
    ground (arith, lookup-retain_open-none id closed m)

held-insert :
    (t : ℕ) (id : String) (p : Pending) (m : PendingMap)
    → lookup id m ≡ none
    → held t (insert id p m) ≡ one_if (p.reply == t) + held t m
unfolding insert held
held-insert t id p m h = rw (remove_absent id m h)

module _ (J : Json) where
  lookup-expire-none :
      (id : String) (ids : List String) (m : PendingMap)
      → lookup id m ≡ none
      → lookup id (expire J ids m).1 ≡ none
  unfolding expire
  lookup-expire-none id [] m h = h
  lookup-expire-none id (i ∷ ids) m h = elim (Option-cases (lookup i m)) [
    | inl e ↦ rw (e, expire) (lookup-expire-none id ids m h)
    | inr (p, e) ↦
        rw (e, expire) (lookup-expire-none id ids (remove i m) (lookup-remove-none id i m h))
  ]

  -- The sends with a ticket that a branch takes over: a command whose receiver still waits.
  abbrev pub taken : ℕ → (ℕ → Bool) → Branch J → ℕ
  taken t gone (command_ready (some c) generation now io) =
      if gone c.reply then 0 else one_if (c.reply == t)
  taken t gone _ = 0

  -- The ID of a command is not that of a pending send.
  abbrev pub IsFresh : State → Branch J → Type 0
  IsFresh s (command_ready (some c) generation now io) = lookup c.id s.pending ≡ none
  IsFresh s _ = Unit

  IsFresh-mono :
      (s s' : State) (b : Branch J)
      → ((id : String) → lookup id s.pending ≡ none → lookup id s'.pending ≡ none)
      → IsFresh s b
      → IsFresh s' b
  IsFresh-mono s s' (timer_ready now later id io) k h = tt
  IsFresh-mono s s' (command_ready none generation now io) k h = tt
  IsFresh-mono s s' (command_ready (some c) generation now io) k h = k c.id h
  IsFresh-mono s s' (frame_ready f now io) k h = tt

  -- The state after the head of the loop body.
  abbrev pub swept : State → Input J → State
  swept s i = record s {
    pending =
        (expire J (expired_ids i.now (retain_open i.closed s.pending))
          (retain_open i.closed s.pending)).1;
  }

  lookup-swept-none :
      (id : String) (s : State) (i : Input J)
      → lookup id s.pending ≡ none
      → lookup id (swept s i).pending ≡ none
  lookup-swept-none id s i h =
      lookup-expire-none id _ _ (lookup-retain_open-none id i.closed s.pending h)

module _ (J : Json) (B : Base64) (o : Options) (t : ℕ) where
  on_timer-Balanced :
      (s : State) (now later : ℕ) (id : String) (io : Io)
      → Balanced t (held t s.pending) (on_timer J B o s now later id io)
  unfolding on_timer
  on_timer-Balanced s now later id io = elim (Option-cases s.ping) [
    | inl e ↦
        rw (e, on_timer)
          (Balanced-if _ _ _ (Balanced-quiet _ _ (write_value-IsQuiet J B o t _ io) refl)
            (Balanced-pure s refl))
    | inr (p, e) ↦ rw (e, on_timer) (Balanced-if _ _ _ (Balanced-fail _) (Balanced-pure s refl))
  ]

  answered :
      (s : State) (u : ℕ) (e : Error)
      → Balanced {J = J} t
          (one_if (u == t) + held t s.pending)
          (perform (reply u (err e) ∷ []) >> pure s)
  unfolding answers
  answered s u e = record { account = omega arith }

  on_command-Balanced :
      (s : State) (c : Command J) (gone : ℕ → Bool) (generation now : ℕ) (io : Io)
      → lookup c.id s.pending ≡ none
      → Balanced t
          (taken J t gone (command_ready (some c) generation now io) + held t s.pending)
          (on_command J B o s c gone generation now io)
  unfolding on_command
  on_command-Balanced s c gone generation now io fresh = elim (Bool-cases (gone c.reply)) [
    | inl h ↦ rw h (Balanced-pure s (omega arith))
    | inr h ↦ rw h (
        Balanced-if (not (c.generation == generation)) _ _ (answered s c.reply disconnected) (
          Balanced-if (leb c.deadline now) _ _ (answered s c.reply timeout) (
            Balanced-quiet _ (admit J s c)
              (write_value-IsQuiet J B o t (request J "send" c.params c.id) io)
              (held-insert t c.id _ s.pending fresh))))
  ]

  on_branch-Balanced :
      (s : State) (gone : ℕ → Bool) (b : Branch J)
      → IsFresh J s b
      → Balanced t (taken J t gone b + held t s.pending) (on_branch J B o s gone b)
  unfolding on_branch
  on_branch-Balanced s gone (timer_ready now later id io) fresh =
      rw zero-add (on_timer-Balanced s now later id io)
  on_branch-Balanced s gone (command_ready none generation now io) fresh = Balanced-fail _
  on_branch-Balanced s gone (command_ready (some c) generation now io) fresh =
      on_command-Balanced s c gone generation now io fresh
  on_branch-Balanced s gone (frame_ready f now io) fresh =
      rw zero-add (on_frame-Balanced J B o t s f now io)

  Balanced-after :
      (es : List (Effect J)) (s : State) (m : Act J State) (n k : ℕ)
      → answers t es + held t s.pending ≡ k
      → Balanced t (n + held t s.pending) m
      → Balanced t (n + k) (record { effects = es ++ m.effects; result = m.result })
  Balanced-after es s m n k e h = record {
    account = ground (arith, answers-append t es m.effects, h.account);
  }

  -- What is pending once the sends without a receiver are dropped.
  abbrev pub kept_of : State → Input J → ℕ
  kept_of s i = if i.closed t then 0 else held t s.pending

  pub kept_of-le : (s : State) (i : Input J) → kept_of s i ≤ held t s.pending
  kept_of-le s i = ground arith

  -- A round whose command does not have the ID of a pending send answers or still holds each send
  -- that it took over or held before, exactly once, but for those whose receiver is gone. A round
  -- that ends the session answers no more than those.
  pub round-Balanced :
      (s : State) (i : Input J)
      → IsFresh J s i.branch
      → Balanced t (taken J t i.closed_later i.branch + kept_of s i) (round J B o s i)
  unfolding round housekeep
  round-Balanced s i fresh =
      Balanced-after _ (swept J s i) _ _ _
        (held-expire J t (expired_ids i.now (retain_open i.closed s.pending)) _
          ∙ held-retain_open t i.closed s.pending)
        (on_branch-Balanced _ i.closed_later i.branch
          (IsFresh-mono J s (swept J s i) i.branch (λ id. lookup-swept-none J id s i) fresh))

  -- The sends with a ticket that a run takes over.
  abbrev pub taken_in : List (Input J) → ℕ
  taken_in [] = 0
  taken_in (i ∷ is) = taken J t i.closed_later i.branch + taken_in is

  abbrev pub held_in : Result State → ℕ
  held_in (ok s) = held t s.pending
  held_in (err e) = 0

module _ (J : Json) (B : Base64) (o : Options) where
  -- No command of a run has the ID of a send that is then pending.
  abbrev pub IsFreshRun : State → List (Input J) → Type 0
  IsFreshRun s [] = Unit
  IsFreshRun s (i ∷ is) =
      IsFresh J s i.branch
      × (elim ((round J B o s i).result) [ ok s' ↦ IsFreshRun s' is | err e ↦ Unit ])

  -- Over any run of rounds in which no command has the ID of a send that is then pending, a ticket
  -- is answered or still held no more often than it was held at the beginning or taken over during
  -- the run. So a send that is taken over once is answered at most once.
  pub answers-session_le :
      (t : ℕ) (s : State) (is : List (Input J))
      → IsFreshRun s is
      → answers t (session J B o s is).effects + held_in J B o t (session J B o s is).result
        ≤ held t s.pending + taken_in J B o t is
  unfolding session
  answers-session_le t s [] fresh = unfold answers in omega arith
  answers-session_le t s (i ∷ is) (now_fresh, later_fresh) =
      let account = (round-Balanced J B o t s i now_fresh).account in
      elim (Result-cases ((round J B o s i).result)) [
        | inl (s', e) ↦
            let rest = answers-session_le t s' is (rw e at later_fresh) in
            rw (e, session)
              (omega (
                arith,
                answers-append t (round J B o s i).effects (session J B o s' is).effects,
                rest,
                kept_of-le J B o t s i,
                rw e at account,
              ))
        | inr (e', e) ↦ rw (e, session) (omega (arith, kept_of-le J B o t s i, rw e at account))
      ]
