-- ===== src/Session/Liveness.antt =====
-- What the loop of `Worker::session` (src/client.rs) does with a send whose deadline has come, and with
-- a timer that has fired.
use wu_kong_easy_sdk_rust.Base.{
  ℕ, ◌+◌, ◌≤◌, ◌≡◌, refl, String, Bool, false, none, some, List, [], ◌∷◌, ◌++◌, ◌==◌, str_eq, arith,
  Option-cases, Bool-cases, inl, inr, All, ap, subst, ◌∙◌,
}
use wu_kong_easy_sdk_rust.Json.{Json, Base64}
use wu_kong_easy_sdk_rust.Types.Failure.{Result-cases, ok}
use wu_kong_easy_sdk_rust.Types.Options.{Options}
use wu_kong_easy_sdk_rust.Session.State.{PendingMap, State, Effect, lookup, remove, insert}
use wu_kong_easy_sdk_rust.Session.Round.{
  retain_open, Branch, timer_ready, command_ready, frame_ready, Input, round, session,
}
use wu_kong_easy_sdk_rust.Session.Answers.{
  held, answers, answers-append, held-remove, remove_absent,
}
use wu_kong_easy_sdk_rust.Session.Deadlines.{NodupKeys, unexpired, expire_lem}
use wu_kong_easy_sdk_rust.Session.Rounds.{swept, IsFresh, IsFreshRun, taken, round-Balanced}
use wu_kong_easy_sdk_rust.Session.Leaves.{Holds, Admits, left-expire, Leaves-round}
use wu_kong_easy_sdk_rust.Session.Keys.{NodupKeys-remove, NodupKeys-insert, NodupKeys-retain_open}

-- Each pending send with the ticket is due by `d`.
abbrev pub DueBy : ℕ → ℕ → PendingMap → Type 0
DueBy t d = All (λ (id, p). p.reply ≡ t → p.deadline ≤ d)

DueBy-remove : (t d : ℕ) (key : String) (m : PendingMap) → DueBy t d m → DueBy t d (remove key m)
unfolding remove
DueBy-remove t d key [] h = h
DueBy-remove t d key ((id, p) ∷ m) h = elim (Bool-cases (str_eq id key)) [
  | inl e ↦ rw e (h.1)
  | inr e ↦ rw e (h.0, DueBy-remove t d key m h.1)
]

DueBy-retain_open :
    (t d : ℕ) (gone : ℕ → Bool) (m : PendingMap) → DueBy t d m → DueBy t d (retain_open gone m)
unfolding retain_open
DueBy-retain_open t d gone [] h = h
DueBy-retain_open t d gone ((id, p) ∷ m) h = elim (Bool-cases (gone p.reply)) [
  | inl e ↦ rw e (DueBy-retain_open t d gone m h.1)
  | inr e ↦ rw e (h.0, DueBy-retain_open t d gone m h.1)
]

-- None is left once the clock has reached `d`.
held-unexpired :
    (t d now : ℕ) (m : PendingMap) → DueBy t d m → d ≤ now → held t (unexpired now m) ≡ 0
unfolding held unexpired
held-unexpired t d now [] h late = refl
held-unexpired t d now ((id, p) ∷ m) h late = ground (arith, held-unexpired t d now m h.1 late, h.0)

-- Both invariants that the expiry needs.
abbrev Ready : ℕ → ℕ → PendingMap → Type 0
Ready t d m = NodupKeys m × DueBy t d m

Ready-remove : (t d : ℕ) (key : String) (m : PendingMap) → Ready t d m → Ready t d (remove key m)
Ready-remove t d key m h = (NodupKeys-remove key m h.0, DueBy-remove t d key m h.1)

abbrev None : ℕ → PendingMap → Type 0
None t m = held t m ≡ 0

None-remove : (t : ℕ) (key : String) (m : PendingMap) → None t m → None t (remove key m)
None-remove t key m h = elim (Option-cases (lookup key m)) [
  | inl e ↦ rw (remove_absent key m e) h
  | inr (p, e) ↦ omega (arith, h, held-remove t key p m e)
]

module _ (J : Json) where
  -- A branch that does not take a command with the ticket.
  abbrev pub Spares : ℕ → Branch J → Type 0
  Spares t (command_ready (some c) generation now io) = (c.reply == t) ≡ false
  Spares t _ = Unit

  -- The receiver with the ticket waits on, and its send is not taken once more.
  abbrev pub Waits : ℕ → Input J → Type 0
  Waits t i = (i.closed t ≡ false) × Spares t i.branch

  Ready-Admits :
      (t d : ℕ) (s : State) (b : Branch J)
      → Spares t b
      → Ready t d s.pending
      → Admits (Ready t d) s b
  unfolding insert
  Ready-Admits t d s (timer_ready now later id io) other h = tt
  Ready-Admits t d s (command_ready none generation now io) other h = tt
  Ready-Admits t d s (command_ready (some c) generation now io) other h = (
    NodupKeys-insert c.id (record { deadline = c.deadline; reply = c.reply }) s.pending h.0,
    (ground (arith, other), DueBy-remove t d c.id s.pending h.1),
  )
  Ready-Admits t d s (frame_ready f now io) other h = tt

  None-Admits :
      (t : ℕ) (s : State) (b : Branch J) → Spares t b → None t s.pending → Admits (None t) s b
  unfolding insert held
  None-Admits t s (timer_ready now later id io) other h = tt
  None-Admits t s (command_ready none generation now io) other h = tt
  None-Admits t s (command_ready (some c) generation now io) other h =
      ground (arith, other, None-remove t c.id s.pending h)
  None-Admits t s (frame_ready f now io) other h = tt

  taken_none : (t : ℕ) (gone : ℕ → Bool) (b : Branch J) → Spares t b → taken J t gone b ≡ 0
  taken_none t gone (timer_ready now later id io) other = refl
  taken_none t gone (command_ready none generation now io) other = refl
  taken_none t gone (command_ready (some c) generation now io) other = ground (arith, other)
  taken_none t gone (frame_ready f now io) other = refl

module _ (J : Json) (B : Base64) (o : Options) (t d : ℕ) where
  Ready-swept : (s : State) (i : Input J) → Ready t d s.pending → Ready t d (swept J s i).pending
  Ready-swept s i h =
      left-expire (Ready t d) (Ready-remove t d) J B o _ _
        (NodupKeys-retain_open i.closed s.pending h.0, DueBy-retain_open t d i.closed s.pending h.1)

  Ready-round :
      (s : State) (i : Input J)
      → Spares J t i.branch
      → Ready t d s.pending
      → Holds (Ready t d) (round J B o s i).result
  Ready-round s i other h =
      let kept = Ready-swept s i h in
      Leaves-round (Ready t d) (Ready-remove t d) J B o s i kept
        (Ready-Admits J t d (swept J s i) i.branch other kept)

  -- A round whose clock has reached the deadline leaves none.
  None-round :
      (s : State) (i : Input J)
      → Spares J t i.branch
      → Ready t d s.pending
      → d ≤ i.now
      → Holds (None t) (round J B o s i).result
  None-round s i other h late =
      let kept = retain_open i.closed s.pending in
      let gone : None t (swept J s i).pending =
        ap (λ (x : List (Effect J) × PendingMap). held t x.1)
          (expire_lem J i.now kept (NodupKeys-retain_open i.closed s.pending h.0))
        ∙ held-unexpired t d i.now kept (DueBy-retain_open t d i.closed s.pending h.1) late in
      Leaves-round (None t) (None-remove t) J B o s i gone
        (None-Admits J t (swept J s i) i.branch other gone)

  -- What a round gives and keeps, when it does not end the session.
  round_even :
      (s s' : State) (i : Input J)
      → Waits J t i
      → IsFresh J s i.branch
      → (round J B o s i).result ≡ ok s'
      → answers t (round J B o s i).effects + held t s'.pending ≡ held t s.pending
  round_even s s' i waits fresh r = ground (
    arith,
    rw r at ((round-Balanced J B o t s i fresh).account),
    taken_none J t i.closed_later i.branch waits.1,
    waits.0,
  )

  -- A run that does not end the session in its first round.
  goes_on :
      (s s' : State) (i : Input J) (is : List (Input J))
      → (session J B o s (i ∷ is)).result ≡ ok s'
      → (u : State) × ((round J B o s i).result ≡ ok u)
        × ((session J B o u is).result ≡ ok s')
        × ((session J B o s (i ∷ is)).effects
            ≡ (round J B o s i).effects ++ (session J B o u is).effects)
  unfolding session
  goes_on s s' i is r = elim (Result-cases (round J B o s i).result) [
    | inl (u, e) ↦ (u, e, rw (e, session) at r, rw (e, session) refl)
    | inr (x, e) ↦ (let h = rw (e, session) at r in cc)
  ]

  -- A ticket whose pending sends are all due by an instant, whose receiver waits on and which no command
  -- of the run takes up again: once a round begins at that instant or later, the session has ended,
  -- or it has given exactly as many answers to the ticket as it had sends pending with it, and none of
  -- them is pending any more. No two pending sends have the same ID, and no command has the ID of one.
  pub session-answers_due :
      (s s' : State) (is : List (Input J)) (i : Input J)
      → NodupKeys s.pending
      → DueBy t d s.pending
      → All (Waits J t) (is ++ (i ∷ []))
      → IsFreshRun J B o s (is ++ (i ∷ []))
      → d ≤ i.now
      → (session J B o s (is ++ (i ∷ []))).result ≡ ok s'
      → (answers t (session J B o s (is ++ (i ∷ []))).effects ≡ held t s.pending)
        × (held t s'.pending ≡ 0)
  unfolding session
  session-answers_due s s' [] i nodup due waits fresh late r =
      let (u, e, r', effects) = goes_on s s' i [] r in
      let none_left = rw e at (None-round s i (waits.0).1 (nodup, due) late) in
      let nothing : answers {J = J} t [] ≡ 0 = unfold answers in refl in
      let same : u ≡ s' = unfold session in cc in
      (
        omega (
          arith,
          ap (answers t) effects,
          answers-append t (round J B o s i).effects [],
          round_even s u i waits.0 fresh.0 e,
          none_left,
          nothing,
        ),
        subst (λ x. held t x.pending ≡ 0) same none_left,
      )
  session-answers_due s s' (j ∷ is) i nodup due waits fresh late r =
      let (u, e, r', effects) = goes_on s s' j (is ++ (i ∷ [])) r in
      let ready = rw e at (Ready-round s j (waits.0).1 (nodup, due)) in
      let rest =
        session-answers_due u s' is i ready.0 ready.1 waits.1 (rw e at (fresh.1)) late r' in
      (
        omega (
          arith,
          ap (answers t) effects,
          answers-append t (round J B o s j).effects (session J B o u (is ++ (i ∷ []))).effects,
          round_even s u j waits.0 fresh.0 e,
          rest.0,
        ),
        rest.1,
      )
