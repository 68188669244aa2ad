-- ===== src/Session/Order/Runs.antt =====
-- A run of rounds from two states that hold the same pending sends in different orders.
use mathlib.Core.List.{Permᴰ}
use mathlib.Core.List.Permᴰ
use wu_kong_easy_sdk_rust.Base.{ℕ, ◌≡◌, refl, ap, List, [], ◌∷◌, ◌++◌, arith, ◌⊎◌, inl, inr}
use wu_kong_easy_sdk_rust.Base.Reorders.{Reorders}
use wu_kong_easy_sdk_rust.Json.{Json, Base64}
use wu_kong_easy_sdk_rust.Types.Failure.{Error, Result, ok, err}
use wu_kong_easy_sdk_rust.Types.Options.{Options}
use wu_kong_easy_sdk_rust.Session.State.{PendingMap, State, Act, Effect, emit, reply, write, flush}
use wu_kong_easy_sdk_rust.Session.Round.{retain_open, expired_ids, Input, housekeep, round, session}
use wu_kong_easy_sdk_rust.Session.Deadlines.{NodupKeys, timeouts, expire_lem}
use wu_kong_easy_sdk_rust.Session.Keys.{NodupKeys-retain_open, NodupKeys-remove, NodupKeys-round}
use wu_kong_easy_sdk_rust.Session.Leaves.{left-expire}
use wu_kong_easy_sdk_rust.Session.Order.{
  Reorders-SameLookups, Reorders-retain_open, Reorders-unexpired, Reorders-timeouts,
}
use wu_kong_easy_sdk_rust.Session.Order.Branches.{
  with_pending, Agree, both_ok, both_err, Parallel, Parallel-on_branch,
}

-- What a session does but for its answers, in order: events, frames and flushes.
unfoldable pub outside : {J : Json} → List (Effect J) → List (Effect J)
outside [] = []
outside (reply u r ∷ es) = outside es
outside (emit e ∷ es) = emit e ∷ outside es
outside (write v ∷ es) = write v ∷ outside es
outside (flush ∷ es) = flush ∷ outside es

-- The same effects, of which only answers may stand in another order, and the same outcome.
pub record SameButOrder {J : Json} (x y : Act J State) : Type 0 where
  pub all : Reorders x.effects y.effects
  pub others : outside x.effects ≡ outside y.effects
  pub result : Agree x.result y.result

outside-append :
    {J : Json} (es fs : List (Effect J)) → outside (es ++ fs) ≡ outside es ++ outside fs
unfolding outside
outside-append [] fs = refl
outside-append (reply u r ∷ es) fs = outside-append es fs
outside-append (emit e ∷ es) fs = ap (◌∷◌ (emit e)) (outside-append es fs)
outside-append (write v ∷ es) fs = ap (◌∷◌ (write v)) (outside-append es fs)
outside-append (flush ∷ es) fs = ap (◌∷◌ flush) (outside-append es fs)

module _ (J : Json) where
  outside-timeouts : (now : ℕ) (m : PendingMap) → outside (timeouts J now m) ≡ []
  unfolding outside timeouts
  outside-timeouts now [] = refl
  outside-timeouts now ((id, p) ∷ m) = ground (arith, outside-timeouts now m)

  after_timeouts :
      (ts us : List (Effect J)) (x y : Act J State)
      → Reorders ts us
      → (outside ts ≡ []) × (outside us ≡ [])
      → Parallel x y
      → SameButOrder
          (record { effects = ts ++ x.effects; result = x.result })
          (record { effects = us ++ y.effects; result = y.result })
  after_timeouts ts us x y d (e, f) h = record {
    all = rw (h.effects) (Permᴰ.append_right y.effects d);
    others = rw (h.effects, outside-append ts y.effects, outside-append us y.effects, e, f) refl;
    result = h.result;
  }

  module _ (B : Base64) (o : Options) where
    round-SameButOrder :
        (s : State) (m : PendingMap) (i : Input J)
        → Reorders s.pending m
        → NodupKeys s.pending
        → SameButOrder (round J B o s i) (round J B o (with_pending s m) i)
    unfolding round housekeep
    round-SameButOrder s m i d h =
        let kept = Reorders-retain_open i.closed d in
        let keys = NodupKeys-retain_open i.closed s.pending h in
        rw (expire_lem J i.now _ keys, expire_lem J i.now _ (Reorders-SameLookups kept keys).0)
          (after_timeouts _ _ _ _ (Reorders-timeouts J i.now kept)
            (outside-timeouts i.now _, outside-timeouts i.now _)
            (Parallel-on_branch J B o _ _ i.closed_later i.branch (Reorders-unexpired i.now kept) (
              rw (expire_lem J i.now _ keys) at (
                left-expire NodupKeys NodupKeys-remove J B o
                  (expired_ids i.now (retain_open i.closed s.pending)) _ keys))))

    Agree-cases :
        (x y : Result State)
        → Agree x y
        → ((s : State) × (m : PendingMap) × (x ≡ ok s)
            × (y ≡ ok (with_pending s m))
            × Reorders s.pending m)
          ⊎ ((e : Error) × (x ≡ err e) × (y ≡ err e))
    Agree-cases x y (both_ok s m d) = inl (s, m, refl, refl, d)
    Agree-cases x y (both_err e) = inr (e, refl, refl)

    after_round :
        (x y x' y' : Act J State)
        → SameButOrder x y
        → SameButOrder x' y'
        → SameButOrder
            (record { effects = x.effects ++ x'.effects; result = x'.result })
            (record { effects = y.effects ++ y'.effects; result = y'.result })
    after_round x y x' y' h k = record {
      all = Permᴰ.trans (Permᴰ.append_right x'.effects h.all) (Permᴰ.append_left y.effects k.all);
      others =
          rw
            (
              outside-append x.effects x'.effects,
              outside-append y.effects y'.effects,
              h.others,
              k.others,
            )
            refl;
      result = k.result;
    }

    -- Two sessions whose pending sends are the same but for their order, no two under one ID, do the
    -- same in any run of rounds: they emit the same events and write the same frames in the same
    -- order, give the same answers though perhaps in another order, fail alike or in neither, and
    -- where they go on have the same heartbeat and again the same pending sends but for their order.
    pub session-SameButOrder :
        (s : State) (m : PendingMap) (is : List (Input J))
        → Reorders s.pending m
        → NodupKeys s.pending
        → SameButOrder (session J B o s is) (session J B o (with_pending s m) is)
    unfolding session
    session-SameButOrder s m [] d h = record {
      all = Permᴰ.nil;
      others = refl;
      result = both_ok s m d;
    }
    session-SameButOrder s m (i ∷ is) d h =
        let now = round-SameButOrder s m i d h in
        elim (Agree-cases _ _ now.result) [
          | inl (s', n, e, f, later) ↦
              rw (session, e, f)
                (after_round _ _ _ _ now
                  (session-SameButOrder s' n is later (rw e at (NodupKeys-round J B o s i h))))
          | inr (x, e, f) ↦
              rw (session, e, f)
                (record { all = now.all; others = now.others; result = both_err x })
        ]
