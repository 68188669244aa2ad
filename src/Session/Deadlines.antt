-- ===== src/Session/Deadlines.antt =====
-- The deadlines of pending sends: the expiry loop and the timer of a round.
use wu_kong_easy_sdk_rust.Base.{
  ℕ, ◌≤◌, ◌≡◌, refl, String, Bool, false, none, List, [], ◌∷◌, leb, str_eq, if◌then◌else◌, arith,
  Bool-cases, inl, inr, ap, ◌∙◌, eq_iff, All, any, eq_refl,
}
use wu_kong_easy_sdk_rust.Json.{Json}
use wu_kong_easy_sdk_rust.Types.Failure.{err, timeout}
use wu_kong_easy_sdk_rust.Session.State.{Pending, PendingMap, State, Effect, reply, lookup, remove}
use wu_kong_easy_sdk_rust.Session.Round.{expired_ids, expire, earliest, timer, heartbeat_deadline}

-- The keys of a `HashMap` differ.
abbrev pub NodupKeys : PendingMap → Type 0
NodupKeys [] = Unit
NodupKeys ((id, p) ∷ m) = (lookup id m ≡ none) × NodupKeys m

-- The sends whose deadline has not passed.
unfoldable pub unexpired : ℕ → PendingMap → PendingMap
unexpired now [] = []
unexpired now ((id, p) ∷ m) =
    let rest = unexpired now m in if leb p.deadline now then rest else (id, p) ∷ rest

-- One `Timeout` for each of the others.
unfoldable pub timeouts : (J : Json) → ℕ → PendingMap → List (Effect J)
timeouts J now [] = []
timeouts J now ((id, p) ∷ m) =
    let rest = timeouts J now m in
    if leb p.deadline now then reply p.reply (err timeout) ∷ rest else rest

abbrev has : String → List String → Bool
has id ids = any (λ i. str_eq id i) ids

not-has-expired_ids :
    (id : String) (now : ℕ) (m : PendingMap)
    → lookup id m ≡ none
    → has id (expired_ids now m) ≡ false
unfolding lookup expired_ids
not-has-expired_ids id now [] h = refl
not-has-expired_ids id now ((i, p) ∷ m) h =
    ground (arith, not-has-expired_ids id now m, eq_iff id i, eq_iff i id)

-- An entry whose ID is not in the list stays in front.
expire_skip :
    (J : Json) (id : String) (p : Pending) (ids : List String) (m : PendingMap)
    → has id ids ≡ false
    → expire J ids ((id, p) ∷ m) ≡ ((expire J ids m).0, (id, p) ∷ (expire J ids m).1)
unfolding expire lookup remove
expire_skip J id p [] m h = refl
expire_skip J id p (i ∷ ids) m h =
    ground (arith, expire_skip J id p ids m, expire_skip J id p ids (remove i m))

remove_head : (id : String) (p : Pending) (m : PendingMap) → remove id ((id, p) ∷ m) ≡ m
unfolding remove
remove_head id p m = rw (eq_refl id) refl

-- The first entry is answered and taken out.
expire_head :
    (J : Json) (id : String) (p : Pending) (ids : List String) (m : PendingMap)
    → expire J (id ∷ ids) ((id, p) ∷ m)
      ≡ (reply p.reply (err timeout) ∷ (expire J ids m).0, (expire J ids m).1)
unfolding expire lookup
expire_head J id p ids m = rw (expire, lookup, eq_refl id, remove_head id p m) refl

-- The loop that collects the expired IDs and then removes them one by one answers `Timeout` to
-- exactly the sends whose deadline is not after `now` and keeps the others, in order, when no two
-- entries have the same key.
pub expire_lem :
    (J : Json) (now : ℕ) (m : PendingMap)
    → NodupKeys m
    → expire J (expired_ids now m) m ≡ (timeouts J now m, unexpired now m)
unfolding expire expired_ids timeouts unexpired
expire_lem J now [] h = refl
expire_lem J now ((id, p) ∷ m) h = elim (Bool-cases (leb p.deadline now)) [
  | inl e ↦
      rw (e, expired_ids, timeouts, unexpired)
        (expire_head J id p (expired_ids now m) m
          ∙ ap (λ (x : List (Effect J) × PendingMap). (reply p.reply (err timeout) ∷ x.0, x.1))
              (expire_lem J now m h.1))
  | inr e ↦
      rw (e, expired_ids, timeouts, unexpired)
        (expire_skip J id p (expired_ids now m) m (not-has-expired_ids id now m h.0)
          ∙ ap (λ (x : List (Effect J) × PendingMap). (x.0, (id, p) ∷ x.1))
              (expire_lem J now m h.1))
]

All-weaken :
    (a b : ℕ) (m : PendingMap)
    → a ≤ b
    → All (λ (id, p). b ≤ p.deadline) m
    → All (λ (id, p). a ≤ p.deadline) m
All-weaken a b [] h k = tt
All-weaken a b ((id, p) ∷ m) h k = (omega arith, All-weaken a b m h k.1)

earliest-le :
    (m : PendingMap) (d : ℕ) → (earliest m d ≤ d) × All (λ (id, p). earliest m d ≤ p.deadline) m
unfolding earliest
earliest-le [] d = (omega arith, tt)
earliest-le ((id, p) ∷ m) d =
    let (below, all) = earliest-le m d in
    (omega arith, (omega arith, All-weaken _ (earliest m d) m (omega arith) all))

-- The timer is not after the heartbeat's deadline nor after that of any pending send.
pub timer-le :
    (s : State) → (timer s ≤ heartbeat_deadline s) × All (λ (id, p). timer s ≤ p.deadline) s.pending
unfolding timer
timer-le s = earliest-le s.pending (heartbeat_deadline s)
