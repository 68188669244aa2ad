-- ===== src/Session/Answers.antt =====
-- Counting the answers that a send gets in `Worker::session`, and the pending sends that wait.
use wu_kong_easy_sdk_rust.Base.{
  ℕ, ◌+◌, ◌≡◌, refl, String, Bool, true, false, none, some, List, [], ◌∷◌, ◌++◌, ◌==◌,
  if◌then◌else◌, arith, Option-cases, inl, inr,
}
use wu_kong_easy_sdk_rust.Json.{Json}
use wu_kong_easy_sdk_rust.Session.State.{
  Pending, PendingMap, Effect, emit, reply, write, flush, lookup, remove,
}
use wu_kong_easy_sdk_rust.Session.Round.{retain_open, expire}

abbrev pub one_if : Bool → ℕ
one_if true = 1
one_if false = 0

-- How many pending sends hold a ticket.
unfoldable pub held : ℕ → PendingMap → ℕ
held t [] = 0
held t ((id, p) ∷ m) = one_if (p.reply == t) + held t m

-- How many answers a ticket gets.
unfoldable pub answers : {J : Json} → ℕ → List (Effect J) → ℕ
answers t [] = 0
answers t (reply u r ∷ es) = one_if (u == t) + answers t es
answers t (emit e ∷ es) = answers t es
answers t (write v ∷ es) = answers t es
answers t (flush ∷ es) = answers t es

pub answers-append :
    {J : Json} (t : ℕ) (es fs : List (Effect J))
    → answers t (es ++ fs) ≡ answers t es + answers t fs
unfolding answers
answers-append t [] fs = omega arith
answers-append t (reply u r ∷ es) fs = omega (arith, answers-append t es fs)
answers-append t (emit e ∷ es) fs = answers-append t es fs
answers-append t (write v ∷ es) fs = answers-append t es fs
answers-append t (flush ∷ es) fs = answers-append t es fs

pub held-remove :
    (t : ℕ) (id : String) (p : Pending) (m : PendingMap)
    → lookup id m ≡ some p
    → held t m ≡ one_if (p.reply == t) + held t (remove id m)
unfolding held lookup remove
held-remove t id p [] h = cc
held-remove t id p ((i, q) ∷ m) h = ground (arith, held-remove t id p m)

pub remove_absent : (id : String) (m : PendingMap) → lookup id m ≡ none → remove id m ≡ m
unfolding lookup remove
remove_absent id [] h = refl
remove_absent id ((i, q) ∷ m) h = ground (arith, remove_absent id m)

pub held-retain_open :
    (t : ℕ) (closed : ℕ → Bool) (m : PendingMap)
    → held t (retain_open closed m) ≡ (if closed t then 0 else held t m)
unfolding held retain_open
held-retain_open t closed [] = ground arith
held-retain_open t closed ((i, q) ∷ m) = ground (arith, held-retain_open t closed m)

pub held-expire :
    (J : Json) (t : ℕ) (ids : List String) (m : PendingMap)
    → answers t (expire J ids m).0 + held t (expire J ids m).1 ≡ held t m
unfolding held expire answers
held-expire J t [] m = omega arith
held-expire J t (id ∷ ids) m = elim (Option-cases (lookup id m)) [
  | inl e ↦ rw (e, expire) (held-expire J t ids m)
  | inr (p, e) ↦
      rw (e, expire) (omega (arith, held-expire J t ids (remove id m), held-remove t id p m e))
]
