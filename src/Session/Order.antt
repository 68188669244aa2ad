-- ===== src/Session/Order.antt =====
-- Two orders of the same pending sends. `pending` of `Worker::session` is a `HashMap`, whose order of
-- iteration is arbitrary, and the model an association list: here its operations are compared on
-- two lists that hold the same entries.
pub mod Branches
pub mod Runs
use mathlib.Core.List.{Permᴰ}
use wu_kong_easy_sdk_rust.Base.{
  ℕ, ◌≡◌, refl, ◌∙◌, String, Bool, none, some, List, [], ◌∷◌, leb, str_eq, if◌then◌else◌, arith,
  not, Bool-cases, inl, inr, eq_iff,
}
use wu_kong_easy_sdk_rust.Base.Reorders.{Reorders, Reorders-refl, Reorders-ind, Reorders-filtered}
use wu_kong_easy_sdk_rust.Json.{Json}
use wu_kong_easy_sdk_rust.Types.Failure.{err, timeout}
use wu_kong_easy_sdk_rust.Session.State.{Pending, PendingMap, Effect, reply, lookup, remove, insert}
use wu_kong_easy_sdk_rust.Session.Round.{retain_open}
use wu_kong_easy_sdk_rust.Session.Deadlines.{NodupKeys, unexpired, timeouts}

-- The two lists have the same value, or none, under each key.
abbrev pub SameLookups : PendingMap → PendingMap → Type 0
SameLookups m n = (key : String) → lookup key m ≡ lookup key n

swap_entries :
    (a b : String × Pending) (l : PendingMap)
    → NodupKeys (a ∷ b ∷ l)
    → NodupKeys (b ∷ a ∷ l) × SameLookups (a ∷ b ∷ l) (b ∷ a ∷ l)
unfolding lookup
swap_entries a b l h = (
  (ground (arith, h.0, h.1.0, eq_iff a.0 b.0, eq_iff b.0 a.0), (ground (arith, h.0), h.1.1)),
  λ key. ground (arith, h.0, eq_iff a.0 key, eq_iff b.0 key, eq_iff b.0 a.0),
)

abbrev SameKeys : PendingMap → PendingMap → Type 0
SameKeys m n = NodupKeys m → NodupKeys n × SameLookups m n

pub Reorders-SameLookups :
    {m n : PendingMap} → Reorders m n → NodupKeys m → NodupKeys n × SameLookups m n
unfolding lookup
Reorders-SameLookups =
    Reorders-ind SameKeys (λ h. (tt, λ key. refl))
      (λ a m n d k h.
        let (keys, same) = k h.1 in
        ((ground (arith, same a.0, h.0), keys), λ key. ground (arith, same key)))
      swap_entries
      (λ m n l k k' h.
        let (keys, same) = k h in
        let (keys', same') = k' keys in (keys', λ key. same key ∙ same' key))

swap_removed :
    (a b : String × Pending) (l : PendingMap) (key : String)
    → NodupKeys (a ∷ b ∷ l)
    → Reorders (remove key (a ∷ b ∷ l)) (remove key (b ∷ a ∷ l))
unfolding remove lookup
swap_removed a b l key h = elim (Bool-cases (str_eq a.0 key)) [
  | inl e ↦ elim (Bool-cases (str_eq b.0 key)) [
    | inl f ↦ absurd (ground (arith, h.0, eq_iff a.0 key, eq_iff b.0 key, eq_iff b.0 a.0))
    | inr f ↦ rw (e, f) (Reorders-refl (b ∷ l))
  ]
  | inr e ↦ elim (Bool-cases (str_eq b.0 key)) [
    | inl f ↦ rw (e, f) (Reorders-refl (a ∷ l))
    | inr f ↦ rw (e, f) (Permᴰ.swap refl refl)
  ]
]

kept_unless :
    (key : String) (a : String × Pending) (m n : PendingMap)
    → Reorders m n
    → Reorders (remove key m) (remove key n)
    → Reorders (remove key (a ∷ m)) (remove key (a ∷ n))
unfolding remove
kept_unless key a m n d k = elim (Bool-cases (str_eq a.0 key)) [
  | inl e ↦ rw e d
  | inr e ↦ rw e (Permᴰ.cons refl k)
]

pub Reorders-remove :
    {m n : PendingMap} (key : String)
    → Reorders m n
    → NodupKeys m
    → Reorders (remove key m) (remove key n)
unfolding remove
Reorders-remove key d h =
    (Reorders-ind (λ m n. NodupKeys m → NodupKeys n × Reorders (remove key m) (remove key n))
      (λ h. (tt, Permᴰ.nil))
      (λ a m n d k h.
        let (keys, rest) = k h.1 in
        let head = (Reorders-SameLookups (Permᴰ.cons {a = a} refl d) h).0 in
        (head, kept_unless key a m n d rest))
      (λ a b l h. ((swap_entries a b l h).0, swap_removed a b l key h))
      (λ m n l k k' h.
        let (keys, one) = k h in let (keys', two) = k' keys in (keys', Permᴰ.trans one two))
      d h).1

pub Reorders-insert :
    {m n : PendingMap} (key : String) (p : Pending)
    → Reorders m n
    → NodupKeys m
    → Reorders (insert key p m) (insert key p n)
unfolding insert
Reorders-insert key p d h = Permᴰ.cons refl (Reorders-remove key d h)

pub Reorders-retain_open :
    {m n : PendingMap} (gone : ℕ → Bool)
    → Reorders m n
    → Reorders (retain_open gone m) (retain_open gone n)
unfolding retain_open
Reorders-retain_open gone =
    Reorders-filtered (retain_open gone) (λ a. not (gone a.1.reply)) (λ a. a) (λ a m. ground arith)

pub Reorders-unexpired :
    {m n : PendingMap} (now : ℕ) → Reorders m n → Reorders (unexpired now m) (unexpired now n)
unfolding unexpired
Reorders-unexpired now =
    Reorders-filtered (unexpired now) (λ a. not (leb a.1.deadline now)) (λ a. a)
      (λ a m. ground arith)

pub Reorders-timeouts :
    {m n : PendingMap} (J : Json) (now : ℕ)
    → Reorders m n
    → Reorders (timeouts J now m) (timeouts J now n)
unfolding timeouts
Reorders-timeouts J now =
    Reorders-filtered (timeouts J now) (λ a. leb a.1.deadline now)
      (λ a. reply a.1.reply (err timeout)) (λ a m. refl)
