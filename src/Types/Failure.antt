-- ===== src/Types/Failure.antt =====
-- `Error` of src/types.rs, and the results of functions that fail with it.
use wu_kong_easy_sdk_rust.Base.{
  String, Bool, true, false, Option, none, some, ◌≡◌, refl, ◌⊎◌, inl, inr, ◌↔◌, arith,
}
use wu_kong_easy_sdk_rust.Base.Int.{ℤ}

-- `Transport` and `Disconnected` stay apart: the first is an I/O failure, the second a closed run.
pub data Error : Type 0 where
  invalid_input : String → Error
  not_connected disconnected destroyed backpressure timeout transport : Error
  protocol : String → Error
  server : ℤ → Error
  reconnect_exhausted message_too_large runtime_unavailable : Error

-- `Result<A, Error>`
pub data Result {ℓ} (A : Type ℓ) : Type ℓ where
  ok : A → Result A
  err : Error → Result A

-- `if c { return Err(e) }`
abbrev pub reject_if : Bool → Error → Result (Unit {0})
reject_if true e = err e
reject_if false e = ok tt

-- `ok_or(e)`, and `map_err(|_| e)` of a result whose own error is dropped
abbrev pub ok_or {ℓ} : {A : Type ℓ} → Option A → Error → Result A
ok_or none e = err e
ok_or (some a) e = ok a

infixl 5 ◌>>=◌ ◌>>◌
abbrev pub ◌>>=◌ {ℓ κ} : {X : Type ℓ} {Y : Type κ} → Result X → (X → Result Y) → Result Y
m >>= next = elim m [ err e ↦ err e | ok x ↦ next x ]

abbrev pub ◌>>◌ {κ} : {Y : Type κ} → Result (Unit {0}) → Result Y → Result Y
check >> next = check >>= λ passed. next

-- `error == Error::Timeout`
abbrev pub is_timeout : Error → Bool
is_timeout timeout = true
is_timeout _ = false

pub Result-cases {ℓ} :
    {A : Type ℓ} (r : Result A) → ((a : A) × (r ≡ ok a)) ⊎ ((e : Error) × (r ≡ err e))
Result-cases (ok a) = inl (a, refl)
Result-cases (err e) = inr (e, refl)

pub bind-ok_iff :
    {A B : Type 0} (m : Result A) (f : A → Result B) (b : B)
    → ((m >>= f) ≡ ok b) ↔ ((a : A) × (m ≡ ok a) × (f a ≡ ok b))
bind-ok_iff (ok a) f b = (λ h. (a, refl, h), λ (x, e, h). cc)
bind-ok_iff (err e) f b = (λ h. cc, λ (x, e', h). cc)

pub ok_or_iff {ℓ} :
    {A : Type ℓ} (o : Option A) (e : Error) (a : A) → (ok_or o e ≡ ok a) ↔ (o ≡ some a)
ok_or_iff o e a = ground arith
