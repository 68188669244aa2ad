-- ===== src/Protocol/Inbound/Response.antt =====
-- Which responses `response` accepts, and which server codes it reports.
use wu_kong_easy_sdk_rust.Base.{
  ◌≡◌, refl, ap, subst, ◌≢◌, true, ◌↔◌, Option, none, some, arith, and_then,
}
use mathlib.Core.Option.{some-injective}
use wu_kong_easy_sdk_rust.Base.Int.{ℤ, pos, int_eq}
use wu_kong_easy_sdk_rust.Json.{Json}
use wu_kong_easy_sdk_rust.Types.Failure.{ok, err, server, ◌>>◌}
use wu_kong_easy_sdk_rust.Types.Decode.{value_get, value_i64}
use wu_kong_easy_sdk_rust.Protocol.Inbound.{reason_of, check_reason, one_of, response}

int_eq-pos : (c : ℤ) → (int_eq c (pos 1) ≡ true) ↔ (c ≡ pos 1)
int_eq-pos c = ground arith

module _ (J : Json) where
  open J use {Value}

  -- A result's reason, where it has one, is the number 1.
  abbrev pub Passes : Option Value → Type 0
  Passes none = Unit
  Passes (some r) = value_i64 J r ≡ some (pos 1)

  -- The code is that of the RPC error, or the reason of a result if that is not 1.
  abbrev pub Rejects : Option Value → Option Value → ℤ → Type 0
  Rejects none (some e) c = and_then (value_get J e "code") (value_i64 J) ≡ some c
  Rejects (some r) none c = (and_then (reason_of J r) (value_i64 J) ≡ some c) × (c ≢ pos 1)
  Rejects _ _ c = ⊥

  check_reason_iff : (o : Option Value) → (check_reason J o ≡ ok tt) ↔ Passes o
  unfolding check_reason
  check_reason_iff none = (λ h. tt, λ h. refl)
  check_reason_iff (some r) = ground arith

  check_reason-server_iff :
      (o : Option Value) (c : ℤ)
      → (check_reason J o ≡ err (server c)) ↔ ((and_then o (value_i64 J) ≡ some c) × (c ≢ pos 1))
  unfolding check_reason
  check_reason-server_iff none c = ground arith
  check_reason-server_iff (some r) c = ground (arith, int_eq-pos c)

  then_ok :
      (o : Option Value) (x r : Value)
      → ((check_reason J o >> ok x) ≡ ok r) ↔ ((x ≡ r) × (check_reason J o ≡ ok tt))
  then_ok o x r = ground arith

  then_server :
      (o : Option Value) (x : Value) (c : ℤ)
      → ((check_reason J o >> ok x) ≡ err (server c)) ↔ (check_reason J o ≡ err (server c))
  then_server o x c = ground arith

  one_of_iff :
      (a b : Option Value) (r : Value)
      → (one_of J a b ≡ ok r) ↔ ((a ≡ some r) × (b ≡ none) × Passes (reason_of J r))
  unfolding one_of
  one_of_iff none none r = ground arith
  one_of_iff none (some e) r = ground arith
  one_of_iff (some x) (some e) r = ground arith
  one_of_iff (some x) none r = (
    λ h.
        let (e, k) = (then_ok (reason_of J x) x r).0 h in
        (
          ap some e,
          refl,
          subst (λ y. Passes (reason_of J y)) e ((check_reason_iff (reason_of J x)).0 k),
        ),
    λ (e, _, k).
        let e' : x ≡ r = some-injective x r e in
        (then_ok (reason_of J x) x r).1 (e', (check_reason_iff (reason_of J x)).1 (rw e' k)),
  )

  -- A response is accepted exactly if it has a result and no error, and the result's reason, in
  -- either spelling, is absent or 1; the value returned is the result itself.
  pub response-ok_iff :
      (v r : Value)
      → (response J v ≡ ok r) ↔ (
          (value_get J v "result" ≡ some r)
          × (value_get J v "error" ≡ none)
          × Passes (reason_of J r))
  unfolding response
  response-ok_iff v r = one_of_iff (value_get J v "result") (value_get J v "error") r

  one_of-server_iff : (a b : Option Value) (c : ℤ) → (one_of J a b ≡ err (server c)) ↔ Rejects a b c
  unfolding one_of
  one_of-server_iff none none c = ground arith
  one_of-server_iff none (some e) c = ground arith
  one_of-server_iff (some x) (some e) c = ground arith
  one_of-server_iff (some x) none c = (
    λ h. (check_reason-server_iff (reason_of J x) c).0 ((then_server (reason_of J x) x c).0 h),
    λ h. (then_server (reason_of J x) x c).1 ((check_reason-server_iff (reason_of J x) c).1 h),
  )

  -- A server code is reported exactly if it is the code of the error of a response with no result,
  -- or the reason, other than 1, of the result of a response with no error.
  pub response-server_iff :
      (v : Value) (c : ℤ)
      → (response J v ≡ err (server c)) ↔ Rejects (value_get J v "result") (value_get J v "error") c
  unfolding response
  response-server_iff v c = one_of-server_iff (value_get J v "result") (value_get J v "error") c
