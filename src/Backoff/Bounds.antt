-- ===== src/Backoff/Bounds.antt =====
-- The delays before reconnecting: their range, and how they grow.
use native.Mathlib.Nat.{pow-suc, pow-le-pow_right}
use wu_kong_easy_sdk_rust.Base.{ℕ, suc, ◌+◌, ◌-◌, ◌*◌, ◌/◌, ◌%◌, ◌^◌, ◌≤◌, ◌<◌, ◌≡◌, min, arith}
use wu_kong_easy_sdk_rust.Types.Options.{Options}
use wu_kong_easy_sdk_rust.Types.Options.Validity.{IsLimited}
use wu_kong_easy_sdk_rust.Backoff.{
  saturating_mul, saturating_add, base_delay, jitter, reconnect_delay,
}

jitter-le : (base random : ℕ) → jitter base random ≤ base / 1_000_000 / 4
unfolding jitter
jitter-le base random = omega arith

base_delay-le : (o : Options) (attempt : ℕ) → base_delay o attempt ≤ o.max_reconnect_delay
unfolding base_delay
base_delay-le o attempt = omega arith

capped :
    (base j max : ℕ)
    → base ≤ max
    → max ≤ 86_400_000_000_000
    → j ≤ base / 1_000_000 / 4
    → (base ≤ min (saturating_add base (j % 2 ^ 64 * 1_000_000)) max)
      × (4 * min (saturating_add base (j % 2 ^ 64 * 1_000_000)) max ≤ 5 * base)
      × (min (saturating_add base (j % 2 ^ 64 * 1_000_000)) max ≤ max)
unfolding saturating_add
capped base j max p q r = omega arith

-- For options within the limits the delay is at least the exponential delay, at most a quarter more,
-- and at most the configured maximum.
pub reconnect_delay_bounds :
    (o : Options) (attempt random : ℕ)
    → IsLimited o
    → (base_delay o attempt ≤ reconnect_delay o attempt random)
      × (4 * reconnect_delay o attempt random ≤ 5 * base_delay o attempt)
      × (reconnect_delay o attempt random ≤ o.max_reconnect_delay)
unfolding reconnect_delay
reconnect_delay_bounds o attempt random l =
    capped (base_delay o attempt) (jitter (base_delay o attempt) random) o.max_reconnect_delay
      (base_delay-le o attempt) l.max_delay.1 (jitter-le (base_delay o attempt) random)

doubled :
    (d p max : ℕ)
    → max ≤ 86_400_000_000_000
    → p ≤ 2 ^ 30
    → min (saturating_mul d (min (p * 2) (2 ^ 32 - 1))) max
      ≡ min (2 * min (saturating_mul d (min p (2 ^ 32 - 1))) max) max
unfolding saturating_mul
doubled d p max q r =
    let twice : min (p * 2) (2 ^ 32 - 1) ≡ p * 2 = omega arith in
    let once : min p (2 ^ 32 - 1) ≡ p = omega arith in rw (twice, once) (omega arith)

-- The first delay is the configured one, and each of the next 31 is twice the one before or the
-- configured maximum.
pub base_delay_doubles :
    (o : Options) (n : ℕ)
    → IsLimited o
    → n < 31
    → (base_delay o 1 ≡ o.reconnect_delay)
      × (base_delay o (n + 2) ≡ min (2 * base_delay o (n + 1)) o.max_reconnect_delay)
unfolding base_delay
base_delay_doubles o n l h = (
  omega (arith, l),
  let next : n + 2 - 1 ≡ suc n = omega arith in
      let this : n + 1 - 1 ≡ n = omega arith in
      rw (next, this, pow-suc)
        (doubled o.reconnect_delay (2 ^ n) o.max_reconnect_delay l.max_delay.1
          (pow-le-pow_right {n = 2} (omega arith) {i = n} {j = 30} (omega arith))),
)
