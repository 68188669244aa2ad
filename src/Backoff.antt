-- ===== src/Backoff.antt =====
-- `reconnect_delay` of src/client.rs. Durations are nanoseconds; a `Duration` holds less than 2^64
-- seconds. The random UUID is an argument.
pub mod Bounds
use wu_kong_easy_sdk_rust.Base.{ℕ, ◌+◌, ◌-◌, ◌*◌, ◌/◌, ◌%◌, ◌^◌, min}
use wu_kong_easy_sdk_rust.Types.Options.{Options}

-- `Duration::MAX`
abbrev pub duration_max : ℕ
duration_max = 2 ^ 64 * 1_000_000_000 - 1

-- `Duration::saturating_mul`, `Duration::saturating_add`
unfoldable pub saturating_mul : ℕ → ℕ → ℕ
saturating_mul d n = min (d * n) duration_max

unfoldable pub saturating_add : ℕ → ℕ → ℕ
saturating_add a b = min (a + b) duration_max

-- `2_u32.saturating_pow(k)`
unfoldable pub saturating_pow2 : ℕ → ℕ
saturating_pow2 k = min (2 ^ k) (2 ^ 32 - 1)

-- The delay without jitter. `attempt.saturating_sub(1)` is the subtraction of ℕ.
unfoldable pub base_delay : Options → ℕ → ℕ
unfolding saturating_mul saturating_pow2
base_delay o attempt =
    min (saturating_mul o.reconnect_delay (saturating_pow2 (attempt - 1))) o.max_reconnect_delay

-- In milliseconds.
unfoldable pub jitter : ℕ → ℕ → ℕ
jitter base random = random % (base / 1_000_000 / 4 + 1)

-- `jitter as u64` keeps the low 64 bits.
unfoldable pub reconnect_delay : Options → ℕ → ℕ → ℕ
unfolding saturating_add
reconnect_delay o attempt random =
    let base = base_delay o attempt in
    min (saturating_add base (jitter base random % 2 ^ 64 * 1_000_000)) o.max_reconnect_delay
