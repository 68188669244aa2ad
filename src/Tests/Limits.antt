-- ===== src/Tests/Limits.antt =====
-- Options, numbers and delays at concrete inputs.
use wu_kong_easy_sdk_rust.Base.{◌≤◌, ◌*◌, min, ◌≡◌, arith}
use wu_kong_easy_sdk_rust.Types.Failure.{ok}
use wu_kong_easy_sdk_rust.Types.Options.{default_options, validate}
use wu_kong_easy_sdk_rust.Types.Options.Validity.{validate_iff, default_options-IsValid}
use wu_kong_easy_sdk_rust.Types.Text.{to_decimal}
use wu_kong_easy_sdk_rust.Types.Text.Decimal.{read_digits, read_digits-to_decimal}
use wu_kong_easy_sdk_rust.Backoff.{base_delay, reconnect_delay}
use wu_kong_easy_sdk_rust.Backoff.Bounds.{reconnect_delay_bounds, base_delay_doubles}

validate_iff_example : validate default_options ≡ ok tt
validate_iff_example = (validate_iff default_options).1 default_options-IsValid

reconnect_delay_bounds_example :
    (base_delay default_options 3 ≤ reconnect_delay default_options 3 987)
    × (4 * reconnect_delay default_options 3 987 ≤ 5 * base_delay default_options 3)
    × (reconnect_delay default_options 3 987 ≤ 30_000_000_000)
unfolding default_options
reconnect_delay_bounds_example =
    reconnect_delay_bounds default_options 3 987 default_options-IsValid.limits

base_delay_doubles_example :
    (base_delay default_options 1 ≡ 1_000_000_000)
    × (base_delay default_options 4 ≡ min (2 * base_delay default_options 3) 30_000_000_000)
unfolding default_options
base_delay_doubles_example =
    base_delay_doubles default_options 2 default_options-IsValid.limits (omega arith)

read_digits-to_decimal_example : read_digits 0 (to_decimal 9007) ≡ 9007
read_digits-to_decimal_example = read_digits-to_decimal 9007 (omega arith)
