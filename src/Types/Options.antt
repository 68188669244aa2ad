-- ===== src/Types/Options.antt =====
-- `Options` of src/types.rs. A `Duration` is a number of nanoseconds.
pub mod Validity
use wu_kong_easy_sdk_rust.Base.{
  ℕ, ◌*◌, ◌^◌, Bool, ◌&&◌, ◌||◌, not, List, [], ◌∷◌, length, any, leb, ltb, ◌==◌,
}
use wu_kong_easy_sdk_rust.Types.Failure.{Result, ok, invalid_input, reject_if, ◌>>=◌, ◌>>◌}

pub record Options : Type 0 where
  pub connect_timeout : ℕ
  pub request_timeout : ℕ
  pub write_timeout : ℕ
  pub ping_interval : ℕ
  pub pong_timeout : ℕ
  pub max_reconnect_attempts : ℕ
  pub reconnect_delay : ℕ
  pub max_reconnect_delay : ℕ
  pub max_in_flight : ℕ
  pub event_capacity : ℕ
  pub max_message_size : ℕ
  pub additional_root_certificates : List (List ℕ)

-- `Duration::from_secs`
abbrev pub from_secs : ℕ → ℕ
from_secs n = n * 1_000_000_000

unfoldable pub default_options : Options
default_options = record {
  connect_timeout = from_secs 5;
  request_timeout = from_secs 15;
  write_timeout = from_secs 5;
  ping_interval = from_secs 25;
  pong_timeout = from_secs 10;
  max_reconnect_attempts = 5;
  reconnect_delay = from_secs 1;
  max_reconnect_delay = from_secs 30;
  max_in_flight = 256;
  event_capacity = 256;
  max_message_size = 1024 * 1024;
  additional_root_certificates = [];
}

-- `(lo..=hi).contains(&n)`
abbrev within : ℕ → ℕ → ℕ → Bool
within lo hi n = leb lo n && leb n hi

abbrev bad_certificate : List ℕ → Bool
bad_certificate cert = length cert == 0 || ltb 65536 (length cert)

abbrev bad_duration : ℕ → Bool
bad_duration d = d == 0 || ltb (from_secs 86400) d

abbrev durations : Options → List ℕ
durations o =
    o.connect_timeout ∷ o.request_timeout ∷ o.write_timeout ∷ o.ping_interval ∷ o.pong_timeout
    ∷ o.reconnect_delay ∷ o.max_reconnect_delay ∷ []

abbrev bad_certificates : Options → Bool
bad_certificates o =
    ltb 16 (length o.additional_root_certificates)
    || any bad_certificate o.additional_root_certificates

abbrev bad_limits : Options → Bool
bad_limits o =
    any bad_duration (durations o)
    || ltb o.max_reconnect_delay o.reconnect_delay
    || ltb 100 o.max_reconnect_attempts
    || not (within 1 65536 o.max_in_flight)
    || not (within 1 65536 o.event_capacity)
    || not (within 256 (64 * 1024 * 1024) o.max_message_size)

unfoldable pub validate : Options → Result (Unit {0})
validate o = do
  reject_if (bad_certificates o) (invalid_input "invalid additional root certificate limit")
  reject_if (bad_limits o) (invalid_input "invalid resource or duration limit")
  ok tt
