-- ===== src/Types/Options/Validity.antt =====
-- What `Options::validate` accepts.
use wu_kong_easy_sdk_rust.Base.{
  ℕ, ◌≤◌, ◌≡◌, refl, ◌↔◌, Bool, false, List, [], ◌∷◌, length, any, All, arith,
}
use wu_kong_easy_sdk_rust.Types.Failure.{Error, ok, reject_if, ◌>>◌}
use wu_kong_easy_sdk_rust.Types.Options.{
  Options, default_options, validate, from_secs, bad_certificate, bad_certificates, bad_limits,
}

-- A duration that is positive and at most one day.
abbrev pub IsDuration : ℕ → Type 0
IsDuration d = (1 ≤ d) × (d ≤ from_secs 86400)

abbrev pub IsCertificate : List ℕ → Type 0
IsCertificate cert = (1 ≤ length cert) × (length cert ≤ 65536)

-- The documented limits: README.md, "Bounds and protocol".
pub record IsLimited (o : Options) : Type 0 where
  pub connect : IsDuration o.connect_timeout
  pub request : IsDuration o.request_timeout
  pub write : IsDuration o.write_timeout
  pub ping : IsDuration o.ping_interval
  pub pong : IsDuration o.pong_timeout
  pub delay : IsDuration o.reconnect_delay
  pub max_delay : IsDuration o.max_reconnect_delay
  pub delay_le : o.reconnect_delay ≤ o.max_reconnect_delay
  pub attempts : o.max_reconnect_attempts ≤ 100
  pub in_flight : (1 ≤ o.max_in_flight) × (o.max_in_flight ≤ 65536)
  pub events : (1 ≤ o.event_capacity) × (o.event_capacity ≤ 65536)
  pub size : (256 ≤ o.max_message_size) × (o.max_message_size ≤ 67108864)

pub record IsValid (o : Options) : Type 0 where
  pub limits : IsLimited o
  pub count : length o.additional_root_certificates ≤ 16
  pub certificates : All IsCertificate o.additional_root_certificates

limits_of_test : (o : Options) → bad_limits o ≡ false → IsLimited o
limits_of_test o h = ground arith

test_of_limits : (o : Options) → IsLimited o → bad_limits o ≡ false
test_of_limits o h = ground arith

certificates_of_test : (cs : List (List ℕ)) → any bad_certificate cs ≡ false → All IsCertificate cs
certificates_of_test [] h = tt
certificates_of_test (c ∷ cs) h = ground (arith, certificates_of_test cs)

test_of_certificates : (cs : List (List ℕ)) → All IsCertificate cs → any bad_certificate cs ≡ false
test_of_certificates [] h = refl
test_of_certificates (c ∷ cs) h = ground (arith, test_of_certificates cs h.1)

-- Two tests in a row pass together.
both_pass :
    (a b : Bool) (e f : Error)
    → ((reject_if a e >> (reject_if b f >> ok (tt {0}))) ≡ ok tt) ↔ ((a ≡ false) × (b ≡ false))
both_pass a b e f = ground arith

-- `validate` accepts exactly the options that keep every documented limit.
pub validate_iff : (o : Options) → (validate o ≡ ok tt) ↔ IsValid o
unfolding validate
validate_iff o = (λ h. valid ((both_pass _ _ _ _).0 h), λ v. (both_pass _ _ _ _).1 (passes v))
  where
    valid : (bad_certificates o ≡ false) × (bad_limits o ≡ false) → IsValid o
    valid t = record {
      limits = limits_of_test o t.1;
      count = ground arith;
      certificates = certificates_of_test o.additional_root_certificates (ground arith);
    }

    passes : IsValid o → (bad_certificates o ≡ false) × (bad_limits o ≡ false)
    passes v = (
      ground (arith, test_of_certificates o.additional_root_certificates v.certificates, v.count),
      test_of_limits o v.limits,
    )

-- The defaults are accepted.
pub default_options-IsValid : IsValid default_options
unfolding default_options
default_options-IsValid = record { limits = omega arith; count = omega arith; certificates = tt }
