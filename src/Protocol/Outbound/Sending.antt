-- ===== src/Protocol/Outbound/Sending.antt =====
-- Which sends `send` accepts, and the parameters that it builds.
use wu_kong_easy_sdk_rust.Base.{
  ℕ, String, ◌≡◌, refl, ◌≢◌, ◌↔◌, ◌⊎◌, ◌||◌, ◌&&◌, not, ◌==◌, Bool, Option, none, some, List, arith,
  sym, ◌∙◌, true, false,
}
use wu_kong_easy_sdk_rust.Json.{Json, Base64}
use wu_kong_easy_sdk_rust.Types.Failure.{Error, ok, ok_or, reject_if, ◌>>=◌, ◌>>◌}
use wu_kong_easy_sdk_rust.Types.Text.{is_empty, trim}
use wu_kong_easy_sdk_rust.Types.Text.Blank.{is_blank, is_empty-trim}
use wu_kong_easy_sdk_rust.Types.Messages.{SendOptions}
use wu_kong_easy_sdk_rust.Types.Decode.{is_object, is_array, json_object}
use wu_kong_easy_sdk_rust.Protocol.Outbound.{send, send_params, bad_send, is_blank_number}

-- A message number that is given is not blank.
abbrev pub IsNumber : Option String → Type 0
IsNumber none = Unit
IsNumber (some s) = is_blank s ≡ false

is_blank_number_iff : (o : Option String) → (is_blank_number o ≡ false) ↔ IsNumber o
is_blank_number_iff none = (λ h. tt, λ h. refl)
is_blank_number_iff (some s) = (λ h. rw (← is_empty-trim s) h, λ h. rw (is_empty-trim s) h)

four_tests :
    (a b c d e : Bool)
    → (a || b || (not c && not d) || e ≡ false)
      ↔ ((a ≡ false) × (b ≡ false) × ((c ≡ true) ⊎ (d ≡ true)) × (e ≡ false))
four_tests a b c d e = ground arith

send_shape :
    {A : Type 0} {C : Type 0} (a : Bool) (e : Error) (b : Option A) (e' : Error) (f : A → C) (y : C)
    → ((reject_if a e >> (ok_or b e' >>= λ x. ok (f x))) ≡ ok y)
      ↔ ((a ≡ false) × ((x : A) × (b ≡ some x) × (f x ≡ y)))
send_shape true e b e' f y = ground arith
send_shape false e none e' f y = (λ h. cc, λ h. cc)
send_shape false e (some x) e' f y = (λ h. (refl, (x, refl, ground arith)), λ (_, (x', p, q)). cc)

module _ (J : Json) where
  open J use {Value, Map, to_vec}

  pub record IsSendable (channel : String) (kind : ℕ) (payload : Value) (o : SendOptions)
      : Type 0 where
    pub channel_given : is_blank channel ≡ false
    pub kind_given : kind ≢ 0
    pub payload_shape : (is_object J payload ≡ true) ⊎ (is_array J payload ≡ true)
    pub number_given : IsNumber o.client_msg_no

  bad_send_iff :
      (channel : String) (kind : ℕ) (payload : Value) (o : SendOptions)
      → (bad_send J channel kind payload o ≡ false) ↔ IsSendable channel kind payload o
  bad_send_iff channel kind payload o =
      let tests =
        four_tests (is_empty (trim channel)) (kind == 0) (is_object J payload) (is_array J payload)
          (is_blank_number o.client_msg_no) in
      let number = is_blank_number_iff o.client_msg_no in
      let blank = is_empty-trim channel in
      (
        λ h.
            let (a, b, c, d) = tests.0 h in
            record {
              channel_given = sym blank ∙ a;
              kind_given = λ z. ground arith;
              payload_shape = c;
              number_given = number.0 d;
            },
        λ s. tests.1 (
          blank ∙ s.channel_given,
          ground (arith, s.kind_given),
          s.payload_shape,
          number.1 s.number_given,
        ),
      )

  pub send-ok_iff :
      (B : Base64) (channel : String) (kind : ℕ) (payload params : Value) (o : SendOptions)
      (id : String)
      → (send J B channel kind payload o id ≡ ok params) ↔ (
          IsSendable channel kind payload o
          × ((bytes : List ℕ) × (to_vec payload ≡ some bytes)
              × (json_object J (send_params J B channel kind bytes o id) ≡ params)))
  unfolding send
  send-ok_iff B channel kind payload params o id =
      let shape = send_shape (bad_send J channel kind payload o) _ (to_vec payload) _ _ params in
      let tests = bad_send_iff channel kind payload o in
      (λ h. (tests.0 (shape.0 h).0, (shape.0 h).1), λ (s, built). shape.1 (tests.1 s, built))
