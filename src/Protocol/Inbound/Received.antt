-- ===== src/Protocol/Inbound/Received.antt =====
-- The records that `decode` reads from what the server sent, in terms of the entries it sent.
use wu_kong_easy_sdk_rust.Base.{
  String, ◌≡◌, refl, ◌↔◌, inl, inr, Option, none, some, arith, and_then, option_map, Option-cases,
  sym, ◌∙◌, ap,
}
use wu_kong_easy_sdk_rust.Json.{Json, IsLawful, Shape}
use wu_kong_easy_sdk_rust.Types.Failure.{ok, protocol, ok_or_iff}
use wu_kong_easy_sdk_rust.Types.Text.{to_decimal}
use wu_kong_easy_sdk_rust.Types.Messages.{SendResult}
use wu_kong_easy_sdk_rust.Types.Decode.{
  as_object, as_str, fields_of_object, value_u64, value_i64, json_string, read_send_result,
}
use wu_kong_easy_sdk_rust.Protocol.Normalize.{stringify, normalize, decode}
use wu_kong_easy_sdk_rust.Protocol.Normalize.Names.{is_snake}
use wu_kong_easy_sdk_rust.Protocol.Normalize.Fuel.{merged}
use wu_kong_easy_sdk_rust.Protocol.Normalize.Lookup.{as_object-normalize}

module _ (J : Json) where
  open J use {Value, Map}

  -- The text of a message ID: a `u64` counts as its decimal digits.
  abbrev pub id_text : Value → Option String
  id_text v = elim (value_u64 J v) [ none ↦ as_str J v | some n ↦ some (to_decimal n) ]

  -- What the entries of an object say of a SENDACK.
  abbrev pub Acknowledges : Map → SendResult → Type 0
  Acknowledges m r =
      (and_then (merged J m "messageId") id_text ≡ some r.message_id)
      × (and_then (merged J m "messageSeq") (value_u64 J) ≡ some r.message_seq)
      × (and_then (merged J m "reasonCode") (value_i64 J) ≡ some r.reason_code)

module _ (J : Json) (L : IsLawful J) where
  open J use {Value, Map, get}

  pub as_str-json_string : (s : String) → as_str J (json_string J s) ≡ some s
  unfolding as_str
  as_str-json_string s = rw (as_str, L.out-into (Shape.string s))

  as_str-stringify : (v : Value) → as_str J (stringify J v) ≡ id_text J v
  unfolding stringify
  as_str-stringify v = elim (Option-cases (value_u64 J v)) [
    | inl e ↦ rw (e, stringify, id_text)
    | inr (n, e) ↦ rw (e, stringify, id_text) (as_str-json_string (to_decimal n))
  ]

  pub and_then-stringify :
      (o : Option Value) → and_then (option_map (stringify J) o) (as_str J) ≡ and_then o (id_text J)
  and_then-stringify none = refl
  and_then-stringify (some v) = as_str-stringify v

  read_send_result_iff :
      (v : Value) (m : Map) (r : SendResult)
      → as_object J v ≡ some m
      → (read_send_result J v ≡ some r) ↔ (
          (and_then (get m "messageId") (as_str J) ≡ some r.message_id)
          × (and_then (get m "messageSeq") (value_u64 J) ≡ some r.message_seq)
          × (and_then (get m "reasonCode") (value_i64 J) ≡ some r.reason_code))
  unfolding read_send_result
  read_send_result_iff v m r e = ground (arith, fields_of_object J 3 v m e)

  -- A SENDACK object is decoded exactly to the record that its entries give, the camelCase spelling
  -- of each before the snake_case one, and a numeric message ID as its decimal text.
  pub decode-send_result_iff :
      (v : Value) (m : Map) (r : SendResult)
      → as_object J v ≡ some m
      → (decode J (read_send_result J) v ≡ ok r) ↔ Acknowledges J m r
  unfolding decode is_snake
  decode-send_result_iff v m r e =
      let (m', e', entries) = as_object-normalize J L v m e in
      let id =
        ap (λ (o : Option Value). and_then o (as_str J)) (entries "messageId")
        ∙ and_then-stringify (merged J m "messageId") in
      let seq = ap (λ (o : Option Value). and_then o (value_u64 J)) (entries "messageSeq") in
      let code = ap (λ (o : Option Value). and_then o (value_i64 J)) (entries "reasonCode") in
      let at = read_send_result_iff (normalize J v) m' r e' in
      let found = ok_or_iff (read_send_result J (normalize J v)) (protocol "invalid fields") r in
      (
        λ h. let (a, b, c) = at.0 (found.0 h) in (sym id ∙ a, sym seq ∙ b, sym code ∙ c),
        λ (a, b, c). found.1 (at.1 (id ∙ a, seq ∙ b, code ∙ c)),
      )
