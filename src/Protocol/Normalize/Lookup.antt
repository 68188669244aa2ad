-- ===== src/Protocol/Normalize/Lookup.antt =====
-- What each entry of a normalized value holds.
use mathlib.Core.Path.{fun_ext}
use wu_kong_easy_sdk_rust.Base.{
  String, List, [], ◌∷◌, ◌++◌, or_else, unwrap_or, ◌≡◌, refl, ◌∙◌, ap, Option, none, some, str_eq,
  eq_iff, if◌then◌else◌, option_map, and_then, Option-cases, Bool-cases, inl, inr,
}
use wu_kong_easy_sdk_rust.Json.{Json, IsLawful, Shape}
use wu_kong_easy_sdk_rust.Types.Decode.{as_object, value_get, json_object, value_u64}
use wu_kong_easy_sdk_rust.Protocol.Normalize.{
  aliases, stringify, modify, normalize_fields, normalize, on_object,
}
use wu_kong_easy_sdk_rust.Types.Text.{to_decimal}
use wu_kong_easy_sdk_rust.Protocol.Normalize.Names.{is_snake, snake_of}
use wu_kong_easy_sdk_rust.Protocol.Normalize.Fuel.{
  merged, get-modify, get-normalize_fields, get-normalize_fields-header, normalize_lem,
}

-- The entry of a key after normalization, from the entries before it.
abbrev pub normalized_entry : (J : Json) → J.Map → String → Option J.Value
normalized_entry J m key =
    if is_snake aliases key
    then none
    else if str_eq "messageId" key
    then option_map (stringify J) (merged J m key)
    else if str_eq "header" key
    then option_map (normalize J) (J.get m key)
    else merged J m key

-- The names of two words or more that the records of src/types.rs have on the wire, by record: of
-- `ConnectResult`, of `SendResult`, of `RecvMessage`, and of `Header`; the reason code, the message ID and the
-- sequence number, which two records have, stand once.
abbrev pub wire_names : List (String × String)
wire_names =
    (("reason_code", "reasonCode")
      ∷ ("server_key", "serverKey")
      ∷ ("time_diff", "timeDiff")
      ∷ ("server_version", "serverVersion")
      ∷ ("node_id", "nodeId")
      ∷ [])
    ++ (("message_id", "messageId") ∷ ("message_seq", "messageSeq") ∷ [])
    ++ (("channel_id", "channelId")
        ∷ ("channel_type", "channelType")
        ∷ ("from_uid", "fromUid")
        ∷ ("client_msg_no", "clientMsgNo")
        ∷ [])
    ++ (("no_persist", "noPersist") ∷ ("red_dot", "redDot") ∷ ("sync_once", "syncOnce") ∷ [])

-- The entry under a name on the wire: its own, or else that under the snake_case name.
abbrev pub wire_entry : (J : Json) → J.Map → String → Option J.Value
wire_entry J m key = or_else (J.get m key) (and_then (snake_of wire_names key) (J.get m))

-- A number that is a `u64`, as a text.
abbrev pub text_of_number : (J : Json) → Shape J.Value J.Map J.Number → Option J.Value
text_of_number J (Shape.number n) =
    option_map (λ k. J.into (Shape.string (to_decimal k))) (J.as_u64 n)
text_of_number J shape = none

-- What a message ID becomes.
abbrev pub id_value : (J : Json) → J.Value → J.Value
id_value J v = unwrap_or (text_of_number J (J.out v)) v

-- What normalization is to leave of an object under a key.
abbrev pub wanted_entry : (J : Json) → J.Map → String → Option J.Value
wanted_entry J m key =
    if is_snake wire_names key
    then none
    else if str_eq "messageId" key
    then option_map (id_value J) (wire_entry J m key)
    else if str_eq "header" key
    then option_map (normalize J) (J.get m key)
    else wire_entry J m key

stringify-shape :
    (J : Json) (v : J.Value) (s : Shape J.Value J.Map J.Number)
    → J.out v ≡ s
    → stringify J v ≡ id_value J v
unfolding stringify value_u64
stringify-shape J v (Shape.number n) e = elim (Option-cases (J.as_u64 n)) [
  | inl none_here ↦ rw (stringify, value_u64, e, none_here) refl
  | inr (k, some_here) ↦ rw (stringify, value_u64, e, some_here) refl
]
stringify-shape J v s e = rw (stringify, value_u64, e) refl

stringify-id_value : (J : Json) (v : J.Value) → stringify J v ≡ id_value J v
stringify-id_value J v = stringify-shape J v (J.out v) refl

normalized_entry-wanted_entry :
    (J : Json) (m : J.Map) (key : String) → normalized_entry J m key ≡ wanted_entry J m key
normalized_entry-wanted_entry J m key =
    ap
      (λ (text : J.Value → J.Value).
        if is_snake aliases key
        then none
        else if str_eq "messageId" key
        then option_map text (merged J m key)
        else if str_eq "header" key
        then option_map (normalize J) (J.get m key)
        else merged J m key)
      (fun_ext (stringify-id_value J))

module _ (J : Json) (L : IsLawful J) where
  open J use {Value, Map, get}

  pub as_object-json_object : (m : Map) → as_object J (json_object J m) ≡ some m
  unfolding as_object
  as_object-json_object m = rw (as_object, L.out-into (Shape.object m))

  pub normalize_other : (v : Value) → as_object J v ≡ none → normalize J v ≡ v
  normalize_other v e = normalize_lem J L v ∙ rw (e, on_object) refl

  entry_header :
      (m : Map)
      → get (modify J "header" (normalize J) (normalize_fields J m)) "header"
        ≡ normalized_entry J m "header"
  unfolding is_snake
  entry_header m =
      get-modify J L "header" (normalize J) (normalize_fields J m) "header"
      ∙ ap (option_map (normalize J)) (get-normalize_fields-header J L m)

  entry_of_object :
      (m : Map) (key : String)
      → get (modify J "header" (normalize J) (normalize_fields J m)) key ≡ normalized_entry J m key
  entry_of_object m key = elim (Bool-cases (str_eq "header" key)) [
    | inl same ↦ let e : "header" ≡ key = (eq_iff "header" key).0 same in rw (← e) (entry_header m)
    | inr other ↦
        rw
          (
            get-modify J L "header" (normalize J) (normalize_fields J m) key,
            other,
            get-normalize_fields J L m key,
          )
          refl
  ]

  value_get-normalized :
      (v : Value) (key : String)
      → value_get J (normalize J v) key ≡ and_then (as_object J v) (λ m. normalized_entry J m key)
  value_get-normalized v key = elim (Option-cases (as_object J v)) [
    | inl e ↦ rw (normalize_other v e, e)
    | inr (m, e) ↦
        rw
          (
            normalize_lem J L v,
            e,
            on_object,
            as_object-json_object (modify J "header" (normalize J) (normalize_fields J m)),
          )
          (entry_of_object m key)
  ]

  -- Every entry of a normalized value: the snake_case names of the records are gone, a name on the wire
  -- has its own entry or else the snake_case one, a message ID that is a number of 64 bits is its decimal
  -- text, the header is normalized in turn, and every other entry is untouched. A value that is no object
  -- has no entries.
  pub value_get-normalize :
      (v : Value) (key : String)
      → value_get J (normalize J v) key ≡ and_then (as_object J v) (λ m. wanted_entry J m key)
  value_get-normalize v key =
      value_get-normalized v key
      ∙ ap (and_then (as_object J v)) (fun_ext (λ m. normalized_entry-wanted_entry J m key))

  -- An object stays an object, with the entries above.
  pub as_object-normalize :
      (v : Value) (m : Map)
      → as_object J v ≡ some m
      → (m' : Map) × (as_object J (normalize J v) ≡ some m')
        × ((key : String) → get m' key ≡ normalized_entry J m key)
  as_object-normalize v m e = (
    modify J "header" (normalize J) (normalize_fields J m),
    rw (normalize_lem J L v, e, on_object) (as_object-json_object _),
    entry_of_object m,
  )
