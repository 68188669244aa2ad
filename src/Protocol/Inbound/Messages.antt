-- ===== src/Protocol/Inbound/Messages.antt =====
-- Which notifications `recv` accepts, and what they are turned into.
use wu_kong_easy_sdk_rust.Base.{
  String, ◌≡◌, refl, ◌↔◌, Option, none, some, arith, and_then, ◌||◌, Bool, false, sym, ◌∙◌, ap,
}
use mathlib.Core.Path.{subst₂, fun_ext}
use mathlib.Core.Option.{some-injective}
use wu_kong_easy_sdk_rust.Json.{Json, IsLawful, Base64}
use wu_kong_easy_sdk_rust.Types.Failure.{
  Error, ok, protocol, reject_if, ◌>>◌, bind-ok_iff, ok_or_iff,
}
use wu_kong_easy_sdk_rust.Types.Text.{is_empty}
use wu_kong_easy_sdk_rust.Types.Messages.{RecvMessage, default_header}
use wu_kong_easy_sdk_rust.Types.Decode.{
  as_object, fields_of_object, as_str, value_u64, value_i64, read_uint, or_default, optional,
  read_header, read_setting, read_recv_message,
}
use wu_kong_easy_sdk_rust.Protocol.Normalize.{normalize, decode}
use wu_kong_easy_sdk_rust.Protocol.Normalize.Names.{is_snake}
use wu_kong_easy_sdk_rust.Protocol.Normalize.Fuel.{merged}
use wu_kong_easy_sdk_rust.Protocol.Normalize.Lookup.{as_object-normalize, normalized_entry}
use wu_kong_easy_sdk_rust.Protocol.Inbound.{recv, decode_payload}
use wu_kong_easy_sdk_rust.Protocol.Inbound.Received.{id_text, and_then-stringify}

-- Inversion of a successful bind.
pub on_some {ℓ κ μ} :
    {A : Type ℓ} {B : Type κ} {P : Type μ} (o : Option A) (f : A → Option B) {b : B}
    → and_then o f ≡ some b
    → ((a : A) → o ≡ some a → f a ≡ some b → P)
    → P
on_some none f h k = cc
on_some (some a) f h k = k a refl h

pub accept_iff :
    {A : Type 0} (a b : Bool) (e : Error) (x y : A)
    → ((reject_if (a || b) e >> ok x) ≡ ok y) ↔ ((a ≡ false) × (b ≡ false) × (x ≡ y))
accept_iff a b e x y = ground arith

module _ (J : Json) where
  open J use {Value, Map, get}

  -- What the fields of a RECV message are read from, given each entry.
  abbrev pub ReadsMessage : (String → Option Value) → Option String → RecvMessage J → Type 0
  ReadsMessage at id r =
      (or_default J (read_header J) default_header (at "header") ≡ some r.header)
      × (id ≡ some r.message_id)
      × (and_then (at "messageSeq") (value_u64 J) ≡ some r.message_seq)
      × (and_then (at "timestamp") (value_i64 J) ≡ some r.timestamp)
      × (and_then (at "channelId") (as_str J) ≡ some r.channel_id)
      × (and_then (at "channelType") (read_uint J 8) ≡ some r.channel_type)
      × (and_then (at "fromUid") (as_str J) ≡ some r.from_uid)
      × (at "payload" ≡ some r.payload)
      × (optional J (as_str J) (at "clientMsgNo") ≡ some r.client_msg_no)
      × (optional J (read_setting J) (at "setting") ≡ some r.setting)
      × (optional J (as_str J) (at "topic") ≡ some r.topic)

  read_recv_message_iff :
      (v : Value) (m : Map) (r : RecvMessage J)
      → as_object J v ≡ some m
      → (read_recv_message J v ≡ some r)
        ↔ ReadsMessage (get m) (and_then (get m "messageId") (as_str J)) r
  unfolding read_recv_message
  read_recv_message_iff v m r e = (forward, backward)
    where
      forward :
          read_recv_message J v ≡ some r
          → ReadsMessage (get m) (and_then (get m "messageId") (as_str J)) r
      forward h =
          on_some (or_default J (read_header J) default_header (get m "header")) _
            (rw (fields_of_object J 11 v m e) at h)
            λ _ e1 h1. on_some (and_then (get m "messageId") (as_str J)) _ h1 λ _ e2 h2.
              on_some (and_then (get m "messageSeq") (value_u64 J)) _ h2 λ _ e3 h3.
                on_some (and_then (get m "timestamp") (value_i64 J)) _ h3 λ _ e4 h4.
                  on_some (and_then (get m "channelId") (as_str J)) _ h4 λ _ e5 h5.
                    on_some (and_then (get m "channelType") (read_uint J 8)) _ h5 λ _ e6 h6.
                      on_some (and_then (get m "fromUid") (as_str J)) _ h6 λ _ e7 h7.
                        on_some (get m "payload") _ h7 λ _ e8 h8.
                          on_some (optional J (as_str J) (get m "clientMsgNo")) _ h8 λ _ e9 h9.
                            on_some (optional J (read_setting J) (get m "setting")) _ h9
                              λ _ e10 h10.
                                on_some (optional J (as_str J) (get m "topic")) _ h10 λ _ e11 h11.
                                  let l = some-injective _ r h11 in
                                  (
                                    e1 ∙ ap (λ (x : RecvMessage J). some x.header) l,
                                    e2 ∙ ap (λ (x : RecvMessage J). some x.message_id) l,
                                    e3 ∙ ap (λ (x : RecvMessage J). some x.message_seq) l,
                                    e4 ∙ ap (λ (x : RecvMessage J). some x.timestamp) l,
                                    e5 ∙ ap (λ (x : RecvMessage J). some x.channel_id) l,
                                    e6 ∙ ap (λ (x : RecvMessage J). some x.channel_type) l,
                                    e7 ∙ ap (λ (x : RecvMessage J). some x.from_uid) l,
                                    e8 ∙ ap (λ (x : RecvMessage J). some x.payload) l,
                                    e9 ∙ ap (λ (x : RecvMessage J). some x.client_msg_no) l,
                                    e10 ∙ ap (λ (x : RecvMessage J). some x.setting) l,
                                    e11 ∙ ap (λ (x : RecvMessage J). some x.topic) l,
                                  )

      backward :
          ReadsMessage (get m) (and_then (get m "messageId") (as_str J)) r
          → read_recv_message J v ≡ some r
      backward (e1, e2, e3, e4, e5, e6, e7, e8, e9, e10, e11) =
          rw (fields_of_object J 11 v m e, e1, e2, e3, e4, e5, e6, e7, e8, e9, e10, e11)

module _ (J : Json) (L : IsLawful J) (B : Base64) where
  open J use {Value, Map, get}

  -- The message that `recv` makes of the one it reads.
  abbrev pub with_payload : RecvMessage J → RecvMessage J
  with_payload raw = record raw { payload = decode_payload J B raw.payload }

  abbrev pub Receives : Map → RecvMessage J → RecvMessage J → Type 0
  Receives m raw msg =
      ReadsMessage J (normalized_entry J m) (and_then (merged J m "messageId") (id_text J)) raw
      × (is_empty raw.message_id ≡ false)
      × (is_empty raw.channel_id ≡ false)
      × (with_payload raw ≡ msg)

  reads_normalized :
      (v : Value) (m : Map) (raw : RecvMessage J)
      → as_object J v ≡ some m
      → (decode J (read_recv_message J) v ≡ ok raw)
        ↔ ReadsMessage J (normalized_entry J m) (and_then (merged J m "messageId") (id_text J)) raw
  unfolding decode is_snake
  reads_normalized v m raw e =
      let (m', e', entries) = as_object-normalize J L v m e in
      let id =
        ap (λ (o : Option Value). and_then o (as_str J)) (entries "messageId")
        ∙ and_then-stringify J L (merged J m "messageId") in
      let at = read_recv_message_iff J (normalize J v) m' raw e' in
      let found = ok_or_iff (read_recv_message J (normalize J v)) (protocol "invalid fields") raw in
      (
        λ h. subst₂ (λ at o. ReadsMessage J at o raw) (fun_ext entries) id (at.0 (found.0 h)),
        λ h.
            found.1
              (at.1 (subst₂ (λ at o. ReadsMessage J at o raw) (sym (fun_ext entries)) (sym id) h)),
      )

  -- A RECV notification that is an object is accepted exactly if its entries, in either spelling, give
  -- every required field in range and the message and channel IDs are not empty; the payload of the message is
  -- then the decoded one.
  pub recv-ok_iff :
      (v : Value) (m : Map) (msg : RecvMessage J)
      → as_object J v ≡ some m
      → (recv J B v ≡ ok msg) ↔ ((raw : RecvMessage J) × Receives m raw msg)
  unfolding recv
  recv-ok_iff v m msg e = (
    λ h.
        let (raw, read, accepted) = (bind-ok_iff (decode J (read_recv_message J) v) _ msg).0 h in
        let (a, b, same) = (accept_iff _ _ _ (with_payload raw) msg).0 accepted in
        (raw, ((reads_normalized v m raw e).0 read, a, b, same)),
    λ (raw, (reads, a, b, same)). (bind-ok_iff (decode J (read_recv_message J) v) _ msg).1 (
      raw,
      (reads_normalized v m raw e).1 reads,
      (accept_iff _ _ _ (with_payload raw) msg).1 (a, b, same),
    ),
  )
