-- ===== src/Protocol/Inbound/Ranges.antt =====
-- The ranges of the numbers that `recv` and the decoding of a SENDACK of src/protocol.rs yield: they fit
-- the fields that src/types.rs declares for them.
use wu_kong_easy_sdk_rust.Base.{
  refl, Option, ℕ, ◌<◌, ◌^◌, ◌≡◌, false, none, some, arith, ap, ◌∙◌, sym,
}
use mathlib.Core.Option.{some-injective}
use wu_kong_easy_sdk_rust.Json.{Json, IsLawful, Base64, Shape}
use wu_kong_easy_sdk_rust.Types.Failure.{ok, protocol, ok_or_iff, bind-ok_iff}
use wu_kong_easy_sdk_rust.Types.Text.{is_empty}
use wu_kong_easy_sdk_rust.Types.Messages.{SendResult, RecvMessage, default_header}
use wu_kong_easy_sdk_rust.Types.Decode.{
  value_u64, value_i64, as_str, read_uint, required, or_default, optional, read_header,
  read_setting, fields, read_send_result, read_recv_message,
}
use wu_kong_easy_sdk_rust.Protocol.Normalize.{normalize, decode}
use wu_kong_easy_sdk_rust.Protocol.Inbound.{recv, decode_payload}
use wu_kong_easy_sdk_rust.Protocol.Inbound.Messages.{on_some, accept_iff}

-- `message_seq: u64` of a SENDACK.
abbrev pub ResultFits : SendResult → Type 0
ResultFits r = r.message_seq < 2 ^ 64

-- `message_seq: u64` and `channel_type: u8` of a message, which also has its IDs.
pub record MessageFits {J : Json} (m : RecvMessage J) : Type 0 where
  pub seq : m.message_seq < 2 ^ 64
  pub kind : m.channel_type < 2 ^ 8
  pub identified : is_empty m.message_id ≡ false
  pub addressed : is_empty m.channel_id ≡ false

module _ (J : Json) (L : IsLawful J) where
  open J use {Value}

  value_u64_of :
      (s : Shape J.Value J.Map J.Number) (v : Value) (n : ℕ)
      → J.out v ≡ s
      → value_u64 J v ≡ some n
      → n < 2 ^ 64
  unfolding value_u64
  value_u64_of (Shape.number k) v n e h = L.as_u64-lt k n (rw (value_u64, e) at h)
  value_u64_of Shape.null v n e h = absurd (let h' = rw (value_u64, e) at h in cc)
  value_u64_of (Shape.bool b) v n e h = absurd (let h' = rw (value_u64, e) at h in cc)
  value_u64_of (Shape.string s) v n e h = absurd (let h' = rw (value_u64, e) at h in cc)
  value_u64_of (Shape.array vs) v n e h = absurd (let h' = rw (value_u64, e) at h in cc)
  value_u64_of (Shape.object m) v n e h = absurd (let h' = rw (value_u64, e) at h in cc)

  required_u64-lt : (f : Option Value) (n : ℕ) → required J (value_u64 J) f ≡ some n → n < 2 ^ 64
  required_u64-lt none n h = absurd (cc)
  required_u64-lt (some v) n h = value_u64_of (J.out v) v n refl h

  required_uint-lt :
      (w : ℕ) (f : Option Value) (n : ℕ) → required J (read_uint J w) f ≡ some n → n < 2 ^ w
  required_uint-lt w none n h = absurd (cc)
  required_uint-lt w (some v) n h = ground arith

  pub decode-ResultFits :
      (v : Value) (r : SendResult) → decode J (read_send_result J) v ≡ ok r → ResultFits r
  unfolding decode read_send_result
  decode-ResultFits v r h =
      on_some (fields J 3 (normalize J v)) _
        ((ok_or_iff (read_send_result J (normalize J v)) (protocol "invalid fields") r).0 h)
        λ at e1 h1. on_some (required J (as_str J) (at 0 "messageId")) _ h1 λ id e2 h2.
          on_some (required J (value_u64 J) (at 1 "messageSeq")) _ h2 λ seq e3 h3.
            on_some (required J (value_i64 J) (at 2 "reasonCode")) _ h3 λ reason e4 h4.
              required_u64-lt (at 1 "messageSeq") r.message_seq
                (e3 ∙ ap (λ (x : SendResult). some x.message_seq) (some-injective _ r h4))

  decode-message :
      (v : Value) (r : RecvMessage J)
      → decode J (read_recv_message J) v ≡ ok r
      → (r.message_seq < 2 ^ 64) × (r.channel_type < 2 ^ 8)
  unfolding decode read_recv_message
  decode-message v r h =
      on_some (fields J 11 (normalize J v)) _
        ((ok_or_iff (read_recv_message J (normalize J v)) (protocol "invalid fields") r).0 h)
        λ at e0 h0.
          on_some (or_default J (read_header J) default_header (at 0 "header")) _ h0 λ _ e1 h1.
            on_some (required J (as_str J) (at 1 "messageId")) _ h1 λ _ e2 h2.
              on_some (required J (value_u64 J) (at 2 "messageSeq")) _ h2 λ _ e3 h3.
                on_some (required J (value_i64 J) (at 3 "timestamp")) _ h3 λ _ e4 h4.
                  on_some (required J (as_str J) (at 4 "channelId")) _ h4 λ _ e5 h5.
                    on_some (required J (read_uint J 8) (at 5 "channelType")) _ h5 λ _ e6 h6.
                      on_some (required J (as_str J) (at 6 "fromUid")) _ h6 λ _ e7 h7.
                        on_some (at 7 "payload") _ h7 λ _ e8 h8.
                          on_some (optional J (as_str J) (at 8 "clientMsgNo")) _ h8 λ _ e9 h9.
                            on_some (optional J (read_setting J) (at 9 "setting")) _ h9 λ _ e10 h10.
                              on_some (optional J (as_str J) (at 10 "topic")) _ h10 λ _ e11 h11.
                                let l = some-injective _ r h11 in
                                (
                                  required_u64-lt (at 2 "messageSeq") r.message_seq
                                      (e3 ∙ ap (λ (x : RecvMessage J). some x.message_seq) l),
                                  required_uint-lt 8 (at 5 "channelType") r.channel_type
                                      (e6 ∙ ap (λ (x : RecvMessage J). some x.channel_type) l),
                                )

  pub recv-MessageFits :
      (B : Base64) (v : Value) (m : RecvMessage J) → recv J B v ≡ ok m → MessageFits m
  unfolding recv
  recv-MessageFits B v m h =
      let (raw, read, rest) = (bind-ok_iff (decode J (read_recv_message J) v) _ m).0 h in
      let (id, channel, same_m) =
        (accept_iff (is_empty raw.message_id) (is_empty raw.channel_id) _
            (record raw { payload = decode_payload J B raw.payload }) m).0
          rest in
      let (seq, kind) = decode-message v raw read in
      rw (sym same_m) (record { seq = seq; kind = kind; identified = id; addressed = channel })
