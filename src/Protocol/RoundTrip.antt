-- ===== src/Protocol/RoundTrip.antt =====
-- What one client sends and another receives.
use wu_kong_easy_sdk_rust.Base.{
  ℕ, String, ◌≡◌, refl, Option, none, some, List, arith, or_else, sym, ◌∙◌, ap, str_eq,
  if◌then◌else◌,
}
use mathlib.Core.Option.{some-injective}
use wu_kong_easy_sdk_rust.Json.{Json, IsLawful, Base64}
use wu_kong_easy_sdk_rust.Types.Failure.{ok}
use wu_kong_easy_sdk_rust.Types.Messages.{RecvMessage, SendOptions}
use wu_kong_easy_sdk_rust.Types.Decode.{as_object, value_get, json_string}
use wu_kong_easy_sdk_rust.Protocol.Normalize.Lookup.{normalized_entry, as_object-json_object}
use wu_kong_easy_sdk_rust.Protocol.Outbound.{send, send_params, insert_some}
use wu_kong_easy_sdk_rust.Protocol.Outbound.Sending.{send-ok_iff}
use wu_kong_easy_sdk_rust.Protocol.Normalize.Names.{is_snake, snake_of}
use wu_kong_easy_sdk_rust.Protocol.Inbound.{recv, decode_payload}
use wu_kong_easy_sdk_rust.Protocol.Inbound.Received.{as_str-json_string}
use wu_kong_easy_sdk_rust.Protocol.Inbound.Messages.{recv-ok_iff}

module _ (J : Json) (L : IsLawful J) (B : Base64) where
  open J use {Value, Map, get, to_vec, from_slice}

  -- The Base64 text of a payload's JSON is decoded to the payload.
  decode_payload-encode :
      (payload : Value) (bytes : List ℕ)
      → from_slice bytes ≡ some payload
      → decode_payload J B (json_string J (B.encode bytes)) ≡ payload
  unfolding decode_payload
  decode_payload-encode payload bytes h =
      rw (decode_payload, as_str-json_string J L (B.encode bytes), B.decode-encode bytes, h)

  get-insert_some :
      (key : String) (o : Option Value) (m : Map) (j : String)
      → get (insert_some J key o m) j ≡ (if str_eq key j then or_else o (get m j) else get m j)
  get-insert_some key none m j = ground arith
  get-insert_some key (some v) m j = L.get-insert m key v j

  send_params-payload :
      (channel : String) (kind : ℕ) (bytes : List ℕ) (o : SendOptions) (id : String)
      → get (send_params J B channel kind bytes o id) "payload"
        ≡ some (json_string J (B.encode bytes))
  unfolding send_params
  send_params-payload channel kind bytes o id = simp (get-insert_some, L.get-insert)

  -- The "payload" of an accepted SEND is the Base64 text of the payload's JSON.
  send-payload :
      (channel : String) (kind : ℕ) (payload params : Value) (o : SendOptions) (id : String)
      (bytes : List ℕ)
      → send J B channel kind payload o id ≡ ok params
      → to_vec payload ≡ some bytes
      → value_get J params "payload" ≡ some (json_string J (B.encode bytes))
  send-payload channel kind payload params o id bytes h e =
      let (_, (bytes', e', built)) = (send-ok_iff J B channel kind payload params o id).0 h in
      let same : bytes' ≡ bytes = some-injective _ _ (sym e' ∙ e) in
      rw (← built, as_object-json_object J L, same) (send_params-payload channel kind bytes o id)

  payload_entry :
      (m : Map) (w : Value) → get m "payload" ≡ some w → normalized_entry J m "payload" ≡ some w
  unfolding is_snake snake_of
  payload_entry m w h = rw h refl

  -- A payload whose JSON text is read back unchanged arrives as it was sent: if one client's `send`
  -- accepts it, and a notification with the "payload" of those parameters is accepted by `recv`,
  -- then the message's payload is the one that was sent.
  pub recv-send :
      (channel : String) (kind : ℕ) (payload params v : Value) (m : Map) (o : SendOptions)
      (id : String) (bytes : List ℕ) (msg : RecvMessage J)
      → to_vec payload ≡ some bytes
      → from_slice bytes ≡ some payload
      → send J B channel kind payload o id ≡ ok params
      → as_object J v ≡ some m
      → get m "payload" ≡ value_get J params "payload"
      → recv J B v ≡ ok msg
      → msg.payload ≡ payload
  recv-send channel kind payload params v m o id bytes msg e r sent obj same received =
      let (raw, (reads, _, _, made)) = (recv-ok_iff J L B v m msg obj).0 received in
      let wire = same ∙ send-payload channel kind payload params o id bytes sent e in
      let read = some-injective _ _ (sym reads.7 ∙ payload_entry m _ wire) in
      ap (λ (x : RecvMessage J). x.payload) (sym made)
      ∙ ap (decode_payload J B) read
      ∙ decode_payload-encode payload bytes r
