-- ===== src/Protocol/Inbound/Events.antt =====
-- Which custom events `event` of src/protocol.rs accepts, and what they are turned into.
use wu_kong_easy_sdk_rust.Base.{String, ◌≡◌, Option, some, and_then, false}
use wu_kong_easy_sdk_rust.Json.{Json, IsLawful}
use wu_kong_easy_sdk_rust.Types.Text.{is_empty}
use wu_kong_easy_sdk_rust.Types.Messages.{CustomEvent}
use wu_kong_easy_sdk_rust.Types.Decode.{as_str, value_i64, optional, read_header}
use wu_kong_easy_sdk_rust.Protocol.Normalize.Lookup.{normalized_entry}
use wu_kong_easy_sdk_rust.Protocol.Inbound.{decode_body}

module _ (J : Json) where
  open J use {Value, Map, get}

  -- What the fields of a custom event are read from, given each entry.
  abbrev pub ReadsEvent : (String → Option Value) → CustomEvent J → Type 0
  ReadsEvent at r =
      (optional J (read_header J) (at "header") ≡ some r.header)
      × (and_then (at "id") (as_str J) ≡ some r.id)
      × (and_then (at "type") (as_str J) ≡ some r.event_type)
      × (and_then (at "timestamp") (value_i64 J) ≡ some r.timestamp)
      × (at "data" ≡ some r.body)

  -- The event that `event` makes of the one it reads.
  abbrev pub with_body : CustomEvent J → CustomEvent J
  with_body raw = record raw { body = decode_body J raw.body }

module _ (J : Json) (L : IsLawful J) where
  open J use {Value, Map, get}

  -- What the entries of an object must be for the event `e` to be made of them.
  abbrev pub Announces : Map → CustomEvent J → Type 0
  Announces m e =
      (raw : CustomEvent J) × ReadsEvent J (normalized_entry J m) raw
      × (is_empty raw.id ≡ false)
      × (is_empty raw.event_type ≡ false)
      × (with_body J raw ≡ e)
