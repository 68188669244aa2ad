-- ===== src/Probe/Chat/Private.antt =====
-- What examples/chat.rs prints does not depend on what is said.
use wu_kong_easy_sdk_rust.Base.{
  ◌≡◌, refl, String, none, some, List, [], ◌∷◌, map, str_eq, if◌then◌else◌, ap, arith, Bool-cases,
  inl, inr,
}
use wu_kong_easy_sdk_rust.Json.{Json, Shape}
use wu_kong_easy_sdk_rust.Types.Messages.{Event}
use wu_kong_easy_sdk_rust.Probe.{lagged, pass, failed}
use wu_kong_easy_sdk_rust.Probe.Chat.{Choice, typed, heard, interrupted, outcome_line, chat}

module _ (J : Json) where
  -- The line without its words, but for the one that quits.
  abbrev pub blank_line : String → String
  blank_line line = if str_eq line "/quit" then "/quit" else ""

  abbrev pub redact : Choice J → Choice J
  redact (typed (pass (some line)) outcome) = typed (pass (some (blank_line line))) outcome
  redact (heard (pass (Event.message m))) =
      heard (pass (Event.message (record m { payload = J.into Shape.null })))
  redact c = c

  -- The chat prints the same, and ends alike, if every line that is typed, but for the one that quits, and
  -- the payload of every message that is received are blanked, and the sends come to the same: no message
  -- body is printed.
  pub chat-redact :
      (cs : List (Choice J))
      → ((chat J (map redact cs)).printed ≡ (chat J cs).printed)
        × ((chat J (map redact cs)).result ≡ (chat J cs).result)
  unfolding chat
  chat-redact [] = (refl, refl)
  chat-redact (typed (failed f) outcome ∷ cs) = (refl, refl)
  chat-redact (typed (pass none) outcome ∷ cs) = (refl, refl)
  chat-redact (typed (pass (some line)) outcome ∷ cs) = elim (Bool-cases (str_eq line "/quit")) [
    | inl e ↦ rw e (refl, refl)
    | inr e ↦ rw e (ap (λ ps. outcome_line J outcome ∷ ps) (chat-redact cs).0, (chat-redact cs).1)
  ]
  chat-redact (heard (pass e) ∷ cs) = ground (arith, (chat-redact cs).0, (chat-redact cs).1)
  chat-redact (heard (failed (lagged n)) ∷ cs) = (refl, refl)
  chat-redact (heard (failed f) ∷ cs) = (refl, refl)
  chat-redact (interrupted ∷ cs) = (refl, refl)
