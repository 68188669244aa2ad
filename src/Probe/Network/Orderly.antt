-- ===== src/Probe/Network/Orderly.antt =====
-- What a run of `control` of examples/network_acceptance.rs that passes has seen.
use wu_kong_easy_sdk_rust.Base.{◌≡◌, refl, String, Bool, none, some, List, [], ◌∷◌}
use wu_kong_easy_sdk_rust.Json.{Json}
use wu_kong_easy_sdk_rust.Probe.{pass}
use wu_kong_easy_sdk_rust.Probe.Control.{Next, goes_on, stops, read_line, control}
use wu_kong_easy_sdk_rust.Probe.Control.Loop.{control-next}
use wu_kong_easy_sdk_rust.Probe.Network.Control.{Owned, Doing, handle_network, control_network}
use wu_kong_easy_sdk_rust.Probe.Network.Moves.{Moves, Moves-handle_network}

module _ (J : Json) (same : J.Value → J.Value → Bool) where
  -- Each line up to a "stop" was read and moved the pair.
  pub data Orderly : Owned → List (Doing J same) → Type 0 where
    finished :
        (pair : Owned) (d : Doing J same) (ds : List (Doing J same)) (command : J.Value)
        (op : String)
        → read_line J d.text ≡ pass (command, op)
        → Moves J same d command op pair stops
        → Orderly pair (d ∷ ds)
    moved :
        (pair pair' : Owned) (d : Doing J same) (ds : List (Doing J same)) (command : J.Value)
        (op : String)
        → read_line J d.text ≡ pass (command, op)
        → Moves J same d command op pair (goes_on pair')
        → Orderly pair' ds
        → Orderly pair (d ∷ ds)

  Orderly-next :
      (pair : Owned) (d : Doing J same) (ds : List (Doing J same)) (command : J.Value) (op : String)
      (next : Next Owned)
      → read_line J d.text ≡ pass (command, op)
      → Moves J same d command op pair next
      → ((pair' : Owned) → next ≡ goes_on pair' → Orderly pair' ds)
      → Orderly pair (d ∷ ds)
  Orderly-next pair d ds command op stops read m later = finished pair d ds command op read m
  Orderly-next pair d ds command op (goes_on pair') read m later =
      moved pair pair' d ds command op read m (later pair' refl)

  Orderly-from :
      (pair : Owned) (ds : List (Doing J same))
      → control J Doing.text (handle_network J same) pair ds ≡ some (pass tt)
      → Orderly pair ds
  unfolding control
  Orderly-from pair [] h = absurd (cc)
  Orderly-from pair (d ∷ ds) h =
      let (command, op, next, read, handled, later) =
        control-next J Doing.text (handle_network J same) pair d ds h in
      Orderly-next pair d ds command op next read
        (Moves-handle_network J same pair command op d next handled)
        (λ pair' e. Orderly-from pair' ds (later pair' e))

  -- A run of the network probe passes only if its lines up to a "stop" took turns as they should: a pair of
  -- clients was made, and both connected, only where there was none, and each pair was destroyed, after
  -- which both clients refused to connect, before the next one or the "stop"; and each phase saw what it
  -- asks for: in an exchange both SENDACKs identify the message that the other user got; while SENDACKs
  -- are blocked two messages arrive, both sends time out and a third is refused for backpressure; in the
  -- lag phase 48 messages arrive and a slow observer reports at least 32 as missed; and no message
  -- arrives in a quiet window, or before a connection is lost or made again. The counter of deliveries
  -- goes up by 2, 2 and 48.
  pub control_network-Orderly :
      (ds : List (Doing J same)) → control_network J same ds ≡ some (pass tt) → Orderly none ds
  control_network-Orderly ds h = Orderly-from none ds h
