-- ===== src/Probe/Setup/Opening.antt =====
-- `run` of the group and the cluster probe, from the environment to the end of `control`. The clients are
-- destroyed whatever it comes to.
use wu_kong_easy_sdk_rust.Base.{
  ℕ, suc, String, Bool, not, Option, none, some, List, [], ◌∷◌, length, ◌==◌, get_elem?, unwrap_or,
}
use wu_kong_easy_sdk_rust.Json.{Json}
use wu_kong_easy_sdk_rust.Types.Failure.{Result}
use wu_kong_easy_sdk_rust.Types.Options.{Options}
use wu_kong_easy_sdk_rust.Types.Messages.{ConnectResult}
use wu_kong_easy_sdk_rust.Client.Create.{Uri}
use wu_kong_easy_sdk_rust.Probe.{Verdict, pass, failed, ◌>>=◌, fail_if}
use wu_kong_easy_sdk_rust.Probe.Control.{users, Line, require, control_group, control_cluster}
use wu_kong_easy_sdk_rust.Probe.Network.{raise}
use wu_kong_easy_sdk_rust.Probe.Setup.{group_options, cluster_options, make_clients}

-- The URLs of `WK_WS_URLS`, if it is set, or four times that of `WK_WS_URL`.
unfoldable pub listed_urls :
    (read_urls : String → Option (List String)) (url : String)
    → Option String
    → Verdict (List String)
listed_urls read_urls url none = pass (url ∷ url ∷ url ∷ url ∷ [])
listed_urls read_urls url (some text) = require (read_urls text) "WK_WS_URLS"

-- There must be four.
unfoldable pub endpoints :
    (read_urls : String → Option (List String)) (url : String)
    → Option String
    → Verdict (List String)
endpoints read_urls url listed = listed_urls read_urls url listed >>= λ urls.
    fail_if (not (length urls == 4)) "expected four endpoint URLs" >>= λ four. pass urls

-- `nodes[index]`, `urls[index]`: there are as many as users, so that no index is out of range.
abbrev pub node_of : List ℕ → ℕ → ℕ
node_of nodes index = unwrap_or (get_elem? nodes index) 0

abbrev pub url_of : List String → ℕ → String
url_of urls index = unwrap_or (get_elem? urls index) ""

-- What is done after a step that may fail.
unfoldable pub followed {ℓ κ} :
    {A : Type ℓ} {B : Type κ} → Verdict A → (A → Option (Verdict B)) → Option (Verdict B)
followed (failed f) next = some (failed f)
followed (pass a) next = next a

module _ (J : Json) (same : J.Value → J.Value → Bool) where
  -- The nodes that the users from an index on are connected to, up to the first failure.
  unfoldable pub connect_each : (ℕ → Result ConnectResult) → ℕ → List String → Verdict (List ℕ)
  connect_each connects index [] = pass []
  connect_each connects index (uid ∷ uids) = raise J same (connects index) >>= λ c.
      connect_each connects (suc index) uids >>= λ nodes. pass (c.node_id ∷ nodes)

  module _ (parse_uri : String → Option Uri) (tls_config : Options → Result (Unit {0})) where
    -- The clients are made with the options and connected.
    unfoldable pub open_clients :
        Options → (url device : ℕ → String) → (ℕ → Result ConnectResult) → Verdict (List ℕ)
    open_clients o url device connects =
        raise J same (make_clients parse_uri tls_config o url device 0 users) >>= λ clients.
        connect_each connects 0 users

    unfoldable pub run_group :
        (certificate : List ℕ) (url : String) (device : ℕ → String)
        → (ℕ → Result ConnectResult)
        → List (Line J)
        → Option (Verdict (Unit {0}))
    run_group certificate url device connects ls =
        followed (open_clients (group_options certificate) (λ i. url) device connects)
          (λ nodes. control_group J same ls)

    unfoldable pub run_cluster :
        (read_urls : String → Option (List String)) (certificate : List ℕ) (url : String)
        → (listed : Option String) (device : ℕ → String) → (ℕ → Result ConnectResult)
        → List (Line J)
        → Option (Verdict (Unit {0}))
    run_cluster read_urls certificate url listed device connects ls =
        followed
          (endpoints read_urls url listed >>= λ urls.
            open_clients (cluster_options certificate) (url_of urls) device connects)
          (λ nodes. control_cluster J same (node_of nodes) ls)
