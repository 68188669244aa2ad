-- ===== src/Probe/Setup.antt =====
-- `run` of examples/group_acceptance.rs and of examples/cluster_acceptance.rs: the clients are made and
-- connected, and then controlled. What `connect` comes to is an input for each user.
pub mod Opening
pub mod Prepared
use Prim.Native.String.{◌++◌ as ◌<>◌}
use wu_kong_easy_sdk_rust.Base.{
  ℕ, zero, suc, String, Bool, not, Option, none, some, List, [], ◌∷◌, length, ◌==◌, get_elem?,
  unwrap_or,
}
use wu_kong_easy_sdk_rust.Json.{Json}
use wu_kong_easy_sdk_rust.Types.Failure.{Error, Result, ok, err, ◌>>=◌}
use wu_kong_easy_sdk_rust.Types.Options.{Options, default_options, from_secs}
use wu_kong_easy_sdk_rust.Types.Device.{Auth, new_auth}
use wu_kong_easy_sdk_rust.Types.Messages.{ConnectResult}
use wu_kong_easy_sdk_rust.Client.Create.{Uri, Settings, new}
use wu_kong_easy_sdk_rust.Probe.{Fault, said, raised, Verdict, pass, failed, fail_if}
use wu_kong_easy_sdk_rust.Probe.Control.{users, Line, require, control_group, control_cluster}

unfoldable pub group_options : List ℕ → Options
unfolding default_options
group_options certificate = record default_options {
  additional_root_certificates = certificate ∷ [];
  ping_interval = 250_000_000;
  pong_timeout = from_secs 2;
  reconnect_delay = 100_000_000;
  max_reconnect_delay = 500_000_000;
  max_reconnect_attempts = 20;
}

unfoldable pub cluster_options : List ℕ → Options
unfolding default_options
cluster_options certificate = record default_options {
  additional_root_certificates = certificate ∷ [];
  ping_interval = from_secs 25;
  request_timeout = from_secs 3;
  connect_timeout = from_secs 2;
  pong_timeout = from_secs 10;
  reconnect_delay = 100_000_000;
  max_reconnect_delay = 500_000_000;
  max_reconnect_attempts = 100;
}

abbrev pub probe_auth : (uid generated_id : String) → Auth
probe_auth uid generated_id = new_auth uid (uid <> "-synthetic-token") generated_id

module _ (parse_uri : String → Option Uri) (tls_config : Options → Result (Unit {0})) where
  -- The clients of users from an index on, each with its URL and its generated device ID.
  unfoldable pub make_clients :
      Options → (url device : ℕ → String) → ℕ → List String → Result (List Settings)
  make_clients o url device index [] = ok []
  make_clients o url device index (uid ∷ uids) = do
    client ← new parse_uri tls_config (url index) (probe_auth uid (device index)) o
    clients ← make_clients o url device (suc index) uids
    ok (client ∷ clients)
