-- ===== src/Probe/Setup/Prepared.antt =====
-- What a group or a cluster probe that passes was prepared with.
use wu_kong_easy_sdk_rust.Base.{
  ℕ, suc, ◌≡◌, ◌↔◌, refl, String, Bool, true, false, not, Option, some, List, [], ◌∷◌, arith,
  length, ◌==◌, sym,
}
use wu_kong_easy_sdk_rust.Json.{Json}
use wu_kong_easy_sdk_rust.Types.Failure.{Result, ok, bind-ok_iff}
use wu_kong_easy_sdk_rust.Types.Options.{Options}
use wu_kong_easy_sdk_rust.Types.Options.Validity.{IsCertificate, IsValid}
use wu_kong_easy_sdk_rust.Types.Messages.{ConnectResult}
use wu_kong_easy_sdk_rust.Client.Create.{Uri, Settings, IsUsable, IsIdentity, new, new-ok_iff}
use wu_kong_easy_sdk_rust.Probe.{Verdict, pass, failed, ◌>>=◌, fail_if}
use wu_kong_easy_sdk_rust.Probe.Observe.Exact.{bind-pass, pass-injective}
use wu_kong_easy_sdk_rust.Probe.Network.{raise}
use wu_kong_easy_sdk_rust.Probe.Network.Exchange.{raise-pass}
use wu_kong_easy_sdk_rust.Probe.Control.{users, Line}
use wu_kong_easy_sdk_rust.Probe.Control.Faithful.{Faithful, control-Faithful}
use wu_kong_easy_sdk_rust.Probe.Setup.{group_options, cluster_options, probe_auth, make_clients}
use wu_kong_easy_sdk_rust.Probe.Setup.Opening.{
  listed_urls, endpoints, node_of, url_of, followed, connect_each, open_clients, run_group,
  run_cluster,
}

group_options-IsValid_iff :
    (certificate : List ℕ) → IsValid (group_options certificate) ↔ IsCertificate certificate
unfolding group_options
group_options-IsValid_iff certificate = (
  λ v. v.certificates.0,
  λ c. record { limits = omega arith; count = omega arith; certificates = (c, tt) },
)

cluster_options-IsValid_iff :
    (certificate : List ℕ) → IsValid (cluster_options certificate) ↔ IsCertificate certificate
unfolding cluster_options
cluster_options-IsValid_iff certificate = (
  λ v. v.certificates.0,
  λ c. record { limits = omega arith; count = omega arith; certificates = (c, tt) },
)

-- It holds of each user from an index on.
abbrev pub AtEach : (ℕ → String → Type 0) → ℕ → List String → Type 0
AtEach p index [] = Unit {0}
AtEach p index (uid ∷ uids) = p index uid × AtEach p (suc index) uids

-- The user is connected.
abbrev pub IsLinked : (ℕ → Result ConnectResult) → ℕ → String → Type 0
IsLinked connects index uid = (c : ConnectResult) × (connects index ≡ ok c)

followed-pass {ℓ κ} :
    {A : Type ℓ} {B : Type κ} (v : Verdict A) (next : A → Option (Verdict B)) (b : B)
    → followed v next ≡ some (pass b)
    → (a : A) × (v ≡ pass a) × (next a ≡ some (pass b))
unfolding followed
followed-pass (pass a) next b h = (a, refl, h)
followed-pass (failed f) next b h = absurd (cc)

module _ (J : Json) (same : J.Value → J.Value → Bool) where
  connect_each-pass :
      (connects : ℕ → Result ConnectResult) (index : ℕ) (uids : List String) (nodes : List ℕ)
      → connect_each J same connects index uids ≡ pass nodes
      → AtEach (IsLinked connects) index uids
  unfolding connect_each
  connect_each-pass connects index [] nodes h = tt
  connect_each-pass connects index (uid ∷ uids) nodes h =
      let (c, linked, h1) = bind-pass (raise J same (connects index)) _ nodes h in
      let (rest, more, last) =
        bind-pass (connect_each J same connects (suc index) uids) (λ ns. pass (c.node_id ∷ ns))
          nodes h1 in
      (
        (c, raise-pass J same (connects index) c linked),
        connect_each-pass connects (suc index) uids rest more,
      )

  module _ (parse_uri : String → Option Uri) (tls_config : Options → Result (Unit {0})) where
    -- The client of the user can be made.
    abbrev pub IsMade : Options → (url device : ℕ → String) → ℕ → String → Type 0
    IsMade o url device index uid =
        IsValid o
        × IsUsable parse_uri tls_config (url index)
        × IsIdentity parse_uri tls_config (probe_auth uid (device index))
        × (tls_config o ≡ ok tt)

    make_clients-ok :
        (o : Options) (url device : ℕ → String) (index : ℕ) (uids : List String)
        (clients : List Settings)
        → make_clients parse_uri tls_config o url device index uids ≡ ok clients
        → AtEach (IsMade o url device) index uids
    unfolding make_clients
    make_clients-ok o url device index [] clients h = tt
    make_clients-ok o url device index (uid ∷ uids) clients h =
        let auth = probe_auth uid (device index) in
        let (client, made, h1) =
          (bind-ok_iff (new parse_uri tls_config (url index) auth o) _ clients).0 h in
        let (rest, more, last) =
          (bind-ok_iff (make_clients parse_uri tls_config o url device (suc index) uids)
              (λ cs. ok (client ∷ cs)) clients).0
            h1 in
        let (valid, usable, named, tls, kept) =
          (new-ok_iff parse_uri tls_config (url index) auth o client).0 made in
        ((valid, usable, named, tls), make_clients-ok o url device (suc index) uids rest more)

    -- Each user has a client and is connected.
    pub record Prepared (o : Options) (url device : ℕ → String)
        (connects : ℕ → Result ConnectResult) : Type 0 where
      pub made : AtEach (IsMade o url device) 0 users
      pub linked : AtEach (IsLinked connects) 0 users

    open_clients-Prepared :
        (o : Options) (url device : ℕ → String) (connects : ℕ → Result ConnectResult)
        (nodes : List ℕ)
        → open_clients J same parse_uri tls_config o url device connects ≡ pass nodes
        → Prepared o url device connects × (connect_each J same connects 0 users ≡ pass nodes)
    unfolding open_clients
    open_clients-Prepared o url device connects nodes h =
        let clients_made = make_clients parse_uri tls_config o url device 0 users in
        let (clients, made, linked) = bind-pass (raise J same clients_made) _ nodes h in
        (
          record {
            made =
                make_clients-ok o url device 0 users clients
                  (raise-pass J same clients_made clients made);
            linked = connect_each-pass connects 0 users nodes linked;
          },
          linked,
        )

    -- A run of the group probe passes only if the certificate has from 1 to 65536 bytes, a client could be
    -- made for each user, all of them were connected, and the commands were carried out faithfully.
    pub run_group-Prepared :
        (certificate : List ℕ) (url : String) (device : ℕ → String)
        (connects : ℕ → Result ConnectResult) (ls : List (Line J))
        → run_group J same parse_uri tls_config certificate url device connects ls ≡ some (pass tt)
        → IsCertificate certificate
          × Prepared (group_options certificate) (λ i. url) device connects
          × Faithful J same false (λ k. 0) [] ls
    unfolding run_group
    run_group-Prepared certificate url device connects ls h =
        let o = group_options certificate in
        let (nodes, opened, controlled) =
          followed-pass (open_clients J same parse_uri tls_config o (λ i. url) device connects) _ tt
            h in
        let (prepared, linked) = open_clients-Prepared o (λ i. url) device connects nodes opened in
        (
          (group_options-IsValid_iff certificate).0 prepared.made.0.0,
          prepared,
          control-Faithful J same false (λ k. 0) ls controlled,
        )

    endpoints-pass :
        (read_urls : String → Option (List String)) (url : String) (listed : Option String)
        (urls : List String)
        → endpoints read_urls url listed ≡ pass urls
        → (listed_urls read_urls url listed ≡ pass urls) × (length urls ≡ 4)
    unfolding endpoints
    endpoints-pass read_urls url listed urls h =
        let (all, found, h1) = bind-pass (listed_urls read_urls url listed) _ urls h in
        let (u, four, last) =
          bind-pass (fail_if (not (length all == 4)) "expected four endpoint URLs")
            (λ four. pass all) urls h1 in
        rw (sym (pass-injective all urls last)) (found, ground (arith, four))

    -- A run of the cluster probe passes only if the certificate has from 1 to 65536 bytes, the URLs that are
    -- listed, or else the one four times, are four, a client could be made for each user with its URL, all of
    -- them were connected, and the commands were carried out faithfully with the nodes of these connections.
    pub run_cluster-Prepared :
        (read_urls : String → Option (List String)) (certificate : List ℕ) (url : String)
        (listed : Option String) (device : ℕ → String) (connects : ℕ → Result ConnectResult)
        (ls : List (Line J))
        → run_cluster J same parse_uri tls_config read_urls certificate url listed device connects
            ls
          ≡ some (pass tt)
        → (urls : List String) × (nodes : List ℕ) × (listed_urls read_urls url listed ≡ pass urls)
          × (length urls ≡ 4)
          × (connect_each J same connects 0 users ≡ pass nodes)
          × IsCertificate certificate
          × Prepared (cluster_options certificate) (url_of urls) device connects
          × Faithful J same true (node_of nodes) [] ls
    unfolding run_cluster
    run_cluster-Prepared read_urls certificate url listed device connects ls h =
        let o = cluster_options certificate in
        let (nodes, went, controlled) =
          followed-pass
            (endpoints read_urls url listed >>= λ urls.
              open_clients J same parse_uri tls_config o (url_of urls) device connects)
            _ tt h in
        let (urls, found, opened) = bind-pass (endpoints read_urls url listed) _ nodes went in
        let (all, four) = endpoints-pass read_urls url listed urls found in
        let (prepared, linked) =
          open_clients-Prepared o (url_of urls) device connects nodes opened in
        (
          urls,
          nodes,
          all,
          four,
          linked,
          (cluster_options-IsValid_iff certificate).0 prepared.made.0.0,
          prepared,
          control-Faithful J same true (node_of nodes) ls controlled,
        )
