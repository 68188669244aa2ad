-- ===== src/Client/Create.antt =====
-- `Client::new` of src/client.rs.
use mathlib.Core.Option.{some-injective}
use wu_kong_easy_sdk_rust.Base.{
  String, ◌≡◌, ◌↔◌, refl, Bool, true, false, not, ◌||◌, Option, none, some, is_some, arith, str_eq,
  eq_iff, ◌⊎◌,
}
use wu_kong_easy_sdk_rust.Types.Failure.{
  Error, Result, ok, err, invalid_input, reject_if, ok_or, ◌>>=◌, ◌>>◌,
}
use wu_kong_easy_sdk_rust.Types.Device.{Auth}
use wu_kong_easy_sdk_rust.Types.Text.{is_empty, trim, contains_char}
use wu_kong_easy_sdk_rust.Types.Text.Blank.{is_blank, is_empty-trim}
use wu_kong_easy_sdk_rust.Types.Options.{Options, validate}
use wu_kong_easy_sdk_rust.Types.Options.Validity.{IsValid, validate_iff}

-- The parts of an `http::Uri` that are looked at. The parser is outside the repository.
pub record Uri : Type 0 where
  pub scheme : Option String
  pub host : Option String
  pub authority : Option String

-- `matches!(uri.scheme_str(), Some("ws" | "wss"))`
abbrev pub is_websocket : Option String → Bool
is_websocket none = false
is_websocket (some s) = str_eq s "ws" || str_eq s "wss"

-- `authority.is_some_and(|a| a.contains('@'))`
abbrev pub has_userinfo : Option String → Bool
has_userinfo none = false
has_userinfo (some s) = contains_char 64 s

abbrev pub bad_uri : String → Uri → Bool
bad_uri url uri =
    not (is_websocket uri.scheme)
    || not (is_some uri.host)
    || has_userinfo uri.authority
    || contains_char 35 url

abbrev pub bad_auth : Auth → Bool
bad_auth auth = is_empty (trim auth.uid) || is_empty auth.token || is_empty (trim auth.device_id)

-- What a handle is made of and keeps unchanged.
pub record Settings : Type 0 where
  pub url : String
  pub auth : Auth
  pub options : Options

module _ (parse_uri : String → Option Uri) (tls_config : Options → Result (Unit {0})) where
  -- `Client::new`, up to the empty cells of the handle.
  unfoldable pub new : String → Auth → Options → Result Settings
  new url auth options = do
    validate options
    uri ← ok_or (parse_uri url) (invalid_input "invalid WebSocket URL")
    reject_if (bad_uri url uri)
        (invalid_input "expected ws:// or wss:// URL without userinfo or fragment")
    reject_if (bad_auth auth) (invalid_input "uid, token and device_id are required")
    tls_config options
    ok (record { url = url; auth = auth; options = options })

  pub record IsUsable (url : String) : Type 0 where
    pub uri : Uri
    pub parses : parse_uri url ≡ some uri
    pub websocket : (uri.scheme ≡ some "ws") ⊎ (uri.scheme ≡ some "wss")
    pub hosted : is_some uri.host ≡ true
    pub anonymous : has_userinfo uri.authority ≡ false
    pub whole : contains_char 35 url ≡ false

  pub record IsIdentity (auth : Auth) : Type 0 where
    pub uid : is_blank auth.uid ≡ false
    pub token : is_empty auth.token ≡ false
    pub device : is_blank auth.device_id ≡ false

  is_websocket_iff :
      (o : Option String) → (is_websocket o ≡ true) ↔ ((o ≡ some "ws") ⊎ (o ≡ some "wss"))
  is_websocket_iff none = ground arith
  is_websocket_iff (some s) = ground (arith, eq_iff s "ws", eq_iff s "wss")

  bad_auth_iff : (auth : Auth) → (bad_auth auth ≡ false) ↔ IsIdentity auth
  bad_auth_iff auth = (
    λ h. record {
      uid = ground (arith, is_empty-trim auth.uid);
      token = ground arith;
      device = ground (arith, is_empty-trim auth.device_id);
    },
    λ i.
        ground
          (arith, i.uid, i.token, i.device, is_empty-trim auth.uid, is_empty-trim auth.device_id),
  )

  bad_uri_iff :
      (url : String) (uri : Uri)
      → (bad_uri url uri ≡ false) ↔ (
          ((uri.scheme ≡ some "ws") ⊎ (uri.scheme ≡ some "wss"))
          × (is_some uri.host ≡ true)
          × (has_userinfo uri.authority ≡ false)
          × (contains_char 35 url ≡ false))
  bad_uri_iff url uri = ground (arith, is_websocket_iff uri.scheme)

  five_checks :
      {A : Type 0} {X : Type 0} (v : Result (Unit {0})) (u : Option A) (e : Error) (bad : A → Bool)
      (e' : Error) (b : Bool) (e'' : Error) (t : Result (Unit {0})) (x y : X)
      → ((v >> (ok_or u e >>= λ a. reject_if (bad a) e' >> (reject_if b e'' >> (t >> ok x))))
          ≡ ok y)
        ↔ ((v ≡ ok tt)
            × ((a : A) × (u ≡ some a) × (bad a ≡ false))
            × (b ≡ false)
            × (t ≡ ok tt)
            × (x ≡ y))
  five_checks (err i) u e bad e' b e'' t x y = (λ h. ground arith, λ k. ground arith)
  five_checks (ok tt) none e bad e' b e'' t x y =
      (λ h. ground arith, λ (_, (a, p, q), _, _, _). ground arith)
  five_checks (ok tt) (some a) e bad e' b e'' t x y = (
    λ h. (refl, (a, refl, ground arith), ground arith, ground arith, ground arith),
    λ (_, (a', p, q), r, k, l).
        let p' : a ≡ a' = some-injective a a' p in ground (arith, rw (← p') at q),
  )

  -- A client is made exactly of valid options, a URL that parses as a WebSocket URI with a host,
  -- without user information and fragment, and an identity with a user, a token and a device, if the
  -- TLS configuration can be made; and it keeps the three as they are.
  pub new-ok_iff :
      (url : String) (auth : Auth) (o : Options) (s : Settings)
      → (new url auth o ≡ ok s) ↔ (
          IsValid o
          × IsUsable url
          × IsIdentity auth
          × (tls_config o ≡ ok tt)
          × (record { url = url; auth = auth; options = o } ≡ s))
  unfolding new
  new-ok_iff url auth o s =
      let checks =
        five_checks (validate o) (parse_uri url) _ (bad_uri url) _ (bad_auth auth) _ (tls_config o)
          (record { url = url; auth = auth; options = o }) s in
      (
        λ h.
            let (valid, (uri, parses, good), named, tls, same) = checks.0 h in
            let (a, b, c, d) = (bad_uri_iff url uri).0 good in
            (
              (validate_iff o).0 valid,
              record {
                uri = uri;
                parses = parses;
                websocket = a;
                hosted = b;
                anonymous = c;
                whole = d;
              },
              (bad_auth_iff auth).0 named,
              tls,
              same,
            ),
        λ (valid, u, i, tls, same). checks.1 (
          (validate_iff o).1 valid,
          (
            u.uri,
            u.parses,
            (bad_uri_iff url u.uri).1 (u.websocket, u.hosted, u.anonymous, u.whole),
          ),
          (bad_auth_iff auth).1 i,
          tls,
          same,
        ),
      )
