-- ===== src/Client/Tls.antt =====
-- `tls_config` of src/client.rs. The stores and configurations of rustls are parameters.
use wu_kong_easy_sdk_rust.Base.{ℕ, ◌≡◌, ◌↔◌, Option, some, List, [], ◌∷◌, arith, ap}
use wu_kong_easy_sdk_rust.Types.Failure.{
  Result, ok, invalid_input, ok_or, ◌>>=◌, bind-ok_iff, ok_or_iff,
}
use wu_kong_easy_sdk_rust.Types.Options.{Options}

-- `trusted` are the WebPKI roots, `add` is `RootCertStore::add`, `builder` is that of a
-- configuration with the safe default versions, if there is one, and `finish` gives it the roots.
module _ {Roots Builder Config : Type 0} (trusted : Roots) (add : Roots → List ℕ → Option Roots)
    (builder : Option Builder) (finish : Builder → Roots → Config) where
  unfoldable pub add_roots : Roots → List (List ℕ) → Result Roots
  add_roots roots [] = ok roots
  add_roots roots (certificate ∷ rest) =
      ok_or (add roots certificate) (invalid_input "invalid DER root certificate") >>= λ more.
      add_roots more rest

  unfoldable pub tls_config : Options → Result Config
  unfolding add_roots
  tls_config o = do
    roots ← add_roots trusted o.additional_root_certificates
    config ← ok_or builder (invalid_input "unsupported TLS configuration")
    ok (finish config roots)

  -- Every certificate is added in turn, from one store to another.
  abbrev pub Adds : Roots → List (List ℕ) → Roots → Type 0
  Adds roots [] last = roots ≡ last
  Adds roots (certificate ∷ rest) last =
      (more : Roots) × (add roots certificate ≡ some more) × Adds more rest last

  add_roots-ok_iff :
      (roots : Roots) (cs : List (List ℕ)) (last : Roots)
      → (add_roots roots cs ≡ ok last) ↔ Adds roots cs last
  unfolding add_roots
  add_roots-ok_iff roots [] last = ground arith
  add_roots-ok_iff roots (c ∷ cs) last = (
    λ h.
        let (more, added, rest) =
          (bind-ok_iff (ok_or (add roots c) _) (λ more. add_roots more cs) last).0 h in
        (more, (ok_or_iff (add roots c) _ more).0 added, (add_roots-ok_iff more cs last).0 rest),
    λ (more, added, rest).
        (bind-ok_iff (ok_or (add roots c) _) (λ more. add_roots more cs) last).1
          (more, (ok_or_iff (add roots c) _ more).1 added, (add_roots-ok_iff more cs last).1 rest),
  )

  -- A configuration is made exactly if every additional certificate can be added to the trusted
  -- roots, in order, and there is a builder with the safe default versions, which is given the store that
  -- results.
  pub tls_config-ok_iff :
      (o : Options) (config : Config)
      → (tls_config o ≡ ok config) ↔ (
          (last : Roots) × Adds trusted o.additional_root_certificates last
          × ((b : Builder) × (builder ≡ some b) × (finish b last ≡ config)))
  unfolding tls_config
  tls_config-ok_iff o config =
      let chain = bind-ok_iff (add_roots trusted o.additional_root_certificates) _ config in
      let error = invalid_input "unsupported TLS configuration" in
      (
        λ h.
            let (last, added, h1) = chain.0 h in
            let (b, found, made) =
              (bind-ok_iff (ok_or builder error) (λ b. ok (finish b last)) config).0 h1 in
            (
              last,
              (add_roots-ok_iff trusted _ last).0 added,
              (b, (ok_or_iff builder error b).0 found, ground (arith, made)),
            ),
        λ (last, added, (b, found, made)). chain.1 (
          last,
          (add_roots-ok_iff trusted _ last).1 added,
          (bind-ok_iff (ok_or builder error) (λ b. ok (finish b last)) config).1
              (b, (ok_or_iff builder error b).1 found, ap ok made),
        ),
      )
