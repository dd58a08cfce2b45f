-- ===== src/Config/Load/Accepted.antt =====
-- What config.Load accepts, described apart from its code.
use releasepanel_agent.Base.{
  ◌≡◌, ◌≢◌, ◌↔◌, ◌⊎◌, inl, inr, refl, arith, true, false, Option, none, some, List, [], ◌∷◌, ◌==◌,
  is_empty, Bool-cases,
}
use releasepanel_agent.Text.{Text, codes, trim_space, trim_right, Unicode}
use releasepanel_agent.FilePath.{is_abs}
use releasepanel_agent.System.{Result, ok, err}
use releasepanel_agent.GitDeploy.PathValidate.Allowed.{IsProper, IsProper-of, proper_step}
use releasepanel_agent.Config.Origin.{Url, IsOrigin, validate_http_origin, validate_http_origin_iff}
use releasepanel_agent.Config.Probes.{Spec, compile_runtime_dependency_probes, guarded}
use releasepanel_agent.Config.Probes.Valid.{guarded_lem}
use releasepanel_agent.Config.Settings.{Config}
use releasepanel_agent.Config.Load.{
  Source, prefixed_error, check_central, check_ping_roots, is_root, differs, check_sites_roots,
  config_path, with_dirs, with_specs, checked, decoded, on_content, load,
}

-- The roots of the sites: none, or two proper ones.
abbrev pub AreSitesRoots : Text → Text → Type 0
AreSitesRoots ar er = ((ar ≡ []) × (er ≡ [])) ⊎ (IsProper ar × IsProper er)

pub record IsAcceptable ⦃u : Unicode⦄ (parse : Text → Result Url) (raw : Config) : Type 0 where
  pub has_central : raw.central_base_url ≢ []
  pub central_origin :
      (url : Url) × (parse (trim_right (λ c. c == b'/') (trim_space raw.central_base_url)) ≡ ok url)
      × IsOrigin url
  pub ping_roots :
      (trim_space raw.agent_ping_token_file ≡ []) ⊎ (raw.runtime_deploy_path_roots ≢ [])
  pub sites_roots :
      AreSitesRoots
        (trim_space raw.nginx_sites_available_root)
        (trim_space raw.nginx_sites_enabled_root)

-- A configuration that comes from a file: what the file holds, with the two directories and the
-- compiled probes filled in.
pub record Loads ⦃u : Unicode⦄ (src : Source) (path : Text) (cfg : Config) : Type 0 where
  pub text : Text
  pub raw : Config
  pub specs : List Spec
  pub was_read : src.read_file (config_path src path) ≡ ok text
  pub was_decoded : src.unmarshal text ≡ ok raw
  pub acceptable : IsAcceptable src.parse_url raw
  pub compiled :
      compile_runtime_dependency_probes src.split_host_port raw.runtime_dependency_probes ≡ ok specs
  pub filled_in : cfg ≡ record (with_dirs src raw) { probe_specs = specs }

prefixed_error_lem :
    (message : Text) (e : Option Text) → (prefixed_error message e ≡ none) ↔ (e ≡ none)
unfolding prefixed_error
prefixed_error_lem message none = (λ h. refl, λ h. refl)
prefixed_error_lem message (some e) = (λ h. ground arith, λ h. ground arith)

check_central_iff :
    ⦃u : Unicode⦄ (parse : Text → Result Url) (url : Text)
    → (check_central parse url ≡ none) ↔ ((url ≢ []) × (validate_http_origin parse url ≡ none))
unfolding check_central
check_central_iff parse [] = (λ h. ground arith, λ h. absurd (h.0 refl))
check_central_iff parse (c ∷ s) =
    let e = prefixed_error_lem (codes "central_base_url: ") (validate_http_origin parse (c ∷ s)) in
    (λ h. (λ n. ground arith, e.0 h), λ h. e.1 h.1)

check_ping_roots_iff :
    (token_file : Text) (roots : List Text)
    → (check_ping_roots token_file roots ≡ none) ↔ ((trim_space token_file ≡ []) ⊎ (roots ≢ []))
unfolding check_ping_roots
check_ping_roots_iff token_file roots = (λ h. ground arith, λ h. ground arith)

proper_test :
    (p : Text) → IsProper p → (is_empty p ≡ false) × (is_abs p ≡ true) × (is_root p ≡ false)
unfolding is_root
proper_test p h = let (a, b, c, d) = proper_step h in (a, b, c)

test-IsProper : (p : Text) → is_abs p ≡ true → is_root p ≡ false → IsProper p
unfolding is_root
test-IsProper p a b = IsProper-of p a b

check_sites_roots_iff : (ar er : Text) → (check_sites_roots ar er ≡ none) ↔ AreSitesRoots ar er
unfolding check_sites_roots differs is_root
check_sites_roots_iff ar er = (there, back)
  where
    there : check_sites_roots ar er ≡ none → AreSitesRoots ar er
    there h = elim (Bool-cases (is_empty ar)) [
      | inl e ↦ inl (ground arith, ground arith)
      | inr e ↦ inr (
        test-IsProper ar (ground arith) (ground arith),
        test-IsProper er (ground arith) (ground arith),
      )
    ]

    back : AreSitesRoots ar er → check_sites_roots ar er ≡ none
    back (inl e) = ground arith
    back (inr (a, b)) = ground (arith, proper_test ar a, proper_test er b)

module _ ⦃u : Unicode⦄ (src : Source) where
  IsAcceptable-checks :
      (raw : Config)
      → (check_central src.parse_url raw.central_base_url ≡ none)
      → (check_ping_roots raw.agent_ping_token_file raw.runtime_deploy_path_roots ≡ none)
      → (check_sites_roots
            (trim_space raw.nginx_sites_available_root)
            (trim_space raw.nginx_sites_enabled_root)
          ≡ none)
      → IsAcceptable src.parse_url raw
  IsAcceptable-checks raw a b c =
      let (given, valid) = (check_central_iff src.parse_url raw.central_base_url).0 a in
      record {
        has_central = given;
        central_origin = (validate_http_origin_iff src.parse_url raw.central_base_url).0 valid;
        ping_roots =
            (check_ping_roots_iff raw.agent_ping_token_file raw.runtime_deploy_path_roots).0 b;
        sites_roots = (check_sites_roots_iff _ _).0 c;
      }

  with_specs_lem :
      (raw : Config) (r : Result (List Spec)) {cfg : Config}
      → with_specs src raw r ≡ ok cfg
      → (specs : List Spec) × (r ≡ ok specs)
        × (cfg ≡ record (with_dirs src raw) { probe_specs = specs })
  unfolding with_specs
  with_specs_lem raw (err e) h = ground arith
  with_specs_lem raw (ok specs) h = (specs, refl, ground arith)

  checked-IsAcceptable :
      (raw : Config) {cfg : Config}
      → checked src raw ≡ ok cfg
      → IsAcceptable src.parse_url raw
        × ((specs : List Spec) × (compile_runtime_dependency_probes src.split_host_port
                raw.runtime_dependency_probes
              ≡ ok specs)
            × (cfg ≡ record (with_dirs src raw) { probe_specs = specs }))
  unfolding checked
  checked-IsAcceptable raw h =
      let (a, h1) = guarded_lem (check_central src.parse_url raw.central_base_url) _ h in
      let (b, h2) =
        guarded_lem (check_ping_roots raw.agent_ping_token_file raw.runtime_deploy_path_roots) _
          h1 in
      let (c, h3) =
        guarded_lem
          (check_sites_roots (trim_space raw.nginx_sites_available_root)
            (trim_space raw.nginx_sites_enabled_root))
          _ h2 in
      (IsAcceptable-checks raw a b c, with_specs_lem raw _ h3)

  IsAcceptable-checked :
      (raw : Config) (specs : List Spec)
      → IsAcceptable src.parse_url raw
      → compile_runtime_dependency_probes src.split_host_port raw.runtime_dependency_probes
        ≡ ok specs
      → checked src raw ≡ ok (record (with_dirs src raw) { probe_specs = specs })
  unfolding checked guarded with_specs
  IsAcceptable-checked raw specs a c =
      rw
        (
          (check_central_iff src.parse_url raw.central_base_url).1 (
            a.has_central,
            (validate_http_origin_iff src.parse_url raw.central_base_url).1 a.central_origin,
          ),
          (check_ping_roots_iff raw.agent_ping_token_file raw.runtime_deploy_path_roots).1
              a.ping_roots,
          (check_sites_roots_iff _ _).1 a.sites_roots,
          c,
        )
        refl

  loaded :
      (path : Text) (r : Result Text) {cfg : Config}
      → src.read_file (config_path src path) ≡ r
      → on_content src (config_path src path) r ≡ ok cfg
      → Loads src path cfg
  unfolding on_content decoded
  loaded path (err e) q h = ground arith
  loaded path (ok text) {cfg} q h = from (src.unmarshal text) refl h
    where
      from :
          (d : Result Config) → src.unmarshal text ≡ d → decoded src d ≡ ok cfg → Loads src path cfg
      from (err e) k d = ground arith
      from (ok raw) k d =
          let (a, rest) = checked-IsAcceptable raw d in
          let (specs, c, e) = rest in
          record {
            text = text;
            raw = raw;
            specs = specs;
            was_read = q;
            was_decoded = k;
            acceptable = a;
            compiled = c;
            filled_in = e;
          }

  -- `Load` returns a configuration exactly when the file can be read and decoded, Central's address
  -- is an origin, there are deploy roots where there is a ping token, the two roots of the sites are
  -- both blank or both absolute and not `/`, and the probes compile; it is then what the file
  -- holds, but for the default directories and the compiled probes.
  pub load_iff : (path : Text) (cfg : Config) → (load src path ≡ ok cfg) ↔ Loads src path cfg
  unfolding load on_content decoded
  load_iff path cfg = (
    λ h. loaded path (src.read_file (config_path src path)) refl h,
    λ l.
        rw (l.was_read, l.was_decoded, l.filled_in)
          (IsAcceptable-checked l.raw l.specs l.acceptable l.compiled),
  )
