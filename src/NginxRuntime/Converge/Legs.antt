-- ===== src/NginxRuntime/Converge/Legs.antt =====
-- What both legs share, as triples over the protocol.
use releasepanel_agent.Base.{◌≡◌, ◌⊎◌, inl, inr, refl, ◌||◌, Option, none, some, List, is_empty}
use releasepanel_agent.Text.{Text, trim_space, Unicode}
use releasepanel_agent.FilePath.{clean}
use releasepanel_agent.System.{Os, Sys, Event, Result, ok, err, report, mkdir_all}
use releasepanel_agent.System.Trace
use releasepanel_agent.System.Ensures.{
  Ensures, Ensures-pure, Ensures-bind, Ensures-if, Ensures-fact,
}
use releasepanel_agent.System.Files.{touch}
use releasepanel_agent.NginxRuntime.TlsIntent.{TlsMaterialization, tls_materialization_from_intent}
use releasepanel_agent.NginxRuntime.Rows.{Options}
use releasepanel_agent.NginxRuntime.Converge.{
  made, fail_with, check_pair, check_materialization, validate_tls_materialization,
  prepare_nginx_dirs, prepare, materialize,
}
use releasepanel_agent.NginxRuntime.Converge.Receipts.{
  At, End, Ensures-fail_with, Ensures-accept, Ensures-need, Ensures-accept-At, Ensures-need-At,
}
use releasepanel_agent.NginxRuntime.Converge.Writes.{Ensures-touched, Ensures-write_atomic_file}
use releasepanel_agent.NginxRuntime.Converge.Links.{Ensures-ensure_symlink, Ensures-run_argv, Runs}
use releasepanel_agent.NginxRuntime.Protocol.{
  rooting, prepared, ready, placed, linked, tested, rooted, passed, rejected, checked, rendered,
}

module _ ⦃u : Unicode⦄ (os : Os) (o : Options) (base : List Event) where
  -- `fail_with` where the directories are made.
  Ensures-refuse :
      {A : Type 0} {Q : A → Sys → Type 0} (reason x : Text)
      → Ensures (At os o base rooting) (fail_with os (report os) o reason x) Q (End os o base)
  Ensures-refuse {A = A} {Q = Q} reason x = record {
    at = λ s h. (Ensures-fail_with os o base {Q = Q} reason x).at s (rooting, tt, h);
  }

  Ensures-made :
      (prefix : Text) (x : Option Text)
      → Ensures
          (At os o base rooting)
          (made os (report os) o prefix x)
          (λ _. At os o base rooting)
          (End os o base)
  unfolding made
  Ensures-made prefix none = Ensures-pure tt (λ s h. h)
  Ensures-made prefix (some x) = Ensures-refuse _ _

  Ensures-root :
      (root : Text)
      → (root ≡ o.nginx_sites_available_root) ⊎ (root ≡ o.nginx_sites_enabled_root)
      → Ensures
          (At os o base rooting)
          (touch os (mkdir_all (clean (trim_space root))))
          (λ _. At os o base rooting)
          (End os o base)
  Ensures-root root q =
      Ensures-touched os o base (mkdir_all (clean (trim_space root))) (λ _. rooting) (λ x. rooted q)

  Ensures-prepare_nginx_dirs :
      Ensures
        (At os o base rooting)
        (prepare_nginx_dirs os (report os) o)
        (λ _. At os o base rooting)
        (End os o base)
  unfolding prepare_nginx_dirs
  Ensures-prepare_nginx_dirs =
      Ensures-if
        (is_empty (trim_space o.nginx_sites_available_root)
          || is_empty (trim_space o.nginx_sites_enabled_root))
        (λ _. Ensures-refuse _ _)
        (λ _. Ensures-bind (Ensures-root o.nginx_sites_available_root (inl refl)) λ x.
          Ensures-bind (Ensures-made _ x) λ _.
            Ensures-bind (Ensures-root o.nginx_sites_enabled_root (inr refl)) λ x. Ensures-made _ x)

  -- The materialization is the intent's.
  Materialized : Option TlsMaterialization → Sys → Type 0
  Materialized m s = At os o base rooting s × (tls_materialization_from_intent o.intent ≡ ok m)

  Ensures-check_pair :
      (mat : TlsMaterialization) (x : Option Text)
      → tls_materialization_from_intent o.intent ≡ ok (some mat)
      → Ensures
          (At os o base rooting)
          (check_pair os (report os) o mat x)
          Materialized
          (End os o base)
  unfolding check_pair Materialized
  Ensures-check_pair mat none q = Ensures-pure (some mat) (λ s h. (h, q))
  Ensures-check_pair mat (some x) q = Ensures-refuse _ _

  Ensures-check_materialization :
      (r : Result (Option TlsMaterialization))
      → tls_materialization_from_intent o.intent ≡ r
      → Ensures
          (At os o base rooting)
          (check_materialization os (report os) o r)
          Materialized
          (End os o base)
  unfolding check_materialization Materialized
  Ensures-check_materialization (err x) q = Ensures-refuse _ _
  Ensures-check_materialization (ok none) q = Ensures-pure none (λ s h. (h, q))
  Ensures-check_materialization (ok (some mat)) q =
      Ensures-if (is_empty o.tls_certificate_path_roots) (λ _. Ensures-refuse _ _)
        (λ _. record { at = λ s h. (Ensures-check_pair mat _ q).at s h })

  pub Ensures-prepare :
      Ensures
        (At os o base rooting)
        (prepare os (report os) o)
        (λ p. At os o base (prepared p.0 p.1))
        (End os o base)
  unfolding prepare validate_tls_materialization Materialized
  Ensures-prepare = Ensures-bind (Ensures-accept-At os o base rooting _ _ tt) λ _.
      Ensures-fact λ deploy. Ensures-bind (Ensures-need-At os o base rooting _ _ tt) λ web_root.
        Ensures-fact λ resolved. Ensures-bind (Ensures-accept-At os o base rooting _ _ tt) λ _.
          Ensures-fact λ web. Ensures-bind (Ensures-check_materialization _ refl) λ mat.
            Ensures-fact λ materialized. Ensures-bind Ensures-prepare_nginx_dirs λ _.
              Ensures-pure (web_root, mat)
                λ s h. Trace.silent h (
                  checked (record {
                    deploy_allowed = deploy;
                    resolved = resolved;
                    web_root_allowed = web;
                    materialized = materialized;
                  }))

  test_step : Runs os o base linked tested o.nginx_test_argv
  test_step c r p = (λ q. passed p q, λ x q. rejected p q)

  pub Ensures-materialize :
      (w : Text) (m : Option TlsMaterialization)
      → Ensures
          (At os o base (ready w m))
          (materialize os (report os) o (w, m))
          (λ _. At os o base tested)
          (End os o base)
  unfolding materialize
  Ensures-materialize w m = Ensures-bind (Ensures-need-At os o base (ready w m) _ _ tt) λ conf.
      Ensures-fact λ conf_ok. Ensures-bind (Ensures-need-At os o base (ready w m) _ _ tt) λ paths.
        Ensures-fact λ paths_ok.
          Ensures-bind
            (record {
              at = λ s h.
                  (Ensures-write_atomic_file os o base paths.0 paths.1 conf {R = End os o base}).at
                    s (Trace.silent h (rendered conf_ok paths_ok));
            })
            λ x.
              Ensures-bind
                (Ensures-accept os o base
                  (λ s. (tmp : Text) × At os o base (placed tmp paths.0 paths.1) s) _ x)
                λ _.
                  Ensures-bind
                    (record {
                      at = λ s h.
                          (Ensures-ensure_symlink os o base h.0 paths.0 paths.1
                              {R = End os o base}).at
                            s h.1;
                    })
                    λ x. Ensures-bind (Ensures-accept os o base (At os o base linked) _ x) λ _.
                      Ensures-bind
                        (Ensures-run_argv os o base linked tested o.nginx_test_argv test_step tt)
                        λ r.
                          Ensures-bind (Ensures-need os o base (λ _. At os o base tested) _ r)
                            λ _. Ensures-pure tt (λ s h. h)
