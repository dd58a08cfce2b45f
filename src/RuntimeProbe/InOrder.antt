-- ===== src/RuntimeProbe/InOrder.antt =====
-- The checks of a spec as a list that is run until one of them fails, and runtimeprobe.runOne on
-- the specs of a configuration that config.compileRuntimeDependencyProbes accepts.
use releasepanel_agent.Base.{
  ◌≡◌, ◌⊎◌, inl, inr, refl, ap, arith, Bool, true, false, not, ◌&&◌, Option, List, [], ◌∷◌, ◌++◌,
  if◌then◌else◌, is_empty, All, sym, ◌∙◌, append-nil, Bool-cases, All-map,
}
use releasepanel_agent.Text.{
  Text, codes, text_eq, text_eq_iff, trim_space, trim_left, trim_right, is_space, Unicode,
  has_prefix,
}
use releasepanel_agent.FilePath.{is_abs}
use releasepanel_agent.System.{ok}
use releasepanel_agent.Api.{RuntimeDependencyReportRow}
use releasepanel_agent.Config.Probes.{
  Spec, RuntimeDependencyProbe, compile_runtime_dependency_probes, is_tcp_dependency,
}
use releasepanel_agent.Config.Probes.Valid.{IsValid, compile_runtime_dependency_probes-IsValid}
use releasepanel_agent.RuntimeProbe.{
  Host, Log, Probe, ◌>>=◌, pure, now, Outcome, observed, probe_unix_socket, probe_tcp,
  probe_systemctl, probe_pid_file, is_observed, row_of, probe_primary, next, run_checks, run_one,
  has_primary,
}

pub data Check : Type 0 where
  socket_check tcp_check process_check : Text → Check
  command_check : List Text → Check

abbrev when : Bool → Check → List Check
when true c = c ∷ []
when false c = []

-- The endpoint first, then the command, then the process.
unfoldable pub endpoint_check : Spec → Check
endpoint_check sp =
    if is_empty sp.socket_path then tcp_check sp.tcp_addr else socket_check sp.socket_path

unfoldable pub further_checks : Spec → List Check
further_checks sp =
    when (not (is_empty sp.systemctl_argv)) (command_check sp.systemctl_argv)
    ++ when (not (is_empty (trim_space sp.pid_file))) (process_check (trim_space sp.pid_file))

module _ (host : Host) where
  unfoldable pub perform : Check → Probe Outcome
  perform (socket_check path) = probe_unix_socket host path
  perform (tcp_check addr) = probe_tcp host addr
  perform (command_check argv) = probe_systemctl host argv
  perform (process_check path) = probe_pid_file host path

  -- The outcome of the first check that is not observed, or of the last.
  unfoldable pub until_failure : Outcome → List Check → Probe Outcome
  unfolding perform
  until_failure o [] = pure o
  until_failure o (c ∷ cs) =
      let rest = (perform c >>= λ p. until_failure p cs) in if is_observed o then rest else pure o

  until_failure_stopped :
      (o : Outcome) (cs : List Check) (l : Log)
      → is_observed o ≡ false
      → until_failure o cs l ≡ (o, l)
  unfolding until_failure
  until_failure_stopped o [] l h = refl
  until_failure_stopped o (c ∷ cs) l h = rw (h, until_failure) refl

  until_failure-when :
      (o : Outcome) (b : Bool) (c : Check) (cs : List Check) (l : Log)
      → until_failure o (when b c ++ cs) l
        ≡ (next host b (perform c) o >>= λ p. until_failure p cs) l
  unfolding until_failure next is_observed
  until_failure-when o true c cs l = elim (Bool-cases (is_observed o)) [
    | inl e ↦ rw (e, until_failure, next) refl
    | inr e ↦ rw (e, until_failure, next) (sym (until_failure_stopped o cs l e))
  ]
  until_failure-when o false c cs l = elim (Bool-cases (is_observed o)) [
    | inl e ↦ rw (e, next) refl
    | inr e ↦ rw (e, next) refl
  ]

  -- The endpoint's check is the first of the list, when there is one endpoint.
  probe_primary_lem :
      (sp : Spec) → has_primary sp ≡ true → probe_primary host sp ≡ perform (endpoint_check sp)
  unfolding probe_primary perform endpoint_check has_primary
  probe_primary_lem sp h = elim (Bool-cases (is_empty sp.socket_path)) [
    | inl e ↦ rw (e, filled e) refl
    | inr e ↦ rw e refl
  ]
    where
      filled : is_empty sp.socket_path ≡ true → is_empty sp.tcp_addr ≡ false
      filled e = ground arith

  until_failure_one :
      (o : Outcome) (b : Bool) (c : Check) (l : Log)
      → until_failure o (when b c) l ≡ next host b (perform c) o l
  unfolding until_failure
  until_failure_one o b c l =
      ap (λ cs. until_failure o cs l) (sym (append-nil (when b c))) ∙ until_failure-when o b c [] l

  -- What comes after the endpoint.
  after_endpoint : Spec → Outcome → Probe Outcome
  after_endpoint sp a = do
    b ← next host (not (is_empty sp.systemctl_argv)) (probe_systemctl host sp.systemctl_argv) a
    next host (not (is_empty (trim_space sp.pid_file)))
        (probe_pid_file host (trim_space sp.pid_file)) b

  further_checks_lem :
      (sp : Spec) (a : Outcome) (l : Log)
      → until_failure a (further_checks sp) l ≡ after_endpoint sp a l
  unfolding further_checks after_endpoint perform
  further_checks_lem sp a l =
      until_failure-when a (not (is_empty sp.systemctl_argv)) (command_check sp.systemctl_argv)
        (when (not (is_empty (trim_space sp.pid_file))) (process_check (trim_space sp.pid_file))) l
      ∙ until_failure_one _ (not (is_empty (trim_space sp.pid_file)))
          (process_check (trim_space sp.pid_file)) _

  observed_lem : is_observed observed ≡ true
  unfolding is_observed text_eq
  observed_lem = refl

  finish : Text → Outcome × Log → RuntimeDependencyReportRow × Log
  finish dep (o, k) = (row_of dep o (host.now k), k)

  run_checks_lem :
      (dep : Text) (sp : Spec) (l : Log)
      → has_primary sp ≡ true
      → run_checks host dep sp l
        ≡ (until_failure observed (endpoint_check sp ∷ further_checks sp) >>= λ o.
              now host >>= λ at. pure (row_of dep o at))
            l
  unfolding run_checks until_failure finish after_endpoint
  run_checks_lem dep sp l h =
      ap (λ (m : Probe Outcome). finish dep (after_endpoint sp (m l).0 (m l).1))
        (probe_primary_lem sp h)
      ∙ sym (
          ap (finish dep) (
            steps
            ∙ further_checks_lem sp (perform (endpoint_check sp) l).0
                (perform (endpoint_check sp) l).1))
    where
      steps :
          until_failure observed (endpoint_check sp ∷ further_checks sp) l
          ≡ until_failure
              (perform (endpoint_check sp) l).0
              (further_checks sp)
              (perform (endpoint_check sp) l).1
      steps = rw (observed_lem, until_failure) refl

-- The row that comes from the checks of a spec in their order.
unfoldable pub row_in_order : Host → Spec → Probe RuntimeDependencyReportRow
unfolding until_failure
row_in_order host sp = do
  o ← until_failure host observed (endpoint_check sp ∷ further_checks sp)
  at ← now host
  pure (row_of sp.dependency o at)

-- The four names that a configuration may use.
abbrev IsName : Text → Type 0
IsName dep =
    (dep ≡ codes "php_fpm")
    ⊎ (dep ≡ codes "redis")
    ⊎ (dep ≡ codes "mysql")
    ⊎ (dep ≡ codes "postgres")

trim_names :
    (trim_space (codes "php_fpm") ≡ codes "php_fpm")
    × (trim_space (codes "redis") ≡ codes "redis")
    × (trim_space (codes "mysql") ≡ codes "mysql")
    × (trim_space (codes "postgres") ≡ codes "postgres")
unfolding trim_space trim_left trim_right is_space
trim_names = (refl, refl, refl, refl)

name_given : (dep : Text) → IsName dep → is_empty dep ≡ false
name_given dep h = ground arith

trim_space_name : (dep : Text) → IsName dep → trim_space dep ≡ dep
trim_space_name dep (inl e) = rw e trim_names.0
trim_space_name dep (inr (inl e)) = rw e trim_names.1
trim_space_name dep (inr (inr (inl e))) = rw e trim_names.2
trim_space_name dep (inr (inr (inr e))) = rw e trim_names.3

module _ (split_host_port : Text → Option (Text × Text)) where
  IsValid-IsName : (sp : Spec) → IsValid split_host_port sp → IsName sp.dependency
  unfolding is_tcp_dependency
  IsValid-IsName sp v = ground (
    arith,
    v.endpoint,
    text_eq_iff sp.dependency (codes "redis"),
    text_eq_iff sp.dependency (codes "mysql"),
    text_eq_iff sp.dependency (codes "postgres"),
  )

  IsValid-one_endpoint :
      (sp : Spec)
      → IsValid split_host_port sp
      → (not (is_empty sp.socket_path) && not (is_empty sp.tcp_addr)) ≡ false
  IsValid-one_endpoint sp v = ground (arith, v.endpoint)

  IsValid-has_primary : (sp : Spec) → IsValid split_host_port sp → has_primary sp ≡ true
  unfolding has_primary is_abs has_prefix
  IsValid-has_primary sp v = ground (arith, v.endpoint)

  run_one-IsValid :
      (host : Host) (sp : Spec) (l : Log)
      → IsValid split_host_port sp
      → run_one host sp l ≡ row_in_order host sp l
  unfolding run_one row_in_order
  run_one-IsValid host sp l v =
      rw
        (
          trim_space_name sp.dependency (IsValid-IsName sp v),
          name_given sp.dependency (IsValid-IsName sp v),
          IsValid-one_endpoint sp v,
          IsValid-has_primary sp v,
        )
        (run_checks_lem host sp.dependency sp l (IsValid-has_primary sp v))

  -- On the specs of a configuration that compiles, none of the three refusals of `runOne` is met:
  -- the row is that of the spec's own checks, the endpoint's first, then the command's, then the
  -- process's, each made only while those before it are observed.
  pub run_one-in_order :
      ⦃u : Unicode⦄ (host : Host) (raw : List RuntimeDependencyProbe) {specs : List Spec}
      → compile_runtime_dependency_probes split_host_port raw ≡ ok specs
      → All (λ sp. (l : Log) → run_one host sp l ≡ row_in_order host sp l) specs
  run_one-in_order host raw {specs = specs} h =
      All-map (λ sp v l. run_one-IsValid host sp l v) specs
        (compile_runtime_dependency_probes-IsValid split_host_port raw h).2
