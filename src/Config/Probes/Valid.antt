-- ===== src/Config/Probes/Valid.antt =====
-- What holds of every probe that the configuration compiles to.
use releasepanel_agent.Base.{
  ℕ, suc, ◌≤◌, ◌≡◌, ◌≢◌, ◌⊎◌, inl, inr, refl, arith, true, Option, none, some, List, [], ◌∷◌, ltb,
  is_empty, length, All, Bool-cases,
}
use releasepanel_agent.Text.{Text, codes, text_eq_iff, byte_length, trim_space, to_lower, Unicode}
use releasepanel_agent.FilePath.{is_abs}
use releasepanel_agent.System.{Result, ok, err}
use releasepanel_agent.Config.Probes.{
  RuntimeDependencyProbe, Spec, consed, check_argument, check_arguments, starts_absolute,
  check_executable, validate_systemctl_argv, is_tcp_dependency, is_allowed_dependency,
  has_host_and_port, guarded, check_type, check_endpoint, check_pid_file, spec_of, compile_probe,
  compile_from, compile_runtime_dependency_probes,
}

abbrev IsArgument : Text → Type 0
IsArgument a = (a ≢ []) × (byte_length a ≤ 1024)

-- A command line that may be left out.
pub record IsCommandLine (argv : List Text) : Type 0 where
  pub at_most : length argv ≤ 24
  pub arguments : All IsArgument argv
  pub absolute : (argv ≡ []) ⊎ (starts_absolute argv ≡ true)

module _ (split_host_port : Text → Option (Text × Text)) where
  -- A local socket for PHP, and an address with host and port for the others.
  abbrev HasEndpoint : Text → Text → Text → Type 0
  HasEndpoint dep socket tcp =
      ((dep ≡ codes "php_fpm") × (is_abs socket ≡ true) × (tcp ≡ []))
      ⊎ ((is_tcp_dependency dep ≡ true)
          × (socket ≡ [])
          × (tcp ≢ [])
          × (has_host_and_port (split_host_port tcp) ≡ true))

  pub record IsValid (s : Spec) : Type 0 where
    pub endpoint : HasEndpoint s.dependency s.socket_path s.tcp_addr
    pub command : IsCommandLine s.systemctl_argv
    pub pid_absolute : (s.pid_file ≡ []) ⊎ (is_abs s.pid_file ≡ true)

check_argument_lem :
    (idx j : ℕ) (a : Text) {t : Text} → check_argument idx j a ≡ ok t → IsArgument t
unfolding check_argument
check_argument_lem idx j a h = ground arith

-- Both parts of a list that was put together are right.
consed_parts :
    {A : Type 0} (r : Result A) (rest : Result (List A)) {out : List A}
    → consed r rest ≡ ok out
    → (x : A) × (xs : List A) × (r ≡ ok x) × (rest ≡ ok xs) × (out ≡ x ∷ xs)
unfolding consed
consed_parts (err e) rest h = ground arith
consed_parts (ok x) (err e) h = ground arith
consed_parts (ok x) (ok xs) h = (x, xs, refl, refl, ground arith)

check_arguments_lem :
    (idx j : ℕ) (words : List Text) {out : List Text}
    → check_arguments idx j words ≡ ok out
    → (length out ≡ length words) × All IsArgument out
unfolding check_arguments
check_arguments_lem idx j [] h = ground arith
check_arguments_lem idx j (a ∷ words) h =
    let (x, xs, q, k, e) =
      consed_parts (check_argument idx j a) (check_arguments idx (suc j) words) h in
    let (n, all) = check_arguments_lem idx (suc j) words k in
    rw e (ground arith, (check_argument_lem idx j a q, all))

check_executable_lem :
    (idx : ℕ) (r : Result (List Text)) {out : List Text}
    → check_executable idx r ≡ ok out
    → (r ≡ ok out) × (starts_absolute out ≡ true)
unfolding check_executable
check_executable_lem idx (err e) h = ground arith
check_executable_lem idx (ok words) h = ground arith

validate_systemctl_argv_lem :
    (argv : List Text) (idx : ℕ) {out : List Text}
    → validate_systemctl_argv argv idx ≡ ok out
    → IsCommandLine out
unfolding validate_systemctl_argv
validate_systemctl_argv_lem argv idx {out = out} h = elim (Bool-cases (is_empty argv)) [
  | inl e ↦
      let q : out ≡ [] = ground arith in
      rw q (record { at_most = ground arith; arguments = tt; absolute = inl refl })
  | inr e ↦ elim (Bool-cases (ltb 24 (length argv))) [
    | inl long ↦ ground arith
    | inr short ↦
        let q : check_executable idx (check_arguments idx 0 argv) ≡ ok out = ground arith in
        let (k, absolute) = check_executable_lem idx (check_arguments idx 0 argv) q in
        let (n, all) = check_arguments_lem idx 0 argv k in
        record { at_most = ground arith; arguments = all; absolute = inr absolute }
  ]
]

pub guarded_lem :
    {A : Type 0} (e : Option Text) (r : Result A) {a : A}
    → guarded e r ≡ ok a
    → (e ≡ none) × (r ≡ ok a)
unfolding guarded
guarded_lem none r h = (refl, h)
guarded_lem (some e) r h = ground arith

module _ ⦃u : Unicode⦄ (split_host_port : Text → Option (Text × Text)) where
  HasEndpoint-check :
      (i : ℕ) (dep socket tcp : Text)
      → check_type split_host_port i dep ≡ none
      → check_endpoint split_host_port i dep socket tcp ≡ none
      → HasEndpoint split_host_port dep socket tcp
  unfolding check_type check_endpoint is_allowed_dependency
  HasEndpoint-check i dep socket tcp h k = ground (arith, text_eq_iff dep (codes "php_fpm"))

  spec_of_lem :
      (r : RuntimeDependencyProbe) (x : Result (List Text)) {s : Spec}
      → spec_of split_host_port r x ≡ ok s
      → (argv : List Text) × (x ≡ ok argv)
        × (s ≡ record {
          dependency = to_lower (trim_space r.kind);
          socket_path = trim_space r.socket;
          tcp_addr = trim_space r.tcp;
          systemctl_argv = argv;
          pid_file = trim_space r.pid_file;
        })
  unfolding spec_of
  spec_of_lem r (err e) h = ground arith
  spec_of_lem r (ok argv) h = (argv, refl, ground arith)

  check_pid_file_lem :
      (i : ℕ) (pf : Text)
      → check_pid_file split_host_port i pf ≡ none
      → (pf ≡ []) ⊎ (is_abs pf ≡ true)
  unfolding check_pid_file
  check_pid_file_lem i pf h = ground arith

  compile_probe-IsValid :
      (i : ℕ) (r : RuntimeDependencyProbe) {s : Spec}
      → compile_probe split_host_port i r ≡ ok s
      → IsValid split_host_port s
  unfolding compile_probe
  compile_probe-IsValid i r {s = s} h =
      let dep = to_lower (trim_space r.kind) in
      let (typed, a) = guarded_lem (check_type split_host_port i dep) _ h in
      let (ended, b) =
        guarded_lem (check_endpoint split_host_port i dep (trim_space r.socket) (trim_space r.tcp))
          _ a in
      let (pid, c) = guarded_lem (check_pid_file split_host_port i (trim_space r.pid_file)) _ b in
      let (argv, q, e) = spec_of_lem r (validate_systemctl_argv r.systemctl_argv i) c in
      rw e (record {
        endpoint = HasEndpoint-check i dep (trim_space r.socket) (trim_space r.tcp) typed ended;
        command = validate_systemctl_argv_lem r.systemctl_argv i q;
        pid_absolute = check_pid_file_lem i (trim_space r.pid_file) pid;
      })

  compile_from-IsValid :
      (i : ℕ) (rs : List RuntimeDependencyProbe) {specs : List Spec}
      → compile_from split_host_port i rs ≡ ok specs
      → (length specs ≡ length rs) × All (IsValid split_host_port) specs
  unfolding compile_from
  compile_from-IsValid i [] h = ground arith
  compile_from-IsValid i (r ∷ rs) h =
      let (x, xs, q, k, e) =
        consed_parts (compile_probe split_host_port i r) (compile_from split_host_port (suc i) rs)
          h in
      let (n, all) = compile_from-IsValid (suc i) rs k in
      rw e (ground arith, (compile_probe-IsValid i r q, all))

  -- A configuration that compiles has at most 32 probes and gives one spec for each, in which the
  -- endpoint is of the kind that its type wants (an absolute socket path for php_fpm, else an
  -- address with host and port), the pid file is absolute if there is one, and the command line,
  -- if there is one, starts with an absolute path and has at most 24 arguments of 1 to 1024 bytes.
  pub compile_runtime_dependency_probes-IsValid :
      (raw : List RuntimeDependencyProbe) {specs : List Spec}
      → compile_runtime_dependency_probes split_host_port raw ≡ ok specs
      → (length raw ≤ 32) × (length specs ≡ length raw) × All (IsValid split_host_port) specs
  unfolding compile_runtime_dependency_probes
  compile_runtime_dependency_probes-IsValid [] {specs = specs} h =
      let q : specs ≡ [] = ground arith in rw q (ground arith, refl, tt)
  compile_runtime_dependency_probes-IsValid (r ∷ rs) {specs = specs} h =
      elim (Bool-cases (ltb 32 (length (r ∷ rs)))) [
        | inl long ↦ ground arith
        | inr short ↦
            let q : compile_from split_host_port 0 (r ∷ rs) ≡ ok specs = ground arith in
            let (n, all) = compile_from-IsValid 0 (r ∷ rs) q in (ground arith, n, all)
      ]
