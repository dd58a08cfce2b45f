-- ===== src/Config/Probes.antt =====
-- internal/config/runtime_dependency_probes.go, and `Spec` of internal/runtimeprobe/spec.go.
-- `net.SplitHostPort` is the parameter `split_host_port`, `none` its error.
pub mod Valid
use releasepanel_agent.Base.{
  ℕ, zero, suc, ◌+◌, Bool, true, false, not, ◌||◌, ◌&&◌, Option, none, some, List, [], ◌∷◌, ◌++◌,
  ltb, if◌then◌else◌, is_empty, length,
}
use releasepanel_agent.Text.{
  Text, codes, text_eq, trim_space, to_lower, byte_length, decimal, Unicode,
}
use releasepanel_agent.FilePath.{is_abs}
use releasepanel_agent.System.{Result, ok, err}

pub record RuntimeDependencyProbe : Type 0 where
  pub kind : Text
  pub socket : Text
  pub tcp : Text
  pub systemctl_argv : List Text
  pub pid_file : Text

pub record Spec : Type 0 where
  pub dependency : Text
  pub socket_path : Text
  pub tcp_addr : Text
  pub systemctl_argv : List Text
  pub pid_file : Text

-- An error at the entry `i`.
entry : ℕ → Text → Text
entry i message = codes "runtime_dependency_probes[" ++ (decimal i ++ (codes "]" ++ message))

-- An element before the rest: its error comes first.
consed : {A : Type 0} → Result A → Result (List A) → Result (List A)
consed (err e) rest = err e
consed (ok a) (err e) = err e
consed (ok a) (ok rest) = ok (a ∷ rest)

check_argument : ℕ → ℕ → Text → Result Text
unfolding entry
check_argument idx j a =
    let t = trim_space a in
    if is_empty t
    then err (entry idx (codes ": systemctl_argv[" ++ (decimal j ++ codes "] empty")))
    else if ltb 1024 (byte_length t)
    then err (entry idx (codes ": systemctl_argv[" ++ (decimal j ++ codes "] too long")))
    else ok t

check_arguments : ℕ → ℕ → List Text → Result (List Text)
unfolding consed check_argument
check_arguments idx j [] = ok []
check_arguments idx j (a ∷ rest) =
    consed (check_argument idx j a) (check_arguments idx (suc j) rest)

pub starts_absolute : List Text → Bool
starts_absolute [] = false
starts_absolute (a ∷ rest) = is_abs a

check_executable : ℕ → Result (List Text) → Result (List Text)
unfolding entry starts_absolute
check_executable idx (err e) = err e
check_executable idx (ok out) =
    if starts_absolute out
    then ok out
    else err (entry idx (codes ": systemctl_argv[0] must be absolute executable path"))

validate_systemctl_argv : List Text → ℕ → Result (List Text)
unfolding check_executable check_arguments entry
validate_systemctl_argv argv idx =
    if is_empty argv
    then ok []
    else if ltb 24 (length argv)
    then err (entry idx (codes ": systemctl_argv has at most 24 elements"))
    else check_executable idx (check_arguments idx 0 argv)

-- `allowedRuntimeDependencyTypes`, and those among them that are reached over tcp.
unfoldable pub is_tcp_dependency : Text → Bool
is_tcp_dependency dep =
    text_eq dep (codes "redis") || text_eq dep (codes "mysql") || text_eq dep (codes "postgres")

is_allowed_dependency : Text → Bool
unfolding is_tcp_dependency
is_allowed_dependency dep = text_eq dep (codes "php_fpm") || is_tcp_dependency dep

-- Both parts of an address are there.
pub has_host_and_port : Option (Text × Text) → Bool
has_host_and_port none = false
has_host_and_port (some (host, port)) = not (is_empty host) && not (is_empty port)

unfoldable pub guarded : {A : Type 0} → Option Text → Result A → Result A
guarded none r = r
guarded (some e) r = err e

module _ ⦃u : Unicode⦄ (split_host_port : Text → Option (Text × Text)) where
  check_type : ℕ → Text → Option Text
  unfolding entry is_allowed_dependency
  check_type i dep =
      if is_empty dep
      then some (entry i (codes ": type is required"))
      else if not (is_allowed_dependency dep)
      then some (
          entry i (
            codes ": unsupported type "
            ++ (u.quote dep ++ codes " (allowed: php_fpm, redis, mysql, postgres)")))
      else none

  -- The `switch` on the type.
  check_endpoint : ℕ → Text → Text → Text → Option Text
  unfolding entry is_tcp_dependency has_host_and_port
  check_endpoint i dep socket tcp =
      if text_eq dep (codes "php_fpm")
      then (if is_empty socket
          then some (entry i (codes ": php_fpm requires socket"))
          else if not (is_empty tcp)
          then some (entry i (codes ": php_fpm must not set tcp"))
          else if not (is_abs socket)
          then some (entry i (codes ": socket must be absolute path"))
          else none)
      else if is_tcp_dependency dep
      then (if is_empty tcp
          then some (entry i (codes ": " ++ (dep ++ codes " requires tcp host:port")))
          else if not (is_empty socket)
          then some (entry i (codes ": " ++ (dep ++ codes " must not set socket")))
          else if not (has_host_and_port (split_host_port tcp))
          then some (entry i (codes ": tcp must be host:port"))
          else none)
      else none

  check_pid_file : ℕ → Text → Option Text
  unfolding entry
  check_pid_file i pf =
      if not (is_empty pf) && not (is_abs pf)
      then some (entry i (codes ": pid_file must be absolute path"))
      else none

  -- The spec of a probe, when its arguments have passed.
  spec_of : RuntimeDependencyProbe → Result (List Text) → Result Spec
  spec_of r (err e) = err e
  spec_of r (ok argv) = ok (record {
    dependency = to_lower (trim_space r.kind);
    socket_path = trim_space r.socket;
    tcp_addr = trim_space r.tcp;
    systemctl_argv = argv;
    pid_file = trim_space r.pid_file;
  })

  -- The body of the loop.
  compile_probe : ℕ → RuntimeDependencyProbe → Result Spec
  unfolding guarded check_type check_endpoint check_pid_file spec_of validate_systemctl_argv
  compile_probe i r = guarded (check_type i (to_lower (trim_space r.kind))) (
      guarded
        (check_endpoint i (to_lower (trim_space r.kind)) (trim_space r.socket) (trim_space r.tcp))
        (guarded (check_pid_file i (trim_space r.pid_file))
          (spec_of r (validate_systemctl_argv r.systemctl_argv i))))

  compile_from : ℕ → List RuntimeDependencyProbe → Result (List Spec)
  unfolding consed compile_probe
  compile_from i [] = ok []
  compile_from i (r ∷ rs) = consed (compile_probe i r) (compile_from (suc i) rs)

  unfoldable pub compile_runtime_dependency_probes :
      List RuntimeDependencyProbe → Result (List Spec)
  unfolding compile_from
  compile_runtime_dependency_probes raw =
      if is_empty raw
      then ok []
      else if ltb 32 (length raw)
      then err (codes "runtime_dependency_probes: at most 32 entries")
      else compile_from 0 raw
