-- ===== src/Inventory.antt =====
-- internal/inventory/inventory.go and the two `Inventory` functions of internal/runtime.
pub mod Collected
use Prim.Native.Nat.{◌%◌, ◌^◌}
use releasepanel_agent.Base.{
  ℕ, ◌*◌, Option, none, some, List, [], ◌∷◌, ◌++◌, ◌==◌, if◌then◌else◌, is_empty,
}
use releasepanel_agent.Text.{Text, codes, trim_space}
use releasepanel_agent.System.{
  Os, Sys, M, Result, ok, err, ExecReply, exec, look_path, now, go, pure, ◌>>=◌,
}
use releasepanel_agent.System.Files.{read_text, ReadReply, contents, absent, unreadable}
use releasepanel_agent.Api.{NginxInventory, PhpInventory, DiskMount, InventoryReport, schema_v1}

-- A file system in blocks.
pub record StatFs : Type 0 where
  pub blocks : ℕ
  pub free : ℕ
  pub block_size : ℕ

-- What the host says of itself.
pub record HostFacts : Type 0 where
  pub hostname : Sys → Text
  pub statfs : Sys → Text → Option StatFs
  pub goos : Text
  pub goarch : Text
  -- The milliseconds that a probe took.
  pub elapsed : Sys → ℕ

-- `strings.SplitN(s, "\n", 2)[0]`.
unfoldable pub first_line : Text → Text
first_line [] = []
first_line (c ∷ s) = let rest = first_line s in if c == b'\n' then [] else c ∷ rest

abbrev bytes_of : ℕ → ℕ → ℕ
bytes_of blocks size = blocks * size % 2 ^ 64

-- `statFS` and the one mount of the report.
unfoldable pub root_mount : Option StatFs → List DiskMount
root_mount none = []
root_mount (some s) =
    record {
      path = codes "/";
      fs_type = [];
      total_bytes = bytes_of s.blocks s.block_size;
      free_bytes = bytes_of s.free s.block_size;
    }
    ∷ []

unfoldable pub php_version : Text → ExecReply → PhpInventory
php_version path r = elim r.error [
  | none ↦ record {
    cli_path = path;
    cli_version = trim_space (first_line r.stdout);
    fpm = codes "php-fpm";
  }
  | some e ↦ record { cli_path = path; cli_version = []; fpm = codes "php-fpm" }
]

unfoldable pub or_empty : Result Text → Text
or_empty (ok t) = t
or_empty (err e) = []

unfoldable pub unless_failed : Option Text → Text → Text
unless_failed none t = t
unless_failed (some e) t = []

module _ (os : Os) where
  abbrev pub run_with : Text → List Text → M ExecReply
  run_with path args =
      exec os (record { path = path; args = args; work_dir = []; env = os.environ })

  unfoldable pub nginx_at : Result Text → M (Option NginxInventory)
  nginx_at (err e) = pure none
  nginx_at (ok path) = if is_empty path then pure none else (do
    r ← run_with path (codes "-v" ∷ [])
    pure (some (record { binary_path = path; version = trim_space (r.stdout ++ r.stderr) })))

  -- `nginx.Inventory`. Both outputs go to one buffer.
  unfoldable pub nginx_inventory : M (Option NginxInventory)
  unfolding nginx_at
  nginx_inventory = do path ← look_path os (codes "nginx"); nginx_at path

  unfoldable pub php_at : Result Text → M (Option PhpInventory)
  unfolding php_version
  php_at (err e) = pure none
  php_at (ok path) =
      if is_empty path
      then pure none
      else (do r ← run_with path (codes "-v" ∷ []); pure (some (php_version path r)))

  -- `php.Inventory`.
  unfoldable pub php_inventory : M (Option PhpInventory)
  unfolding php_at
  php_inventory = do path ← look_path os (codes "php"); php_at path

  unfoldable pub id_from : List Text → ReadReply → M Text → M Text
  id_from rest (contents b) others = pure (trim_space b)
  id_from rest (absent e) others = others
  id_from rest (unreadable e) others = others

  -- The first of the files that can be read.
  unfoldable pub machine_id_from : List Text → M Text
  unfolding id_from
  machine_id_from [] = pure []
  machine_id_from (p ∷ ps) = do r ← read_text os p; id_from ps r (machine_id_from ps)

  unfoldable pub machine_id : M Text
  unfolding machine_id_from
  machine_id = machine_id_from (codes "/etc/machine-id" ∷ codes "/var/lib/dbus/machine-id" ∷ [])

  -- `Collect` never fails.
  unfoldable pub collect : HostFacts → Text → Text → M InventoryReport
  unfolding root_mount nginx_inventory php_inventory machine_id
  collect facts hostname agent_version = do
    own ← (λ s. (go (facts.hostname s), s))
    mount ← (λ s. (go (facts.statfs s (codes "/")), s))
    ngx ← nginx_inventory
    ph ← php_inventory
    at ← now os
    id ← machine_id
    pure (record {
      schema_version = schema_v1;
      node_id = [];
      collected_at = at;
      facts = record {
        hostname = if is_empty hostname then own else hostname;
        os = facts.goos;
        arch = facts.goarch;
        machine_id = id;
        agent_version = agent_version;
      };
      runtimes = record { nginx = ngx; php = ph };
      disk = root_mount mount;
    })

  -- `lookupPath`: where the links cannot be followed, `EvalSymlinks` gives the empty path.
  unfoldable pub resolved_path : Result Text → M Text
  resolved_path (err e) = pure []
  resolved_path (ok p) = do q ← (λ s. (go (os.eval_symlinks s p), s)); pure (or_empty q)

  unfoldable pub lookup_path : Text → M Text
  unfolding resolved_path
  lookup_path name = do p ← look_path os name; resolved_path p

  unfoldable pub path_or_lookup : Text → Text → M Text
  unfolding lookup_path
  path_or_lookup path name = if is_empty path then lookup_path name else pure path

  unfoldable pub nginx_binary_version : Text → M (Option NginxInventory)
  unfolding path_or_lookup
  nginx_binary_version path = do
    bin ← path_or_lookup path (codes "nginx")
    if is_empty bin then pure none else (do
      r ← run_with bin (codes "-v" ∷ [])
      pure (
          some (record {
            binary_path = bin;
            version = unless_failed r.error (trim_space (r.stdout ++ r.stderr));
          })))

  unfoldable pub php_cli_version : Text → M (Option PhpInventory)
  unfolding path_or_lookup
  php_cli_version path = do
    bin ← path_or_lookup path (codes "php")
    if is_empty bin then pure none else (do
      r ← run_with bin (codes "-v" ∷ [])
      pure (
          some (record {
            cli_path = bin;
            cli_version = unless_failed r.error (trim_space (first_line r.stdout));
            fpm = unless_failed r.error (codes "php-fpm");
          })))
