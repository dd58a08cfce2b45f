-- ===== src/State.antt =====
-- internal/state/state.go and internal/paths/paths.go: the files below the state directory, how
-- they are written and how they are read back.
use releasepanel_agent.Base.{ℕ, Option, none, some, List, [], ◌∷◌, ◌++◌}
use releasepanel_agent.Text.{Text, codes}
use releasepanel_agent.FilePath.{join}
use releasepanel_agent.System.{Os, M, Result, ok, err, pure, leave, ◌>>=◌, ◌>>◌, mkdir_all}
use releasepanel_agent.System.Files.{touch, read_text, ReadReply, contents, absent, unreadable}
use releasepanel_agent.System.Atomic.{replace_file}

unfoldable pub enrollment : Text → Text
enrollment state_dir = join (state_dir ∷ codes "enrollment.json" ∷ [])

unfoldable pub runtime_state : Text → Text
runtime_state state_dir = join (state_dir ∷ codes "runtime.json" ∷ [])

unfoldable pub inventory_cache : Text → Text
inventory_cache state_dir = join (state_dir ∷ codes "inventory.json" ∷ [])

unfoldable pub outbox_dir : Text → Text
outbox_dir state_dir = join (state_dir ∷ codes "outbox" ∷ [])

unfoldable pub agent_log : Text → Text
agent_log log_dir = join (log_dir ∷ codes "agent.log" ∷ [])

unfoldable pub events_log : Text → Text
events_log log_dir = join (log_dir ∷ codes "events.jsonl" ∷ [])

unfoldable pub site_tls_echo : Text → Text
site_tls_echo state_dir = join (state_dir ∷ codes "site_tls_echo.json" ∷ [])

unfoldable pub repository_deploy_keys_dir : Text → Text
repository_deploy_keys_dir state_dir = join (state_dir ∷ codes "repository-deploy-keys" ∷ [])

pub record EnrollmentRecord : Type 0 where
  pub schema_version : ℕ
  pub node_id : Text
  pub api_key : Text
  pub central_base_url : Text
  pub enrolled_at : Text

-- A time that is zero is empty.
pub record RuntimeCounters : Type 0 where
  pub schema_version : ℕ
  pub started_at : Text
  pub last_loop_at : Text
  pub loop_count : ℕ
  pub last_inventory_post_at : Text
  pub last_health_post_at : Text
  pub last_error : Text

-- What `ReadJSON` returns: a value, or an error that is `os.ErrNotExist` or another.
pub data ReadJson (A : Type 0) : Type 0 where
  decoded : A → ReadJson A
  not_there broken : Text → ReadJson A

unfoldable pub decoding : {A : Type 0} → Result A → ReadJson A
decoding (ok a) = decoded a
decoding (err e) = broken e

unfoldable pub decode_reply : {A : Type 0} → (Text → Result A) → ReadReply → ReadJson A
unfolding decoding
decode_reply decode (contents t) = decoding (decode t)
decode_reply decode (absent e) = not_there e
decode_reply decode (unreadable e) = broken e

module _ (os : Os) where
  -- The error of one directory of `EnsureTree`.
  unfoldable pub check_dir : Text → Option Text → M (Unit {0})
  check_dir d none = pure tt
  check_dir d (some e) = leave (some (codes "mkdir " ++ (d ++ (codes ": " ++ e))))

  unfoldable pub ensure_tree : List Text → M (Unit {0})
  unfolding check_dir
  ensure_tree [] = pure tt
  ensure_tree (d ∷ ds) = do made ← touch os (mkdir_all d); check_dir d made; ensure_tree ds

  -- The value comes encoded.
  unfoldable pub write_json_atomic : Text → Result Text → ℕ → M (Unit {0})
  write_json_atomic path encoded perm = replace_file os (codes ".rp-*") perm path encoded

  unfoldable pub read_json : {A : Type 0} → (Text → Result A) → Text → M (ReadJson A)
  unfolding decode_reply
  read_json decode path = do r ← read_text os path; pure (decode_reply decode r)
