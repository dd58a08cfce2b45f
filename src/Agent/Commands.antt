-- ===== src/Agent/Commands.antt =====
-- cmd/agent/main.go: `cmdEnroll`, from its flags on. The configuration comes loaded.
use releasepanel_agent.Base.{◌==◌, Option, none, some, [], if◌then◌else◌, is_empty}
use releasepanel_agent.Text.{Text, codes, trim_space, trim_right, Unicode}
use releasepanel_agent.System.{Os, M, Result, ok, err, Action, check, ◌>>=◌, ◌>>◌}
use releasepanel_agent.System.Files.{read_text, ReadReply, contents, absent, unreadable}
use releasepanel_agent.Config.Settings.{Config}
use releasepanel_agent.Central.{Http, Json}
use releasepanel_agent.Inventory.{HostFacts, collect}
use releasepanel_agent.Enroll.{Machine, Codec, or_leave, run}

unfoldable pub on_host : {A : Type 0} → M A → Action Machine A
on_host m w = let (r, t) = m w.sys in (r, record w { sys = t })

-- The flag `central-url` goes before the configuration.
unfoldable pub enroll_base : Text → Text → Text
enroll_base central_url base =
    if is_empty (trim_space central_url)
    then base
    else trim_right (λ c. c == b'/') (trim_space central_url)

unfoldable pub missing_token_file : Text → Option Text
missing_token_file path =
    if is_empty (trim_space path) then some (codes "enroll: --token-file is required") else none

unfoldable pub token_in : ReadReply → Result Text
token_in (contents raw) = ok (trim_space raw)
token_in (absent e) = err e
token_in (unreadable e) = err e

module _ ⦃u : Unicode⦄ (os : Os) (http : Http) (json : Json) (codec : Codec) (facts : HostFacts)
    (version : Text) where
  unfoldable pub enroll_command : Result Config → Text → Text → Action Machine (Unit {0})
  unfolding missing_token_file token_in enroll_base on_host or_leave run collect
  enroll_command loaded central_url token_file = do
    check (missing_token_file token_file)
    cfg ← or_leave (λ e. e) loaded
    raw ← on_host (read_text os token_file)
    token ← or_leave (λ e. e) (token_in raw)
    inv ← on_host (collect os facts [] version)
    run os http json codec cfg (enroll_base central_url cfg.central_base_url) token inv.facts
