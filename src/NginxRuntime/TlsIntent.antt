-- ===== src/NginxRuntime/TlsIntent.antt =====
-- internal/nginxruntime/tlsintent.go
use releasepanel_agent.Base.{Bool, not, ◌||◌, Option, none, some, [], if◌then◌else◌, is_empty}
use releasepanel_agent.Text.{Text, codes, text_eq, trim_space, to_lower, Unicode}
use releasepanel_agent.Api.{SiteRuntimeApplyIntent}
use releasepanel_agent.System.{Result, ok, err}

pub record TlsMaterialization : Type 0 where
  pub certificate_path : Text
  pub certificate_key_path : Text
  pub redirect_http_to_https : Bool

-- `none` is the nil of an intent that asks for no TLS.
unfoldable pub tls_materialization_from_intent :
    SiteRuntimeApplyIntent → Result (Option TlsMaterialization)
tls_materialization_from_intent i =
    let c = trim_space i.ssl_certificate_path in
    let k = trim_space i.ssl_certificate_key_path in
    if not i.tls_enabled
    then ok none
    else if is_empty c || is_empty k
    then err (codes "tls enabled but certificate paths missing on intent")
    else ok (
        some (record {
          certificate_path = c;
          certificate_key_path = k;
          redirect_http_to_https = i.redirect_http_to_https;
        }))

unfoldable pub tls_observation_after_reload : ⦃u : Unicode⦄ → SiteRuntimeApplyIntent → Text
tls_observation_after_reload i =
    if not i.tls_enabled
    then []
    else if text_eq (to_lower (trim_space i.tls_ledger_state)) (codes "issued")
    then codes "applied"
    else []
