-- ===== src/NginxRuntime/WebRoot.antt =====
-- internal/nginxruntime/webroot.go
use releasepanel_agent.Base.{
  ℕ, Bool, not, ◌||◌, ◌&&◌, Option, none, some, [], ◌∷◌, ◌++◌, if◌then◌else◌, ◌==◌, leb, ltb,
  is_empty,
}
use releasepanel_agent.Text.{
  Text, codes, text_eq, trim_space, to_lower, contains_any, byte_length, Unicode,
}
use releasepanel_agent.FilePath.{is_abs, join}
use releasepanel_agent.System.{Result, ok, err}

-- The runtime type as the code compares it: trimmed, lowered, static if empty.
unfoldable pub runtime_kind : ⦃u : Unicode⦄ → Text → Text
runtime_kind runtime_type =
    let rt = to_lower (trim_space runtime_type) in if is_empty rt then codes "static" else rt

unfoldable pub resolve_web_root : ⦃u : Unicode⦄ → Text → Text → Result Text
resolve_web_root ⦃u⦄ deploy_path runtime_type =
    let dp = trim_space deploy_path in
    let rt = runtime_kind runtime_type in
    if is_empty dp
    then err (codes "empty deploy_path")
    else if text_eq rt (codes "laravel")
    then ok (join (dp ∷ codes "public" ∷ []))
    else if text_eq rt (codes "wordpress") || text_eq rt (codes "wp")
    then ok dp
    else if text_eq rt (codes "php")
    then ok dp
    else if text_eq rt (codes "static")
    then ok dp
    else if text_eq rt (codes "custom")
    then ok dp
    else err (codes "unsupported runtime_type " ++ u.quote runtime_type)

unfoldable pub is_domain_rune : ℕ → Bool
is_domain_rune c =
    (leb b'a' c && leb c b'z')
    || (leb b'A' c && leb c b'Z')
    || (leb b'0' c && leb c b'9')
    || (c == b'.' || c == b'-')

unfoldable pub check_runes : Text → Option Text
check_runes [] = none
check_runes (c ∷ s) =
    let rest = check_runes s in
    if is_domain_rune c then rest else some (codes "invalid domain character")

unfoldable pub validate_domain : Text → Option Text
unfolding check_runes
validate_domain domain =
    let d = trim_space domain in
    if is_empty d
    then some (codes "empty domain")
    else if ltb 253 (byte_length d)
    then some (codes "domain too long")
    else check_runes d

abbrev unsafe_in_path : Text
unsafe_in_path = codes ";\n\r`\"'$\\"

unfoldable pub validate_linux_path : Text → Option Text
validate_linux_path path =
    let p = trim_space path in
    if is_empty p
    then some (codes "empty path")
    else if not (is_abs p)
    then some (codes "path must be absolute")
    else if contains_any p unsafe_in_path
    then some (codes "invalid path characters")
    else none
