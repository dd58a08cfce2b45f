-- ===== src/NginxRuntime/Render/Semicolons.antt =====
-- The semicolons of a text, and the texts that the validators let through without one.
use releasepanel_agent.Base.{
  ℕ, suc, ◌+◌, ◌≡◌, refl, sym, ◌∙◌, arith, false, none, [], ◌∷◌, ◌++◌, ◌==◌, if◌then◌else◌,
}
use releasepanel_agent.Text.{Text, codes, is_space, trim_left, trim_right, trim_space, contains_any}
use releasepanel_agent.NginxRuntime.WebRoot.{
  is_domain_rune, check_runes, validate_domain, validate_linux_path,
}
use releasepanel_agent.NginxRuntime.Render.{validate_fastcgi_pass}

-- The semicolons of a text.
unfoldable pub semicolons : Text → ℕ
semicolons [] = 0
semicolons (c ∷ s) = let rest = semicolons s in if c == b';' then suc rest else rest

pub semicolons-append : (s t : Text) → semicolons (s ++ t) ≡ semicolons s + semicolons t
unfolding semicolons
semicolons-append [] t = omega arith
semicolons-append (c ∷ s) t = ground (arith, semicolons-append s t)

semicolons-trim_left : (s : Text) → semicolons (trim_left is_space s) ≡ semicolons s
unfolding semicolons trim_left is_space
semicolons-trim_left [] = refl
semicolons-trim_left (c ∷ s) = ground (arith, semicolons-trim_left s)

semicolons-trim_right : (s : Text) → semicolons (trim_right is_space s) ≡ semicolons s
unfolding semicolons trim_right is_space
semicolons-trim_right [] = refl
semicolons-trim_right (c ∷ s) = ground (arith, semicolons-trim_right s)

-- Trimming removes none.
semicolons-trim_space : (s : Text) → semicolons (trim_space s) ≡ semicolons s
unfolding trim_space
semicolons-trim_space s = semicolons-trim_right (trim_left is_space s) ∙ semicolons-trim_left s

semicolons-check_runes : (s : Text) → check_runes s ≡ none → semicolons s ≡ 0
unfolding semicolons check_runes is_domain_rune
semicolons-check_runes [] h = refl
semicolons-check_runes (c ∷ s) h = ground (arith, semicolons-check_runes s)

semicolons-contains_any :
    (chars s : Text) → contains_any s (b';' ∷ chars) ≡ false → semicolons s ≡ 0
unfolding semicolons contains_any
semicolons-contains_any chars [] h = refl
semicolons-contains_any chars (c ∷ s) h = ground (arith, semicolons-contains_any chars s)

pub semicolons-validate_domain : (d : Text) → validate_domain d ≡ none → semicolons d ≡ 0
unfolding validate_domain
semicolons-validate_domain d h =
    sym (semicolons-trim_space d) ∙ semicolons-check_runes (trim_space d) (ground arith)

pub semicolons-validate_linux_path : (p : Text) → validate_linux_path p ≡ none → semicolons p ≡ 0
unfolding validate_linux_path
semicolons-validate_linux_path p h =
    sym (semicolons-trim_space p)
    ∙ semicolons-contains_any (codes "\n\r`\"'$\\") (trim_space p) (ground arith)

pub semicolons-validate_fastcgi_pass :
    (pass : Text) → validate_fastcgi_pass pass ≡ none → semicolons pass ≡ 0
unfolding validate_fastcgi_pass semicolons
semicolons-validate_fastcgi_pass [] h = refl
semicolons-validate_fastcgi_pass (c ∷ s) h =
    semicolons-contains_any (codes "\n\r`\"'\\") (c ∷ s) (ground arith)
