-- ===== src/Config/Origin.antt =====
-- internal/urlorigin/origin.go. `url.Parse` is the parameter `parse`.
use releasepanel_agent.Base.{
  ◌≡◌, ◌≢◌, ◌↔◌, ◌⊎◌, inl, inr, refl, arith, Bool, not, ◌||◌, ◌&&◌, Option, none, some, [], ◌∷◌,
  ◌++◌, ◌==◌, if◌then◌else◌, is_empty, All, Bool-cases, ℕ,
}
use releasepanel_agent.Text.{
  Text, codes, text_eq, text_eq_iff, trim_space, trim_left, trim_right, Unicode,
}
use releasepanel_agent.System.{Result, ok, err}

-- The fields of `url.URL` that are read.
pub record Url : Type 0 where
  pub scheme : Text
  pub host : Text
  pub path : Text
  pub raw_query : Text
  pub fragment : Text

is_slash : ℕ → Bool
is_slash c = c == b'/'

-- `strings.Trim(s, "/")`.
trim_slashes : Text → Text
unfolding is_slash
trim_slashes s = trim_right is_slash (trim_left is_slash s)

check_url : ⦃u : Unicode⦄ → Result Url → Option Text
unfolding trim_slashes
check_url (err e) = some (codes "parse central URL: " ++ e)
check_url ⦃u⦄ (ok url) =
    if not (text_eq url.scheme (codes "http")) && not (text_eq url.scheme (codes "https"))
    then some (codes "central_base_url must use http or https")
    else if is_empty url.host
    then some (codes "central_base_url must include a host")
    else if not (is_empty (trim_slashes url.path))
    then some (
        codes "central_base_url must be origin-only (no path); got path "
        ++ (u.quote url.path
            ++ codes
                " — use https://example.com and route /api/v1 on Central (see docs/CENTRAL_API.md)"))
    else if not (is_empty url.raw_query) || not (is_empty url.fragment)
    then some (codes "central_base_url must not include query or fragment")
    else none

unfoldable pub validate_http_origin : ⦃u : Unicode⦄ → (Text → Result Url) → Text → Option Text
unfolding check_url is_slash
validate_http_origin parse raw = check_url (parse (trim_right is_slash (trim_space raw)))

-- An address of a server and nothing behind it.
pub record IsOrigin (url : Url) : Type 0 where
  pub scheme_known : (url.scheme ≡ codes "http") ⊎ (url.scheme ≡ codes "https")
  pub has_host : url.host ≢ []
  pub only_slashes : All (λ c. c ≡ b'/') url.path
  pub no_query : url.raw_query ≡ []
  pub no_fragment : url.fragment ≡ []

trim_slashes-nil : (s : Text) → trim_slashes s ≡ [] → All (λ c. c ≡ b'/') s
unfolding trim_slashes is_slash trim_left trim_right
trim_slashes-nil [] h = tt
trim_slashes-nil (c ∷ s) h = elim (Bool-cases (c == b'/')) [
  | inl e ↦ (ground arith, trim_slashes-nil s (ground arith))
  | inr e ↦ ground arith
]

trim_slashes-All : (s : Text) → All (λ c. c ≡ b'/') s → trim_slashes s ≡ []
unfolding trim_slashes is_slash trim_left trim_right
trim_slashes-All [] h = refl
trim_slashes-All (c ∷ s) h = ground (arith, trim_slashes-All s h.1)

check_url_iff : ⦃u : Unicode⦄ (url : Url) → (check_url (ok url) ≡ none) ↔ IsOrigin url
unfolding check_url
check_url_iff url = (
  (λ h. record {
    scheme_known =
        ground
          (arith, text_eq_iff url.scheme (codes "http"), text_eq_iff url.scheme (codes "https"));
    has_host = ground arith;
    only_slashes = trim_slashes-nil url.path (ground arith);
    no_query = ground arith;
    no_fragment = ground arith;
  }),
  (λ o. ground (
    arith,
    o.scheme_known,
    o.has_host,
    trim_slashes-All url.path o.only_slashes,
    o.no_query,
    o.no_fragment,
    text_eq_iff url.scheme (codes "http"),
    text_eq_iff url.scheme (codes "https"),
  )),
)

check_url_err : ⦃u : Unicode⦄ (e : Text) → check_url (err e) ≢ none
unfolding check_url
check_url_err e h = ground arith

-- `ValidateHTTPOrigin` accepts exactly the texts that, trimmed of blanks and then of slashes at
-- the end, parse to an origin: http or https, a host, a path of slashes at most, no query and no
-- fragment.
pub validate_http_origin_iff :
    ⦃u : Unicode⦄ (parse : Text → Result Url) (raw : Text)
    → (validate_http_origin parse raw ≡ none) ↔ (
        (url : Url) × (parse (trim_right (λ c. c == b'/') (trim_space raw)) ≡ ok url)
        × IsOrigin url)
unfolding validate_http_origin is_slash
validate_http_origin_iff parse raw = accepted (parse (trim_right (λ c. c == b'/') (trim_space raw)))
  where
    accepted : (r : Result Url) → (check_url r ≡ none) ↔ ((url : Url) × (r ≡ ok url) × IsOrigin url)
    accepted (err e) = ((λ h. absurd (check_url_err e h)), (λ o. ground arith))
    accepted (ok url) = (
      (λ h. (url, refl, (check_url_iff url).0 h)),
      (λ o. ground (arith, o.1, (check_url_iff o.0).1 o.2)),
    )
