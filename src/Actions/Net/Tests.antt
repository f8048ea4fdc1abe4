-- ===== src/Actions/Net/Tests.antt =====
-- Runs of the gate over a small parser of URLs, and the theorems about it at concrete lists.
use solx_core.Prelude.{
  ℕ, ◌+◌, ◌≤◌, Option, none, some, ◌≡◌, refl, List, [], ◌∷◌, All, length, Text, codes, text_eq,
  text_eq_iff, ok, err, arith, if◌then◌else◌,
}
use solx_core.Surface.Error.{exec}
use solx_core.Actions.Net.{
  UrlLib, max_redirects, starts_with, find_text, authority_length, strip_colon, prefix_admits,
  is_allowed, scheme_allowed, check_outbound_url, redirect_policy,
}
use solx_core.Actions.Net.Gate.{
  IsPermitted, check_outbound_url-IsPermitted, follows, follows-IsPermitted,
}

pub record SmallUrl : Type 0 where
  pub scheme : Text
  pub host : Text
  pub port : Option ℕ
  pub before_path : Text

abbrev pub at_home : Text → SmallUrl
at_home path = record {
  scheme = codes "https";
  host = codes "a.com";
  port = none;
  before_path = path;
}

unfoldable pub small_parse : Text → Option SmallUrl
small_parse t =
    if text_eq t (codes "https://a.com")
    then some (at_home (codes "/"))
    else if text_eq t (codes "https://a.com/v1/x")
    then some (at_home (codes "/v1/x"))
    else if text_eq t (codes "https://a.com.evil.net/")
    then some (record (at_home (codes "/")) { host = codes "a.com.evil.net" })
    else none

abbrev pub small : UrlLib
small = record {
  Url = SmallUrl;
  Host = Text;
  parse = small_parse;
  scheme = λ u. u.scheme;
  host = λ u. some u.host;
  host_eq = text_eq;
  host_eq_iff = text_eq_iff;
  port = λ u. u.port;
  before_path = λ u. u.before_path;
}

unfoldable pub runs : Unit {0}
unfolding starts_with find_text authority_length strip_colon prefix_admits is_allowed scheme_allowed
    check_outbound_url redirect_policy follows small_parse text_eq
runs = tt

abbrev allowlist : List Text
allowlist = codes "https://a.com/v1/" ∷ []

a_listed_prefix_passes :
    (check_outbound_url small allowlist (codes "https://a.com/v1/x") ≡ ok tt)
    × (check_outbound_url small allowlist (codes "https://a.com") ≡ err exec)
    × (check_outbound_url small (codes "https://a.com" ∷ []) (codes "https://a.com.evil.net/")
        ≡ err exec)
unfolding runs
a_listed_prefix_passes = (refl, refl, refl)

check_outbound_url-IsPermitted_example :
    (parsed : SmallUrl) × (small_parse (codes "https://a.com/v1/x") ≡ some parsed)
    × IsPermitted small allowlist parsed
check_outbound_url-IsPermitted_example =
    check_outbound_url-IsPermitted small allowlist (codes "https://a.com/v1/x")
      a_listed_prefix_passes.0

follows-IsPermitted_example :
    All (IsPermitted small allowlist) (at_home (codes "/v1/x") ∷ [])
    × (1 + length (at_home (codes "/v1/x") ∷ []) ≤ max_redirects)
follows-IsPermitted_example =
    follows-IsPermitted small allowlist 1 (at_home (codes "/v1/x") ∷ []) (omega arith)
      (unfold runs in refl)
