-- ===== src/Actions/Net.antt =====
-- solx-actions/src/net.rs: the gate that every outbound URL passes. URLs are parsed by the crate
-- `url`, which is a parameter; the allowlist is the list that the configuration holds.
pub mod Origin
pub mod Gate
pub mod Tests
use solx_core.Prelude.{
  ℕ, suc, ◌+◌, Bool, true, false, ◌&&◌, ◌||◌, List, [], ◌∷◌, Option, none, some, if◌then◌else◌, any,
  length, is_empty, take, drop, leb, ◌==◌, Text, codes, text_eq, ok, err, ◌↔◌, ◌≡◌,
}
use solx_core.Surface.Error.{Fallible, exec}

-- The parts of `url::Url` that the gate reads. `port` is none for the scheme's default port, and
-- `before_path` is the text from the path on.
pub record UrlLib : Type 1 where
  pub Url : Type 0
  pub Host : Type 0
  pub parse : Text → Option Url
  pub scheme : Url → Text
  pub host : Url → Option Host
  pub host_eq : Host → Host → Bool
  pub host_eq_iff : (a b : Host) → (host_eq a b ≡ true) ↔ (a ≡ b)
  pub port : Url → Option ℕ
  pub before_path : Url → Text

abbrev pub allowed_schemes : List Text
allowed_schemes = codes "http" ∷ codes "https" ∷ []

abbrev pub max_redirects : ℕ
max_redirects = 10

unfoldable pub starts_with : Text → Text → Bool
starts_with s [] = true
starts_with [] (p ∷ ps) = false
starts_with (c ∷ s) (p ∷ ps) = c == p && starts_with s ps

abbrev pub shift : Option ℕ → Option ℕ
shift none = none
shift (some i) = some (suc i)

-- `str::find` of a text.
unfoldable pub find_text : Text → Text → Option ℕ
find_text pattern [] = if is_empty pattern then some 0 else none
find_text pattern (c ∷ s) =
    let rest = shift (find_text pattern s) in if starts_with (c ∷ s) pattern then some 0 else rest

abbrev pub ends_authority : ℕ → Bool
ends_authority c = c == b'/' || c == b'?' || c == b'#'

-- `str::find` of a set of characters, and the whole length where there is none.
unfoldable pub authority_length : Text → ℕ
authority_length [] = 0
authority_length (c ∷ s) = if ends_authority c then 0 else suc (authority_length s)

-- `str::strip_suffix` of a colon, with the flag that it was there.
unfoldable pub strip_colon : Text → Text × Bool
strip_colon [] = ([], false)
strip_colon (c ∷ []) = if c == b':' then ([], true) else (c ∷ [], false)
strip_colon (c ∷ d ∷ s) = let (rest, any_port) = strip_colon (d ∷ s) in (c ∷ rest, any_port)

abbrev pub port_eq : Option ℕ → Option ℕ → Bool
port_eq none none = true
port_eq (some p) (some q) = p == q
port_eq _ _ = false

module _ (lib : UrlLib) where
  open lib use {Url, Host, parse, scheme, host, host_eq, port, before_path}

  -- `base.host().is_some() && base.host() == url.host()`.
  abbrev pub same_host : Option Host → Option Host → Bool
  same_host (some a) (some b) = host_eq a b
  same_host _ _ = false

  abbrev pub admits_from : Bool → Text → Url → Option Url → Bool
  admits_from any_port path url none = false
  admits_from any_port path url (some base) =
      text_eq (scheme base) (scheme url)
      && same_host (host base) (host url)
      && (any_port || port_eq (port base) (port url))
      && starts_with (before_path url) path

  abbrev pub admits_at : Text → Url → Option ℕ → Bool
  admits_at entry url none = false
  admits_at entry url (some scheme_end) =
      let authority_start = scheme_end + 3 in
      let authority_end = authority_start + authority_length (drop authority_start entry) in
      let (origin, any_port) = strip_colon (take authority_end entry) in
      admits_from any_port (drop authority_end entry) url (parse origin)

  unfoldable pub prefix_admits : Text → Url → Bool
  prefix_admits entry url = admits_at entry url (find_text (codes "://") entry)

  unfoldable pub is_allowed : List Text → Url → Bool
  is_allowed allowlist url = any (λ entry. prefix_admits entry url) allowlist

  unfoldable pub scheme_allowed : Url → Bool
  scheme_allowed url = any (λ s. text_eq s (scheme url)) allowed_schemes

  abbrev pub check_parsed : List Text → Option Url → Fallible (Unit {0})
  check_parsed allowlist none = err exec
  check_parsed allowlist (some url) =
      if scheme_allowed url
      then (if is_allowed allowlist url then ok tt else err exec)
      else err exec

  unfoldable pub check_outbound_url : List Text → Text → Fallible (Unit {0})
  check_outbound_url allowlist url = check_parsed allowlist (parse url)

  -- The policy's answer to one redirect: true for `follow`, false for an error. `previous` is the
  -- number of URLs requested so far.
  unfoldable pub redirect_policy : List Text → ℕ → Url → Bool
  redirect_policy allowlist previous url =
      if leb max_redirects previous
      then false
      else if scheme_allowed url && is_allowed allowlist url
      then true
      else false
