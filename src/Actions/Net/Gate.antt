-- ===== src/Actions/Net/Gate.antt =====
-- The gate and the redirect policy: nothing passes but what an entry of the allowlist admits.
use solx_core.Prelude.{
  ℕ, suc, ◌+◌, ◌≤◌, Bool, true, ◌&&◌, List, [], ◌∷◌, ◌++◌, Option, none, some, All, length, Text,
  codes, text_eq, text_eq_iff, ok, err, ◌≡◌, refl, sym, ap, ◌⊎◌, inl, inr, arith, Bool-cases,
}
use solx_core.Surface.Error.{exec}
use solx_core.Actions.Net.{
  UrlLib, max_redirects, prefix_admits, is_allowed, scheme_allowed, check_parsed,
  check_outbound_url, redirect_policy,
}
use solx_core.Actions.Net.Origin.{IsAdmitted, prefix_admits-IsAdmitted}

module _ (lib : UrlLib) where
  open lib use {Url, parse, scheme}

  -- The URL is http or https, and some entry of the list admits it.
  pub record IsPermitted (allowlist : List Text) (url : Url) : Type 0 where
    pub web_scheme : (scheme url ≡ codes "http") ⊎ (scheme url ≡ codes "https")
    pub before : List Text
    pub entry : Text
    pub behind : List Text
    pub listed : allowlist ≡ before ++ entry ∷ behind
    pub admitted : IsAdmitted lib entry url

  web_scheme_of :
      (url : Url)
      → scheme_allowed lib url ≡ true
      → (scheme url ≡ codes "http") ⊎ (scheme url ≡ codes "https")
  unfolding scheme_allowed
  web_scheme_of url h = elim (Bool-cases (text_eq (codes "http") (scheme url))) [
    | inl e ↦ inl (sym ((text_eq_iff (codes "http") (scheme url)).0 e))
    | inr e ↦ inr (sym ((text_eq_iff (codes "https") (scheme url)).0 (ground arith)))
  ]

  IsPermitted-of :
      (allowlist : List Text) (url : Url)
      → scheme_allowed lib url ≡ true
      → is_allowed lib allowlist url ≡ true
      → IsPermitted allowlist url
  unfolding is_allowed
  IsPermitted-of [] url s h = cc
  IsPermitted-of (entry ∷ entries) url s h = elim (Bool-cases (prefix_admits lib entry url)) [
    | inl e ↦ record {
      web_scheme = web_scheme_of url s;
      before = [];
      entry = entry;
      behind = entries;
      listed = refl;
      admitted = prefix_admits-IsAdmitted lib entry url e;
    }
    | inr e ↦
        let p = IsPermitted-of entries url s (rw e at h) in
        record {
          web_scheme = p.web_scheme;
          before = entry ∷ p.before;
          entry = p.entry;
          behind = p.behind;
          listed = ap (◌∷◌ entry) p.listed;
          admitted = p.admitted;
        }
  ]

  -- A URL passes the gate only if it parses, is http or https, and is admitted by an entry.
  pub check_outbound_url-IsPermitted :
      (allowlist : List Text) (url : Text)
      → check_outbound_url lib allowlist url ≡ ok tt
      → (parsed : Url) × (parse url ≡ some parsed) × IsPermitted allowlist parsed
  unfolding check_outbound_url
  check_outbound_url-IsPermitted allowlist url h = at (parse url) refl h
    where
      at :
          (o : Option Url)
          → parse url ≡ o
          → check_parsed lib allowlist o ≡ ok tt
          → (parsed : Url) × (parse url ≡ some parsed) × IsPermitted allowlist parsed
      at none e k = cc
      at (some u) e k = (u, e, IsPermitted-of allowlist u (ground arith) (ground arith))

  -- Without an entry every URL is refused.
  pub check_outbound_url-nil : (url : Text) → check_outbound_url lib [] url ≡ err exec
  unfolding check_outbound_url is_allowed
  check_outbound_url-nil url = ground arith

  -- The redirects that are followed one after the other, `previous` being the number of URLs
  -- requested before the first of them.
  unfoldable pub follows : List Text → ℕ → List Url → Bool
  follows allowlist previous [] = true
  follows allowlist previous (url ∷ urls) =
      redirect_policy lib allowlist previous url && follows allowlist (suc previous) urls

  -- With at most ten URLs requested before, every URL of a chain of redirects that are all followed
  -- is permitted by the same allowlist, and no more than ten URLs are requested in all.
  pub follows-IsPermitted :
      (allowlist : List Text) (previous : ℕ) (urls : List Url)
      → previous ≤ max_redirects
      → follows allowlist previous urls ≡ true
      → All (IsPermitted allowlist) urls × (previous + length urls ≤ max_redirects)
  unfolding follows redirect_policy
  follows-IsPermitted allowlist previous [] le h = (tt, omega arith)
  follows-IsPermitted allowlist previous (url ∷ urls) le h =
      let (rest, n) =
        follows-IsPermitted allowlist (suc previous) urls (ground arith) (ground arith) in
      ((IsPermitted-of allowlist url (ground arith) (ground arith), rest), omega arith)
