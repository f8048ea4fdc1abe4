-- ===== src/Actions/Net/Origin.antt =====
-- What an entry of the allowlist that admits a URL has in common with it.
use solx_core.Prelude.{
  ℕ, zero, suc, ◌+◌, Bool, true, false, ◌&&◌, ◌||◌, [], ◌∷◌, ◌++◌, Option, none, some, take, drop,
  ◌==◌, Text, codes, text_eq, text_eq_iff, ◌≡◌, refl, ap, ap₂, sym, ◌∙◌, ◌⊎◌, inl, inr, arith,
  Bool-cases, ==_iff,
}
use solx_core.Actions.Net.{
  UrlLib, starts_with, find_text, authority_length, strip_colon, port_eq, same_host, admits_from,
  admits_at, prefix_admits,
}

take-append-drop : (n : ℕ) (xs : Text) → take n xs ++ drop n xs ≡ xs
take-append-drop zero xs = refl
take-append-drop (suc n) [] = refl
take-append-drop (suc n) (x ∷ xs) = ap (◌∷◌ x) (take-append-drop n xs)

starts_with_sound : (s p : Text) → starts_with s p ≡ true → (rest : Text) × (s ≡ p ++ rest)
unfolding starts_with
starts_with_sound s [] h = (s, refl)
starts_with_sound [] (p ∷ ps) h = cc
starts_with_sound (c ∷ s) (p ∷ ps) h =
    let (rest, e) = starts_with_sound s ps (ground arith) in
    (rest, ap₂ ◌∷◌ ((==_iff c p).0 (ground arith)) e)

abbrev pub with_colon : Bool → Text → Text
with_colon true s = s ++ codes ":"
with_colon false s = s

cons-with_colon : (b : Bool) (c : ℕ) (s : Text) → c ∷ with_colon b s ≡ with_colon b (c ∷ s)
cons-with_colon true c s = refl
cons-with_colon false c s = refl

strip_colon_sound : (s : Text) → s ≡ with_colon (strip_colon s).1 (strip_colon s).0
unfolding strip_colon
strip_colon_sound [] = refl
strip_colon_sound (c ∷ []) = elim (Bool-cases (c == b':')) [
  | inl e ↦ rw e (ap (λ d. d ∷ []) ((==_iff c b':').0 e))
  | inr e ↦ rw e
]
strip_colon_sound (c ∷ d ∷ s) =
    ap (◌∷◌ c) (strip_colon_sound (d ∷ s))
    ∙ cons-with_colon (strip_colon (d ∷ s)).1 c (strip_colon (d ∷ s)).0

port_eq_sound : (a b : Option ℕ) → port_eq a b ≡ true → a ≡ b
port_eq_sound none none h = refl
port_eq_sound (some p) (some q) h = ap some ((==_iff p q).0 h)
port_eq_sound none (some q) h = cc
port_eq_sound (some p) none h = cc

and_parts :
    (a b c d : Bool) → (a && b && c && d) ≡ true → (a ≡ true) × (b ≡ true) × (c ≡ true) × (d ≡ true)
and_parts a b c d h = ground arith

or_parts : (a b : Bool) → (a || b) ≡ true → (a ≡ true) ⊎ (b ≡ true)
or_parts a b h = ground arith

module _ (lib : UrlLib) where
  open lib use {Url, Host, parse, scheme, host, host_eq, host_eq_iff, port, before_path}

  -- The entry is an origin, with a colon behind it if any port is allowed, and a path. The URL has
  -- the origin's scheme, host and, without the colon, port, and its path starts with the entry's.
  pub record IsAdmitted (entry : Text) (url : Url) : Type 0 where
    pub origin : Text
    pub any_port : Bool
    pub path : Text
    pub base : Url
    pub entry_eq : entry ≡ with_colon any_port origin ++ path
    pub parsed : parse origin ≡ some base
    pub same_scheme : scheme base ≡ scheme url
    pub shared_host : Host
    pub base_host : host base ≡ some shared_host
    pub url_host : host url ≡ some shared_host
    pub same_port : (any_port ≡ true) ⊎ (port base ≡ port url)
    pub rest : Text
    pub same_path : before_path url ≡ path ++ rest

  same_host_sound :
      (a b : Option Host) → same_host lib a b ≡ true → (h : Host) × (a ≡ some h) × (b ≡ some h)
  same_host_sound (some a) (some b) e = (b, ap some ((host_eq_iff a b).0 e), refl)
  same_host_sound none b e = cc
  same_host_sound (some a) none e = cc

  admits_from_sound :
      (entry origin path : Text) (any_port : Bool) (url : Url) (base : Option Url)
      → entry ≡ with_colon any_port origin ++ path
      → parse origin ≡ base
      → admits_from lib any_port path url base ≡ true
      → IsAdmitted entry url
  admits_from_sound entry origin path any_port url none e p h = cc
  admits_from_sound entry origin path any_port url (some base) e p h =
      let (s, t, q, w) =
        and_parts (text_eq (scheme base) (scheme url)) (same_host lib (host base) (host url))
          (any_port || port_eq (port base) (port url)) (starts_with (before_path url) path) h in
      let (shared, on_base, on_url) = same_host_sound (host base) (host url) t in
      let (rest, r) = starts_with_sound (before_path url) path w in
      record {
        origin = origin;
        any_port = any_port;
        path = path;
        base = base;
        entry_eq = e;
        parsed = p;
        same_scheme = (text_eq_iff (scheme base) (scheme url)).0 s;
        shared_host = shared;
        base_host = on_base;
        url_host = on_url;
        same_port = elim (or_parts any_port (port_eq (port base) (port url)) q) [
          | inl a ↦ inl a
          | inr b ↦ inr (port_eq_sound (port base) (port url) b)
        ];
        rest = rest;
        same_path = r;
      }

  admits_at_sound :
      (entry : Text) (url : Url) (found : Option ℕ)
      → admits_at lib entry url found ≡ true
      → IsAdmitted entry url
  admits_at_sound entry url none h = cc
  admits_at_sound entry url (some i) h =
      let n = i + 3 + authority_length (drop (i + 3) entry) in
      let (origin, any_port) = strip_colon (take n entry) in
      admits_from_sound entry origin (drop n entry) any_port url (parse origin)
        (sym (take-append-drop n entry)
          ∙ ap (λ t. t ++ drop n entry) (strip_colon_sound (take n entry)))
        refl h

  -- An entry admits a URL only with the same scheme, the same host and, unless it ends its origin
  -- in a colon, the same port, and only below its path.
  pub prefix_admits-IsAdmitted :
      (entry : Text) (url : Url) → prefix_admits lib entry url ≡ true → IsAdmitted entry url
  unfolding prefix_admits
  prefix_admits-IsAdmitted entry url h = admits_at_sound entry url (find_text (codes "://") entry) h
