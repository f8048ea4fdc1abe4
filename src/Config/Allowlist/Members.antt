-- ===== src/Config/Allowlist/Members.antt =====
-- What the allowlist holds after it is written, added to and removed from.
use solx_core.Prelude.{
  true, false, not, ◌&&◌, ◌||◌, List, [], ◌∷◌, ◌++◌, none, some, if◌then◌else◌, Text, text_eq,
  text_eq_iff, text_eq_refl, ◌≡◌, refl, ap, subst, inl, inr, ◌∙◌, arith, Bool-cases,
}
use solx_core.Json.{array, Fields, lookup}
use solx_core.Json.Laws.{DistinctKeys, DistinctKeys-insert}
use solx_core.Config.Allowlist.{
  key_base_urls, key_base_urls_legacy, has, push_new, union, without, strings_of, strings,
  read_base_urls, write_base_urls, add_allowed_base_url, remove_allowed_base_url,
}
use solx_core.Config.Allowlist.Remove.{lookup-insert, lookup-remove, DistinctKeys-remove}

keys_differ : text_eq key_base_urls_legacy key_base_urls ≡ false
unfolding text_eq
keys_differ = refl

has-append : (q p : Text) (list : List Text) → has q (list ++ p ∷ []) ≡ (text_eq p q || has q list)
has-append q p [] = refl
has-append q p (r ∷ list) = ground (arith, has-append q p list)

has-push_new :
    (q p : Text) (list : List Text) → has q (push_new p list) ≡ (text_eq p q || has q list)
has-push_new q p list = elim (Bool-cases (has p list)) [
  | inl h ↦ elim (Bool-cases (text_eq p q)) [
    | inl e ↦ rw (h, e) (subst (λ x. has x list ≡ true) ((text_eq_iff p q).0 e) h)
    | inr e ↦ rw (h, e) refl
  ]
  | inr h ↦ rw h (has-append q p list)
]

pub has-without :
    (q p : Text) (list : List Text) → has q (without p list) ≡ (not (text_eq p q) && has q list)
unfolding without
has-without q p [] = ground arith
has-without q p (r ∷ list) =
    ground (arith, has-without q p list, text_eq_iff r p, text_eq_iff r q, text_eq_iff p q)

pub strings_of-strings :
    (N : Type 0) (list : List Text) → strings_of {N = N} (strings list) ≡ some list
unfolding strings_of strings
strings_of-strings N [] = refl
strings_of-strings N (p ∷ list) = rw (strings_of-strings N list) refl

module _ {N : Type 0} where
  lookup-write :
      (j : Text) (list : List Text) (obj : Fields N)
      → DistinctKeys obj
      → lookup j (write_base_urls list obj) ≡ (
          if text_eq key_base_urls_legacy j
          then none
          else if text_eq key_base_urls j
          then some (array (strings list))
          else lookup j obj)
  unfolding write_base_urls
  lookup-write j list obj d =
      lookup-remove j key_base_urls_legacy _ (DistinctKeys-insert key_base_urls _ obj d)
      ∙ ap (λ o. if text_eq key_base_urls_legacy j then none else o)
          (lookup-insert j key_base_urls _ obj)

  -- The list that is written to an object without repeated keys is the one that is read back.
  pub read_base_urls-write_base_urls :
      (list : List Text) (obj : Fields N)
      → DistinctKeys obj
      → read_base_urls (write_base_urls list obj) ≡ list
  unfolding read_base_urls union
  read_base_urls-write_base_urls list obj d =
      let current : lookup key_base_urls (write_base_urls list obj) ≡ some (array (strings list)) =
        lookup-write key_base_urls list obj d ∙ rw (keys_differ, text_eq_refl key_base_urls) refl in
      let legacy : lookup key_base_urls_legacy (write_base_urls list obj) ≡ none =
        lookup-write key_base_urls_legacy list obj d
        ∙ rw (text_eq_refl key_base_urls_legacy) refl in
      rw (current, legacy, strings_of-strings N list) refl

  -- In an object without repeated keys, adding a prefix admits this prefix and what was admitted
  -- before under either key, and nothing else; the former key is gone, and every other key is as it
  -- was.
  pub add_allowed_base_url_lem :
      (prefix : Text) (obj : Fields N)
      → DistinctKeys obj
      → ((q : Text)
          → has q (read_base_urls (add_allowed_base_url prefix obj))
            ≡ (text_eq prefix q || has q (read_base_urls obj)))
        × (lookup key_base_urls_legacy (add_allowed_base_url prefix obj) ≡ none)
        × ((j : Text)
            → text_eq key_base_urls j ≡ false
            → text_eq key_base_urls_legacy j ≡ false
            → lookup j (add_allowed_base_url prefix obj) ≡ lookup j obj)
  unfolding add_allowed_base_url
  add_allowed_base_url_lem prefix obj d = (
    λ q.
        ap (has q) (read_base_urls-write_base_urls _ obj d)
        ∙ has-push_new q prefix (read_base_urls obj),
    lookup-write key_base_urls_legacy _ obj d ∙ rw (text_eq_refl key_base_urls_legacy) refl,
    λ j a b. lookup-write j _ obj d ∙ rw (a, b) refl,
  )

  -- In an object without repeated keys, removing a prefix revokes exactly this prefix, under
  -- whichever key it stood; the former key is gone, and every other key is as it was.
  pub remove_allowed_base_url_lem :
      (prefix : Text) (obj : Fields N)
      → DistinctKeys obj
      → ((q : Text)
          → has q (read_base_urls (remove_allowed_base_url prefix obj))
            ≡ (not (text_eq prefix q) && has q (read_base_urls obj)))
        × (lookup key_base_urls_legacy (remove_allowed_base_url prefix obj) ≡ none)
        × ((j : Text)
            → text_eq key_base_urls j ≡ false
            → text_eq key_base_urls_legacy j ≡ false
            → lookup j (remove_allowed_base_url prefix obj) ≡ lookup j obj)
  unfolding remove_allowed_base_url
  remove_allowed_base_url_lem prefix obj d = (
    λ q.
        ap (has q) (read_base_urls-write_base_urls _ obj d)
        ∙ has-without q prefix (read_base_urls obj),
    lookup-write key_base_urls_legacy _ obj d ∙ rw (text_eq_refl key_base_urls_legacy) refl,
    λ j a b. lookup-write j _ obj d ∙ rw (a, b) refl,
  )

  pub write_base_urls-DistinctKeys :
      (list : List Text) (obj : Fields N)
      → DistinctKeys obj
      → DistinctKeys (write_base_urls list obj)
  unfolding write_base_urls
  write_base_urls-DistinctKeys list obj d =
      DistinctKeys-remove key_base_urls_legacy _ (DistinctKeys-insert key_base_urls _ obj d)
