-- ===== src/Actions/Dispatch/Allowed.antt =====
-- What an execution may do, and the requests for tokens among it.
use solx_core.Prelude.{
  List, Option, none, some, All, All-append, Text, codes, ok, err, ◌≡◌, refl, inl, inr, ◌⊎◌, ◌||◌,
  ap, ◌∙◌, [], ◌∷◌, text_eq, text_eq_iff, Option-cases, ok-injective, Bool-cases,
}
use solx_core.Json.{Value, get_key}
use solx_core.Surface.Error.{Fallible}
use solx_core.Actions.Net.{UrlLib}
use solx_core.Actions.Net.Gate.{IsPermitted}
use solx_core.Actions.Rows.{Row, ActionEntity}
use solx_core.Actions.Store.{get_unmasked}
use solx_core.Actions.Effects.{
  Shell, Effect, spawned, sent, printed, persisted, then_, Run, World, try_, as_str,
}
use solx_core.Config.Registry.{CommandDef, find_command}
use solx_core.Actions.Auth.{
  filled, or_error, secret_field, require_inline_string, post_form, is_off, handed_over, refreshed,
  refresh_form, granted_token, exchange_refresh_token, exchange_service_account_token, resolve_type,
  resolve_auth,
}
use solx_core.Actions.Dispatch.{Settings}

-- The token endpoint that a configuration names for a grant of the resolver.
pub record IsTokenUri {N : Type 0} (cfg : Option (Value N)) (url : Text) : Type 0 where
  pub config : Value N
  pub auth : Value N
  pub configured : cfg ≡ some config
  pub block : get_key (codes "auth") config ≡ some auth
  pub grant :
      (as_str (get_key (codes "type") auth) ≡ some (codes "oauth_refresh"))
      ⊎ (as_str (get_key (codes "type") auth) ≡ some (codes "oauth_service_account"))
  pub endpoint : as_str (get_key (codes "token_uri") auth) ≡ some url

-- An action of the table has it.
abbrev pub IsStoredTokenUri : {N : Type 0} → List (Row N) → Text → Type 0
IsStoredTokenUri {N} actions url =
    (path : Text) × (name : Text) × (a : ActionEntity N) × (get_unmasked path name actions ≡ ok a)
    × IsTokenUri a.action_config url

-- `T` is what may be posted to for a token.
module _ {N : Type 0} (lib : UrlLib) (settings : Settings N) (T : Text → Type 0) where
  -- The shell runs the command of an entry of the configuration, in the directory that it names.
  pub record IsListed (sh : Shell N) : Type 0 where
    pub key : Text
    pub def : CommandDef
    pub listed : find_command key settings.commands ≡ some def
    pub same_command : sh.command ≡ def.command
    pub same_cwd : (c : Text) → def.cwd ≡ some c → sh.cwd ≡ c

  abbrev pub IsAllowed : Effect N → Type 0
  IsAllowed (spawned sh) = IsListed sh
  IsAllowed (sent req) =
      ((url : lib.Url) × (lib.parse req.url ≡ some url) × IsPermitted lib settings.allowlist url)
      ⊎ T req.url
  IsAllowed (persisted path name token) = Unit
  IsAllowed (printed level message) = Unit

  abbrev pub AllAllowed : List (Effect N) → Type 0
  AllAllowed es = All IsAllowed es

  -- A step that may fail, and what follows it.
  pub try_-AllAllowed :
      {A B : Type 0} (o : Fallible B) (next : B → Run N A)
      → ((b : B) → o ≡ ok b → AllAllowed (next b).trace)
      → AllAllowed (try_ o next).trace
  try_-AllAllowed (ok b) next h = h b refl
  try_-AllAllowed (err e) next h = tt

  pub then_-AllAllowed :
      {A B : Type 0} (r : Run N B) (next : B → Run N A)
      → AllAllowed r.trace
      → ((b : B) → AllAllowed (next b).trace)
      → AllAllowed (then_ r next).trace
  then_-AllAllowed r next h k =
      All-append IsAllowed r.trace (try_ r.result next).trace h
        (try_-AllAllowed r.result next (λ b _. k b))

  handed_over-AllAllowed :
      (w : World N) (path name : Text) (auth : Value N) (old : Text) (o : Option Text)
      → AllAllowed (handed_over w path name auth old o)
  handed_over-AllAllowed w path name auth old none = tt
  handed_over-AllAllowed w path name auth old (some token) =
      elim (Bool-cases
        (text_eq token old || is_off w (get_key (codes "persist_rotated_refresh") auth))) [
          | inl e ↦ rw e tt
          | inr e ↦ rw e (tt, tt)
        ]

  or_error-endpoint : (o : Option Text) (url : Text) → or_error (filled o) ≡ ok url → o ≡ some url
  or_error-endpoint none url h = cc
  or_error-endpoint (some []) url h = cc
  or_error-endpoint (some (c ∷ s)) url h = ap some (ok-injective h)

  -- The requests of the resolver go to the token endpoint of the configuration.
  module _ (w : World N) (path name : Text) (cfg : Value N)
      (own : (url : Text) → IsTokenUri (some cfg) url → T url) where
    post_form-AllAllowed :
        (url : Text) (fields : List (Text × Text))
        → T url
        → AllAllowed (post_form w url fields).trace
    post_form-AllAllowed url fields t = (inr t, tt)

    refresh-AllAllowed :
        (auth : Value N)
        → ((url : Text) → as_str (get_key (codes "token_uri") auth) ≡ some url → T url)
        → AllAllowed (exchange_refresh_token w path name cfg auth).trace
    unfolding exchange_refresh_token
    refresh-AllAllowed auth ours =
        try_-AllAllowed (secret_field w cfg auth (codes "client_id")) _ (λ id _.
          try_-AllAllowed (secret_field w cfg auth (codes "client_secret")) _ (λ secret _.
            try_-AllAllowed (secret_field w cfg auth (codes "refresh_token")) _ (λ token _.
              try_-AllAllowed (require_inline_string w auth (codes "token_uri")) _ (λ url e.
                then_-AllAllowed (post_form w url (refresh_form w id secret token))
                  (refreshed w path name auth token)
                  (post_form-AllAllowed url [] (ours url (or_error-endpoint _ url e)))
                  (λ r.
                    All-append IsAllowed _ [] (handed_over-AllAllowed w path name auth token _)
                      tt)))))

    account-AllAllowed :
        (auth : Value N)
        → ((url : Text) → as_str (get_key (codes "token_uri") auth) ≡ some url → T url)
        → AllAllowed (exchange_service_account_token w cfg auth).trace
    unfolding exchange_service_account_token
    account-AllAllowed auth ours =
        try_-AllAllowed (require_inline_string w auth (codes "client_email")) _ (λ email _.
          try_-AllAllowed (secret_field w cfg auth (codes "private_key")) _ (λ key _.
            try_-AllAllowed (require_inline_string w auth (codes "token_uri")) _ (λ url e.
              try_-AllAllowed (w.sign email _ url key) _ (λ assertion _.
                then_-AllAllowed (post_form w url _) (granted_token w)
                  (post_form-AllAllowed url [] (ours url (or_error-endpoint _ url e))) (λ r. tt)))))

    type-AllAllowed :
        (auth : Value N) (type : Text)
        → get_key (codes "auth") cfg ≡ some auth
        → as_str (get_key (codes "type") auth) ≡ some type
        → AllAllowed (resolve_type w path name cfg auth type).trace
    type-AllAllowed auth type block typed = elim (Bool-cases (text_eq type (codes "bearer"))) [
      | inl e ↦ rw e (try_-AllAllowed (secret_field w cfg auth (codes "token")) _ (λ t _. tt))
      | inr e ↦ elim (Bool-cases (text_eq type (codes "oauth_refresh"))) [
        | inl f ↦
            rw (e, f)
              (refresh-AllAllowed auth (λ url at. own url (record {
                config = cfg;
                auth = auth;
                configured = refl;
                block = block;
                grant = inl (typed ∙ ap some ((text_eq_iff type (codes "oauth_refresh")).0 f));
                endpoint = at;
              })))
        | inr f ↦ elim (Bool-cases (text_eq type (codes "oauth_service_account"))) [
          | inl g ↦
              rw (e, f, g)
                (account-AllAllowed auth (λ url at. own url (record {
                  config = cfg;
                  auth = auth;
                  configured = refl;
                  block = block;
                  grant =
                      inr
                        (typed ∙ ap some ((text_eq_iff type (codes "oauth_service_account")).0 g));
                  endpoint = at;
                })))
          | inr g ↦ elim (Bool-cases (text_eq type (codes "oauth_authorization_code"))) [
            | inl h ↦ rw (e, f, g, h) tt
            | inr h ↦ rw (e, f, g, h) tt
          ]
        ]
      ]
    ]

    pub resolve-AllAllowed : AllAllowed (resolve_auth w path name cfg).trace
    unfolding resolve_auth
    resolve-AllAllowed = elim (Option-cases (get_key (codes "auth") cfg)) [
      | inl e ↦ rw e tt
      | inr (auth, e) ↦ rw e (elim (Option-cases (as_str (get_key (codes "type") auth))) [
        | inl f ↦ rw f tt
        | inr (type, f) ↦ rw f (elim (Option-cases (w.cached path name)) [
          | inl g ↦ rw g (type-AllAllowed auth type e f)
          | inr (token, g) ↦ rw g tt
        ])
      ])
    ]
