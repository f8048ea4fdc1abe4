-- ===== src/Actions/Auth.antt =====
-- solx-actions/src/auth.rs: the authorization of a webhook, and the requests for tokens that it sends.
-- The cache of tokens is read as it stands; keyring, secret store and the signature of a service
-- account's assertion are parameters. What becomes of a rotated refresh token and of the cache shows
-- in later runs only, and is left out but for the hand-over of the token.
use solx_core.Prelude.{
  Bool, true, false, not, ◌&&◌, ◌||◌, List, [], ◌∷◌, ◌++◌, Option, none, some, if◌then◌else◌,
  is_some, ℕ, Text, codes, text_eq, ok, err, ◌>>=◌,
}
use solx_core.Json.{Value, null, bool, number, string, array, object, get_key}
use solx_core.Surface.Error.{exec, Fallible}
use solx_core.Actions.Effects.{
  form, Request, Effect, sent, persisted, Run, World, failed, returned, did, try_, then_, as_str,
  or_value,
}

abbrev pub token_timeout_secs : ℕ
token_timeout_secs = 30

abbrev pub bearer : Text → Text
bearer token = codes "Bearer " ++ token

abbrev pub or_error : {A : Type 0} → Option A → Fallible A
or_error none = err exec
or_error (some a) = ok a

abbrev pub filled : Option Text → Option Text
filled none = none
filled (some []) = none
filled (some (c ∷ s)) = some (c ∷ s)

-- What a token endpoint answers with.
pub record RefreshResponse : Type 0 where
  pub access_token : Text
  pub refresh_token : Option Text

module _ {N : Type 0} (w : World N) where
  abbrev pub pointed : Text → Value N → Fallible Text
  pointed name action_config = do
    secrets ← or_error (get_key (codes "secrets") action_config)
    key ← or_error (as_str (get_key name secrets))
    value ← w.get_secret name key
    or_error (filled value)

  abbrev pub from_pointer : Value N → Option Text → Fallible Text
  from_pointer action_config none = err exec
  from_pointer action_config (some name) = pointed name action_config

  abbrev pub pointer_of : Value N → Text → Option Text
  pointer_of auth f = filled (as_str (get_key (f ++ codes "_secret") auth))

  abbrev pub from_inline : Value N → Value N → Text → Option (Value N) → Fallible Text
  from_inline action_config auth f (some (string (c ∷ s))) = ok (c ∷ s)
  from_inline action_config auth f (some (object fs)) = w.resolve_in_field f (object fs)
  from_inline action_config auth f (some (bool b)) = err exec
  from_inline action_config auth f (some (number n)) = err exec
  from_inline action_config auth f (some (array vs)) = err exec
  from_inline action_config auth f _ = from_pointer action_config (pointer_of auth f)

  -- Every caller names the pointer after the field.
  unfoldable pub secret_field : Value N → Value N → Text → Fallible Text
  secret_field action_config auth f = from_inline action_config auth f (get_key f auth)

  unfoldable pub optional_secret_field : Value N → Value N → Text → Fallible (Option Text)
  optional_secret_field action_config auth f =
      if not (is_some (get_key f auth)) && not (is_some (pointer_of auth f))
      then ok none
      else (secret_field action_config auth f >>= λ s. ok (some s))

  abbrev pub require_inline_string : Value N → Text → Fallible Text
  require_inline_string auth f = or_error (filled (as_str (get_key f auth)))

  abbrev pub optional_text : Option (Value N) → Fallible (Option Text)
  optional_text none = ok none
  optional_text (some null) = ok none
  optional_text (some (string s)) = ok (some s)
  optional_text (some _) = err exec

  -- `expires_in`, an `Option<u64>`, is only checked.
  abbrev pub check_expiry : Option (Value N) → Fallible (Unit {0})
  check_expiry none = ok tt
  check_expiry (some null) = ok tt
  check_expiry (some (number n)) = if is_some (w.as_u64 n) then ok tt else err exec
  check_expiry (some _) = err exec

  abbrev pub token_of : Value N → Fallible RefreshResponse
  token_of v = do
    access_token ← or_error (as_str (get_key (codes "access_token") v))
    u ← check_expiry (get_key (codes "expires_in") v)
    refresh_token ← optional_text (get_key (codes "refresh_token") v)
    ok (record { access_token = access_token; refresh_token = refresh_token })

  abbrev pub token_response : Option (Bool × Text) → Fallible RefreshResponse
  token_response none = err exec
  token_response (some (false, text)) = err exec
  token_response (some (true, text)) = or_error (w.read_json text) >>= token_of

  abbrev pub post_form : Text → List (Text × Text) → Run N RefreshResponse
  post_form token_uri fields =
      let req : Request N = record {
        url = token_uri;
        body = form fields;
        headers = [];
        timeout = token_timeout_secs;
      } in
      record { result = token_response (w.send req); trace = sent req ∷ [] }

  abbrev pub is_off : Option (Value N) → Bool
  is_off (some (bool false)) = true
  is_off _ = false

  -- A refresh token that differs from the one sent is handed over to be kept.
  abbrev pub handed_over : Text → Text → Value N → Text → Option Text → List (Effect N)
  handed_over path name auth sent_token none = []
  handed_over path name auth sent_token (some token) =
      if text_eq token sent_token || is_off (get_key (codes "persist_rotated_refresh") auth)
      then []
      else persisted path name token ∷ []

  abbrev pub refreshed : Text → Text → Value N → Text → RefreshResponse → Run N (Option Text)
  refreshed path name auth sent_token r =
      did (handed_over path name auth sent_token (filled r.refresh_token))
        (returned (some (bearer r.access_token)))

  abbrev pub refresh_form : Text → Text → Text → List (Text × Text)
  refresh_form client_id client_secret refresh_token =
      (codes "grant_type", codes "refresh_token")
      ∷ (codes "client_id", client_id)
      ∷ (codes "client_secret", client_secret)
      ∷ (codes "refresh_token", refresh_token)
      ∷ []

  abbrev pub post_refresh : Text → Text → Value N → Text → Text → Text → Text → Run N (Option Text)
  post_refresh path name auth client_id client_secret refresh_token token_uri =
      then_ (post_form token_uri (refresh_form client_id client_secret refresh_token))
        (refreshed path name auth refresh_token)

  unfoldable pub exchange_refresh_token : Text → Text → Value N → Value N → Run N (Option Text)
  exchange_refresh_token path name action_config auth =
      try_ (secret_field action_config auth (codes "client_id")) λ client_id.
        try_ (secret_field action_config auth (codes "client_secret")) λ client_secret.
          try_ (secret_field action_config auth (codes "refresh_token")) λ refresh_token.
            try_ (require_inline_string auth (codes "token_uri")) λ token_uri.
              post_refresh path name auth client_id client_secret refresh_token token_uri

  abbrev pub granted_token : RefreshResponse → Run N (Option Text)
  granted_token r = returned (some (bearer r.access_token))

  abbrev pub post_assertion : Text → Text → Run N (Option Text)
  post_assertion token_uri assertion =
      then_
        (post_form token_uri (
          (codes "grant_type", codes "urn:ietf:params:oauth:grant-type:jwt-bearer")
          ∷ (codes "assertion", assertion)
          ∷ []))
        granted_token

  unfoldable pub exchange_service_account_token : Value N → Value N → Run N (Option Text)
  exchange_service_account_token action_config auth =
      try_ (require_inline_string auth (codes "client_email")) λ client_email.
        try_ (secret_field action_config auth (codes "private_key")) λ private_key.
          try_ (require_inline_string auth (codes "token_uri")) λ token_uri.
            try_
              (w.sign client_email (or_value [] (as_str (get_key (codes "scope") auth))) token_uri
                private_key)
              λ assertion. post_assertion token_uri assertion

  abbrev pub resolve_type : Text → Text → Value N → Value N → Text → Run N (Option Text)
  resolve_type path name action_config auth type =
      if text_eq type (codes "bearer")
      then (try_ (secret_field action_config auth (codes "token"))
          λ token. returned (some (bearer token)))
      else if text_eq type (codes "oauth_refresh")
      then exchange_refresh_token path name action_config auth
      else if text_eq type (codes "oauth_service_account")
      then exchange_service_account_token action_config auth
      else if text_eq type (codes "oauth_authorization_code")
      then returned none
      else failed exec

  abbrev pub resolve_cached :
      Text → Text → Value N → Value N → Text → Option Text → Run N (Option Text)
  resolve_cached path name action_config auth type (some token) = returned (some (bearer token))
  resolve_cached path name action_config auth type none =
      resolve_type path name action_config auth type

  abbrev pub resolve_with : Text → Text → Value N → Option (Value N) → Run N (Option Text)
  resolve_with path name action_config none = returned none
  resolve_with path name action_config (some auth) =
      try_ (or_error (as_str (get_key (codes "type") auth)))
        λ type. resolve_cached path name action_config auth type (w.cached path name)

  unfoldable pub resolve_auth : Text → Text → Value N → Run N (Option Text)
  resolve_auth path name action_config =
      resolve_with path name action_config (get_key (codes "auth") action_config)
