-- ===== src/Actions/Webhook.antt =====
-- solx-actions/src/exec.rs: how a webhook is called.
pub mod Template
use solx_core.Prelude.{
  ℕ, zero, suc, Bool, true, false, ◌&&◌, List, [], ◌∷◌, ◌++◌, Option, none, some, if◌then◌else◌,
  length, drop, ◌==◌, leb, ◌-◌, Text, codes, text_eq, ok, err, ◌>>=◌,
}
use solx_core.Json.{Value, null, bool, number, string, array, object, Fields, end, field, get_key}
use solx_core.Surface.Error.{exec, Fallible}
use solx_core.Config.Allowlist.{remove}
use solx_core.Actions.Net.{UrlLib, starts_with, check_outbound_url}
use solx_core.Actions.Auth.{secret_field, optional_secret_field, resolve_auth}
use solx_core.Actions.Effects.{
  returned, then_, Body, json, query, multipart_related, form, Request, Effect, sent, printed, Run,
  World, default_timeout_secs, or_value, try_, as_str, as_object, config_key, config_str,
  entries_of, or_text,
}
use solx_core.Actions.Webhook.Template.{substitute_path_params}

abbrev pub text_or : Text → Option Text → Text
text_or d none = d
text_or d (some s) = s

abbrev pub upper : ℕ → ℕ
upper c = if leb b'a' c && leb c b'z' then c - 32 else c

-- `eq_ignore_ascii_case`.
unfoldable pub eq_ignore_ascii_case : Text → Text → Bool
eq_ignore_ascii_case [] [] = true
eq_ignore_ascii_case (c ∷ s) (d ∷ t) = upper c == upper d && eq_ignore_ascii_case s t
eq_ignore_ascii_case _ _ = false

abbrev pub is_get : Option Text → Bool
is_get none = false
is_get (some m) = eq_ignore_ascii_case m (codes "GET")

abbrev pub or_exec : {A : Type 0} → Option A → Fallible A
or_exec none = err exec
or_exec (some a) = ok a

abbrev pub if_some : Text → Option Text → List (Text × Text)
if_some k none = []
if_some k (some s) = (k, s) ∷ []

abbrev pub if_filled : Text → Text → List (Text × Text)
if_filled k [] = []
if_filled k (c ∷ s) = (k, c ∷ s) ∷ []

abbrev pub or_str : Option Text → Option Text → Text
or_str (some s) other = s
or_str none other = text_or [] other

abbrev pub is_text : Text → Option Text → Bool
is_text t none = false
is_text t (some s) = text_eq s t

module _ {N : Type 0} where
  unfoldable pub is_get_method : Option (Value N) → Bool
  is_get_method cfg = is_get (config_str (codes "method") cfg)

  abbrev pub webhook_method_label : Option (Value N) → Text
  webhook_method_label cfg = if is_get_method cfg then codes "GET" else codes "POST"

  abbrev pub empty_object : Value N
  empty_object = object end

  unfoldable pub build_multipart_related_body : World N → Value N → Fallible (Body N)
  build_multipart_related_body w params = do
    media ← or_exec (as_str (get_key (codes "media_base64") params))
    bytes ← or_exec (w.decode_base64 media)
    ok (
        multipart_related (or_value empty_object (get_key (codes "metadata") params)) bytes (
          text_or (codes "application/octet-stream")
            (as_str (get_key (codes "media_content_type") params))))

  abbrev pub is_object : Value N → Bool
  is_object (object fs) = true
  is_object _ = false

  abbrev pub body_of : World N → Option (Value N) → Value N → Fallible (Body N)
  body_of w action_config params =
      if is_text (codes "multipart_related") (config_str (codes "body_mode") action_config)
      then build_multipart_related_body w params
      else if is_get_method action_config
      then ok (query (if is_object params then some params else none))
      else ok (json params)

  -- What comes back: none for a failed transport, and whether the status is a success.
  abbrev pub response : World N → Option (Bool × Text) → Fallible (Value N)
  response w none = err exec
  response w (some (success, text)) =
      if success then ok (or_text (w.read_json text) text) else err exec

  abbrev pub send_request : World N → Request N → Run N (Value N)
  send_request w req = record { result = response w (w.send req); trace = sent req ∷ [] }

  -- The form that is posted to the token endpoint.
  abbrev pub exchange :
      World N → ℕ → Text → Value N → Value N → Text → Text → Option Text → Run N (Value N)
  exchange w timeout url auth params code client_id secret =
      let redirect_uri =
        or_str (as_str (get_key (codes "redirect_uri") params))
          (as_str (get_key (codes "redirect_uri") auth)) in
      send_request w (record {
        url = url;
        body = form (
            (codes "grant_type", codes "authorization_code")
            ∷ (codes "code", code)
            ∷ (codes "client_id", client_id)
            ∷ (if_some (codes "client_secret") secret
                ++ if_filled (codes "redirect_uri") redirect_uri));
        headers = [];
        timeout = timeout;
      })

  abbrev pub with_client :
      World N → ℕ → Text → Value N → Value N → Value N → Text → Text → Run N (Value N)
  with_client w timeout url action_config auth params code client_id =
      try_ (optional_secret_field w action_config auth (codes "client_secret"))
        (exchange w timeout url auth params code client_id)

  abbrev pub with_code : World N → ℕ → Text → Value N → Value N → Value N → Text → Run N (Value N)
  with_code w timeout url action_config auth params code =
      try_ (secret_field w action_config auth (codes "client_id"))
        (with_client w timeout url action_config auth params code)

  unfoldable pub dispatch_oauth_token_exchange :
      World N → ℕ → Text → Value N → Value N → Value N → Run N (Value N)
  dispatch_oauth_token_exchange w timeout url action_config auth params =
      try_ (or_exec (as_str (get_key (codes "code") params)))
        (with_code w timeout url action_config auth params)

  abbrev pub as_number : World N → Option (Value N) → Option ℕ
  as_number w (some (number n)) = w.as_u64 n
  as_number w _ = none

  abbrev pub webhook_timeout : World N → Option (Value N) → ℕ
  webhook_timeout w action_config =
      or_value default_timeout_secs (as_number w (config_key (codes "timeout_secs") action_config))

  abbrev pub resolve : World N → Text → Text → Option (Value N) → Run N (Option Text)
  resolve w path name none = returned none
  resolve w path name (some cfg) = resolve_auth w path name cfg

  -- A request with the headers of the configuration behind the resolved authorization.
  abbrev pub send_headed :
      World N → ℕ → Text → Option (Value N) → Body N → Option Text → Run N (Value N)
  send_headed w timeout url action_config body auth_header = send_request w (record {
    url = url;
    body = body;
    headers =
        if_some (codes "Authorization") auth_header
        ++ entries_of (as_object (config_key (codes "headers") action_config));
    timeout = timeout;
  })

  abbrev pub send_authorized :
      World N → Text → Text → ℕ → Text → Option (Value N) → Value N → Run N (Value N)
  send_authorized w path name timeout url action_config params =
      try_ (body_of w action_config params) λ body.
        then_ (resolve w path name action_config) (send_headed w timeout url action_config body)

  abbrev pub exchanges_code : Value N → Bool
  exchanges_code auth =
      is_text (codes "oauth_authorization_code") (as_str (get_key (codes "type") auth))

  abbrev pub send_with :
      World N
      → Text
      → Text
      → ℕ
      → Text
      → Option (Value N)
      → Option (Value N)
      → Value N
      → Run N (Value N)
  send_with w path name timeout url (some cfg) (some auth) params =
      if exchanges_code auth
      then dispatch_oauth_token_exchange w timeout url cfg auth params
      else send_authorized w path name timeout url (some cfg) params
  send_with w path name timeout url action_config _ params =
      send_authorized w path name timeout url action_config params

  unfoldable pub run_webhook_inner :
      World N → Text → Text → Text → Option (Value N) → Value N → Run N (Value N)
  run_webhook_inner w path name url action_config params =
      send_with w path name (webhook_timeout w action_config) url action_config
        (config_key (codes "auth") action_config) params

  abbrev pub outcome_line : Text → Fallible (Value N) → Effect N
  outcome_line what (ok v) = printed (codes "info") (what ++ codes " succeeded")
  outcome_line what (err e) = printed (codes "warn") (what ++ codes " failed")

  abbrev pub logged : Text → Run N (Value N) → Run N (Value N)
  logged what r = record {
    result = r.result;
    trace = printed (codes "info") what ∷ (r.trace ++ outcome_line what r.result ∷ []);
  }

  module _ (lib : UrlLib) where
    -- `allowlist` is the one of the configuration; the redirects of the client are in `Net`.
    unfoldable pub run_webhook :
        World N → List Text → Text → Text → Text → Option (Value N) → Value N → Run N (Value N)
    run_webhook w allowlist path name template action_config given =
        let (url, params) = substitute_path_params template action_config given in
        try_ (check_outbound_url lib allowlist url) λ u.
          logged (webhook_method_label action_config ++ b' ' ∷ url)
            (run_webhook_inner w path name url action_config params)
