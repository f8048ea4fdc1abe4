-- ===== src/Actions/Dispatch/Tests.antt =====
-- Runs of actions, and the theorems about them at concrete actions.
use solx_core.Prelude.{
  ℕ, true, List, [], ◌∷◌, none, some, Text, codes, text_eq, ◌-◌, if◌then◌else◌, ok, err, ◌≡◌, refl,
}
use solx_core.Json.{number, string, object, Fields, end, field, lookup, insert}
use solx_core.Surface.Error.{exec}
use solx_core.Files.{sanitize_segment, action_file_path, shared_action_file_path}
use solx_core.Files.Tests.{ascii}
use solx_core.Config.Allowlist.{last_first, remove}
use solx_core.Actions.Net.Tests.{small}
use solx_core.Actions.Net.Tests as NetTests
use solx_core.Actions.Rows.{Row}
use solx_core.Actions.Store.Tests as StoreTests
use solx_core.Actions.Store.Tests.{hook}
use solx_core.Actions.Effects.{spawned, sent, printed, json, form, exited, World, string_entries}
use solx_core.Config.Registry.{find_command}
use solx_core.Actions.Exec.{trim_slashes, slug, log_dir_slug, run_command}
use solx_core.Actions.Webhook.Template.{replace_from, substitute_keys, substitute_path_params}
use solx_core.Actions.Webhook.{
  eq_ignore_ascii_case, is_get_method, build_multipart_related_body, dispatch_oauth_token_exchange,
  run_webhook_inner, run_webhook,
}
use solx_core.Actions.Dispatch.{
  camel_from, to_camel_case, snake_from, to_snake_case, add_aliases, normalize_params, Backends,
  Settings, load_wasm_bytes, load_script_source, effective_timeout, run_action, exec_as_with,
}
use solx_core.Actions.Auth.{
  secret_field, optional_secret_field, exchange_refresh_token, exchange_service_account_token,
  resolve_auth,
}

runs : Unit {0}
unfolding secret_field optional_secret_field exchange_refresh_token exchange_service_account_token
    resolve_auth lookup insert sanitize_segment action_file_path shared_action_file_path last_first
    remove NetTests.runs StoreTests.runs string_entries find_command trim_slashes slug log_dir_slug
    run_command replace_from eq_ignore_ascii_case is_get_method substitute_keys
    substitute_path_params build_multipart_related_body dispatch_oauth_token_exchange
    run_webhook_inner run_webhook camel_from to_camel_case snake_from to_snake_case add_aliases
    normalize_params load_wasm_bytes load_script_source effective_timeout run_action exec_as_with
    text_eq
runs = tt

abbrev raise : ℕ → Text
raise c = (c - 32) ∷ []

abbrev params : Fields ℕ
params = field (codes "rel_path") (number 1) (field (codes "actionType") (number 2) end)

aliases_both_ways :
    normalize_params raise (object params)
    ≡ object (
        field (codes "rel_path") (number 1) (
          field
            (codes "actionType")
            (number 2)
            (field (codes "relPath") (number 1) (field (codes "action_type") (number 2) end))))
unfolding runs
aliases_both_ways = refl

-- An alias may have another alias, so that aliasing twice is not aliasing once.
aliases_of_aliases :
    (normalize_params {N = ℕ} raise (object (field (codes "a__b") (number 1) end))
      ≡ object (field (codes "a__b") (number 1) (field (codes "aB") (number 1) end)))
    × (normalize_params {N = ℕ} raise
          (normalize_params raise (object (field (codes "a__b") (number 1) end)))
        ≡ object (
            field
              (codes "a__b")
              (number 1)
              (field (codes "aB") (number 1) (field (codes "a_b") (number 1) end))))
unfolding runs
aliases_of_aliases = (refl, refl)

abbrev world : World ℕ
world = record {
  shell = λ sh. exited true (codes " 42 ");
  send = λ req. some (text_eq req.url (codes "https://t.org/"), codes "token");
  as_u64 = λ n. some n;
  read_json = λ t.
      if text_eq t (codes "42")
      then some (number 42)
      else if text_eq t (codes "token")
      then some (object (field (codes "access_token") (string (codes "fresh")) end))
      else none;
  decode_base64 = λ t. none;
  cached = λ path name. none;
  resolve_in_field = λ f v. err exec;
  get_secret = λ name key. ok none;
  sign = λ email scope uri key. err exec;
}

abbrev behind : Backends ℕ
behind = record {
  upper = raise;
  validate = λ v tr. ok tt;
  read_file = λ p. none;
  utf8 = λ b. some b;
  run_internal = λ f v cfg. record { result = err exec; trace = [] };
  run_wasm = λ b f v t. record { result = err exec; trace = [] };
  run_script = λ s v t. record { result = err exec; trace = [] };
}

abbrev settings : Settings ℕ
settings = record {
  commands =
      (
        codes "build",
        record { command = codes "make"; description = none; cwd = some (codes "/src") },
      )
      ∷ [];
  allowlist = codes "https://a.com/v1/" ∷ [];
  appdata = codes "/data";
  logs = λ slug. slug;
  registration = [];
  background_timeout_secs = 86400;
}

abbrev called : Row ℕ
called = record hook {
  name = codes "call";
  fn_name = codes "https://a.com/v1/{id}";
  action_config = object (
      field (codes "path_params") (object (field (codes "id") (string []) end)) (
        field (codes "auth")
          (object (
            field (codes "type") (string (codes "bearer"))
              (field (codes "token") (string (codes "t")) end)))
          end));
}

abbrev built : Row ℕ
built = record hook {
  name = codes "build";
  action_type = codes "command";
  fn_name = codes "build";
  action_config = object (field (codes "cwd") (string (codes "/elsewhere")) end);
}

-- The token endpoint is on no list.
abbrev refreshing : Row ℕ
refreshing = record hook {
  name = codes "refresh";
  fn_name = codes "https://a.com/v1/x";
  action_config = object (
      field (codes "auth")
        (object (
          field (codes "type") (string (codes "oauth_refresh")) (
            field (codes "client_id") (string (codes "c")) (
              field (codes "client_secret") (string (codes "s")) (
                field (codes "refresh_token") (string (codes "r"))
                  (field (codes "token_uri") (string (codes "https://t.org/")) end))))))
        end);
}

abbrev actions : List (Row ℕ)
actions = called ∷ built ∷ refreshing ∷ []

requests_a_token_elsewhere :
    exec_as_with ascii small world behind settings
      (codes "/tools")
      (codes "refresh")
      (object end)
      none
      actions
    ≡ record {
      result = err exec;
      trace =
          printed (codes "info") (codes "POST https://a.com/v1/x")
          ∷ sent (record {
            url = codes "https://t.org/";
            body = form (
                (codes "grant_type", codes "refresh_token")
                ∷ (codes "client_id", codes "c")
                ∷ (codes "client_secret", codes "s")
                ∷ (codes "refresh_token", codes "r")
                ∷ []);
            headers = [];
            timeout = 30;
          })
          ∷ sent (record {
            url = codes "https://a.com/v1/x";
            body = json (object end);
            headers = (codes "Authorization", codes "Bearer fresh") ∷ [];
            timeout = 300;
          })
          ∷ printed (codes "warn") (codes "POST https://a.com/v1/x failed")
          ∷ [];
    }
unfolding runs
requests_a_token_elsewhere = refl

-- The directory of the entry wins over that of the action.
runs_a_listed_command :
    exec_as_with ascii small world behind settings
      (codes "/tools")
      (codes "build")
      (number 7)
      (some (codes "i"))
      actions
    ≡ record {
      result = ok (record {
        action = codes "/tools/build";
        result = number 42;
        success = true;
        message = none;
      });
      trace =
          spawned (record {
            command = codes "make";
            cwd = codes "/src";
            env = (codes "SOL_LOG_DIR", codes "tools_build") ∷ [];
            stdin = number 7;
            timeout = 86400;
          })
          ∷ [];
    }
unfolding runs
runs_a_listed_command = refl

-- The URL is checked with the parameters in it, and a failed call is printed.
calls_a_permitted_url :
    exec_as_with ascii small world behind settings
      (codes "/tools")
      (codes "call")
      (object (field (codes "id") (string (codes "x")) end))
      none
      actions
    ≡ record {
      result = err exec;
      trace =
          printed (codes "info") (codes "POST https://a.com/v1/x")
          ∷ sent (record {
            url = codes "https://a.com/v1/x";
            body = json (object end);
            headers = (codes "Authorization", codes "Bearer t") ∷ [];
            timeout = 300;
          })
          ∷ printed (codes "warn") (codes "POST https://a.com/v1/x failed")
          ∷ [];
    }
unfolding runs
calls_a_permitted_url = refl

refuses_another_url :
    exec_as_with ascii small world behind settings
      (codes "/tools")
      (codes "call")
      (object (field (codes "id") (string (codes "y")) end))
      none
      actions
    ≡ record { result = err exec; trace = [] }
unfolding runs
refuses_another_url = refl
