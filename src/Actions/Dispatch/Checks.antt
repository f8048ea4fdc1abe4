-- ===== src/Actions/Dispatch/Checks.antt =====
-- Whatever is executed, the shells and the requests are those that the configuration allows.
use solx_core.Prelude.{ℕ, List, Option, Text}
use solx_core.Json.{Value}
use solx_core.Actions.Net.{UrlLib}
use solx_core.Actions.Rows.{Row}
use solx_core.Actions.Dispatch.{Backends, Settings}
use solx_core.Actions.Dispatch.Allowed.{IsStoredTokenUri, AllAllowed}

-- What stands behind the dispatcher does nothing that is not allowed.
pub record BehindAllowed {N : Type 0} (lib : UrlLib) (settings : Settings N)
    (actions : List (Row N)) (behind : Backends N) : Type 0 where
  pub internal_allowed :
      (f : Text) (v : Value N) (cfg : Option (Value N))
      → AllAllowed lib settings (IsStoredTokenUri actions) (behind.run_internal f v cfg).trace
  pub wasm_allowed :
      (bytes : Text) (f : Option Text) (v : Value N) (t : Option ℕ)
      → AllAllowed lib settings (IsStoredTokenUri actions) (behind.run_wasm bytes f v t).trace
  pub script_allowed :
      (source : Text) (v : Value N) (t : ℕ)
      → AllAllowed lib settings (IsStoredTokenUri actions) (behind.run_script source v t).trace
