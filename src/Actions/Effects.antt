-- ===== src/Actions/Effects.antt =====
-- What solx-actions does outside when it executes an action: the shells that are spawned, the requests
-- that are sent, the lines that are printed to the console and the refresh tokens that are handed over
-- to be kept. A run is its result and the list of these. The shell, the network, base64, the reader of
-- JSON, the cache of tokens, the keyring and the secret store, and the signature of an assertion are
-- parameters; the random boundary of a multipart body and the elapsed times in the console's
-- lines are left out.
use solx_core.Prelude.{ℕ, Bool, List, [], ◌∷◌, ◌++◌, Option, none, some, Text, ok, err}
use solx_core.Json.{Value, string, object, Fields, end, field, get_key}
use solx_core.Surface.Error.{SolxError, Fallible}

-- The directory, the variables in the order in which they are set, the standard input and the
-- ceiling in seconds of a child.
pub record Shell (N : Type 0) : Type 0 where
  pub command : Text
  pub cwd : Text
  pub env : List (Text × Text)
  pub stdin : Value N
  pub timeout : ℕ

-- How waiting for a child ends.
pub data ShellEnd : Type 0 where
  not_spawned timed_out broken : ShellEnd
  exited : Bool → Text → ShellEnd

pub data Body (N : Type 0) : Type 0 where
  json : Value N → Body N
  query : Option (Value N) → Body N
  multipart_related : Value N → Text → Text → Body N
  form : List (Text × Text) → Body N

pub record Request (N : Type 0) : Type 0 where
  pub url : Text
  pub body : Body N
  pub headers : List (Text × Text)
  pub timeout : ℕ

pub data Effect (N : Type 0) : Type 0 where
  spawned : Shell N → Effect N
  sent : Request N → Effect N
  printed : Text → Text → Effect N
  persisted : Text → Text → Text → Effect N

-- What a run has to its answer, and what it has done on the way.
pub record Run (N A : Type 0) : Type 0 where
  pub result : Fallible A
  pub trace : List (Effect N)

pub record World (N : Type 0) : Type 0 where
  pub shell : Shell N → ShellEnd
  pub send : Request N → Option (Bool × Text)
  pub as_u64 : N → Option ℕ
  pub read_json : Text → Option (Value N)
  pub decode_base64 : Text → Option Text
  pub cached : Text → Text → Option Text
  pub resolve_in_field : Text → Value N → Fallible Text
  pub get_secret : Text → Text → Fallible (Option Text)
  pub sign : Text → Text → Text → Text → Fallible Text

abbrev pub default_timeout_secs : ℕ
default_timeout_secs = 300

abbrev pub or_value {ℓ} : {A : Type ℓ} → A → Option A → A
or_value d none = d
or_value d (some a) = a

module _ {N A : Type 0} where
  abbrev pub failed : SolxError → Run N A
  failed e = record { result = err e; trace = [] }

  abbrev pub returned : A → Run N A
  returned a = record { result = ok a; trace = [] }

  abbrev pub did : List (Effect N) → Run N A → Run N A
  did es r = record { result = r.result; trace = es ++ r.trace }

  -- A fallible step without an effect.
  abbrev pub try_ : {B : Type 0} → Fallible B → (B → Run N A) → Run N A
  try_ (ok b) next = next b
  try_ (err e) next = failed e

-- A run behind another, if that succeeds.
abbrev pub then_ : {N A B : Type 0} → Run N A → (A → Run N B) → Run N B
then_ r next = did r.trace (try_ r.result next)

module _ {N : Type 0} where
  abbrev pub as_str : Option (Value N) → Option Text
  as_str (some (string s)) = some s
  as_str _ = none

  abbrev pub as_object : Option (Value N) → Option (Fields N)
  as_object (some (object fs)) = some fs
  as_object _ = none

  abbrev pub config_key : Text → Option (Value N) → Option (Value N)
  config_key k none = none
  config_key k (some cfg) = get_key k cfg

  abbrev pub config_str : Text → Option (Value N) → Option Text
  config_str k cfg = as_str (config_key k cfg)

  abbrev pub string_entry : Text → Value N → List (Text × Text) → List (Text × Text)
  string_entry k (string s) rest = (k, s) ∷ rest
  string_entry k _ rest = rest

  -- The entries of an object that are strings, as variables and as headers.
  unfoldable pub string_entries : Fields N → List (Text × Text)
  string_entries end = []
  string_entries (field k v fs) = string_entry k v (string_entries fs)

  abbrev pub entries_of : Option (Fields N) → List (Text × Text)
  entries_of none = []
  entries_of (some fs) = string_entries fs

  -- `from_str(…).unwrap_or(Value::String(…))`.
  abbrev pub or_text : Option (Value N) → Text → Value N
  or_text none s = string s
  or_text (some v) s = v
