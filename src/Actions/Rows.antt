-- ===== src/Actions/Rows.antt =====
-- solx-actions/src/row.rs and the entities of solx-surface/src/entities.rs that it maps: a row of
-- the table of actions and the action that it decodes to. JSON columns hold values, since their
-- texts are written and read by serde_json; rows that do not decode are not modelled. Times are
-- numbers.
use solx_core.Prelude.{
  ℕ, Bool, List, [], Option, none, some, if◌then◌else◌, is_empty, Text, codes, text_eq,
}
use solx_core.Json.{Value, null, bool, number, string, array, object}
use solx_core.Config.Policy.{ActionType, internal, command, script, wasm, webhook}

abbrev pub opt : Text → Option Text
opt s = if is_empty s then none else some s

abbrev pub or_empty : Option Text → Text
or_empty none = []
or_empty (some s) = s

unfoldable pub action_type_to_str : Option ActionType → Text
action_type_to_str (some wasm) = codes "wasm"
action_type_to_str (some webhook) = codes "webhook"
action_type_to_str (some command) = codes "command"
action_type_to_str (some internal) = codes "internal"
action_type_to_str (some script) = codes "script"
action_type_to_str none = []

unfoldable pub action_type_from_str : Text → Option ActionType
action_type_from_str s =
    if text_eq s (codes "wasm")
    then some wasm
    else if text_eq s (codes "webhook")
    then some webhook
    else if text_eq s (codes "command")
    then some command
    else if text_eq s (codes "internal")
    then some internal
    else if text_eq s (codes "script")
    then some script
    else none

module _ (N : Type 0) where
  -- The columns of the table.
  pub record Row : Type 0 where
    pub id : Text
    pub path : Text
    pub name : Text
    pub caption : Text
    pub description : Text
    pub capabilities : List Text
    pub phrases : List Text
    pub category : Text
    pub param_type_ref : Text
    pub result_type_ref : Text
    pub action_type : Text
    pub fn_name : Text
    pub bin_name : Text
    pub action_config : Value N
    pub files : List (Value N)
    pub trusted : Bool
    pub created_at : ℕ
    pub updated_at : ℕ

  -- `Action` of solx-surface/src/entities.rs.
  pub record ActionEntity : Type 0 where
    pub id : Text
    pub path : Text
    pub name : Text
    pub caption : Option Text
    pub description : Option Text
    pub capabilities : List Text
    pub phrases : List Text
    pub category : Option Text
    pub param_type_ref : Option Text
    pub result_type_ref : Option Text
    pub action_type : Option ActionType
    pub fn_name : Option Text
    pub bin_name : Option Text
    pub action_config : Option (Value N)
    pub files : List (Value N)
    pub trusted : Bool
    pub created_at : ℕ
    pub updated_at : ℕ

  pub record ActionInput : Type 0 where
    pub caption : Option Text
    pub description : Option Text
    pub capabilities : List Text
    pub phrases : List Text
    pub category : Option Text
    pub param_type_ref : Option Text
    pub result_type_ref : Option Text
    pub action_type : Option ActionType
    pub fn_name : Option Text
    pub bin_name : Option Text
    pub action_config : Option (Value N)
    pub files : List (Value N)
    pub trusted : Option Bool

module _ {N : Type 0} where
  -- `from_str` at `Option<Value>`, and `to_string` of one.
  abbrev pub config_of : Value N → Option (Value N)
  config_of null = none
  config_of (bool b) = some (bool b)
  config_of (number n) = some (number n)
  config_of (string s) = some (string s)
  config_of (array vs) = some (array vs)
  config_of (object fs) = some (object fs)

  abbrev pub config_column : Option (Value N) → Value N
  config_column none = null
  config_column (some v) = v

  unfoldable pub row_to_action : Row N → ActionEntity N
  row_to_action r = record {
    id = r.id;
    path = r.path;
    name = r.name;
    caption = opt r.caption;
    description = opt r.description;
    capabilities = r.capabilities;
    phrases = r.phrases;
    category = opt r.category;
    param_type_ref = opt r.param_type_ref;
    result_type_ref = opt r.result_type_ref;
    action_type = action_type_from_str r.action_type;
    fn_name = opt r.fn_name;
    bin_name = opt r.bin_name;
    action_config = config_of r.action_config;
    files = r.files;
    trusted = r.trusted;
    created_at = r.created_at;
    updated_at = r.updated_at;
  }
