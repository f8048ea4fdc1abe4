-- ===== src/Config/Registry.antt =====
-- solx-config/src/lib.rs: the command actions and the installed packages that the configuration's JSON
-- object holds; the types are those of types.rs. A map is an association list with one entry for
-- each key, and its JSON form the object with these entries. What serde cannot read counts as
-- nothing, as in the source; a struct is read from an object only. The file, its lock and the cache around the object are not modelled.
pub mod Reads
pub mod Laws
use solx_core.Prelude.{
  Bool, true, false, not, List, [], ◌∷◌, ◌++◌, Option, none, some, if◌then◌else◌, Text, codes,
  text_eq, Result, ok, err, ◌>>=◌,
}
use solx_core.Json.{
  Value, null, bool, number, string, array, object, Items, nil, cons, Fields, end, field, lookup,
  insert,
}
use solx_core.Config.Allowlist.{strings_of, strings}

pub record CommandDef : Type 0 where
  pub command : Text
  pub description : Option Text
  pub cwd : Option Text

pub record InstalledPackage : Type 0 where
  pub name : Text
  pub version : Text
  pub path : Text
  pub installed_at : Text
  pub granted_commands : List Text
  pub granted_base_urls : List Text

abbrev pub Commands : Type 0
Commands = List (Text × CommandDef)

abbrev pub key_commands : Text
key_commands = codes "command_actions"

abbrev pub key_packages : Text
key_packages = codes "installed_packages"

-- What `from_value` gives; its error is not looked at.
abbrev pub Read : Type 0 → Type 0
Read A = Result A (Unit {0})

abbrev pub or_default : {A : Type 0} → List A → Read (List A) → List A
or_default d (ok a) = a
or_default d (err e) = d

-- `HashMap::insert` and `HashMap::remove`.
unfoldable pub insert_command : Text → CommandDef → Commands → Commands
insert_command key def [] = (key, def) ∷ []
insert_command key def ((k, d) ∷ map) =
    if text_eq k key then (key, def) ∷ map else (k, d) ∷ insert_command key def map

unfoldable pub remove_command : Text → Commands → Commands
remove_command key [] = []
remove_command key ((k, d) ∷ map) =
    let rest = remove_command key map in if text_eq k key then rest else (k, d) ∷ rest

unfoldable pub find_command : Text → Commands → Option CommandDef
find_command key [] = none
find_command key ((k, def) ∷ defs) = if text_eq k key then some def else find_command key defs

-- `list.retain(|p| p.name != name)`.
unfoldable pub retain_others : Text → List InstalledPackage → List InstalledPackage
retain_others name [] = []
retain_others name (p ∷ list) =
    let rest = retain_others name list in if text_eq p.name name then rest else p ∷ rest

abbrev pub all_strings : Option (List Text) → Read (List Text)
all_strings none = err tt
all_strings (some list) = ok list

module _ {N : Type 0} where
  abbrev pub text_of : Option (Value N) → Read Text
  text_of (some (string s)) = ok s
  text_of _ = err tt

  abbrev pub optional_of : Option (Value N) → Read (Option Text)
  optional_of none = ok none
  optional_of (some null) = ok none
  optional_of (some (string s)) = ok (some s)
  optional_of (some _) = err tt

  -- `#[serde(default)]`.
  abbrev pub default_of : Option (Value N) → Read Text
  default_of none = ok []
  default_of (some (string s)) = ok s
  default_of (some _) = err tt

  abbrev pub texts_of : Option (Value N) → Read (List Text)
  texts_of none = ok []
  texts_of (some (array vs)) = all_strings (strings_of vs)
  texts_of (some _) = err tt

  unfoldable pub command_of : Value N → Read CommandDef
  command_of (object fs) = do
    command ← text_of (lookup (codes "command") fs)
    description ← optional_of (lookup (codes "description") fs)
    cwd ← optional_of (lookup (codes "cwd") fs)
    ok (record { command = command; description = description; cwd = cwd })
  command_of _ = err tt

  unfoldable pub commands_of : Fields N → Read Commands
  commands_of end = ok []
  commands_of (field k v fs) = do def ← command_of v; map ← commands_of fs; ok ((k, def) ∷ map)

  -- A field that is skipped where it is none.
  abbrev pub some_field : Text → Option Text → Fields N → Fields N
  some_field k none fs = fs
  some_field k (some s) fs = field k (string s) fs

  unfoldable pub command_value : CommandDef → Value N
  command_value def = object (
      field (codes "command") (string def.command)
        (some_field (codes "description") def.description (some_field (codes "cwd") def.cwd end)))

  unfoldable pub command_fields : Commands → Fields N
  command_fields [] = end
  command_fields ((k, def) ∷ map) = field k (command_value def) (command_fields map)

  -- The field `granted_base_urls`, or its former name; not both.
  abbrev pub granted_urls_of : Option (Value N) → Option (Value N) → Read (List Text)
  granted_urls_of none former = texts_of former
  granted_urls_of (some v) none = texts_of (some v)
  granted_urls_of (some v) (some w) = err tt

  unfoldable pub package_of : Value N → Read InstalledPackage
  package_of (object fs) = do
    name ← text_of (lookup (codes "name") fs)
    version ← default_of (lookup (codes "version") fs)
    path ← default_of (lookup (codes "path") fs)
    installed_at ← default_of (lookup (codes "installed_at") fs)
    granted_commands ← texts_of (lookup (codes "granted_commands") fs)
    granted_base_urls ←
        granted_urls_of (lookup (codes "granted_base_urls") fs)
          (lookup (codes "granted_webhook_prefixes") fs)
    ok (record {
      name = name;
      version = version;
      path = path;
      installed_at = installed_at;
      granted_commands = granted_commands;
      granted_base_urls = granted_base_urls;
    })
  package_of _ = err tt

  unfoldable pub packages_of : Items N → Read (List InstalledPackage)
  packages_of nil = ok []
  packages_of (cons v vs) = do p ← package_of v; list ← packages_of vs; ok (p ∷ list)

  unfoldable pub package_value : InstalledPackage → Value N
  package_value p = object (
      field (codes "name") (string p.name) (
        field (codes "version") (string p.version) (
          field (codes "path") (string p.path) (
            field (codes "installed_at") (string p.installed_at) (
              field (codes "granted_commands") (array (strings p.granted_commands))
                (field (codes "granted_base_urls") (array (strings p.granted_base_urls)) end))))))

  unfoldable pub package_items : List InstalledPackage → Items N
  package_items [] = nil
  package_items (p ∷ list) = cons (package_value p) (package_items list)

  abbrev pub commands_at : Option (Value N) → Commands
  commands_at (some (object fs)) = or_default [] (commands_of fs)
  commands_at _ = []

  abbrev pub packages_at : Option (Value N) → List InstalledPackage
  packages_at (some (array vs)) = or_default [] (packages_of vs)
  packages_at _ = []

  unfoldable pub read_commands : Fields N → Commands
  read_commands obj = commands_at (lookup key_commands obj)

  unfoldable pub read_packages : Fields N → List InstalledPackage
  read_packages obj = packages_at (lookup key_packages obj)

  abbrev pub write_commands : Commands → Fields N → Fields N
  write_commands map obj = insert key_commands (object (command_fields map)) obj

  abbrev pub write_packages : List InstalledPackage → Fields N → Fields N
  write_packages list obj = insert key_packages (array (package_items list)) obj

  unfoldable pub register_command : Text → CommandDef → Fields N → Fields N
  register_command key def obj = write_commands (insert_command key def (read_commands obj)) obj

  unfoldable pub deregister_command : Text → Fields N → Fields N
  deregister_command key obj = write_commands (remove_command key (read_commands obj)) obj

  unfoldable pub register_package : InstalledPackage → Fields N → Fields N
  register_package pkg obj =
      write_packages (retain_others pkg.name (read_packages obj) ++ pkg ∷ []) obj

  unfoldable pub unregister_package : Text → Fields N → Fields N
  unregister_package name obj = write_packages (retain_others name (read_packages obj)) obj
