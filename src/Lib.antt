-- ===== src/Lib.antt =====
-- Verification of solx-core: the parts of solx that decide what a reference names, what a reader of
-- an action's configuration sees, which URLs solx requests on a caller's behalf and which commands it
-- runs, how an action is saved, read and executed, what the installation of a package grants, where
-- a file lies, what SQL a list request becomes, how a detached invocation comes to its end, how the
-- log of an action is numbered, and what a script means.
--
-- Files and the code they model:
--   Surface/Path        solx-surface/src/path.rs. Paths, names and full references. `normalize_path`,
--                       `full_ref`, `split_ref`, `validate_name` and `validate_segment` are the
--                       functions of these names; the loop of `normalize_path` is `push_segments`.
--   Surface/Query       solx-surface/src/query.rs. `to_sql` of `ListOptions`: the where clause, the order
--                       clause and the binds of a list request.
--   Surface/Error       solx-surface/src/error.rs. The variants of `SolxError`.
--   Config/Allowlist    solx-config/src/lib.rs. The list that the gate reads, in the configuration's JSON
--                       object: `read_base_urls`, `write_base_urls`, `add_allowed_base_url` and
--                       `remove_allowed_base_url`, a step on the object each.
--   Config/Policy       solx-config/src/types.rs. Which actions are hidden from tools, or destructive:
--                       `is_hidden`, `is_destructive`, `validate_capabilities`; in Config/Policy/Glob
--                       `glob_matches`. `Action` is that of solx-surface/src/entities.rs, less the
--                       fields that no rule reads.
--   Config/Registry     solx-config/src/lib.rs and types.rs. The command actions and the installed
--                       packages in the same object: `register_command`, `deregister_command`,
--                       `register_package`, `unregister_package`, and the readers behind
--                       `command_actions` and `list_packages`; in Config/Registry/Laws what each shows.
--   Config/Snapshot     solx-config/src/types.rs and lib.rs. The types of the fields of `SolxConfig` and
--                       whether the configuration is read as a whole, as `snapshot` does;
--                       `list_packages`.
--   Packages            solx-packages/src/lib.rs. The loops that grant and revoke, `install_package` from
--                       the parsed manifest on, and `uninstall_package`; in Packages/Manifest
--                       `parse_grants`.
--   Files               solx-files/src/lib.rs. `normalize_rel`, `resolve`, `sanitize_segment` and the
--                       conventional paths of files.
--   Json                the operations of serde_json's `Value` and `Map` that the source calls.
--   Actions/Mask        solx-actions/src/mask.rs. `mask_action_config` redacts what a reader of an
--                       action gets, `unmask_merge` (with `walk`) restores it where it comes back. A
--                       loop over a map or an array is a function on its fields or items.
--   Actions/Net         solx-actions/src/net.rs. `check_outbound_url` and `redirect_policy`, both
--                       over `is_allowed` and `prefix_admits`.
--   Actions/Rows        solx-actions/src/row.rs: a row of the table of actions and the action it decodes
--                       to (`ActionEntity`, the `Action` of solx-surface/src/entities.rs).
--   Actions/Store       solx-actions/src/store.rs: `save`, `get`, `get_unmasked` and `delete` (here
--                       `delete_action`) on the table.
--   Actions/Internal    solx-actions/src/internal/entity.rs and mod.rs: `action_save`, `action_delete`
--                       and `guard_executable_action` in Actions/Internal/Entity.
--   Actions/Dispatch    solx-actions/src/dispatch.rs: `exec_as_with` with the artifacts it loads, and
--                       `normalize_params` of solx-actions/src/internal/mod.rs. Over Actions/Exec
--                       (`run_command`) and Actions/Webhook (`run_webhook`, with the substitution
--                       of its template in Actions/Webhook/Template), all of
--                       solx-actions/src/exec.rs; Actions/Effects has the world they act on.
--   Actions/Auth        solx-actions/src/auth.rs: `resolve_auth`, `secret_field` and the two exchanges
--                       for tokens, with the requests that they send.
--   Actions/Detached    solx-actions/src/invocation.rs: `start_invocation` and the pieces of the task it
--                       spawns, `stop_invocation` (Stop), `poll_invocation` (Poll); Owned has the steps
--                       in which starts, tasks and stops of one process interleave.
--   Scripts             solx-scripts/src. Syntax: the types of expr.rs. Lexer (with Lexer/Strings and
--                       Lexer/Numbers): `lex` and `parse_expr`. Parser: the recursive descent parser.
--                       Values: variables, truth and the comparisons of values. Eval: `eval_expr`.
--                       Quotes: `strip_comments` and `split_respecting_quotes_by` of lib.rs. Stage:
--                       `tokenize_stage_args` (with `scan_bracketed`), `substitute_vars_in_token` and
--                       `parse_assignment`. Interp: interp.rs and `execute_pipeline`; Interp/Program:
--                       ast.rs. Block: the parser of block.rs over statements, with `classify` in
--                       Block/Keywords. Program: `push_statements` and `parse_program` of block.rs,
--                       `execute_script` of lib.rs. Platform: what the scripts use of other code.
--   Console/Invocations solx-console/src/invocations.rs, and `opt` of solx-console/src/db.rs. The
--                       table of detached invocations: `create`, `request_cancel`, `finish`,
--                       `mark_aborted`, `mark_orphans`, `sweep_expired`, `get`, `is_cancelled`.
--                       Console/Invocations/Writes puts the writes in sequence,
--                       Console/Invocations/Lifecycle is the machine of one invocation that they refine.
--   Console/Store       solx-console/src/console.rs. The numbered log of each action: `print`, `read`,
--                       `evict_if_over_cap` and `meta` here, `copy` in Console/Store/Copy, `clear`,
--                       `sweep_expired` and `current_next_seq` in Console/Store/Clear. `claim` is the
--                       upsert that hands out numbers. Console/Store/Runs puts the writes in sequence.
--   Console/Table       the SQL statements on a table of rows.
--   Prelude             shared names, Boolean tests, lists, texts and results.
-- The files below a component prove its properties; its Tests run the functions and apply the
-- theorems to concrete values.
--
-- How the parts interact: the URL gate reads the allowlist of the configuration, which is an
-- argument there, and a command is a key of its command actions; packages write both. The store of
-- actions keys its rows by the references of Surface/Path; an action that is read goes out through
-- Actions/Mask and comes back through its merge. The dispatcher reads the action unmasked, and runs
-- its command, its webhook behind the gate, or what stands behind it; a detached action is
-- dispatched by a task whose end is written to Console/Invocations. Every error is a variant of
-- Surface/Error.
--
-- Conventions: a text is the list of its code points, and positions count code points where Rust
-- counts bytes, which cut the same texts at the same characters. A function on `&mut` state returns
-- the new state. A fallible function returns a result without the text of its message; the error of
-- the merge is the path that its message renders. A time is a number, in the order of the RFC 3339
-- texts, and the clock is an argument. A SQL statement is the function on the list of rows that it
-- denotes, in one step; the SQL that `to_sql` renders is kept in pieces, a placeholder as its number.
-- A loop over characters that looks ahead counts the characters that it consumes, and passes them
-- over when it reaches them; so the loops are structural. Four loops over texts spend fuel, one unit for a
-- call: the expression parser has eight units for each token and the block parser four for each
-- statement, since every call consumes one or goes one level down in the grammar; `push_statements`
-- has one for each character, since what a header leaves is shorter than the text; `glob_matches` has
-- for each character of the text one pass over the pattern and the text, since a return to the last
-- star moves on by one character.
-- That the fuel is enough is proved of each of them for every input. `poll_invocation` reads its
-- clock as a function of the number of reads, and ends by the deadline where each sleep moves it on.
--
-- Parameters: the url crate (`UrlLib` in Actions/Net: the parsed URL, its scheme, host, port and the
-- text from its path on, and a sound comparison of hosts), the type of JSON numbers, in the
-- console store `fraction`, the tenth of the cap that the source computes with floating-point numbers,
-- and in the scripts `Platform` (serde_json's numbers, the equality and the text of JSON values,
-- floats, Unicode tables) and `Runner` (the commands of a script and the timer, which change a
-- world). Of the execution of actions: `CharLib` (the letters and digits of Unicode), `World` (how
-- processes end, how requests are answered, the cache of tokens, the keyring and the store of
-- secrets, the signature of an assertion), `Backends` (the files, the validation of parameters, the
-- built-in actions, WASM and scripts), `Settings` (the configuration as it is read). Of the
-- configuration: `Integers` (the ranges of serde_json's numbers). Of the packages: `Paths` (the paths
-- of the standard library), and what a package's script does to the configuration.
--
-- Not modelled: failing connections and file systems, the HTTP and MCP servers, the client, the
-- command line and the Tauri plugin (glue), WASM and processes (foreign code), the keyring, the
-- encrypted store of secrets and the signing of assertions, the stores of documents and types and the
-- contents of files, the rest of the configuration and of the built-in actions, the search of
-- actions, the timed loop `tail` and the listings of the two stores of the console.
pub mod Prelude
pub mod Json
pub mod Surface
pub mod Config
pub mod Packages
pub mod Actions
pub mod Scripts
pub mod Files
pub mod Console
