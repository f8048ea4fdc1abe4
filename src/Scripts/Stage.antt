-- ===== src/Scripts/Stage.antt =====
-- solx-scripts/src/lib.rs: the arguments of a command stage, the substitution of variables in them,
-- and assignments. Characters that the source consumes ahead are counted, and passed when they are
-- reached.
pub mod Words
pub mod Assign
use solx_core.Prelude.{
  ℕ, zero, suc, ◌-◌, Bool, true, false, not, ◌&&◌, ◌||◌, Option, none, some, List, [], ◌∷◌, ◌++◌,
  if◌then◌else◌, is_empty, length, ◌==◌, Text,
}
use solx_core.Surface.Path.{is_whitespace, trim}
use solx_core.Scripts.Platform.{Platform}
use solx_core.Scripts.Values.{Ctx, var_path, at_path, split_at_char, value_to_arg_string}
use solx_core.Scripts.Quotes.{Quoting, plain, single, double, triple, peek_is, two_quotes}

pub data StageArg : Type 0 where
  text_arg : Text → StageArg
  literal_arg : Text → StageArg

-- `scan_bracketed`: the text so far, the depth, the string that is open, and what is ahead.
pub data Inside : Type 0 where
  code : Inside
  quoted : ℕ → Inside
  triple_quoted : Inside

pub record Bracketed : Type 0 where
  pub out : Text
  pub depth : ℕ
  pub inside : Inside
  pub ahead : ℕ

abbrev opens : ℕ → Bool
opens c = c == b'{' || c == b'['

abbrev closes : ℕ → Bool
closes c = c == b'}' || c == b']'

abbrev bracket_at : Text → ℕ → Inside → ℕ → Bracketed
bracket_at out depth inside ahead = record {
  out = out;
  depth = depth;
  inside = inside;
  ahead = ahead;
}

unfoldable pub bracket_char : Text → ℕ → Inside → ℕ → Text → Bracketed
bracket_char out depth triple_quoted c s =
    if c == b'\'' && two_quotes s
    then bracket_at out depth code 2
    else bracket_at out depth triple_quoted 0
bracket_char out depth (quoted q) c s =
    if c == b'\\'
    then bracket_at out depth (quoted q) 1
    else if c == q
    then bracket_at out depth code 0
    else bracket_at out depth (quoted q) 0
bracket_char out depth code c s =
    if c == b'\'' && two_quotes s
    then bracket_at out depth triple_quoted 2
    else if c == b'"' || c == b'\''
    then bracket_at out depth (quoted c) 0
    else if opens c
    then bracket_at out (suc depth) code 0
    else if closes c
    then bracket_at out (depth - 1) code 0
    else bracket_at out depth code 0

abbrev bracket_step : ℕ → Bracketed → ℕ → Text → Bracketed
bracket_step (suc n) b c s = bracket_at (b.out ++ c ∷ []) b.depth b.inside n
bracket_step zero b c s = bracket_char (b.out ++ c ∷ []) b.depth b.inside c s

-- Where the loop of `tokenize_stage_args` stands: in an argument, with so many characters to pass
-- over, or in a bracketed literal.
pub data Stage : Type 0 where
  in_text : Text → Quoting → ℕ → Stage
  in_literal : Bracketed → Stage

abbrev close_literal : Bracketed → List StageArg × Stage
close_literal b =
    if b.depth == 0 then (literal_arg b.out ∷ [], in_text [] plain 0) else ([], in_literal b)

abbrev pub ended : Text → List StageArg
ended [] = []
ended (c ∷ s) = text_arg (c ∷ s) ∷ []

unfoldable pub text_step : Text → Quoting → ℕ → Text → List StageArg × Stage
text_step cur triple c s =
    if c == b'\'' && two_quotes s
    then ([], in_text cur plain 2)
    else ([], in_text (cur ++ c ∷ []) triple 0)
text_step cur plain c s =
    if is_empty cur && opens c
    then ([], in_literal (bracket_at (c ∷ []) 1 code 0))
    else if c == b'\''
    then ([], if two_quotes s then in_text cur triple 2 else in_text cur single 0)
    else if c == b'"'
    then ([], in_text cur double 0)
    else if is_whitespace c
    then (ended cur, in_text [] plain 0)
    else ([], in_text (cur ++ c ∷ []) plain 0)
text_step cur single c s =
    if c == b'\\' && peek_is b'\'' s
    then ([], in_text (cur ++ b'\'' ∷ []) single 1)
    else if c == b'\''
    then ([], in_text cur plain 0)
    else ([], in_text (cur ++ c ∷ []) single 0)
text_step cur double c s =
    if c == b'\\' && peek_is b'"' s
    then ([], in_text (cur ++ b'"' ∷ []) double 1)
    else if c == b'"'
    then ([], in_text cur plain 0)
    else ([], in_text (cur ++ c ∷ []) double 0)

unfoldable pub stage_step : Stage → ℕ → Text → List StageArg × Stage
stage_step (in_text cur q (suc n)) c s = ([], in_text cur q n)
stage_step (in_text cur q zero) c s = text_step cur q c s
stage_step (in_literal b) c s = close_literal (bracket_step b.ahead b c s)

abbrev stage_end : Stage → List StageArg
stage_end (in_text cur q n) = ended cur
stage_end (in_literal b) = literal_arg b.out ∷ []

unfoldable pub tokenize_from : Stage → Text → List StageArg
tokenize_from stage [] = stage_end stage
tokenize_from stage (c ∷ s) =
    let (args, next) = stage_step stage c s in args ++ tokenize_from next s

unfoldable pub tokenize_stage_args : Text → List StageArg
tokenize_stage_args s = tokenize_from (in_text [] plain 0) s

abbrev pub arg_source : StageArg → Text
arg_source (text_arg t) = t
arg_source (literal_arg t) = t

abbrev arg_sources : List StageArg → List Text
arg_sources [] = []
arg_sources (arg ∷ args) = arg_source arg ∷ arg_sources args

unfoldable pub tokenize_stage : Text → List Text
tokenize_stage s = arg_sources (tokenize_stage_args s)

abbrev trim_dot : ℕ → Text → Text
trim_dot c [] = if c == b'.' then [] else c ∷ []
trim_dot c (d ∷ s) = c ∷ d ∷ s

-- A name without its trailing dots.
unfoldable pub trim_dots : Text → Text
trim_dots [] = []
trim_dots (c ∷ s) = trim_dot c (trim_dots s)

unfoldable pub has_char : ℕ → Text → Bool
has_char d [] = false
has_char d (c ∷ s) = c == d || has_char d s

module _ (P : Platform) where
  open P use {Number, is_alphanumeric}

  abbrev pub is_word_char : ℕ → Bool
  is_word_char c = is_alphanumeric c || c == b'_'

  abbrev pub is_name_char : ℕ → Bool
  is_name_char c = is_word_char c || c == b'.'

  unfoldable pub take_name : Text → Text
  take_name [] = []
  take_name (c ∷ s) = let rest = take_name s in if is_name_char c then c ∷ rest else []

  unfoldable pub all_word_chars : Text → Bool
  all_word_chars [] = true
  all_word_chars (c ∷ s) = is_word_char c && all_word_chars s

  -- The text of a reference: `$` and the name where the variable is missing.
  abbrev pub reference_text : Text → Ctx P → Text
  reference_text name ctx = elim (ctx ((var_path name).0)) [
    | none ↦ b'$' ∷ name
    | some v ↦ value_to_arg_string P (at_path P (some v) ((var_path name).1))
  ]

  -- The text that a character leaves, and how many characters it takes with it.
  abbrev pub dollar : Text → Ctx P → Text × ℕ
  dollar [] ctx = (b'$' ∷ [], 0)
  dollar (c ∷ name) ctx = (reference_text (c ∷ name) ctx, suc (length name))

  unfoldable pub subst_step : Ctx P → ℕ → ℕ → Text → Text × ℕ
  subst_step ctx (suc n) c s = ([], n)
  subst_step ctx zero c s = if c == b'$' then dollar (trim_dots (take_name s)) ctx else (c ∷ [], 0)

  unfoldable pub subst_from : Ctx P → ℕ → Text → Text
  subst_from ctx n [] = []
  subst_from ctx n (c ∷ s) = let (out, n') = subst_step ctx n c s in out ++ subst_from ctx n' s

  unfoldable pub substitute_vars_in_token : Text → Ctx P → Text
  substitute_vars_in_token token ctx = if has_char b'$' token then subst_from ctx 0 token else token

  abbrev pub assigned : Text → Text × Text → Option Text × Text
  assigned stmt (before, after) =
      if not (is_empty (trim before)) && all_word_chars (trim before)
      then (some (trim before), trim after)
      else (none, stmt)

  unfoldable pub parse_assignment : Text → Option Text × Text
  parse_assignment [] = (none, [])
  parse_assignment (c ∷ s) =
      if c == b'$'
      then elim (split_at_char b'=' s) [
        | none ↦ (none, c ∷ s)
        | some sides ↦ assigned (c ∷ s) sides
      ]
      else (none, c ∷ s)
