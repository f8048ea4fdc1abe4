-- ===== src/Files.antt =====
-- solx-files/src/lib.rs: from the relative path of a file to the segments below the root of the
-- store, and the conventional paths of files. `char::is_alphanumeric` is a parameter, with what is
-- documented of it. The file system behind the paths is not modelled.
pub mod Below
pub mod Stable
pub mod Tests
use solx_core.Prelude.{
  ℕ, Bool, true, false, ◌&&◌, ◌||◌, List, [], ◌∷◌, ◌++◌, if◌then◌else◌, is_empty, any, ◌==◌, Text,
  codes, text_eq, Result, ok, err, ◌>>=◌, ◌≡◌,
}
use solx_core.Surface.Error.{invalid, Fallible}
use solx_core.Surface.Path.{is_whitespace, is_control, trim, cons_head}

-- No letter and no digit is white space, a control character or a separator.
pub record CharLib : Type 0 where
  pub is_alphanumeric : ℕ → Bool
  pub not_whitespace : (c : ℕ) → is_alphanumeric c ≡ true → is_whitespace c ≡ false
  pub not_control : (c : ℕ) → is_alphanumeric c ≡ true → is_control c ≡ false
  pub not_slash : is_alphanumeric b'/' ≡ false
  pub not_backslash : is_alphanumeric b'\\' ≡ false
  pub not_colon : is_alphanumeric b':' ≡ false

abbrev pub is_separator : ℕ → Bool
is_separator c = c == b'/' || c == b'\\'

-- `split(['/', '\\'])`.
unfoldable pub split_rel : Text → List Text
split_rel [] = [] ∷ []
split_rel (c ∷ s) =
    let parts = split_rel s in if is_separator c then [] ∷ parts else cons_head c parts

abbrev pub is_refused : Text → Bool
is_refused seg = any (λ c. c == b':') seg || any (λ c. is_control c) seg

unfoldable pub join : List Text → Text
join [] = []
join (seg ∷ []) = seg
join (seg ∷ next ∷ segs) = seg ++ b'/' ∷ join (next ∷ segs)

abbrev pub not_empty : List Text → Fallible (List Text)
not_empty [] = err invalid
not_empty (seg ∷ segs) = ok (seg ∷ segs)

module _ (lib : CharLib) where
  open lib use {is_alphanumeric}

  abbrev pub is_kept : ℕ → Bool
  is_kept c = is_alphanumeric c || (c == b'.' || c == b'-' || c == b'_')

  unfoldable pub sanitize_segment : Text → Text
  sanitize_segment [] = []
  sanitize_segment (c ∷ s) = (if is_kept c then c else b'_') ∷ sanitize_segment s

  abbrev pub push_segment : Text → Fallible (List Text) → Fallible (List Text)
  push_segment seg rest =
      if is_empty seg || text_eq seg (codes ".")
      then rest
      else if text_eq seg (codes "..")
      then err invalid
      else if is_refused seg
      then err invalid
      else (rest >>= λ segs. ok (sanitize_segment seg ∷ segs))

  unfoldable pub normalize_segments : List Text → Fallible (List Text)
  normalize_segments [] = ok []
  normalize_segments (seg ∷ segs) = push_segment (trim seg) (normalize_segments segs)

  unfoldable pub normalize_rel : Text → Fallible (List Text)
  normalize_rel rel = do segs ← normalize_segments (split_rel rel); not_empty segs

  -- The segments below the root, and the path that `put` answers.
  unfoldable pub resolve : Text → Fallible (List Text × Text)
  resolve rel = do segs ← normalize_rel rel; ok (segs, join segs)

  unfoldable pub doc_file_path : Text → Text → Text
  doc_file_path doc_id file_name =
      codes "files/docs/" ++ (sanitize_segment doc_id ++ b'/' ∷ sanitize_segment file_name)

  unfoldable pub shared_doc_file_path : Text → Text
  shared_doc_file_path file_name = codes "files/docs/shared/" ++ sanitize_segment file_name

  unfoldable pub action_file_path : Text → Text → Text
  action_file_path action_id file_name =
      codes "files/actions/" ++ (sanitize_segment action_id ++ b'/' ∷ sanitize_segment file_name)

  unfoldable pub shared_action_file_path : Text → Text
  shared_action_file_path file_name = codes "files/actions/shared/" ++ sanitize_segment file_name
