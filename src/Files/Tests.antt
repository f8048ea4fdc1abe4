-- ===== src/Files/Tests.antt =====
-- Runs of the paths of files, and the theorems about them at concrete paths, with ASCII's letters.
use solx_core.Prelude.{
  ℕ, Bool, true, false, ◌&&◌, ◌||◌, leb, [], ◌∷◌, All, codes, text_eq, ok, err, ◌≡◌, ◌≢◌, refl,
  arith,
}
use solx_core.Surface.Error.{invalid}
use solx_core.Surface.Path.{is_whitespace, is_control, trim_start, trim_end, trim}
use solx_core.Files.{
  CharLib, split_rel, join, sanitize_segment, normalize_segments, normalize_rel, resolve,
  action_file_path, shared_action_file_path,
}
use solx_core.Files.Below.{IsBelow, normalize_rel-IsBelow}
use solx_core.Files.Stable.{resolve-resolve}

abbrev pub ascii_alphanumeric : ℕ → Bool
ascii_alphanumeric c =
    (leb b'0' c && leb c b'9') || (leb b'A' c && leb c b'Z') || (leb b'a' c && leb c b'z')

pub ascii_not_whitespace : (c : ℕ) → ascii_alphanumeric c ≡ true → is_whitespace c ≡ false
unfolding is_whitespace
ascii_not_whitespace c h = ground arith

pub ascii_not_control : (c : ℕ) → ascii_alphanumeric c ≡ true → is_control c ≡ false
unfolding is_control
ascii_not_control c h = ground arith

abbrev pub ascii : CharLib
ascii = record {
  is_alphanumeric = ascii_alphanumeric;
  not_whitespace = ascii_not_whitespace;
  not_control = ascii_not_control;
  not_slash = refl;
  not_backslash = refl;
  not_colon = refl;
}

resolves_below :
    (resolve ascii (codes "/docs\\a b/./x.txt ")
      ≡ ok (codes "docs" ∷ codes "a_b" ∷ codes "x.txt" ∷ [], codes "docs/a_b/x.txt"))
    × (resolve ascii (codes "docs/../x") ≡ err invalid)
    × (resolve ascii (codes "C:/x") ≡ err invalid)
    × (resolve ascii (codes "//") ≡ err invalid)
    × (action_file_path ascii (codes "7") (codes "a/b") ≡ codes "files/actions/7/a_b")
    × (shared_action_file_path ascii (codes "x.wasm") ≡ codes "files/actions/shared/x.wasm")
unfolding is_whitespace is_control trim_start trim_end trim split_rel join sanitize_segment
    normalize_segments normalize_rel resolve action_file_path shared_action_file_path text_eq
resolves_below = (refl, refl, refl, refl, refl, refl)

normalized : normalize_rel ascii (codes "docs/a b") ≡ ok (codes "docs" ∷ codes "a_b" ∷ [])
unfolding is_whitespace is_control trim_start trim_end trim split_rel sanitize_segment
    normalize_segments normalize_rel text_eq
normalized = refl

resolved : resolve ascii (codes "docs/a b") ≡ ok (codes "docs" ∷ codes "a_b" ∷ [], codes "docs/a_b")
unfolding is_whitespace is_control trim_start trim_end trim split_rel join sanitize_segment
    normalize_segments normalize_rel resolve text_eq
resolved = refl

normalize_rel-IsBelow_example :
    All (IsBelow ascii) (codes "docs" ∷ codes "a_b" ∷ []) × (codes "docs" ∷ codes "a_b" ∷ [] ≢ [])
normalize_rel-IsBelow_example =
    normalize_rel-IsBelow ascii (codes "docs/a b") (codes "docs" ∷ codes "a_b" ∷ []) normalized

resolve-resolve_example :
    resolve ascii (codes "docs/a_b") ≡ ok (codes "docs" ∷ codes "a_b" ∷ [], codes "docs/a_b")
resolve-resolve_example =
    resolve-resolve ascii (codes "docs/a b") (codes "docs" ∷ codes "a_b" ∷ []) (codes "docs/a_b")
      resolved
