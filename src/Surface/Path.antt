-- ===== src/Surface/Path.antt =====
-- solx-surface/src/path.rs: paths, names and full references of the directory-style namespace.
-- The tests on characters and the string functions are those of Rust's standard library.
pub mod Trim
pub mod Segments
pub mod Canonical
pub mod Idempotent
pub mod RoundTrip
pub mod Rejoin
pub mod Refused
mod Tests
use solx_core.Prelude.{
  ℕ, suc, Bool, true, false, ◌&&◌, ◌||◌, List, [], ◌∷◌, ◌++◌, Option, none, some, ◌==◌, leb,
  if◌then◌else◌, is_empty, any, take, drop, Text, codes, text_eq, ok, err, ◌>>=◌, ◌>>◌,
}
use solx_core.Surface.Error.{invalid, Fallible}

abbrev between : ℕ → ℕ → ℕ → Bool
between lo hi c = leb lo c && leb c hi

-- `char::is_whitespace`, the White_Space property.
unfoldable pub is_whitespace : ℕ → Bool
is_whitespace c =
    between 9 13 c
    || c == 32
    || c == 0x85
    || c == 0xa0
    || c == 0x1680
    || between 0x2000 0x200a c
    || c == 0x2028
    || c == 0x2029
    || c == 0x202f
    || c == 0x205f
    || c == 0x3000

-- `char::is_control`, the category Cc.
unfoldable pub is_control : ℕ → Bool
is_control c = leb c 31 || between 127 159 c

unfoldable pub trim_start : Text → Text
trim_start [] = []
trim_start (c ∷ s) = if is_whitespace c then trim_start s else c ∷ s

abbrev pub cons_trimmed : ℕ → Text → Text
cons_trimmed c [] = if is_whitespace c then [] else c ∷ []
cons_trimmed c (d ∷ s) = c ∷ d ∷ s

unfoldable pub trim_end : Text → Text
trim_end [] = []
trim_end (c ∷ s) = cons_trimmed c (trim_end s)

unfoldable pub trim : Text → Text
trim s = trim_end (trim_start s)

abbrev pub cons_head : ℕ → List Text → List Text
cons_head c [] = (c ∷ []) ∷ []
cons_head c (part ∷ parts) = (c ∷ part) ∷ parts

-- `str::split` at a character.
unfoldable pub split : ℕ → Text → List Text
split sep [] = [] ∷ []
split sep (c ∷ s) = let parts = split sep s in if c == sep then [] ∷ parts else cons_head c parts

abbrev pub later : ℕ → ℕ → Option ℕ → Option ℕ
later sep c (some i) = some (suc i)
later sep c none = if c == sep then some 0 else none

-- `str::rfind` of a character.
unfoldable pub rfind : ℕ → Text → Option ℕ
rfind sep [] = none
rfind sep (c ∷ s) = later sep c (rfind sep s)

unfoldable pub is_forbidden : ℕ → Bool
is_forbidden c = c == b'/' || c == b'\\' || c == b':'

unfoldable pub validate_segment : Text → Fallible (Unit {0})
validate_segment seg =
    if is_empty seg
    then err invalid
    else if text_eq seg (codes ".") || text_eq seg (codes "..")
    then err invalid
    else if any (λ c. is_forbidden c || is_control c) seg
    then err invalid
    else ok tt

unfoldable pub validate_name : Text → Fallible (Unit {0})
validate_name name = validate_segment (trim name)

-- The loop of `normalize_path`.
unfoldable pub push_segments : Text → List Text → Fallible Text
push_segments out [] = ok out
push_segments out ([] ∷ segs) = push_segments out segs
push_segments out ((c ∷ seg) ∷ segs) = do
  validate_segment (c ∷ seg)
  push_segments (out ++ (b'/' ∷ c ∷ seg)) segs

abbrev pub or_root : Text → Text
or_root [] = codes "/"
or_root (c ∷ s) = c ∷ s

abbrev pub join_segments : Text → Fallible Text
join_segments path = do out ← push_segments [] (split b'/' path); ok (or_root out)

abbrev pub normalize_trimmed : Text → Fallible Text
normalize_trimmed path =
    if is_empty path || text_eq path (codes "/") then ok (codes "/") else join_segments path

unfoldable pub normalize_path : Text → Fallible Text
normalize_path path = normalize_trimmed (trim path)

abbrev pub join_name : Text → Text → Text
join_name path name = if text_eq path (codes "/") then b'/' ∷ name else path ++ (b'/' ∷ name)

unfoldable pub full_ref : Text → Text → Fallible Text
full_ref raw name = do
  path ← normalize_path raw
  validate_name name
  ok (join_name path (trim name))

-- `none` stands for the panic of `expect`.
abbrev pub at_slash : Text → Option ℕ → Option (Fallible (Text × Text))
at_slash normalized none = none
at_slash normalized (some idx) =
    let name = drop (suc idx) normalized in
    let path = if idx == 0 then codes "/" else take idx normalized in
    some (do validate_name name; ok (path, name))

abbrev pub split_normalized : Fallible Text → Option (Fallible (Text × Text))
split_normalized (err e) = some (err e)
split_normalized (ok normalized) =
    if text_eq normalized (codes "/")
    then some (err invalid)
    else at_slash normalized (rfind b'/' normalized)

unfoldable pub split_ref : Text → Option (Fallible (Text × Text))
split_ref full = split_normalized (normalize_path full)
