-- ===== src/Surface/Path/Tests.antt =====
-- Runs of the path functions, and the theorems about them at concrete texts.
use solx_core.Prelude.{◌≡◌, ◌↔◌, refl, some, Text, codes, text_eq, All, ok, err}
use solx_core.Surface.Error.{invalid}
use solx_core.Surface.Path.{
  is_whitespace, is_control, is_forbidden, trim_start, trim_end, trim, split, rfind,
  validate_segment, validate_name, push_segments, or_root, normalize_path, full_ref, split_ref,
}
use solx_core.Surface.Path.Segments.{IsSegment, render}
use solx_core.Surface.Path.Canonical.{parts, normalize_path_iff}
use solx_core.Surface.Path.RoundTrip.{split_ref-full_ref}
use solx_core.Surface.Path.Rejoin.{full_ref-split_ref}

-- All that the tests run.
runs : Unit {0}
unfolding is_whitespace is_control is_forbidden trim_start trim_end trim split rfind
    validate_segment validate_name push_segments normalize_path full_ref split_ref text_eq
runs = tt

normalizes_paths :
    (normalize_path (codes "") ≡ ok (codes "/"))
    × (normalize_path (codes "/") ≡ ok (codes "/"))
    × (normalize_path (codes "research/ai") ≡ ok (codes "/research/ai"))
    × (normalize_path (codes "/research/ai/") ≡ ok (codes "/research/ai"))
    × (normalize_path (codes "//research//ai//") ≡ ok (codes "/research/ai"))
unfolding runs
normalizes_paths = (refl, refl, refl, refl, refl)

rejects_bad_segments :
    (normalize_path (codes "/a:b") ≡ err invalid)
    × (normalize_path (codes "/a\\b") ≡ err invalid)
    × (validate_name (codes "a/b") ≡ err invalid)
    × (normalize_path (codes "/a/../b") ≡ err invalid)
unfolding runs
rejects_bad_segments = (refl, refl, refl, refl)

full_ref_and_split_roundtrip :
    (full_ref (codes "/research/ai") (codes "note") ≡ ok (codes "/research/ai/note"))
    × (full_ref (codes "/") (codes "note") ≡ ok (codes "/note"))
    × (split_ref (codes "/research/ai/note") ≡ some (ok (codes "/research/ai", codes "note")))
    × (split_ref (codes "/note") ≡ some (ok (codes "/", codes "note")))
    × (split_ref (codes "/") ≡ some (err invalid))
unfolding runs
full_ref_and_split_roundtrip = (refl, refl, refl, refl, refl)

-- A path whose last segment ends in a space is not stable: normalising it again drops the space.
drops_a_space :
    (normalize_path (codes "/a /") ≡ ok (codes "/a "))
    × (normalize_path (codes "/a ") ≡ ok (codes "/a"))
unfolding runs
drops_a_space = (refl, refl)

-- A name that starts with a space is found by splitting and lost by joining.
loses_a_space :
    (split_ref (codes "/a/ b") ≡ some (ok (codes "/a", codes " b")))
    × (full_ref (codes "/a") (codes " b") ≡ ok (codes "/a/b"))
unfolding runs
loses_a_space = (refl, refl)

normalize_path_iff_example : (normalize_path (codes " a//b/ ") ≡ ok (codes "/a/b")) ↔ (
    All IsSegment (parts (codes " a//b/ "))
    × (codes "/a/b" ≡ or_root (render (parts (codes " a//b/ ")))))
normalize_path_iff_example = normalize_path_iff (codes " a//b/ ") (codes "/a/b")

split_ref-full_ref_example :
    (path : Text) × (normalize_path (codes "research/ai/") ≡ ok path)
    × (split_ref (codes "/research/ai/note") ≡ some (ok (path, trim (codes " note "))))
split_ref-full_ref_example =
    split_ref-full_ref (codes "research/ai/") (codes " note ") (codes "/research/ai/note")
      (unfold runs in refl)

full_ref-split_ref_example :
    full_ref (codes "/research/ai") (codes "note") ≡ normalize_path (codes "research/ai//note")
full_ref-split_ref_example =
    full_ref-split_ref (codes "research/ai//note") (codes "/research/ai") (codes "note")
      (unfold runs in refl) (unfold runs in refl) (unfold runs in refl)
