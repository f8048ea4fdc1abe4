-- ===== src/Surface/Path/Refused.antt =====
-- The functions on paths fail with `invalid` alone.
use solx_core.Prelude.{
  Bool, ◌||◌, List, [], ◌∷◌, if◌then◌else◌, is_empty, Text, codes, text_eq, ok, err, ◌>>=◌, ◌≡◌,
  refl, inl, inr, Bool-cases,
}
use solx_core.Surface.Error.{invalid, Fallible}
use solx_core.Surface.Path.{
  trim, split, validate_segment, validate_name, push_segments, join_segments, normalize_path,
  full_ref,
}

abbrev pub OnlyInvalid : {A : Type 0} → Fallible A → Type 0
OnlyInvalid (ok a) = Unit
OnlyInvalid (err e) = e ≡ invalid

pub OnlyInvalid-bind :
    {A B : Type 0} (m : Fallible A) (f : A → Fallible B)
    → OnlyInvalid m
    → ((a : A) → OnlyInvalid (f a))
    → OnlyInvalid (m >>= f)
OnlyInvalid-bind (ok a) f h k = k a
OnlyInvalid-bind (err e) f h k = h

OnlyInvalid-if :
    {A : Type 0} (b : Bool) (x y : Fallible A)
    → OnlyInvalid x
    → OnlyInvalid y
    → OnlyInvalid (if b then x else y)
OnlyInvalid-if b x y h k = elim (Bool-cases b) [ inl e ↦ rw e h | inr e ↦ rw e k ]

validate_segment-OnlyInvalid : (seg : Text) → OnlyInvalid (validate_segment seg)
unfolding validate_segment
validate_segment-OnlyInvalid seg = search (OnlyInvalid-if, tt, refl)

push_segments-OnlyInvalid : (out : Text) (segs : List Text) → OnlyInvalid (push_segments out segs)
unfolding push_segments
push_segments-OnlyInvalid out [] = tt
push_segments-OnlyInvalid out ([] ∷ segs) = push_segments-OnlyInvalid out segs
push_segments-OnlyInvalid out ((c ∷ seg) ∷ segs) =
    OnlyInvalid-bind (validate_segment (c ∷ seg)) _ (validate_segment-OnlyInvalid (c ∷ seg))
      (λ u. push_segments-OnlyInvalid _ segs)

pub normalize_path-OnlyInvalid : (raw : Text) → OnlyInvalid (normalize_path raw)
unfolding normalize_path
normalize_path-OnlyInvalid raw =
    OnlyInvalid-if (is_empty (trim raw) || text_eq (trim raw) (codes "/")) (ok (codes "/"))
      (join_segments (trim raw)) tt
      (OnlyInvalid-bind (push_segments [] (split b'/' (trim raw))) _
        (push_segments-OnlyInvalid [] (split b'/' (trim raw))) (λ out. tt))

pub full_ref-OnlyInvalid : (raw name : Text) → OnlyInvalid (full_ref raw name)
unfolding full_ref validate_name
full_ref-OnlyInvalid raw name =
    OnlyInvalid-bind (normalize_path raw) _ (normalize_path-OnlyInvalid raw) (λ path.
      OnlyInvalid-bind (validate_segment (trim name)) _ (validate_segment-OnlyInvalid (trim name))
        (λ u. tt))
