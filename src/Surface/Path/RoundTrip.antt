-- ===== src/Surface/Path/RoundTrip.antt =====
-- Joining a path and a name to a full reference, and splitting it again.
use solx_core.Prelude.{
  false, List, [], ◌∷◌, ◌++◌, append-nil, some, ◌≡◌, ◌≢◌, refl, sym, ap, subst, ◌∙◌, inl, inr,
  arith, if◌then◌else◌, Bool-cases, ◌==◌, All, All-append, length, take-append_self,
  drop-append_self, Text, codes, text_eq, text_eq_iff, ok, ◌>>=◌, >>=-eq-ok,
}
use solx_core.Surface.Error.{Fallible}
use solx_core.Surface.Path.{
  trim, trim_end, or_root, normalize_path, validate_name, join_name, full_ref, split_normalized,
  split_ref,
}
use solx_core.Surface.Path.Trim.{trim_end_slash, trim-trim, trim_end-trim, trim_end-append}
use solx_core.Surface.Path.Segments.{
  IsSegment, IsSegment-NoSlash, validate_segment_iff, render, render-append, rfind-append,
}
use solx_core.Surface.Path.Canonical.{parts, normalize_path_iff}
use solx_core.Surface.Path.Idempotent.{normalize-render}

pub name-IsSegment : (name : Text) → validate_name name ≡ ok tt → IsSegment (trim name)
unfolding validate_name
name-IsSegment name h = (validate_segment_iff (trim name)).0 h

-- A full reference is the rendered list of the path's segments and the name.
pub record IsJoined (path name r : Text) : Type 0 where
  pub segs : List Text
  pub valid : All IsSegment segs
  pub path_eq : path ≡ or_root (render segs)
  pub ref_eq : r ≡ render segs ++ b'/' ∷ name

text_ne : (a b : Text) → a ≢ b → text_eq a b ≡ false
text_ne a b ne = elim (Bool-cases (text_eq a b)) [
  | inl e ↦ absurd (ne ((text_eq_iff a b).0 e))
  | inr e ↦ e
]

render-ne-root : (s : Text) (segs : List Text) → IsSegment s → render (s ∷ segs) ≢ codes "/"
render-ne-root [] segs p e = p.nonempty refl
render-ne-root (c ∷ s) segs p e = cc

pub join_name-IsJoined :
    (segs : List Text) (name : Text)
    → All IsSegment segs
    → join_name (or_root (render segs)) name ≡ render segs ++ b'/' ∷ name
unfolding text_eq
join_name-IsJoined [] name h = refl
join_name-IsJoined (s ∷ segs) name (p, h) =
    rw (text_ne (render (s ∷ segs)) (codes "/") (render-ne-root s segs p))

pub ok-injective : {a b : Text} → ◌≡◌ {A = Fallible Text} (ok a) (ok b) → a ≡ b
ok-injective h = cc

full_ref-IsJoined :
    (raw name r : Text)
    → full_ref raw name ≡ ok r
    → (path : Text) × (normalize_path raw ≡ ok path)
      × IsSegment (trim name)
      × IsJoined path (trim name) r
unfolding full_ref
full_ref-IsJoined raw name r h =
    let (path, e, h1) =
      >>=-eq-ok (normalize_path raw)
        (λ path. validate_name name >>= λ _. ok (join_name path (trim name))) h in
    let (u, v, h2) = >>=-eq-ok (validate_name name) (λ _. ok (join_name path (trim name))) h1 in
    let (valid, q) = (normalize_path_iff raw path).0 e in
    (
      path,
      e,
      name-IsSegment name v,
      record {
        segs = parts raw;
        valid = valid;
        path_eq = q;
        ref_eq =
            ok-injective (sym h2)
            ∙ ap (λ t. join_name t (trim name)) q
            ∙ join_name-IsJoined (parts raw) (trim name) valid;
      },
    )

-- The rendered list of the segments and the name.
IsJoined-render :
    {path name r : Text}
    → IsSegment name
    → (j : IsJoined path name r)
    → All IsSegment (j.segs ++ name ∷ []) × (r ≡ or_root (render (j.segs ++ name ∷ [])))
IsJoined-render {name} p j = (
  All-append IsSegment j.segs (name ∷ []) j.valid (p, tt),
  j.ref_eq
      ∙ ap (λ t. j_render ++ b'/' ∷ t) (sym (append-nil name))
      ∙ sym (render-append j.segs (name ∷ []))
      ∙ nonroot (j.segs) name,
)
  where
    j_render : Text
    j_render = render j.segs

    nonroot :
        (segs : List Text) (n : Text) → render (segs ++ n ∷ []) ≡ or_root (render (segs ++ n ∷ []))
    nonroot [] n = refl
    nonroot (s ∷ segs) n = refl

segment-ne-nil : (s : Text) → IsSegment s → s ≢ []
segment-ne-nil s p = p.nonempty

slash_ne_nil : (s : Text) → b'/' ∷ s ≢ []
slash_ne_nil s e = cc

fixed_end : (a s : Text) → IsSegment s → trim s ≡ s → trim_end (a ++ b'/' ∷ s) ≡ a ++ b'/' ∷ s
fixed_end a s p e =
    trim_end-append a (b'/' ∷ s)
      (trim_end_slash s ∙ ap (◌∷◌ b'/') (ap trim_end (sym e) ∙ trim_end-trim s ∙ e))
      (slash_ne_nil s)

-- A joined reference normalises to itself,
normalize-IsJoined :
    {path name r : Text}
    → IsSegment name
    → trim name ≡ name
    → IsJoined path name r
    → normalize_path r ≡ ok r
normalize-IsJoined {path} {name} {r} p e j =
    let (valid, q) = IsJoined-render p j in
    subst (λ t. normalize_path t ≡ ok t) (sym q)
      (normalize-render (j.segs ++ name ∷ []) valid
        (subst (λ t. trim_end t ≡ t) (sym j.ref_eq ∙ q) (fixed_end (render j.segs) name p e)))

joined-ne-root : (a s : Text) → IsSegment s → a ++ b'/' ∷ s ≢ codes "/"
joined-ne-root [] s p e = p.nonempty cc
joined-ne-root (c ∷ []) s p e = cc
joined-ne-root (c ∷ d ∷ a) s p e = cc

path_before_slash :
    (segs : List Text)
    → (if length (render segs) == 0 then codes "/" else render segs) ≡ or_root (render segs)
path_before_slash [] = refl
path_before_slash (s ∷ segs) = ground arith

-- and is split into its path and its name, if the trimmed name is valid too.
pub split-IsJoined :
    {path name r : Text}
    → IsSegment name
    → IsJoined path name r
    → split_normalized (ok r) ≡ some (validate_name name >>= λ _. ok (path, name))
split-IsJoined {path} {name} {r} p j =
    rw (j.ref_eq, j.path_eq)
      (rw (
        text_ne (render j.segs ++ b'/' ∷ name) (codes "/") (joined-ne-root (render j.segs) name p),
        rfind-append (render j.segs) name (IsSegment-NoSlash name p),
        drop-append_self (render j.segs) b'/' name,
        take-append_self (render j.segs) (b'/' ∷ name),
        path_before_slash j.segs,
      ))

accepts_name : (name : Text) → IsSegment name → trim name ≡ name → validate_name name ≡ ok tt
unfolding validate_name
accepts_name name p e = rw e ((validate_segment_iff name).1 p)

-- Joining a path and a name and splitting the reference gives the normalised path and the
-- trimmed name, whatever the two texts were.
pub split_ref-full_ref :
    (raw name r : Text)
    → full_ref raw name ≡ ok r
    → (path : Text) × (normalize_path raw ≡ ok path) × (split_ref r ≡ some (ok (path, trim name)))
unfolding split_ref
split_ref-full_ref raw name r h =
    let (path, e, p, j) = full_ref-IsJoined raw name r h in
    (
      path,
      e,
      ap split_normalized (normalize-IsJoined p (trim-trim name) j)
          ∙ split-IsJoined p j
          ∙ ap (λ v. some (v >>= λ _. ok (path, trim name)))
              (accepts_name (trim name) p (trim-trim name)),
    )
