-- ===== src/Config/Policy/Glob.antt =====
-- solx-config/src/types.rs: `glob_matches`. The indices are the parts of the pattern and of the text
-- that are left; of the last star, the pattern behind it and the text behind `star_t`. Each turn of
-- the loop spends a unit of fuel.
pub mod Ends
pub mod Sound
use solx_core.Prelude.{
  ℕ, zero, suc, ◌+◌, Bool, true, false, ◌&&◌, ◌||◌, Option, none, some, List, [], ◌∷◌,
  if◌then◌else◌, length, ◌==◌, Text,
}

-- The loop behind the text: only stars are left.
unfoldable pub only_stars : Text → Bool
only_stars [] = true
only_stars (d ∷ p) = d == b'*' && only_stars p

abbrev pub behind_one : Text → Text
behind_one [] = []
behind_one (c ∷ t) = t

abbrev pub Star : Type 0
Star = Option (Text × Text)

-- Where the loop goes on, if it does: the pattern, the text and the last star.
abbrev pub Turn : Type 0
Turn = Option (Text × Text × Star)

abbrev pub go_back : Star → Turn
go_back none = none
go_back (some (p, t)) = some (p, t, some (p, behind_one t))

abbrev pub turn : Text → ℕ → Text → Star → Turn
turn [] c t star = go_back star
turn (d ∷ p) c t star =
    if d == b'?' || d == c
    then some (p, t, star)
    else if d == b'*'
    then some (p, c ∷ t, some (p, t))
    else go_back star

-- `none` is the end of the fuel.
unfoldable pub glob_loop : ℕ → Text → Text → Star → Option Bool
glob_loop zero p t star = none
glob_loop (suc f) p [] star = some (only_stars p)
glob_loop (suc f) p (c ∷ t) star = elim (turn p c t star) [
  | none ↦ some false
  | some (p', t', star') ↦ glob_loop f p' t' star'
]

-- So many passes over the pattern and the text.
unfoldable pub budget : ℕ → ℕ → ℕ
budget k zero = 0
budget k (suc n) = k + budget k n

abbrev pub answer : Option Bool → Bool
answer none = false
answer (some b) = b

abbrev pub glob_fuel : Text → Text → ℕ
glob_fuel pattern t =
    let once = length pattern + length t in budget (suc once) (length t) + once + 1

unfoldable pub glob_matches : Text → Text → Bool
glob_matches pattern t = answer (glob_loop (glob_fuel pattern t) pattern t none)
