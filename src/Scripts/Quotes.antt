-- ===== src/Scripts/Quotes.antt =====
-- solx-scripts/src/lib.rs: comments, and the splitting of a text outside quotes. Of the flags
-- `in_single`, `in_double` and `in_triple` at most one is set, so they are one value. Characters
-- that the source consumes ahead are counted, and copied when they are reached.
pub mod Comments
pub mod Split
use solx_core.Prelude.{
  ℕ, zero, suc, Bool, true, false, ◌&&◌, ◌||◌, List, [], ◌∷◌, ◌++◌, if◌then◌else◌, is_empty, ◌==◌,
  Text,
}
use solx_core.Surface.Path.{trim}

pub data Quoting : Type 0 where
  plain single double triple : Quoting

abbrev pub peek_is : ℕ → Text → Bool
peek_is c [] = false
peek_is c (d ∷ s) = d == c

-- `consume_triple_quote_rest`, the test: the two characters are consumed where it is used.
unfoldable pub two_quotes : Text → Bool
two_quotes (c ∷ d ∷ s) = c == b'\'' && d == b'\''
two_quotes _ = false

-- What a character is: kept, with so many characters behind it, or outside of quotes.
pub data Move : Type 0 where
  keep : ℕ → Quoting → Move
  unquoted : Move

-- The arms that `strip_comments` and `split_respecting_quotes_by` share.
unfoldable pub quote_move : Quoting → ℕ → Text → Move
quote_move triple c s = if c == b'\'' && two_quotes s then keep 2 plain else keep 0 triple
quote_move plain c s =
    if c == b'\''
    then (if two_quotes s then keep 2 triple else keep 0 single)
    else if c == b'"'
    then keep 0 double
    else unquoted
quote_move single c s =
    if c == b'\\' && peek_is b'\'' s
    then keep 1 single
    else if c == b'\''
    then keep 0 plain
    else keep 0 single
quote_move double c s =
    if c == b'\\' && (peek_is b'"' s || peek_is b'\\' s)
    then keep 1 double
    else if c == b'"'
    then keep 0 plain
    else keep 0 double

-- Where a scan stands: so many characters to copy, or in a comment.
pub data Scan : Type 0 where
  scanning : ℕ → Quoting → Scan
  comment : Scan

-- The text that a character leaves, and where the scan stands behind it.
abbrev pub kept : ℕ → Move → Text × Scan
kept c (keep n q) = (c ∷ [], scanning n q)
kept c unquoted = if c == b'#' then ([], comment) else (c ∷ [], scanning 0 plain)

unfoldable pub strip_step : Scan → ℕ → Text → Text × Scan
strip_step (scanning (suc n) q) c s = (c ∷ [], scanning n q)
strip_step (scanning zero q) c s = kept c (quote_move q c s)
strip_step comment c s = if c == b'\n' then (c ∷ [], scanning 0 plain) else ([], comment)

unfoldable pub strip_from : Scan → Text → Text
strip_from scan [] = []
strip_from scan (c ∷ s) = let (out, scan') = strip_step scan c s in out ++ strip_from scan' s

unfoldable pub strip_comments : Text → Text
strip_comments source = strip_from (scanning 0 plain) source

-- The separator test may keep state.
module _ {S : Type 0} (is_sep : S → ℕ → Bool × S) where
  -- What the loop holds: the part so far, where it stands, and the state of the test.
  pub record Splitting : Type 0 where
    pub current : Text
    pub ahead : ℕ
    pub quoting : Quoting
    pub state : S

  abbrev pub separated : Splitting → ℕ → Bool × S → List Text × Splitting
  separated at c (true, state') =
      (at.current ∷ [], record { current = []; ahead = 0; quoting = plain; state = state' })
  separated at c (false, state') =
      ([], record { current = at.current ++ c ∷ []; ahead = 0; quoting = plain; state = state' })

  abbrev pub moved : Splitting → ℕ → Move → List Text × Splitting
  moved at c (keep n q) =
      ([], record { current = at.current ++ c ∷ []; ahead = n; quoting = q; state = at.state })
  moved at c unquoted = separated at c (is_sep at.state c)

  abbrev pub split_ahead : ℕ → Splitting → ℕ → Text → List Text × Splitting
  split_ahead (suc n) at c s = (
    [],
    record { current = at.current ++ c ∷ []; ahead = n; quoting = at.quoting; state = at.state },
  )
  split_ahead zero at c s = moved at c (quote_move at.quoting c s)

  unfoldable pub split_from : Splitting → Text → List Text
  split_from at [] = if is_empty (trim at.current) then [] else at.current ∷ []
  split_from at (c ∷ s) =
      let (parts, next) = split_ahead at.ahead at c s in parts ++ split_from next s

  unfoldable pub split_respecting_quotes_by : S → Text → List Text
  split_respecting_quotes_by state s =
      split_from (record { current = []; ahead = 0; quoting = plain; state = state }) s

unfoldable pub split_respecting_quotes : ℕ → Text → List Text
split_respecting_quotes sep s = split_respecting_quotes_by (λ st c. (c == sep, st)) tt s
