-- ===== src/Scripts/Parser/Leaves.antt =====
-- What a parser on fuel leaves: the lemmas are shared by the parsers of expressions and of blocks.
use solx_core.Prelude.{
  ℕ, ◌≤◌, ◌<◌, Bool, true, false, List, if◌then◌else◌, length, Result, ok, err, ◌>>=◌, ◌≡◌, refl,
  arith,
}
use solx_core.Scripts.Parser.{Stop, invalid_expr}

-- The call kept within its fuel, and what it left is shorter than `n`.
pub data Leaves {T A : Type 0} (n : ℕ) : Result (A × List T) Stop → Type 0 where
  took : {a : A} {ts : List T} → length ts < n → Leaves n (ok (a, ts))
  refused : Leaves n (err invalid_expr)

module _ {T : Type 0} where
  pub Leaves-bind :
      {A B : Type 0} {n m : ℕ} {r : Result (A × List T) Stop}
      (k : A × List T → Result (B × List T) Stop)
      → Leaves n r
      → ((a : A) (ts : List T) → length ts < n → Leaves m (k (a, ts)))
      → Leaves m (r >>= k)
  Leaves-bind k (took {a} {ts} l) h = h a ts l
  Leaves-bind k refused h = refused

  pub Leaves-if :
      {A : Type 0} {n : ℕ} (b : Bool) {x y : Result (A × List T) Stop}
      → (b ≡ true → Leaves n x)
      → Leaves n y
      → Leaves n (if b then x else y)
  Leaves-if true hx hy = hx refl
  Leaves-if false hx hy = hy

  pub Leaves-weaken :
      {A : Type 0} {n m : ℕ} {r : Result (A × List T) Stop} → n ≤ m → Leaves n r → Leaves m r
  Leaves-weaken le (took l) = took (omega (arith, le, l))
  Leaves-weaken le refused = refused
