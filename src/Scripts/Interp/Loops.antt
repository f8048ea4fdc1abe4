-- ===== src/Scripts/Interp/Loops.antt =====
-- The signed integers that the interpreter counts with: the depth of brackets and the ends of ranges.
use solx_core.Prelude.{ℕ, zero, suc, ◌+◌, ◌-◌, ℤ, pos, negsuc, Bool, true, false}

abbrev pub succ : ℤ → ℤ
succ (pos n) = pos (suc n)
succ (negsuc zero) = pos 0
succ (negsuc (suc n)) = negsuc n

abbrev pub pred : ℤ → ℤ
pred (pos zero) = negsuc 0
pred (pos (suc n)) = pos n
pred (negsuc n) = negsuc (suc n)

abbrev pub at_most_zero : ℤ → Bool
at_most_zero (pos zero) = true
at_most_zero (pos (suc n)) = false
at_most_zero (negsuc n) = true

-- How many integers there are from the first up to the second, the second not counted.
abbrev pub span : ℤ → ℤ → ℕ
span (pos a) (pos b) = b - a
span (pos a) (negsuc b) = 0
span (negsuc a) (pos b) = suc a + b
span (negsuc a) (negsuc b) = a - b
