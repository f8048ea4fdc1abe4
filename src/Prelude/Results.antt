-- ===== src/Prelude/Results.antt =====
-- Rust's `Result`, with `?` as bind, and the injectivity of constructors.
use mathlib.Core.Path.{◌≡◌, refl}
use mathlib.Core.Option.{some}
use mathlib.Core.Logic.{◌⊎◌, inl, inr}

pub data Result {ℓ κ} (A : Type ℓ) (E : Type κ) : Type (ℓ ⊔ κ) where
  ok : A → Result A E
  err : E → Result A E

module _ {ℓ κ μ} {A : Type ℓ} {B : Type μ} {E : Type κ} where
  infixl 5 ◌>>=◌ ◌>>◌
  abbrev pub ◌>>=◌ : Result A E → (A → Result B E) → Result B E
  err e >>= next = err e
  ok value >>= next = next value

  abbrev pub ◌>>◌ : Result A E → Result B E → Result B E
  first >> second = first >>= λ _. second

  pub >>=-eq :
      (prior : Result A E) {f g : A → Result B E}
      → ((value : A) → f value ≡ g value)
      → (prior >>= f) ≡ (prior >>= g)
  >>=-eq (err e) h = refl
  >>=-eq (ok value) h = h value

  -- A bind fails where its first part fails, or where its second part does.
  pub >>=-eq-err :
      (prior : Result A E) (next : A → Result B E) {e : E}
      → (prior >>= next) ≡ err e
      → (prior ≡ err e) ⊎ ((value : A) × (prior ≡ ok value) × (next value ≡ err e))
  >>=-eq-err (err e) next fails = inl cc
  >>=-eq-err (ok value) next fails = inr (value, refl, fails)

  pub >>=-eq-ok :
      (prior : Result A E) (next : A → Result B E) {out : B}
      → (prior >>= next) ≡ ok out
      → (value : A) × (prior ≡ ok value) × (next value ≡ ok out)
  >>=-eq-ok (err e) next done = cc
  >>=-eq-ok (ok value) next done = (value, refl, done)

module _ {ℓ κ} {A : Type ℓ} {E : Type κ} where
  pub ok-injective : {a b : A} → ◌≡◌ {A = Result A E} (ok a) (ok b) → a ≡ b
  ok-injective h = cc

pub some-injective : {A : Type 0} {a b : A} → some a ≡ some b → a ≡ b
some-injective h = cc
