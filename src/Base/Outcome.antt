-- ===== src/Base/Outcome.antt =====
-- What a run of the code can come to. `fault` stands for undefined behaviour (an access outside an
-- array or a vector, a builtin at a value where it is undefined) and for a failed `assert`.
use mathlib.Core.Path.{◌≡◌, refl}
use mathlib.Core.Bool.{Bool, true, false}

pub data Run {κ} (T : Type κ) : Type κ where
  fault : Run T
  out_of_fuel : Run T
  ok : T → Run T

-- The rest of the code runs on the value that a step returns, if it returns one.
module _ {κ μ} {S : Type κ} {T : Type μ} where
  infixl 5 ◌>>=◌
  abbrev pub ◌>>=◌ : Run S → (S → Run T) → Run T
  ◌>>=◌ (ok value) rest = rest value
  ◌>>=◌ out_of_fuel rest = out_of_fuel
  ◌>>=◌ fault rest = fault

infixl 5 ◌>>◌
abbrev pub ◌>>◌ {κ} : {T : Type κ} → Run (Unit {0}) → Run T → Run T
checked >> rest = ◌>>=◌ checked (λ _. rest)

-- A bounds check, or an `assert`.
abbrev pub require : Bool → Run (Unit {0})
require true = ok tt
require false = fault

-- The run ends without a fault, in a value that has the property.
abbrev pub Returns {κ μ} : {S : Type κ} → Run S → (S → Type μ) → Type (κ ⊔ μ)
Returns {S} run Post = (value : S) × (run ≡ ok value) × Post value

abbrev pub map_run : {S T : Type 0} → (S → T) → Run S → Run T
map_run f (ok a) = ok (f a)
map_run f out_of_fuel = out_of_fuel
map_run f fault = fault

module _ {S T U : Type 0} (f : T → U) where
  -- The same step first, and then what agrees.
  pub bind_agrees :
      (r : Run S) (g : S → Run T) (h : S → Run U)
      → ((a : S) → map_run f (g a) ≡ h a)
      → map_run f (r >>= g) ≡ (r >>= h)
  bind_agrees (ok a) g h same = same a
  bind_agrees out_of_fuel g h same = refl
  bind_agrees fault g h same = refl

  pub nested_agrees :
      {V : Type 0} (r : Run S) (g : S → Run V) (k : V → Run T) (h : S → Run U)
      → ((a : S) → map_run f (g a >>= k) ≡ h a)
      → map_run f ((r >>= g) >>= k) ≡ (r >>= h)
  nested_agrees (ok a) g k h same = same a
  nested_agrees out_of_fuel g k h same = refl
  nested_agrees fault g k h same = refl
