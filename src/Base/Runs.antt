-- ===== src/Base/Runs.antt =====
-- Runs that end with a result.
use mathlib.Core.Path.{◌≡◌, refl}
use mathlib.Core.Bool.{Bool, true, false}
use mathlib.Core.Option.{Option, none, some}
use go_pass.Base.Tests.{if◌then◌else◌}
use go_pass.Base.Texts.{◌>>=◌}

module _ {A : Type 0} where
  abbrev pub Returns : Option A → Type 0
  Returns o = (a : A) × (o ≡ some a)

  pub returns : (a : A) → Returns (some a)
  returns a = (a, refl)

  pub Returns-if :
      (b : Bool) (x y : Option A)
      → (b ≡ true → Returns x)
      → (b ≡ false → Returns y)
      → Returns (if b then x else y)
  Returns-if true x y hx hy = hx refl
  Returns-if false x y hx hy = hy refl

pub Returns->>= :
    {A B : Type 0} (o : Option A) (f : A → Option B)
    → Returns o
    → ((a : A) → Returns (f a))
    → Returns (o >>= f)
Returns->>= o f (a, e) k = rw e (k a)

pub >>=-assoc {ℓ κ μ} :
    {A : Type ℓ} {B : Type κ} {C : Type μ} (r : Option A) (f : A → Option B) (g : B → Option C)
    → ((r >>= f) >>= g) ≡ (r >>= λ a. f a >>= g)
>>=-assoc none f g = refl
>>=-assoc (some a) f g = refl

pub >>=-ext {ℓ κ} :
    {A : Type ℓ} {B : Type κ} (r : Option A) (f g : A → Option B)
    → ((a : A) → f a ≡ g a)
    → (r >>= f) ≡ (r >>= g)
>>=-ext none f g h = refl
>>=-ext (some a) f g h = h a
