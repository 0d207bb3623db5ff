-- ===== src/Common/Options.antt =====
-- What a result of a chain of options says of its parts.
use mathlib.Core.Path.{◌≡◌, refl}
use mathlib.Core.Option
use mathlib.Core.Option.{Option, none, some}

module _ {ℓ κ} {A : Type ℓ} {B : Type κ} where
  pub bind-some :
      (o : Option A) (f : A → Option B) (b : B)
      → Option.bind o f ≡ some b
      → (a : A) × (o ≡ some a) × (f a ≡ some b)
  unfolding Option.bind
  bind-some none f b h = cc
  bind-some (some a) f b h = (a, refl, h)

  pub map-some :
      (f : A → B) (o : Option A) (b : B)
      → Option.map f o ≡ some b
      → (a : A) × (o ≡ some a) × (f a ≡ b)
  map-some f none b h = cc
  map-some f (some a) b h = (a, refl, cc)

pub some_injective {ℓ} : {A : Type ℓ} {a b : A} → some a ≡ some b → a ≡ b
some_injective h = cc
