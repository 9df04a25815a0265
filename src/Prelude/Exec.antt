-- ===== src/Prelude/Exec.antt =====
-- Methods that change the plugin's state: a function from the state before to the result and the
-- state after. Go's errors are values of the result.
use mathlib.Core.Path.{◌≡◌, ap}
use mathlib.Core.Option.{Option, none, some}

abbrev pub Exec {ℓ κ} : Type ℓ → Type κ → Type (ℓ ⊔ κ)
Exec S A = S → A × S

module _ {ℓ κ} {S : Type ℓ} {A : Type κ} where
  unfoldable pub pure : A → Exec S A
  pure a s = (a, s)

module _ {ℓ κ ι} {S : Type ℓ} {A : Type κ} {B : Type ι} where
  infixl 5 ◌>>=◌ ◌>>◌
  unfoldable pub ◌>>=◌ : Exec S A → (A → Exec S B) → Exec S B
  unfolding pure
  ◌>>=◌ m f s = let (a, s') = m s in f a s'

  abbrev pub ◌>>◌ : Exec S A → Exec S B → Exec S B
  m >> n = m >>= λ _. n

-- Early returns.
module _ {ℓ κ} {A : Type ℓ} {X : Type κ} where
  -- `x, ok := …; if !ok { … }`
  unfoldable pub on_none : Option A → X → (A → X) → X
  on_none none n k = n
  on_none (some a) n k = k a

  -- `if err := …; err != nil { … }`
  unfoldable pub on_some : Option A → (A → X) → X → X
  on_some none k n = n
  on_some (some a) k n = k a

pub on_some-none {ℓ κ} :
    {A : Type ℓ} {X : Type κ} (o : Option A) (k : A → X) (n : X) → o ≡ none → on_some o k n ≡ n
unfolding on_some
on_some-none o k n h = ap (λ o. on_some o k n) h
