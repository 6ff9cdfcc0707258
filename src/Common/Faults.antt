-- ===== src/Common/Faults.antt =====
-- Code that touches memory returns an `Option`: `none` is an access outside the object.
use mathlib.Core.Path.{◌≡◌, refl}
use mathlib.Core.Option.{Option, none, some}
use mathlib.Core.List.{List}
use Prim.Native.Nat.{ℕ}
use fembed_lwip.Common.Tests.{ltb, if◌then◌else◌}
use fembed_lwip.Common.Lists.{length, set}

infixl 5 ◌>>=◌
abbrev pub ◌>>=◌ {ℓ κ} : {A : Type ℓ} {B : Type κ} → Option A → (A → Option B) → Option B
none >>= f = none
some a >>= f = f a

pub bind_assoc {ℓ κ μ} :
    {A : Type ℓ} {B : Type κ} {C : Type μ} (m : Option A) (f : A → Option B) (g : B → Option C)
    → (m >>= f >>= g) ≡ (m >>= λ a. f a >>= g)
bind_assoc none f g = refl
bind_assoc (some a) f g = refl

-- `xs[i] = v` in an array
abbrev pub store {ℓ} : {A : Type ℓ} → List A → ℕ → A → Option (List A)
store xs i v = if ltb i (length xs) then some (set xs i v) else none
