-- ===== src/Client/Run.antt =====
-- What a client function does: it returns, it touches memory outside an object, or the rounds that
-- its loop was given run out.
use fembed_lwip.Common.{◌≡◌, refl, arith, Option, none, some}

pub data Run {ℓ} (A : Type ℓ) : Type ℓ where
  returned : A → Run A
  fault : Run A
  unfinished : Run A

infixl 5 ◌>>=◌
abbrev pub ◌>>=◌ {ℓ κ} : {A : Type ℓ} {B : Type κ} → Run A → (A → Run B) → Run B
returned a >>= f = f a
fault >>= f = fault
unfinished >>= f = unfinished

-- A packet function inside the client.
abbrev pub lift {ℓ} : {A : Type ℓ} → Option A → Run A
lift none = fault
lift (some a) = returned a

-- A sequence returned because its first part did and the rest then did.
pub bind_returned {ℓ κ} :
    {A : Type ℓ} {B : Type κ} (m : Run A) (f : A → Run B) (b : B)
    → (m >>= f) ≡ returned b
    → (a : A) × (m ≡ returned a) × (f a ≡ returned b)
bind_returned (returned a) f b h = (a, refl, h)
bind_returned fault f b h = ground arith
bind_returned unfinished f b h = ground arith
