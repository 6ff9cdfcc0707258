-- ===== src/Cpp/Ensures.antt =====
-- What holds of every result that a sequence of steps returns.
use fembed_lwip.Common.{◌≡◌, refl, ap, arith, Bool, true, false, if◌then◌else◌}
use mathlib.Core.Path.{subst}
use fembed_lwip.Client.Run.{Run, returned, fault, unfinished, ◌>>=◌, bind_returned}

abbrev pub Ensures {ℓ κ} : {A : Type ℓ} → Run A → (A → Type κ) → Type (ℓ ⊔ κ)
Ensures {A = A} m P = (a : A) → m ≡ returned a → P a

abbrev the {ℓ} : {A : Type ℓ} → A → Run A → A
the d (returned a) = a
the d fault = d
the d unfinished = d

pub ensures_returned {ℓ κ} : {A : Type ℓ} (P : A → Type κ) (a : A) → P a → Ensures (returned a) P
ensures_returned P a h b e = subst P (ap (the a) e) h

pub ensures_bind {ℓ κ μ ν} :
    {A : Type ℓ} {B : Type κ} (P : A → Type μ) (Q : B → Type ν) (m : Run A) (f : A → Run B)
    → Ensures m P
    → ((a : A) → P a → Ensures (f a) Q)
    → Ensures (m >>= f) Q
ensures_bind P Q m f h k b e = let (a, e1, e2) = bind_returned m f b e in k a (h a e1) b e2

-- A packet function says nothing about the client.
pub ensures_any {ℓ κ ν} :
    {A : Type ℓ} {B : Type κ} (Q : B → Type ν) (m : Run A) (f : A → Run B)
    → ((a : A) → Ensures (f a) Q)
    → Ensures (m >>= f) Q
ensures_any Q m f k b e = let (a, e1, e2) = bind_returned m f b e in k a b e2

pub ensures_if {ℓ κ} :
    {A : Type ℓ} (P : A → Type κ) (t : Bool) (m n : Run A)
    → Ensures m P
    → Ensures n P
    → Ensures (if t then m else n) P
ensures_if P true m n h k = h
ensures_if P false m n h k = k

pub ensures_fault {ℓ κ} : {A : Type ℓ} (P : A → Type κ) → Ensures fault P
ensures_fault P a e = absurd (ground arith)

pub ensures_unfinished {ℓ κ} : {A : Type ℓ} (P : A → Type κ) → Ensures unfinished P
ensures_unfinished P a e = absurd (ground arith)

pub ensures_split {ℓ κ} :
    {A : Type ℓ} (P : A → Type κ) (t : Bool) (m n : Run A)
    → (t ≡ true → Ensures m P)
    → (t ≡ false → Ensures n P)
    → Ensures (if t then m else n) P
ensures_split P true m n h k = h refl
ensures_split P false m n h k = k refl

pub returned_injective {ℓ} : {A : Type ℓ} (a b : A) → returned a ≡ returned b → a ≡ b
returned_injective a b e = ap (the a) e
