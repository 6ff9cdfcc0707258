-- ===== src/Cpp/Inbox.antt =====
-- isQoS2msgidFree, useQoS2msgid and freeQoS2msgid of paho/MQTTClient/src/MQTTClient.h.
use fembed_lwip.Common.{
  ℕ, ◌≡◌, refl, arith, List, [], ◌∷◌, Bool, true, false, ◌==◌, if◌then◌else◌, ◌⊎◌, inl, inr,
  Bool-cases,
}

-- The loops over `incomingQoS2messages`.
unfoldable pub is_qos2msgid_free : ℕ → List ℕ → Bool
is_qos2msgid_free id [] = true
is_qos2msgid_free id (m ∷ ms) =
    let rest = is_qos2msgid_free id ms in if m == id then false else rest

-- Whether there was room, and the identifiers after the call.
unfoldable pub use_qos2msgid : ℕ → List ℕ → Bool × List ℕ
use_qos2msgid id [] = (false, [])
use_qos2msgid id (m ∷ ms) =
    let rest = use_qos2msgid id ms in if m == 0 then (true, id ∷ ms) else (rest.0, m ∷ rest.1)

unfoldable pub free_qos2msgid : ℕ → List ℕ → List ℕ
free_qos2msgid id [] = []
free_qos2msgid id (m ∷ ms) = let rest = free_qos2msgid id ms in if m == id then 0 ∷ ms else m ∷ rest

-- No identifier but 0 stands in the table twice.
unfoldable pub IsUnique : List ℕ → Type 0
IsUnique [] = Unit
IsUnique (m ∷ ms) = ((m ≡ 0) ⊎ (is_qos2msgid_free m ms ≡ true)) × IsUnique ms

-- Another identifier is as free as before.
use_qos2msgid-other :
    (id k : ℕ) (ms : List ℕ)
    → (k == id) ≡ false
    → (k == 0) ≡ false
    → is_qos2msgid_free k ms ≡ true
    → is_qos2msgid_free k (use_qos2msgid id ms).1 ≡ true
unfolding is_qos2msgid_free use_qos2msgid
use_qos2msgid-other id k [] d z h = refl
use_qos2msgid-other id k (m ∷ ms) d z h = ground (arith, use_qos2msgid-other id k ms d z)

free_qos2msgid-other :
    (id k : ℕ) (ms : List ℕ)
    → (k == 0) ≡ false
    → is_qos2msgid_free k ms ≡ true
    → is_qos2msgid_free k (free_qos2msgid id ms) ≡ true
unfolding is_qos2msgid_free free_qos2msgid
free_qos2msgid-other id k [] z h = refl
free_qos2msgid-other id k (m ∷ ms) z h = ground (arith, free_qos2msgid-other id k ms z)

nonzero :
    (m : ℕ) (ms : List ℕ)
    → (m == 0) ≡ false
    → (m ≡ 0) ⊎ (is_qos2msgid_free m ms ≡ true)
    → is_qos2msgid_free m ms ≡ true
nonzero m ms z (inl e) = absurd (ground arith)
nonzero m ms z (inr e) = e

kept :
    (id m : ℕ) (ms : List ℕ)
    → (m ≡ 0) ⊎ (is_qos2msgid_free m ms ≡ true)
    → (m ≡ 0) ⊎ (is_qos2msgid_free m (free_qos2msgid id ms) ≡ true)
kept id m ms (inl e) = inl e
kept id m ms (inr e) = elim (Bool-cases (m == 0)) [
  | inl z ↦ inl (ground arith)
  | inr z ↦ inr (free_qos2msgid-other id m ms z e)
]

-- Taking a free identifier.
pub use_qos2msgid-IsUnique :
    (id : ℕ) (ms : List ℕ)
    → is_qos2msgid_free id ms ≡ true
    → IsUnique ms
    → IsUnique (use_qos2msgid id ms).1
unfolding IsUnique is_qos2msgid_free use_qos2msgid
use_qos2msgid-IsUnique id [] h u = u
use_qos2msgid-IsUnique id (m ∷ ms) h (e, u) =
    let other : (m == id) ≡ false = ground arith in
    let rest : is_qos2msgid_free id ms ≡ true = ground arith in
    elim (Bool-cases (m == 0)) [
      | inl z ↦ rw z (inr rest, u)
      | inr z ↦ rw z (
        inr (use_qos2msgid-other id m ms other z (nonzero m ms z e)),
        use_qos2msgid-IsUnique id ms rest u,
      )
    ]

pub free_qos2msgid-IsUnique : (id : ℕ) (ms : List ℕ) → IsUnique ms → IsUnique (free_qos2msgid id ms)
unfolding IsUnique is_qos2msgid_free free_qos2msgid
free_qos2msgid-IsUnique id [] u = u
free_qos2msgid-IsUnique id (m ∷ ms) (e, u) = elim (Bool-cases (m == id)) [
  | inl t ↦ rw t (inl refl, u)
  | inr t ↦ rw t (kept id m ms e, free_qos2msgid-IsUnique id ms u)
]

-- An identifier other than 0 that is released is free again, so that the next message with it is
-- taken for a new one.
pub free_qos2msgid_frees :
    (id : ℕ) (ms : List ℕ)
    → (id == 0) ≡ false
    → IsUnique ms
    → is_qos2msgid_free id (free_qos2msgid id ms) ≡ true
unfolding IsUnique is_qos2msgid_free free_qos2msgid
free_qos2msgid_frees id [] z u = refl
free_qos2msgid_frees id (m ∷ ms) z (e, u) = elim (Bool-cases (m == id)) [
  | inl t ↦
      let same : m ≡ id = ground arith in
      let zero_other : (0 == id) ≡ false = ground arith in
      rw (t, zero_other) (rw same at (nonzero m ms (rw same z) e))
  | inr t ↦ rw t (rw t (free_qos2msgid_frees id ms z u))
]

-- An identifier that was stored is not free.
pub use_qos2msgid_takes :
    (id : ℕ) (ms : List ℕ)
    → (use_qos2msgid id ms).0 ≡ true
    → is_qos2msgid_free id (use_qos2msgid id ms).1 ≡ false
unfolding is_qos2msgid_free use_qos2msgid
use_qos2msgid_takes id [] h = absurd (ground arith)
use_qos2msgid_takes id (m ∷ ms) h = elim (Bool-cases (m == 0)) [
  | inl z ↦ rw z (ground arith)
  | inr z ↦ rw z (ground (arith, use_qos2msgid_takes id ms (rw z at h)))
]
