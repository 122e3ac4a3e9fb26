-- ===== src/Common/Members.antt =====
-- Membership in a list, taken apart at an append and at a map.
use mathlib.Core.Path.{◌≡◌, refl, ap}
use mathlib.Core.Logic.{◌⊎◌, inl, inr}
use mathlib.Core.List.{List, [], ◌∷◌, ◌++◌, map, Memᴰ}
use mathlib.Core.List.Memᴰ

pub mem_either {ℓ} :
    {A : Type ℓ} {a : A} (xs ys : List A) → Memᴰ a (xs ++ ys) → Memᴰ a xs ⊎ Memᴰ a ys
mem_either [] ys m = inr m
mem_either (x ∷ xs) ys m = elim (Memᴰ.cases_cons m) [
  | inl same ↦ inl (Memᴰ.head same)
  | inr m' ↦ elim (mem_either xs ys m') [ inl l ↦ inl (Memᴰ.tail l) | inr r ↦ inr r ]
]

pub mem_left {ℓ} : {A : Type ℓ} {a : A} (xs ys : List A) → Memᴰ a xs → Memᴰ a (xs ++ ys)
mem_left [] ys m = elim m [ ]
mem_left (x ∷ xs) ys m = elim (Memᴰ.cases_cons m) [
  | inl same ↦ Memᴰ.head same
  | inr m' ↦ Memᴰ.tail (mem_left xs ys m')
]

pub mem_right {ℓ} : {A : Type ℓ} {a : A} (xs ys : List A) → Memᴰ a ys → Memᴰ a (xs ++ ys)
mem_right [] ys m = m
mem_right (x ∷ xs) ys m = Memᴰ.tail (mem_right xs ys m)

pub mem_mapped {ℓ κ} :
    {A : Type ℓ} {B : Type κ} {a : A} {xs : List A} (h : A → B) → Memᴰ a xs → Memᴰ (h a) (map h xs)
mem_mapped {xs = []} h m = elim m [ ]
mem_mapped {xs = x ∷ xs} h m = elim (Memᴰ.cases_cons m) [
  | inl same ↦ Memᴰ.head (ap h same)
  | inr m' ↦ Memᴰ.tail (mem_mapped h m')
]

pub mem_of_map {ℓ κ} :
    {A : Type ℓ} {B : Type κ} {b : B} (h : A → B) (xs : List A)
    → Memᴰ b (map h xs)
    → (a : A) × Memᴰ a xs × (b ≡ h a)
mem_of_map h [] m = elim m [ ]
mem_of_map h (x ∷ xs) m = elim (Memᴰ.cases_cons m) [
  | inl same ↦ (x, Memᴰ.head refl, same)
  | inr m' ↦ let (a, n, e) = mem_of_map h xs m' in (a, Memᴰ.tail n, e)
]
