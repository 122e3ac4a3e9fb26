-- ===== src/Store/Entries.antt =====
-- Lists of entries in the order of their keys: a search, an insertion, an erasure and a suffix.
use mathlib.Core.List.{Memᴰ}
use mathlib.Core.List.Memᴰ
use goraphdb.Common.{
  ◌≡◌, ◌↔◌, ◌⊎◌, inl, inr, refl, sym, ap, subst, ◌∙◌, true, false, Option, none, some, List, [],
  ◌∷◌, arith, if◌then◌else◌, Bool-cases, same_bytes, same_bytes_iff,
}
use goraphdb.Types.{Bytes}
use goraphdb.Encoding.Ints.{lex_lt}
use goraphdb.Store.{IsAscending}

lex_lt_irrefl : (a : Bytes) → lex_lt a a ≡ false
unfolding lex_lt
lex_lt_irrefl [] = refl
lex_lt_irrefl (x ∷ a) = ground (arith, lex_lt_irrefl a)

lex_lt_trans : (a b c : Bytes) → lex_lt a b ≡ true → lex_lt b c ≡ true → lex_lt a c ≡ true
unfolding lex_lt
lex_lt_trans [] [] c h k = cc
lex_lt_trans [] (y ∷ b) [] h k = cc
lex_lt_trans [] (y ∷ b) (z ∷ c) h k = refl
lex_lt_trans (x ∷ a) [] c h k = cc
lex_lt_trans (x ∷ a) (y ∷ b) [] h k = cc
lex_lt_trans (x ∷ a) (y ∷ b) (z ∷ c) h k = ground (arith, lex_lt_trans a b c)

lex_lt-total : (a b : Bytes) → same_bytes a b ≡ false → lex_lt a b ≡ false → lex_lt b a ≡ true
unfolding lex_lt
lex_lt-total [] [] h k = cc
lex_lt-total [] (y ∷ b) h k = cc
lex_lt-total (x ∷ a) [] h k = refl
lex_lt-total (x ∷ a) (y ∷ b) h k = ground (arith, lex_lt-total a b)

unfoldable pub find_entry : Bytes → List (Bytes × Bytes) → Option Bytes
find_entry k [] = none
find_entry k ((j, w) ∷ xs) = if same_bytes k j then some w else find_entry k xs

unfoldable pub insert_entry : Bytes → Bytes → List (Bytes × Bytes) → List (Bytes × Bytes)
insert_entry k v [] = (k, v) ∷ []
insert_entry k v ((j, w) ∷ xs) =
    let rest = insert_entry k v xs in
    if same_bytes k j
    then (k, v) ∷ xs
    else if lex_lt k j
    then (k, v) ∷ (j, w) ∷ xs
    else (j, w) ∷ rest

unfoldable pub erase_entry : Bytes → List (Bytes × Bytes) → List (Bytes × Bytes)
erase_entry k [] = []
erase_entry k ((j, w) ∷ xs) =
    let rest = erase_entry k xs in if same_bytes k j then rest else (j, w) ∷ rest

unfoldable pub seek_entry : Bytes → List (Bytes × Bytes) → List (Bytes × Bytes)
seek_entry p [] = []
seek_entry p (x ∷ xs) = let rest = seek_entry p xs in if lex_lt x.0 p then rest else x ∷ xs

pub find-insert_entry :
    (k j v : Bytes) (xs : List (Bytes × Bytes))
    → find_entry j (insert_entry k v xs) ≡ (if same_bytes k j then some v else find_entry j xs)
unfolding find_entry insert_entry
find-insert_entry k j v [] = ground (arith, same_bytes_iff k j, same_bytes_iff j k)
find-insert_entry k j v ((i, w) ∷ xs) = ground (
  arith,
  same_bytes_iff k j,
  same_bytes_iff j k,
  same_bytes_iff k i,
  same_bytes_iff j i,
  find-insert_entry k j v xs,
)

pub find-erase_entry :
    (k j : Bytes) (xs : List (Bytes × Bytes))
    → find_entry j (erase_entry k xs) ≡ (if same_bytes k j then none else find_entry j xs)
unfolding find_entry erase_entry
find-erase_entry k j [] = ground arith
find-erase_entry k j ((i, w) ∷ xs) =
    ground
      (arith, same_bytes_iff k j, same_bytes_iff k i, same_bytes_iff j i, find-erase_entry k j xs)

-- The three ways to insert.
module _ (k v j w : Bytes) (xs : List (Bytes × Bytes)) where
  insert_same : same_bytes k j ≡ true → insert_entry k v ((j, w) ∷ xs) ≡ (k, v) ∷ xs
  unfolding insert_entry
  insert_same h = rw (h, insert_entry) refl

  insert_below :
      same_bytes k j ≡ false
      → lex_lt k j ≡ true
      → insert_entry k v ((j, w) ∷ xs) ≡ (k, v) ∷ (j, w) ∷ xs
  unfolding insert_entry
  insert_below h l = rw (h, insert_entry, l) refl

  insert_above :
      same_bytes k j ≡ false
      → lex_lt k j ≡ false
      → insert_entry k v ((j, w) ∷ xs) ≡ (j, w) ∷ insert_entry k v xs
  unfolding insert_entry
  insert_above h l = rw (h, insert_entry, l) refl

  insert_cases :
      (insert_entry k v ((j, w) ∷ xs) ≡ (k, v) ∷ xs) × (k ≡ j)
      ⊎ (insert_entry k v ((j, w) ∷ xs) ≡ (k, v) ∷ (j, w) ∷ xs) × (lex_lt k j ≡ true)
      ⊎ (insert_entry k v ((j, w) ∷ xs) ≡ (j, w) ∷ insert_entry k v xs) × (lex_lt j k ≡ true)
  insert_cases = elim (Bool-cases (same_bytes k j)) [
    | inl same ↦ inl (insert_same same, (same_bytes_iff k j).0 same)
    | inr other ↦ elim (Bool-cases (lex_lt k j)) [
      | inl below ↦ inr (inl (insert_below other below, below))
      | inr above ↦ inr (inr (insert_above other above, lex_lt-total k j other above))
    ]
  ]

mem_inserted :
    (k v : Bytes) (y : Bytes × Bytes) (xs : List (Bytes × Bytes))
    → Memᴰ y (insert_entry k v xs)
    → (y ≡ (k, v)) ⊎ Memᴰ y xs
unfolding insert_entry
mem_inserted k v y [] m = Memᴰ.cases_cons m
mem_inserted k v y ((j, w) ∷ xs) m = elim (insert_cases k v j w xs) [
  | inl (e, same) ↦ elim (Memᴰ.cases_cons (subst (Memᴰ y) e m)) [
    | inl new ↦ inl new
    | inr old ↦ inr (Memᴰ.tail old)
  ]
  | inr (inl (e, below)) ↦ Memᴰ.cases_cons (subst (Memᴰ y) e m)
  | inr (inr (e, above)) ↦ elim (Memᴰ.cases_cons (subst (Memᴰ y) e m)) [
    | inl first ↦ inr (Memᴰ.head first)
    | inr rest ↦ elim (mem_inserted k v y xs rest) [
      | inl new ↦ inl new
      | inr old ↦ inr (Memᴰ.tail old)
    ]
  ]
]

mem_erased :
    (k : Bytes) (y : Bytes × Bytes) (xs : List (Bytes × Bytes))
    → Memᴰ y (erase_entry k xs)
    → Memᴰ y xs
unfolding erase_entry
mem_erased k y [] m = m
mem_erased k y ((j, w) ∷ xs) m = elim (Bool-cases (same_bytes k j)) [
  | inl same ↦ Memᴰ.tail (mem_erased k y xs (rw same at m))
  | inr other ↦
      let m' : Memᴰ y ((j, w) ∷ erase_entry k xs) = rw other at m in
      elim (Memᴰ.cases_cons m') [
        | inl first ↦ Memᴰ.head first
        | inr rest ↦ Memᴰ.tail (mem_erased k y xs rest)
      ]
]

pub insert_entry-IsAscending :
    (k v : Bytes) (xs : List (Bytes × Bytes)) → IsAscending xs → IsAscending (insert_entry k v xs)
unfolding insert_entry
insert_entry-IsAscending k v [] h = ((λ y m. elim m [ ]), tt)
insert_entry-IsAscending k v ((j, w) ∷ xs) h = elim (insert_cases k v j w xs) [
  | inl (e, same) ↦
      subst IsAscending (sym e)
        ((λ y m. subst (λ i. lex_lt i y.0 ≡ true) (sym same) (h.0 y m)), h.1)
  | inr (inl (e, below)) ↦ subst IsAscending (sym e) (
    (λ y m. elim (Memᴰ.cases_cons m) [
      | inl first ↦ subst (λ (z : Bytes × Bytes). lex_lt k z.0 ≡ true) (sym first) below
      | inr rest ↦ lex_lt_trans k j y.0 below (h.0 y rest)
    ]),
    h,
  )
  | inr (inr (e, above)) ↦ subst IsAscending (sym e) (
    (λ y m. elim (mem_inserted k v y xs m) [
      | inl new ↦ subst (λ (z : Bytes × Bytes). lex_lt j z.0 ≡ true) (sym new) above
      | inr old ↦ h.0 y old
    ]),
    insert_entry-IsAscending k v xs h.1,
  )
]

pub erase_entry-IsAscending :
    (k : Bytes) (xs : List (Bytes × Bytes)) → IsAscending xs → IsAscending (erase_entry k xs)
unfolding erase_entry
erase_entry-IsAscending k [] h = h
erase_entry-IsAscending k ((j, w) ∷ xs) h = elim (Bool-cases (same_bytes k j)) [
  | inl same ↦ rw same (erase_entry-IsAscending k xs h.1)
  | inr other ↦ rw other ((λ y m. h.0 y (mem_erased k y xs m)), erase_entry-IsAscending k xs h.1)
]

pub mem_found :
    (k v : Bytes) (xs : List (Bytes × Bytes))
    → find_entry k xs ≡ some v
    → Memᴰ {A = Bytes × Bytes} (k, v) xs
unfolding find_entry
mem_found k v [] h = absurd (ground (arith, h))
mem_found k v ((j, w) ∷ xs) h = elim (Bool-cases (same_bytes k j)) [
  | inl same ↦ Memᴰ.head (ground (arith, h, (same_bytes_iff k j).0 same))
  | inr other ↦ Memᴰ.tail (mem_found k v xs (ground (arith, h)))
]

pub found_mem :
    (k v : Bytes) (xs : List (Bytes × Bytes))
    → IsAscending xs
    → Memᴰ {A = Bytes × Bytes} (k, v) xs
    → find_entry k xs ≡ some v
unfolding find_entry
found_mem k v [] h m = elim m [ ]
found_mem k v ((j, w) ∷ xs) h m = elim (Memᴰ.cases_cons m) [
  | inl first ↦ ground (arith, first, same_bytes_iff k j)
  | inr rest ↦
      let up = h.0 (k, v) rest in
      ground (
        arith,
        up,
        lex_lt_irrefl k,
        ap (λ i. lex_lt i k),
        same_bytes_iff k j,
        found_mem k v xs h.1 rest,
      )
]

above_all :
    (p : Bytes) (x : Bytes × Bytes) (k : Bytes)
    → lex_lt x.0 p ≡ false
    → lex_lt x.0 k ≡ true
    → lex_lt k p ≡ false
above_all p x k above h = elim (Bool-cases (lex_lt k p)) [
  | inl below ↦ absurd (ground (arith, above, lex_lt_trans x.0 k p h below))
  | inr at_least ↦ at_least
]

pub seek_suffix :
    (p : Bytes) (y : Bytes × Bytes) (xs : List (Bytes × Bytes))
    → IsAscending xs
    → IsAscending (seek_entry p xs)
      × (Memᴰ y (seek_entry p xs) ↔ Memᴰ y xs × (lex_lt y.0 p ≡ false))
unfolding seek_entry
seek_suffix p y [] h = (tt, ((λ m. elim m [ ]), λ (m, l). elim m [ ]))
seek_suffix p y (x ∷ xs) h = elim (Bool-cases (lex_lt x.0 p)) [
  | inl below ↦
      let (up, (to_list, from_list)) = seek_suffix p y xs h.1 in
      rw below (
        up,
        (
          (λ m. let (n, l) = to_list m in (Memᴰ.tail n, l)),
          λ (m, l). elim (Memᴰ.cases_cons m) [
            | inl first ↦
                absurd (ground (arith, below, l, ap (λ (z : Bytes × Bytes). lex_lt z.0 p) first))
            | inr rest ↦ from_list (rest, l)
          ],
        ),
      )
  | inr above ↦ rw above (
    h,
    (
      (λ m. (
        m,
        elim (Memᴰ.cases_cons m) [
          | inl first ↦ ap (λ (z : Bytes × Bytes). lex_lt z.0 p) first ∙ above
          | inr rest ↦ above_all p x y.0 above (h.0 y rest)
        ],
      )),
      λ (m, l). m,
    ),
  )
]
