-- ===== src/Store/Prefix.antt =====
-- The loop `for k, v := c.Seek(prefix); k != nil && bytes.HasPrefix(k, prefix); k, v = c.Next()`, which
-- most reads of the storage use.
use mathlib.Core.List.{Memᴰ}
use mathlib.Core.List.Memᴰ
use goraphdb.Common.{
  ◌≡◌, ◌↔◌, inl, inr, refl, sym, ap, subst, ◌∙◌, true, false, some, List, [], ◌∷◌, arith,
  if◌then◌else◌, Bool-cases,
}
use goraphdb.Types.{Bytes}
use goraphdb.Encoding.Ints.{lex_lt}
use goraphdb.Encoding.Keys.{same_start, has_prefix}
use goraphdb.Encoding.Scan.{has_prefix_iff}
use goraphdb.Store.{Bolt, BoltLaws, IsAscending}

unfoldable pub prefix_loop : Bytes → List (Bytes × Bytes) → List (Bytes × Bytes)
prefix_loop prefix [] = []
prefix_loop prefix (x ∷ xs) = if has_prefix x.0 prefix then x ∷ prefix_loop prefix xs else []

unfoldable pub scan : {Bucket : Type 0} → Bolt Bucket → Bytes → Bucket → List (Bytes × Bytes)
unfolding prefix_loop
scan bolt prefix b = prefix_loop prefix (bolt.seek prefix b)

-- A key with the prefix is not below it.
same_start-ge : (k p : Bytes) → same_start k p ≡ true → lex_lt k p ≡ false
unfolding same_start lex_lt
same_start-ge [] [] h = refl
same_start-ge (x ∷ k) [] h = refl
same_start-ge [] (c ∷ p) h = cc
same_start-ge (x ∷ k) (c ∷ p) h = ground (arith, same_start-ge k p)

-- What lies between the prefix and a key that has it, has it.
same_start_between :
    (j k p : Bytes)
    → lex_lt j p ≡ false
    → lex_lt j k ≡ true
    → same_start k p ≡ true
    → same_start j p ≡ true
unfolding same_start lex_lt
same_start_between j k [] a b h = ground arith
same_start_between [] k (c ∷ p) a b h = cc
same_start_between (x ∷ j) [] (c ∷ p) a b h = cc
same_start_between (x ∷ j) (y ∷ k) (c ∷ p) a b h = ground (arith, same_start_between j k p)

loop_goes :
    (p : Bytes) (x : Bytes × Bytes) (xs : List (Bytes × Bytes))
    → has_prefix x.0 p ≡ true
    → prefix_loop p (x ∷ xs) ≡ x ∷ prefix_loop p xs
unfolding prefix_loop
loop_goes p x xs h = rw h refl

loop_stops :
    (p : Bytes) (x : Bytes × Bytes) (xs : List (Bytes × Bytes))
    → has_prefix x.0 p ≡ false
    → prefix_loop p (x ∷ xs) ≡ []
unfolding prefix_loop
loop_stops p x xs h = rw h refl

loop_keeps :
    (p : Bytes) (x : Bytes × Bytes) (xs : List (Bytes × Bytes))
    → Memᴰ x (prefix_loop p xs)
    → Memᴰ x xs × (has_prefix x.0 p ≡ true)
unfolding prefix_loop
loop_keeps p x [] m = elim m [ ]
loop_keeps p x (y ∷ xs) m = elim (Bool-cases (has_prefix y.0 p)) [
  | inl go ↦ elim (Memᴰ.cases_cons (subst (Memᴰ x) (loop_goes p y xs go) m)) [
    | inl same ↦ (Memᴰ.head same, ap (λ (z : Bytes × Bytes). has_prefix z.0 p) same ∙ go)
    | inr rest ↦ let (m', h) = loop_keeps p x xs rest in (Memᴰ.tail m', h)
  ]
  | inr stop ↦ elim (subst (Memᴰ x) (loop_stops p y xs stop) m) [ ]
]

-- In an ascending list with nothing below the prefix the loop misses no key that has it.
loop_meets :
    (p : Bytes) (x : Bytes × Bytes) (xs : List (Bytes × Bytes))
    → IsAscending xs
    → ((y : Bytes × Bytes) → Memᴰ y xs → lex_lt y.0 p ≡ false)
    → Memᴰ x xs
    → has_prefix x.0 p ≡ true
    → Memᴰ x (prefix_loop p xs)
loop_meets p x [] up above m h = elim m [ ]
loop_meets p x (y ∷ xs) up above m h = elim (Memᴰ.cases_cons m) [
  | inl same ↦
      let go = ap (λ (z : Bytes × Bytes). has_prefix z.0 p) (sym same) ∙ h in
      subst (Memᴰ x) (sym (loop_goes p y xs go)) (Memᴰ.head same)
  | inr rest ↦
      let between =
        same_start_between y.0 x.0 p (above y (Memᴰ.head refl)) (up.0 x rest)
          ((has_prefix_iff x.0 p).0 h) in
      let go = (has_prefix_iff y.0 p).1 between in
      subst (Memᴰ x) (sym (loop_goes p y xs go))
        (Memᴰ.tail (loop_meets p x xs up.1 (λ z n. above z (Memᴰ.tail n)) rest h))
]

module _ {Bucket : Type 0} (bolt : Bolt Bucket) (laws : BoltLaws bolt) where
  -- The scan of a bucket with a prefix lists exactly the entries that the bucket holds under keys with
  -- that prefix.
  pub scan_lem :
      (p k v : Bytes) (b : Bucket)
      → Memᴰ {A = Bytes × Bytes} (k, v) (scan bolt p b)
        ↔ (bolt.fetch k b ≡ some v) × (has_prefix k p ≡ true)
  unfolding scan
  scan_lem p k v b = (
    λ m.
        let (m', h) = loop_keeps p (k, v) (bolt.seek p b) m in
        (((laws.mem-seek p k v b).0 m').0, h),
    λ (f, h).
        loop_meets p (k, v) (bolt.seek p b) (laws.seek-IsAscending p b)
          (λ (j, w) m. ((laws.mem-seek p j w b).0 m).1)
          ((laws.mem-seek p k v b).1 (f, same_start-ge k p ((has_prefix_iff k p).0 h))) h,
  )
