-- ===== src/Replication/Tracker/Watermark.antt =====
-- The watermark is the highest number up to which there is no gap.
use goraphdb.Common.{
  ℕ, zero, suc, ◌+◌, ◌^◌, ◌≤◌, ◌<◌, ◌≡◌, refl, ◌∙◌, ◌⊎◌, inl, inr, true, false, List, [], ◌∷◌,
  arith, ◌==◌, ==_iff, if◌then◌else◌, length, Bool-cases, ℕ_discrete,
}
use goraphdb.Replication.Tracker.{LsnTracker, mem, insert, remove, next, advance, mark_done}

-- Log sequence numbers are words and start at 1.
abbrev pub IsLsn : ℕ → Type 0
IsLsn n = (0 < n) × (n < 2 ^ 64)

abbrev pub AllLsn : List ℕ → Type 0
AllLsn [] = Unit
AllLsn (x ∷ xs) = IsLsn x × AllLsn xs

IsLsn-of_mem : (n : ℕ) (xs : List ℕ) → AllLsn xs → mem n xs ≡ true → IsLsn n
IsLsn-of_mem n [] h m = cc
IsLsn-of_mem n (x ∷ xs) h m = ground (arith, IsLsn-of_mem n xs)

eq_of_test : (n m : ℕ) → (n == m) ≡ true → n ≡ m
eq_of_test n m h = (==_iff n m).0 h

pub mem-insert : (n m : ℕ) (xs : List ℕ) → mem n (insert m xs) ≡ (if n == m then true else mem n xs)
unfolding insert
mem-insert n m xs = ground (arith, eq_of_test n m)

mem-remove : (n m : ℕ) (xs : List ℕ) → mem n (remove m xs) ≡ (if n == m then false else mem n xs)
unfolding remove
mem-remove n m [] = ground arith
mem-remove n m (x ∷ xs) = ground (arith, mem-remove n m xs)

remove-AllLsn : (m : ℕ) (xs : List ℕ) → AllLsn xs → AllLsn (remove m xs)
unfolding remove
remove-AllLsn m [] h = h
remove-AllLsn m (x ∷ xs) h = ground (arith, remove-AllLsn m xs)

length-remove-le : (m : ℕ) (xs : List ℕ) → length (remove m xs) ≤ length xs
unfolding remove
length-remove-le m [] = omega arith
length-remove-le m (x ∷ xs) = ground (arith, length-remove-le m xs)

length-remove-lt : (m : ℕ) (xs : List ℕ) → mem m xs ≡ true → length (remove m xs) < length xs
unfolding remove
length-remove-lt m [] h = cc
length-remove-lt m (x ∷ xs) h = ground (arith, length-remove-lt m xs, length-remove-le m xs)

-- What the loop leaves: everything it passed was there, it stops at a gap, and it takes out what it
-- passed alone.
pub record Advanced (t u : LsnTracker) : Type 0 where
  pub word : u.baseline < 2 ^ 64
  pub grows : t.baseline ≤ u.baseline
  pub passed : (n : ℕ) → t.baseline < n → n ≤ u.baseline → mem n t.done ≡ true
  pub gap : mem (next u.baseline) u.done ≡ false
  pub lsns : AllLsn u.done
  pub kept : (n : ℕ) → u.baseline < n → mem n u.done ≡ mem n t.done
  pub only : (n : ℕ) → mem n u.done ≡ true → mem n t.done ≡ true

-- One round: the number behind the baseline is there, so it is taken out and the baseline moves to it.
module _ (t : LsnTracker) (w : t.baseline < 2 ^ 64) (lsns : AllLsn t.done)
    (found : mem (next t.baseline) t.done ≡ true) where
  abbrev after_round : LsnTracker
  after_round = record { done = remove (next t.baseline) t.done; baseline = next t.baseline }

  next_lem : next t.baseline ≡ t.baseline + 1
  next_lem = omega (arith, IsLsn-of_mem (next t.baseline) t.done lsns found)

  other : (n : ℕ) → mem n (remove (next t.baseline) t.done) ≡ true → mem n t.done ≡ true
  other n h = ground (arith, mem-remove n (next t.baseline) t.done)

  beyond : (n : ℕ) → next t.baseline < n → mem n (remove (next t.baseline) t.done) ≡ mem n t.done
  beyond n h = ground (arith, mem-remove n (next t.baseline) t.done)

  Advanced-round : {u : LsnTracker} → Advanced after_round u → Advanced t u
  Advanced-round {u} a = record {
    word = a.word;
    grows = omega (arith, a.grows, next_lem);
    passed = λ n lo hi. elim (ℕ_discrete n (next t.baseline)) [
      | yes e ↦ rw e found
      | no ne ↦ other n (a.passed n (omega (arith, next_lem)) hi)
    ];
    gap = a.gap;
    lsns = a.lsns;
    kept = λ n h. a.kept n h ∙ beyond n (omega (arith, a.grows));
    only = λ n h. other n (a.only n h);
  }

pub advance_lem :
    (fuel : ℕ) (t : LsnTracker)
    → t.baseline < 2 ^ 64
    → AllLsn t.done
    → length t.done < fuel
    → Advanced t (advance fuel t)
unfolding advance
advance_lem zero t w h f = elim f [ ]
advance_lem (suc fuel) t w h f = elim (Bool-cases (mem (next t.baseline) t.done)) [
  | inl found ↦ rw found (
      Advanced-round t w h found (
        advance_lem fuel (after_round t w h found) (omega arith)
          (remove-AllLsn (next t.baseline) t.done h)
          (omega (arith, length-remove-lt (next t.baseline) t.done found))))
  | inr missing ↦ rw missing (record {
    word = w;
    grows = omega arith;
    passed = λ n lo hi. absurd (omega arith);
    gap = missing;
    lsns = h;
    kept = λ n _. refl;
    only = λ n m. m;
  })
]

insert-AllLsn : (n : ℕ) (xs : List ℕ) → IsLsn n → AllLsn xs → AllLsn (insert n xs)
unfolding insert
insert-AllLsn n xs l h = ground arith

-- A tracker that `mark_done` may be called on.
pub record IsValid (t : LsnTracker) : Type 0 where
  pub word : t.baseline < 2 ^ 64
  pub lsns : AllLsn t.done

-- `mark_done` never fails to reach a gap: the new baseline is the highest number such that every
-- number from the old baseline up to it is the one marked now or was marked before.
pub mark_done_watermark :
    (t : LsnTracker) (lsn : ℕ)
    → IsValid t
    → IsLsn lsn
    → IsValid (mark_done t lsn)
      × (t.baseline ≤ (mark_done t lsn).baseline)
      × ((n : ℕ)
          → t.baseline < n
          → n ≤ (mark_done t lsn).baseline
          → (n ≡ lsn) ⊎ (mem n t.done ≡ true))
      × (mem (next (mark_done t lsn).baseline) (mark_done t lsn).done ≡ false)
      × ((n : ℕ)
          → (mark_done t lsn).baseline < n
          → mem n (mark_done t lsn).done ≡ (if n == lsn then true else mem n t.done))
unfolding mark_done
mark_done_watermark t lsn v l =
    let marked = record t { done = insert lsn t.done } in
    let a =
      advance_lem (suc (length marked.done)) marked v.word (insert-AllLsn lsn t.done l v.lsns)
        (omega arith) in
    (
      record { word = a.word; lsns = a.lsns },
      a.grows,
      λ n lo hi. ground (arith, a.passed n lo hi, mem-insert n lsn t.done, eq_of_test n lsn),
      a.gap,
      λ n h. a.kept n h ∙ mem-insert n lsn t.done,
    )

-- `mark_done` keeps no number but those it was given.
pub done-mark_done :
    (t : LsnTracker) (lsn n : ℕ)
    → IsValid t
    → IsLsn lsn
    → mem n (mark_done t lsn).done ≡ true
    → (n ≡ lsn) ⊎ (mem n t.done ≡ true)
unfolding mark_done
done-mark_done t lsn n v l h =
    let marked = record t { done = insert lsn t.done } in
    let a =
      advance_lem (suc (length marked.done)) marked v.word (insert-AllLsn lsn t.done l v.lsns)
        (omega arith) in
    ground (arith, a.only n h, mem-insert n lsn t.done, eq_of_test n lsn)

IsValid-mark_done : (t : LsnTracker) (lsn : ℕ) → IsValid t → IsLsn lsn → IsValid (mark_done t lsn)
IsValid-mark_done t lsn v l = (mark_done_watermark t lsn v l).0
