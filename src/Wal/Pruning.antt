-- ===== src/Wal/Pruning.antt =====
-- What pruning may remove (`PruneSegmentsBefore`).
use mathlib.Core.List.{Memᴰ}
use mathlib.Core.List.Memᴰ
use goraphdb.Common.{
  ℕ, ◌<◌, ◌≡◌, refl, sym, ap, ◌⊎◌, inl, inr, Bool, true, false, ◌||◌, [], ◌∷◌, arith, leb, ◌==◌,
  subst, Bool-cases,
}
use goraphdb.Common.Results.{Error, Result, ok, err}
use goraphdb.Types.{Bytes}
use goraphdb.Wal.Frame.{EntryCodec, scan_segment_for_last_lsn}
use goraphdb.Wal.Log.{Dir, prune_loop}

abbrev left_of : Result (Dir × ℕ) → Dir
left_of (ok (dir, n)) = dir
left_of (err e) = []

Result-cases {ℓ} :
    {A : Type ℓ} (r : Result A) → ((a : A) × (r ≡ ok a)) ⊎ ((e : Error) × (r ≡ err e))
Result-cases (ok a) = inl (a, refl)
Result-cases (err e) = inr (e, refl)

module _ (codec : EntryCodec) (remove_fails : ℕ → Bool) (min_lsn current : ℕ) where
  abbrev Pruned : ℕ → Bytes → Type 0
  Pruned n b =
      (n < current)
      × ((last : ℕ) × (scan_segment_for_last_lsn codec b ≡ ok last) × (0 < last) × (last < min_lsn))

  -- What the loop does at one segment, once the scan and the rest of the loop have their results.
  prune_at :
      (k : ℕ) (c : Bytes) (dir rest left : Dir) (pruned p last : ℕ)
      → leb current k ≡ false
      → scan_segment_for_last_lsn codec c ≡ ok last
      → prune_loop codec remove_fails min_lsn current dir ≡ ok (rest, p)
      → prune_loop codec remove_fails min_lsn current ((k, c) ∷ dir) ≡ ok (left, pruned)
      → (left ≡ (k, c) ∷ rest) ⊎ (left ≡ rest) × Pruned k c
  unfolding prune_loop
  prune_at k c dir rest left pruned p last go found others h =
      elim (Bool-cases ((last == 0 || leb min_lsn last) || remove_fails k)) [
        | inl kept ↦ inl (sym (ap left_of (rw (go, found, others, kept) at h)))
        | inr removed ↦ inr (
          sym (ap left_of (rw (go, found, others, removed) at h)),
          (ground arith, (last, found, ground arith, ground arith)),
        )
      ]

  prune_stop :
      (k : ℕ) (c : Bytes) (dir left : Dir) (pruned : ℕ)
      → leb current k ≡ true
      → prune_loop codec remove_fails min_lsn current ((k, c) ∷ dir) ≡ ok (left, pruned)
      → left ≡ (k, c) ∷ dir
  unfolding prune_loop
  prune_stop k c dir left pruned stop h = sym (ap left_of (rw stop at h))

  -- A loop that returns has scanned the segment and returned on the others.
  prune_scans :
      (k : ℕ) (c : Bytes) (dir left : Dir) (pruned : ℕ)
      → leb current k ≡ false
      → prune_loop codec remove_fails min_lsn current ((k, c) ∷ dir) ≡ ok (left, pruned)
      → (last : ℕ) × (scan_segment_for_last_lsn codec c ≡ ok last)
  unfolding prune_loop
  prune_scans k c dir left pruned go h = elim (Result-cases (scan_segment_for_last_lsn codec c)) [
    | inl (last, found) ↦ (last, found)
    | inr (e, failed) ↦ absurd (cc (rw (go, failed) at h))
  ]

  prune_rests :
      (k : ℕ) (c : Bytes) (dir left : Dir) (pruned last : ℕ)
      → leb current k ≡ false
      → scan_segment_for_last_lsn codec c ≡ ok last
      → prune_loop codec remove_fails min_lsn current ((k, c) ∷ dir) ≡ ok (left, pruned)
      → (rest : Dir) × (p : ℕ) × (prune_loop codec remove_fails min_lsn current dir ≡ ok (rest, p))
  unfolding prune_loop
  prune_rests k c dir left pruned last go found h =
      elim (Result-cases (prune_loop codec remove_fails min_lsn current dir)) [
        | inl ((rest, p), others) ↦ (rest, p, others)
        | inr (e, failed) ↦ absurd (cc (rw (go, found, failed) at h))
      ]

  -- The segment is the one looked at, or one of the others.
  keep_one :
      {dir rest left : Dir} (n : ℕ) (b : Bytes) (k : ℕ) (c : Bytes)
      → (left ≡ (k, c) ∷ rest) ⊎ (left ≡ rest) × Pruned k c
      → (◌≡◌ {A = ℕ × Bytes} (n, b) (k, c)) ⊎ Memᴰ (n, b) dir
      → (Memᴰ (n, b) dir → Memᴰ (n, b) rest ⊎ Pruned n b)
      → Memᴰ (n, b) left ⊎ Pruned n b
  keep_one n b k c (inl kept) (inl same) z = inl (rw kept (Memᴰ.head same))
  keep_one n b k c (inr (gone, pr)) (inl same) z =
      inr (subst (λ (s : ℕ × Bytes). Pruned s.0 s.1) (sym same) pr)
  keep_one n b k c (inl kept) (inr m) z = elim (z m) [
    | inl stays ↦ inl (rw kept (Memᴰ.tail stays))
    | inr pr ↦ inr pr
  ]
  keep_one n b k c (inr (gone, _)) (inr m) z = elim (z m) [
    | inl stays ↦ inl (rw gone stays)
    | inr pr ↦ inr pr
  ]

  -- Pruning keeps every segment but those below the active one in which an LSN was found and none of
  -- them reaches `min_lsn`, whichever removals fail.
  pub prune_keeps :
      {n : ℕ} {b : Bytes} (dir left : Dir) (pruned : ℕ)
      → prune_loop codec remove_fails min_lsn current dir ≡ ok (left, pruned)
      → Memᴰ (n, b) dir
      → Memᴰ (n, b) left ⊎ Pruned n b
  prune_keeps [] left pruned h m = elim m [ ]
  prune_keeps {n} {b} ((k, c) ∷ dir) left pruned h m = elim (Bool-cases (leb current k)) [
    | inl stop ↦ inl (subst (Memᴰ (n, b)) (sym (prune_stop k c dir left pruned stop h)) m)
    | inr go ↦
        let (last, found) = prune_scans k c dir left pruned go h in
        let (rest, p, others) = prune_rests k c dir left pruned last go found h in
        keep_one n b k c (prune_at k c dir rest left pruned p last go found others h)
          (Memᴰ.cases_cons m) (prune_keeps dir rest p others)
  ]
