-- ===== src/Replication/Tracker.antt =====
-- `lsnTracker` of replication/client.go: the watermark under which every entry is applied. The map
-- `done` is the list of its keys, and the mutex makes `mark_done` one step.
pub mod Watermark
use goraphdb.Common.{
  ℕ, zero, suc, ◌+◌, ◌%◌, ◌^◌, Bool, true, false, List, [], ◌∷◌, ◌==◌, if◌then◌else◌, length,
}

pub record LsnTracker : Type 0 where
  pub done : List ℕ
  pub baseline : ℕ

unfoldable pub new_lsn_tracker : ℕ → LsnTracker
new_lsn_tracker baseline = record { done = []; baseline = baseline }

abbrev pub mem : ℕ → List ℕ → Bool
mem n [] = false
mem n (x ∷ xs) = if n == x then true else mem n xs

-- `t.done[lsn] = struct{}{}`
unfoldable pub insert : ℕ → List ℕ → List ℕ
insert n xs = if mem n xs then xs else n ∷ xs

-- `delete(t.done, lsn)`
unfoldable pub remove : ℕ → List ℕ → List ℕ
remove n [] = []
remove n (x ∷ xs) = let rest = remove n xs in if n == x then rest else x ∷ rest

-- `t.baseline + 1` in 64 bits
abbrev pub next : ℕ → ℕ
next baseline = (baseline + 1) % 2 ^ 64

-- The loop, on fuel; `mark_done` gives one round more than there are keys.
unfoldable pub advance : ℕ → LsnTracker → LsnTracker
unfolding remove
advance zero t = t
advance (suc fuel) t =
    let rest =
      advance fuel
        (record { done = remove (next t.baseline) t.done; baseline = next t.baseline }) in
    if mem (next t.baseline) t.done then rest else t

unfoldable pub mark_done : LsnTracker → ℕ → LsnTracker
unfolding advance insert
mark_done t lsn =
    let done = insert lsn t.done in
    advance (suc (length done)) (record { done = done; baseline = t.baseline })
