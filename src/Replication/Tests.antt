-- ===== src/Replication/Tests.antt =====
-- The tracker and the pipeline on small inputs.
use goraphdb.Common.{ℕ, ◌≤◌, ◌<◌, ◌≡◌, refl, ◌⊎◌, true, false, [], ◌∷◌, arith, ◌==◌, if◌then◌else◌}
use goraphdb.Replication.Tracker.{LsnTracker, new_lsn_tracker, mem, next, mark_done}
use goraphdb.Replication.Tracker.Watermark.{IsValid, mark_done_watermark}
use goraphdb.Replication.Pipeline.{
  Pipeline, put, start, Reach, here, later, receive, take, apply_succeeds, mark, store, applying,
  applied, marked, idle, applier_workers, applier_ch_buffer,
}
use goraphdb.Replication.Pipeline.Gapless.{watermark_gapless}

-- 7 and 8 are done behind a gap at 6; marking 6 moves the baseline to 8.
abbrev gap_at_six : LsnTracker
gap_at_six = record { done = 7 ∷ 8 ∷ []; baseline = 5 }

gap_filled : mark_done gap_at_six 6 ≡ record { done = []; baseline = 8 }
unfolding mark_done
gap_filled = refl

gap_kept : mark_done gap_at_six 9 ≡ record { done = 9 ∷ 7 ∷ 8 ∷ []; baseline = 5 }
unfolding mark_done
gap_kept = refl

mark_done_watermark_example :
    IsValid (mark_done gap_at_six 6)
    × (5 ≤ (mark_done gap_at_six 6).baseline)
    × ((n : ℕ)
        → 5 < n
        → n ≤ (mark_done gap_at_six 6).baseline
        → (n ≡ 6) ⊎ (mem n (7 ∷ 8 ∷ []) ≡ true))
    × (mem (next (mark_done gap_at_six 6).baseline) (mark_done gap_at_six 6).done ≡ false)
    × ((n : ℕ)
        → (mark_done gap_at_six 6).baseline < n
        → mem n (mark_done gap_at_six 6).done ≡ (if n == 6 then true else mem n (7 ∷ 8 ∷ [])))
mark_done_watermark_example = mark_done_watermark gap_at_six 6 (omega arith) (omega arith)

-- Two workers finish in order, and store their watermarks in the other order.
abbrev s2 : Pipeline
s2 = record (start 0) { channel = 1 ∷ 2 ∷ [] }

abbrev s4 : Pipeline
s4 = record s2 { channel = []; workers = put (put (λ _. idle) 0 (applying 1)) 1 (applying 2) }

abbrev s6 : Pipeline
s6 = record s4 { workers = put (put s4.workers 0 (applied 1)) 1 (applied 2); effects = 2 ∷ 1 ∷ [] }

abbrev s8 : Pipeline
s8 = record s6 {
  workers = put (put s6.workers 0 (marked 1)) 1 (marked 2);
  tracker = record { done = []; baseline = 2 };
}

abbrev s9 : Pipeline
s9 = record s8 { workers = put s8.workers 1 idle; applied_lsn = 2 }

abbrev s10 : Pipeline
s10 = record s9 { workers = put s9.workers 0 idle; applied_lsn = 1 }

Reach-s4 : Reach 0 s4
unfolding applier_workers applier_ch_buffer
Reach-s4 =
    later
      (later
        (later (later here (receive _ 1 (omega arith) (omega arith) (omega arith)))
          (receive _ 2 (omega arith) (omega arith) (omega arith)))
        (take _ 0 1 (2 ∷ []) (omega arith) refl refl refl))
      (take _ 1 2 [] (omega arith) refl refl refl)

Reach-s8 : Reach 0 s8
unfolding new_lsn_tracker mark_done
Reach-s8 =
    later
      (later (later (later Reach-s4 (apply_succeeds _ 0 1 refl)) (apply_succeeds s5 1 2 refl))
        (mark s6 0 1 refl))
      (mark s7 1 2 refl)
  where
    s5 : Pipeline
    s5 = record s4 { workers = put s4.workers 0 (applied 1); effects = 1 ∷ [] }

    s7 : Pipeline
    s7 = record s6 { workers = put s6.workers 0 (marked 1); tracker = mark_done s6.tracker 1 }

Reach-s9 : Reach 0 s9
Reach-s9 = later Reach-s8 (store _ 1 2 refl)

watermark_gapless_example : mem 2 s9.effects ≡ true
watermark_gapless_example = watermark_gapless (omega arith) Reach-s9 2 (omega arith) (omega arith)

-- The late store of the first worker takes the watermark back from 2 to 1.
Reach-s10 : Reach 0 s10
Reach-s10 = later Reach-s9 (store _ 0 1 refl)
