-- ===== src/Replication/Pipeline.antt =====
-- `streamOnce` of replication/client.go: one receiver, a bounded channel and workers that apply
-- entries concurrently. A step is what a goroutine does between two points at which another may
-- run: a channel operation, `ApplyOp`, `MarkDone` under its mutex, the store of the watermark.
-- The entry that goes through the pipeline is its LSN; `effects` records which were applied.
pub mod Gapless
use goraphdb.Common.{
  ℕ, zero, suc, ◌+◌, ◌≤◌, ◌<◌, ◌≡◌, Bool, true, false, List, [], ◌∷◌, ◌++◌, ◌==◌, if◌then◌else◌,
  length,
}
use goraphdb.Replication.Tracker.{LsnTracker, new_lsn_tracker, mark_done}
use goraphdb.Replication.Tracker.Watermark.{IsLsn}

unfoldable pub applier_workers : ℕ
applier_workers = 8

unfoldable pub applier_ch_buffer : ℕ
applier_ch_buffer = 64

-- Where a worker stands in its loop; `marked c` holds the result of `MarkDone`.
pub data Worker : Type 0 where
  idle stopped : Worker
  applying applied marked : ℕ → Worker

pub record Pipeline : Type 0 where
  pub tracker : LsnTracker
  pub applied_lsn : ℕ
  pub channel : List ℕ
  pub workers : ℕ → Worker
  pub effects : List ℕ
  pub cancelled : Bool

abbrev pub put : (ℕ → Worker) → ℕ → Worker → ℕ → Worker
put f i w j = if i == j then w else f j

abbrev pub start : ℕ → Pipeline
start lsn = record {
  tracker = new_lsn_tracker lsn;
  applied_lsn = lsn;
  channel = [];
  workers = λ _. idle;
  effects = [];
  cancelled = false;
}

pub data Step : Pipeline → Pipeline → Type 0 where
  -- `if entry.LSN <= c.applier.AppliedLSN() { continue }`
  skip : (p : Pipeline) (lsn : ℕ) → lsn ≤ p.applied_lsn → Step p p
  receive :
      (p : Pipeline) (lsn : ℕ)
      → IsLsn lsn
      → p.applied_lsn < lsn
      → length p.channel < applier_ch_buffer
      → Step p (record p { channel = p.channel ++ lsn ∷ [] })
  take :
      (p : Pipeline) (i lsn : ℕ) (rest : List ℕ)
      → i < applier_workers
      → p.workers i ≡ idle
      → p.channel ≡ lsn ∷ rest
      → p.cancelled ≡ false
      → Step p (record p { channel = rest; workers = put p.workers i (applying lsn) })
  -- A worker that takes an entry after the cancellation drops it and returns.
  leave :
      (p : Pipeline) (i lsn : ℕ) (rest : List ℕ)
      → i < applier_workers
      → p.workers i ≡ idle
      → p.channel ≡ lsn ∷ rest
      → p.cancelled ≡ true
      → Step p (record p { channel = rest; workers = put p.workers i stopped })
  apply_succeeds :
      (p : Pipeline) (i lsn : ℕ)
      → p.workers i ≡ applying lsn
      → Step p (record p { workers = put p.workers i (applied lsn); effects = lsn ∷ p.effects })
  apply_fails :
      (p : Pipeline) (i lsn : ℕ)
      → p.workers i ≡ applying lsn
      → Step p (record p { workers = put p.workers i stopped; cancelled = true })
  mark :
      (p : Pipeline) (i lsn : ℕ)
      → p.workers i ≡ applied lsn
      → Step p (record p {
        workers = put p.workers i (marked (mark_done p.tracker lsn).baseline);
        tracker = mark_done p.tracker lsn;
      })
  store :
      (p : Pipeline) (i lsn : ℕ)
      → p.workers i ≡ marked lsn
      → Step p (record p { workers = put p.workers i idle; applied_lsn = lsn })

pub data Reach (lsn : ℕ) : Pipeline → Type 0 where
  here : Reach lsn (start lsn)
  later : {p q : Pipeline} → Reach lsn p → Step p q → Reach lsn q
