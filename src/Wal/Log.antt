-- ===== src/Wal/Log.antt =====
-- The log itself (wal.go): `OpenWAL`, `Append`, `LastLSN`, `Close`, rotation and pruning. The mutex
-- makes each method one step; the background fsync changes no state that is modelled.
use goraphdb.Common.{
  ℕ, ◌+◌, ◌*◌, ◌-◌, ◌%◌, ◌^◌, Bool, true, false, ◌||◌, Option, none, some, List, [], ◌∷◌, ◌++◌, map,
  ltb, leb, ◌==◌, if◌then◌else◌, length, take,
}
use goraphdb.Common.Results.{Result, ok, err, ◌>>=◌, wal_closed, io_failed, marshal_failed}
use goraphdb.Types.{Bytes}
use goraphdb.Wal.Frame.{WalEntry, EntryCodec, frame_of, scan_segment_for_last_lsn}

-- Segments in ascending order of their numbers.
abbrev pub Dir : Type 0
Dir = List (ℕ × Bytes)

-- What the operating system answers: `write_fails` tells how many bytes a failed write left behind.
pub record Disk : Type 0 where
  pub write_fails : Option ℕ
  pub sync_fails : Bool
  pub close_fails : Bool
  pub create_fails : Bool

abbrev pub good_disk : Disk
good_disk = record {
  write_fails = none;
  sync_fails = false;
  close_fails = false;
  create_fails = false;
}

-- `handle` is the segment that the open file writes to, and none if the file is closed.
pub record Wal : Type 0 where
  pub dir : Dir
  pub handle : Option ℕ
  pub current_seg_n : ℕ
  pub current_size : ℕ
  pub next_lsn : ℕ
  pub closed : Bool

unfoldable pub wal_segment_max_size : ℕ
wal_segment_max_size = 64 * 1024 * 1024

unfoldable pub list_segments : Dir → List ℕ
list_segments dir = map (λ s. s.0) dir

-- `O_CREATE`: a segment that exists keeps its bytes.
unfoldable pub create_segment : ℕ → Dir → Dir
create_segment n [] = (n, []) ∷ []
create_segment n ((m, b) ∷ dir) =
    if n == m
    then (m, b) ∷ dir
    else if ltb n m
    then (n, []) ∷ (m, b) ∷ dir
    else (m, b) ∷ create_segment n dir

-- `O_APPEND`
unfoldable pub write_segment : ℕ → Bytes → Dir → Dir
write_segment n frame [] = []
write_segment n frame ((m, b) ∷ dir) =
    if n == m then (m, b ++ frame) ∷ dir else (m, b) ∷ write_segment n frame dir

unfoldable pub last_segment : Dir → Option (ℕ × Bytes)
last_segment [] = none
last_segment (s ∷ []) = some s
last_segment (s ∷ t ∷ dir) = last_segment (t ∷ dir)

-- A file name that is listed names a file.
unfoldable pub rotate_segment : Disk → Wal → Wal × Result (Unit {0})
rotate_segment disk w =
    if disk.sync_fails
    then (w, err io_failed)
    else if disk.close_fails
    then (record w { handle = none }, err io_failed)
    else if disk.create_fails
    then (
      record w { handle = none; current_seg_n = w.current_seg_n + 1; current_size = 0 },
      err io_failed,
    )
    else (
      record w {
        dir = create_segment (w.current_seg_n + 1) w.dir;
        handle = some (w.current_seg_n + 1);
        current_seg_n = w.current_seg_n + 1;
        current_size = 0;
      },
      ok tt,
    )

-- The write to the open file, and the rotation behind it; an error of the rotation is logged only.
write_frame : Disk → Wal → Option ℕ → Option ℕ → Bytes → ℕ → Wal × Result ℕ
unfolding rotate_segment
write_frame disk w none written frame lsn = (w, err io_failed)
write_frame disk w (some seg) (some n) frame lsn =
    (record w { dir = write_segment seg (take n frame) w.dir }, err io_failed)
write_frame disk w (some seg) none frame lsn =
    let size = w.current_size + length frame in
    let w' = record w { dir = write_segment seg frame w.dir; current_size = size } in
    if leb wal_segment_max_size size then ((rotate_segment disk w').0, ok lsn) else (w', ok lsn)

append_data : Disk → Wal → Option Bytes → ℕ → Wal × Result ℕ
unfolding write_frame
append_data disk w none lsn = (w, err marshal_failed)
append_data disk w (some entry_data) lsn =
    write_frame disk w w.handle disk.write_fails (frame_of entry_data) lsn

module _ (codec : EntryCodec) where
  open codec use {marshal}

  -- `w.nextLSN.Add(1) - 1` is the old value; the LSN is spent also where the entry is not written.
  unfoldable pub append : Disk → ℕ → ℕ → Bytes → Wal → Wal × Result ℕ
  unfolding append_data
  append disk now op payload w =
      if w.closed
      then (w, err wal_closed)
      else let lsn = w.next_lsn in
        let entry : WalEntry = record { lsn = lsn; timestamp = now; op = op; payload = payload } in
        append_data disk (record w { next_lsn = (lsn + 1) % 2 ^ 64 }) (marshal entry) lsn

  open_segment : Dir → Option (ℕ × Bytes) → Result Wal
  open_segment dir none = ok (record {
    dir = create_segment 0 dir;
    handle = some 0;
    current_seg_n = 0;
    current_size = 0;
    next_lsn = 1;
    closed = false;
  })
  open_segment dir (some (n, b)) = do
    last ← scan_segment_for_last_lsn codec b
    ok (record {
      dir = dir;
      handle = some n;
      current_seg_n = n;
      current_size = length b;
      next_lsn = (last + 1) % 2 ^ 64;
      closed = false;
    })

  unfoldable pub open_wal : Dir → Result Wal
  unfolding open_segment
  open_wal dir = open_segment dir (last_segment dir)

  -- The loop over the listed segments: the directory that is left, and how many were removed.
  unfoldable pub prune_loop : (ℕ → Bool) → ℕ → ℕ → Dir → Result (Dir × ℕ)
  prune_loop remove_fails min_lsn current [] = ok ([], 0)
  prune_loop remove_fails min_lsn current ((n, b) ∷ dir) =
      let rest = prune_loop remove_fails min_lsn current dir in
      if leb current n then ok ((n, b) ∷ dir, 0) else do
        last ← scan_segment_for_last_lsn codec b
        (dir', pruned) ← rest
        if (last == 0 || leb min_lsn last) || remove_fails n
            then ok ((n, b) ∷ dir', pruned)
            else ok (dir', pruned + 1)

  unfoldable pub prune_segments_before : (ℕ → Bool) → ℕ → Wal → Result (Wal × ℕ)
  unfolding prune_loop
  prune_segments_before remove_fails min_lsn w = do
    (dir', pruned) ← prune_loop remove_fails min_lsn w.current_seg_n w.dir
    ok (record w { dir = dir' }, pruned)

unfoldable pub last_lsn : Wal → ℕ
last_lsn w = if w.next_lsn == 0 then 0 else w.next_lsn - 1

-- A second `Close` does nothing. The sync of a file that a failed rotation has closed fails.
unfoldable pub close : Disk → Wal → Wal × Result (Unit {0})
close disk w = if w.closed then (w, ok tt) else elim w.handle [
  | none ↦ (record w { closed = true }, err io_failed)
  | some seg ↦ if disk.sync_fails then (record w { closed = true }, err io_failed) else (
    record w { closed = true; handle = none },
    if disk.close_fails then err io_failed else ok tt,
  )
]
