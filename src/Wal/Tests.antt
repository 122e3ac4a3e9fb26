-- ===== src/Wal/Tests.antt =====
-- The log on small inputs. The codec keeps entries with a one-byte payload.
use mathlib.Core.List.{Memᴰ}
use goraphdb.Common.{
  ℕ, ◌*◌, ◌-◌, ◌<◌, ◌≡◌, refl, ◌⊎◌, Option, none, some, [], ◌∷◌, ◌++◌, arith, take, true, false,
}
use goraphdb.Common.Results.{ok, err, wal_closed, marshal_failed, io_failed}
use goraphdb.Types.{Bytes}
use goraphdb.Encoding.Ints.{put_be, read_be}
use goraphdb.Wal.Frame.{
  WalEntry, EntryCodec, frame_of, scan_segment_for_last_lsn, scan_loop, scan_entry, read_frame,
}
use goraphdb.Wal.Log.{good_disk, Wal, wal_segment_max_size, append, open_wal, prune_loop}
use goraphdb.Wal.Scanning.{bytes_of, Encodes}
use goraphdb.Wal.Recovery.{
  IsLogged, open_after_crash, append_reopen, reopen_after_rotation, append_lsn,
}
use goraphdb.Wal.Pruning.{prune_keeps}
use goraphdb.Wal.Log.{Dir, list_segments}
use goraphdb.Wal.Reader.{WalReader, entry, eof, segment_bytes, next}
use goraphdb.Wal.Tailing.{next-entry}
use goraphdb.Wal.Draining.{AllFrom, calls, next_drains}

small_marshal : WalEntry → Option Bytes
small_marshal e = some (e.lsn ∷ e.timestamp ∷ e.op ∷ e.payload)

small_unmarshal : Bytes → Option WalEntry
small_unmarshal (l ∷ t ∷ o ∷ p) = some (record { lsn = l; timestamp = t; op = o; payload = p })
small_unmarshal _ = none

abbrev codec : EntryCodec
codec = record { marshal = small_marshal; unmarshal = small_unmarshal }

abbrev first : WalEntry
first = record { lsn = 1; timestamp = 0; op = 1; payload = 9 ∷ [] }

abbrev first_bytes : Bytes
first_bytes = 1 ∷ 0 ∷ 1 ∷ 9 ∷ []

Encodes-first : Encodes codec first first_bytes
unfolding small_marshal small_unmarshal
Encodes-first = record { marshals = refl; unmarshals = refl; fits = omega arith }

abbrev fresh : Wal
fresh = record {
  dir = (0, []) ∷ [];
  handle = some 0;
  current_seg_n = 0;
  current_size = 0;
  next_lsn = 1;
  closed = false;
}

IsLogged-fresh : IsLogged codec [] [] fresh
unfolding bytes_of
IsLogged-fresh = record {
  opened = refl;
  not_closed = refl;
  contents = refl;
  below = tt;
  encoded = tt;
  next_free = refl;
  word = omega arith;
}

open_after_crash_example :
    (w : Wal) × (open_wal codec
        ((0, bytes_of ((first, first_bytes) ∷ []) ++ take 5 (frame_of first_bytes)) ∷ [])
      ≡ ok w)
    × (w.next_lsn ≡ 2)
    × (w.handle ≡ some 0)
unfolding frame_of put_be
open_after_crash_example =
    open_after_crash codec [] 0 ((first, first_bytes) ∷ []) first_bytes 5 (Encodes-first, tt)
      (omega arith) (omega arith)

append_reopen_example :
    (w' v : Wal) × (append codec good_disk 0 1 (9 ∷ []) fresh ≡ (w', ok 1))
    × IsLogged codec [] ((first, first_bytes) ∷ []) w'
    × (open_wal codec w'.dir ≡ ok v)
    × (v.next_lsn ≡ w'.next_lsn)
    × (v.next_lsn ≡ 2)
unfolding frame_of wal_segment_max_size put_be
append_reopen_example =
    append_reopen codec [] [] fresh 0 1 (9 ∷ []) first_bytes IsLogged-fresh Encodes-first
      (omega arith) (omega arith)

-- A log whose segment is about to reach its limit.
abbrev nearly_full : Wal
nearly_full = record fresh { current_size = 64 * 1024 * 1024 - 1 }

IsLogged-nearly_full : IsLogged codec [] [] nearly_full
unfolding bytes_of
IsLogged-nearly_full = record {
  opened = refl;
  not_closed = refl;
  contents = refl;
  below = tt;
  encoded = tt;
  next_free = refl;
  word = omega arith;
}

reopen_after_rotation_example :
    (w' v : Wal) × (append codec good_disk 0 1 (9 ∷ []) nearly_full ≡ (w', ok 1))
    × (w'.dir ≡ (0, bytes_of ((first, first_bytes) ∷ [])) ∷ (1, []) ∷ [])
    × (w'.handle ≡ some 1)
    × (w'.current_size ≡ 0)
    × (w'.next_lsn ≡ 2)
    × (open_wal codec w'.dir ≡ ok v)
    × (v.handle ≡ some 1)
    × (v.next_lsn ≡ 1)
unfolding frame_of wal_segment_max_size put_be
reopen_after_rotation_example =
    reopen_after_rotation codec [] [] nearly_full 0 1 (9 ∷ []) first_bytes IsLogged-nearly_full
      Encodes-first (omega arith)

append_lsn_example :
    (fresh.closed ≡ true) × (append codec good_disk 0 1 (9 ∷ []) fresh ≡ (fresh, err wal_closed))
    ⊎ (fresh.closed ≡ false)
      × ((append codec good_disk 0 1 (9 ∷ []) fresh).0.next_lsn ≡ 2)
      × (((append codec good_disk 0 1 (9 ∷ []) fresh).1 ≡ ok 1)
          ⊎ ((append codec good_disk 0 1 (9 ∷ []) fresh).1 ≡ err marshal_failed)
          ⊎ ((append codec good_disk 0 1 (9 ∷ []) fresh).1 ≡ err io_failed))
append_lsn_example = append_lsn codec good_disk 0 1 (9 ∷ []) fresh

abbrev old_segment : Bytes
old_segment = 0 ∷ 0 ∷ 0 ∷ 4 ∷ 1 ∷ 0 ∷ 1 ∷ 9 ∷ []

-- The segment holds a frame whose checksum is missing: no LSN is found in it, and it stays.
prune_keeps_run :
    prune_loop codec (λ _. false) 5 1 ((0, old_segment) ∷ (1, []) ∷ [])
    ≡ ok ((0, old_segment) ∷ (1, []) ∷ [], 0)
unfolding prune_loop scan_segment_for_last_lsn scan_loop scan_entry read_frame read_be
prune_keeps_run = refl

prune_keeps_example :
    Memᴰ {A = ℕ × Bytes} (0, old_segment) ((0, old_segment) ∷ (1, []) ∷ [])
    ⊎ (0 < 1)
      × ((last : ℕ) × (scan_segment_for_last_lsn codec old_segment ≡ ok last)
          × (0 < last)
          × (last < 5))
prune_keeps_example =
    prune_keeps codec (λ _. false) 5 1 ((0, old_segment) ∷ (1, []) ∷ [])
      ((0, old_segment) ∷ (1, []) ∷ []) 0 prune_keeps_run (Memᴰ.head refl)

-- A directory of two segments, each with one entry, and a reader of it that stands in the first.
abbrev second : WalEntry
second = record { lsn = 2; timestamp = 0; op = 1; payload = 9 ∷ [] }

abbrev two_segments : Dir
two_segments = (0, frame_of first_bytes ++ []) ∷ (1, frame_of (2 ∷ 0 ∷ 1 ∷ 9 ∷ []) ++ []) ∷ []

abbrev reader_at : ℕ → WalReader
reader_at pos = record { segments = 0 ∷ 1 ∷ []; seg_idx = 0; file = some (0, pos); from_lsn = 1 }

next-entry_example :
    next codec two_segments 1 (reader_at 0)
    ≡ (record (reader_at 0) { file = some (0, 12) }, entry first)
unfolding segment_bytes
next-entry_example =
    next-entry codec two_segments 0 [] (frame_of first_bytes ++ []) refl 0 (reader_at 0) first
      first_bytes [] refl refl Encodes-first (omega arith)

-- The first segment is read to its end; the entry of the second, which the reader lists, is not reached.
next_drains_example : calls codec two_segments 1 3 (reader_at 0) ≡ entry first ∷ eof ∷ eof ∷ []
unfolding segment_bytes list_segments bytes_of AllFrom
next_drains_example =
    next_drains codec two_segments 0 0 ((first, first_bytes) ∷ []) 2 (reader_at 0) refl refl
      (Encodes-first, tt) (omega arith, tt) (omega arith)
