-- ===== src/Wal/Reader.antt =====
-- `WALReader` (wal.go), which followers use: `NewReader` and `Next`. An open file is the number
-- of its segment and the position in it; a read that is cut short leaves the position behind it.
use goraphdb.Common.{
  ℕ, zero, suc, ◌+◌, true, false, Option, none, some, List, [], ◌∷◌, ltb, ◌==◌, if◌then◌else◌,
  length, drop,
}
use goraphdb.Common.Results.{Error, panic, io_failed}
use goraphdb.Types.{Bytes}
use goraphdb.Encoding.Frames.Crc.{crc32}
use goraphdb.Wal.Frame.{WalEntry, EntryCodec, FrameRead, cut_short, slice_panic, framed, read_frame}
use goraphdb.Wal.Log.{Dir, list_segments}

pub record WalReader : Type 0 where
  pub segments : List ℕ
  pub seg_idx : ℕ
  pub file : Option (ℕ × ℕ)
  pub from_lsn : ℕ

unfoldable pub new_reader : ℕ → Dir → WalReader
new_reader from_lsn dir = record {
  segments = list_segments dir;
  seg_idx = 0;
  file = none;
  from_lsn = from_lsn;
}

-- What `Next` returns; `out_of_rounds` is no outcome of the code.
pub data NextResult : Type 0 where
  entry : WalEntry → NextResult
  eof : NextResult
  failed : Error → NextResult
  out_of_rounds : NextResult

unfoldable pub segment_bytes : ℕ → Dir → Option Bytes
segment_bytes n [] = none
segment_bytes n ((m, b) ∷ dir) = if n == m then some b else segment_bytes n dir

unfoldable pub nth : ℕ → List ℕ → Option ℕ
nth i [] = none
nth zero (n ∷ ns) = some n
nth (suc i) (n ∷ ns) = nth i ns

-- The list is read again where it has no segment at the index.
unfoldable pub refresh : Dir → WalReader → WalReader
refresh dir r = elim (nth r.seg_idx r.segments) [
  | some n ↦ r
  | none ↦ record r { segments = list_segments dir }
]

module _ (codec : EntryCodec) (dir : Dir) where
  open codec use {unmarshal}

  abbrev pub Go : Type 0
  Go = WalReader → WalReader × NextResult

  -- A frame cut short: on to a newer segment if the directory has more than the reader's list.
  unfoldable pub at_end : Go → ℕ → ℕ → WalReader → WalReader × NextResult
  at_end go n pos r =
      let on =
        go (record r { file = none; segments = list_segments dir; seg_idx = suc r.seg_idx }) in
      if ltb (length r.segments) (length (list_segments dir))
      then on
      else (record r { file = some (n, pos) }, eof)

  unfoldable pub take_entry : Go → Option WalEntry → WalReader → WalReader × NextResult
  take_entry go none r = go r
  take_entry go (some e) r = let on = go r in if ltb e.lsn r.from_lsn then on else (r, entry e)

  unfoldable pub take_frame : Go → ℕ → ℕ → FrameRead → WalReader → WalReader × NextResult
  unfolding at_end take_entry
  take_frame go n pos (cut_short k) r = at_end go n (pos + k) r
  take_frame go n pos slice_panic r = (r, failed panic)
  take_frame go n pos (framed entry_data stored rest) r = elim (stored == crc32 entry_data) [
    | false ↦ go (record r { file = none; seg_idx = suc r.seg_idx })
    | true ↦
        take_entry go (unmarshal entry_data)
          (record r { file = some (n, pos + length entry_data + 8) })
  ]

  unfoldable pub read_from : Go → ℕ → ℕ → Option Bytes → WalReader → WalReader × NextResult
  unfolding take_frame
  read_from go n pos none r = (r, failed io_failed)
  read_from go n pos (some b) r = take_frame go n pos (read_frame (drop pos b)) r

  unfoldable pub open_next : Go → Option ℕ → WalReader → WalReader × NextResult
  unfolding read_from
  open_next go none r = (r, eof)
  open_next go (some n) r = read_from go n 0 (segment_bytes n dir) (record r { file = some (n, 0) })

  unfoldable pub next_round : Go → Option (ℕ × ℕ) → WalReader → WalReader × NextResult
  unfolding open_next refresh
  next_round go none r = let r' = refresh dir r in open_next go (nth r'.seg_idx r'.segments) r'
  next_round go (some (n, pos)) r = read_from go n pos (segment_bytes n dir) r

  -- The loop, on fuel.
  unfoldable pub next : ℕ → WalReader → WalReader × NextResult
  unfolding next_round
  next zero r = (r, out_of_rounds)
  next (suc fuel) r = next_round (λ t. next fuel t) r.file r
