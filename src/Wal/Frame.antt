-- ===== src/Wal/Frame.antt =====
-- Frames of log entries, and the scan of a segment for its highest LSN (wal.go, wal_entry.go).
-- `EntryCodec` is MessagePack at the type of entries.
use goraphdb.Common.{
  ℕ, zero, suc, ◌+◌, ◌%◌, ◌^◌, Option, none, some, ◌++◌, ltb, ◌==◌, if◌then◌else◌, length, take,
  drop,
}
use goraphdb.Common.Results.{Result, ok, err, panic}
use goraphdb.Types.{Bytes}
use goraphdb.Encoding.Ints.{put_be, read_be}
use goraphdb.Encoding.Frames.Crc.{crc32}

-- `OpType` is kept as its number, the payload as its bytes.
pub record WalEntry : Type 0 where
  pub lsn : ℕ
  pub timestamp : ℕ
  pub op : ℕ
  pub payload : Bytes

pub record EntryCodec : Type 0 where
  pub marshal : WalEntry → Option Bytes
  pub unmarshal : Bytes → Option WalEntry

-- frameLen(4) + entryData + crc32(4)
unfoldable pub frame_of : Bytes → Bytes
frame_of entry_data =
    put_be 4 (length entry_data % 2 ^ 32) ++ (entry_data ++ put_be 4 (crc32 entry_data))

-- What the two reads of a frame give: a header or a body cut short, the number of bytes that were
-- consumed with it; the panic of `buf[:frameLen]` where `frameLen + 4` wraps; or the entry's bytes,
-- the stored checksum and the rest.
pub data FrameRead : Type 0 where
  cut_short : ℕ → FrameRead
  slice_panic : FrameRead
  framed : Bytes → ℕ → Bytes → FrameRead

unfoldable pub read_sum : Bytes → Option ℕ → Bytes → FrameRead
read_sum entry_data none rest = slice_panic
read_sum entry_data (some stored) rest = framed entry_data stored rest

unfoldable pub read_body : ℕ → Bytes → FrameRead
unfolding read_sum
read_body frame_len b =
    let size = (frame_len + 4) % 2 ^ 32 in
    if ltb (length b) size
    then cut_short (4 + length b)
    else if ltb size frame_len
    then slice_panic
    else read_sum (take frame_len b) (read_be 4 0 (drop frame_len (take size b))) (drop size b)

unfoldable pub read_header : Option ℕ → Bytes → FrameRead
unfolding read_body
read_header none b = cut_short (length b)
read_header (some frame_len) b = read_body frame_len (drop 4 b)

unfoldable pub read_frame : Bytes → FrameRead
unfolding read_header
read_frame b = read_header (read_be 4 0 b) b

module _ (codec : EntryCodec) where
  open codec use {unmarshal}

  -- One entry of the scan: go on with the highest LSN so far, or stop with it.
  unfoldable pub scan_entry : (Bytes → ℕ → Result ℕ) → FrameRead → ℕ → Result ℕ
  scan_entry go (cut_short n) last = ok last
  scan_entry go slice_panic last = err panic
  scan_entry go (framed entry_data stored rest) last =
      if stored == crc32 entry_data
      then elim (unmarshal entry_data) [
        | none ↦ ok last
        | some e ↦ go rest (if ltb last e.lsn then e.lsn else last)
      ]
      else ok last

  -- The loop, on fuel: a frame has eight bytes at least, so the length of the file is enough.
  unfoldable pub scan_loop : ℕ → Bytes → ℕ → Result ℕ
  scan_loop zero b last = ok last
  scan_loop (suc fuel) b last = scan_entry (λ r l. scan_loop fuel r l) (read_frame b) last

  unfoldable pub scan_segment_for_last_lsn : Bytes → Result ℕ
  scan_segment_for_last_lsn b = scan_loop (suc (length b)) b 0
