-- ===== src/Wal/Tailing.antt =====
-- What a reader returns from the middle and from the end of a segment.
use goraphdb.Common.{
  ℕ, suc, ◌+◌, ◌≤◌, ◌≡◌, refl, sym, ap, ◌∙◌, true, false, some, [], ◌++◌, arith, ltb, ◌==◌, ==_iff,
  length, drop-append,
}
use goraphdb.Types.{Bytes}
use goraphdb.Encoding.Frames.Crc.{crc32}
use goraphdb.Wal.Frame.{WalEntry, EntryCodec, frame_of, read_frame, read_header, framed, cut_short}
use goraphdb.Encoding.Ints.{read_be}
use goraphdb.Wal.Log.{Dir, list_segments}
use goraphdb.Wal.Reading.{read_frame-frame_of}
use goraphdb.Wal.Scanning.{Encodes}
use goraphdb.Wal.Reader.{
  WalReader, entry, eof, segment_bytes, at_end, take_entry, take_frame, read_from, next_round, next,
}

module _ (codec : EntryCodec) (dir : Dir) (n : ℕ) (before after : Bytes)
    (here : segment_bytes n dir ≡ some (before ++ after)) where
  -- A round of an open reader reads one frame at its position.
  opened :
      (fuel : ℕ) (r : WalReader)
      → r.file ≡ some (n, length before)
      → next codec dir (suc fuel) r
        ≡ take_frame codec dir (λ t. next codec dir fuel t) n (length before) (read_frame after) r
  unfolding next next_round read_from
  opened fuel r at = rw (at, here, drop-append before after) refl

  frame_kept :
      (fuel : ℕ) (r : WalReader) (d rest : Bytes)
      → take_frame codec dir
          (λ t. next codec dir fuel t)
          n
          (length before)
          (framed d (crc32 d) rest)
          r
        ≡ take_entry codec dir
            (λ t. next codec dir fuel t)
            (codec.unmarshal d)
            (record r { file = some (n, length before + length d + 8) })
  unfolding take_frame
  frame_kept fuel r d rest =
      let sum : (crc32 d == crc32 d) ≡ true = (==_iff (crc32 d) (crc32 d)).1 refl in
      rw (sum, take_frame) refl

  entry_kept :
      (fuel : ℕ) (r : WalReader) (e : WalEntry)
      → r.from_lsn ≤ e.lsn
      → take_entry codec dir (λ t. next codec dir fuel t) (some e) r ≡ (r, entry e)
  unfolding take_entry
  entry_kept fuel r e wanted =
      let keep : ltb e.lsn r.from_lsn ≡ false = ground arith in rw (keep, take_entry) refl

  -- A reader whose position is at a whole frame, of an entry that is not below the LSN it starts from,
  -- returns the entry and moves behind the frame.
  pub next-entry :
      (fuel : ℕ) (r : WalReader) (e : WalEntry) (d rest : Bytes)
      → r.file ≡ some (n, length before)
      → after ≡ frame_of d ++ rest
      → Encodes codec e d
      → r.from_lsn ≤ e.lsn
      → next codec dir (suc fuel) r
        ≡ (record r { file = some (n, length before + length d + 8) }, entry e)
  next-entry fuel r e d rest at same enc wanted =
      let moved : WalReader = record r { file = some (n, length before + length d + 8) } in
      let go = λ (t : WalReader). next codec dir fuel t in
      opened fuel r at
      ∙ ap (λ f. take_frame codec dir go n (length before) f r)
          (ap read_frame same ∙ read_frame-frame_of d rest enc.fits)
      ∙ frame_kept fuel r d rest
      ∙ ap (λ o. take_entry codec dir go o moved) enc.unmarshals
      ∙ entry_kept fuel moved e wanted

  -- A reader at the end of a segment returns EOF and stays there while the directory has no more
  -- segments than its list, also if segments follow in the list that it has not read.
  pub next_eof :
      (fuel : ℕ) (r : WalReader)
      → r.file ≡ some (n, length before)
      → after ≡ []
      → length (list_segments dir) ≤ length r.segments
      → next codec dir (suc fuel) r ≡ (r, eof)
  unfolding take_frame at_end read_frame read_header read_be
  next_eof fuel r at same listed =
      let stay : ltb (length r.segments) (length (list_segments dir)) ≡ false = ground arith in
      let frame : read_frame after ≡ cut_short 0 = ap read_frame same ∙ refl in
      let zero_more : length before + 0 ≡ length before = omega arith in
      opened fuel r at
      ∙ rw (frame, stay)
          (ap (λ o. (record r { file = o }, eof)) (ap (λ k. some (n, k)) zero_more ∙ sym at))
