-- ===== src/Wal/Scanning.antt =====
-- The scan of a segment: whole frames, and a last one that a crash cut short.
use goraphdb.Common.{
  ℕ, zero, suc, ◌+◌, ◌^◌, ◌≤◌, ◌<◌, ◌≡◌, refl, sym, ap, ◌∙◌, true, some, List, [], ◌∷◌, ◌++◌, arith,
  ltb, ◌==◌, ==_iff, if◌then◌else◌, length, take, length-append, append-nil, append_assoc,
}
use goraphdb.Common.Results.{ok}
use goraphdb.Types.{Bytes}
use goraphdb.Encoding.Frames.Crc.{crc32}
use goraphdb.Wal.Frame.{
  WalEntry, EntryCodec, frame_of, cut_short, read_frame, scan_entry, scan_loop,
  scan_segment_for_last_lsn,
}
use goraphdb.Wal.Reading.{short_header, read_frame-frame_of, read_frame-short, length-frame_of}

-- Entries with the bytes that they are marshalled to.
abbrev pub Written : Type 0
Written = List (WalEntry × Bytes)

unfoldable pub bytes_of : Written → Bytes
bytes_of [] = []
bytes_of ((e, d) ∷ es) = frame_of d ++ bytes_of es

abbrev pub highest : ℕ → Written → ℕ
highest last [] = last
highest last ((e, d) ∷ es) = highest (if ltb last e.lsn then e.lsn else last) es

pub bytes_of-append :
    (es : Written) (e : WalEntry) (d : Bytes)
    → bytes_of (es ++ (e, d) ∷ []) ≡ bytes_of es ++ frame_of d
unfolding bytes_of
bytes_of-append [] e d = append-nil (frame_of d)
bytes_of-append ((f, c) ∷ es) e d =
    ap (λ b. frame_of c ++ b) (bytes_of-append es e d)
    ∙ sym (append_assoc (frame_of c) (bytes_of es) (frame_of d))

length-bytes_of : (es : Written) → length es ≤ length (bytes_of es)
unfolding bytes_of
length-bytes_of [] = omega arith
length-bytes_of ((e, d) ∷ es) =
    omega (arith, length-append (frame_of d) (bytes_of es), length-frame_of d, length-bytes_of es)

module _ (codec : EntryCodec) where
  -- The bytes are what the entry is marshalled to, they unmarshal to it, and their length fits.
  pub record Encodes (e : WalEntry) (d : Bytes) : Type 0 where
    pub marshals : codec.marshal e ≡ some d
    pub unmarshals : codec.unmarshal d ≡ some e
    pub fits : length d + 4 < 2 ^ 32

  abbrev pub AllEncode : Written → Type 0
  AllEncode [] = Unit
  AllEncode ((e, d) ∷ es) = Encodes e d × AllEncode es

  scan_frame :
      (e : WalEntry) (d rest : Bytes) (fuel last : ℕ)
      → Encodes e d
      → scan_loop codec (suc fuel) (frame_of d ++ rest) last
        ≡ scan_loop codec fuel rest (if ltb last e.lsn then e.lsn else last)
  unfolding scan_loop scan_entry
  scan_frame e d rest fuel last h =
      let same : (crc32 d == crc32 d) ≡ true = (==_iff _ _).1 refl in
      rw (read_frame-frame_of d rest h.fits) (rw (same, h.unmarshals) refl)

  -- A tail that holds no whole frame ends the scan.
  abbrev pub IsCutShort : Bytes → Type 0
  IsCutShort tail = (n : ℕ) × (read_frame tail ≡ cut_short n)

  scan_tail :
      (fuel last : ℕ) (tail : Bytes) → IsCutShort tail → scan_loop codec fuel tail last ≡ ok last
  unfolding scan_loop scan_entry
  scan_tail zero last tail h = refl
  scan_tail (suc fuel) last tail (n, e) = rw e refl

  scan_entries :
      (es : Written) (tail : Bytes) (fuel last : ℕ)
      → AllEncode es
      → IsCutShort tail
      → length es < fuel
      → scan_loop codec fuel (bytes_of es ++ tail) last ≡ ok (highest last es)
  unfolding bytes_of
  scan_entries [] tail fuel last h t f = scan_tail fuel last tail t
  scan_entries es tail zero last h t f = elim f [ ]
  scan_entries ((e, d) ∷ es) tail (suc fuel) last h t f =
      rw
        (
          append_assoc (frame_of d) (bytes_of es) tail,
          scan_frame e d (bytes_of es ++ tail) fuel last (h.0),
        )
        (scan_entries es tail fuel (if ltb last e.lsn then e.lsn else last) (h.1) t (omega arith))

  -- The scan of a segment finds the highest LSN of its whole entries; the fuel is enough.
  pub scan_segment :
      (es : Written) (tail : Bytes)
      → AllEncode es
      → IsCutShort tail
      → scan_segment_for_last_lsn codec (bytes_of es ++ tail) ≡ ok (highest 0 es)
  unfolding scan_segment_for_last_lsn
  scan_segment es tail h t =
      scan_entries es tail (suc (length (bytes_of es ++ tail))) 0 h t
        (omega (arith, length-append (bytes_of es) tail, length-bytes_of es))

  pub IsCutShort-nil : IsCutShort []
  IsCutShort-nil = short_header [] (omega arith)

  pub IsCutShort-take :
      (d : Bytes) (k : ℕ)
      → length d + 4 < 2 ^ 32
      → k < length (frame_of d)
      → IsCutShort (take k (frame_of d))
  IsCutShort-take = read_frame-short
