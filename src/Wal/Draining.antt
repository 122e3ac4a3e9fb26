-- ===== src/Wal/Draining.antt =====
-- Calls of `Next` (wal.go) one after another on a segment of whole entries.
use goraphdb.Common.{
  ℕ, zero, suc, ◌+◌, ◌≤◌, ◌≡◌, refl, sym, ap, ◌∙◌, some, List, [], ◌∷◌, ◌++◌, arith, length, map,
  length-append, append_assoc, replicate,
}
use goraphdb.Types.{Bytes}
use goraphdb.Wal.Frame.{EntryCodec, frame_of}
use goraphdb.Wal.Log.{Dir, list_segments}
use goraphdb.Wal.Reading.{length-frame_of}
use goraphdb.Wal.Scanning.{Written, bytes_of, AllEncode}
use goraphdb.Wal.Reader.{WalReader, NextResult, entry, eof, segment_bytes, next}
use goraphdb.Wal.Tailing.{next-entry, next_eof}

-- The results of as many calls, each with this fuel.
pub calls : EntryCodec → Dir → ℕ → ℕ → WalReader → List NextResult
calls codec dir fuel zero r = []
calls codec dir fuel (suc n) r =
    let (r', result) = next codec dir fuel r in result ∷ calls codec dir fuel n r'

-- None of the entries is below the LSN that a reader starts from.
unfoldable pub AllFrom : ℕ → Written → Type 0
AllFrom lsn [] = Unit
AllFrom lsn ((e, d) ∷ es) = (lsn ≤ e.lsn) × AllFrom lsn es

module _ (codec : EntryCodec) (dir : Dir) (n fuel : ℕ) where
  waits :
      (before : Bytes) (more : ℕ) (r : WalReader)
      → segment_bytes n dir ≡ some (before ++ [])
      → r.file ≡ some (n, length before)
      → length (list_segments dir) ≤ length r.segments
      → calls codec dir (suc fuel) more r ≡ replicate more eof
  unfolding calls
  waits before zero r here at listed = refl
  waits before (suc more) r here at listed =
      rw (next_eof codec dir n before [] here fuel r at refl listed)
        (ap (◌∷◌ eof) (waits before more r here at listed))

  drains :
      (before : Bytes) (es : Written) (more : ℕ) (r : WalReader)
      → segment_bytes n dir ≡ some (before ++ bytes_of es)
      → r.file ≡ some (n, length before)
      → AllEncode codec es
      → AllFrom r.from_lsn es
      → length (list_segments dir) ≤ length r.segments
      → calls codec dir (suc fuel) (length es + more) r
        ≡ map (λ x. entry (x.0)) es ++ replicate more eof
  unfolding calls bytes_of AllFrom
  drains before [] more r here at enc from listed =
      ap (λ k. calls codec dir (suc fuel) k r) (omega arith) ∙ waits before more r here at listed
  drains before ((e, d) ∷ es) more r here at enc from listed =
      let moved : WalReader = record r { file = some (n, length before + length d + 8) } in
      let there : segment_bytes n dir ≡ some ((before ++ frame_of d) ++ bytes_of es) =
        here ∙ ap (λ b. some b) (sym (append_assoc before (frame_of d) (bytes_of es))) in
      let behind : length before + length d + 8 ≡ length (before ++ frame_of d) =
        omega (arith, length-append before (frame_of d), length-frame_of d) in
      let first =
        next-entry codec dir n before (frame_of d ++ bytes_of es) here fuel r e d (bytes_of es) at
          refl (enc.0) (from.0) in
      let round : length ((e, d) ∷ es) + more ≡ suc (length es + more) = omega arith in
      ap (λ k. calls codec dir (suc fuel) k r) round
      ∙ rw first (
          ap (◌∷◌ (entry e)) (
            drains (before ++ frame_of d) es more moved there (ap (λ k. some (n, k)) behind) (enc.1)
              (from.1) listed))

  -- Calls of `Next` one after another, from the start of a segment that holds whole entries, none of
  -- them below the LSN that the reader starts from, while the directory has no more segments than the
  -- reader's list: each entry of the segment once, in order, and behind them EOF however often it is
  -- called.
  pub next_drains :
      (es : Written) (more : ℕ) (r : WalReader)
      → segment_bytes n dir ≡ some (bytes_of es)
      → r.file ≡ some (n, 0)
      → AllEncode codec es
      → AllFrom r.from_lsn es
      → length (list_segments dir) ≤ length r.segments
      → calls codec dir (suc fuel) (length es + more) r
        ≡ map (λ x. entry (x.0)) es ++ replicate more eof
  next_drains es more r here at enc from listed = drains [] es more r here at enc from listed
