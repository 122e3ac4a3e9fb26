-- ===== src/Wal/Recovery.antt =====
-- What the log promises across appends, crashes and reopening, and what pruning may remove.
use native.Mathlib.Nat.{mod-eq_of_lt}
use goraphdb.Common.{
  ℕ, ◌+◌, ◌%◌, ◌^◌, ◌≤◌, ◌<◌, ◌≡◌, refl, sym, ap, ◌∙◌, ◌⊎◌, true, false, some, [], ◌∷◌, ◌++◌, arith,
  ltb, leb, ◌==◌, if◌then◌else◌, length, take, append-nil, append_assoc,
}
use goraphdb.Common.Results.{ok, err, wal_closed, io_failed, marshal_failed}
use goraphdb.Types.{Bytes}
use goraphdb.Wal.Frame.{WalEntry, EntryCodec, frame_of, scan_segment_for_last_lsn}
use goraphdb.Wal.Log.{
  Dir, Disk, good_disk, Wal, wal_segment_max_size, create_segment, write_segment, last_segment,
  append, open_wal,
}
use goraphdb.Wal.Scanning.{
  Written, bytes_of, bytes_of-append, highest, Encodes, AllEncode, scan_segment, IsCutShort-nil,
  IsCutShort-take,
}

last_segment-append : (dir : Dir) (s : ℕ × Bytes) → last_segment (dir ++ s ∷ []) ≡ some s
unfolding last_segment
last_segment-append [] s = refl
last_segment-append (r ∷ []) s = refl
last_segment-append (r ∷ t ∷ dir) s = last_segment-append (t ∷ dir) s

-- The log is open on the last segment, whose bytes are those of whole entries; `older` stand before it
-- under smaller numbers, and the next LSN is the one behind the highest in it.
abbrev pub AllBelow : ℕ → Dir → Type 0
AllBelow n [] = Unit
AllBelow n ((m, b) ∷ dir) = (m < n) × AllBelow n dir

pub record IsLogged (codec : EntryCodec) (older : Dir) (es : Written) (w : Wal) : Type 0 where
  pub opened : w.handle ≡ some w.current_seg_n
  pub not_closed : w.closed ≡ false
  pub contents : w.dir ≡ older ++ (w.current_seg_n, bytes_of es) ∷ []
  pub below : AllBelow w.current_seg_n older
  pub encoded : AllEncode codec es
  pub next_free : w.next_lsn ≡ highest 0 es + 1
  pub word : w.next_lsn + 1 < 2 ^ 64

highest-append :
    (es : Written) (last : ℕ) (e : WalEntry) (d : Bytes)
    → highest last es < e.lsn
    → highest last (es ++ (e, d) ∷ []) ≡ e.lsn
highest-append [] last e d h = ground arith
highest-append ((f, c) ∷ es) last e d h =
    highest-append es (if ltb last f.lsn then f.lsn else last) e d h

AllEncode-append :
    (codec : EntryCodec) (es : Written) (e : WalEntry) (d : Bytes)
    → AllEncode codec es
    → Encodes codec e d
    → AllEncode codec (es ++ (e, d) ∷ [])
AllEncode-append codec [] e d h k = (k, tt)
AllEncode-append codec ((f, c) ∷ es) e d h k = (h.0, AllEncode-append codec es e d (h.1) k)

write_segment-append :
    (n : ℕ) (frame b : Bytes) (older : Dir)
    → AllBelow n older
    → write_segment n frame (older ++ (n, b) ∷ []) ≡ older ++ (n, b ++ frame) ∷ []
unfolding write_segment
write_segment-append n frame b [] h = ground arith
write_segment-append n frame b ((m, c) ∷ older) h =
    let other : (n == m) ≡ false = ground arith in
    rw other (ap (◌∷◌ (m, c)) (write_segment-append n frame b older (h.1)))

create_segment-append :
    (n : ℕ) (b : Bytes) (older : Dir)
    → AllBelow n older
    → create_segment (n + 1) (older ++ (n, b) ∷ []) ≡ older ++ (n, b) ∷ (n + 1, []) ∷ []
unfolding create_segment
create_segment-append n b [] h = ground arith
create_segment-append n b ((m, c) ∷ older) h =
    let other : (n + 1 == m) ≡ false = ground arith in
    let above : ltb (n + 1) m ≡ false = ground arith in
    rw (other, above) (ap (◌∷◌ (m, c)) (create_segment-append n b older (h.1)))

-- What `OpenWAL` makes of a directory whose last segment is `n` with bytes `b`.
abbrev reopened : Dir → ℕ → Bytes → ℕ → Wal
reopened dir n b last = record {
  dir = dir;
  handle = some n;
  current_seg_n = n;
  current_size = length b;
  next_lsn = (last + 1) % 2 ^ 64;
  closed = false;
}

open_with :
    (codec : EntryCodec) (dir : Dir) (n : ℕ) (b : Bytes) (last : ℕ)
    → last_segment dir ≡ some (n, b)
    → scan_segment_for_last_lsn codec b ≡ ok last
    → open_wal codec dir ≡ ok (reopened dir n b last)
unfolding open_wal
open_with codec dir n b last e f = rw (e, f) refl

-- Reopening after a crash that left any proper part of a frame behind the whole entries of the last
-- segment finds the highest LSN of those entries: the next LSN is the one behind it.
pub open_after_crash :
    (codec : EntryCodec) (older : Dir) (n : ℕ) (es : Written) (d : Bytes) (k : ℕ)
    → AllEncode codec es
    → length d + 4 < 2 ^ 32
    → k < length (frame_of d)
    → (w : Wal) × (open_wal codec (older ++ (n, bytes_of es ++ take k (frame_of d)) ∷ []) ≡ ok w)
      × (w.next_lsn ≡ (highest 0 es + 1) % 2 ^ 64)
      × (w.handle ≡ some n)
open_after_crash codec older n es d k h fits cut =
    let b = bytes_of es ++ take k (frame_of d) in
    let dir = older ++ (n, b) ∷ [] in
    (
      reopened dir n b (highest 0 es),
      open_with codec dir n b (highest 0 es) (last_segment-append older (n, b))
          (scan_segment codec es (take k (frame_of d)) h (IsCutShort-take codec d k fits cut)),
      refl,
      refl,
    )

scan_whole :
    (codec : EntryCodec) (es : Written)
    → AllEncode codec es
    → scan_segment_for_last_lsn codec (bytes_of es) ≡ ok (highest 0 es)
scan_whole codec es h =
    ap (scan_segment_for_last_lsn codec) (sym (append-nil (bytes_of es)))
    ∙ scan_segment codec es [] h (IsCutShort-nil codec)

scan_empty : (codec : EntryCodec) → scan_segment_for_last_lsn codec [] ≡ ok 0
unfolding bytes_of
scan_empty codec = scan_whole codec [] tt

module _ (codec : EntryCodec) (older : Dir) (es : Written) (w : Wal) (now op : ℕ)
    (payload d : Bytes) where
  abbrev pub appended : WalEntry
  appended = record { lsn = w.next_lsn; timestamp = now; op = op; payload = payload }

  abbrev pub after : Written
  after = es ++ (appended, d) ∷ []

  abbrev written_dir : Dir
  written_dir = older ++ (w.current_seg_n, bytes_of after) ∷ []

  write_lem :
      IsLogged codec older es w → write_segment w.current_seg_n (frame_of d) w.dir ≡ written_dir
  write_lem l =
      rw (l.contents, bytes_of-append es appended d)
        (write_segment-append w.current_seg_n (frame_of d) (bytes_of es) older l.below)

  append_stays :
      IsLogged codec older es w
      → Encodes codec appended d
      → leb wal_segment_max_size (w.current_size + length (frame_of d)) ≡ false
      → append codec good_disk now op payload w ≡ (
        record w {
          dir = written_dir;
          current_size = w.current_size + length (frame_of d);
          next_lsn = w.next_lsn + 1;
        },
        ok w.next_lsn,
      )
  unfolding append
  append_stays l enc small =
      let next : (w.next_lsn + 1) % 2 ^ 64 ≡ w.next_lsn + 1 = mod-eq_of_lt l.word in
      rw (l.not_closed, enc.marshals, l.opened) (rw (small, next, write_lem l) refl)

  -- On a log that is open on a last segment of whole entries, with the next LSN the one behind the
  -- highest in that segment (so no freshly rotated one, and none that lost the last append) and two
  -- numbers left, a good append that leaves the segment below its limit returns the next LSN and keeps
  -- the log so, with the entry behind the others, and a reopening of what it wrote gives the next LSN
  -- again.
  pub append_reopen :
      IsLogged codec older es w
      → Encodes codec appended d
      → w.current_size + length (frame_of d) < wal_segment_max_size
      → w.next_lsn + 2 < 2 ^ 64
      → (w' v : Wal) × (append codec good_disk now op payload w ≡ (w', ok w.next_lsn))
        × IsLogged codec older after w'
        × (open_wal codec w'.dir ≡ ok v)
        × (v.next_lsn ≡ w'.next_lsn)
        × (v.next_lsn ≡ w.next_lsn + 1)
  append_reopen l enc small room =
      let below : leb wal_segment_max_size (w.current_size + length (frame_of d)) ≡ false =
        ground arith in
      let high : highest 0 after ≡ w.next_lsn =
        highest-append es 0 appended d (omega (arith, l.next_free)) in
      let all = AllEncode-append codec es appended d l.encoded enc in
      let next : (highest 0 after + 1) % 2 ^ 64 ≡ w.next_lsn + 1 = rw high (mod-eq_of_lt l.word) in
      (
        record w {
          dir = written_dir;
          current_size = w.current_size + length (frame_of d);
          next_lsn = w.next_lsn + 1;
        },
        reopened written_dir w.current_seg_n (bytes_of after) (highest 0 after),
        append_stays l enc below,
        record {
          opened = l.opened;
          not_closed = l.not_closed;
          contents = refl;
          below = l.below;
          encoded = all;
          next_free = rw high refl;
          word = omega arith;
        },
        open_with codec written_dir w.current_seg_n (bytes_of after) (highest 0 after)
            (last_segment-append older (w.current_seg_n, bytes_of after))
            (scan_whole codec after all),
        next,
        next,
      )

  abbrev rotated_dir : Dir
  rotated_dir = older ++ (w.current_seg_n, bytes_of after) ∷ (w.current_seg_n + 1, []) ∷ []

  append_rotates :
      IsLogged codec older es w
      → Encodes codec appended d
      → leb wal_segment_max_size (w.current_size + length (frame_of d)) ≡ true
      → append codec good_disk now op payload w ≡ (
        record w {
          dir = rotated_dir;
          handle = some (w.current_seg_n + 1);
          current_seg_n = w.current_seg_n + 1;
          current_size = 0;
          next_lsn = w.next_lsn + 1;
        },
        ok w.next_lsn,
      )
  unfolding append
  append_rotates l enc full =
      let next : (w.next_lsn + 1) % 2 ^ 64 ≡ w.next_lsn + 1 = mod-eq_of_lt l.word in
      rw (l.not_closed, enc.marshals, l.opened)
        (rw (full, next, write_lem l)
          (rw (create_segment-append w.current_seg_n (bytes_of after) older l.below) refl))

  -- On a log that is open on a last segment of whole entries, with the next LSN the one behind the
  -- highest in that segment and a number left, a good append that fills the segment returns the next LSN.
  -- It leaves the older segments and the filled one as they are, and is open on a new empty segment
  -- behind them. A reopening at that point is on the empty segment, and starts again at LSN 1, however
  -- high the LSNs are that the log has given out.
  pub reopen_after_rotation :
      IsLogged codec older es w
      → Encodes codec appended d
      → wal_segment_max_size ≤ w.current_size + length (frame_of d)
      → (w' v : Wal) × (append codec good_disk now op payload w ≡ (w', ok w.next_lsn))
        × (w'.dir ≡ older ++ (w.current_seg_n, bytes_of after) ∷ (w.current_seg_n + 1, []) ∷ [])
        × (w'.handle ≡ some (w.current_seg_n + 1))
        × (w'.current_size ≡ 0)
        × (w'.next_lsn ≡ w.next_lsn + 1)
        × (open_wal codec w'.dir ≡ ok v)
        × (v.handle ≡ some (w.current_seg_n + 1))
        × (v.next_lsn ≡ 1)
  reopen_after_rotation l enc big =
      let full : leb wal_segment_max_size (w.current_size + length (frame_of d)) ≡ true =
        ground arith in
      (
        record w {
          dir = rotated_dir;
          handle = some (w.current_seg_n + 1);
          current_seg_n = w.current_seg_n + 1;
          current_size = 0;
          next_lsn = w.next_lsn + 1;
        },
        reopened rotated_dir (w.current_seg_n + 1) [] 0,
        append_rotates l enc full,
        refl,
        refl,
        refl,
        refl,
        open_with codec rotated_dir (w.current_seg_n + 1) [] 0
            (ap last_segment (
                sym (
                  append_assoc older ((w.current_seg_n, bytes_of after) ∷ [])
                    ((w.current_seg_n + 1, []) ∷ [])))
              ∙ last_segment-append (older ++ (w.current_seg_n, bytes_of after) ∷ [])
                  (w.current_seg_n + 1, []))
            (scan_empty codec),
        refl,
        refl,
      )

-- Every call of `Append` on an open log spends one LSN, whether the entry is written, cannot be
-- marshalled, or cannot be written, and a successful one returns it; on a closed log nothing changes.
pub append_lsn :
    (codec : EntryCodec) (disk : Disk) (now op : ℕ) (payload : Bytes) (w : Wal)
    → (w.closed ≡ true) × (append codec disk now op payload w ≡ (w, err wal_closed))
      ⊎ (w.closed ≡ false)
        × ((append codec disk now op payload w).0.next_lsn ≡ (w.next_lsn + 1) % 2 ^ 64)
        × (((append codec disk now op payload w).1 ≡ ok w.next_lsn)
            ⊎ ((append codec disk now op payload w).1 ≡ err marshal_failed)
            ⊎ ((append codec disk now op payload w).1 ≡ err io_failed))
unfolding append
append_lsn codec disk now op payload w = ground arith
