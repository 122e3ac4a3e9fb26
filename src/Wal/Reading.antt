-- ===== src/Wal/Reading.antt =====
-- Reading one frame back: a whole one, and one that a crash cut short.
use native.Mathlib.Nat.{mod-eq_of_lt}
use goraphdb.Common.{
  ℕ, zero, suc, ◌+◌, ◌*◌, ◌-◌, ◌%◌, ◌^◌, ◌≤◌, ◌<◌, ◌≡◌, refl, sym, ap, ◌∙◌, true, false, none, some,
  [], ◌∷◌, ◌++◌, arith, ltb, length, take, drop, length-append, take-append, drop-append, dec_lt,
  append-nil, append_assoc,
}
use goraphdb.Types.{Bytes}
use goraphdb.Encoding.Ints.{put_be, read_be, length-put_be, read_be-put_be_of_lt}
use goraphdb.Encoding.Scan.{drop-put_be}
use goraphdb.Encoding.Frames.Crc.{crc32, crc32-lt}
use goraphdb.Wal.Frame.{frame_of, cut_short, framed, read_body, read_frame}

frame_shape :
    (d rest : Bytes)
    → frame_of d ++ rest ≡ put_be 4 (length d % 2 ^ 32) ++ (d ++ (put_be 4 (crc32 d) ++ rest))
unfolding frame_of
frame_shape d rest = simp append_assoc

pub length-frame_of : (d : Bytes) → length (frame_of d) ≡ length d + 8
unfolding frame_of
length-frame_of d = omega (
  arith,
  length-append (put_be 4 (length d % 2 ^ 32)) (d ++ put_be 4 (crc32 d)),
  length-append d (put_be 4 (crc32 d)),
  length-put_be 4 (crc32 d),
  length-put_be 4 (length d % 2 ^ 32),
)

take_two : (d c rest : Bytes) → take (length d + length c) (d ++ (c ++ rest)) ≡ d ++ c
take_two d c rest =
    let n : length d + length c ≡ length (d ++ c) = sym (length-append d c) in
    rw (n, ← append_assoc d c rest) (take-append (d ++ c) rest)

drop_two : (d c rest : Bytes) → drop (length d + length c) (d ++ (c ++ rest)) ≡ rest
drop_two d c rest =
    let n : length d + length c ≡ length (d ++ c) = sym (length-append d c) in
    rw (n, ← append_assoc d c rest) (drop-append (d ++ c) rest)

read_body_parts :
    (b d rest : Bytes) (n size stored : ℕ)
    → (n + 4) % 2 ^ 32 ≡ size
    → ltb (length b) size ≡ false
    → ltb size n ≡ false
    → take n b ≡ d
    → read_be 4 0 (drop n (take size b)) ≡ some stored
    → drop size b ≡ rest
    → read_body n b ≡ framed d stored rest
unfolding read_body
read_body_parts b d rest n size stored e fits in_range hd hs hr =
    rw (e, fits, in_range, hd, hs, hr) refl

last_sum : (d : Bytes) → read_be 4 0 (put_be 4 (crc32 d)) ≡ some (crc32 d)
last_sum d =
    ap (read_be 4 0) (sym (append-nil (put_be 4 (crc32 d))))
    ∙ read_be-put_be_of_lt 4 (crc32 d) [] (crc32-lt d)

read_body_lem :
    (d rest : Bytes)
    → length d + 4 < 2 ^ 32
    → read_body (length d) (d ++ (put_be 4 (crc32 d) ++ rest)) ≡ framed d (crc32 d) rest
read_body_lem d rest h =
    let c = put_be 4 (crc32 d) in
    let b = d ++ (c ++ rest) in
    read_body_parts b d rest (length d) (length d + length c) (crc32 d)
      (mod-eq_of_lt h ∙ ap (λ n. length d + n) (sym (length-put_be 4 (crc32 d))))
      (ground (arith, length-append d (c ++ rest), length-append c rest)) (ground arith)
      (take-append d (c ++ rest)) (rw (take_two d c rest, drop-append d c) (last_sum d))
      (drop_two d c rest)

-- A frame is read back, whatever follows it.
pub read_frame-frame_of :
    (d rest : Bytes)
    → length d + 4 < 2 ^ 32
    → read_frame (frame_of d ++ rest) ≡ framed d (crc32 d) rest
unfolding read_frame
read_frame-frame_of d rest h =
    let tail = d ++ (put_be 4 (crc32 d) ++ rest) in
    let n : length d % 2 ^ 32 ≡ length d = mod-eq_of_lt (omega arith) in
    rw
      (
        frame_shape d rest,
        n,
        read_be-put_be_of_lt 4 (length d) tail (omega arith),
        drop-put_be 4 (length d) tail,
      )
      (read_body_lem d rest h)

-- A frame that is cut short is not read: of its header there are fewer than four bytes, or of its
-- body fewer than the header says.
read_be-short : (n acc : ℕ) (b : Bytes) → length b < n → read_be n acc b ≡ none
unfolding read_be
read_be-short zero acc b h = elim h [ ]
read_be-short (suc n) acc [] h = refl
read_be-short (suc n) acc (x ∷ b) h = read_be-short n (acc * 256 + x) b (omega arith)

take-append_of_le : (k : ℕ) (xs ys : Bytes) → k ≤ length xs → take k (xs ++ ys) ≡ take k xs
take-append_of_le zero xs ys h = refl
take-append_of_le (suc k) [] ys h = elim h [ ]
take-append_of_le (suc k) (x ∷ xs) ys h = ap (◌∷◌ x) (take-append_of_le k xs ys (omega arith))

take-append_of_ge :
    (k : ℕ) (xs ys : Bytes) → length xs ≤ k → take k (xs ++ ys) ≡ xs ++ take (k - length xs) ys
take-append_of_ge k [] ys h = ap (λ n. take n ys) (omega arith)
take-append_of_ge zero (x ∷ xs) ys h = elim h [ ]
take-append_of_ge (suc k) (x ∷ xs) ys h =
    ap (◌∷◌ x) (take-append_of_ge k xs ys (omega arith) ∙ ap (λ n. xs ++ take n ys) (omega arith))

length-take-le : (k : ℕ) (xs : Bytes) → length (take k xs) ≤ k
length-take-le zero xs = omega arith
length-take-le (suc k) [] = omega arith
length-take-le (suc k) (x ∷ xs) = omega (arith, length-take-le k xs)

pub short_header : (b : Bytes) → length b < 4 → (n : ℕ) × (read_frame b ≡ cut_short n)
unfolding read_frame
short_header b h = (length b, rw (read_be-short 4 0 b h) refl)

short_body :
    (n : ℕ) (b : Bytes)
    → n + 4 < 2 ^ 32
    → length b < n + 4
    → (m : ℕ) × (read_frame (put_be 4 n ++ b) ≡ cut_short m)
unfolding read_frame read_body
short_body n b h lt =
    let size : (n + 4) % 2 ^ 32 ≡ n + 4 = mod-eq_of_lt h in
    let short : ltb (length b) (n + 4) ≡ true = ground arith in
    (
      4 + length b,
      rw (read_be-put_be_of_lt 4 n b (omega arith), drop-put_be 4 n b) (rw (size, short) refl),
    )

frame_prefix :
    (d : Bytes) (k : ℕ)
    → length d < 2 ^ 32
    → 4 ≤ k
    → take k (frame_of d) ≡ put_be 4 (length d) ++ take (k - 4) (d ++ put_be 4 (crc32 d))
unfolding frame_of
frame_prefix d k h le =
    let n : length d % 2 ^ 32 ≡ length d = mod-eq_of_lt h in
    let header = length-put_be 4 (length d) in
    rw n (
      take-append_of_ge k (put_be 4 (length d)) (d ++ put_be 4 (crc32 d)) (omega arith)
      ∙ ap (λ m. put_be 4 (length d) ++ take (k - m) (d ++ put_be 4 (crc32 d))) header)

pub read_frame-short :
    (d : Bytes) (k : ℕ)
    → length d + 4 < 2 ^ 32
    → k < length (frame_of d)
    → (n : ℕ) × (read_frame (take k (frame_of d)) ≡ cut_short n)
read_frame-short d k h lt = elim (dec_lt k 4) [
  | yes few ↦ short_header (take k (frame_of d)) (omega (arith, length-take-le k (frame_of d)))
  | no many ↦ rw (frame_prefix d k (omega arith) (omega arith)) (
      short_body (length d) (take (k - 4) (d ++ put_be 4 (crc32 d))) h
        (omega (arith, length-take-le (k - 4) (d ++ put_be 4 (crc32 d)), length-frame_of d)))
]
