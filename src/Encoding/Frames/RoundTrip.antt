-- ===== src/Encoding/Frames/RoundTrip.antt =====
-- What the frames promise: a property map and an edge are read back as they were written.
use native.Mathlib.Nat.{mod-eq_of_lt}
use goraphdb.Common.{
  ℕ, zero, suc, ◌+◌, ◌-◌, ◌^◌, ◌≤◌, ◌<◌, ◌≡◌, refl, ap, true, false, some, [], ◌∷◌, ◌++◌, arith,
  ltb, leb, ◌==◌, ==_iff, length, take, drop, length-append, take-append, drop-append, append-nil,
}
use goraphdb.Common.Results.{ok}
use goraphdb.Types.{Bytes, PropMap, Props, Edge}
use goraphdb.Encoding.Ints.{put_be, length-put_be, read_be-put_be_of_lt}
use goraphdb.Encoding.Scan.{IsWord}
use goraphdb.Encoding.Frames.Crc.{crc32, crc32-lt}
use goraphdb.Encoding.Frames.{
  Codec, word_at, made, encode_props, decode_props, encode_edge, decode_edge, decode_edge_payload,
  edge_props, decode_props_crc,
}

-- The last four bytes of a frame are its checksum, and the rest is its payload.
body_of_frame :
    (payload tail : Bytes)
    → length tail ≡ 4
    → take (length (payload ++ tail) - 4) (payload ++ tail) ≡ payload
body_of_frame payload tail h =
    let n : length (payload ++ tail) - 4 ≡ length payload =
      omega (arith, length-append payload tail) in
    rw n (take-append payload tail)

sum_of_frame :
    (payload : Bytes) (c : ℕ)
    → c < 2 ^ 32
    → word_at 4 (drop (length (payload ++ put_be 4 c) - 4) (payload ++ put_be 4 c)) ≡ ok c
sum_of_frame payload c h =
    let n : length (payload ++ put_be 4 c) - 4 ≡ length payload =
      omega (arith, length-append payload (put_be 4 c), length-put_be 4 c) in
    rw
      (
        n,
        drop-append payload (put_be 4 c),
        ← append-nil (put_be 4 c),
        read_be-put_be_of_lt 4 c [] h,
      )
      refl

drop-add : (m n : ℕ) (xs : Bytes) → drop (m + n) xs ≡ drop n (drop m xs)
drop-add zero n xs = ap (λ k. drop k xs) (omega arith)
drop-add (suc m) n [] = rw (suc_add m n) (drop_nil n)
  where
    drop_nil : (n : ℕ) → [] ≡ drop {A = ℕ} n []
    drop_nil zero = refl
    drop_nil (suc n) = refl

    suc_add : (m n : ℕ) → suc m + n ≡ suc (m + n)
    suc_add m n = omega arith
drop-add (suc m) n (x ∷ xs) = rw (suc_add m n) (drop-add m n xs)
  where
    suc_add : (m n : ℕ) → suc m + n ≡ suc (m + n)
    suc_add m n = omega arith

-- The parts of an edge's payload, and where they stand.
module _ (id from to n : ℕ) (rest : Bytes) where
  abbrev payload_of : Bytes
  payload_of = put_be 8 id ++ (put_be 8 from ++ (put_be 8 to ++ (put_be 4 n ++ rest)))

  drop_id : drop 8 payload_of ≡ put_be 8 from ++ (put_be 8 to ++ (put_be 4 n ++ rest))
  unfolding put_be
  drop_id = refl

  drop_from : drop 16 payload_of ≡ put_be 8 to ++ (put_be 4 n ++ rest)
  unfolding put_be
  drop_from = refl

  drop_to : drop 24 payload_of ≡ put_be 4 n ++ rest
  unfolding put_be
  drop_to = refl

  drop_head : drop 28 payload_of ≡ rest
  unfolding put_be
  drop_head = refl

  length_payload : length payload_of ≡ 28 + length rest
  unfolding put_be
  length_payload = omega arith

word_at_word : (n v : ℕ) (rest : Bytes) → v < 256 ^ n → word_at n (put_be n v ++ rest) ≡ ok v
word_at_word n v rest h = rw (read_be-put_be_of_lt n v rest h) refl

module _ (codec : Codec) where
  open codec use {marshal, unmarshal}

  -- What is marshalled for the map is unmarshalled to the map.
  abbrev pub Survives : PropMap → Bytes → Type 0
  Survives m raw = (marshal m ≡ some raw) × (unmarshal raw ≡ some (some m))

  abbrev pub props_frame : Bytes → Bytes
  props_frame raw = (2 ∷ raw) ++ put_be 4 (crc32 (2 ∷ raw))

  encode_props_lem :
      (props : Props) (raw : Bytes)
      → Survives (made props) raw
      → encode_props codec props ≡ ok (props_frame raw)
  unfolding encode_props
  encode_props_lem props raw h = rw (h.0) refl

  decode_props_crc_lem :
      (m : PropMap) (payload : Bytes)
      → 0 < length payload
      → unmarshal (drop 1 payload) ≡ some (some m)
      → decode_props_crc codec (payload ++ put_be 4 (crc32 payload)) ≡ ok (some m)
  unfolding decode_props_crc
  decode_props_crc_lem m payload pos h =
      let tail = put_be 4 (crc32 payload) in
      let long : ltb (length (payload ++ tail)) 5 ≡ false =
        rw (length-append payload tail, length-put_be 4 (crc32 payload)) (ground arith) in
      let same : (crc32 payload == crc32 payload) ≡ true = (==_iff _ _).1 refl in
      rw
        (
          long,
          sum_of_frame payload (crc32 payload) (crc32-lt payload),
          body_of_frame payload tail (length-put_be 4 (crc32 payload)),
        )
        (rw (same, h) refl)

  decode_props_lem :
      (m : PropMap) (raw : Bytes)
      → unmarshal raw ≡ some (some m)
      → decode_props codec (props_frame raw) ≡ ok (some m)
  unfolding decode_props
  decode_props_lem m raw h =
      let some_bytes : ltb 0 (length (props_frame raw)) ≡ true = ground arith in
      rw some_bytes (decode_props_crc_lem m (2 ∷ raw) (omega arith) h)

  -- Properties that MessagePack can carry are framed, and the frame decodes to them; a nil map comes
  -- back as an empty one.
  pub decode_props-encode_props :
      (props : Props) (raw : Bytes)
      → Survives (made props) raw
      → (b : Bytes) × (encode_props codec props ≡ ok b)
        × (decode_props codec b ≡ ok (some (made props)))
  decode_props-encode_props props raw h =
      (props_frame raw, encode_props_lem props raw h, decode_props_lem (made props) raw (h.1))

  parse_parts :
      (payload label : Bytes) (id from to n : ℕ) (p : Props)
      → ltb (length payload) 28 ≡ false
      → word_at 8 payload ≡ ok id
      → word_at 8 (drop 8 payload) ≡ ok from
      → word_at 8 (drop 16 payload) ≡ ok to
      → word_at 4 (drop 24 payload) ≡ ok n
      → ltb (length payload) (28 + n) ≡ false
      → take n (drop 28 payload) ≡ label
      → edge_props codec (drop (28 + n) payload) ≡ ok p
      → decode_edge_payload codec payload
        ≡ ok (record { id = id; from = from; to = to; label = label; props = p })
  unfolding decode_edge_payload
  parse_parts payload label id from to n p long h1 h2 h3 h4 fits hl hp =
      rw (long, h1, h2, h3, h4) (rw (fits, hl, hp) refl)

  edge_props_lem :
      (m : PropMap) (raw : Bytes)
      → unmarshal raw ≡ some (some m)
      → edge_props codec (props_frame raw) ≡ ok (some m)
  unfolding edge_props
  edge_props_lem m raw h =
      let some_bytes : ltb 0 (length (props_frame raw)) ≡ true = ground arith in
      rw some_bytes (decode_props_lem m raw h)

  -- The payload of an edge alone.
  decode_edge_payload_lem :
      (e : Edge) (m : PropMap) (raw : Bytes)
      → IsWord e.id
      → IsWord e.from
      → IsWord e.to
      → length e.label < 2 ^ 32
      → unmarshal raw ≡ some (some m)
      → decode_edge_payload codec
          (payload_of e.id e.from e.to (length e.label) (e.label ++ props_frame raw))
        ≡ ok (record e { props = some m })
  decode_edge_payload_lem e m raw hi hf ht hl h =
      let n = length e.label in
      let frame = props_frame raw in
      let rest = e.label ++ frame in
      let payload = payload_of e.id e.from e.to n rest in
      let size = length_payload e.id e.from e.to n rest in
      let sum = length-append e.label frame in
      parse_parts payload e.label e.id e.from e.to n (some m) (rw size (ground arith))
        (word_at_word 8 e.id _ hi)
        (rw (drop_id e.id e.from e.to n rest) (word_at_word 8 e.from _ hf))
        (rw (drop_from e.id e.from e.to n rest) (word_at_word 8 e.to _ ht))
        (rw (drop_to e.id e.from e.to n rest) (word_at_word 4 n _ hl))
        (rw (size, sum) (ground arith))
        (rw (drop_head e.id e.from e.to n rest) (take-append e.label frame))
        (rw (drop-add 28 n payload, drop_head e.id e.from e.to n rest, drop-append e.label frame)
          (edge_props_lem m raw h))

  framed_edge :
      (payload : Bytes) (e : Edge)
      → 28 ≤ length payload
      → decode_edge_payload codec payload ≡ ok e
      → decode_edge codec (payload ++ put_be 4 (crc32 payload)) ≡ ok e
  unfolding decode_edge
  framed_edge payload e long h =
      let tail = put_be 4 (crc32 payload) in
      let size : length (payload ++ tail) ≡ length payload + 4 =
        omega (arith, length-append payload tail, length-put_be 4 (crc32 payload)) in
      let not_short : ltb (length (payload ++ tail)) 28 ≡ false = rw size (ground arith) in
      let has_sum : leb 32 (length (payload ++ tail)) ≡ true = rw size (ground arith) in
      let same : (crc32 payload == crc32 payload) ≡ true = (==_iff _ _).1 refl in
      rw
        (
          not_short,
          has_sum,
          sum_of_frame payload (crc32 payload) (crc32-lt payload),
          body_of_frame payload tail (length-put_be 4 (crc32 payload)),
        )
        (rw same h)

  -- An edge whose identifiers are words, whose label is shorter than 2^32 bytes and whose properties
  -- MessagePack can carry is encoded, and decodes to itself, with a nil map of properties made empty.
  pub decode_edge-encode_edge :
      (e : Edge) (raw : Bytes)
      → IsWord e.id
      → IsWord e.from
      → IsWord e.to
      → length e.label < 2 ^ 32
      → Survives (made e.props) raw
      → (b : Bytes) × (encode_edge codec e ≡ ok b)
        × (decode_edge codec b ≡ ok (record e { props = some (made e.props) }))
  unfolding encode_edge
  decode_edge-encode_edge e raw hi hf ht hl h =
      let n = length e.label in
      let rest = e.label ++ props_frame raw in
      let payload = payload_of e.id e.from e.to n rest in
      (
        payload ++ put_be 4 (crc32 payload),
        rw (encode_props_lem e.props raw h, mod-eq_of_lt hl) refl,
        framed_edge payload (record e { props = some (made e.props) })
            (omega (arith, length_payload e.id e.from e.to n rest))
            (decode_edge_payload_lem e (made e.props) raw hi hf ht hl (h.1)),
      )
