-- ===== src/Encoding/Frames.antt =====
-- Checksummed frames of properties and edges (encoding.go). `Codec` is the serialisation that the
-- code calls: MessagePack (github.com/vmihailenco/msgpack) and the JSON of the oldest format.
pub mod Crc
pub mod RoundTrip
use goraphdb.Common.{
  ℕ, ◌+◌, ◌-◌, ◌%◌, ◌^◌, ◌&&◌, Option, none, some, List, [], ◌∷◌, ◌++◌, ltb, leb, ◌==◌,
  if◌then◌else◌, length, take, drop, get_or, ◌≡◌,
}
use goraphdb.Common.Results.{
  Result, ok, err, ◌>>=◌, require, marshal_failed, unmarshal_failed, too_short, checksum_mismatch,
  corrupted, panic,
}
use goraphdb.Types.{Bytes, PropMap, Props, Edge}
use goraphdb.Encoding.Ints.{put_be, read_be}
use Crc.{crc32}

-- `marshal` and `unmarshal` may fail; unmarshalling may give a nil map.
pub record Codec : Type 0 where
  pub marshal : PropMap → Option Bytes
  pub unmarshal : Bytes → Option Props
  pub json_unmarshal : Bytes → Option Props

-- The number at the start of a slice; Go panics where the slice is shorter.
abbrev pub word_at : ℕ → Bytes → Result ℕ
word_at n b = require panic (read_be n 0 b)

-- `if props == nil { props = make(Props) }`
abbrev pub made : Props → PropMap
made none = []
made (some m) = m

unfoldable pub props_magic : ℕ
props_magic = 1

unfoldable pub props_magic_crc : ℕ
props_magic_crc = 2

module _ (codec : Codec) where
  open codec use {marshal, unmarshal, json_unmarshal}

  unfoldable pub encode_props : Props → Result Bytes
  unfolding props_magic_crc
  encode_props props = do
    raw ← require marshal_failed (marshal (made props))
    let framed = props_magic_crc ∷ raw
    ok (framed ++ put_be 4 (crc32 framed))

  -- The three formats, by the first byte.
  unfoldable pub decode_props_crc : Bytes → Result Props
  decode_props_crc stored_bytes = if ltb (length stored_bytes) 5 then err too_short else do
    let payload = take (length stored_bytes - 4) stored_bytes
    stored ← word_at 4 (drop (length stored_bytes - 4) stored_bytes)
    if stored == crc32 payload
        then (do
          props ← require unmarshal_failed (unmarshal (drop 1 payload))
          ok (some (made props)))
        else err checksum_mismatch

  unfoldable pub decode_props : Bytes → Result Props
  unfolding decode_props_crc props_magic props_magic_crc
  decode_props stored_bytes =
      let first = get_or stored_bytes 0 0 in
      if ltb 0 (length stored_bytes) && first == props_magic_crc
      then decode_props_crc stored_bytes
      else if ltb 0 (length stored_bytes) && first == props_magic
      then (do
        props ← require unmarshal_failed (unmarshal (drop 1 stored_bytes))
        ok (some (made props)))
      else do props ← require unmarshal_failed (json_unmarshal stored_bytes); ok (some (made props))

  unfoldable pub encode_edge : Edge → Result Bytes
  encode_edge e = do
    props ← encode_props e.props
    let payload =
        put_be 8 e.id
        ++ (put_be 8 e.from
            ++ (put_be 8 e.to ++ (put_be 4 (length e.label % 2 ^ 32) ++ (e.label ++ props))))
    ok (payload ++ put_be 4 (crc32 payload))

  unfoldable pub edge_props : Bytes → Result Props
  edge_props stored_bytes =
      if ltb 0 (length stored_bytes) then decode_props stored_bytes else ok none

  unfoldable pub decode_edge_payload : Bytes → Result Edge
  decode_edge_payload payload = if ltb (length payload) 28 then err too_short else do
    id ← word_at 8 payload
    from ← word_at 8 (drop 8 payload)
    to ← word_at 8 (drop 16 payload)
    label_len ← word_at 4 (drop 24 payload)
    if ltb (length payload) (28 + label_len) then err corrupted else do
      let label = take label_len (drop 28 payload)
      props ← edge_props (drop (28 + label_len) payload)
      ok (record { id = id; from = from; to = to; label = label; props = props })

  unfoldable pub decode_edge : Bytes → Result Edge
  decode_edge stored_bytes =
      if ltb (length stored_bytes) 28
      then err too_short
      else if leb 32 (length stored_bytes)
      then (do
        let payload = take (length stored_bytes - 4) stored_bytes
        stored ← word_at 4 (drop (length stored_bytes - 4) stored_bytes)
        if stored == crc32 payload
            then decode_edge_payload payload
            else decode_edge_payload stored_bytes)
      else decode_edge_payload stored_bytes
