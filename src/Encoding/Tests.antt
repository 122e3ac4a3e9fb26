-- ===== src/Encoding/Tests.antt =====
-- Runs of the encoders on small inputs, and the theorems about them at such inputs.
use goraphdb.Common.{
  ℕ, ◌≡◌, ◌↔◌, refl, true, none, some, Option, [], ◌∷◌, arith, length, drop, if◌then◌else◌, ◌==◌,
}
use goraphdb.Common.Results.{ok, err, too_short}
use goraphdb.Types.{Bytes, PropMap, Props, Edge, int}
use goraphdb.Encoding.Ints.{put_be, read_be, encode_uint64}
use goraphdb.Encoding.Keys.{
  encode_node_id, decode_node_id, encode_adj_key, decode_adj_key, encode_label_index_key,
  encode_label_index_prefix, has_prefix,
}
use goraphdb.Encoding.Scan.{label_index_scan, adjacency_scan}
use goraphdb.Encoding.Frames.{Codec, encode_props, decode_props, encode_edge, decode_edge}
use goraphdb.Encoding.Frames.RoundTrip.{decode_props-encode_props, decode_edge-encode_edge}

encode_uint64_of_258 : encode_uint64 258 ≡ 0 ∷ 0 ∷ 0 ∷ 0 ∷ 0 ∷ 0 ∷ 1 ∷ 2 ∷ []
unfolding encode_uint64 put_be
encode_uint64_of_258 = refl

short_key_panics : decode_adj_key (1 ∷ []) ≡ none
unfolding decode_adj_key read_be
short_key_panics = refl

abbrev knows : Bytes
knows = 0x6b ∷ 0x6e ∷ []

label_index_scan_example :
    ((has_prefix (encode_label_index_key knows 5) (encode_label_index_prefix (0x6b ∷ [])) ≡ true)
      ↔ (knows ≡ 0x6b ∷ []))
    × (decode_node_id
          (drop (length (encode_label_index_prefix knows)) (encode_label_index_key knows 5))
        ≡ some 5)
label_index_scan_example =
    label_index_scan knows (0x6b ∷ []) 5 (omega arith) (omega arith) (omega arith)

adjacency_scan_example :
    (has_prefix (encode_adj_key 7 1) (encode_node_id 8) ≡ true) ↔ (◌≡◌ {A = ℕ} 7 8)
adjacency_scan_example = adjacency_scan 7 8 1 (omega arith) (omega arith)

-- A serialisation of maps with at most one number in them.
small_marshal : PropMap → Option Bytes
small_marshal [] = some (0x80 ∷ [])
small_marshal ((k, int n) ∷ []) = some (0x81 ∷ n ∷ k)
small_marshal _ = none

small_unmarshal : Bytes → Option Props
small_unmarshal (tag ∷ []) = if tag == 0x80 then some (some []) else none
small_unmarshal (tag ∷ n ∷ k) = if tag == 0x81 then some (some ((k, int n) ∷ [])) else none
small_unmarshal _ = none

abbrev small_codec : Codec
small_codec = record {
  marshal = small_marshal;
  unmarshal = small_unmarshal;
  json_unmarshal = λ _. none;
}

abbrev age : PropMap
age = (0x61 ∷ [], int 30) ∷ []

decode_props-encode_props_example :
    (b : Bytes) × (encode_props small_codec (some age) ≡ ok b)
    × (decode_props small_codec b ≡ ok (some age))
unfolding small_marshal small_unmarshal
decode_props-encode_props_example =
    decode_props-encode_props small_codec (some age) (0x81 ∷ 30 ∷ 0x61 ∷ []) (refl, refl)

abbrev follows : Edge
follows = record { id = 4; from = 1; to = 2; label = knows; props = some age }

decode_edge-encode_edge_example :
    (b : Bytes) × (encode_edge small_codec follows ≡ ok b)
    × (decode_edge small_codec b ≡ ok follows)
unfolding small_marshal small_unmarshal
decode_edge-encode_edge_example =
    decode_edge-encode_edge small_codec follows (0x81 ∷ 30 ∷ 0x61 ∷ []) (omega arith) (omega arith)
      (omega arith) (omega arith) (refl, refl)

edge_too_short : decode_edge small_codec (1 ∷ 2 ∷ []) ≡ err too_short
unfolding decode_edge
edge_too_short = refl
