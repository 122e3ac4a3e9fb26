-- ===== src/Encoding/Keys.antt =====
-- Keys and values of the storage buckets (encoding.go, label.go).
use goraphdb.Common.{
  ℕ, ◌/◌, ◌%◌, ◌^◌, Bool, true, false, Option, none, some, [], ◌∷◌, ◌++◌, ltb, ◌==◌, if◌then◌else◌,
  length, drop,
}
use goraphdb.Types.{Bytes, NodeId, EdgeId}
use goraphdb.Encoding.Ints.{put_be, read_be, encode_uint64, decode_uint64}

infixl 5 ◌>>=◌
abbrev ◌>>=◌ : {A B : Type 0} → Option A → (A → Option B) → Option B
none >>= f = none
some a >>= f = f a

unfoldable pub encode_node_id : NodeId → Bytes
unfolding encode_uint64
encode_node_id id = encode_uint64 id

unfoldable pub decode_node_id : Bytes → Option NodeId
unfolding decode_uint64
decode_node_id b = decode_uint64 b

unfoldable pub encode_edge_id : EdgeId → Bytes
unfolding encode_uint64
encode_edge_id id = encode_uint64 id

unfoldable pub decode_edge_id : Bytes → Option EdgeId
unfolding decode_uint64
decode_edge_id b = decode_uint64 b

unfoldable pub encode_adj_key : NodeId → EdgeId → Bytes
encode_adj_key node edge = put_be 8 node ++ put_be 8 edge

-- `none` is the panic of a slice that is too short.
unfoldable pub decode_adj_key : Bytes → Option (NodeId × EdgeId)
decode_adj_key b = do node ← read_be 8 0 b; edge ← read_be 8 0 (drop 8 b); some (node, edge)

unfoldable pub encode_adj_value : NodeId → Bytes → Bytes
encode_adj_value target label = put_be 8 target ++ label

unfoldable pub decode_adj_value : Bytes → Option (NodeId × Bytes)
decode_adj_value value =
    if ltb (length value) 8
    then some (0, [])
    else (do id ← read_be 8 0 value; some (id, drop 8 value))

unfoldable pub encode_index_key : Bytes → ℕ → Bytes
encode_index_key prefix id = prefix ++ 0 ∷ put_be 8 id

unfoldable pub encode_index_prefix : Bytes → Bytes
encode_index_prefix prefix = prefix ++ 0 ∷ []

-- label.go writes the same eight bytes by shifts.
unfoldable pub encode_uint64_into : ℕ → Bytes
encode_uint64_into v =
    (v / 2 ^ 56 % 256)
    ∷ (v / 2 ^ 48 % 256)
    ∷ (v / 2 ^ 40 % 256)
    ∷ (v / 2 ^ 32 % 256)
    ∷ (v / 2 ^ 24 % 256)
    ∷ (v / 2 ^ 16 % 256)
    ∷ (v / 2 ^ 8 % 256)
    ∷ (v % 256)
    ∷ []

unfoldable pub encode_label_index_key : Bytes → NodeId → Bytes
unfolding encode_uint64_into
encode_label_index_key label id = label ++ 0 ∷ encode_uint64_into id

unfoldable pub encode_label_index_prefix : Bytes → Bytes
encode_label_index_prefix label = label ++ 0 ∷ []

-- The loop over the prefix; the length test before it keeps its reads in range.
unfoldable pub same_start : Bytes → Bytes → Bool
same_start s [] = true
same_start [] (p ∷ ps) = false
same_start (x ∷ s) (p ∷ ps) = if x == p then same_start s ps else false

unfoldable pub has_prefix : Bytes → Bytes → Bool
unfolding same_start
has_prefix s prefix = if ltb (length s) (length prefix) then false else same_start s prefix
