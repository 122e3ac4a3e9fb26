-- ===== src/Encoding/Scan.antt =====
-- What the keys promise: they decode to what they were made of, they sort as the numbers in them, and
-- a prefix scan meets exactly the keys of its label or node.
use goraphdb.Common.{
  ℕ, zero, suc, ◌≤◌, ◌<◌, ◌^◌, ◌≡◌, refl, ap, sym, ◌∙◌, ◌≢◌, ◌↔◌, true, false, some, [], ◌∷◌, ◌++◌,
  arith, ltb, length, length-append, drop, drop-append, append-nil, ap₂, append_assoc,
}
use native.Mathlib.Nat.{mod-eq_of_lt}
use mathlib.Core.Option.{some-injective}
use goraphdb.Types.{Bytes, NodeId, EdgeId}
use goraphdb.Encoding.Ints.{
  put_be, read_be, encode_uint64, decode_uint64, lex_lt, read_be-put_be_of_lt, length-put_be,
  lex_lt-put_be,
}
use goraphdb.Encoding.Keys.{
  encode_node_id, decode_node_id, encode_adj_key, decode_adj_key, encode_adj_value,
  decode_adj_value, encode_uint64_into, encode_label_index_key, encode_label_index_prefix,
  same_start, has_prefix,
}

-- An identifier is a `uint64`.
abbrev pub IsWord : ℕ → Type 0
IsWord v = v < 2 ^ 64

-- No byte of a label is the separator of the index keys.
abbrev pub IsNulFree : Bytes → Type 0
IsNulFree [] = Unit
IsNulFree (x ∷ xs) = (x ≢ 0) × IsNulFree xs

-- A word is read back from its eight bytes, whatever follows them.
pub decode_uint64-encode_uint64 :
    (v : ℕ) (rest : Bytes) → IsWord v → decode_uint64 (encode_uint64 v ++ rest) ≡ some v
unfolding decode_uint64 encode_uint64
decode_uint64-encode_uint64 v rest h = read_be-put_be_of_lt 8 v rest h

-- Keys that are words sort, byte by byte, as the words do.
lex_lt-encode_uint64 :
    (a b : ℕ) → IsWord a → IsWord b → lex_lt (encode_uint64 a) (encode_uint64 b) ≡ ltb a b
unfolding encode_uint64
lex_lt-encode_uint64 a b h k = lex_lt-put_be 8 a b ∙ ap₂ ltb (mod-eq_of_lt h) (mod-eq_of_lt k)

pub drop-put_be : (n v : ℕ) (rest : Bytes) → drop n (put_be n v ++ rest) ≡ rest
unfolding put_be
drop-put_be zero v rest = refl
drop-put_be (suc n) v rest = drop-put_be n v rest

read_word : (v : ℕ) (rest : Bytes) → IsWord v → read_be 8 0 (put_be 8 v ++ rest) ≡ some v
read_word v rest h = read_be-put_be_of_lt 8 v rest h

read_last_word : (v : ℕ) → IsWord v → read_be 8 0 (put_be 8 v) ≡ some v
read_last_word v h = ap (read_be 8 0) (sym (append-nil (put_be 8 v))) ∙ read_word v [] h

-- The key of an adjacency entry decodes to the node and the edge that it was made of, both words.
pub decode_adj_key-encode_adj_key :
    (node edge : ℕ)
    → IsWord node
    → IsWord edge
    → decode_adj_key (encode_adj_key node edge) ≡ some (node, edge)
unfolding decode_adj_key encode_adj_key
decode_adj_key-encode_adj_key node edge h k =
    rw (read_word node (put_be 8 edge) h, drop-put_be 8 node (put_be 8 edge), read_last_word edge k)
      refl

-- The value of an adjacency entry decodes to the node, a word, and the label that it was made of.
pub decode_adj_value-encode_adj_value :
    (target : ℕ) (label : Bytes)
    → IsWord target
    → decode_adj_value (encode_adj_value target label) ≡ some (target, label)
unfolding decode_adj_value encode_adj_value
decode_adj_value-encode_adj_value target label h =
    let long : ltb (length (put_be 8 target ++ label)) 8 ≡ false =
      rw (length-append (put_be 8 target) label, length-put_be 8 target) (ground arith) in
    rw (long, read_word target label h, drop-put_be 8 target label) refl

encode_uint64_into-eq-put_be : (v : ℕ) → encode_uint64_into v ≡ put_be 8 v
unfolding encode_uint64_into put_be
encode_uint64_into-eq-put_be v = ground arith

-- `same_start` over parts of one length.
same_start-append :
    (xs ys zs : Bytes) → length xs ≡ length zs → (same_start (xs ++ ys) zs ≡ true) ↔ (xs ≡ zs)
unfolding same_start
same_start-append [] ys [] h = (λ _. refl, λ _. refl)
same_start-append [] ys (z ∷ zs) h = absurd (omega arith)
same_start-append (x ∷ xs) ys [] h = absurd (omega arith)
same_start-append (x ∷ xs) ys (z ∷ zs) h = ground (arith, same_start-append xs ys zs)

-- A label with no separator in it ends where the separator stands.
same_start_label :
    (xs ys zs : Bytes)
    → IsNulFree xs
    → IsNulFree zs
    → (same_start (xs ++ 0 ∷ ys) (zs ++ 0 ∷ []) ≡ true) ↔ (xs ≡ zs)
unfolding same_start
same_start_label [] ys [] h k = (λ _. refl, λ _. refl)
same_start_label [] ys (z ∷ zs) h k = ground arith
same_start_label (x ∷ xs) ys [] h k = ground arith
same_start_label (x ∷ xs) ys (z ∷ zs) h k = ground (arith, same_start_label xs ys zs)

same_start-length : (s p : Bytes) → same_start s p ≡ true → length p ≤ length s
unfolding same_start
same_start-length s [] h = omega arith
same_start-length [] (p ∷ ps) h = cc
same_start-length (x ∷ s) (p ∷ ps) h = ground (arith, same_start-length s ps)

pub has_prefix_iff : (s p : Bytes) → (has_prefix s p ≡ true) ↔ (same_start s p ≡ true)
unfolding has_prefix
has_prefix_iff s p = ground (arith, same_start-length s p)

-- A scan of the label index with the prefix of `label'` meets the key of a node under `label` exactly
-- if the labels are one, and reads the node's identifier behind the prefix; no label holds the byte 0.
pub label_index_scan :
    (label label' : Bytes) (id : NodeId)
    → IsNulFree label
    → IsNulFree label'
    → IsWord id
    → ((has_prefix (encode_label_index_key label id) (encode_label_index_prefix label') ≡ true)
        ↔ (label ≡ label'))
      × (decode_node_id
            (drop (length (encode_label_index_prefix label)) (encode_label_index_key label id))
          ≡ some id)
unfolding encode_label_index_key encode_label_index_prefix decode_node_id
label_index_scan label label' id h k w =
    let scan = same_start_label label (encode_uint64_into id) label' h k in
    let test = has_prefix_iff (label ++ 0 ∷ encode_uint64_into id) (label' ++ 0 ∷ []) in
    (
      (λ p. scan.0 (test.0 p), λ e. test.1 (scan.1 e)),
      rw
          (
            ← append_assoc label (0 ∷ []) (encode_uint64_into id),
            drop-append (label ++ 0 ∷ []) (encode_uint64_into id),
            encode_uint64_into-eq-put_be,
          )
          (read_last_word id w),
    )

pub put_be-injective : (a b : ℕ) → IsWord a → IsWord b → put_be 8 a ≡ put_be 8 b → a ≡ b
put_be-injective a b h k e =
    some-injective _ _ (sym (read_last_word a h) ∙ ap (read_be 8 0) e ∙ read_last_word b k)

-- A scan of an adjacency bucket with the identifier of `other` as its prefix meets the key of an
-- edge at `node` exactly if the nodes are one.
pub adjacency_scan :
    (node other : NodeId) (edge : EdgeId)
    → IsWord node
    → IsWord other
    → (has_prefix (encode_adj_key node edge) (encode_node_id other) ≡ true) ↔ (node ≡ other)
unfolding encode_adj_key encode_node_id
adjacency_scan node other edge h k =
    let scan =
      same_start-append (put_be 8 node) (put_be 8 edge) (put_be 8 other)
        (length-put_be 8 node ∙ sym (length-put_be 8 other)) in
    let test = has_prefix_iff (put_be 8 node ++ put_be 8 edge) (put_be 8 other) in
    (
      λ p. put_be-injective node other h k (scan.0 (test.0 p)),
      λ e. test.1 (scan.1 (ap (put_be 8) e)),
    )
