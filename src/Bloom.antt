-- ===== src/Bloom.antt =====
-- bloom.go: the filter over the (from, to) pairs of edges. Locks are left out: each method is one
-- step. `uint64` arithmetic wraps, and is written so.
pub mod Hash
pub mod Sound
mod Tests
use goraphdb.Common.{
  ℕ, zero, suc, ◌+◌, ◌*◌, ◌/◌, ◌%◌, ◌^◌, Bool, true, false, Option, none, some, List, [], ◌∷◌,
  bit_and, bit_or, ltb, leb, ◌==◌, ◌&&◌, if◌then◌else◌, length, get_or, set, replicate, foldl,
}
use goraphdb.Types.{Bytes, NodeId}
use goraphdb.Encoding.Ints.{read_be}
use Hash.{bloom_hash}

pub record BloomFilter : Type 0 where
  pub bits : List ℕ
  pub size : ℕ
  pub k : ℕ

abbrev pub word_size : ℕ
word_size = 2 ^ 64

-- `make([]uint64, words)` and `words * 64`; the sums wrap at 2^64.
unfoldable pub new_bloom_filter : ℕ → BloomFilter
new_bloom_filter expected_items =
    let items = if ltb expected_items 100 then 100 else expected_items in
    let wanted = items * 10 % word_size in
    let bits_needed = if ltb wanted 1024 then 1024 else wanted in
    let words = (bits_needed + 63) % word_size / 64 in
    record { bits = replicate words 0; size = words * 64; k = 4 }

-- The bit that hash function `i` points at.
unfoldable pub probe : ℕ → ℕ → ℕ → ℕ → ℕ
probe size h1 h2 i = (h1 + i * h2) % word_size % size

unfoldable pub set_bit : List ℕ → ℕ → List ℕ
set_bit bits idx = set bits (idx / 64) (bit_or (get_or bits (idx / 64) 0) (2 ^ (idx % 64)))

unfoldable pub bit_is_clear : List ℕ → ℕ → Bool
bit_is_clear bits idx = bit_and (get_or bits (idx / 64) 0) (2 ^ (idx % 64)) == 0

-- The loops `for i := 0; i < bf.k; i++`, by the rounds left.
unfoldable pub add_loop : ℕ → ℕ → ℕ → ℕ → ℕ → List ℕ → List ℕ
add_loop zero i size h1 h2 bits = bits
add_loop (suc n) i size h1 h2 bits =
    add_loop n (suc i) size h1 h2 (set_bit bits (probe size h1 h2 i))

unfoldable pub test_loop : ℕ → ℕ → ℕ → ℕ → ℕ → List ℕ → Bool
test_loop zero i size h1 h2 bits = true
test_loop (suc n) i size h1 h2 bits =
    if bit_is_clear bits (probe size h1 h2 i) then false else test_loop n (suc i) size h1 h2 bits

unfoldable pub add : BloomFilter → NodeId → NodeId → BloomFilter
unfolding add_loop
add bf from to =
    let (h1, h2) = bloom_hash from to in record bf { bits = add_loop bf.k 0 bf.size h1 h2 bf.bits }

unfoldable pub test : BloomFilter → NodeId → NodeId → Bool
unfolding test_loop
test bf from to = let (h1, h2) = bloom_hash from to in test_loop bf.k 0 bf.size h1 h2 bf.bits

add_decoded : BloomFilter → Option ℕ → Option ℕ → BloomFilter
add_decoded bf none to = bf
add_decoded bf (some from) none = bf
add_decoded bf (some from) (some to) = add bf from to

-- The callback of `ForEach` over `adj_out`: entries that are too short are passed over.
unfoldable pub add_entry : BloomFilter → Bytes × Bytes → BloomFilter
unfolding add_decoded
add_entry bf (key, value) =
    if leb 16 (length key) && leb 8 (length value)
    then add_decoded bf (read_be 8 0 key) (read_be 8 0 value)
    else bf

unfoldable pub total_edges : List ℕ → ℕ
total_edges counts = foldl (λ total n. (total + n) % word_size) 0 counts

unfoldable pub expected_edges : List ℕ → ℕ
expected_edges counts =
    let expected = total_edges counts * 2 % word_size in
    if ltb expected 1000 then 1000 else expected

-- The edge counters of the shards, and the entries of their `adj_out` buckets.
unfoldable pub init_bloom_filter : List ℕ → List (List (Bytes × Bytes)) → BloomFilter
init_bloom_filter counts shards =
    foldl (λ bf entries. foldl add_entry bf entries) (new_bloom_filter (expected_edges counts))
      shards
