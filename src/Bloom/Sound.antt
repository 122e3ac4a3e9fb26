-- ===== src/Bloom/Sound.antt =====
-- The filter has no false negatives.
use mathlib.Core.List.{Memᴰ}
use native.Mathlib.Nat.{mod-lt, pow-suc, le_refl}
use goraphdb.Common.{
  ℕ, zero, suc, ◌+◌, ◌*◌, ◌/◌, ◌%◌, ◌^◌, ◌≤◌, ◌<◌, ◌≡◌, refl, ◌∙◌, Bool, true, false, Option, none,
  some, List, [], ◌∷◌, bit_and, bit_or, arith, ◌⊎◌, inl, inr, Bool-cases, length-append, ◌++◌, ◌&&◌,
  leb, if◌then◌else◌, length, get_or, set, length-set, get_or-set_self, length-replicate,
  bit_and-bit_or_self, bit_and-le-bit_or, foldl,
}
use mathlib.Core.Bool.{false≢true}
use goraphdb.Types.{Bytes, NodeId}
use goraphdb.Encoding.Ints.{put_be, read_be, length-put_be, read_be-put_be_of_lt}
use goraphdb.Encoding.Keys.{encode_adj_key, encode_adj_value}
use goraphdb.Encoding.Scan.{IsWord}
use goraphdb.Bloom.{
  BloomFilter, word_size, new_bloom_filter, probe, set_bit, bit_is_clear, add_loop, test_loop, add,
  test, add_decoded, add_entry, expected_edges, init_bloom_filter,
}
use goraphdb.Bloom.Hash.{bloom_hash}

pub record IsValid (bf : BloomFilter) : Type 0 where
  pub some_bits : 0 < bf.size
  pub sized : length bf.bits * 64 ≡ bf.size

pow_pos : (k : ℕ) → 0 < 2 ^ k
pow_pos zero = omega arith
pow_pos (suc k) = omega (arith, pow_pos k, pow-suc 2 k)

length-set_bit : (bits : List ℕ) (i : ℕ) → length (set_bit bits i) ≡ length bits
unfolding set_bit
length-set_bit bits i = length-set bits (i / 64) _

length-add_loop :
    (n i size h1 h2 : ℕ) (bits : List ℕ) → length (add_loop n i size h1 h2 bits) ≡ length bits
unfolding add_loop
length-add_loop zero i size h1 h2 bits = refl
length-add_loop (suc n) i size h1 h2 bits =
    length-add_loop n (suc i) size h1 h2 (set_bit bits (probe size h1 h2 i))
    ∙ length-set_bit bits (probe size h1 h2 i)

clear_self :
    (bits : List ℕ) (i : ℕ) → i / 64 < length bits → bit_is_clear (set_bit bits i) i ≡ false
unfolding bit_is_clear set_bit
clear_self bits i h =
    rw
      (
        get_or-set_self bits (i / 64) (bit_or (get_or bits (i / 64) 0) (2 ^ (i % 64))) 0 h,
        bit_and-bit_or_self (i % 64) (get_or bits (i / 64) 0),
      )
      (ground (arith, pow_pos (i % 64)))

word_grows :
    (bits : List ℕ) (i j v m : ℕ)
    → bit_and (get_or bits j 0) m ≤ bit_and (get_or (set bits i (bit_or (get_or bits i 0) v)) j 0) m
word_grows [] i j v m = le_refl _
word_grows (b ∷ bits) zero zero v m = bit_and-le-bit_or b v m
word_grows (b ∷ bits) zero (suc j) v m = le_refl _
word_grows (b ∷ bits) (suc i) zero v m = le_refl _
word_grows (b ∷ bits) (suc i) (suc j) v m = word_grows bits i j v m

-- A bit that is set stays set.
clear_keep :
    (bits : List ℕ) (i j : ℕ)
    → bit_is_clear bits j ≡ false
    → bit_is_clear (set_bit bits i) j ≡ false
unfolding bit_is_clear set_bit
clear_keep bits i j h =
    ground (arith, word_grows bits (i / 64) (j / 64) (2 ^ (i % 64)) (2 ^ (j % 64)))

keep_loop :
    (n i size h1 h2 j : ℕ) (bits : List ℕ)
    → bit_is_clear bits j ≡ false
    → bit_is_clear (add_loop n i size h1 h2 bits) j ≡ false
unfolding add_loop
keep_loop zero i size h1 h2 j bits h = h
keep_loop (suc n) i size h1 h2 j bits h =
    keep_loop n (suc i) size h1 h2 j (set_bit bits (probe size h1 h2 i))
      (clear_keep bits (probe size h1 h2 i) j h)

test_after :
    (n i size h1 h2 : ℕ) (bits : List ℕ)
    → 0 < size
    → length bits * 64 ≡ size
    → test_loop n i size h1 h2 (add_loop n i size h1 h2 bits) ≡ true
unfolding add_loop test_loop
test_after zero i size h1 h2 bits pos sized = refl
test_after (suc n) i size h1 h2 bits pos sized =
    let idx = probe size h1 h2 i in
    let in_range : idx < size = unfold probe in mod-lt _ pos in
    let bits' = set_bit bits idx in
    let seen = keep_loop n (suc i) size h1 h2 idx bits' (clear_self bits idx (omega arith)) in
    rw seen (test_after n (suc i) size h1 h2 bits' pos (rw (length-set_bit bits idx) sized))

test_keeps :
    (m j n i size g1 g2 h1 h2 : ℕ) (bits : List ℕ)
    → test_loop m j size g1 g2 bits ≡ true
    → test_loop m j size g1 g2 (add_loop n i size h1 h2 bits) ≡ true
unfolding test_loop
test_keeps zero j n i size g1 g2 h1 h2 bits h = refl
test_keeps (suc m) j n i size g1 g2 h1 h2 bits h =
    elim (Bool-cases (bit_is_clear bits (probe size g1 g2 j))) [
      | inl clear ↦ absurd (false≢true (rw clear at h))
      | inr seen ↦
          rw (keep_loop n i size h1 h2 (probe size g1 g2 j) bits seen)
            (test_keeps m (suc j) n i size g1 g2 h1 h2 bits (rw seen at h))
    ]

-- Every bit array that `newBloomFilter` makes has a bit, if the sums do not wrap.
pub new_bloom_filter-IsValid : (n : ℕ) → n * 10 + 63 < word_size → IsValid (new_bloom_filter n)
unfolding new_bloom_filter
new_bloom_filter-IsValid n h = record {
  some_bits = ground arith;
  sized = rw (length-replicate {A = ℕ} _ 0);
}

pub add-IsValid : {bf : BloomFilter} (from to : NodeId) → IsValid bf → IsValid (add bf from to)
unfolding add
add-IsValid {bf} from to v = record {
  some_bits = v.some_bits;
  sized =
      rw (length-add_loop bf.k 0 bf.size (bloom_hash from to).0 (bloom_hash from to).1 bf.bits)
        v.sized;
}

pub test-add_self :
    (bf : BloomFilter) (from to : NodeId) → IsValid bf → test (add bf from to) from to ≡ true
unfolding add test
test-add_self bf from to v =
    test_after bf.k 0 bf.size (bloom_hash from to).0 (bloom_hash from to).1 bf.bits v.some_bits
      v.sized

pub test-add_keeps :
    (bf : BloomFilter) (from to u w : NodeId)
    → test bf u w ≡ true
    → test (add bf from to) u w ≡ true
unfolding add test
test-add_keeps bf from to u w h =
    test_keeps bf.k 0 bf.k 0 bf.size (bloom_hash u w).0 (bloom_hash u w).1 (bloom_hash from to).0
      (bloom_hash from to).1 bf.bits h

-- The filter is well formed, and the pair is seen in it.
abbrev Sees : NodeId → NodeId → BloomFilter → Type 0
Sees from to bf = IsValid bf × (test bf from to ≡ true)

entry_cases :
    (bf : BloomFilter) (b : Bool) (o p : Option ℕ)
    → ((if b then add_decoded bf o p else bf) ≡ bf)
      ⊎ ((from to : NodeId) × ((if b then add_decoded bf o p else bf) ≡ add bf from to))
unfolding add_decoded
entry_cases bf false o p = inl refl
entry_cases bf true none p = inl refl
entry_cases bf true (some from) none = inl refl
entry_cases bf true (some from) (some to) = inr (from, to, refl)

-- An entry adds one pair or none.
add_entry-cases :
    (bf : BloomFilter) (e : Bytes × Bytes)
    → (add_entry bf e ≡ bf) ⊎ ((from to : NodeId) × (add_entry bf e ≡ add bf from to))
unfolding add_entry
add_entry-cases bf (key, value) =
    entry_cases bf (leb 16 (length key) && leb 8 (length value)) (read_be 8 0 key)
      (read_be 8 0 value)

add_entry-IsValid : (bf : BloomFilter) (e : Bytes × Bytes) → IsValid bf → IsValid (add_entry bf e)
add_entry-IsValid bf e v = elim (add_entry-cases bf e) [
  | inl same ↦ rw same v
  | inr (from, to, one) ↦ rw one (add-IsValid from to v)
]

add_entry-Sees :
    (u w : NodeId) (bf : BloomFilter) (e : Bytes × Bytes) → Sees u w bf → Sees u w (add_entry bf e)
add_entry-Sees u w bf e (v, t) = elim (add_entry-cases bf e) [
  | inl same ↦ rw same (v, t)
  | inr (from, to, one) ↦ rw one (add-IsValid from to v, test-add_keeps bf from to u w t)
]

module _ (from to : NodeId) (edge : ℕ) (label : Bytes) (hf : IsWord from) (ht : IsWord to) where
  abbrev entry : Bytes × Bytes
  entry = (encode_adj_key from edge, encode_adj_value to label)

  add_own_entry : (bf : BloomFilter) → add_entry bf entry ≡ add bf from to
  unfolding add_entry encode_adj_key encode_adj_value add_decoded
  add_own_entry bf =
      let k : leb 16 (length (put_be 8 from ++ put_be 8 edge)) ≡ true =
        rw
          (
            length-append (put_be 8 from) (put_be 8 edge),
            length-put_be 8 from,
            length-put_be 8 edge,
          )
          refl in
      let v : leb 8 (length (put_be 8 to ++ label)) ≡ true =
        rw (length-append (put_be 8 to) label, length-put_be 8 to) (ground arith) in
      rw (k, v, read_be-put_be_of_lt 8 from (put_be 8 edge) hf, read_be-put_be_of_lt 8 to label ht)
        refl

  entries_keep :
      (entries : List (Bytes × Bytes)) (bf : BloomFilter)
      → Sees from to bf
      → Sees from to (foldl add_entry bf entries)
  entries_keep [] bf s = s
  entries_keep (e ∷ entries) bf s =
      entries_keep entries (add_entry bf e) (add_entry-Sees from to bf e s)

  entries-IsValid :
      (entries : List (Bytes × Bytes)) (bf : BloomFilter)
      → IsValid bf
      → IsValid (foldl add_entry bf entries)
  entries-IsValid [] bf v = v
  entries-IsValid (e ∷ entries) bf v =
      entries-IsValid entries (add_entry bf e) (add_entry-IsValid bf e v)

  entries_see :
      {entries : List (Bytes × Bytes)} (bf : BloomFilter)
      → IsValid bf
      → Memᴰ entry entries
      → Sees from to (foldl add_entry bf entries)
  entries_see bf v (Memᴰ.head {x} {xs} e) =
      entries_keep xs (add_entry bf x)
        (rw (← e, add_own_entry bf) (add-IsValid from to v, test-add_self bf from to v))
  entries_see bf v (Memᴰ.tail {x} {xs} m) =
      entries_see (add_entry bf x) (add_entry-IsValid bf x v) m

  abbrev scan : BloomFilter → List (List (Bytes × Bytes)) → BloomFilter
  scan = foldl (λ bf entries. foldl add_entry bf entries)

  scan_keeps :
      (shards : List (List (Bytes × Bytes))) (bf : BloomFilter)
      → Sees from to bf
      → Sees from to (scan bf shards)
  scan_keeps [] bf s = s
  scan_keeps (entries ∷ shards) bf s =
      scan_keeps shards (foldl add_entry bf entries) (entries_keep entries bf s)

  scan-Sees :
      {entries : List (Bytes × Bytes)} {shards : List (List (Bytes × Bytes))} (bf : BloomFilter)
      → IsValid bf
      → Memᴰ entries shards
      → Memᴰ entry entries
      → Sees from to (scan bf shards)
  scan-Sees {entries} bf v (Memᴰ.head {x} {xs} e) m =
      scan_keeps xs (foldl add_entry bf x) (rw (← e) (entries_see bf v m))
  scan-Sees bf v (Memᴰ.tail {x} {xs} ms) m =
      scan-Sees (foldl add_entry bf x) (entries-IsValid x bf v) ms m

-- A pair that was added is seen, however many pairs are added after it, so a negative answer of the
-- filter means that the pair was never added.
pub test_after_adds :
    (bf : BloomFilter) (from to : NodeId) (later : List (NodeId × NodeId))
    → IsValid bf
    → test (foldl (λ f e. add f e.0 e.1) (add bf from to) later) from to ≡ true
test_after_adds bf from to later v = keeps later (add bf from to) (test-add_self bf from to v)
  where
    keeps :
        (later : List (NodeId × NodeId)) (f : BloomFilter)
        → test f from to ≡ true
        → test (foldl (λ f e. add f e.0 e.1) f later) from to ≡ true
    keeps [] f h = h
    keeps ((u, w) ∷ later) f h = keeps later (add f u w) (test-add_keeps f u w from to h)

-- After the filter is built from the shards, every edge that some shard keeps in its `adj_out` bucket is
-- seen: so `HasEdge` never misses one by asking the filter first. The sizes do not reach 2^64.
pub init_bloom_filter-sees :
    (counts : List ℕ) (shards : List (List (Bytes × Bytes))) (entries : List (Bytes × Bytes))
    (from to : NodeId) (edge : ℕ) (label : Bytes)
    → expected_edges counts * 10 + 63 < word_size
    → IsWord from
    → IsWord to
    → Memᴰ entries shards
    → Memᴰ (encode_adj_key from edge, encode_adj_value to label) entries
    → test (init_bloom_filter counts shards) from to ≡ true
unfolding init_bloom_filter
init_bloom_filter-sees counts shards entries from to edge label size hf ht ms m =
    (scan-Sees from to edge label hf ht (new_bloom_filter (expected_edges counts))
      (new_bloom_filter-IsValid (expected_edges counts) size) ms m).1
