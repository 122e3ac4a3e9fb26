-- ===== src/Bloom/Tests.antt =====
-- The filter on small inputs.
use mathlib.Core.List.{Memᴰ}
use goraphdb.Common.{◌≡◌, refl, true, [], ◌∷◌, arith}
use goraphdb.Encoding.Keys.{encode_adj_key, encode_adj_value}
use goraphdb.Bloom.{new_bloom_filter, add, test, init_bloom_filter, expected_edges, total_edges}
use goraphdb.Bloom.Sound.{new_bloom_filter-IsValid, test_after_adds, init_bloom_filter-sees}

test_after_adds_example : test (add (add (new_bloom_filter 100) 1 2) 3 4) 1 2 ≡ true
test_after_adds_example =
    test_after_adds (new_bloom_filter 100) 1 2 ((3, 4) ∷ [])
      (new_bloom_filter-IsValid 100 (omega arith))

init_bloom_filter-sees_example :
    test
      (init_bloom_filter
        (1 ∷ [])
        (((encode_adj_key 5 1, encode_adj_value 6 (0x61 ∷ [])) ∷ []) ∷ []))
      5
      6
    ≡ true
unfolding expected_edges total_edges
init_bloom_filter-sees_example =
    init_bloom_filter-sees (1 ∷ [])
      (((encode_adj_key 5 1, encode_adj_value 6 (0x61 ∷ [])) ∷ []) ∷ [])
      ((encode_adj_key 5 1, encode_adj_value 6 (0x61 ∷ [])) ∷ []) 5 6 1 (0x61 ∷ []) (omega arith)
      (omega arith) (omega arith) (Memᴰ.head refl) (Memᴰ.head refl)
