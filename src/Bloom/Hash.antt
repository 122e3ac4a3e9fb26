-- ===== src/Bloom/Hash.antt =====
-- `bloomHash` of bloom.go: the two halves of FNV-128a (hash/fnv of Go's standard library) over the
-- two identifiers in little-endian order.
use Prim.Native.Nat.{bit_xor}
use goraphdb.Common.{
  ℕ, zero, suc, ◌+◌, ◌*◌, ◌/◌, ◌%◌, ◌^◌, ◌≡◌, refl, [], ◌∷◌, ◌++◌, ◌==◌, if◌then◌else◌, take, drop,
}
use goraphdb.Types.{Bytes, NodeId}
use goraphdb.Encoding.Ints.{put_be}

put_le : ℕ → ℕ → Bytes
put_le zero v = []
put_le (suc n) v = (v % 256) ∷ put_le n (v / 256)

read_le : Bytes → ℕ
read_le [] = 0
read_le (b ∷ bs) = b + 256 * read_le bs

fnv128a_from : ℕ → Bytes → ℕ
fnv128a_from h [] = h
fnv128a_from h (b ∷ bs) = fnv128a_from (bit_xor h b * (2 ^ 88 + 0x13b) % 2 ^ 128) bs

pub fnv128a : Bytes → ℕ
unfolding fnv128a_from
fnv128a = fnv128a_from 0x6c62272e07bb014262b821756295c58d

-- `if h2 == 0 { h2 = 1 }`
pub bloom_hash : NodeId → NodeId → ℕ × ℕ
unfolding fnv128a put_le read_le put_be
bloom_hash from to =
    let sum = put_be 16 (fnv128a (put_le 8 from ++ put_le 8 to)) in
    let h1 = read_le (take 8 sum) in
    let h2 = read_le (drop 8 sum) in (h1, if h2 == 0 then 1 else h2)

fnv128a_of_empty : fnv128a [] ≡ 0x6c62272e07bb014262b821756295c58d
unfolding fnv128a
fnv128a_of_empty = refl

-- A known value of FNV-128a, over "a".
fnv128a_of_a : fnv128a (0x61 ∷ []) ≡ 0xd228cb696f1a8caf78912b704e4a8964
unfolding fnv128a
fnv128a_of_a = refl
