-- ===== src/Encoding/Frames/Crc.antt =====
-- CRC-32 with Castagnoli's polynomial, as `crc32.Checksum(_, crc32Table)` of Go's standard library
-- computes it: bit by bit, reflected, with the register inverted before and after.
use Prim.Native.Nat.{bit_xor}
use goraphdb.Common.{
  ℕ, zero, suc, ◌/◌, ◌%◌, ◌^◌, ◌<◌, ◌≡◌, refl, [], ◌∷◌, arith, ◌==◌, if◌then◌else◌,
}
use goraphdb.Types.{Bytes}

shift_round : ℕ → ℕ → ℕ
shift_round zero crc = crc
shift_round (suc n) crc =
    shift_round n (if crc % 2 == 1 then bit_xor (crc / 2) 0x82f63b78 else crc / 2)

update : ℕ → Bytes → ℕ
unfolding shift_round
update crc [] = crc
update crc (b ∷ bs) = update (shift_round 8 (bit_xor crc b)) bs

pub crc32 : Bytes → ℕ
unfolding update
crc32 b = bit_xor (update 0xffffffff b) 0xffffffff % 2 ^ 32

pub crc32-lt : (b : Bytes) → crc32 b < 2 ^ 32
unfolding crc32
crc32-lt b = omega arith

-- The check value of the algorithm, over "123456789".
crc32_check_value :
    crc32 (0x31 ∷ 0x32 ∷ 0x33 ∷ 0x34 ∷ 0x35 ∷ 0x36 ∷ 0x37 ∷ 0x38 ∷ 0x39 ∷ []) ≡ 0xe3069283
unfolding crc32
crc32_check_value = refl
