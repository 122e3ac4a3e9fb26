-- ===== src/Common/Bits.antt =====
-- Testing and setting one bit of a word by `bit_and` and `bit_or`, at every position.
use Prim.Native.Nat.{
  ℕ, zero, suc, ◌+◌, ◌*◌, ◌/◌, ◌%◌, ◌^◌, ◌≤◌, min, max, bit_and, bit_or, digits, bit_and-bitwise,
  bit_or-bitwise,
}
use mathlib.Core.Path.{◌≡◌, refl}
use native.Mathlib.Omega.{arith}
use native.Mathlib.Nat.{pow-suc}

-- Both operations are one recursion over binary digits, whose fuel does not matter once it suffices.
module _ (at_end : ℕ → ℕ) (op : ℕ → ℕ → ℕ) where
  any_fuel : (a b p q : ℕ) → a ≤ p → a ≤ q → digits at_end op p a b ≡ digits at_end op q a b
  any_fuel zero b zero zero le le' = refl
  any_fuel zero b (suc p) zero le le' = refl
  any_fuel zero b zero (suc q) le le' = refl
  any_fuel zero b (suc p) (suc q) le le' = refl
  any_fuel (suc a) b zero q le le' = absurd (omega arith)
  any_fuel (suc a) b (suc p) zero le le' = absurd (omega arith)
  any_fuel (suc a) b (suc p) (suc q) le le' =
      let halves = any_fuel (suc a / 2) (b / 2) p q (omega arith) (omega arith) in
      omega (arith, halves)

  halving :
      (r : ℕ → ℕ → ℕ)
      → ((a b : ℕ) → r a b ≡ digits at_end op a a b)
      → (a b : ℕ) → r (suc a) b ≡ 2 * r (suc a / 2) (b / 2) + op (suc a % 2) (b % 2)
  halving r is a b =
      let own = any_fuel (suc a / 2) (b / 2) a (suc a / 2) (omega arith) (omega arith) in
      omega (arith, own, is (suc a) b, is (suc a / 2) (b / 2))

and_at_end : (b : ℕ) → bit_and 0 b ≡ 0
and_at_end = bit_and-bitwise 0

or_at_end : (b : ℕ) → bit_or 0 b ≡ b
or_at_end = bit_or-bitwise 0

and_halves : (a b : ℕ) → bit_and a b ≡ 2 * bit_and (a / 2) (b / 2) + min (a % 2) (b % 2)
and_halves zero b = omega (arith, and_at_end b, and_at_end (b / 2))
and_halves (suc a) b = halving (λ b. zero) min bit_and bit_and-bitwise a b

or_halves : (a b : ℕ) → bit_or a b ≡ 2 * bit_or (a / 2) (b / 2) + max (a % 2) (b % 2)
or_halves zero b = omega (arith, or_at_end b, or_at_end (b / 2))
or_halves (suc a) b = halving (λ b. b) max bit_or bit_or-bitwise a b

under_mask : (fuel a mask : ℕ) → a ≤ fuel → bit_and a mask ≤ mask
under_mask fuel zero mask le = omega (arith, and_at_end mask)
under_mask zero (suc a) mask le = absurd (omega arith)
under_mask (suc fuel) (suc a) mask le =
    let halves = under_mask fuel (suc a / 2) (mask / 2) (omega arith) in
    omega (arith, halves, and_halves (suc a) mask)

-- A mask bounds what it lets through.
pub bit_and-le_right : (a mask : ℕ) → bit_and a mask ≤ mask
bit_and-le_right a mask = under_mask a a mask (omega arith)

double_half : (k : ℕ) → 2 ^ suc k / 2 ≡ 2 ^ k
double_half k = omega (arith, pow-suc 2 k)

double_even : (k : ℕ) → 2 ^ suc k % 2 ≡ 0
double_even k = omega (arith, pow-suc 2 k)

-- The bit that `|= 1 << k` sets is seen by the test `& (1 << k)`.
pub bit_and-bit_or_self : (k w : ℕ) → bit_and (bit_or w (2 ^ k)) (2 ^ k) ≡ 2 ^ k
bit_and-bit_or_self zero w =
    omega (arith, or_halves w 1, and_halves (bit_or w 1) 1, bit_and-le_right (bit_or w 1 / 2) 0)
bit_and-bit_or_self (suc k) w =
    let half : (bit_or w (2 ^ suc k)) / 2 ≡ bit_or (w / 2) (2 ^ k) =
      rw (or_halves w (2 ^ suc k), double_half k, double_even k) (omega arith) in
    rw
      (
        and_halves (bit_or w (2 ^ suc k)) (2 ^ suc k),
        half,
        double_half k,
        double_even k,
        bit_and-bit_or_self k (w / 2),
      )
      (omega (arith, pow-suc 2 k))

bit_and-le_fuel : (n w v m : ℕ) → w ≤ n → bit_and w m ≤ bit_and (bit_or w v) m
bit_and-le_fuel n zero v m h = omega (arith, and_at_end m)
bit_and-le_fuel zero (suc w) v m h = absurd (omega arith)
bit_and-le_fuel (suc n) (suc w) v m h =
    let half : bit_or (suc w) v / 2 ≡ bit_or (suc w / 2) (v / 2) =
      omega (arith, or_halves (suc w) v) in
    let rest = bit_and-le_fuel n (suc w / 2) (v / 2) (m / 2) (omega arith) in
    rw (and_halves (bit_or (suc w) v) m, and_halves (suc w) m, half)
      (omega (arith, rest, or_halves (suc w) v))

-- Setting bits clears none: what a test sees before, it sees after.
pub bit_and-le-bit_or : (w v m : ℕ) → bit_and w m ≤ bit_and (bit_or w v) m
bit_and-le-bit_or w v m = bit_and-le_fuel w w v m (omega arith)
