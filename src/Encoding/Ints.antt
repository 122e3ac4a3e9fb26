-- ===== src/Encoding/Ints.antt =====
-- Big-endian integers (encoding.go, label.go): `binary.BigEndian` of the standard library, written
-- out as bytes. A read that runs past the end of a slice panics in Go; it is `none` here.
use native.Mathlib.Nat.{pow-suc, mod-lt, mod-eq_of_lt, div-add-mod, mul-add-mod_self_left}
use goraphdb.Common.{
  ℕ, zero, suc, ◌+◌, ◌*◌, ◌/◌, ◌%◌, ◌^◌, ◌<◌, ◌≡◌, refl, sym, ◌∙◌, ap, Bool, true, false, Option,
  none, some, [], ◌∷◌, ◌++◌, arith, ltb, if◌then◌else◌, length,
}
use goraphdb.Types.{Bytes}

-- The low `n` bytes of `v`, the highest first.
unfoldable pub put_be : ℕ → ℕ → Bytes
put_be zero v = []
put_be (suc n) v = (v / 256 ^ n % 256) ∷ put_be n v

unfoldable pub read_be : ℕ → ℕ → Bytes → Option ℕ
read_be zero acc b = some acc
read_be (suc n) acc [] = none
read_be (suc n) acc (x ∷ b) = read_be n (acc * 256 + x) b

unfoldable pub encode_uint64 : ℕ → Bytes
encode_uint64 v = put_be 8 v

unfoldable pub decode_uint64 : Bytes → Option ℕ
decode_uint64 b = read_be 8 0 b

-- The order of keys in a bucket: bytes are compared from the left, and a prefix comes first.
unfoldable pub lex_lt : Bytes → Bytes → Bool
lex_lt [] [] = false
lex_lt [] (y ∷ ys) = true
lex_lt (x ∷ xs) [] = false
lex_lt (x ∷ xs) (y ∷ ys) = if ltb x y then true else if ltb y x then false else lex_lt xs ys

pow_pos : (n : ℕ) → 0 < 256 ^ n
pow_pos zero = omega arith
pow_pos (suc n) = omega (arith, pow_pos n, pow-suc 256 n)

low_part : (p a b r : ℕ) → r < p → b < 256 → (p * 256 * a + (b * p + r)) % (p * 256) ≡ b * p + r
low_part p a b r h k = mul-add-mod_self_left (p * 256) a (b * p + r) ∙ mod-eq_of_lt (grind arith)

regroup : (p q a b r v : ℕ) → p * q + r ≡ v → 256 * a + b ≡ q → p * 256 * a + (b * p + r) ≡ v
regroup p q a b r v e f = omega (arith, ap (λ (t : ℕ). p * t) f)

-- The low `n + 1` bytes are one byte in front of the low `n`.
pub mod_byte : (n v : ℕ) → v % 256 ^ suc n ≡ v / 256 ^ n % 256 * 256 ^ n + v % 256 ^ n
mod_byte n v =
    let p = 256 ^ n in
    let split =
      regroup p (v / p) (v / p / 256) (v / p % 256) (v % p) v (div-add-mod v p)
        (div-add-mod (v / p) 256) in
    let low = low_part p (v / p / 256) (v / p % 256) (v % p) (mod-lt v (pow_pos n)) (omega arith) in
    rw (pow-suc 256 n) (ap (λ t. t % (p * 256)) (sym split) ∙ low)

pub length-put_be : (n v : ℕ) → length (put_be n v) ≡ n
unfolding put_be
length-put_be zero v = refl
length-put_be (suc n) v = ap suc (length-put_be n v)

collect : (a b p r t m : ℕ) → t ≡ b * p + r → m ≡ p * 256 → (a * 256 + b) * p + r ≡ a * m + t
collect a b p r t m e f = omega (arith, ap (λ (z : ℕ). a * z) f)

pub read_be-put_be :
    (n acc v : ℕ) (rest : Bytes)
    → read_be n acc (put_be n v ++ rest) ≡ some (acc * 256 ^ n + v % 256 ^ n)
unfolding put_be read_be
read_be-put_be zero acc v rest = ap some (omega arith)
read_be-put_be (suc n) acc v rest =
    read_be-put_be n (acc * 256 + v / 256 ^ n % 256) v rest
    ∙ ap some (
        collect acc (v / 256 ^ n % 256) (256 ^ n) (v % 256 ^ n) (v % 256 ^ suc n) (256 ^ suc n)
          (mod_byte n v) (pow-suc 256 n))

-- What `n` bytes are written for is read back, whatever follows.
pub read_be-put_be_of_lt :
    (n v : ℕ) (rest : Bytes) → v < 256 ^ n → read_be n 0 (put_be n v ++ rest) ≡ some v
read_be-put_be_of_lt n v rest h =
    read_be-put_be n 0 v rest ∙ ap some (rw (mod-eq_of_lt h) (omega arith))

lt_of_digit : (x y p r s : ℕ) → x < y → r < p → x * p + r < y * p + s
lt_of_digit x y p r s h k = grind arith

lex_digit :
    (x y p r s : ℕ)
    → r < p
    → s < p
    → (if ltb x y then true else if ltb y x then false else ltb r s) ≡ ltb (x * p + r) (y * p + s)
lex_digit x y p r s h k = ground (arith, lt_of_digit x y p r s, lt_of_digit y x p s r)

pub lex_lt-put_be : (n a b : ℕ) → lex_lt (put_be n a) (put_be n b) ≡ ltb (a % 256 ^ n) (b % 256 ^ n)
unfolding lex_lt put_be
lex_lt-put_be zero a b = ground arith
lex_lt-put_be (suc n) a b =
    rw (lex_lt-put_be n a b, mod_byte n a, mod_byte n b)
      (lex_digit (a / 256 ^ n % 256) (b / 256 ^ n % 256) (256 ^ n) (a % 256 ^ n) (b % 256 ^ n)
        (mod-lt a (pow_pos n)) (mod-lt b (pow_pos n)))
