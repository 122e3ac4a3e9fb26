-- ===== src/Common/Results.antt =====
-- Results of fallible Go functions: the `(value, error)` pairs of the source, with one constructor of
-- `Error` for each place that makes an error. `panic` is a run-time panic of Go (an index out of
-- range, a write to a nil map).
use Prim.Native.Nat.{ℕ}
use mathlib.Core.Path.{◌≡◌, refl}
use mathlib.Core.Logic.{◌⊎◌, inl, inr}
use mathlib.Core.Option.{Option, none, some}

pub data Error : Type 0 where
  database_closed read_only node_not_found edge_not_found source_not_found target_not_found : Error
  marshal_failed unmarshal_failed too_short checksum_mismatch corrupted : Error
  unexpected_character : ℕ → ℕ → Error
  unterminated_string : ℕ → Error
  write_queue_full unknown_op wal_closed io_failed not_open panic : Error

pub data Result {ℓ} (A : Type ℓ) : Type ℓ where
  ok : A → Result A
  err : Error → Result A

infixl 5 ◌>>=◌ ◌>>◌
abbrev pub ◌>>=◌ {ℓ κ} : {A : Type ℓ} {B : Type κ} → Result A → (A → Result B) → Result B
ok a >>= f = f a
err e >>= f = err e

abbrev pub ◌>>◌ {ℓ κ} : {A : Type ℓ} {B : Type κ} → Result A → Result B → Result B
m >> k = m >>= λ _. k

-- A value that must be there, and the error if it is not.
abbrev pub require {ℓ} : {A : Type ℓ} → Error → Option A → Result A
require e none = err e
require e (some a) = ok a

-- To split on a result and keep the equation.
pub Result-cases {ℓ} :
    {A : Type ℓ} (r : Result A) → ((e : Error) × (r ≡ err e)) ⊎ ((a : A) × (r ≡ ok a))
Result-cases (ok a) = inr (a, refl)
Result-cases (err e) = inl (e, refl)
