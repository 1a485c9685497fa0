-- ===== src/Base/Words.antt =====
-- `u64::to_be_bytes`, and the number that eight such bytes write.
use Prim.Native.Nat.{◌/◌, ◌%◌}
use kave.Base.{
  ℕ, ◌+◌, ◌*◌, ◌^◌, ◌<◌, Option, none, some, [], ◌∷◌, ◌++◌, ◌≡◌, refl, arith, length, ap,
}
use kave.Base.Bytes.{Bytes}

abbrev pub u64_mod : ℕ
u64_mod = 2 ^ 64

unfoldable pub to_be_bytes : ℕ → Bytes
to_be_bytes n =
    (n / 2 ^ 56 % 256)
    ∷ (n / 2 ^ 48 % 256)
    ∷ (n / 2 ^ 40 % 256)
    ∷ (n / 2 ^ 32 % 256)
    ∷ (n / 2 ^ 24 % 256)
    ∷ (n / 2 ^ 16 % 256)
    ∷ (n / 2 ^ 8 % 256)
    ∷ (n % 256)
    ∷ []

unfoldable pub from_be_bytes : Bytes → Option (ℕ × Bytes)
from_be_bytes (a ∷ b ∷ c ∷ d ∷ e ∷ f ∷ g ∷ h ∷ rest) = some (
  a * 2 ^ 56 + b * 2 ^ 48 + c * 2 ^ 40 + d * 2 ^ 32 + e * 2 ^ 24 + f * 2 ^ 16 + g * 2 ^ 8 + h,
  rest,
)
from_be_bytes _ = none

pub length-to_be_bytes : (n : ℕ) → length (to_be_bytes n) ≡ 8
unfolding to_be_bytes
length-to_be_bytes n = refl

digits_lem :
    (n : ℕ)
    → n < u64_mod
    → n / 2 ^ 56 % 256 * 2 ^ 56
        + n / 2 ^ 48 % 256 * 2 ^ 48
        + n / 2 ^ 40 % 256 * 2 ^ 40
        + n / 2 ^ 32 % 256 * 2 ^ 32
        + n / 2 ^ 24 % 256 * 2 ^ 24
        + n / 2 ^ 16 % 256 * 2 ^ 16
        + n / 2 ^ 8 % 256 * 2 ^ 8
        + n % 256
      ≡ n
digits_lem n h = omega arith

pub from_be_bytes-to_be_bytes :
    (n : ℕ) (rest : Bytes) → n < u64_mod → from_be_bytes (to_be_bytes n ++ rest) ≡ some (n, rest)
unfolding from_be_bytes to_be_bytes
from_be_bytes-to_be_bytes n rest h = ap (λ (k : ℕ). some (k, rest)) (digits_lem n h)

pub mod-u64_mod : (n : ℕ) → n < u64_mod → n % u64_mod ≡ n
mod-u64_mod n h = omega arith
