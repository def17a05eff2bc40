-- ===== src/Base/Bits.antt =====
-- `&` and `|` on unsigned words of any width: both split at every bit position.
mod Digit
use Prim.Native.Nat.{
  ℕ, zero, suc, ◌+◌, ◌-◌, ◌*◌, ◌/◌, ◌%◌, ◌^◌, ◌<◌, bit_and, bit_or, bit_or-bitwise,
}
use mathlib.Core.Path.{◌≡◌, refl, ap, ◌∙◌}
use native.Mathlib.Nat.{
  pow-suc, one-le-pow, mod-eq_of_lt, mul-add-mod_self_right, mul-add-div_right, div-eq_of_lt,
}
use native.Mathlib.Omega.{arith}
pub use Digit.{and_digit, or_digit}

bit_and-zero_below : (n a : ℕ) → a < n → bit_and a 0 ≡ 0
bit_and-zero_below zero a h = elim h [ ]
bit_and-zero_below (suc n) zero h = refl
bit_and-zero_below (suc n) (suc a) h =
    omega (arith, and_digit (suc a) 0, bit_and-zero_below n (suc a / 2) (omega arith))

-- `a & 0`
pub bit_and-zero : (a : ℕ) → bit_and a 0 ≡ 0
bit_and-zero a = bit_and-zero_below (suc a) a (omega arith)

bit_or-zero_below : (n a : ℕ) → a < n → bit_or a 0 ≡ a
bit_or-zero_below zero a h = elim h [ ]
bit_or-zero_below (suc n) zero h = refl
bit_or-zero_below (suc n) (suc a) h =
    omega (arith, or_digit (suc a) 0, bit_or-zero_below n (suc a / 2) (omega arith))

-- `a | 0`
pub bit_or-zero : (a : ℕ) → bit_or a 0 ≡ a
bit_or-zero a = bit_or-zero_below (suc a) a (omega arith)

-- `0 | a`
pub zero-bit_or : (a : ℕ) → bit_or 0 a ≡ a
zero-bit_or a = simp bit_or-bitwise (omega arith)

double_pow : (x k : ℕ) → x * 2 ^ suc k ≡ 2 * (x * 2 ^ k)
double_pow x k = omega (arith, ap (λ (t : ℕ). x * t) (pow-suc 2 k))

-- Bit `k` splits a conjunction into that of the high parts and that of the low parts.
pub bit_and_split :
    (k a b c d : ℕ)
    → b < 2 ^ k
    → d < 2 ^ k
    → bit_and (a * 2 ^ k + b) (c * 2 ^ k + d) ≡ bit_and a c * 2 ^ k + bit_and b d
bit_and_split zero a b c d p q = ground (arith, bit_and-zero 0)
bit_and_split (suc k) a b c d p q = ground (
  arith,
  and_digit (a * 2 ^ suc k + b) (c * 2 ^ suc k + d),
  and_digit b d,
  double_pow a k,
  double_pow c k,
  double_pow (bit_and a c) k,
  pow-suc 2 k,
  bit_and_split k a (b / 2) c (d / 2) (omega (arith, pow-suc 2 k)) (omega (arith, pow-suc 2 k)),
)

pub bit_or_split :
    (k a b c d : ℕ)
    → b < 2 ^ k
    → d < 2 ^ k
    → bit_or (a * 2 ^ k + b) (c * 2 ^ k + d) ≡ bit_or a c * 2 ^ k + bit_or b d
bit_or_split zero a b c d p q = ground (arith, bit_or-zero 0)
bit_or_split (suc k) a b c d p q = ground (
  arith,
  or_digit (a * 2 ^ suc k + b) (c * 2 ^ suc k + d),
  or_digit b d,
  double_pow a k,
  double_pow c k,
  double_pow (bit_or a c) k,
  pow-suc 2 k,
  bit_or_split k a (b / 2) c (d / 2) (omega (arith, pow-suc 2 k)) (omega (arith, pow-suc 2 k)),
)

bit_and_ones : (k b : ℕ) → b < 2 ^ k → bit_and b (2 ^ k - 1) ≡ b
bit_and_ones zero b h = ground (arith, bit_and-zero b)
bit_and_ones (suc k) b h = ground (
  arith,
  and_digit b (2 ^ suc k - 1),
  pow-suc 2 k,
  one-le-pow k 2,
  bit_and_ones k (b / 2) (omega (arith, pow-suc 2 k)),
)

-- `a & ((1 << k) - 1)`
pub bit_and_low : (k a : ℕ) → bit_and a (2 ^ k - 1) ≡ a % 2 ^ k
bit_and_low k a = ground (
  arith,
  one-le-pow k 2,
  bit_and-zero (a / 2 ^ k),
  bit_and_ones k (a % 2 ^ k),
  bit_and_split k (a / 2 ^ k) (a % 2 ^ k) 0 (2 ^ k - 1),
)

-- `a & (c << k)`
pub bit_and_high : (k a c : ℕ) → bit_and a (c * 2 ^ k) ≡ bit_and (a / 2 ^ k) c * 2 ^ k
bit_and_high k a c =
    ground
      (arith, one-le-pow k 2, bit_and-zero (a % 2 ^ k), bit_and_split k (a / 2 ^ k) (a % 2 ^ k) c 0)

-- `(q << k) | r` is a sum where `r` fits `k` bits.
pub bit_or_sum : (k q r : ℕ) → r < 2 ^ k → bit_or (q * 2 ^ k) r ≡ q * 2 ^ k + r
bit_or_sum k q r h =
    ground (arith, one-le-pow k 2, bit_or-zero q, zero-bit_or r, bit_or_split k q 0 0 r)

-- A disjunction of words of `k` bits has `k` bits.
pub bit_or-lt : (k a b : ℕ) → a < 2 ^ k → b < 2 ^ k → bit_or a b < 2 ^ k
bit_or-lt zero a b p q = ground (arith, bit_or-zero 0)
bit_or-lt (suc k) a b p q = omega (
  arith,
  or_digit a b,
  pow-suc 2 k,
  bit_or-lt k (a / 2) (b / 2) (omega (arith, pow-suc 2 k)) (omega (arith, pow-suc 2 k)),
)

bit_or_parts :
    (k a b : ℕ)
    → bit_or a b ≡ bit_or (a / 2 ^ k) (b / 2 ^ k) * 2 ^ k + bit_or (a % 2 ^ k) (b % 2 ^ k)
bit_or_parts k a b =
    ground (arith, one-le-pow k 2, bit_or_split k (a / 2 ^ k) (a % 2 ^ k) (b / 2 ^ k) (b % 2 ^ k))

low_parts-lt : (k a b : ℕ) → bit_or (a % 2 ^ k) (b % 2 ^ k) < 2 ^ k
low_parts-lt k a b =
    bit_or-lt k (a % 2 ^ k) (b % 2 ^ k) (omega (arith, one-le-pow k 2))
      (omega (arith, one-le-pow k 2))

-- The low bits and the high bits of a disjunction.
pub mod-bit_or : (k a b : ℕ) → bit_or a b % 2 ^ k ≡ bit_or (a % 2 ^ k) (b % 2 ^ k)
mod-bit_or k a b =
    ap (λ (t : ℕ). t % 2 ^ k) (bit_or_parts k a b)
    ∙ mul-add-mod_self_right _ (2 ^ k) _
    ∙ mod-eq_of_lt (low_parts-lt k a b)

pub div-bit_or : (k a b : ℕ) → bit_or a b / 2 ^ k ≡ bit_or (a / 2 ^ k) (b / 2 ^ k)
div-bit_or k a b = ground (
  arith,
  bit_or_parts k a b,
  mul-add-div_right {m = 2 ^ k} (one-le-pow k 2 (omega arith)) (bit_or (a / 2 ^ k) (b / 2 ^ k))
      (bit_or (a % 2 ^ k) (b % 2 ^ k)),
  div-eq_of_lt (low_parts-lt k a b),
)
