-- ===== src/Base/Mask.antt =====
-- `x & 0xff` as a remainder, from the recursion on binary digits that `&` stands for.
use Prim.Native.Nat.{ℕ, zero, suc, ◌+◌, ◌*◌, ◌/◌, ◌%◌, ◌≤◌, min, bit_and, digits, bit_and-bitwise}
use mathlib.Core.Path.{◌≡◌, refl, sym, ◌∙◌}
use native.Mathlib.Omega.{arith}

-- The digits that both numbers have, in `n` rounds.
abbrev common : ℕ → ℕ → ℕ → ℕ
common n a b = digits (λ _. zero) min n a b

common-zero : (n b : ℕ) → common n 0 b ≡ 0
common-zero zero b = refl
common-zero (suc n) b = refl

-- Any number of rounds from `a` on gives the same.
common_rounds : (n m a b : ℕ) → a ≤ n → a ≤ m → common n a b ≡ common m a b
common_rounds n m zero b p q = common-zero n b ∙ sym (common-zero m b)
common_rounds zero m (suc a) b p q = absurd (omega arith)
common_rounds (suc n) zero (suc a) b p q = absurd (omega arith)
common_rounds (suc n) (suc m) (suc a) b p q =
    omega (arith, common_rounds n m (suc a / 2) (b / 2) (omega arith) (omega arith))

-- One round, for a mask whose lowest digit is 1.
bit_and_odd : (a k : ℕ) → bit_and a (2 * k + 1) ≡ bit_and (a / 2) k * 2 + a % 2
bit_and_odd zero k = omega (arith, bit_and-bitwise 0 (2 * k + 1), bit_and-bitwise 0 k)
bit_and_odd (suc a) k =
    let half : (2 * k + 1) / 2 ≡ k = omega arith in
    omega (
      arith,
      bit_and-bitwise (suc a) (2 * k + 1),
      bit_and-bitwise (suc a / 2) ((2 * k + 1) / 2),
      common_rounds a (suc a / 2) (suc a / 2) ((2 * k + 1) / 2) (omega arith) (omega arith),
      mathlib.Core.Path.ap (bit_and (suc a / 2)) half,
    )

bit_and-none : (n a : ℕ) → common n a 0 ≡ 0
bit_and-none n zero = common-zero n 0
bit_and-none zero (suc a) = refl
bit_and-none (suc n) (suc a) = omega (arith, bit_and-none n (suc a / 2))

pub bit_and-15 : (a : ℕ) → bit_and a 15 ≡ a % 16
bit_and-15 a = omega (
  arith,
  bit_and_odd a 7,
  bit_and_odd (a / 2) 3,
  bit_and_odd (a / 2 / 2) 1,
  bit_and_odd (a / 2 / 2 / 2) 0,
  bit_and-bitwise (a / 2 / 2 / 2 / 2) 0,
  bit_and-none (a / 2 / 2 / 2 / 2) (a / 2 / 2 / 2 / 2),
)

pub bit_and-255 : (a : ℕ) → bit_and a 255 ≡ a % 256
bit_and-255 a = omega (
  arith,
  bit_and_odd a 127,
  bit_and_odd (a / 2) 63,
  bit_and_odd (a / 2 / 2) 31,
  bit_and_odd (a / 2 / 2 / 2) 15,
  bit_and-15 (a / 2 / 2 / 2 / 2),
)

pub bit_and-16383 : (a : ℕ) → bit_and a 16383 ≡ a % 16384
bit_and-16383 a = omega (
  arith,
  bit_and_odd a 8191,
  bit_and_odd (a / 2) 4095,
  bit_and_odd (a / 2 / 2) 2047,
  bit_and_odd (a / 2 / 2 / 2) 1023,
  bit_and_odd (a / 2 / 2 / 2 / 2) 511,
  bit_and_odd (a / 2 / 2 / 2 / 2 / 2) 255,
  bit_and-255 (a / 2 / 2 / 2 / 2 / 2 / 2),
)

pub bit_and-63 : (a : ℕ) → bit_and a 63 ≡ a % 64
bit_and-63 a = omega (arith, bit_and_odd a 31, bit_and_odd (a / 2) 15, bit_and-15 (a / 2 / 2))
