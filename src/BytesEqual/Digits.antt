-- ===== src/BytesEqual/Digits.antt =====
-- When the bit operations of the comparison give zero, from the recursion on binary digits that
-- they stand for.
use Prim.Native.Nat.{max, differ, digits, bit_or-bitwise, bit_xor-bitwise}
use gossveil.Base.{ℕ, zero, suc, ◌/◌, ◌%◌, ◌≤◌, ◌≡◌, refl, ap, arith, bit_or, bit_xor}

differ-eq-zero : (x y : ℕ) → differ x y ≡ 0 → x ≡ y
differ-eq-zero zero y h = omega arith
differ-eq-zero (suc x) zero h = h
differ-eq-zero (suc x) (suc y) h = ap suc (differ-eq-zero x y h)

differ_self : (x : ℕ) → differ x x ≡ 0
differ_self zero = refl
differ_self (suc x) = differ_self x

-- With at least as many rounds as the first number has digits.
xor_digits-eq-zero : (n a b : ℕ) → a ≤ n → digits (λ y. y) differ n a b ≡ 0 → a ≡ b
xor_digits-eq-zero zero zero b le h = omega arith
xor_digits-eq-zero zero (suc a) b le h = absurd (omega arith)
xor_digits-eq-zero (suc n) zero b le h = omega arith
xor_digits-eq-zero (suc n) (suc a) b le h = omega (
  arith,
  xor_digits-eq-zero n (suc a / 2) (b / 2) (omega arith) (omega arith),
  differ-eq-zero (suc a % 2) (b % 2) (omega arith),
)

xor_digits_self : (n a : ℕ) → a ≤ n → digits (λ y. y) differ n a a ≡ 0
xor_digits_self zero zero le = refl
xor_digits_self zero (suc a) le = absurd (omega arith)
xor_digits_self (suc n) zero le = refl
xor_digits_self (suc n) (suc a) le =
    omega (arith, xor_digits_self n (suc a / 2) (omega arith), differ_self (suc a % 2))

or_digits-eq-zero : (n a b : ℕ) → a ≤ n → digits (λ y. y) max n a b ≡ 0 → (a ≡ 0) × (b ≡ 0)
or_digits-eq-zero zero zero b le h = (refl, h)
or_digits-eq-zero zero (suc a) b le h = absurd (omega arith)
or_digits-eq-zero (suc n) zero b le h = (refl, h)
or_digits-eq-zero (suc n) (suc a) b le h =
    let (high, high') = or_digits-eq-zero n (suc a / 2) (b / 2) (omega arith) (omega arith) in
    omega arith

pub bit_xor-eq-zero : (a b : ℕ) → bit_xor a b ≡ 0 → a ≡ b
bit_xor-eq-zero a b h = xor_digits-eq-zero a a b (omega arith) (rw bit_xor-bitwise at h)

pub bit_xor_self : (a : ℕ) → bit_xor a a ≡ 0
bit_xor_self a = rw bit_xor-bitwise (xor_digits_self a a (omega arith))

pub bit_or-eq-zero : (a b : ℕ) → bit_or a b ≡ 0 → (a ≡ 0) × (b ≡ 0)
bit_or-eq-zero a b h = or_digits-eq-zero a a b (omega arith) (rw bit_or-bitwise at h)
