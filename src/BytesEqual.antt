-- ===== src/BytesEqual.antt =====
-- `bytesEqual` of sdk/ts/src/core.ts: it goes through all bytes and collects the differences by
-- `|` and `^`.
mod Digits
use Digits.{bit_xor-eq-zero, bit_xor_self, bit_or-eq-zero}
use gossveil.Base.{
  ℕ, suc, ◌≡◌, refl, ap, sym, ◌↔◌, Bool, true, false, List, [], ◌∷◌, Bytes, ◌==◌, ◌&&◌, length,
  arith, bit_or, bit_xor, ==_iff, and_parts,
}

-- The loop, over the elements that both arrays have.
unfoldable pub diff_from : ℕ → Bytes → Bytes → ℕ
diff_from diff (x ∷ a) (y ∷ b) = diff_from (bit_or diff (bit_xor x y)) a b
diff_from diff _ _ = diff

unfoldable pub bytes_equal : Bytes → Bytes → Bool
unfolding diff_from
bytes_equal a b = length a == length b && diff_from 0 a b == 0

diff_from-eq-zero :
    (diff : ℕ) (a b : Bytes) → length a ≡ length b → diff_from diff a b ≡ 0 → (diff ≡ 0) × (a ≡ b)
unfolding diff_from
diff_from-eq-zero diff [] [] len h = (h, refl)
diff_from-eq-zero diff [] (y ∷ b) len h = absurd (omega arith)
diff_from-eq-zero diff (x ∷ a) [] len h = absurd (omega arith)
diff_from-eq-zero diff (x ∷ a) (y ∷ b) len h =
    let (joined, rest) = diff_from-eq-zero (bit_or diff (bit_xor x y)) a b (omega arith) h in
    let (none_before, same) = bit_or-eq-zero diff (bit_xor x y) joined in
    (none_before, cc (bit_xor-eq-zero x y same, rest))

diff_from_self : (a : Bytes) → diff_from 0 a a ≡ 0
unfolding diff_from
diff_from_self [] = refl
diff_from_self (x ∷ a) = rw (bit_xor_self x) (diff_from_self a)

-- The comparison is true exactly on equal arrays.
pub bytes_equal_iff : (a b : Bytes) → (bytes_equal a b ≡ true) ↔ (a ≡ b)
unfolding bytes_equal
bytes_equal_iff a b = (
  λ h.
      let (len, zero_diff) = and_parts (length a == length b) (diff_from 0 a b == 0) h in
      (diff_from-eq-zero 0 a b ((==_iff _ _).0 len) ((==_iff _ _).0 zero_diff)).1,
  λ e. rw (← e, diff_from_self a, (==_iff (length a) (length a)).1 refl) refl,
)
