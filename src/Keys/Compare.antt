-- ===== src/Keys/Compare.antt =====
-- `PublicKey.compare` of sdk/ts/src/api.ts: the keys are compared byte by byte, then by length.
use gossveil.Base.{
  ℕ, suc, ◌+◌, ◌-◌, ◌<◌, ◌≡◌, refl, ◌↔◌, [], ◌∷◌, Bytes, ◌==◌, ltb, leb, if◌then◌else◌, length,
  arith, Bool-cases, inl, inr, ==_iff, ◌⊎◌, ◌∙◌,
}

-- The result is a signed number: `neg n` is -(n + 1).
pub data Sign : Type 0 where
  non_neg : ℕ → Sign
  neg : ℕ → Sign

-- `a - b` as a signed number.
unfoldable pub minus : ℕ → ℕ → Sign
minus a b = if leb b a then non_neg (a - b) else neg (b - a - 1)

-- The loop over the bytes that both keys have; behind it, the difference of the lengths.
unfoldable pub compare_from : ℕ → ℕ → Bytes → Bytes → Sign
unfolding minus
compare_from m n (x ∷ a) (y ∷ b) =
    let rest = compare_from m n a b in if x == y then rest else if ltb x y then neg 0 else non_neg 1
compare_from m n _ _ = minus m n

unfoldable pub compare_keys : Bytes → Bytes → Sign
unfolding compare_from
compare_keys a b = compare_from (length a) (length b) a b

abbrev pub IsNegative : Sign → Type 0
IsNegative (non_neg n) = ⊥
IsNegative (neg n) = Unit

-- The order of dictionaries, as an independent description.
abbrev pub Precedes : Bytes → Bytes → Type 0
Precedes [] [] = ⊥
Precedes [] (y ∷ b) = Unit
Precedes (x ∷ a) [] = ⊥
Precedes (x ∷ a) (y ∷ b) = (x < y) ⊎ ((x ≡ y) × Precedes a b)

-- `k` equal bytes lie behind; the lengths are those of the whole keys.
from_zero :
    (k m n : ℕ) (a b : Bytes)
    → m ≡ k + length a
    → n ≡ k + length b
    → (compare_from m n a b ≡ non_neg 0) ↔ (a ≡ b)
unfolding compare_from
from_zero k m n [] [] p q = ground arith
from_zero k m n [] (y ∷ b) p q = ground arith
from_zero k m n (x ∷ a) [] p q = ground arith
from_zero k m n (x ∷ a) (y ∷ b) p q =
    ground (arith, from_zero (suc k) m n a b (omega arith) (omega arith))

from_IsNegative :
    (k m n : ℕ) (a b : Bytes)
    → m ≡ k + length a
    → n ≡ k + length b
    → IsNegative (compare_from m n a b) ↔ Precedes a b
unfolding compare_from
from_IsNegative k m n [] [] p q = (λ h. ground arith, λ h. elim h [ ])
from_IsNegative k m n [] (y ∷ b) p q = (λ h. tt, λ h. ground arith)
from_IsNegative k m n (x ∷ a) [] p q = (λ h. ground arith, λ h. elim h [ ])
from_IsNegative k m n (x ∷ a) (y ∷ b) p q =
    let ih = from_IsNegative (suc k) m n a b (omega arith) (omega arith) in
    elim (Bool-cases (x == y)) [
      | inl same ↦ rw same (
        λ h. inr ((==_iff x y).0 same, ih.0 h),
        λ h. elim h [ inl lt ↦ ground arith | inr (_, h') ↦ ih.1 h' ],
      )
      | inr differ ↦ rw differ (λ h. inl (ground arith), λ h. ground arith)
    ]

-- The comparison is the lexicographic order: it is 0 exactly on equal keys, negative exactly if the
-- first key precedes the second.
pub compare_keys_lem :
    (a b : Bytes)
    → ((compare_keys a b ≡ non_neg 0) ↔ (a ≡ b)) × (IsNegative (compare_keys a b) ↔ Precedes a b)
unfolding compare_keys
compare_keys_lem a b = (
  from_zero 0 (length a) (length b) a b (omega arith) (omega arith),
  from_IsNegative 0 (length a) (length b) a b (omega arith) (omega arith),
)

Precedes-trans : (a b c : Bytes) → Precedes a b → Precedes b c → Precedes a c
Precedes-trans [] (y ∷ b) (z ∷ c) p q = tt
Precedes-trans [] [] c p q = elim p [ ]
Precedes-trans [] (y ∷ b) [] p q = elim q [ ]
Precedes-trans (x ∷ a) [] c p q = elim p [ ]
Precedes-trans (x ∷ a) (y ∷ b) [] p q = elim q [ ]
Precedes-trans (x ∷ a) (y ∷ b) (z ∷ c) (inl p) (inl q) = inl (omega arith)
Precedes-trans (x ∷ a) (y ∷ b) (z ∷ c) (inl p) (inr q) = inl (omega arith)
Precedes-trans (x ∷ a) (y ∷ b) (z ∷ c) (inr p) (inl q) = inl (omega arith)
Precedes-trans (x ∷ a) (y ∷ b) (z ∷ c) (inr (e, p)) (inr (f, q)) =
    inr (e ∙ f, Precedes-trans a b c p q)

Precedes-total : (a b : Bytes) → Precedes a b ⊎ (a ≡ b) ⊎ Precedes b a
Precedes-total [] [] = inr (inl refl)
Precedes-total [] (y ∷ b) = inl tt
Precedes-total (x ∷ a) [] = inr (inr tt)
Precedes-total (x ∷ a) (y ∷ b) = ground (arith, Precedes-total a b)

-- Sorting by the comparison is well defined: if the first key comes before the second and the
-- second before the third, then the first comes before the third.
compare_keys_trans :
    (a b c : Bytes)
    → IsNegative (compare_keys a b)
    → IsNegative (compare_keys b c)
    → IsNegative (compare_keys a c)
compare_keys_trans a b c p q =
    (compare_keys_lem a c).1.1
      (Precedes-trans a b c ((compare_keys_lem a b).1.0 p) ((compare_keys_lem b c).1.0 q))

-- Of two keys one comes before the other, or they are equal.
compare_keys_total :
    (a b : Bytes) → IsNegative (compare_keys a b) ⊎ (a ≡ b) ⊎ IsNegative (compare_keys b a)
compare_keys_total a b = elim (Precedes-total a b) [
  | inl p ↦ inl ((compare_keys_lem a b).1.1 p)
  | inr (inl e) ↦ inr (inl e)
  | inr (inr q) ↦ inr (inr ((compare_keys_lem b a).1.1 q))
]
