-- ===== src/Base/Decimal.antt =====
-- The decimal text of a whole number, as a template literal prints it.
use Prim.Native.Nat.{ℕ, zero, suc, ◌+◌, ◌-◌, ◌*◌, ◌/◌, ◌%◌, ◌<◌}
use mathlib.Core.Path.{◌≡◌, refl, ap}
use mathlib.Core.Bool.{false}
use mathlib.Core.Logic.{inl, inr}
use mathlib.Core.Option.{Option, none, some}
use mathlib.Core.List.{[], ◌∷◌, ◌++◌}
use native.Mathlib.Omega.{arith}
use gossveil.Base.Tests.{ltb, ◌==◌, if◌then◌else◌, Bool-cases, ==_iff}
use gossveil.Base.Values.{Text}

digits : ℕ → ℕ → Text
digits zero n = []
digits (suc fuel) n =
    let rest = digits fuel (n / 10) in
    if ltb n 10 then (b'0' + n) ∷ [] else rest ++ (b'0' + n % 10) ∷ []

-- A number has fewer digits than `n + 1`.
unfoldable pub decimal : ℕ → Text
unfolding digits
decimal n = digits (suc n) n

read_from : ℕ → Text → ℕ
read_from acc [] = acc
read_from acc (c ∷ s) = read_from (acc * 10 + (c - b'0')) s

read_from-append : (acc : ℕ) (s t : Text) → read_from acc (s ++ t) ≡ read_from (read_from acc s) t
unfolding read_from
read_from-append acc [] t = refl
read_from-append acc (c ∷ s) t = read_from-append (acc * 10 + (c - b'0')) s t

read-digits : (fuel n : ℕ) → n < fuel → read_from 0 (digits fuel n) ≡ n
unfolding digits read_from
read-digits zero n h = absurd (omega arith)
read-digits (suc fuel) n h = elim (Bool-cases (ltb n 10)) [
  | inl small ↦ rw small (omega arith)
  | inr large ↦ rw large (
      rw (read_from-append 0 (digits fuel (n / 10)) ((b'0' + n % 10) ∷ []))
        (ground (arith, read-digits fuel (n / 10))))
]

-- Different numbers print differently.
pub decimal-injective : (m n : ℕ) → decimal m ≡ decimal n → m ≡ n
unfolding decimal
decimal-injective m n e = omega (
  arith,
  read-digits (suc m) m (omega arith),
  read-digits (suc n) n (omega arith),
  ap (read_from 0) e,
)

-- No digit is the character `sep`, if that is below "0" or above "9".
abbrev pub Lacks : ℕ → Text → Type 0
Lacks sep [] = Unit
Lacks sep (c ∷ s) = ((c == sep) ≡ false) × Lacks sep s

pub Lacks-append : (sep : ℕ) (s t : Text) → Lacks sep s → Lacks sep t → Lacks sep (s ++ t)
Lacks-append sep [] t h k = k
Lacks-append sep (c ∷ s) t (h, hs) k = (h, Lacks-append sep s t hs k)

digits-Lacks-dot : (fuel n : ℕ) → Lacks b'.' (digits fuel n)
unfolding digits
digits-Lacks-dot zero n = tt
digits-Lacks-dot (suc fuel) n = elim (Bool-cases (ltb n 10)) [
  | inl small ↦ rw small (ground arith, tt)
  | inr large ↦ rw large (
      Lacks-append b'.' (digits fuel (n / 10)) _ (digits-Lacks-dot fuel (n / 10))
        (ground arith, tt))
]

pub decimal-Lacks-dot : (n : ℕ) → Lacks b'.' (decimal n)
unfolding decimal
decimal-Lacks-dot n = digits-Lacks-dot (suc n) n

-- A text cut at the last `sep` in it.
cons_front : ℕ → ℕ → Text → Option (Text × Text) → Option (Text × Text)
cons_front sep c s (some (front, back)) = some (c ∷ front, back)
cons_front sep c s none = if c == sep then some ([], s) else none

cut_last : ℕ → Text → Option (Text × Text)
cut_last sep [] = none
cut_last sep (c ∷ s) = cons_front sep c s (cut_last sep s)

cut_last-Lacks : (sep : ℕ) (s : Text) → Lacks sep s → cut_last sep s ≡ none
unfolding cut_last cons_front
cut_last-Lacks sep [] h = refl
cut_last-Lacks sep (c ∷ s) (h, hs) = rw (cut_last-Lacks sep s hs, h)

cut_last_joined :
    (sep : ℕ) (front back : Text)
    → Lacks sep back
    → cut_last sep (front ++ sep ∷ back) ≡ some (front, back)
unfolding cut_last cons_front
cut_last_joined sep [] back h = rw (cut_last-Lacks sep back h, (==_iff sep sep).1 refl)
cut_last_joined sep (c ∷ front) back h = rw (cut_last_joined sep front back h)

-- Two texts joined by `sep` determine both parts, if the last part lacks `sep`.
pub joined-injective :
    (sep : ℕ) (front front' back back' : Text)
    → Lacks sep back
    → Lacks sep back'
    → front ++ sep ∷ back ≡ front' ++ sep ∷ back'
    → (front ≡ front') × (back ≡ back')
joined-injective sep front front' back back' h h' e = ground (
  arith,
  cut_last_joined sep front back h,
  cut_last_joined sep front' back' h',
  ap (cut_last sep) e,
)
