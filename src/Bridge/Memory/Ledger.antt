-- ===== src/Bridge/Memory/Ledger.antt =====
-- How often a region is allocated, and what freeing regions changes of that.
use gossveil.Base.{
  ℕ, zero, suc, ◌+◌, ◌-◌, ◌≡◌, refl, ap, ◌∙◌, Bool, true, false, List, [], ◌∷◌, ◌++◌, ◌==◌,
  if◌then◌else◌, arith, Bool-cases, inl, inr,
}
use gossveil.Bridge.Memory.{
  Region, Heap, same_region, release, free_inputs, free_pads, take_out, take_outs,
}

abbrev pub one_if : Bool → ℕ
one_if true = 1
one_if false = 0

unfoldable pub count : Region → List Region → ℕ
count r [] = 0
count r (x ∷ xs) = one_if (same_region r x) + count r xs

pub count-append : (r : Region) (xs ys : List Region) → count r (xs ++ ys) ≡ count r xs + count r ys
unfolding count
count-append r [] ys = omega arith
count-append r (x ∷ xs) ys = omega (arith, count-append r xs ys)

same_as : (r x y : Region) → same_region x y ≡ true → same_region r y ≡ same_region r x
unfolding same_region
same_as (p, n) (p1, n1) (p2, n2) h = ground (arith, h)

not_both :
    (r x y : Region) → same_region x y ≡ false → same_region r y ≡ true → same_region r x ≡ false
unfolding same_region
not_both (p, n) (p1, n1) (p2, n2) h h' = ground (arith, h, h')

pub count-release :
    (r x : Region) (h : Heap) → count r (release x h) ≡ count r h - one_if (same_region r x)
unfolding count release
count-release r x [] = omega arith
count-release r x (y ∷ h) = elim (Bool-cases (same_region x y)) [
  | inl e ↦ rw e (omega (arith, ap one_if (same_as r x y e)))
  | inr e ↦ rw e (elim (Bool-cases (same_region r y)) [
    | inl e' ↦ omega (arith, count-release r x h, ap one_if e', ap one_if (not_both r x y e e'))
    | inr e' ↦ omega (arith, count-release r x h, ap one_if e')
  ])
]

-- The regions among these that were allocated: an empty one was not.
unfoldable pub held : List Region → List Region
held [] = []
held ((p, n) ∷ xs) = if n == 0 then held xs else (p, n) ∷ held xs

pub held-one : (p n : ℕ) → held ((p, suc n) ∷ []) ≡ (p, suc n) ∷ []
unfolding held
held-one p n = ground arith

held-append : (xs ys : List Region) → held (xs ++ ys) ≡ held xs ++ held ys
unfolding held
held-append [] ys = refl
held-append ((p, n) ∷ xs) ys = ground (arith, held-append xs ys)

unfoldable pub cells : List ℕ → List Region
cells [] = []
cells (cell ∷ outs) = (cell, 8) ∷ cells outs

cells-append : (xs ys : List ℕ) → cells (xs ++ ys) ≡ cells xs ++ cells ys
unfolding cells
cells-append [] ys = refl
cells-append (x ∷ xs) ys = ap (λ l. (x, 8) ∷ l) (cells-append xs ys)

pub count-held_append :
    (r : Region) (xs ys : List Region)
    → count r (held (xs ++ ys)) ≡ count r (held xs) + count r (held ys)
count-held_append r xs ys = ap (count r) (held-append xs ys) ∙ count-append r (held xs) (held ys)

pub count-cells_append :
    (r : Region) (xs ys : List ℕ)
    → count r (cells (xs ++ ys)) ≡ count r (cells xs) + count r (cells ys)
count-cells_append r xs ys =
    ap (count r) (cells-append xs ys) ∙ count-append r (cells xs) (cells ys)

pub count-free_pads :
    (r : Region) (pads : List Region) (h : Heap)
    → count r (free_pads pads h) ≡ count r h - count r pads
unfolding free_pads count
count-free_pads r [] h = omega arith
count-free_pads r (x ∷ pads) h =
    omega (arith, count-free_pads r pads (release x h), count-release r x h)

pub count-free_inputs :
    (r : Region) (ins : List Region) (h : Heap)
    → count r (free_inputs ins h) ≡ count r h - count r (held ins)
unfolding free_inputs held count
count-free_inputs r [] h = omega arith
count-free_inputs r ((p, zero) ∷ ins) h = count-free_inputs r ins h
count-free_inputs r ((p, suc n) ∷ ins) h =
    ground (arith, count-free_inputs r ins (release (p, suc n) h), count-release r (p, suc n) h)

-- The buffers that the cells describe.
unfoldable pub buffers : List ℕ → List Region → List Region
buffers [] written = []
buffers (cell ∷ outs) [] = []
buffers (cell ∷ outs) (x ∷ written) = x ∷ buffers outs written

pub buffers-none : (outs : List ℕ) → buffers outs [] ≡ []
unfolding buffers
buffers-none [] = refl
buffers-none (cell ∷ outs) = refl

count-take_out :
    (r : Region) (cell : ℕ) (x : Region) (h : Heap)
    → count r (take_out cell x h)
      ≡ count r h - (count r (held (x ∷ [])) + one_if (same_region r (cell, 8)))
unfolding take_out held count
count-take_out r cell (p, zero) h = omega (arith, count-release r (cell, 8) h)
count-take_out r cell (p, suc n) h =
    ground (arith, count-release r (cell, 8) (release (p, suc n) h), count-release r (p, suc n) h)

pub count-take_outs :
    (r : Region) (outs : List ℕ) (written : List Region) (h : Heap)
    → count r (take_outs outs written h)
      ≡ count r h - (count r (held (buffers outs written)) + count r (cells outs))
unfolding take_outs buffers cells count held
count-take_outs r [] written h = omega arith
count-take_outs r (cell ∷ outs) [] h = omega (
  arith,
  count-take_outs r outs [] (take_out cell (0, 0) h),
  count-take_out r cell (0, 0) h,
  ap (λ l. count r (held l)) (buffers-none outs),
)
count-take_outs r (cell ∷ outs) (x ∷ written) h = omega (
  arith,
  count-take_outs r outs written (take_out cell x h),
  count-take_out r cell x h,
  ap (count r) (held-append (x ∷ []) (buffers outs written)),
  count-append r (held (x ∷ [])) (held (buffers outs written)),
)
