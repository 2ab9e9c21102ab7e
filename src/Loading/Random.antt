-- ===== src/Loading/Random.antt =====
-- `fillRandom` of sdk/ts/src/core.ts: its loop ends, and its requests cover the region.
use gossveil.Base.{
  ℕ, zero, suc, ◌+◌, ◌/◌, ◌≤◌, ◌<◌, ◌≡◌, refl, sym, ap, subst, ◌⊎◌, List, [], ◌∷◌, some, arith, min,
  length, none, ◌-◌, inl, inr,
}
use gossveil.Loading.{fill_from, fill_random}

-- Requests one after the other from `from` to `to`, each of 65536 bytes or up to `to`.
abbrev pub Tiles : ℕ → ℕ → List (ℕ × ℕ) → Type 0
Tiles from to [] = from ≡ to
Tiles from to ((start, end) ∷ requests) =
    (start ≡ from) × (start < to) × (end ≡ min to (start + 65536)) × Tiles end to requests

lt_or_ge : (m n : ℕ) → (m < n) ⊎ (n ≤ m)
lt_or_ge m n = ground arith

fill_from-end : (fuel at len : ℕ) → len ≤ at → fill_from (suc fuel) at len ≡ some []
unfolding fill_from
fill_from-end fuel at len h = ground arith

fill_from-round :
    (fuel at len : ℕ) (requests : List (ℕ × ℕ))
    → at < len
    → fill_from fuel (at + 65536) len ≡ some requests
    → fill_from (suc fuel) at len ≡ some ((at, min len (at + 65536)) ∷ requests)
unfolding fill_from
fill_from-round fuel at len requests h e = rw e (ground (arith, h))

-- How many requests cover `left` bytes.
abbrev pub rounds : ℕ → ℕ
rounds left = (left + 65535) / 65536

fill_from-Tiles :
    (fuel at len : ℕ)
    → at ≤ len
    → rounds (len - at) ≡ fuel
    → (requests : List (ℕ × ℕ)) × (fill_from (suc fuel) at len ≡ some requests)
      × Tiles at len requests
      × (length requests ≡ fuel)
fill_from-Tiles zero at len h enough =
    ([], fill_from-end 0 at len (omega (arith, enough)), omega (arith, enough), refl)
fill_from-Tiles (suc fuel) at len h enough = elim (lt_or_ge len (at + 65536)) [
  | inl last ↦
      let some_left : at < len = omega (arith, enough) in
      let one : fuel ≡ 0 = omega (arith, enough) in
      (
        (at, min len (at + 65536)) ∷ [],
        fill_from-round (suc fuel) at len [] some_left
            (fill_from-end fuel (at + 65536) len (omega arith)),
        (refl, some_left, refl, omega arith),
        omega (arith, one),
      )
  | inr more ↦
      let (requests, run, tiles, many) =
        fill_from-Tiles fuel (at + 65536) len more (omega (arith, enough)) in
      let full : min len (at + 65536) ≡ at + 65536 = omega arith in
      (
        (at, min len (at + 65536)) ∷ requests,
        fill_from-round (suc fuel) at len requests (omega arith) run,
        (refl, omega arith, refl, subst (λ n. Tiles n len requests) (sym full) tiles),
        ap suc many,
      )
]

-- Fewer tests than that are not enough.
fill_from-short :
    (fuel at len : ℕ) → at ≤ len → fuel ≤ rounds (len - at) → fill_from fuel at len ≡ none
unfolding fill_from
fill_from-short zero at len h few = refl
fill_from-short (suc fuel) at len h few = elim (lt_or_ge len (at + 65536)) [
  | inl last ↦
      let out_of_fuel : fuel ≡ 0 = omega arith in
      let some_left : at < len = omega arith in
      let unfinished : fill_from fuel (at + 65536) len ≡ none =
        ap (λ n. fill_from n (at + 65536) len) out_of_fuel in
      rw unfinished (ground (arith, some_left))
  | inr more ↦ rw (fill_from-short fuel (at + 65536) len more (omega arith)) (ground arith)
]

-- The loop of `fillRandom` ends: its test is made once for each 65536 bytes begun and once more. It
-- makes one request for each 65536 bytes begun; they follow one another from 0 to the length, each
-- of 65536 bytes except that the last ends with the length.
pub fill_random-Tiles :
    (len : ℕ)
    → (fill_random (rounds len) len ≡ none)
      × ((requests : List (ℕ × ℕ)) × (fill_random (suc (rounds len)) len ≡ some requests)
          × Tiles 0 len requests
          × (length requests ≡ rounds len))
unfolding fill_random
fill_random-Tiles len = (
  fill_from-short (rounds len) 0 len (omega arith) (omega arith),
  fill_from-Tiles (rounds len) 0 len (omega arith) (omega arith),
)
