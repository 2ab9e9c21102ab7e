-- ===== src/Wasm/Random/Registration.antt =====
-- `generateRegistrationId` of sdk/ts/src/wasm-api.ts: which id it returns, and how often.
use gossveil.Base.{
  ℕ, ◌+◌, ◌*◌, ◌%◌, ◌/◌, ◌⊎◌, ◌≤◌, ◌<◌, ◌≡◌, ◌↔◌, refl, ap, ◌∙◌, subst, List, [], ◌∷◌, ◌++◌, some,
  true, false, arith, bit_and-16383, Bool-cases, inl, inr, All,
}
use gossveil.Wasm.Random.{candidate, accepted, generate_registration_id}

candidate-remainder : (draw : ℕ) → candidate draw ≡ draw % 16384
unfolding candidate
candidate-remainder draw = bit_and-16383 draw

-- A draw that the loop passes over.
abbrev pub Rejected : ℕ → Type 0
Rejected draw = (draw % 16384 ≡ 0) ⊎ (16380 < draw % 16384)

accepted-true : (draw : ℕ) → 1 ≤ draw % 16384 → draw % 16384 ≤ 16380 → accepted draw ≡ true
unfolding accepted
accepted-true draw low high = rw (candidate-remainder draw) (ground arith)

Rejected-draw : (draw : ℕ) → Rejected draw → accepted draw ≡ false
unfolding accepted
Rejected-draw draw h = rw (candidate-remainder draw) (ground arith)

range-accepted : (draw : ℕ) → accepted draw ≡ true → (1 ≤ draw % 16384) × (draw % 16384 ≤ 16380)
unfolding accepted
range-accepted draw h = ground (arith, candidate-remainder draw)

Rejected-range : (draw : ℕ) → accepted draw ≡ false → Rejected draw
unfolding accepted
Rejected-range draw h = ground (arith, candidate-remainder draw)

-- Each id from 1 to 16380 is the candidate of exactly four of the 65536 draws, and each of these is accepted.
pub accepted-IsUniform :
    (id draw : ℕ)
    → 1 ≤ id
    → id ≤ 16380
    → ((draw < 65536) × (candidate draw ≡ id) × (accepted draw ≡ true))
      ↔ ((j : ℕ) × (j < 4) × (draw ≡ id + 16384 * j))
accepted-IsUniform id draw low high = (
  (λ (bound, is_id, yes_accepted).
      (draw / 16384, omega (arith), omega (arith, candidate-remainder draw))),
  (λ (j, bound, is_draw). (
    omega (arith, is_draw),
    omega (arith, is_draw, candidate-remainder draw),
    accepted-true draw (omega (arith, is_draw)) (omega (arith, is_draw)),
  )),
)

-- The draws end with one in range that is the first.
abbrev pub FirstInRange : List ℕ → ℕ → Type 0
FirstInRange draws id =
    (before : List ℕ) × (draw : ℕ) × (after : List ℕ) × (draws ≡ before ++ draw ∷ after)
    × All Rejected before
    × (draw % 16384 ≡ id)
    × (1 ≤ id)
    × (id ≤ 16380)

first_returned :
    (before : List ℕ) (draw : ℕ) (after : List ℕ)
    → All Rejected before
    → 1 ≤ draw % 16384
    → draw % 16384 ≤ 16380
    → generate_registration_id (before ++ draw ∷ after) ≡ some (draw % 16384)
unfolding generate_registration_id
first_returned [] draw after t low high =
    rw (accepted-true draw low high) (ap some (candidate-remainder draw))
first_returned (d ∷ before) draw after (h, t) low high =
    rw (Rejected-draw d h) (first_returned before draw after t low high)

id_of_accepted :
    (d : ℕ) (draws : List ℕ) (id : ℕ)
    → generate_registration_id (d ∷ draws) ≡ some id
    → accepted d ≡ true
    → d % 16384 ≡ id
unfolding generate_registration_id
id_of_accepted d draws id h e = ground (arith, h, e, candidate-remainder d)

later_draw :
    (d : ℕ) (draws : List ℕ) (id : ℕ)
    → generate_registration_id (d ∷ draws) ≡ some id
    → accepted d ≡ false
    → generate_registration_id draws ≡ some id
unfolding generate_registration_id
later_draw d draws id h e = ground (arith, h, e)

returned_first :
    (draws : List ℕ) (id : ℕ) → generate_registration_id draws ≡ some id → FirstInRange draws id
unfolding generate_registration_id
returned_first [] id h = ground (arith, h)
returned_first (d ∷ draws) id h = elim (Bool-cases (accepted d)) [
  | inl e ↦
      let is_id = id_of_accepted d draws id h e in
      let (low, high) = range-accepted d e in
      (
        [],
        d,
        draws,
        refl,
        tt,
        is_id,
        subst (λ n. 1 ≤ n) is_id low,
        subst (λ n. n ≤ 16380) is_id high,
      )
  | inr e ↦
      let (before, draw, after, is_draws, t, is_id, low, high) =
        returned_first draws id (later_draw d draws id h e) in
      (d ∷ before, draw, after, ap (λ l. d ∷ l) is_draws, (Rejected-range d e, t), is_id, low, high)
]

-- The loop ends with `id` exactly if `id` is the remainder of the first draw whose remainder by
-- 16384 is between 1 and 16380; all draws before that one are passed over.
pub generate_registration_id-first :
    (draws : List ℕ) (id : ℕ) → (generate_registration_id draws ≡ some id) ↔ FirstInRange draws id
generate_registration_id-first draws id = (
  returned_first draws id,
  (λ (before, draw, after, is_draws, t, is_id, low, high).
      ap generate_registration_id is_draws
      ∙ first_returned before draw after t (omega arith) (omega arith)
      ∙ ap some is_id),
)
