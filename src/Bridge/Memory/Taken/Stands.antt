-- ===== src/Bridge/Memory/Taken/Stands.antt =====
-- What an export hands back stands in linear memory: for `Out.take` of sdk/ts/src/core.ts.
use gossveil.Base.{
  ℕ, ◌+◌, ◌<◌, ◌≤◌, ◌^◌, ◌%◌, ◌≡◌, ◌∙◌, refl, List, [], ◌∷◌, length, All, arith, ◌⊎◌, inl,
}
use gossveil.Bridge.View.{get_uint8, get_uint32, set_uint32}
use gossveil.Bridge.View.RoundTrip.{get_uint32-set_uint32, get_uint32-set_uint32_ne}
use gossveil.Bridge.Memory.Bytes.{Linear, read, write_outside, read_same, read-write}
use gossveil.Bridge.Memory.Taken.{Handed, hand, hand_all, IsPlaced, AreApart, ArePlaced}

unfoldable pub Stands : Handed → Linear → Type 0
Stands d m =
    (get_uint32 m d.cell ≡ d.ptr)
    × (get_uint32 m (d.cell + 4) ≡ length d.source)
    × (read d.ptr (length d.source) m ≡ d.source)

set_elsewhere :
    (at n : ℕ) (m : Linear) (i : ℕ) → (i < at) ⊎ (at + 4 ≤ i) → set_uint32 at n m i ≡ m i
unfolding set_uint32
set_elsewhere at n m i away = ground arith

hand_elsewhere :
    (d : Handed) (m : Linear) (i : ℕ)
    → (i < d.cell) ⊎ (d.cell + 8 ≤ i)
    → (i < d.ptr) ⊎ (d.ptr + length d.source ≤ i)
    → hand d m i ≡ m i
unfolding hand
hand_elsewhere d m i off_cell off_buffer =
    let inner = set_uint32 d.cell d.ptr m in
    let whole = set_uint32 (d.cell + 4) (length d.source) inner in
    cc (
      write_outside d.ptr d.source whole i off_buffer,
      set_elsewhere (d.cell + 4) (length d.source) inner i (ground arith),
      set_elsewhere d.cell d.ptr m i (ground arith),
    )

pub uint32_same :
    (at : ℕ) (m m' : Linear)
    → ((i : ℕ) → at ≤ i → i < at + 4 → m i ≡ m' i)
    → get_uint32 m at ≡ get_uint32 m' at
unfolding get_uint32 get_uint8
uint32_same at m m' same =
    rw
      (
        same at (omega arith) (omega arith),
        same (at + 1) (omega arith) (omega arith),
        same (at + 2) (omega arith) (omega arith),
        same (at + 3) (omega arith) (omega arith),
      )
      refl

-- What is handed back stands until something is written to its cell or its buffer.
hand-Stands : (d e : Handed) (m : Linear) → AreApart e d → Stands d m → Stands d (hand e m)
unfolding Stands AreApart
hand-Stands d e m (cells, cell_buffer, buffer_cell, buffers) (ptr, len, bytes) =
    let same : (i : ℕ)
        → (i < e.cell) ⊎ (e.cell + 8 ≤ i)
        → (i < e.ptr) ⊎ (e.ptr + length e.source ≤ i)
        → hand e m i ≡ m i =
      hand_elsewhere e m in
    (
      uint32_same d.cell (hand e m) m (λ i le lt. same i (ground arith) (ground arith)) ∙ ptr,
      uint32_same (d.cell + 4) (hand e m) m (λ i le lt. same i (ground arith) (ground arith)) ∙ len,
      read_same d.ptr (length d.source) (hand e m) m
            (λ i le lt. same i (ground arith) (ground arith))
          ∙ bytes,
    )

hand-Stands_own : (d : Handed) (m : Linear) → IsPlaced d → Stands d (hand d m)
unfolding Stands hand IsPlaced
hand-Stands_own d m (ptr_fits, len_fits, apart) =
    let inner = set_uint32 d.cell d.ptr m in
    let len = length d.source in
    let whole = set_uint32 (d.cell + 4) len inner in
    let same = write_outside d.ptr d.source whole in
    let ptr_small : d.ptr % 2 ^ 32 ≡ d.ptr = omega arith in
    let len_small : len % 2 ^ 32 ≡ len = omega arith in
    (
      uint32_same d.cell (hand d m) whole (λ i le lt. same i (ground arith))
          ∙ get_uint32-set_uint32_ne (d.cell + 4) len inner d.cell (inl (omega arith))
          ∙ get_uint32-set_uint32 d.cell d.ptr m
          ∙ ptr_small,
      uint32_same (d.cell + 4) (hand d m) whole (λ i le lt. same i (ground arith))
          ∙ get_uint32-set_uint32 (d.cell + 4) len inner
          ∙ len_small,
      read-write d.ptr d.source whole,
    )

hand_all-Stands :
    (d : Handed) (ds : List Handed) (m : Linear)
    → All (λ e. AreApart e d) ds
    → Stands d m
    → Stands d (hand_all ds m)
unfolding hand_all
hand_all-Stands d [] m apart stands = stands
hand_all-Stands d (e ∷ ds) m (first, apart) stands =
    hand_all-Stands d ds (hand e m) apart (hand-Stands d e m first stands)

pub hand_all-Stands_each :
    (ds : List Handed) (m : Linear) → ArePlaced ds → All (λ d. Stands d (hand_all ds m)) ds
unfolding ArePlaced hand_all
hand_all-Stands_each [] m placed = tt
hand_all-Stands_each (d ∷ ds) m (here, apart, placed) = (
  hand_all-Stands d ds (hand d m) apart (hand-Stands_own d m here),
  hand_all-Stands_each ds (hand d m) placed,
)
