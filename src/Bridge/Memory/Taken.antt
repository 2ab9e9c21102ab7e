-- ===== src/Bridge/Memory/Taken.antt =====
-- `Out.take` of sdk/ts/src/core.ts on linear memory, for all cells of a call of sdk/ts/src/bridge.ts,
-- and what an export may hand back in them.
pub mod Stands
pub mod Ends
use gossveil.Base.{
  ℕ, ◌+◌, ◌<◌, ◌≤◌, ◌^◌, ◌≡◌, List, [], ◌∷◌, Bytes, length, All, ◌==◌, if◌then◌else◌,
}
use gossveil.Bridge.View.{get_uint32, set_uint32}
use gossveil.Bridge.Memory.{Region, Heap, release}
use gossveil.Bridge.Memory.Ledger.{count}
use gossveil.Bridge.Memory.Bytes.{Linear, write, read, Apart}
use gossveil.Bridge.Memory.Filled.{Memory}

-- What `gv_free` does to the bytes, by the heap and the region freed: the allocator may keep its own
-- data where nothing is allocated.
abbrev pub Freeing : Type 0
Freeing = Heap → Region → Linear → Linear

-- An allocated region is in the heap.
unfoldable pub IsHeld : Region → Heap → Type 0
unfolding count
IsHeld r h = 0 < count r h

-- The bytes of a region are the same.
abbrev pub SameBytes : Region → Linear → Linear → Type 0
SameBytes r m m' = (i : ℕ) → r.0 ≤ i → i < r.0 + r.1 → m' i ≡ m i

-- Freeing a region changes no byte of an allocated region that is apart from it.
abbrev pub IsFreeing : Freeing → Type 0
IsFreeing clobber =
    (h : Heap) (x r : Region) (m : Linear)
    → IsHeld r (release x h)
    → Apart r.0 r.1 x.0 x.1
    → SameBytes r m (clobber h x m)

module _ (clobber : Freeing) where
  -- `gv_free`.
  unfoldable pub free : Region → Memory → Memory
  free x (h, m) = (release x h, clobber h x m)

  -- `Out.take`: the bytes of the buffer that the cell describes, and then both are freed.
  unfoldable pub take : ℕ → Memory → Bytes × Memory
  unfolding get_uint32 read free
  take cell s =
      let ptr = get_uint32 s.1 cell in
      let len = get_uint32 s.1 (cell + 4) in
      let copy = read ptr len s.1 in
      (copy, free (cell, 8) (if len == 0 then s else free (ptr, len) s))

  -- `this.#outs.map(o => o.take())`.
  unfoldable pub takes : List ℕ → Memory → List Bytes × Memory
  unfolding take
  takes [] s = ([], s)
  takes (cell ∷ cells) s =
      let (first, s') = take cell s in let (others, end) = takes cells s' in (first ∷ others, end)

-- What an export hands back: a buffer with its bytes, described by an output cell.
pub record Handed : Type 0 where
  pub cell : ℕ
  pub ptr : ℕ
  pub source : Bytes

unfoldable pub hand : Handed → Linear → Linear
unfolding set_uint32 write
hand d m =
    write d.ptr d.source (set_uint32 (d.cell + 4) (length d.source) (set_uint32 d.cell d.ptr m))

unfoldable pub hand_all : List Handed → Linear → Linear
unfolding hand
hand_all [] m = m
hand_all (d ∷ ds) m = hand_all ds (hand d m)

-- The buffer is in a 32-bit memory and is not in its cell.
unfoldable pub IsPlaced : Handed → Type 0
IsPlaced d = (d.ptr < 2 ^ 32) × (length d.source < 2 ^ 32) × Apart d.cell 8 d.ptr (length d.source)

unfoldable pub AreApart : Handed → Handed → Type 0
AreApart d e =
    Apart d.cell 8 e.cell 8
    × Apart d.cell 8 e.ptr (length e.source)
    × Apart d.ptr (length d.source) e.cell 8
    × Apart d.ptr (length d.source) e.ptr (length e.source)

unfoldable pub ArePlaced : List Handed → Type 0
ArePlaced [] = Unit
ArePlaced (d ∷ ds) = IsPlaced d × All (λ e. AreApart e d) ds × ArePlaced ds
