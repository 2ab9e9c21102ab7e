-- ===== src/Tests/Filled.antt =====
-- Runs of the theorems on the bytes in the regions of a call.
use native.Mathlib.Bridge.{le_prop}
use mathlib.Core.List.{Mem, forall_mem-cons, not-mem-nil}
use gossveil.Base.{
  ℕ, ◌+◌, ◌≤◌, ◌≡◌, refl, List, [], ◌∷◌, map, arith, inl, inr, All, if◌then◌else◌, leb, ltb, ◌&&◌,
}
use gossveil.Fault.{ok}
use gossveil.Bridge.Memory.{
  Heap, Core, Region, started, build, reserve, release, same_region, take_outs,
}
use gossveil.Bridge.Memory.Filled.{
  Filling, copied, zeroed, Memory, IsAllocator, AllHold, fill, request, fill-AllHold,
}
use gossveil.Bridge.Memory.Ledger.{count}
use gossveil.Bridge.Memory.Taken.{
  Handed, IsPlaced, AreApart, ArePlaced, Freeing, IsFreeing, IsHeld, takes, hand_all,
}
use gossveil.Bridge.Memory.Taken.Ends.{IsOwned, TakeEnd, takes-hand_all}

-- An allocator that gives what comes after the sum of the ends of the regions.
abbrev next : Heap → ℕ
next [] = 1024
next ((p, n) ∷ h) = p + n + next h

abbrev bump : Core
bump = record {
  alloc = λ h n. next h;
  run = λ name args h. (ok (record { status = 0; written = [] }), h);
}

before_next : (h : Heap) (r : Region) → Mem r h → r.0 + r.1 ≤ next h
before_next [] = λ r held. absurd (not-mem-nil held)
before_next ((p, n) ∷ h) =
    (forall_mem-cons λ r. le_prop).1
      (omega arith, λ r held. let le = before_next h r held in omega arith)

bump-IsAllocator : IsAllocator bump
bump-IsAllocator h n given r held = inl (before_next h r held)

abbrev fillings : List Filling
fillings = copied (104 ∷ 105 ∷ []) ∷ zeroed 8 ∷ copied [] ∷ zeroed 3 ∷ []

-- One region stands, with its two bytes, when the call begins.
abbrev before : Memory
before = ((2048, 2) ∷ [], λ i. i)

fill-AllHold_example :
    AllHold fillings before (fill bump fillings before)
    × ((fill bump fillings before).1.0 ≡ (build bump (map request fillings) started before.0).1)
fill-AllHold_example = fill-AllHold bump bump-IsAllocator fillings started before

regions_filled :
    (fill bump fillings before).1.0 ≡ ((12308, 3) ∷ (6150, 8) ∷ (3074, 2) ∷ (2048, 2) ∷ [])
unfolding fill reserve
regions_filled = refl

-- Two buffers are handed back, the second empty, as when the export fails before it writes any.
abbrev handed : List Handed
handed =
    record { cell = 4096; ptr = 8192; source = 1 ∷ 2 ∷ 3 ∷ [] }
    ∷ record { cell = 4104; ptr = 0; source = [] }
    ∷ []

handed-ArePlaced : ArePlaced handed
unfolding ArePlaced IsPlaced AreApart
handed-ArePlaced = (
  (omega arith, omega arith, inl (omega arith)),
  ((inr (omega arith), inl (omega arith), inl (omega arith), inl (omega arith)), tt),
  ((omega arith, omega arith, inr (omega arith)), tt, tt),
)

abbrev cells_held : Heap
cells_held = (8192, 3) ∷ (4104, 8) ∷ (4096, 8) ∷ []

-- `gv_free` overwrites what it frees.
abbrev overwrite : Freeing
overwrite h (p, n) m i = if leb p i && ltb i (p + n) then 255 else m i

overwrite-IsFreeing : IsFreeing overwrite
overwrite-IsFreeing h (q, k) (p, n) m held apart i le lt = ground (arith, apart, le, lt)

handed-IsOwned : All (IsOwned cells_held) handed
unfolding IsOwned IsHeld count same_region
handed-IsOwned = (
  (omega arith, λ some_bytes. omega arith),
  ((omega arith, λ some_bytes. absurd (omega (arith, some_bytes))), tt),
)

takes-hand_all_example :
    TakeEnd handed
      (cells_held, hand_all handed before.1)
      (takes overwrite (4096 ∷ 4104 ∷ []) (cells_held, hand_all handed before.1))
takes-hand_all_example =
    takes-hand_all overwrite overwrite-IsFreeing handed handed-ArePlaced cells_held before.1
      handed-IsOwned

cells_freed : take_outs (4096 ∷ 4104 ∷ []) ((8192, 3) ∷ (0, 0) ∷ []) cells_held ≡ []
unfolding take_outs release same_region
cells_freed = refl
