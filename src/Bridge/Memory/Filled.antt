-- ===== src/Bridge/Memory/Filled.antt =====
-- The regions that a call fills before the export runs: what the export reads there.
use mathlib.Core.List.{Mem, mem-cons_self, mem-cons_of_mem}
use gossveil.Base.{
  ℕ, suc, ◌≡◌, ◌≢◌, refl, sym, ◌∙◌, List, [], ◌∷◌, ◌++◌, Bytes, length, length-replicate, replicate,
  map, ◌==◌, All, arith, ◌⊎◌, Bool-cases, inl, inr, subst,
}
use gossveil.Fault.{Result, ok, err}
use gossveil.Exec.{Exec, pure, ◌>>=◌}
use gossveil.Bridge.Memory.{
  Region, Heap, Core, Request, input, region, Building, reserve, add_arg, build, no_memory,
}
use gossveil.Bridge.Memory.Bytes.{Linear, write, read, Apart, read-write, read-write-Apart}

-- What a region is filled with: the bytes of an input, or zeros for an output cell or a `Pad`.
pub data Filling : Type 0 where
  copied : Bytes → Filling
  zeroed : ℕ → Filling

unfoldable pub contents : Filling → Bytes
contents (copied source) = source
contents (zeroed n) = replicate n 0

-- The heap of allocated regions, and the bytes.
abbrev pub Memory : Type 0
Memory = Heap × Linear

-- The allocator gives a region that no allocated region shares an address with.
abbrev pub IsAllocator : Core → Type 0
IsAllocator c =
    (h : Heap) (n : ℕ) → c.alloc h n ≢ 0 → (r : Region) → Mem r h → Apart r.0 r.1 (c.alloc h n) n

module _ (c : Core) where
  -- `reserve` and then `set` or `fill`.
  place_at : Bytes → Linear → Result ℕ × Heap → Result (ℕ × Bytes) × Memory
  place_at source m (ok ptr, h) = (ok (ptr, source), (h, write ptr source m))
  place_at source m (err e, h) = (err e, (h, m))

  place : Bytes → Exec Memory (ℕ × Bytes)
  unfolding place_at
  place source (h, m) = place_at source m (reserve c (length source) h)

  -- The constructors of `In`, of which an empty one has no region, of `Out` and of `Pad`.
  unfoldable pub fill_one : Filling → Exec Memory (ℕ × Bytes)
  unfolding place contents
  fill_one (copied []) = pure (0, [])
  fill_one (copied (b ∷ source)) = place (b ∷ source)
  fill_one (zeroed n) = place (replicate n 0)

  unfoldable pub fill : List Filling → Exec Memory (List (ℕ × Bytes))
  unfolding fill_one
  fill [] = pure []
  fill (f ∷ fs) = do placed ← fill_one f; rest ← fill fs; pure (placed ∷ rest)

-- The regions of the first state are still allocated, and what is read from them is the same.
abbrev pub Untouched : Memory → Memory → Type 0
Untouched s t = (r : Region) → Mem r s.0 → Mem r t.0 × (read r.0 r.1 t.1 ≡ read r.0 r.1 s.1)

-- A region in which the bytes stand; no bytes need none.
Holds : Memory → ℕ × Bytes → Type 0
Holds s e = (e.1 ≡ []) ⊎ (Mem (e.0, length e.1) s.0 × (read e.0 (length e.1) s.1 ≡ e.1))

FilledOne : Filling → Memory → Result (ℕ × Bytes) × Memory → Type 0
FilledOne f s (err e, t) = Untouched s t
FilledOne f s (ok e, t) = (e.1 ≡ contents f) × Holds t e × Untouched s t

-- How a call's regions come to be filled: if all are allocated, they hold what they are filled with,
-- in the order of the arguments; and in any case what was allocated before is untouched.
pub AllHold : List Filling → Memory → Result (List (ℕ × Bytes)) × Memory → Type 0
AllHold fs s (err e, t) = Untouched s t
AllHold fs s (ok placed, t) =
    (map (λ (e : ℕ × Bytes). e.1) placed ≡ map contents fs) × All (Holds t) placed × Untouched s t

Untouched-trans : (s t u : Memory) → Untouched s t → Untouched t u → Untouched s u
Untouched-trans s t u h k r held =
    let (held', same) = h r held in let (held2, same') = k r held' in (held2, same' ∙ same)

Untouched-Holds : (s t : Memory) (e : ℕ × Bytes) → Untouched s t → Holds s e → Holds t e
unfolding Holds
Untouched-Holds s t e un (inl none_needed) = inl none_needed
Untouched-Holds s t e un (inr (held, stands)) =
    let (held', same) = un (e.0, length e.1) held in inr (held', same ∙ stands)

reserve_cases :
    (c : Core) (n : ℕ) (h : Heap)
    → (reserve c n h ≡ (err no_memory, h))
      ⊎ ((c.alloc h n ≢ 0) × (reserve c n h ≡ (ok (c.alloc h n), (c.alloc h n, n) ∷ h)))
unfolding reserve
reserve_cases c n h = elim (Bool-cases (c.alloc h n == 0)) [
  | inl none_left ↦ inl (rw none_left refl)
  | inr given ↦ inr ((λ e. ground (arith, given, e)), rw given refl)
]

-- The regions after the first hold their bytes, and so does the first, which they leave untouched.
AllHold-cons :
    (f : Filling) (fs : List Filling) (s t : Memory) (e : ℕ × Bytes)
    → FilledOne f s (ok e, t)
    → (x : Result (List (ℕ × Bytes)) × Memory) → AllHold fs t x
    → AllHold
        (f ∷ fs)
        s
        (elim x.0 [ ok rest ↦ pure (e ∷ rest) x.1 | err thrown ↦ (err thrown, x.1) ])
unfolding AllHold FilledOne
AllHold-cons f fs s t e (same, holds, un) (err thrown, u) un' = Untouched-trans s t u un un'
AllHold-cons f fs s t e (same, holds, un) (ok rest, u) (same', hold, un') =
    (cc (same, same'), (Untouched-Holds t u e un' holds, hold), Untouched-trans s t u un un')

fill_step :
    (c : Core) (f : Filling) (fs : List Filling) (s : Memory)
    → ((t : Memory) → AllHold fs t (fill c fs t))
    → (x : Result (ℕ × Bytes) × Memory) → FilledOne f s x
    → AllHold (f ∷ fs) s (elim x.0 [
      | ok e ↦ (fill c fs >>= λ rest. pure (e ∷ rest)) x.1
      | err thrown ↦ (err thrown, x.1)
    ])
unfolding AllHold FilledOne
fill_step c f fs s ih (err thrown, t) un = un
fill_step c f fs s ih (ok e, t) filled = AllHold-cons f fs s t e filled (fill c fs t) (ih t)

module _ (c : Core) (allocator : IsAllocator c) where
  place-FilledOne : (f : Filling) (s : Memory) → FilledOne f s (place c (contents f) s)
  unfolding FilledOne place place_at Holds
  place-FilledOne f s =
      let source = contents f in
      let FilledAt = λ (x : Result ℕ × Heap). FilledOne f s (place_at c source s.1 x) in
      elim (reserve_cases c (length source) s.0) [
        | inl none_left ↦ subst FilledAt (sym none_left) (λ r held. (held, refl))
        | inr (some_given, given) ↦
            let ptr = c.alloc s.0 (length source) in
            subst FilledAt (sym given) (
              refl,
              inr (mem-cons_self, read-write ptr source s.1),
              λ r held. (
                mem-cons_of_mem (ptr, length source) held,
                read-write-Apart r.0 r.1 ptr source s.1
                    (allocator s.0 (length source) some_given r held),
              ),
            )
      ]

  fill_one-FilledOne : (f : Filling) (s : Memory) → FilledOne f s (fill_one c f s)
  unfolding FilledOne fill_one contents Holds place
  fill_one-FilledOne (copied []) s = (refl, inl refl, λ r held. (held, refl))
  fill_one-FilledOne (copied (b ∷ source)) s = place-FilledOne (copied (b ∷ source)) s
  fill_one-FilledOne (zeroed n) s = place-FilledOne (zeroed n) s

  filled-AllHold : (fs : List Filling) (s : Memory) → AllHold fs s (fill c fs s)
  unfolding AllHold fill
  filled-AllHold [] s = (refl, tt, λ r held. (held, refl))
  filled-AllHold (f ∷ fs) s =
      fill_step c f fs s (filled-AllHold fs) (fill_one c f s) (fill_one-FilledOne f s)

-- What the call of the bridge asks for when it fills a region so.
unfoldable pub request : Filling → Request
request (copied source) = input (length source)
request (zeroed n) = region n

module _ (c : Core) where
  rest_heap :
      (e : ℕ × Bytes) (x : Result (List (ℕ × Bytes)) × Memory)
      → (((λ (s : Memory). x) >>= λ rest. pure (e ∷ rest)) ([], λ i. 0)).1.0 ≡ x.1.0
  rest_heap e (ok rest, u) = refl
  rest_heap e (err thrown, u) = refl

  place_heap :
      (fs : List Filling) (source : Bytes) (s : Memory) (k : ℕ → Building)
      → ((b : Building) (t : Memory) → (fill c fs t).1.0 ≡ (build c (map request fs) b t.0).1)
      → (x : Result ℕ × Heap)
      → (((λ (t : Memory). place_at c source s.1 x) >>= λ e. fill c fs >>= λ rest. pure (e ∷ rest))
          s).1.0
        ≡ (((λ (h : Heap). x) >>= (λ p. pure (k p)) >>= build c (map request fs)) s.0).1
  unfolding place_at
  place_heap fs source s k ih (err thrown, h) = refl
  place_heap fs source s k ih (ok p, h) =
      let t : Memory = (h, write p source s.1) in rest_heap (p, source) (fill c fs t) ∙ ih (k p) t

  -- Filling the regions takes those regions from the heap that the call's builder takes.
  fill-build :
      (fs : List Filling) (b : Building) (s : Memory)
      → (fill c fs s).1.0 ≡ (build c (map request fs) b s.0).1
  unfolding fill fill_one place build add_arg request contents
  fill-build [] b s = refl
  fill-build (copied [] ∷ fs) b s =
      rest_heap (0, []) (fill c fs s)
      ∙ fill-build fs (record b { args = b.args ++ 0 ∷ 0 ∷ []; ins = b.ins ++ (0, 0) ∷ [] }) s
  fill-build (copied (x ∷ source) ∷ fs) b s =
      let n = suc (length source) in
      place_heap fs (x ∷ source) s
        (λ p. record b { args = b.args ++ p ∷ n ∷ []; ins = b.ins ++ (p, n) ∷ [] }) (fill-build fs)
        (reserve c n s.0)
  fill-build (zeroed n ∷ fs) b s =
      let after =
        λ (k : ℕ). (fill c (zeroed n ∷ fs) s).1.0 ≡ (build c (region k ∷ map request fs) b s.0).1 in
      let k = length (replicate n 0) in
      subst after (length-replicate n 0) (
        place_heap fs (replicate n 0) s
          (λ p. record b { args = b.args ++ p ∷ []; pads = b.pads ++ (p, k) ∷ [] }) (fill-build fs)
          (reserve c k s.0))

-- Where the allocator gives a region apart from those allocated, the regions that were allocated
-- before a call keep their bytes while it fills its own, whether or not the memory suffices. If it
-- suffices, each region of the call holds, once all are filled, the bytes that its argument stands
-- for, in the order of the arguments. The regions are those that the builder of the call takes.
pub fill-AllHold :
    (c : Core)
    → IsAllocator c
    → (fs : List Filling) (b : Building) (s : Memory)
    → AllHold fs s (fill c fs s) × ((fill c fs s).1.0 ≡ (build c (map request fs) b s.0).1)
fill-AllHold c allocator fs b s = (filled-AllHold c allocator fs s, fill-build c fs b s)
