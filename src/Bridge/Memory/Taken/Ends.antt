-- ===== src/Bridge/Memory/Taken/Ends.antt =====
-- How the outputs of a call are taken: `Out.take` of sdk/ts/src/core.ts over all its cells.
use gossveil.Base.{
  ◌+◌, ◌<◌, ◌≡◌, ◌∙◌, refl, ap, List, [], ◌∷◌, Bytes, length, map, All, arith, inl, inr, Bool-cases,
  ◌==◌, false,
}
use gossveil.Bridge.Memory.{Region, Heap, same_region, release, take_out, take_outs}
use gossveil.Bridge.Memory.Ledger.{one_if, count-release}
use gossveil.Bridge.Memory.Bytes.{Linear, Apart, read_same}
use gossveil.Bridge.Memory.Filled.{Memory}
use gossveil.Bridge.Memory.Taken.{
  Handed, hand_all, AreApart, ArePlaced, Freeing, IsHeld, SameBytes, IsFreeing, free, take, takes,
}
use gossveil.Bridge.Memory.Taken.Stands.{Stands, uint32_same, hand_all-Stands_each}

-- The buffers that the cells describe.
abbrev pub buffer : Handed → Region
buffer d = (d.ptr, length d.source)

-- An allocated region that stays allocated and keeps its bytes.
abbrev pub Kept : Region → Memory → Memory → Type 0
Kept r s t = IsHeld r t.0 × SameBytes r s.1 t.1

-- A region that is apart from the cell and the buffer.
unfoldable pub IsAway : Region → Handed → Type 0
IsAway r d = Apart r.0 r.1 d.cell 8 × Apart r.0 r.1 d.ptr (length d.source)

-- The cell is allocated, and so is the buffer unless it is empty.
unfoldable pub IsOwned : Heap → Handed → Type 0
IsOwned h d = IsHeld (d.cell, 8) h × (0 < length d.source → IsHeld (buffer d) h)

-- How the outputs of a call are taken.
unfoldable pub TakeEnd : List Handed → Memory → List Bytes × Memory → Type 0
TakeEnd ds s end =
    (end.0 ≡ map (λ (d : Handed). d.source) ds)
    × (end.1.0 ≡ take_outs (map (λ (d : Handed). d.cell) ds) (map buffer ds) s.0)
    × ((r : Region) → IsHeld r s.0 → 0 < r.1 → All (IsAway r) ds → Kept r s end.1)

differs : (r x : Region) → 0 < r.1 → Apart r.0 r.1 x.0 x.1 → same_region r x ≡ false
unfolding same_region
differs (p, n) (q, k) some_bytes apart = ground (arith, some_bytes, apart)

module _ (clobber : Freeing) (freeing : IsFreeing clobber) where
  free-Kept :
      (r x : Region) (s : Memory)
      → IsHeld r s.0
      → 0 < r.1
      → Apart r.0 r.1 x.0 x.1
      → Kept r s (free clobber x s)
  unfolding free IsHeld
  free-Kept r x s held some_bytes apart =
      let still : IsHeld r (release x s.0) =
        omega (arith, held, count-release r x s.0, ap one_if (differs r x some_bytes apart)) in
      (still, freeing s.0 x r s.1 still apart)

  take-Kept :
      (d : Handed) (s : Memory)
      → Stands d s.1
      → (r : Region) → IsHeld r s.0
      → 0 < r.1
      → IsAway r d
      → Kept r s (take clobber d.cell s).1
  unfolding take Stands IsAway
  take-Kept d s (ptr, len, bytes) r held some_bytes (off_cell, off_buffer) =
      rw (ptr, len)
        (elim (Bool-cases (length d.source == 0)) [
          | inl empty ↦ rw empty (free-Kept r (d.cell, 8) s held some_bytes off_cell)
          | inr filled ↦
              let (held', same) = free-Kept r (buffer d) s held some_bytes off_buffer in
              let (held2, same2) =
                free-Kept r (d.cell, 8) (free clobber (buffer d) s) held' some_bytes off_cell in
              rw filled (held2, λ i le lt. same2 i le lt ∙ same i le lt)
        ])

  -- What is handed back and still to be taken.
  abbrev Pending : Memory → Handed → Type 0
  Pending s d = Stands d s.1 × IsOwned s.0 d

  take-end :
      (d : Handed) (s : Memory)
      → Stands d s.1
      → ((take clobber d.cell s).0 ≡ d.source)
        × ((take clobber d.cell s).1.0 ≡ take_out d.cell (buffer d) s.0)
  unfolding take take_out free Stands
  take-end d s (ptr, len, bytes) =
      rw (ptr, len)
        (
          bytes,
          elim (Bool-cases (length d.source == 0)) [
            | inl empty ↦ rw empty refl
            | inr filled ↦ rw filled refl
          ],
        )

  Kept-Stands :
      (d : Handed) (s t : Memory)
      → SameBytes (d.cell, 8) s.1 t.1
      → SameBytes (buffer d) s.1 t.1
      → Stands d s.1
      → Stands d t.1
  unfolding Stands
  Kept-Stands d s t cells buffers (ptr, len, bytes) = (
    uint32_same d.cell t.1 s.1 (λ i le lt. cells i le (omega arith)) ∙ ptr,
    uint32_same (d.cell + 4) t.1 s.1 (λ i le lt. cells i (omega arith) (omega arith)) ∙ len,
    read_same d.ptr (length d.source) t.1 s.1 buffers ∙ bytes,
  )

  take-Pending :
      (d e : Handed) (s : Memory)
      → AreApart e d
      → Stands d s.1
      → Pending s e
      → Pending (take clobber d.cell s).1 e
  unfolding AreApart IsAway IsOwned
  take-Pending d e s (cells, cell_buffer, buffer_cell, buffers) stands
        (stands', (held, buffer_held)) =
      let kept = take-Kept d s stands in
      let (cell_kept, cell_same) = kept (e.cell, 8) held (omega arith) (cells, cell_buffer) in
      let kept_buffer = λ (some_bytes : 0 < length e.source).
        kept (buffer e) (buffer_held some_bytes) some_bytes (buffer_cell, buffers) in
      (
        Kept-Stands e s (take clobber d.cell s).1 cell_same
            (λ i le lt. (kept_buffer (omega arith)).1 i le lt) stands',
        (cell_kept, λ some_bytes. (kept_buffer some_bytes).0),
      )

  take-Pending_each :
      (d : Handed) (ds : List Handed) (s : Memory)
      → All (λ e. AreApart e d) ds
      → Stands d s.1
      → All (Pending s) ds
      → All (Pending (take clobber d.cell s).1) ds
  take-Pending_each d [] s apart stands ready = tt
  take-Pending_each d (e ∷ ds) s (first, apart) stands (ready, others) =
      (take-Pending d e s first stands ready, take-Pending_each d ds s apart stands others)

  takes-TakeEnd :
      (ds : List Handed) (s : Memory)
      → ArePlaced ds
      → All (Pending s) ds
      → TakeEnd ds s (takes clobber (map (λ (d : Handed). d.cell) ds) s)
  unfolding TakeEnd takes take_outs ArePlaced
  takes-TakeEnd [] s placed ready = (refl, refl, λ r held some_bytes away. (held, λ i le lt. refl))
  takes-TakeEnd (d ∷ ds) s (here, apart, placed) ((stands, owned), others) =
      let s' = (take clobber d.cell s).1 in
      let cells = map (λ (e : Handed). e.cell) ds in
      let (first, freed) = take-end d s stands in
      let (rest, rest_freed, rest_kept) =
        takes-TakeEnd ds s' placed (take-Pending_each d ds s apart stands others) in
      (
        cc (first, rest),
        rest_freed ∙ ap (take_outs cells (map buffer ds)) freed,
        λ r held some_bytes away.
            let (held', same) = take-Kept d s stands r held some_bytes away.0 in
            let (held2, same2) = rest_kept r held' some_bytes away.1 in
            (held2, λ i le lt. same2 i le lt ∙ same i le lt),
      )

  Stands-Pending :
      (ds : List Handed) (s : Memory)
      → All (λ d. Stands d s.1) ds
      → All (IsOwned s.0) ds
      → All (Pending s) ds
  Stands-Pending [] s stands owned = tt
  Stands-Pending (d ∷ ds) s (first, stands) (owned, others) =
      ((first, owned), Stands-Pending ds s stands others)

  -- If an export describes allocated buffers in the allocated output cells of a call, all in a
  -- 32-bit memory and no two of them overlapping, and `gv_free` may change any byte that is not in
  -- an allocated region apart from the freed one, then the outputs of the call are the bytes of
  -- these buffers in the order of the cells. Of the heap the cells are freed, with their buffers
  -- where these are not empty, and each allocated region that is apart from them stays allocated
  -- and keeps its bytes.
  pub takes-hand_all :
      (ds : List Handed)
      → ArePlaced ds
      → (h : Heap) (m : Linear) → All (IsOwned h) ds
      → TakeEnd ds
          (h, hand_all ds m)
          (takes clobber (map (λ (d : Handed). d.cell) ds) (h, hand_all ds m))
  takes-hand_all ds placed h m owned =
      let s : Memory = (h, hand_all ds m) in
      takes-TakeEnd ds s placed (Stands-Pending ds s (hand_all-Stands_each ds m placed) owned)
