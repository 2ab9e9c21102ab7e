-- ===== src/Bridge/Memory.antt =====
-- The classes `In`, `Out` and `Pad` of sdk/ts/src/core.ts and `Call` of sdk/ts/src/bridge.ts, by the
-- regions of wasm memory that a call takes and gives back. Which bytes stand in them is in
-- Memory/Filled and Memory/Taken.
pub mod Ledger
pub mod Bytes
pub mod Filled
pub mod Taken
pub mod Calls
use gossveil.Base.{
  ℕ, zero, suc, ◌+◌, Bool, true, false, String, List, [], ◌∷◌, ◌++◌, map, ◌==◌, ◌&&◌, if◌then◌else◌,
  codes,
}
use gossveil.Fault.{Result, ok, err, GossveilError, fault, out_of_memory}
use gossveil.Exec.{Exec, pure, ◌>>=◌}

-- A pointer and a length, as `gv_alloc` and `gv_free` have them.
abbrev pub Region : Type 0
Region = ℕ × ℕ

-- The regions that are allocated and not freed.
abbrev pub Heap : Type 0
Heap = List Region

unfoldable pub same_region : Region → Region → Bool
same_region (p, n) (q, m) = p == q && n == m

-- `gv_free`.
unfoldable pub release : Region → Heap → Heap
release x [] = []
release x (y ∷ h) = if same_region x y then h else y ∷ release x h

-- What a call asks for: an input of so many bytes, a number, an output cell, a zeroed region.
pub data Request : Type 0 where
  input number region : ℕ → Request
  output : Request

-- The fields of a `Call` that is being built.
pub record Building : Type 0 where
  pub args : List ℕ
  pub ins : List Region
  pub outs : List ℕ
  pub pads : List Region

abbrev pub started : Building
started = record { args = []; ins = []; outs = []; pads = [] }

-- What an export hands back: the status, and what it wrote to each output cell in turn.
pub record Answer : Type 0 where
  pub status : ℕ
  pub written : List Region

-- The wasm module: the pointer that `gv_alloc` gives, 0 for none, and the end of an export that is
-- called by its name, which may throw.
pub record Core : Type 0 where
  pub alloc : Heap → ℕ → ℕ
  pub run : String → List ℕ → Heap → Result Answer × Heap

pub no_memory : GossveilError
no_memory = fault out_of_memory (codes "out of memory")

-- `In.free` of every input: an empty input has no region.
unfoldable pub free_inputs : List Region → Heap → Heap
free_inputs [] h = h
free_inputs ((p, n) ∷ ins) h = free_inputs ins (if n == 0 then h else release (p, n) h)

-- `Pad.free` of every region.
unfoldable pub free_pads : List Region → Heap → Heap
free_pads [] h = h
free_pads (x ∷ pads) h = free_pads pads (release x h)

-- `Out.take`: the buffer that the cell describes goes, if there is one, and then the cell.
unfoldable pub take_out : ℕ → Region → Heap → Heap
take_out cell (p, n) h = release (cell, 8) (if n == 0 then h else release (p, n) h)

unfoldable pub take_outs : List ℕ → List Region → Heap → Heap
unfolding take_out
take_outs [] written h = h
take_outs (cell ∷ cells) [] h = take_outs cells [] (take_out cell (0, 0) h)
take_outs (cell ∷ cells) (x ∷ written) h = take_outs cells written (take_out cell x h)

-- `finish` from the end of `invoke` on, where `check` throws for a status and `read` may throw too.
-- The `finally` block runs whether or not something was thrown, and `take` only if the export
-- returned.
unfoldable pub settle :
    {T : Type 0}
    → (ℕ → Result (Unit {0}))
    → (Answer → Result T)
    → Building
    → Result Answer × Heap
    → Result T × Heap
unfolding take_outs free_inputs free_pads
settle check read b (err thrown, h) = (err thrown, free_pads b.pads (free_inputs b.ins h))
settle check read b (ok a, h) = (
  elim (check a.status) [ ok _ ↦ read a | err thrown ↦ err thrown ],
  free_pads b.pads (free_inputs b.ins (take_outs b.outs a.written h)),
)

module _ (c : Core) where
  unfoldable pub reserve : ℕ → Exec Heap ℕ
  unfolding no_memory
  reserve len h =
      let ptr = c.alloc h len in if ptr == 0 then (err no_memory, h) else (ok ptr, (ptr, len) ∷ h)

  -- `bytes`, `num`, `out` and `pad`.
  unfoldable pub add_arg : Request → Building → Exec Heap Building
  unfolding reserve
  add_arg (input zero) b =
      pure (record b { args = b.args ++ 0 ∷ 0 ∷ []; ins = b.ins ++ (0, 0) ∷ [] })
  add_arg (input (suc n)) b = reserve (suc n) >>= λ ptr.
      pure (record b { args = b.args ++ ptr ∷ suc n ∷ []; ins = b.ins ++ (ptr, suc n) ∷ [] })
  add_arg (number n) b = pure (record b { args = b.args ++ n ∷ [] })
  add_arg output b = reserve 8 >>= λ cell.
      pure (record b { args = b.args ++ cell ∷ []; outs = b.outs ++ cell ∷ [] })
  add_arg (region n) b = reserve n >>= λ ptr.
      pure (record b { args = b.args ++ ptr ∷ []; pads = b.pads ++ (ptr, n) ∷ [] })

  -- The chain of builder calls, in which the first that throws ends the whole call.
  unfoldable pub build : List Request → Building → Exec Heap Building
  unfolding add_arg
  build [] b = pure b
  build (q ∷ requests) b = add_arg q b >>= build requests

  unfoldable pub finish :
      {T : Type 0} → (ℕ → Result (Unit {0})) → String → (Answer → Result T) → Building → Exec Heap T
  finish check name read b h = settle check read b (c.run name b.args h)

  -- One operation of the bridge.
  unfoldable pub run_call :
      {T : Type 0}
      → (ℕ → Result (Unit {0}))
      → String
      → List Request
      → (Answer → Result T)
      → Exec Heap T
  unfolding build finish
  run_call check name requests read = build requests started >>= finish check name read
