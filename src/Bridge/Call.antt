-- ===== src/Bridge/Call.antt =====
-- sdk/ts/src/core.ts (`invoke`, `check`, `loaded`, `reserve`) and the class `Call` of
-- sdk/ts/src/bridge.ts, by values: an argument is what is copied in, a reply what is copied out.
use gossveil.Base.{ℕ, Bool, String, List, [], ◌∷◌, ◌++◌, Text, Bytes, codes, ◌==◌, if◌then◌else◌}
use gossveil.Fault.{
  Result, ok, err, GossveilError, fault, kind_of, out_of_memory, internal, invalid_state,
}

-- One argument of a call: bytes or text copied in, a number, an output cell, a zeroed region, or
-- a region that the caller lays out over inputs of its own.
pub data Arg : Type 0 where
  bytes : Bytes → Arg
  text : Text → Arg
  num : ℕ → Arg
  out : Arg
  pad : ℕ → Arg
  struct : (ℕ → ℕ) → List Bytes → Arg

-- What a call hands back: the status, output cell number `i`, and byte `at` of region number `i`.
pub record Reply : Type 0 where
  pub status : ℕ
  pub outs : ℕ → Bytes
  pub pads : ℕ → ℕ → ℕ

-- `exhausted`: `gv_alloc` returned 0 for an argument. `missing`: there is no such export.
pub data Outcome : Type 0 where
  unloaded exhausted missing : Outcome
  replied : Reply → Outcome

-- What the package does not implement: the exports of the wasm module during one operation (the
-- random bytes that they draw in it fixed), the place of an input in linear memory, and the
-- runtime's `TextDecoder` and `Number(bigint)`.
pub record Platform : Type 0 where
  pub call : String → List Arg → Outcome
  pub status_text : ℕ → Text
  pub pointer : ℕ → ℕ
  pub decode : Bytes → Text
  pub to_number : ℕ → ℕ

pub record Call : Type 0 where
  pub name : String
  pub args : List Arg

unfoldable pub to : String → Call
to name = record { name = name; args = [] }

-- The builder methods `bytes`, `num`, `out` and `pad` append to `#args`.
infixl 60 ◌▹◌
abbrev pub ◌▹◌ : Call → Arg → Call
c ▹ a = record c { args = c.args ++ a ∷ [] }

not_loaded : GossveilError
not_loaded = fault invalid_state (codes "the core is not loaded: await init() first")

no_memory : GossveilError
no_memory = fault out_of_memory (codes "out of memory")

missing_export : String → GossveilError
missing_export name = fault internal (codes "missing export " ++ codes name)

module _ (p : Platform) where
  -- `check`: a status other than 0 is thrown with its kind and the text of `gv_status_text`.
  unfoldable pub check : ℕ → Result (Unit {0})
  check status =
      if status == 0
      then ok tt
      else err (record { status = status; kind = kind_of status; message = p.status_text status })

  -- The arguments are allocated, then `invoke` calls the export: `k` is what comes after it.
  unfoldable pub invoke : {T : Type 0} → Call → (Reply → Result T) → Result T
  unfolding not_loaded no_memory missing_export
  invoke c k = elim (p.call c.name c.args) [
    | unloaded ↦ err not_loaded
    | exhausted ↦ err no_memory
    | missing ↦ err (missing_export c.name)
    | replied r ↦ k r
  ]

  -- `finish`: runs the export, checks the status, and only then reads the outputs.
  unfoldable pub finish : {T : Type 0} → Call → (Reply → Result T) → Result T
  unfolding invoke check
  finish c read = invoke c (λ r. elim (check r.status) [ ok _ ↦ read r | err e ↦ err e ])

  unfoldable pub first : Call → Result Bytes
  unfolding finish
  first c = finish c (λ r. ok (r.outs 0))

  unfoldable pub two : Call → Result (Bytes × Bytes)
  unfolding finish
  two c = finish c (λ r. ok (r.outs 0, r.outs 1))

  unfoldable pub three : Call → Result (Bytes × Bytes × Bytes)
  unfolding finish
  three c = finish c (λ r. ok (r.outs 0, r.outs 1, r.outs 2))

  unfoldable pub status : Call → Result (Unit {0})
  unfolding finish
  status c = finish c (λ r. ok tt)

  -- A one-byte answer written through the last pointer argument.
  unfoldable pub flag : Call → Result Bool
  unfolding finish
  flag c = finish (c ▹ pad 1) (λ r. ok (r.pads 0 0 == 1))
