-- ===== src/Loading.antt =====
-- The loading of the wasm module in sdk/ts/src/core.ts: `loadSource`, the instantiation, the
-- module's variable `exports`, and the random bytes that the module asks for.
pub mod Ready
pub mod Random
use gossveil.Base.{
  ℕ, zero, suc, ◌+◌, ◌-◌, Bool, true, false, List, [], ◌∷◌, Option, none, some, Text, codes,
  text_eq, ◌&&◌, if◌then◌else◌, ◌⊎◌, inl, inr, ltb, min,
}

-- A reference to an object of the runtime: an `URL`, a `Module`, a buffer, a `Response`, a
-- `Request`, an instance or what was thrown.
abbrev pub Ref : Type 0
Ref = ℕ

-- What an `await` ends with: what it threw, or a value.
abbrev pub Awaited : Type 0 → Type 0
Awaited A = Ref ⊎ A

infixl 5 ◌and_then◌
abbrev pub ◌and_then◌ : {A B : Type 0} → Awaited A → (A → Awaited B) → Awaited B
inl thrown and_then next = inl thrown
inr value and_then next = next value

-- `InitInput | undefined`.
pub data Input : Type 0 where
  absent : Input
  compiled buffer response url request : Ref → Input
  text : Text → Input

pub data Source : Type 0 where
  of_module of_buffer of_response : Ref → Source

-- What `WebAssembly.instantiate` gives for bytes: a record with an instance, or an instance.
pub data Instantiated : Type 0 where
  with_module alone : Ref → Instantiated

-- What `init` uses of the runtime: `new URL(text, import.meta.url)`, `url.protocol`, `readFile`,
-- `fetch`, `response.arrayBuffer()` and the three ways of instantiation; whether this is node, and
-- whether it has `instantiateStreaming`.
pub record Runtime : Type 0 where
  pub default_location : Ref
  pub resolve : Text → Awaited Ref
  pub protocol : Ref → Text
  pub node : Bool
  pub read_file : Ref → Awaited Ref
  pub fetch : Input → Awaited Ref
  pub array_buffer : Ref → Awaited Ref
  pub streaming : Bool
  pub instantiate_module : Ref → Awaited Ref
  pub instantiate_streaming : Ref → Awaited Ref
  pub instantiate_bytes : Ref → Awaited Instantiated

unfoldable pub instance_of : Instantiated → Ref
instance_of (with_module i) = i
instance_of (alone i) = i

module _ (rt : Runtime) where
  -- The last lines of `loadSource`, for an input that names the location `place`.
  unfoldable pub from_location : Input → Ref → Awaited Source
  from_location input place =
      if text_eq (rt.protocol place) (codes "file:") && rt.node
      then (rt.read_file place and_then λ b. inr (of_buffer b))
      else (rt.fetch input and_then λ r. inr (of_response r))

  unfoldable pub load_source : Input → Awaited Source
  unfolding from_location
  load_source absent = from_location (url rt.default_location) rt.default_location
  load_source (compiled m) = inr (of_module m)
  load_source (buffer b) = inr (of_buffer b)
  load_source (response r) = inr (of_response r)
  load_source (url u) = from_location (url u) u
  load_source (text t) = rt.resolve t and_then from_location (text t)
  load_source (request r) = rt.fetch (request r) and_then λ answer. inr (of_response answer)

  -- The three branches of `init` that end with an instance.
  unfoldable pub instantiate : Source → Awaited Ref
  unfolding instance_of
  instantiate (of_module m) = rt.instantiate_module m
  instantiate (of_response r) =
      if rt.streaming
      then rt.instantiate_streaming r
      else (rt.array_buffer r and_then rt.instantiate_bytes and_then λ result.
          inr (instance_of result))
  instantiate (of_buffer b) = rt.instantiate_bytes b and_then λ result. inr (instance_of result)

  -- What `init` awaits between its test of `exports` and `adopt`.
  unfoldable pub load : Input → Awaited Ref
  unfolding load_source instantiate
  load input = load_source input and_then instantiate

-- The module's variable `exports`, and how many calls of `init` have passed their test of it and
-- have not ended.
pub record Loader : Type 0 where
  pub exports : Option Ref
  pub waiting : ℕ

unfoldable pub is_ready : Loader → Bool
is_ready l = elim l.exports [ none ↦ false | some i ↦ true ]

-- The start of `init`: a ready module is the answer at once.
unfoldable pub begin_init : Loader → Option Ref × Loader
begin_init l = elim l.exports [
  | some i ↦ (some i, l)
  | none ↦ (none, record l { waiting = suc l.waiting })
]

-- The end of an `init` that waited: it throws, or it adopts the instance.
unfoldable pub end_init : Awaited Ref → Loader → Awaited Ref × Loader
end_init (inl thrown) l = (inl thrown, record l { waiting = l.waiting - 1 })
end_init (inr i) l = (inr i, record { exports = some i; waiting = l.waiting - 1 })

-- `source instanceof WebAssembly.Module ? source : new WebAssembly.Module(source)`.
unfoldable pub module_of : (Ref → Awaited Ref) → Source → Awaited Ref
module_of compile (of_module m) = inr m
module_of compile (of_buffer b) = compile b
module_of compile (of_response r) = compile r

-- `compile` and `instantiate` are `new WebAssembly.Module` and `new WebAssembly.Instance`.
unfoldable pub init_sync :
    (Ref → Awaited Ref) → (Ref → Awaited Ref) → Source → Loader → Awaited Ref × Loader
init_sync compile instantiate source l = elim l.exports [
  | some i ↦ (inr i, l)
  | none ↦ elim (module_of compile source and_then instantiate) [
    | inl thrown ↦ (inl thrown, l)
    | inr i ↦ (inr i, record l { exports = some i })
  ]
]

-- The requests that `fillRandom` makes, each the bounds of one `subarray`, from `at` on; `none` if
-- the fuel is used up.
unfoldable pub fill_from : ℕ → ℕ → ℕ → Option (List (ℕ × ℕ))
fill_from zero at len = none
fill_from (suc fuel) at len =
    let rest = fill_from fuel (at + 65536) len in
    if ltb at len
    then (elim rest [ none ↦ none | some requests ↦ some ((at, min len (at + 65536)) ∷ requests) ])
    else some []

unfoldable pub fill_random : ℕ → ℕ → Option (List (ℕ × ℕ))
unfolding fill_from
fill_random fuel len = fill_from fuel 0 len
