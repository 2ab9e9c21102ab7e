-- ===== src/Wasm/Random.antt =====
-- The random helpers of sdk/ts/src/wasm-api.ts.
pub mod Registration
pub mod Version
use gossveil.Base.{
  ℕ, zero, suc, List, [], ◌∷◌, Option, none, some, Bool, Bytes, Text, bit_and, bit_or, leb, ◌&&◌,
  if◌then◌else◌, to_uint32, get_or, codes,
}
use gossveil.Fault.{Result, ok, err, ◌>>=◌, GossveilError, fault, invalid_state}
use gossveil.Bridge.Call.{Platform}
use gossveil.Bridge.Primitives.{random}

abbrev pub max_registration_id : ℕ
max_registration_id = 16380

-- `buf[0] & 0x3fff`.
unfoldable pub candidate : ℕ → ℕ
candidate draw = bit_and draw 0x3fff

unfoldable pub accepted : ℕ → Bool
unfolding candidate
accepted draw = leb 1 (candidate draw) && leb (candidate draw) max_registration_id

-- The loop over the 16-bit numbers that `crypto.getRandomValues` gives. `none`: it still runs when
-- these draws are used up.
unfoldable pub generate_registration_id : List ℕ → Option ℕ
generate_registration_id [] = none
generate_registration_id (draw ∷ draws) =
    if accepted draw then some (candidate draw) else generate_registration_id draws

-- `bytes[i] = v`.
unfoldable pub set_byte : ℕ → ℕ → Bytes → Bytes
set_byte i v [] = []
set_byte zero v (b ∷ bytes) = v ∷ bytes
set_byte (suc i) v (b ∷ bytes) = b ∷ set_byte i v bytes

-- The two assignments in `generate_uuid`.
unfoldable pub stamp_version : Bytes → Bytes
unfolding set_byte
stamp_version bytes =
    let versioned = set_byte 6 (bit_or (bit_and (get_or bytes 6 0) 0x0f) 0x40) bytes in
    set_byte 8 (bit_or (bit_and (get_or versioned 8 0) 0x3f) 0x80) versioned

module _ (p : Platform) where
  unfoldable pub generate_uuid : Result Bytes
  unfolding stamp_version
  generate_uuid = random p 16 >>= λ bytes. ok (stamp_version bytes)

  unfoldable pub generate_attachment_key : Result Bytes
  generate_attachment_key = random p 64

  unfoldable pub generate_random_bytes : ℕ → Result Bytes
  generate_random_bytes length = random p (to_uint32 length)

core_not_loaded : GossveilError
core_not_loaded =
    fault invalid_state (codes "the core is not loaded: await the default export first")

-- `init`, where `ready` is what `isReady` answers.
unfoldable pub confirm_loaded : Bool → Result (Unit {0})
unfolding core_not_loaded
confirm_loaded ready = if ready then ok tt else err core_not_loaded
