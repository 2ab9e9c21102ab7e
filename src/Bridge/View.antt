-- ===== src/Bridge/View.antt =====
-- The `DataView` accesses of sdk/ts/src/bridge.ts, all of them little-endian, over a region given
-- as the function from an offset to the byte there.
pub mod RoundTrip
use gossveil.Base.{
  ℕ, ◌+◌, ◌-◌, ◌*◌, ◌/◌, ◌%◌, ◌^◌, ◌<◌, ◌≤◌, ◌≡◌, Bool, true, false, Option, none, some, List, [],
  ◌∷◌, Bytes, ltb, leb, ◌==◌, ◌&&◌, if◌then◌else◌, arith,
}

abbrev pub Region : Type 0
Region = ℕ → ℕ

unfoldable pub get_uint8 : Region → ℕ → ℕ
get_uint8 v at = v at % 256

-- `getUint32(at, true)`.
unfoldable pub get_uint32 : Region → ℕ → ℕ
unfolding get_uint8
get_uint32 v at =
    get_uint8 v at
    + 256 * get_uint8 v (at + 1)
    + 65536 * get_uint8 v (at + 2)
    + 16777216 * get_uint8 v (at + 3)

-- `getBigUint64(at, true)`.
unfoldable pub get_uint64 : Region → ℕ → ℕ
unfolding get_uint32
get_uint64 v at = get_uint32 v at + 4294967296 * get_uint32 v (at + 4)

-- `pad.bytes(offset, len)`.
unfoldable pub get_bytes : Region → ℕ → ℕ → Bytes
unfolding get_uint8
get_bytes v at Prim.Native.Nat.zero = []
get_bytes v at (Prim.Native.Nat.suc n) = get_uint8 v at ∷ get_bytes v (at + 1) n

-- `signedId`: a negative `getBigInt64` is null. The sign is the highest bit.
unfoldable pub signed_id : (ℕ → ℕ) → Region → ℕ → Option ℕ
unfolding get_uint64
signed_id to_number v at =
    let n = get_uint64 v at in if leb (2 ^ 63) n then none else some (to_number n)

-- `setUint32(at, n, true)`: the low 32 bits, a byte at each of four offsets.
unfoldable pub set_uint32 : ℕ → ℕ → Region → Region
set_uint32 at n v i =
    if i == at
    then n % 256
    else if i == at + 1
    then n / 256 % 256
    else if i == at + 2
    then n / 65536 % 256
    else if i == at + 3
    then n / 16777216 % 256
    else v i

-- `setBigInt64(at, x, true)`, by the two's complement of `x`.
unfoldable pub set_int64 : ℕ → ℕ → Region → Region
unfolding set_uint32
set_int64 at n v = set_uint32 (at + 4) (n / 2 ^ 32) (set_uint32 at n v)

-- The two's complement on 64 bits of `id === null ? -1n : BigInt(id)`.
unfoldable pub id_word : Option ℕ → ℕ
id_word none = 2 ^ 64 - 1
id_word (some id) = id % 2 ^ 64
