-- ===== src/Bridge/View/RoundTrip.antt =====
-- Reads of a `DataView` after its writes.
use gossveil.Base.{ℕ, ◌+◌, ◌/◌, ◌%◌, ◌^◌, ◌<◌, ◌≤◌, ◌≡◌, refl, Option, none, some, ◌⊎◌, ◌∙◌, arith}
use gossveil.Bridge.View.{
  Region, get_uint8, get_uint32, get_uint64, signed_id, set_uint32, set_int64, id_word,
}

module _ (at n : ℕ) (v : Region) where
  byte0 : get_uint8 (set_uint32 at n v) at ≡ n % 256
  unfolding get_uint8 set_uint32
  byte0 = ground arith

  byte1 : get_uint8 (set_uint32 at n v) (at + 1) ≡ n / 256 % 256
  unfolding get_uint8 set_uint32
  byte1 = ground arith

  byte2 : get_uint8 (set_uint32 at n v) (at + 2) ≡ n / 65536 % 256
  unfolding get_uint8 set_uint32
  byte2 = ground arith

  byte3 : get_uint8 (set_uint32 at n v) (at + 3) ≡ n / 16777216 % 256
  unfolding get_uint8 set_uint32
  byte3 = ground arith

  pub get_uint32-set_uint32 : get_uint32 (set_uint32 at n v) at ≡ n % 2 ^ 32
  unfolding get_uint32
  get_uint32-set_uint32 = rw (byte0, byte1, byte2, byte3) (omega arith)

  pub get_uint8-set_uint32_ne :
      (j : ℕ) → (j < at) ⊎ (at + 4 ≤ j) → get_uint8 (set_uint32 at n v) j ≡ get_uint8 v j
  unfolding get_uint8 set_uint32
  get_uint8-set_uint32_ne j h = ground arith

  pub get_uint32-set_uint32_ne :
      (j : ℕ) → (j + 4 ≤ at) ⊎ (at + 4 ≤ j) → get_uint32 (set_uint32 at n v) j ≡ get_uint32 v j
  unfolding get_uint32
  get_uint32-set_uint32_ne j h =
      rw
        (
          get_uint8-set_uint32_ne j (omega arith),
          get_uint8-set_uint32_ne (j + 1) (omega arith),
          get_uint8-set_uint32_ne (j + 2) (omega arith),
          get_uint8-set_uint32_ne (j + 3) (omega arith),
        )
        refl

pub get_uint64-set_int64 : (at n : ℕ) (v : Region) → get_uint64 (set_int64 at n v) at ≡ n % 2 ^ 64
unfolding get_uint64 set_int64
get_uint64-set_int64 at n v =
    rw
      (
        get_uint32-set_uint32_ne (at + 4) (n / 2 ^ 32) (set_uint32 at n v) at (omega arith),
        get_uint32-set_uint32 at n v,
        get_uint32-set_uint32 (at + 4) (n / 2 ^ 32) (set_uint32 at n v),
      )
      (omega arith)

pub id_word-lt : (id : Option ℕ) → id_word id < 2 ^ 64
unfolding id_word
id_word-lt none = omega arith
id_word-lt (some n) = omega arith

module _ (to_number : ℕ → ℕ) (exact : (n : ℕ) → n ≤ 2 ^ 53 → to_number n ≡ n) where
  -- The 64-bit word of an optional id reads as that id.
  pub signed_id_of_word :
      (at : ℕ) (id : Option ℕ) (v : Region)
      → get_uint64 v at ≡ id_word id
      → ((n : ℕ) → id ≡ some n → n ≤ 2 ^ 53)
      → signed_id to_number v at ≡ id
  unfolding signed_id id_word
  signed_id_of_word at none v word fits = rw word refl
  signed_id_of_word at (some n) v word fits = ground (arith, exact n, fits n refl)

  -- A key id of at most 53 bits, or its absence, written as a signed 64-bit number is read back,
  -- where `Number` is exact on such numbers.
  pub signed_id-set_int64 :
      (at : ℕ) (id : Option ℕ) (v : Region)
      → ((n : ℕ) → id ≡ some n → n ≤ 2 ^ 53)
      → signed_id to_number (set_int64 at (id_word id) v) at ≡ id
  signed_id-set_int64 at id v fits =
      signed_id_of_word at id (set_int64 at (id_word id) v)
        (get_uint64-set_int64 at (id_word id) v ∙ omega (arith, id_word-lt id)) fits
