-- ===== src/Wasm/Random/Version.antt =====
-- `generate_uuid` of sdk/ts/src/wasm-api.ts: the version and the variant of the id that it returns.
use gossveil.Base.{
  ℕ, zero, suc, ◌+◌, ◌/◌, ◌%◌, ◌<◌, ◌≡◌, ◌≢◌, refl, sym, ap, ◌∙◌, [], ◌∷◌, Bool, true, Bytes,
  bit_and, bit_or, ◌==◌, ==_iff, ◌&&◌, arith, bit_and-15, bit_and-63, and_parts, length, get_or,
}
use gossveil.Fault.{ok}
use gossveil.Bridge.Call.{Platform}
use gossveil.Bridge.Primitives.{random}
use gossveil.Wasm.Random.{set_byte, stamp_version, generate_uuid}

-- Two functions compared below a bound.
agree_below : (ℕ → ℕ) → (ℕ → ℕ) → ℕ → Bool
agree_below f g zero = true
agree_below f g (suc n) = (f n == g n) && agree_below f g n

same_below : (f g : ℕ → ℕ) (n k : ℕ) → agree_below f g n ≡ true → k < n → f k ≡ g k
unfolding agree_below
same_below f g zero k h below = absurd (omega arith)
same_below f g (suc n) k h below =
    let (here, rest) = and_parts (f n == g n) (agree_below f g n) h in
    ground (arith, ==_iff (f n) (g n), here, same_below f g n k rest)

version_table : agree_below (λ n. bit_or n 64) (λ n. n + 64) 16 ≡ true
unfolding agree_below
version_table = refl

variant_table : agree_below (λ n. bit_or n 128) (λ n. n + 128) 64 ≡ true
unfolding agree_below
variant_table = refl

-- The byte with the version and the byte with the variant.
version_byte : (b : ℕ) → bit_or (bit_and b 15) 64 ≡ b % 16 + 64
version_byte b =
    ap (λ n. bit_or n 64) (bit_and-15 b)
    ∙ same_below (λ n. bit_or n 64) (λ n. n + 64) 16 (b % 16) version_table (omega arith)

variant_byte : (b : ℕ) → bit_or (bit_and b 63) 128 ≡ b % 64 + 128
variant_byte b =
    ap (λ n. bit_or n 128) (bit_and-63 b)
    ∙ same_below (λ n. bit_or n 128) (λ n. n + 128) 64 (b % 64) variant_table (omega arith)

length-set_byte : (i v : ℕ) (bytes : Bytes) → length (set_byte i v bytes) ≡ length bytes
unfolding set_byte
length-set_byte i v [] = refl
length-set_byte zero v (b ∷ bytes) = refl
length-set_byte (suc i) v (b ∷ bytes) = ap suc (length-set_byte i v bytes)

get-set_byte : (i v : ℕ) (bytes : Bytes) → i < length bytes → get_or (set_byte i v bytes) i 0 ≡ v
unfolding set_byte
get-set_byte i v [] h = absurd (omega arith)
get-set_byte zero v (b ∷ bytes) h = refl
get-set_byte (suc i) v (b ∷ bytes) h = get-set_byte i v bytes (omega arith)

get-set_byte_other :
    (i j v : ℕ) (bytes : Bytes) → i ≢ j → get_or (set_byte i v bytes) j 0 ≡ get_or bytes j 0
unfolding set_byte
get-set_byte_other i j v [] ne = refl
get-set_byte_other zero zero v (b ∷ bytes) ne = absurd (ne refl)
get-set_byte_other zero (suc j) v (b ∷ bytes) ne = refl
get-set_byte_other (suc i) zero v (b ∷ bytes) ne = refl
get-set_byte_other (suc i) (suc j) v (b ∷ bytes) ne =
    get-set_byte_other i j v bytes (λ e. ne (ap suc e))

-- A version 4 id of the variant of RFC 9562 that keeps the other 122 bits of `drawn`.
abbrev pub IsStamped : Bytes → Bytes → Type 0
IsStamped drawn id =
    (length id ≡ length drawn)
    × (get_or id 6 0 / 16 ≡ 4)
    × (get_or id 6 0 % 16 ≡ get_or drawn 6 0 % 16)
    × (get_or id 8 0 / 64 ≡ 2)
    × (get_or id 8 0 % 64 ≡ get_or drawn 8 0 % 64)
    × ((i : ℕ) → i ≢ 6 → i ≢ 8 → get_or id i 0 ≡ get_or drawn i 0)

stamp_version-IsStamped :
    (drawn : Bytes) → length drawn ≡ 16 → IsStamped drawn (stamp_version drawn)
unfolding stamp_version
stamp_version-IsStamped drawn len =
    let v = bit_or (bit_and (get_or drawn 6 0) 15) 64 in
    let versioned = set_byte 6 v drawn in
    let w = bit_or (bit_and (get_or versioned 8 0) 63) 128 in
    let at_six : get_or (set_byte 8 w versioned) 6 0 ≡ get_or drawn 6 0 % 16 + 64 =
      get-set_byte_other 8 6 w versioned (λ e. absurd (omega (arith, e)))
      ∙ get-set_byte 6 v drawn (omega arith)
      ∙ version_byte (get_or drawn 6 0) in
    let at_eight : get_or (set_byte 8 w versioned) 8 0 ≡ get_or drawn 8 0 % 64 + 128 =
      get-set_byte 8 w versioned (omega (arith, length-set_byte 6 v drawn))
      ∙ variant_byte (get_or versioned 8 0)
      ∙ ap (λ b. b % 64 + 128) (get-set_byte_other 6 8 v drawn (λ e. absurd (omega (arith, e)))) in
    (
      length-set_byte 8 w versioned ∙ length-set_byte 6 v drawn,
      omega (arith, at_six),
      omega (arith, at_six),
      omega (arith, at_eight),
      omega (arith, at_eight),
      (λ i not_six not_eight.
          get-set_byte_other 8 i w versioned (λ e. not_eight (sym e))
          ∙ get-set_byte_other 6 i v drawn (λ e. not_six (sym e))),
    )

-- If the core draws 16 bytes, the UUID made of them has version 4 and the variant of RFC 9562 and
-- keeps the other 122 bits.
pub generate_uuid-IsVersion4 :
    (p : Platform) (drawn : Bytes)
    → random p 16 ≡ ok drawn
    → length drawn ≡ 16
    → (id : Bytes) × (generate_uuid p ≡ ok id) × IsStamped drawn id
unfolding generate_uuid
generate_uuid-IsVersion4 p drawn h len =
    (stamp_version drawn, rw h refl, stamp_version-IsStamped drawn len)
