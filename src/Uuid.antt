-- ===== src/Uuid.antt =====
-- sdk/ts/src/uuid.ts: UUID text and bytes.
pub mod RoundTrip
pub mod Canonical
use gossveil.Base.{
  ℕ, zero, suc, ◌+◌, ◌-◌, ◌*◌, ◌/◌, ◌%◌, ◌<◌, ◌≤◌, ◌≡◌, Bool, true, false, List, [], ◌∷◌, ◌++◌,
  Text, Bytes, codes, leb, ltb, ◌==◌, ◌&&◌, ◌||◌, not, if◌then◌else◌, length, slice, drop,
}
use gossveil.Fault.{Result, ok, err, GossveilError, fault, invalid_argument}

-- `s.replace(/-/g, '')`.
unfoldable pub strip_dashes : Text → Text
strip_dashes [] = []
strip_dashes (c ∷ s) = if c == b'-' then strip_dashes s else c ∷ strip_dashes s

-- The class `[0-9a-fA-F]`.
unfoldable pub is_hex : ℕ → Bool
is_hex c = (leb b'0' c && leb c b'9') || (leb b'a' c && leb c b'f') || (leb b'A' c && leb c b'F')

unfoldable pub all_hex : Text → Bool
unfolding is_hex
all_hex [] = true
all_hex (c ∷ s) = is_hex c && all_hex s

-- The value of one hexadecimal digit, as `parseInt(…, 16)` reads it.
unfoldable pub hex_value : ℕ → ℕ
hex_value c = if leb c b'9' then c - b'0' else if leb c b'F' then c - b'A' + 10 else c - b'a' + 10

-- The loop: byte `i` is `parseInt(hex.substring(i * 2, i * 2 + 2), 16)`.
unfoldable pub hex_pairs : Text → Bytes
unfolding hex_value
hex_pairs (c ∷ d ∷ s) = (16 * hex_value c + hex_value d) ∷ hex_pairs s
hex_pairs _ = []

not_a_uuid : Text → GossveilError
not_a_uuid s = fault invalid_argument (codes "not a uuid: " ++ s)

pub uuid_length : GossveilError
uuid_length = fault invalid_argument (codes "a uuid is 16 bytes")

unfoldable pub uuid_to_bytes : Text → Result Bytes
unfolding not_a_uuid
uuid_to_bytes s =
    let hex = strip_dashes s in
    if length hex == 32 && all_hex hex then ok (hex_pairs hex) else err (not_a_uuid s)

-- One digit of `toString(16)`, which is lower case.
unfoldable pub hex_digit : ℕ → ℕ
hex_digit n = if ltb n 10 then n + b'0' else n - 10 + b'a'

-- `Array.from(bytes, b => b.toString(16).padStart(2, '0')).join('')`.
unfoldable pub to_hex : Bytes → Text
unfolding hex_digit
to_hex [] = []
to_hex (b ∷ bs) = hex_digit (b / 16) ∷ hex_digit (b % 16) ∷ to_hex bs

-- The template of the result: groups of 8, 4, 4, 4 and 12 digits.
unfoldable pub dashed : Text → Text
dashed hex =
    slice 0 8 hex
    ++ (b'-'
        ∷ (slice 8 12 hex
            ++ (b'-' ∷ (slice 12 16 hex ++ (b'-' ∷ (slice 16 20 hex ++ (b'-' ∷ drop 20 hex)))))))

unfoldable pub bytes_to_uuid : Bytes → Result Text
unfolding uuid_length
bytes_to_uuid bytes = if length bytes == 16 then ok (dashed (to_hex bytes)) else err uuid_length

-- Lower case of one ASCII character.
unfoldable pub ascii_lower : ℕ → ℕ
ascii_lower c = if leb b'A' c && leb c b'Z' then c + 32 else c
