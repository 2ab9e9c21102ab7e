-- ===== src/Uuid/RoundTrip.antt =====
-- Printing bytes with `bytesToUuid` of sdk/ts/src/uuid.ts and reading them with `uuidToBytes`.
use gossveil.Base.{
  ℕ, zero, suc, ◌+◌, ◌*◌, ◌/◌, ◌%◌, ◌<◌, ◌≡◌, refl, sym, ap, ◌∙◌, true, false, [], ◌∷◌, ◌++◌, Text,
  Bytes, ◌==◌, length, take, drop, take-append-drop, IsBytes, arith,
}
use gossveil.Fault.{ok, ◌>>=◌}
use gossveil.Uuid.{
  strip_dashes, is_hex, all_hex, hex_value, hex_pairs, uuid_to_bytes, hex_digit, to_hex, dashed,
  bytes_to_uuid,
}

strip_dashes-append : (s t : Text) → strip_dashes (s ++ t) ≡ strip_dashes s ++ strip_dashes t
unfolding strip_dashes
strip_dashes-append [] t = refl
strip_dashes-append (c ∷ s) t = ground (arith, strip_dashes-append s t)

drop-nil : (n : ℕ) → drop {A = ℕ} n [] ≡ []
drop-nil zero = refl
drop-nil (suc n) = refl

drop-drop : (m n : ℕ) (s : Text) → drop n (drop m s) ≡ drop (m + n) s
drop-drop zero n s = let e : n ≡ 0 + n = omega arith in ap (λ k. drop k s) e
drop-drop (suc m) n [] = drop-nil n ∙ sym (drop-nil (suc m + n))
drop-drop (suc m) n (c ∷ s) =
    let e : suc (m + n) ≡ suc m + n = omega arith in drop-drop m n s ∙ ap (λ k. drop k (c ∷ s)) e

-- What is cut off at the front of a tail, and the tail behind it, strip to what the tail does.
strip_dashes_cut :
    (m k : ℕ) (s : Text)
    → strip_dashes (take k (drop m s)) ++ strip_dashes (drop (m + k) s) ≡ strip_dashes (drop m s)
strip_dashes_cut m k s =
    rw (← drop-drop m k s, ← strip_dashes-append (take k (drop m s)) (drop k (drop m s)))
      (ap strip_dashes (take-append-drop k (drop m s)))

hex_digit-ne-dash : (n : ℕ) → n < 16 → (hex_digit n == b'-') ≡ false
unfolding hex_digit
hex_digit-ne-dash n h = ground arith

strip_dashes-to_hex : (b : Bytes) → IsBytes b → strip_dashes (to_hex b) ≡ to_hex b
unfolding strip_dashes to_hex
strip_dashes-to_hex [] h = refl
strip_dashes-to_hex (x ∷ b) (hx, hb) = rw (
  hex_digit-ne-dash (x / 16) (omega arith),
  hex_digit-ne-dash (x % 16) (omega arith),
  strip_dashes-to_hex b hb,
)

strip_dashes-dashed : (s : Text) → strip_dashes (dashed s) ≡ strip_dashes s
unfolding dashed strip_dashes
strip_dashes-dashed s = simp strip_dashes-append (
    rw
      (
        strip_dashes_cut 16 4 s,
        strip_dashes_cut 12 4 s,
        strip_dashes_cut 8 4 s,
        strip_dashes_cut 0 8 s,
      )
      refl)

digit_value : (n : ℕ) → n < 16 → hex_value (hex_digit n) ≡ n
unfolding hex_value hex_digit
digit_value n h = ground arith

digit-IsHex : (n : ℕ) → n < 16 → is_hex (hex_digit n) ≡ true
unfolding is_hex hex_digit
digit-IsHex n h = ground arith

all_hex-to_hex : (b : Bytes) → IsBytes b → all_hex (to_hex b) ≡ true
unfolding all_hex to_hex
all_hex-to_hex [] h = refl
all_hex-to_hex (x ∷ b) h =
    ground (arith, digit-IsHex (x / 16), digit-IsHex (x % 16), all_hex-to_hex b)

hex_pairs-to_hex : (b : Bytes) → IsBytes b → hex_pairs (to_hex b) ≡ b
unfolding hex_pairs to_hex
hex_pairs-to_hex [] h = refl
hex_pairs-to_hex (x ∷ b) h =
    ground (arith, digit_value (x / 16), digit_value (x % 16), hex_pairs-to_hex b)

length-to_hex : (b : Bytes) → length (to_hex b) ≡ 2 * length b
unfolding to_hex
length-to_hex [] = refl
length-to_hex (x ∷ b) = omega (arith, length-to_hex b)

-- Sixteen bytes print to a text that reads back as the same bytes.
pub uuid_to_bytes-bytes_to_uuid :
    (b : Bytes) → length b ≡ 16 → IsBytes b → (bytes_to_uuid b >>= uuid_to_bytes) ≡ ok b
unfolding bytes_to_uuid uuid_to_bytes
uuid_to_bytes-bytes_to_uuid b len h =
    rw
      (
        len,
        strip_dashes-dashed (to_hex b),
        strip_dashes-to_hex b h,
        length-to_hex b,
        len,
        all_hex-to_hex b h,
      )
      (ap ok (hex_pairs-to_hex b h))
