-- ===== src/ServiceId/RoundTrip.antt =====
-- Parsing and printing the three external forms of a service id (sdk/ts/src/api.ts).
use gossveil.Base.{
  ℕ, suc, zero, ◌≡◌, refl, ap, ◌∙◌, ◌↔◌, true, false, [], ◌∷◌, Bytes, ◌==◌, length, replicate,
  arith, IsBytes, Bool-cases, inl, inr,
}
use gossveil.Fault.{ok, ◌>>=◌}
use gossveil.BytesEqual.{bytes_equal_iff}
use gossveil.Uuid.{uuid_to_bytes, bytes_to_uuid, dashed, to_hex, hex_digit}
use gossveil.Uuid.RoundTrip.{uuid_to_bytes-bytes_to_uuid}
use gossveil.ServiceId.{
  ServiceIdKind, aci, pni, ServiceId, IsValid, parse_string, get_string, starts_with, pni_prefix,
  parse_fixed_width, get_fixed_width, parse_binary, get_binary, overwrite, kind_code, equals,
}

overwrite_full : (n : ℕ) (xs : Bytes) → length xs ≡ n → overwrite (replicate n 0) xs ≡ xs
unfolding overwrite
overwrite_full zero [] h = refl
overwrite_full zero (x ∷ xs) h = absurd (omega arith)
overwrite_full (suc n) [] h = absurd (omega arith)
overwrite_full (suc n) (x ∷ xs) h = ap (λ l. x ∷ l) (overwrite_full n xs (omega arith))

pub fixed_width_form :
    (s : ServiceId) → length s.raw_uuid ≡ 16 → get_fixed_width s ≡ kind_code s.kind ∷ s.raw_uuid
unfolding get_fixed_width
fixed_width_form s h = ap (λ l. kind_code s.kind ∷ l) (overwrite_full 16 s.raw_uuid h)

-- A text of hexadecimal digits does not start with `PNI:`.
dashed-not-pni :
    (raw : Bytes) → length raw ≡ 16 → starts_with pni_prefix (dashed (to_hex raw)) ≡ false
unfolding starts_with dashed to_hex hex_digit
dashed-not-pni [] h = absurd (omega arith)
dashed-not-pni (x ∷ raw) h = ground arith

uuid_back :
    (raw : Bytes) → length raw ≡ 16 → IsBytes raw → uuid_to_bytes (dashed (to_hex raw)) ≡ ok raw
unfolding bytes_to_uuid
uuid_back raw size bytes = rw size at (uuid_to_bytes-bytes_to_uuid raw size bytes)

parse_string_form :
    (kind : ServiceIdKind) (raw : Bytes)
    → length raw ≡ 16
    → IsBytes raw
    → (get_string (record { kind = kind; raw_uuid = raw }) >>= parse_string)
      ≡ ok (record { kind = kind; raw_uuid = raw })
unfolding get_string parse_string bytes_to_uuid
parse_string_form aci raw size bytes =
    rw (size, dashed-not-pni raw size, uuid_back raw size bytes, size)
parse_string_form pni raw size bytes = rw (size, uuid_back raw size bytes, size)

-- The text of a service id, whose UUID is 16 bytes, parses as the same id.
pub parse_string-get_string : (s : ServiceId) → IsValid s → (get_string s >>= parse_string) ≡ ok s
parse_string-get_string s v = parse_string_form s.kind s.raw_uuid v.size v.bytes

abbrev pub HasUuid : ServiceId → Type 0
HasUuid s = length s.raw_uuid ≡ 16

parse_fixed_width_kind :
    (kind : ServiceIdKind) (raw : Bytes)
    → length raw ≡ 16
    → parse_fixed_width (kind_code kind ∷ raw) ≡ ok (record { kind = kind; raw_uuid = raw })
unfolding parse_fixed_width kind_code
parse_fixed_width_kind aci raw h = ground arith
parse_fixed_width_kind pni raw h = ground arith

fixed_width_back :
    (bytes : Bytes) (s : ServiceId)
    → parse_fixed_width bytes ≡ ok s
    → HasUuid s × (kind_code s.kind ∷ s.raw_uuid ≡ bytes)
unfolding parse_fixed_width kind_code
fixed_width_back [] s h = cc
fixed_width_back (zero ∷ raw) s h = ground arith
fixed_width_back (suc zero ∷ raw) s h = ground arith
fixed_width_back (suc (suc k) ∷ raw) s h = ground arith

-- The 17-byte form: a parse succeeds exactly on what the id prints.
pub parse_fixed_width_iff :
    (bytes : Bytes) (s : ServiceId)
    → (parse_fixed_width bytes ≡ ok s) ↔ (HasUuid s × (get_fixed_width s ≡ bytes))
parse_fixed_width_iff bytes s = (
  λ h. let (size, same) = fixed_width_back bytes s h in (size, fixed_width_form s size ∙ same),
  λ h. rw (← h.1, fixed_width_form s h.0) (parse_fixed_width_kind s.kind s.raw_uuid h.0),
)

parse_binary_kind :
    (kind : ServiceIdKind) (raw : Bytes)
    → length raw ≡ 16
    → parse_binary (get_binary (record { kind = kind; raw_uuid = raw }))
      ≡ ok (record { kind = kind; raw_uuid = raw })
unfolding parse_binary get_binary
parse_binary_kind aci raw h = ground arith
parse_binary_kind pni raw h =
    ground (arith, fixed_width_form (record { kind = pni; raw_uuid = raw }) h)

binary_back :
    (bytes : Bytes) (s : ServiceId) → parse_binary bytes ≡ ok s → HasUuid s × (get_binary s ≡ bytes)
unfolding parse_binary get_binary
binary_back [] s h = cc
binary_back (k ∷ raw) s h = elim (Bool-cases (length (k ∷ raw) == 16)) [
  | inl short ↦ ground arith
  | inr long ↦ ground (arith, fixed_width_form s)
]

-- Exactly the short binary forms of the service ids with a UUID of 16 bytes parse, 16 bytes for an
-- account and 17 for a phone identity, each as the id that it is the form of.
pub parse_binary_iff :
    (bytes : Bytes) (s : ServiceId)
    → (parse_binary bytes ≡ ok s) ↔ (HasUuid s × (get_binary s ≡ bytes))
parse_binary_iff bytes s =
    (binary_back bytes s, λ h. rw (← h.1) (parse_binary_kind s.kind s.raw_uuid h.0))

equal_parts_iff :
    (k l : ServiceIdKind) (b c : Bytes)
    → (equals (record { kind = k; raw_uuid = b }) (record { kind = l; raw_uuid = c }) ≡ true)
      ↔ Path ServiceId (record { kind = k; raw_uuid = b }) (record { kind = l; raw_uuid = c })
unfolding equals kind_code
equal_parts_iff aci aci b c = ground (arith, bytes_equal_iff b c)
equal_parts_iff pni pni b c = ground (arith, bytes_equal_iff b c)
equal_parts_iff aci pni b c = ground arith
equal_parts_iff pni aci b c = ground arith

-- Two service ids are equal by `equals` exactly if they are the same.
equals_iff : (s t : ServiceId) → (equals s t ≡ true) ↔ (s ≡ t)
equals_iff s t = equal_parts_iff s.kind t.kind s.raw_uuid t.raw_uuid
