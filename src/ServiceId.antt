-- ===== src/ServiceId.antt =====
-- `ServiceId` of sdk/ts/src/api.ts: an account or phone identity, as text and in two binary forms.
pub mod RoundTrip
use gossveil.Base.{
  ℕ, ◌≡◌, Bool, true, false, List, [], ◌∷◌, ◌++◌, Text, Bytes, codes, ◌==◌, ltb, ◌&&◌, ◌||◌, not,
  if◌then◌else◌, length, drop, take, replicate, get_or, text_eq, zero, suc,
}
use gossveil.Fault.{Result, ok, err, ◌>>=◌, GossveilError, fault, invalid_argument}
use gossveil.BytesEqual.{bytes_equal}
use gossveil.Uuid.{uuid_to_bytes, bytes_to_uuid, uuid_length}

pub data ServiceIdKind : Type 0 where
  aci pni : ServiceIdKind

unfoldable pub kind_code : ServiceIdKind → ℕ
kind_code aci = 0
kind_code pni = 1

-- `bytes[0] as ServiceIdKind`, where the guard has left 0 and 1.
unfoldable pub kind_from : ℕ → ServiceIdKind
kind_from zero = aci
kind_from (suc n) = pni

pub record ServiceId : Type 0 where
  pub kind : ServiceIdKind
  pub raw_uuid : Bytes

bad_service_id : GossveilError
bad_service_id = fault invalid_argument (codes "bad service id")

-- The constructor.
unfoldable pub new_service_id : ServiceIdKind → Bytes → Result ServiceId
new_service_id kind raw_uuid =
    if length raw_uuid == 16
    then ok (record { kind = kind; raw_uuid = raw_uuid })
    else err uuid_length

unfoldable pub starts_with : Text → Text → Bool
starts_with [] s = true
starts_with (c ∷ prefix) [] = false
starts_with (c ∷ prefix) (d ∷ s) = c == d && starts_with prefix s

abbrev pub pni_prefix : Text
pni_prefix = codes "PNI:"

unfoldable pub parse_string : Text → Result ServiceId
unfolding new_service_id starts_with
parse_string s =
    if starts_with pni_prefix s
    then (uuid_to_bytes (drop 4 s) >>= new_service_id pni)
    else (uuid_to_bytes s >>= new_service_id aci)

unfoldable pub parse_fixed_width : Bytes → Result ServiceId
unfolding new_service_id kind_from bad_service_id
parse_fixed_width bytes =
    if not (length bytes == 17) || ltb 1 (get_or bytes 0 0)
    then err bad_service_id
    else new_service_id (kind_from (get_or bytes 0 0)) (drop 1 bytes)

unfoldable pub parse_binary : Bytes → Result ServiceId
unfolding new_service_id bad_service_id
parse_binary bytes =
    if length bytes == 16
    then new_service_id aci bytes
    else if length bytes == 17 && get_or bytes 0 0 == 1
    then new_service_id pni (drop 1 bytes)
    else err bad_service_id

unfoldable pub get_string : ServiceId → Result Text
get_string s = bytes_to_uuid s.raw_uuid >>= λ uuid. elim s.kind [
  | pni ↦ ok (pni_prefix ++ uuid)
  | aci ↦ ok uuid
]

-- `out.set(source)`, where the source is no longer than `out`.
unfoldable pub overwrite : Bytes → Bytes → Bytes
overwrite out [] = out
overwrite [] (x ∷ source) = []
overwrite (o ∷ out) (x ∷ source) = x ∷ overwrite out source

unfoldable pub get_fixed_width : ServiceId → Bytes
unfolding kind_code overwrite
get_fixed_width s = kind_code s.kind ∷ overwrite (replicate 16 0) s.raw_uuid

unfoldable pub get_binary : ServiceId → Bytes
unfolding get_fixed_width
get_binary s = elim s.kind [ aci ↦ s.raw_uuid | pni ↦ get_fixed_width s ]

-- `equals`: the kind is compared by its number.
unfoldable pub equals : ServiceId → ServiceId → Bool
unfolding kind_code
equals s other = kind_code s.kind == kind_code other.kind && bytes_equal s.raw_uuid other.raw_uuid

-- The constructors of `Aci` and `Pni` behind `fromUuid`.
unfoldable pub from_uuid : ServiceIdKind → Text → Result ServiceId
unfolding new_service_id
from_uuid kind uuid = uuid_to_bytes uuid >>= new_service_id kind

-- What the constructor keeps, together with the type of the bytes.
pub record IsValid (s : ServiceId) : Type 0 where
  pub size : length s.raw_uuid ≡ 16
  pub bytes : gossveil.Base.IsBytes s.raw_uuid
