-- ===== src/Tests/Codecs.antt =====
-- Runs of the theorems on texts, bytes, keys and addresses.
use gossveil.Base.{◌*◌, ◌≡◌, ◌^◌, ◌↔◌, refl, [], ◌∷◌, Bytes, Text, some, codes, replicate, arith}
use gossveil.Fault.{ok, ◌>>=◌}
use gossveil.Bridge.Sessions.{published_layout}
use gossveil.Bridge.Sessions.Layout.Header.{HeaderReads, layout-HeaderReads}
use gossveil.Session.{published}
use gossveil.Uuid.{uuid_to_bytes, bytes_to_uuid}
use gossveil.Uuid.RoundTrip.{uuid_to_bytes-bytes_to_uuid}
use gossveil.Keys.Compare.{compare_keys, IsNegative, Precedes, non_neg, compare_keys_lem}
use gossveil.Address.{ProtocolAddress, new_address}
use gossveil.ServiceId
use gossveil.ServiceId.{
  ServiceId, aci, pni, get_string, parse_string, get_fixed_width, parse_fixed_width, get_binary,
  parse_binary,
}
use gossveil.ServiceId.RoundTrip.{HasUuid, parse_binary_iff}
use gossveil.Sealed.Listing.{Recipient, listing}
use gossveil.Sealed.Listing.RoundTrip.{Fits, read_listing, read_listing-listing}
use gossveil.Tests.Data.{bundle, peer_key}

abbrev raw : Bytes
raw = replicate 16 171

uuid_to_bytes-bytes_to_uuid_example : (bytes_to_uuid raw >>= uuid_to_bytes) ≡ ok raw
uuid_to_bytes-bytes_to_uuid_example = uuid_to_bytes-bytes_to_uuid raw refl (omega arith)

abbrev upper : Text
upper = codes "ABABABAB-abab-abab-ABAB-ABABABABABAB"

abbrev one_two : Bytes
one_two = 1 ∷ 2 ∷ []

abbrev one_three : Bytes
one_three = 1 ∷ 3 ∷ []

abbrev one : Bytes
one = 1 ∷ []

abbrev only_three : Bytes
only_three = 3 ∷ []

compare_keys_lem_example :
    ((compare_keys one_two one_three ≡ non_neg 0) ↔ (one_two ≡ one_three))
    × (IsNegative (compare_keys one_two one_three) ↔ Precedes one_two one_three)
compare_keys_lem_example = compare_keys_lem one_two one_three

shorter-first : IsNegative (compare_keys one one_two)
unfolding compare_keys
shorter-first = tt

smaller-first : IsNegative (compare_keys one_two only_three)
unfolding compare_keys
smaller-first = tt

abbrev wrapped : ProtocolAddress
wrapped = record { name = codes "a"; device_id = 0 }

wrapped-accepted : new_address (codes "a") (2 ^ 32) ≡ ok wrapped
unfolding new_address
wrapped-accepted = refl

abbrev phone : ServiceId
phone = record { kind = pni; raw_uuid = raw }

phone-IsValid : ServiceId.IsValid phone
phone-IsValid = record { size = refl; bytes = omega arith }

parse_binary_iff_example :
    (parse_binary (get_binary phone) ≡ ok phone)
    ↔ (HasUuid phone × (get_binary phone ≡ get_binary phone))
parse_binary_iff_example = parse_binary_iff (get_binary phone) phone

layout-HeaderReads_example :
    HeaderReads
      (λ n. n)
      (λ i. 1024 * i)
      (published bundle)
      (published_layout (λ i. 1024 * i) (published bundle))
unfolding published
layout-HeaderReads_example =
    layout-HeaderReads (λ n. n) (λ i. 1024 * i) (published bundle) (λ n h. refl)
      (λ n e. ground arith)

abbrev recipient : Recipient
recipient = record {
  service_id = phone;
  devices =
      record { device_id = 1; registration_id = 300 }
      ∷ record { device_id = 2; registration_id = 7 }
      ∷ [];
  identity_key = peer_key;
}

recipient-Fits : Fits recipient
recipient-Fits = record {
  id = phone-IsValid;
  count = omega arith;
  devices = omega arith;
  key_size = refl;
  key = omega arith;
}

read_listing-listing_example :
    (s : Bytes) × (listing (recipient ∷ []) ≡ ok s) × (read_listing s ≡ some (recipient ∷ [], []))
read_listing-listing_example =
    read_listing-listing (recipient ∷ []) (omega arith) (recipient-Fits, tt)

made :
    (s : Bytes) × (listing (recipient ∷ []) ≡ ok s) × (read_listing s ≡ some (recipient ∷ [], []))
made = read_listing-listing (recipient ∷ []) (omega arith) (recipient-Fits, tt)
