-- ===== src/Tests/Groupings.antt =====
-- A run of the theorem on the recipients of one message, for two accounts of which one has two devices.
use gossveil.Base.{ℕ, ◌≡◌, refl, List, [], ◌∷◌, Text, codes, replicate, decimal, text_eq}
use gossveil.Fault.{ok}
use gossveil.Dict.{Dict, lookup, keys, text_key_eq}
use gossveil.Uuid.{uuid_to_bytes, strip_dashes, all_hex, hex_pairs, bytes_to_uuid, dashed, to_hex}
use gossveil.Bridge.Sessions.{session_info}
use gossveil.ServiceId.{ServiceId, aci, pni, get_string, parse_string}
use gossveil.Address.{ProtocolAddress, to_string}
use gossveil.Keys.{PublicKey}
use gossveil.Records.{remote_registration_id}
use gossveil.Store.Memory.{MemoryStore, memory_identities, memory_sessions}
use gossveil.Sealed.Listing.{Recipient}
use gossveil.Sealed.Send.{service_id, recipients_of, values}
use gossveil.Sealed.Send.Grouping.{Round, AreRounds, entry, key_set, recipients_of-groups}
use gossveil.Tests.Data.{platform, empty_store}

abbrev account : Text
account = codes "abababab-abab-abab-abab-abababababab"

abbrev number : Text
number = codes "PNI:01010101-0101-0101-0101-010101010101"

abbrev device : Text → ℕ → ProtocolAddress
device name device_id = record { name = name; device_id = device_id }

abbrev wanted : List ProtocolAddress
wanted = device account 2 ∷ device number 1 ∷ device account 1 ∷ []

-- The platform says this of every session.
abbrev reported : ℕ
reported = 16843009

abbrev round : Text → ServiceId → ℕ → PublicKey → Round
round key id device_id identity = record {
  key = key;
  id = id;
  device = record { device_id = device_id; registration_id = reported };
  identity = identity;
  session = 4 ∷ [];
}

abbrev account_id : ServiceId
account_id = record { kind = aci; raw_uuid = replicate 16 171 }

abbrev number_id : ServiceId
number_id = record { kind = pni; raw_uuid = replicate 16 1 }

abbrev rounds : List Round
rounds =
    round account account_id 2 (5 ∷ 1 ∷ [])
    ∷ round number number_id 1 (5 ∷ 2 ∷ [])
    ∷ round account account_id 1 (5 ∷ 3 ∷ [])
    ∷ []

abbrev by_address : {A : Type 0} → A → A → A → Dict Text A
by_address x y z =
    (to_string (device account 2), x)
    ∷ (to_string (device number 1), y)
    ∷ (to_string (device account 1), z)
    ∷ []

abbrev with_three : MemoryStore
with_three = record empty_store {
  identities = by_address (5 ∷ 1 ∷ []) (5 ∷ 2 ∷ []) (5 ∷ 3 ∷ []);
  sessions = by_address (4 ∷ []) (4 ∷ []) (4 ∷ []);
}

three-AreRounds : AreRounds platform with_three 100 wanted rounds
unfolding AreRounds service_id parse_string get_string lookup remote_registration_id to_string
    decimal uuid_to_bytes strip_dashes all_hex hex_pairs text_eq session_info bytes_to_uuid dashed
    to_hex
three-AreRounds = (
  record {
    named = refl;
    known = refl;
    open_session = refl;
    registered = refl;
    printed = refl;
    same_device = refl;
  },
  (
    record {
      named = refl;
      known = refl;
      open_session = refl;
      registered = refl;
      printed = refl;
      same_device = refl;
    },
    (
      record {
        named = refl;
        known = refl;
        open_session = refl;
        registered = refl;
        printed = refl;
        same_device = refl;
      },
      tt,
    ),
  ),
)

recipients_of-groups_example :
    (d : Dict Text Recipient) × (recipients_of platform memory_identities memory_sessions wanted 100
        with_three
      ≡ (ok (values d), with_three))
    × ((k : Text) → lookup k d ≡ entry k rounds)
    × (keys d ≡ key_set rounds [])
recipients_of-groups_example =
    recipients_of-groups platform with_three 100 wanted rounds three-AreRounds
