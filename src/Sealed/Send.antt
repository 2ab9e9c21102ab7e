-- ===== src/Sealed/Send.antt =====
-- Sealing, of sdk/ts/src/api.ts: an envelope for one recipient, or for every device of many.
pub mod Grouping
use gossveil.Base.{ℕ, Bytes, Text, Option, none, some, List, [], ◌∷◌, ◌++◌, codes, map}
use gossveil.Fault.{Result, ok, err, GossveilError, fault, session_not_found, invalid_argument}
use gossveil.Exec.{Exec, pure, lift, or_throw, throw, ◌>>=◌}
use gossveil.Dict.{Dict, lookup, insert, text_key_eq}
use gossveil.Bridge.Call.{Platform}
use gossveil.Bridge.Envelopes.{
  envelope_seal, envelope_seal_many, envelope_for_single, envelope_for_recipient,
}
use gossveil.Address.{ProtocolAddress, to_string}
use gossveil.Keys.{PublicKey}
use gossveil.Records.{SessionRecord, remote_registration_id}
use gossveil.ServiceId.{ServiceId, parse_string, get_string, get_fixed_width}
use gossveil.Store.{SessionStore, IdentityKeyStore}
use gossveil.Session.{session_encrypt}
use gossveil.Sealed.Contents.{SenderCertificate, Content, new_content, default_hint}
use gossveil.Sealed.Listing.{Device, Recipient, listing, excluded_listing}

unfoldable pub no_identity : ProtocolAddress → GossveilError
no_identity a = fault session_not_found (codes "no identity for " ++ to_string a)

unfoldable pub not_service_id : ProtocolAddress → GossveilError
not_service_id a = fault invalid_argument (to_string a ++ codes " is not a service id")

needs_store : GossveilError
needs_store = fault invalid_argument (codes "addresses need a session store for registration ids")

-- `ProtocolAddress.serviceId`, whose `catch` turns any error into null.
unfoldable pub service_id : ProtocolAddress → Option ServiceId
service_id a = elim (parse_string a.name) [ ok id ↦ some id | err e ↦ none ]

-- One round of the loop of `recipientsOf` on its map: the device joins the entry of its service
-- id, or starts one.
unfoldable pub add_device :
    Text → ServiceId → Device → PublicKey → Dict Text Recipient → Dict Text Recipient
add_device key id device identity by_service = elim (lookup key by_service) [
  | some entry ↦ insert key (record entry { devices = entry.devices ++ device ∷ [] }) by_service
  | none ↦
      insert key (record { service_id = id; devices = device ∷ []; identity_key = identity })
        by_service
]

unfoldable pub values : Dict Text Recipient → List Recipient
values = map (λ (k, r). r)

-- The first argument of the multi-recipient call, an array of one of two kinds.
pub data Recipients : Type 0 where
  addresses : List ProtocolAddress → Recipients
  listed : List Recipient → Recipients

module _ {S : Type 0} (p : Platform) (identities : IdentityKeyStore S) where
  unfoldable pub sealed_sender_encrypt : Content → ProtocolAddress → Exec S Bytes
  sealed_sender_encrypt content address = do
    found ← identities.get_identity address
    their_identity ← or_throw found (no_identity address)
    identity ← identities.get_identity_key
    lift (envelope_seal p identity their_identity content.bytes)

  unfoldable pub sealed_sender_encrypt_message :
      SessionStore S → Bytes → ProtocolAddress → SenderCertificate → ℕ → Exec S Bytes
  unfolding sealed_sender_encrypt
  sealed_sender_encrypt_message sessions message address certificate now_secs = do
    ciphertext ← session_encrypt p sessions identities message address now_secs none
    content ← lift (new_content p ciphertext certificate default_hint none)
    sealed_sender_encrypt content address

  -- The loop of `recipientsOf`, over the addresses and their sessions.
  unfoldable pub recipients_loop :
      List ProtocolAddress
      → List SessionRecord
      → ℕ
      → Dict Text Recipient
      → Exec S (Dict Text Recipient)
  unfolding add_device service_id
  recipients_loop (a ∷ as_left) (session ∷ sessions) now_secs by_service = do
    id ← or_throw (service_id a) (not_service_id a)
    found ← identities.get_identity a
    identity ← or_throw found (no_identity a)
    registration_id ← lift (remote_registration_id p session now_secs)
    key ← lift (get_string id)
    recipients_loop as_left sessions now_secs (
        add_device key id (record { device_id = a.device_id; registration_id = registration_id })
          identity by_service)
  recipients_loop _ _ now_secs by_service = pure by_service

  unfoldable pub recipients_of : SessionStore S → List ProtocolAddress → ℕ → Exec S (List Recipient)
  unfolding recipients_loop values
  recipients_of sessions wanted now_secs = do
    records ← sessions.get_existing_sessions wanted
    by_service ← recipients_loop wanted records now_secs []
    pure (values by_service)

  -- An empty array is taken for a list of recipients.
  unfoldable pub recipient_list : Recipients → Option (SessionStore S) → ℕ → Exec S (List Recipient)
  unfolding recipients_of needs_store
  recipient_list (listed rs) sessions now_secs = pure rs
  recipient_list (addresses []) sessions now_secs = pure []
  recipient_list (addresses (a ∷ rest)) none now_secs = throw needs_store
  recipient_list (addresses (a ∷ rest)) (some sessions) now_secs =
      recipients_of sessions (a ∷ rest) now_secs

  unfoldable pub multi_recipient_encrypt :
      Content → Recipients → Option (SessionStore S) → List ServiceId → ℕ → Exec S Bytes
  unfolding recipient_list
  multi_recipient_encrypt content recipients sessions excluded now_secs = do
    list ← recipient_list recipients sessions now_secs
    recipient_bytes ← lift (listing list)
    identity ← identities.get_identity_key
    lift (envelope_seal_many p identity recipient_bytes (excluded_listing excluded) content.bytes)

module _ (p : Platform) where
  unfoldable pub message_for_single_recipient : Bytes → Result Bytes
  message_for_single_recipient message = envelope_for_single p message

  unfoldable pub message_for_recipient : Bytes → ServiceId → ℕ → Result Bytes
  message_for_recipient message id device_id =
      envelope_for_recipient p message (get_fixed_width id) device_id
