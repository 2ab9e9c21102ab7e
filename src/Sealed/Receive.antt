-- ===== src/Sealed/Receive.antt =====
-- Opening an envelope, of sdk/ts/src/api.ts.
pub mod Guards
use gossveil.Base.{
  ℕ, Bool, true, false, ◌&&◌, ◌||◌, Bytes, Text, Option, none, some, codes, text_eq, ◌==◌, not,
  if◌then◌else◌,
}
use gossveil.Fault.{
  Result, ok, GossveilError, fault, invalid_signature, invalid_message, invalid_argument,
}
use gossveil.Exec.{Exec, pure, lift, throw, unless, ◌>>=◌, ◌>>◌}
use gossveil.Bridge.Call.{Platform}
use gossveil.Bridge.Envelopes.{envelope_open}
use gossveil.Bridge.Reports.{plain_body}
use gossveil.Address.{ProtocolAddress, new_address}
use gossveil.Keys.{PublicKey}
use gossveil.Messages.{whisper_message, pre_key_message}
use gossveil.Store.{
  SessionStore, IdentityKeyStore, PreKeyStore, SignedPreKeyStore, KyberPreKeyStore, SenderKeyStore,
}
use gossveil.Session.{session_decrypt, session_decrypt_pre_key}
use gossveil.Group.{group_decrypt}
use gossveil.Sealed.Contents.{SenderCertificate, Content, content_of, certificate_in, validate}

pub record Decryption : Type 0 where
  pub message : Bytes
  pub sender_uuid : Text
  pub sender_e164 : Option Text
  pub device_id : ℕ

unfoldable pub bad_certificate : GossveilError
bad_certificate = fault invalid_signature (codes "sender certificate failed validation")

unfoldable pub own_message : GossveilError
own_message = fault invalid_message (codes "message sealed by this device")

unfoldable pub no_sender_key_store : GossveilError
no_sender_key_store = fault invalid_argument (codes "a sender key message needs a sender key store")

unfoldable pub unknown_type : GossveilError
unknown_type = fault invalid_message (codes "unknown sealed message type")

-- `senderE164 !== null && senderE164 === localE164`.
unfoldable pub same_phone : Option Text → Option Text → Bool
same_phone (some s) (some t) = text_eq s t
same_phone _ _ = false

-- The test of the self-send guard.
unfoldable pub is_own : SenderCertificate → Option Text → Text → ℕ → Bool
unfolding same_phone
is_own c local_e164 local_uuid local_device =
    (text_eq c.sender_uuid local_uuid || same_phone c.sender_e164 local_e164)
    && (c.parsed.device == local_device)

module _ {S : Type 0} (p : Platform) (identities : IdentityKeyStore S) where
  unfoldable pub decrypt_to_usmc : Bytes → Exec S Content
  decrypt_to_usmc message = do
    identity ← identities.get_identity_key
    opened ← lift (envelope_open p identity message)
    lift (content_of p opened)

module _ {S : Type 0} (p : Platform) (sessions : SessionStore S) (identities : IdentityKeyStore S)
    (pre_keys : PreKeyStore S) (signed_pre_keys : SignedPreKeyStore S)
    (kyber_pre_keys : KyberPreKeyStore S) (sender_keys : Option (SenderKeyStore S)) where
  in_group : Option (SenderKeyStore S) → ProtocolAddress → Bytes → Exec S Bytes
  in_group none sender contents = throw no_sender_key_store
  in_group (some store) sender contents = group_decrypt p store sender contents

  -- The `switch` on the type of the content.
  unfoldable pub dispatch : ℕ → Bytes → ProtocolAddress → ProtocolAddress → ℕ → Exec S Bytes
  unfolding in_group
  dispatch kind contents sender local now_secs =
      if kind == 2
      then (do
        m ← lift (whisper_message p contents)
        session_decrypt p sessions identities m sender now_secs (some local))
      else if kind == 3
      then (do
        m ← lift (pre_key_message p contents)
        session_decrypt_pre_key p sessions identities pre_keys signed_pre_keys kyber_pre_keys m
            sender now_secs (some local))
      else if kind == 7
      then in_group sender_keys sender contents
      else if kind == 8
      then lift (plain_body p contents)
      else throw unknown_type

  unfoldable pub sealed_sender_decrypt :
      Bytes → PublicKey → ℕ → Option Text → Text → ℕ → ℕ → Exec S Decryption
  unfolding decrypt_to_usmc
  sealed_sender_decrypt message trust_root timestamp local_e164 local_uuid local_device now_secs =
      do
        content ← decrypt_to_usmc p identities message
        certificate ← lift (certificate_in p content)
        good ← lift (validate p certificate trust_root timestamp)
        unless good bad_certificate
        unless (not (is_own certificate local_e164 local_uuid local_device)) own_message
        sender ← lift (new_address certificate.sender_uuid certificate.parsed.device)
        local ← lift (new_address local_uuid local_device)
        plain ← dispatch content.parsed.kind content.parsed.body sender local now_secs
        pure (record {
          message = plain;
          sender_uuid = certificate.sender_uuid;
          sender_e164 = certificate.sender_e164;
          device_id = certificate.parsed.device;
        })
