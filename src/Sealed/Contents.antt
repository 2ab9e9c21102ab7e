-- ===== src/Sealed/Contents.antt =====
-- `ServerCertificate`, `SenderCertificate` and `UnidentifiedSenderMessageContent` of
-- sdk/ts/src/api.ts.
use gossveil.Base.{ℕ, Bool, Bytes, Text, Option, to_uint32}
use mathlib.Core.Option
use gossveil.Fault.{Result, ok, err, ◌>>=◌}
use gossveil.Bridge.Call.{Platform}
use gossveil.Bridge.Envelopes.{
  ServerCertInfo, SenderCertInfo, ContentInfo, server_cert, server_cert_parse, sender_cert,
  sender_cert_parse, sender_cert_check, content, content_parse,
}
use gossveil.Keys.{PublicKey, PrivateKey}
use gossveil.ServiceId.{ServiceId, aci, from_uuid}
use gossveil.Messages.{CiphertextMessage}

pub data ContentHint : Type 0 where
  default_hint resendable implicit_hint : ContentHint

unfoldable pub hint_code : ContentHint → ℕ
hint_code default_hint = 0
hint_code resendable = 1
hint_code implicit_hint = 2

pub record ServerCertificate : Type 0 where
  pub bytes : Bytes
  pub parsed : ServerCertInfo

pub record SenderCertificate : Type 0 where
  pub bytes : Bytes
  pub parsed : SenderCertInfo
  pub sender_uuid : Text
  pub sender_e164 : Option Text

pub record Content : Type 0 where
  pub bytes : Bytes
  pub parsed : ContentInfo

module _ (p : Platform) where
  unfoldable pub server_certificate : Bytes → Result ServerCertificate
  server_certificate bytes =
      server_cert_parse p bytes >>= λ parsed. ok (record { bytes = bytes; parsed = parsed })

  unfoldable pub new_server_certificate : ℕ → PublicKey → PrivateKey → Result ServerCertificate
  unfolding server_certificate
  new_server_certificate key_id server_key trust_root =
      server_cert p (to_uint32 key_id) server_key trust_root >>= server_certificate

  unfoldable pub sender_certificate : Bytes → Result SenderCertificate
  sender_certificate bytes = do
    parsed ← sender_cert_parse p bytes
    ok (record {
      bytes = bytes;
      parsed = parsed;
      sender_uuid = p.decode parsed.sender_id;
      sender_e164 = Option.map p.decode parsed.phone;
    })

  unfoldable pub new_sender_certificate :
      Text
      → Option Text
      → ℕ
      → PublicKey
      → ℕ
      → ServerCertificate
      → PrivateKey
      → Result SenderCertificate
  unfolding sender_certificate
  new_sender_certificate sender_uuid sender_e164 device key expiration signer signer_key =
      sender_cert p sender_uuid sender_e164 (to_uint32 device) key expiration signer.bytes
        signer_key
      >>= sender_certificate

  unfoldable pub validate : SenderCertificate → PublicKey → ℕ → Result Bool
  validate certificate trust_root time = sender_cert_check p certificate.bytes trust_root time

  unfoldable pub content_of : Bytes → Result Content
  content_of bytes =
      content_parse p bytes >>= λ parsed. ok (record { bytes = bytes; parsed = parsed })

  unfoldable pub new_content :
      CiphertextMessage → SenderCertificate → ContentHint → Option Bytes → Result Content
  unfolding content_of hint_code
  new_content message sender hint group_id =
      content p message.type sender.bytes message.bytes (hint_code hint) group_id >>= content_of

  -- `senderCertificate`, which parses the certificate inside the content.
  unfoldable pub certificate_in : Content → Result SenderCertificate
  unfolding sender_certificate
  certificate_in c = sender_certificate c.parsed.sender_cert

-- `SenderCertificate.senderAci`, whose `catch` turns any error into null.
unfoldable pub sender_aci : SenderCertificate → Option ServiceId
sender_aci certificate = elim (from_uuid aci certificate.sender_uuid) [
  | ok id ↦ Option.some id
  | err e ↦ Option.none
]
