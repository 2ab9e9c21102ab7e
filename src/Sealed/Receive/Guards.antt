-- ===== src/Sealed/Receive/Guards.antt =====
-- `sealedSenderDecryptMessage` of sdk/ts/src/api.ts over the in-memory store.
use gossveil.Base.{ℕ, ◌≡◌, true, false, Bytes, Text, Option, some, if◌then◌else◌}
use gossveil.Fault
use gossveil.Fault.{Result, ok, err, IsOk, GossveilError}
use gossveil.Exec.{Exec}
use gossveil.Bridge.Call.{Platform}
use gossveil.Bridge.Envelopes.{envelope_open}
use gossveil.Address.{ProtocolAddress, new_address}
use gossveil.Keys.{PublicKey}
use gossveil.Store.Memory.{
  MemoryStore, memory_sessions, memory_identities, memory_pre_keys, memory_signed_pre_keys,
  memory_kyber_pre_keys, memory_sender_keys,
}
use gossveil.Sealed.Contents.{SenderCertificate, Content, content_of, certificate_in, validate}
use gossveil.Sealed.Receive.{
  Decryption, is_own, bad_certificate, own_message, dispatch, sealed_sender_decrypt,
}

-- All that comes before the `switch`, which reads the identity key and writes nothing.
pub record Prepared : Type 0 where
  pub content : Content
  pub certificate : SenderCertificate
  pub sender : ProtocolAddress
  pub local : ProtocolAddress

module _ (to_lower : Text → Text) (p : Platform) (message : Bytes) (trust_root : PublicKey)
    (timestamp : ℕ) (local_e164 : Option Text) (local_uuid : Text) (local_device now_secs : ℕ) where
  certified : Content → SenderCertificate → Result Prepared
  certified content certificate = Fault.◌>>=◌ (validate p certificate trust_root timestamp) λ good.
      if good
      then (if is_own certificate local_e164 local_uuid local_device
          then err own_message
          else (Fault.◌>>=◌ (new_address certificate.sender_uuid certificate.parsed.device)
              λ sender. Fault.◌>>=◌ (new_address local_uuid local_device) λ local. ok (record {
                content = content;
                certificate = certificate;
                sender = sender;
                local = local;
              })))
      else err bad_certificate

  prepare : Bytes → Result Prepared
  prepare identity = Fault.◌>>=◌ (envelope_open p identity message) λ opened.
      Fault.◌>>=◌ (content_of p opened) λ content.
        Fault.◌>>=◌ (certificate_in p content) λ certificate. certified content certificate

  abbrev pub in_memory : Exec MemoryStore Decryption
  in_memory =
      sealed_sender_decrypt p memory_sessions memory_identities memory_pre_keys
        memory_signed_pre_keys memory_kyber_pre_keys (some (memory_sender_keys to_lower)) message
        trust_root timestamp local_e164 local_uuid local_device now_secs

  abbrev route : Prepared → Exec MemoryStore Bytes
  route q =
      dispatch p memory_sessions memory_identities memory_pre_keys memory_signed_pre_keys
        memory_kyber_pre_keys (some (memory_sender_keys to_lower)) q.content.parsed.kind
        q.content.parsed.body q.sender q.local now_secs

  abbrev named : Prepared → Result Bytes × MemoryStore → Result Decryption × MemoryStore
  named q (ok plain, s') = (
    ok (record {
      message = plain;
      sender_uuid = q.certificate.sender_uuid;
      sender_e164 = q.certificate.sender_e164;
      device_id = q.certificate.parsed.device;
    }),
    s',
  )
  named q (err e, s') = (err e, s')

  -- The envelope holds the content and a certificate that is valid and that is not this device's own,
  -- and the addresses are those of the sender that it names and of this device.
  abbrev Passed : Bytes → Prepared → Type 0
  Passed identity q =
      (opened : Bytes) × (envelope_open p identity message ≡ ok opened)
      × (content_of p opened ≡ ok q.content)
      × (certificate_in p q.content ≡ ok q.certificate)
      × (validate p q.certificate trust_root timestamp ≡ ok true)
      × (is_own q.certificate local_e164 local_uuid local_device ≡ false)
      × (new_address q.certificate.sender_uuid q.certificate.parsed.device ≡ ok q.sender)
      × (new_address local_uuid local_device ≡ ok q.local)

  abbrev Checks : Bytes → Result Prepared → Type 0
  Checks identity (ok q) = Passed identity q
  Checks identity (err e) = Unit

  -- The result names the sender that the certificate names.
  abbrev pub Received : MemoryStore → Decryption → MemoryStore → Type 0
  Received s d s' =
      (q : Prepared) × Passed s.identity.private_key q
      × (d.sender_uuid ≡ q.certificate.sender_uuid)
      × (d.sender_e164 ≡ q.certificate.sender_e164)
      × (d.device_id ≡ q.certificate.parsed.device)
      × (route q s ≡ (ok d.message, s'))
