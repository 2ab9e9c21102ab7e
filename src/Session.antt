-- ===== src/Session.antt =====
-- The session operations of sdk/ts/src/api.ts, over any implementation of the store classes. An
-- operation is given the platform as it behaves during that operation, and the clock's seconds.
pub mod InMemory
pub mod Trust
pub mod Frame
pub mod Interleaved
pub mod Awaits
use gossveil.Base.{ℕ, Bool, true, false, Bytes, Text, Option, none, some, [], if◌then◌else◌, codes}
use mathlib.Core.Option
use gossveil.Fault.{Result, ok, err}
use gossveil.Exec.{Exec, pure, throw, lift, or_throw, unless, ◌>>=◌, ◌>>◌}
use gossveil.Bridge.Call.{Platform}
use gossveil.Bridge.Sessions.{
  Binding, Published, Sealed, Opened, OpenedFirst, Consumed, SessionInfo, session_info,
  session_start, session_seal, session_open, session_open_first,
}
use gossveil.Address.{ProtocolAddress, untrusted, no_session}
use gossveil.Records.{
  PreKeyRecord, SignedPreKeyRecord, KyberPreKeyRecord, SessionRecord, PreKeyBundle,
}
use gossveil.Messages.{CiphertextMessage, WhisperMessage, PreKeyMessage}
use gossveil.Store.{
  sending, receiving, SessionStore, IdentityKeyStore, PreKeyStore, SignedPreKeyStore,
  KyberPreKeyStore,
}

-- `address?.deviceId ?? 0`.
device_of : Option ProtocolAddress → ℕ
device_of none = 0
device_of (some a) = a.device_id

unfoldable pub binding : Option ProtocolAddress → Option ProtocolAddress → Binding
unfolding device_of
binding sender recipient = record {
  sender = Option.map (λ (a : ProtocolAddress). a.name) sender;
  sender_device = device_of sender;
  recipient = Option.map (λ (a : ProtocolAddress). a.name) recipient;
  recipient_device = device_of recipient;
}

-- The bundle in the order of the bridge.
unfoldable pub published : PreKeyBundle → Published
published b = record {
  registration_id = b.registration_id;
  device = b.device_id;
  one_time_id = b.pre_key_id;
  one_time = b.pre_key;
  signed_id = b.signed_pre_key_id;
  signed_key = b.signed_pre_key;
  signed_signature = b.signed_pre_key_signature;
  identity = b.identity_key;
  pq_id = b.kyber_pre_key_id;
  pq_key = b.kyber_pre_key;
  pq_signature = b.kyber_pre_key_signature;
}

module _ {S : Type 0} (p : Platform) (sessions : SessionStore S)
    (identities : IdentityKeyStore S) where
  unfoldable pub process_bundle : PreKeyBundle → ProtocolAddress → ℕ → Exec S (Unit {0})
  unfolding published
  process_bundle bundle address now_secs = do
    trusted ← identities.is_trusted_identity address bundle.identity_key sending
    unless trusted (untrusted address)
    identity ← identities.get_identity_key
    registration_id ← identities.get_local_registration_id
    existing ← sessions.get_session address
    session ← lift (
        session_start p identity registration_id (Option.get_or existing []) (published bundle)
          now_secs)
    _ ← identities.save_identity address bundle.identity_key
    sessions.save_session address session

  unfoldable pub session_encrypt :
      Bytes → ProtocolAddress → ℕ → Option ProtocolAddress → Exec S CiphertextMessage
  unfolding binding
  session_encrypt message address now_secs local_address = do
    found ← sessions.get_session address
    session ← or_throw found (no_session address)
    sealed ← lift (session_seal p session message now_secs (binding local_address (some address)))
    info ← lift (session_info p sealed.record_bytes now_secs)
    trusted ← identities.is_trusted_identity address info.remote_identity sending
    unless trusted (untrusted address)
    sessions.save_session address sealed.record_bytes
    pure (record { type = sealed.kind; bytes = sealed.sealed })

  unfoldable pub commit : SessionRecord → ProtocolAddress → ℕ → Exec S (Unit {0})
  commit session address now_secs = do
    info ← lift (session_info p session now_secs)
    trusted ← identities.is_trusted_identity address info.remote_identity receiving
    unless trusted (untrusted address)
    _ ← identities.save_identity address info.remote_identity
    sessions.save_session address session

  unfoldable pub session_decrypt :
      WhisperMessage → ProtocolAddress → ℕ → Option ProtocolAddress → Exec S Bytes
  unfolding binding commit
  session_decrypt message address now_secs local_address = do
    found ← sessions.get_session address
    session ← or_throw found (no_session address)
    opened ← lift (session_open p session message.bytes (binding (some address) local_address))
    commit opened.record_bytes address now_secs
    pure opened.plain

module _ {S : Type 0} (pre_keys : PreKeyStore S) (kyber_pre_keys : KyberPreKeyStore S) where
  -- `oneTimeId === null ? new Uint8Array(0) : (await prekeyStore.getPreKey(oneTimeId)).bytes`.
  unfoldable pub one_time_bytes : Option ℕ → Exec S Bytes
  one_time_bytes none = pure []
  one_time_bytes (some id) = pre_keys.get_pre_key id >>= λ r. pure r.bytes

  unfoldable pub pq_bytes : Option ℕ → Exec S Bytes
  pq_bytes none = pure []
  pq_bytes (some id) = kyber_pre_keys.get_kyber_pre_key id >>= λ r. pure r.bytes

  -- The two statements under `if (consumed.used)`.
  unfoldable pub remove_consumed : Option ℕ → Exec S (Unit {0})
  remove_consumed none = pure tt
  remove_consumed (some id) = pre_keys.remove_pre_key id

  unfoldable pub mark_consumed : Option ℕ → Consumed → Exec S (Unit {0})
  mark_consumed none consumed = pure tt
  mark_consumed (some id) consumed =
      kyber_pre_keys.mark_kyber_pre_key_used id consumed.signed_id consumed.base

  unfoldable pub settle : Option ℕ → Consumed → Exec S (Unit {0})
  unfolding remove_consumed mark_consumed
  settle pq_id consumed =
      if consumed.used
      then (do remove_consumed consumed.one_time_id; mark_consumed pq_id consumed)
      else pure tt

module _ {S : Type 0} (p : Platform) (sessions : SessionStore S) (identities : IdentityKeyStore S)
    (pre_keys : PreKeyStore S) (signed_pre_keys : SignedPreKeyStore S)
    (kyber_pre_keys : KyberPreKeyStore S) where
  -- From the call of `core.sessionOpenFirst` on, with the records at hand.
  unfoldable pub open_with_records :
      PreKeyMessage
      → ProtocolAddress
      → ℕ
      → Option ProtocolAddress
      → Bytes
      → ℕ
      → Bytes
      → Bytes
      → Bytes
      → Bytes
      → Exec S Bytes
  open_with_records message address now_secs local_address identity registration_id existing signed
        one_time pq =
      do
        opened ← lift (
            session_open_first p identity registration_id existing message.bytes signed one_time pq
              (binding (some address) local_address))
        commit p sessions identities opened.record_bytes address now_secs
        settle pre_keys kyber_pre_keys message.info.pq_id opened.consumed
        pure opened.plain

  unfoldable pub session_decrypt_pre_key :
      PreKeyMessage → ProtocolAddress → ℕ → Option ProtocolAddress → Exec S Bytes
  unfolding one_time_bytes pq_bytes
  session_decrypt_pre_key message address now_secs local_address = do
    trusted ← identities.is_trusted_identity address message.info.identity receiving
    unless trusted (untrusted address)
    identity ← identities.get_identity_key
    registration_id ← identities.get_local_registration_id
    existing ← sessions.get_session address
    signed ← signed_pre_keys.get_signed_pre_key message.info.signed_id
    one_time ← one_time_bytes pre_keys kyber_pre_keys message.info.one_time_id
    pq ← pq_bytes pre_keys kyber_pre_keys message.info.pq_id
    open_with_records message address now_secs local_address identity registration_id
        (Option.get_or existing []) signed.bytes one_time pq
