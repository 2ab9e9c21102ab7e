-- ===== src/Session/Awaits.antt =====
-- The session operations of sdk/ts/src/api.ts cut at their awaits.
use gossveil.Base.{ℕ, Bytes, Option, none, some, [], if◌then◌else◌}
use mathlib.Core.Option
use gossveil.Async.{Task, await, pure, lift, or_throw, unless, ◌>>=◌, ◌>>◌}
use gossveil.Bridge.Call.{Platform}
use gossveil.Bridge.Sessions.{
  Consumed, session_info, session_start, session_seal, session_open, session_open_first,
}
use gossveil.Address.{ProtocolAddress, untrusted, no_session}
use gossveil.Records.{SessionRecord, PreKeyBundle}
use gossveil.Messages.{CiphertextMessage, WhisperMessage, PreKeyMessage}
use gossveil.Store.{
  sending, receiving, SessionStore, IdentityKeyStore, PreKeyStore, SignedPreKeyStore,
  KyberPreKeyStore,
}
use gossveil.Session.{binding, published}

module _ {S : Type 0} (p : Platform) (sessions : SessionStore S)
    (identities : IdentityKeyStore S) where
  unfoldable pub process_bundle_task : PreKeyBundle → ProtocolAddress → ℕ → Task S (Unit {0})
  unfolding published
  process_bundle_task bundle address now_secs = do
    trusted ← await (identities.is_trusted_identity address bundle.identity_key sending)
    unless trusted (untrusted address)
    identity ← await identities.get_identity_key
    registration_id ← await identities.get_local_registration_id
    existing ← await (sessions.get_session address)
    session ← lift (
        session_start p identity registration_id (Option.get_or existing []) (published bundle)
          now_secs)
    _ ← await (identities.save_identity address bundle.identity_key)
    await (sessions.save_session address session)

  unfoldable pub session_encrypt_task :
      Bytes → ProtocolAddress → ℕ → Option ProtocolAddress → Task S CiphertextMessage
  unfolding binding
  session_encrypt_task message address now_secs local_address = do
    found ← await (sessions.get_session address)
    session ← or_throw found (no_session address)
    sealed ← lift (session_seal p session message now_secs (binding local_address (some address)))
    info ← lift (session_info p sealed.record_bytes now_secs)
    trusted ← await (identities.is_trusted_identity address info.remote_identity sending)
    unless trusted (untrusted address)
    await (sessions.save_session address sealed.record_bytes)
    pure (record { type = sealed.kind; bytes = sealed.sealed })

  unfoldable pub commit_task : SessionRecord → ProtocolAddress → ℕ → Task S (Unit {0})
  commit_task session address now_secs = do
    info ← lift (session_info p session now_secs)
    trusted ← await (identities.is_trusted_identity address info.remote_identity receiving)
    unless trusted (untrusted address)
    _ ← await (identities.save_identity address info.remote_identity)
    await (sessions.save_session address session)

  unfoldable pub session_decrypt_task :
      WhisperMessage → ProtocolAddress → ℕ → Option ProtocolAddress → Task S Bytes
  unfolding binding commit_task
  session_decrypt_task message address now_secs local_address = do
    found ← await (sessions.get_session address)
    session ← or_throw found (no_session address)
    opened ← lift (session_open p session message.bytes (binding (some address) local_address))
    commit_task opened.record_bytes address now_secs
    pure opened.plain

module _ {S : Type 0} (pre_keys : PreKeyStore S) (kyber_pre_keys : KyberPreKeyStore S) where
  unfoldable pub one_time_bytes_task : Option ℕ → Task S Bytes
  one_time_bytes_task none = pure []
  one_time_bytes_task (some id) = await (pre_keys.get_pre_key id) >>= λ r. pure r.bytes

  unfoldable pub pq_bytes_task : Option ℕ → Task S Bytes
  pq_bytes_task none = pure []
  pq_bytes_task (some id) = await (kyber_pre_keys.get_kyber_pre_key id) >>= λ r. pure r.bytes

  unfoldable pub remove_consumed_task : Option ℕ → Task S (Unit {0})
  remove_consumed_task none = pure tt
  remove_consumed_task (some id) = await (pre_keys.remove_pre_key id)

  unfoldable pub mark_consumed_task : Option ℕ → Consumed → Task S (Unit {0})
  mark_consumed_task none consumed = pure tt
  mark_consumed_task (some id) consumed =
      await (kyber_pre_keys.mark_kyber_pre_key_used id consumed.signed_id consumed.base)

  unfoldable pub settle_task : Option ℕ → Consumed → Task S (Unit {0})
  unfolding remove_consumed_task mark_consumed_task
  settle_task pq_id consumed =
      if consumed.used
      then (do remove_consumed_task consumed.one_time_id; mark_consumed_task pq_id consumed)
      else pure tt

module _ {S : Type 0} (p : Platform) (sessions : SessionStore S) (identities : IdentityKeyStore S)
    (pre_keys : PreKeyStore S) (signed_pre_keys : SignedPreKeyStore S)
    (kyber_pre_keys : KyberPreKeyStore S) where
  unfoldable pub open_with_records_task :
      PreKeyMessage
      → ProtocolAddress
      → ℕ
      → Option ProtocolAddress
      → Bytes
      → ℕ
      → Bytes
      → Bytes
      → Bytes
      → Bytes
      → Task S Bytes
  open_with_records_task message address now_secs local_address identity registration_id existing
        signed one_time pq =
      do
        opened ← lift (
            session_open_first p identity registration_id existing message.bytes signed one_time pq
              (binding (some address) local_address))
        commit_task p sessions identities opened.record_bytes address now_secs
        settle_task pre_keys kyber_pre_keys message.info.pq_id opened.consumed
        pure opened.plain

  unfoldable pub session_decrypt_pre_key_task :
      PreKeyMessage → ProtocolAddress → ℕ → Option ProtocolAddress → Task S Bytes
  unfolding one_time_bytes_task pq_bytes_task
  session_decrypt_pre_key_task message address now_secs local_address = do
    trusted ← await (identities.is_trusted_identity address message.info.identity receiving)
    unless trusted (untrusted address)
    identity ← await identities.get_identity_key
    registration_id ← await identities.get_local_registration_id
    existing ← await (sessions.get_session address)
    signed ← await (signed_pre_keys.get_signed_pre_key message.info.signed_id)
    one_time ← one_time_bytes_task pre_keys kyber_pre_keys message.info.one_time_id
    pq ← pq_bytes_task pre_keys kyber_pre_keys message.info.pq_id
    open_with_records_task message address now_secs local_address identity registration_id
        (Option.get_or existing []) signed.bytes one_time pq
