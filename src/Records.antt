-- ===== src/Records.antt =====
-- The record classes of sdk/ts/src/api.ts: published keys, sessions and sender keys.
use gossveil.Base.{ℕ, Bool, Bytes, Option, codes, to_uint32, if◌then◌else◌}
use gossveil.Fault.{Result, ok, err, ◌>>=◌, GossveilError, fault, invalid_state}
use gossveil.Bridge.Call.{Platform}
use gossveil.Bridge.Keys.{
  OneTimeParsed, SignedParsed, one_time_record, one_time_parse, signed_record, signed_parse,
  pq_record, pq_record_parse,
}
use gossveil.Bridge.Sessions.{SessionInfo, session_info, session_shelve, session_ratchet_is}
use gossveil.Keys.{PublicKey, PrivateKey, KemKeyPair}

-- A `PreKeyRecord` keeps the bytes and what the core parsed out of them.
pub record PreKeyRecord : Type 0 where
  pub bytes : Bytes
  pub parsed : OneTimeParsed

-- `SignedPreKeyRecord` and `KyberPreKeyRecord` have the same fields.
pub record SignedPreKeyRecord : Type 0 where
  pub bytes : Bytes
  pub parsed : SignedParsed

abbrev pub KyberPreKeyRecord : Type 0
KyberPreKeyRecord = SignedPreKeyRecord

abbrev pub SessionRecord : Type 0
SessionRecord = Bytes

abbrev pub SenderKeyRecord : Type 0
SenderKeyRecord = Bytes

pub record PreKeyBundle : Type 0 where
  pub registration_id : ℕ
  pub device_id : ℕ
  pub pre_key_id : Option ℕ
  pub pre_key : Option PublicKey
  pub signed_pre_key_id : ℕ
  pub signed_pre_key : PublicKey
  pub signed_pre_key_signature : Bytes
  pub identity_key : PublicKey
  pub kyber_pre_key_id : ℕ
  pub kyber_pre_key : Bytes
  pub kyber_pre_key_signature : Bytes

no_current_session : GossveilError
no_current_session = fault invalid_state (codes "no current session")

module _ (p : Platform) where
  -- The private constructor behind `deserialize` and `new`.
  unfoldable pub pre_key_record : Bytes → Result PreKeyRecord
  pre_key_record bytes =
      one_time_parse p bytes >>= λ parsed. ok (record { bytes = bytes; parsed = parsed })

  unfoldable pub new_pre_key_record : ℕ → PrivateKey → Result PreKeyRecord
  unfolding pre_key_record
  new_pre_key_record id secret = one_time_record p (to_uint32 id) secret >>= pre_key_record

  unfoldable pub signed_pre_key_record : Bytes → Result SignedPreKeyRecord
  signed_pre_key_record bytes =
      signed_parse p bytes >>= λ parsed. ok (record { bytes = bytes; parsed = parsed })

  unfoldable pub new_signed_pre_key_record : ℕ → ℕ → PrivateKey → Bytes → Result SignedPreKeyRecord
  unfolding signed_pre_key_record
  new_signed_pre_key_record id timestamp secret signature =
      signed_record p (to_uint32 id) timestamp secret signature >>= signed_pre_key_record

  unfoldable pub kyber_pre_key_record : Bytes → Result KyberPreKeyRecord
  kyber_pre_key_record bytes =
      pq_record_parse p bytes >>= λ parsed. ok (record { bytes = bytes; parsed = parsed })

  unfoldable pub new_kyber_pre_key_record : ℕ → ℕ → KemKeyPair → Bytes → Result KyberPreKeyRecord
  unfolding kyber_pre_key_record
  new_kyber_pre_key_record id timestamp pair signature =
      pq_record p (to_uint32 id) timestamp pair.public_key pair.secret_key signature
      >>= kyber_pre_key_record

  unfoldable pub timestamp : SignedPreKeyRecord → ℕ
  timestamp r = p.to_number r.parsed.stamp

  -- `SessionRecord.deserialize`.
  unfoldable pub deserialize_session : Bytes → Result SessionRecord
  deserialize_session bytes = session_info p bytes 0 >>= λ _. ok bytes

  -- `archiveCurrentState`, which replaces the bytes of the record.
  unfoldable pub archive_current_state : SessionRecord → Result SessionRecord
  archive_current_state session = session_shelve p session

  unfoldable pub has_current_state : SessionRecord → ℕ → Result Bool
  has_current_state session now_secs = session_info p session now_secs >>= λ info. ok info.usable

  unfoldable pub current_ratchet_key_matches : SessionRecord → PublicKey → Result Bool
  current_ratchet_key_matches session key = session_ratchet_is p session key

  unfoldable pub live : SessionRecord → ℕ → Result SessionInfo
  unfolding no_current_session
  live session now_secs = do
    info ← session_info p session now_secs
    if info.has_live then ok info else err no_current_session

  unfoldable pub remote_registration_id : SessionRecord → ℕ → Result ℕ
  unfolding live
  remote_registration_id session now_secs =
      live session now_secs >>= λ info. ok info.remote_registration_id

  unfoldable pub local_registration_id : SessionRecord → ℕ → Result ℕ
  unfolding live
  local_registration_id session now_secs =
      live session now_secs >>= λ info. ok info.local_registration_id

  unfoldable pub session_version : SessionRecord → ℕ → Result ℕ
  unfolding live
  session_version session now_secs = live session now_secs >>= λ info. ok info.version

  unfoldable pub remote_identity_key : SessionRecord → ℕ → Result PublicKey
  unfolding live
  remote_identity_key session now_secs = live session now_secs >>= λ info. ok info.remote_identity

  unfoldable pub local_identity_key : SessionRecord → ℕ → Result PublicKey
  unfolding live
  local_identity_key session now_secs = live session now_secs >>= λ info. ok info.local_identity
