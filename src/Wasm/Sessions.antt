-- ===== src/Wasm/Sessions.antt =====
-- The session functions of sdk/ts/src/wasm-api.ts. Where the source reads the clock twice, both
pub mod View
pub mod Refinement
pub mod Prekeys
pub mod Opener
-- readings are arguments.
use gossveil.Base.{
  ℕ, not, Bytes, Text, Option, none, some, [], codes, ◌++◌, decimal, ◌==◌, if◌then◌else◌, length,
}
use gossveil.Fault.{
  Result, ok, err, GossveilError, fault, session_not_found, invalid_key_id, invalid_message,
}
use gossveil.Exec.{Exec, pure, throw, lift, gets, or_throw, unless, ◌>>=◌, ◌>>◌}
use gossveil.Bridge.Call.{Platform}
use gossveil.Bridge.Sessions.{
  Binding, Published, OpenedFirst, Consumed, OpenerInfo, session_info, session_start, session_seal,
  session_open, session_open_first, opener_parse,
}
use gossveil.Address.{ProtocolAddress, to_string, untrusted, no_session}
use gossveil.Keys.{PublicKey}
use gossveil.Wasm.Stores.{
  Stores, is_trusted, save, load_session, store_session, export_pre_key, remove_pre_key,
  export_signed_pre_key, export_kyber_pre_key, mark_used,
}

pub record Ciphertext : Type 0 where
  pub message_type : ℕ
  pub body : Bytes

unfoldable pub binding : ProtocolAddress → ProtocolAddress → Binding
binding sender recipient = record {
  sender = some sender.name;
  sender_device = sender.device_id;
  recipient = some recipient.name;
  recipient_device = recipient.device_id;
}

unfoldable pub unknown_message_type : ℕ → GossveilError
unknown_message_type message_type =
    fault invalid_message (codes "unknown message type " ++ decimal message_type)

unfoldable pub no_prekey : ℕ → GossveilError
no_prekey id = fault invalid_key_id (codes "no prekey " ++ decimal id)

unfoldable pub no_signed_prekey : ℕ → GossveilError
no_signed_prekey id = fault invalid_key_id (codes "no signed prekey " ++ decimal id)

unfoldable pub no_kyber_prekey : ℕ → GossveilError
no_kyber_prekey id = fault invalid_key_id (codes "no kyber prekey " ++ decimal id)

-- The arguments of `processPreKeyBundle` that describe the bundle.
pub record Bundle : Type 0 where
  pub registration_id : ℕ
  pub identity_key : PublicKey
  pub signed_prekey_id : ℕ
  pub signed_prekey : PublicKey
  pub signed_prekey_signature : Bytes
  pub prekey_id : Option ℕ
  pub prekey : Option Bytes
  pub kyber_prekey_id : ℕ
  pub kyber_prekey : Bytes
  pub kyber_prekey_signature : Bytes

unfoldable pub published : Bundle → ProtocolAddress → Published
published b recipient = record {
  registration_id = b.registration_id;
  device = recipient.device_id;
  one_time_id = b.prekey_id;
  one_time = b.prekey;
  signed_id = b.signed_prekey_id;
  signed_key = b.signed_prekey;
  signed_signature = b.signed_prekey_signature;
  identity = b.identity_key;
  pq_id = b.kyber_prekey_id;
  pq_key = b.kyber_prekey;
  pq_signature = b.kyber_prekey_signature;
}

-- `export` of a named record, or an error.
pub one_time_record : Option ℕ → Exec Stores Bytes
one_time_record none = pure []
one_time_record (some id) = do found ← export_pre_key id; or_throw found (no_prekey id)

pub pq_record : Option ℕ → Exec Stores Bytes
pq_record none = pure []
pq_record (some id) = do found ← export_kyber_pre_key id; or_throw found (no_kyber_prekey id)

drop_one_time : Option ℕ → Exec Stores (Unit {0})
drop_one_time none = pure tt
drop_one_time (some id) = remove_pre_key id

mark_pq : Option ℕ → Exec Stores (Unit {0})
mark_pq none = pure tt
mark_pq (some id) = mark_used id

-- The two statements under `if (consumed.used)`.
unfoldable pub consume : Option ℕ → Consumed → Exec Stores (Unit {0})
unfolding drop_one_time mark_pq
consume pq_id consumed =
    if consumed.used then (drop_one_time consumed.one_time_id >> mark_pq pq_id) else pure tt

module _ (p : Platform) where
  unfoldable pub commit : Bytes → ProtocolAddress → ℕ → Exec Stores (Unit {0})
  commit record_bytes sender now_secs = do
    info ← lift (session_info p record_bytes now_secs)
    trusted ← is_trusted sender info.remote_identity
    unless trusted (untrusted sender)
    _ ← save sender info.remote_identity
    store_session sender record_bytes

  unfoldable pub process_pre_key_bundle : Bundle → ProtocolAddress → ℕ → Exec Stores (Unit {0})
  unfolding published
  process_pre_key_bundle b recipient now_secs = do
    trusted ← is_trusted recipient b.identity_key
    unless trusted (untrusted recipient)
    identities ← gets (λ w. w.identities)
    existing ← load_session recipient
    record_bytes ← lift (
        session_start p identities.identity.private_key identities.registration_id existing
          (published b recipient) now_secs)
    _ ← save recipient b.identity_key
    store_session recipient record_bytes

  unfoldable pub encrypt_message :
      Bytes → ProtocolAddress → ProtocolAddress → ℕ → ℕ → Exec Stores Ciphertext
  unfolding binding
  encrypt_message plaintext recipient local_address seal_secs check_secs = do
    existing ← load_session recipient
    unless (not (length existing == 0)) (no_session recipient)
    sealed ← lift (session_seal p existing plaintext seal_secs (binding local_address recipient))
    info ← lift (session_info p sealed.record_bytes check_secs)
    trusted ← is_trusted recipient info.remote_identity
    unless trusted (untrusted recipient)
    store_session recipient sealed.record_bytes
    pure (record { message_type = sealed.kind; body = sealed.sealed })

  -- From the call of `core.sessionOpenFirst` on, with the records at hand.
  unfoldable pub open_with_records :
      OpenerInfo
      → Bytes
      → Bytes
      → ProtocolAddress
      → ProtocolAddress
      → ℕ
      → Bytes
      → Bytes
      → Bytes
      → Exec Stores Bytes
  open_with_records info existing ciphertext sender local_address now_secs signed one_time pq = do
    identities ← gets (λ w. w.identities)
    opened ← lift (
        session_open_first p identities.identity.private_key identities.registration_id existing
          ciphertext signed one_time pq (binding sender local_address))
    commit opened.record_bytes sender now_secs
    consume info.pq_id opened.consumed
    pure opened.plain

  -- The branch of `decryptMessage` for a first message.
  unfoldable pub decrypt_opener :
      Bytes → Bytes → ProtocolAddress → ProtocolAddress → ℕ → Exec Stores Bytes
  unfolding one_time_record pq_record
  decrypt_opener existing ciphertext sender local_address now_secs = do
    (info, inner) ← lift (opener_parse p ciphertext)
    trusted ← is_trusted sender info.identity
    unless trusted (untrusted sender)
    found ← export_signed_pre_key info.signed_id
    signed ← or_throw found (no_signed_prekey info.signed_id)
    one_time ← one_time_record info.one_time_id
    pq ← pq_record info.pq_id
    open_with_records info existing ciphertext sender local_address now_secs signed one_time pq

  -- The branch for a later message.
  unfoldable pub decrypt_whisper :
      Bytes → Bytes → ProtocolAddress → ProtocolAddress → ℕ → Exec Stores Bytes
  unfolding binding
  decrypt_whisper existing ciphertext sender local_address now_secs = do
    unless (not (length existing == 0)) (no_session sender)
    opened ← lift (session_open p existing ciphertext (binding sender local_address))
    commit opened.record_bytes sender now_secs
    pure opened.plain

  unfoldable pub decrypt_message :
      Bytes → ℕ → ProtocolAddress → ProtocolAddress → ℕ → Exec Stores Bytes
  decrypt_message ciphertext message_type sender local_address now_secs = do
    existing ← load_session sender
    if message_type == 3
        then decrypt_opener existing ciphertext sender local_address now_secs
        else if message_type == 2
        then decrypt_whisper existing ciphertext sender local_address now_secs
        else throw (unknown_message_type message_type)
