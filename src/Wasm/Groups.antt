-- ===== src/Wasm/Groups.antt =====
-- The group functions of sdk/ts/src/wasm-api.ts.
pub mod Refinement
use gossveil.Base.{not, Text, Bytes, codes, ◌++◌, ◌==◌, length}
use gossveil.Fault.{GossveilError, fault, session_not_found}
use gossveil.Exec.{Exec, pure, lift, unless, ◌>>=◌, ◌>>◌}
use gossveil.Bridge.Call.{Platform}
use gossveil.Bridge.Circles.{
  circle_announce, circle_admit, circle_seal, circle_open, announce_parse, note_parse,
}
use gossveil.Uuid.{uuid_to_bytes, bytes_to_uuid}
use gossveil.Address.{ProtocolAddress, to_string}
use gossveil.Wasm.Stores.{Stores, load_sender_key, store_sender_key}

unfoldable pub missing_sender_key : ProtocolAddress → Text → GossveilError
missing_sender_key address distribution_id =
    fault session_not_found
      (codes "no sender key for " ++ (to_string address ++ (codes " in " ++ distribution_id)))

-- `to_lower` is the runtime's `toLowerCase`.
module _ (p : Platform) (to_lower : Text → Text) where
  unfoldable pub create_sender_key_distribution : ProtocolAddress → Text → Exec Stores Bytes
  create_sender_key_distribution local_address distribution_id = do
    existing ← load_sender_key to_lower local_address distribution_id
    circle_id ← lift (uuid_to_bytes distribution_id)
    announced ← lift (circle_announce p existing circle_id)
    store_sender_key to_lower local_address distribution_id announced.record_bytes
    pure announced.announce

  unfoldable pub process_sender_key_distribution : ProtocolAddress → Bytes → Exec Stores (Unit {0})
  process_sender_key_distribution sender distribution_message = do
    parsed ← lift (announce_parse p distribution_message)
    distribution_id ← lift (bytes_to_uuid parsed.circle_id)
    existing ← load_sender_key to_lower sender distribution_id
    record_bytes ← lift (circle_admit p existing distribution_message)
    store_sender_key to_lower sender distribution_id record_bytes

  unfoldable pub encrypt_group_message : ProtocolAddress → Text → Bytes → Exec Stores Bytes
  encrypt_group_message local_address distribution_id plaintext = do
    existing ← load_sender_key to_lower local_address distribution_id
    unless (not (length existing == 0)) (missing_sender_key local_address distribution_id)
    circle_id ← lift (uuid_to_bytes distribution_id)
    sealed ← lift (circle_seal p existing circle_id plaintext)
    store_sender_key to_lower local_address distribution_id sealed.record_bytes
    pure sealed.note

  unfoldable pub decrypt_group_message : ProtocolAddress → Bytes → Exec Stores Bytes
  decrypt_group_message sender ciphertext = do
    note ← lift (note_parse p ciphertext)
    distribution_id ← lift (bytes_to_uuid note.circle_id)
    existing ← load_sender_key to_lower sender distribution_id
    unless (not (length existing == 0)) (missing_sender_key sender distribution_id)
    opened ← lift (circle_open p existing ciphertext)
    store_sender_key to_lower sender distribution_id opened.record_bytes
    pure opened.plain
