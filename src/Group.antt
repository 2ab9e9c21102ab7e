-- ===== src/Group.antt =====
-- The group operations of sdk/ts/src/api.ts: sender keys per sender and distribution id.
pub mod InMemory
pub mod Delivery
pub mod Awaits
use gossveil.Base.{ℕ, Bytes, Text, Option, none, some, [], codes, ◌++◌}
use mathlib.Core.Option
use gossveil.Fault.{Result, GossveilError, fault, session_not_found}
use gossveil.Exec.{Exec, pure, lift, or_throw, ◌>>=◌, ◌>>◌}
use gossveil.Bridge.Call.{Platform}
use gossveil.Bridge.Circles.{
  Announced, NoteSealed, NoteOpened, Note, circle_announce, circle_admit, circle_seal, circle_open,
  note_parse,
}
use gossveil.Uuid.{uuid_to_bytes, bytes_to_uuid}
use gossveil.Address.{ProtocolAddress, to_string}
use gossveil.Messages.{
  CiphertextMessage, SenderKeyDistributionMessage, distribution_message, type_code, sender_key,
}
use gossveil.Store.{SenderKeyStore}

unfoldable pub no_sender_key : ProtocolAddress → Text → GossveilError
no_sender_key sender distribution_id =
    fault session_not_found
      (codes "no sender key for " ++ (to_string sender ++ (codes " in " ++ distribution_id)))

module _ {S : Type 0} (p : Platform) (store : SenderKeyStore S) where
  -- `SenderKeyDistributionMessage.create`.
  unfoldable pub create_distribution : ProtocolAddress → Text → Exec S SenderKeyDistributionMessage
  create_distribution sender distribution_id = do
    existing ← store.get_sender_key sender distribution_id
    circle_id ← lift (uuid_to_bytes distribution_id)
    announced ← lift (circle_announce p (Option.get_or existing []) circle_id)
    store.save_sender_key sender distribution_id announced.record_bytes
    lift (distribution_message p announced.announce)

  -- `processSenderKeyDistributionMessage`.
  unfoldable pub process_distribution :
      ProtocolAddress → SenderKeyDistributionMessage → Exec S (Unit {0})
  process_distribution sender message = do
    existing ← store.get_sender_key sender message.distribution_id
    admitted ← lift (circle_admit p (Option.get_or existing []) message.bytes)
    store.save_sender_key sender message.distribution_id admitted

  unfoldable pub group_encrypt : ProtocolAddress → Text → Bytes → Exec S CiphertextMessage
  unfolding type_code
  group_encrypt sender distribution_id message = do
    found ← store.get_sender_key sender distribution_id
    session ← or_throw found (no_sender_key sender distribution_id)
    circle_id ← lift (uuid_to_bytes distribution_id)
    sealed ← lift (circle_seal p session circle_id message)
    store.save_sender_key sender distribution_id sealed.record_bytes
    pure (record { type = type_code sender_key; bytes = sealed.note })

  unfoldable pub group_decrypt : ProtocolAddress → Bytes → Exec S Bytes
  group_decrypt sender message = do
    note ← lift (note_parse p message)
    distribution_id ← lift (bytes_to_uuid note.circle_id)
    found ← store.get_sender_key sender distribution_id
    session ← or_throw found (no_sender_key sender distribution_id)
    opened ← lift (circle_open p session message)
    store.save_sender_key sender distribution_id opened.record_bytes
    pure opened.plain
