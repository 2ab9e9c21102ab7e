-- ===== src/Group/Awaits.antt =====
-- The group operations of sdk/ts/src/api.ts cut at their awaits.
use gossveil.Base.{Bytes, Text, []}
use mathlib.Core.Option
use gossveil.Async.{Task, await, pure, lift, or_throw, ◌>>=◌, ◌>>◌}
use gossveil.Bridge.Call.{Platform}
use gossveil.Bridge.Circles.{circle_announce, circle_admit, circle_seal, circle_open, note_parse}
use gossveil.Uuid.{uuid_to_bytes, bytes_to_uuid}
use gossveil.Address.{ProtocolAddress}
use gossveil.Messages.{
  CiphertextMessage, SenderKeyDistributionMessage, distribution_message, type_code, sender_key,
}
use gossveil.Store.{SenderKeyStore}
use gossveil.Group.{no_sender_key}

module _ {S : Type 0} (p : Platform) (store : SenderKeyStore S) where
  unfoldable pub create_distribution_task :
      ProtocolAddress → Text → Task S SenderKeyDistributionMessage
  create_distribution_task sender distribution_id = do
    existing ← await (store.get_sender_key sender distribution_id)
    circle_id ← lift (uuid_to_bytes distribution_id)
    announced ← lift (circle_announce p (Option.get_or existing []) circle_id)
    await (store.save_sender_key sender distribution_id announced.record_bytes)
    lift (distribution_message p announced.announce)

  unfoldable pub process_distribution_task :
      ProtocolAddress → SenderKeyDistributionMessage → Task S (Unit {0})
  process_distribution_task sender message = do
    existing ← await (store.get_sender_key sender message.distribution_id)
    admitted ← lift (circle_admit p (Option.get_or existing []) message.bytes)
    await (store.save_sender_key sender message.distribution_id admitted)

  unfoldable pub group_encrypt_task : ProtocolAddress → Text → Bytes → Task S CiphertextMessage
  unfolding type_code
  group_encrypt_task sender distribution_id message = do
    found ← await (store.get_sender_key sender distribution_id)
    session ← or_throw found (no_sender_key sender distribution_id)
    circle_id ← lift (uuid_to_bytes distribution_id)
    sealed ← lift (circle_seal p session circle_id message)
    await (store.save_sender_key sender distribution_id sealed.record_bytes)
    pure (record { type = type_code sender_key; bytes = sealed.note })

  unfoldable pub group_decrypt_task : ProtocolAddress → Bytes → Task S Bytes
  group_decrypt_task sender message = do
    note ← lift (note_parse p message)
    distribution_id ← lift (bytes_to_uuid note.circle_id)
    found ← await (store.get_sender_key sender distribution_id)
    session ← or_throw found (no_sender_key sender distribution_id)
    opened ← lift (circle_open p session message)
    await (store.save_sender_key sender distribution_id opened.record_bytes)
    pure opened.plain
