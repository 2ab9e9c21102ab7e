-- ===== src/Group/InMemory.antt =====
-- The group operations of sdk/ts/src/api.ts over the in-memory store.
use gossveil.Base.{◌≡◌, refl, Bytes, Text, Option, none, some, [], arith, inl, inr, Option-cases}
use mathlib.Core.Option
use gossveil.Fault.{ok, err, Result-cases}
use gossveil.Session.InMemory.{Outcome}
use gossveil.Dict.{lookup, insert, text_key_eq}
use gossveil.Bridge.Call.{Platform}
use gossveil.Bridge.Circles.{
  circle_admit, circle_seal, circle_open, note_parse, Note, NoteOpened, NoteSealed,
}
use gossveil.Uuid.{uuid_to_bytes, bytes_to_uuid}
use gossveil.Address.{ProtocolAddress, sender_key_name}
use gossveil.Messages.{SenderKeyDistributionMessage, CiphertextMessage, type_code, sender_key}
use gossveil.Store.Memory.{MemoryStore, memory_sender_keys, save_sender_key, get_sender_key}
use gossveil.Group.{no_sender_key, process_distribution, group_encrypt, group_decrypt}

module _ (to_lower : Text → Text) (sender : ProtocolAddress) (s : MemoryStore) where
  -- The record that the sender has for a distribution id.
  abbrev pub chain : Text → Option Bytes
  chain distribution_id = lookup (sender_key_name to_lower sender distribution_id) s.sender_keys

  abbrev pub with_chain : Text → Bytes → MemoryStore
  with_chain distribution_id r = record s {
    sender_keys = insert (sender_key_name to_lower sender distribution_id) r s.sender_keys;
  }

module _ (to_lower : Text → Text) (p : Platform) (sender : ProtocolAddress) (s : MemoryStore) where
  pub process_distribution-eq :
      (m : SenderKeyDistributionMessage)
      → process_distribution p (memory_sender_keys to_lower) sender m s
        ≡ elim (circle_admit p
            (Option.get_or (chain to_lower sender s m.distribution_id) [])
            m.bytes) [
              | err e ↦ (err e, s)
              | ok r ↦ (ok tt, with_chain to_lower sender s m.distribution_id r)
            ]
  unfolding process_distribution save_sender_key get_sender_key
  process_distribution-eq m = ground arith

  pub group_encrypt-eq :
      (d : Text) (message : Bytes)
      → group_encrypt p (memory_sender_keys to_lower) sender d message s
        ≡ elim (chain to_lower sender s d) [
          | none ↦ (err (no_sender_key sender d), s)
          | some r ↦ elim (uuid_to_bytes d) [
            | err e ↦ (err e, s)
            | ok id ↦ elim (circle_seal p r id message) [
              | err e ↦ (err e, s)
              | ok sealed ↦ (
                ok (record { type = 7; bytes = sealed.note }),
                with_chain to_lower sender s d sealed.record_bytes,
              )
            ]
          ]
        ]
  unfolding group_encrypt save_sender_key get_sender_key
  group_encrypt-eq d message = ground arith

  pub group_decrypt-eq :
      (message : Bytes)
      → group_decrypt p (memory_sender_keys to_lower) sender message s
        ≡ elim (note_parse p message) [
          | err e ↦ (err e, s)
          | ok note ↦ elim (bytes_to_uuid note.circle_id) [
            | err e ↦ (err e, s)
            | ok d ↦ elim (chain to_lower sender s d) [
              | none ↦ (err (no_sender_key sender d), s)
              | some r ↦ elim (circle_open p r message) [
                | err e ↦ (err e, s)
                | ok opened ↦ (ok opened.plain, with_chain to_lower sender s d opened.record_bytes)
              ]
            ]
          ]
        ]
  unfolding group_decrypt save_sender_key get_sender_key
  group_decrypt-eq message = ground arith

  -- A note opened with the record of its circle, and the record that the core put in its place.
  abbrev pub NoteDecrypted : Bytes → Bytes → MemoryStore → Type 0
  NoteDecrypted message plain s' =
      (note : Note) × (d : Text) × (r : Bytes) × (opened : NoteOpened) × (note_parse p message
        ≡ ok note)
      × (bytes_to_uuid note.circle_id ≡ ok d)
      × (chain to_lower sender s d ≡ some r)
      × (circle_open p r message ≡ ok opened)
      × (plain ≡ opened.plain)
      × (s' ≡ with_chain to_lower sender s d opened.record_bytes)

  -- Decrypting a note throws and changes nothing, or the core opened it with the record of the
  -- sender for the circle that the note names, and of the store that record alone is replaced.
  pub group_decrypt_outcome :
      (message : Bytes)
      → Outcome s
          (NoteDecrypted message)
          (group_decrypt p (memory_sender_keys to_lower) sender message s)
  group_decrypt_outcome message = rw group_decrypt-eq (elim (Result-cases (note_parse p message)) [
    | inr (f, e) ↦ rw e refl
    | inl (note, e) ↦ rw e (elim (Result-cases (bytes_to_uuid note.circle_id)) [
      | inr (f, e1) ↦ rw e1 refl
      | inl (d, e1) ↦ rw e1 (elim (Option-cases (chain to_lower sender s d)) [
        | inl e2 ↦ rw e2 refl
        | inr (r, e2) ↦ rw e2 (elim (Result-cases (circle_open p r message)) [
          | inr (f, e3) ↦ rw e3 refl
          | inl (opened, e3) ↦ rw e3 (note, d, r, opened, e, e1, e2, e3, refl, refl)
        ])
      ])
    ])
  ])

  abbrev pub NoteSent : Text → Bytes → CiphertextMessage → MemoryStore → Type 0
  NoteSent d message sent s' =
      (r : Bytes) × (id : Bytes) × (sealed : NoteSealed) × (chain to_lower sender s d ≡ some r)
      × (uuid_to_bytes d ≡ ok id)
      × (circle_seal p r id message ≡ ok sealed)
      × (sent.type ≡ type_code sender_key)
      × (sent.bytes ≡ sealed.note)
      × (s' ≡ with_chain to_lower sender s d sealed.record_bytes)

  -- Encrypting for a group throws and changes nothing, or the core sealed the message with the
  -- record of the sender for the distribution id, which is a UUID, and of the store that record
  -- alone is replaced.
  pub group_encrypt_outcome :
      (d : Text) (message : Bytes)
      → Outcome s
          (NoteSent d message)
          (group_encrypt p (memory_sender_keys to_lower) sender d message s)
  unfolding type_code
  group_encrypt_outcome d message =
      rw group_encrypt-eq (elim (Option-cases (chain to_lower sender s d)) [
        | inl e ↦ rw e refl
        | inr (r, e) ↦ rw e (elim (Result-cases (uuid_to_bytes d)) [
          | inr (f, e1) ↦ rw e1 refl
          | inl (id, e1) ↦ rw e1 (elim (Result-cases (circle_seal p r id message)) [
            | inr (f, e2) ↦ rw e2 refl
            | inl (sealed, e2) ↦ rw e2 (r, id, sealed, e, e1, e2, refl, refl, refl)
          ])
        ])
      ])
