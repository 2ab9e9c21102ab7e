-- ===== src/Wasm/Groups/Refinement.antt =====
-- The group functions of sdk/ts/src/wasm-api.ts against those of sdk/ts/src/api.ts.
use gossveil.Base.{◌≡◌, ◌≢◌, refl, Bytes, Text, some, [], arith, inl, inr}
use gossveil.Fault.{Result-cases}
use gossveil.Dict.{lookup, text_key_eq}
use gossveil.Bridge.Call.{Platform}
use gossveil.Address.{ProtocolAddress, sender_key_name}
use gossveil.Messages.{CiphertextMessage, type_code, sender_key}
use gossveil.Store.Memory.{memory_sender_keys, get_sender_key, save_sender_key}
use gossveil.Group.{no_sender_key, group_encrypt, group_decrypt}
use gossveil.Wasm.Stores.{Stores, load_sender_key, store_sender_key}
use gossveil.Wasm.Groups.{missing_sender_key, encrypt_group_message, decrypt_group_message}
use gossveil.Uuid.{bytes_to_uuid}
use gossveil.Bridge.Circles.{note_parse}
use gossveil.Wasm.Sessions.Refinement.{stored_cases}
use gossveil.Wasm.Sessions.View.{view, seen}

module _ (p : Platform) (to_lower : Text → Text) (w : Stores) where
  abbrev pub as_note : Bytes → CiphertextMessage
  as_note note = record { type = type_code sender_key; bytes = note }

  -- No empty record is stored for the sender and the id.
  abbrev pub NotEmpty : ProtocolAddress → Text → Type 0
  NotEmpty a id = lookup (sender_key_name to_lower a id) w.sender_keys ≢ some []

  -- Unless an empty record is stored, `encryptGroupMessage` returns the bytes of the message that
  -- `groupEncrypt` returns, or its error, and leaves stores whose view is the store that it leaves.
  encrypt_group_message-refines :
      (a : ProtocolAddress) (id : Text) (plaintext : Bytes)
      → NotEmpty a id
      → seen as_note (encrypt_group_message p to_lower a id plaintext w)
        ≡ group_encrypt p (memory_sender_keys to_lower) a id plaintext (view w)
  unfolding encrypt_group_message group_encrypt load_sender_key store_sender_key get_sender_key
      save_sender_key missing_sender_key no_sender_key
  encrypt_group_message-refines a id plaintext h =
      elim (stored_cases (lookup (sender_key_name to_lower a id) w.sender_keys) h) [
        | inl e ↦ rw e refl
        | inr (x, r, e) ↦ rw e (ground arith)
      ]

  -- Unless an empty record is stored under the name, `decryptGroupMessage` returns what
  -- `groupDecrypt` returns, an error included, and leaves stores whose view is the store that it leaves.
  decrypt_group_message-refines :
      (a : ProtocolAddress) (ciphertext : Bytes)
      → ((id : Text) → NotEmpty a id)
      → seen (λ (b : Bytes). b) (decrypt_group_message p to_lower a ciphertext w)
        ≡ group_decrypt p (memory_sender_keys to_lower) a ciphertext (view w)
  unfolding decrypt_group_message group_decrypt load_sender_key store_sender_key get_sender_key
      save_sender_key missing_sender_key no_sender_key
  decrypt_group_message-refines a ciphertext h = elim (Result-cases (note_parse p ciphertext)) [
    | inr (f, e) ↦ rw e refl
    | inl (note, e) ↦ rw e (elim (Result-cases (bytes_to_uuid note.circle_id)) [
      | inr (f, e') ↦ rw e' refl
      | inl (id, e') ↦
          rw e' (elim (stored_cases (lookup (sender_key_name to_lower a id) w.sender_keys) (h id)) [
            | inl absent ↦ rw absent refl
            | inr (x, r, found) ↦ rw found (ground arith)
          ])
    ])
  ]

  -- Unless an empty record is stored for the sender, `encryptGroupMessage` returns the bytes of the
  -- message that `groupEncrypt` returns and `decryptGroupMessage` what `groupDecrypt` returns, errors
  -- included, and each leaves stores whose view is the store that the other API leaves.
  pub group_messages-refine :
      (a : ProtocolAddress) (id : Text) (plaintext ciphertext : Bytes)
      → ((id : Text) → NotEmpty a id)
      → (seen as_note (encrypt_group_message p to_lower a id plaintext w)
          ≡ group_encrypt p (memory_sender_keys to_lower) a id plaintext (view w))
        × (seen (λ (b : Bytes). b) (decrypt_group_message p to_lower a ciphertext w)
            ≡ group_decrypt p (memory_sender_keys to_lower) a ciphertext (view w))
  group_messages-refine a id plaintext ciphertext h = (
    encrypt_group_message-refines a id plaintext (h id),
    decrypt_group_message-refines a ciphertext h,
  )
