-- ===== src/Wasm/Sessions/Refinement.antt =====
-- The session functions of sdk/ts/src/wasm-api.ts against those of sdk/ts/src/api.ts, whose
-- in-memory store is the view of the separate stores.
use gossveil.Base.{
  ℕ, ◌≡◌, ◌≢◌, refl, Bytes, Option, none, some, [], ◌∷◌, if◌then◌else◌, ◌==◌, length, arith, inl,
  inr, ◌⊎◌,
}
use gossveil.Fault.{Result, ok, err}
use gossveil.Dict.{lookup, insert, text_key_eq, nat_eq}
use gossveil.Bridge.Call.{Platform}
use gossveil.Bridge.Sessions.{session_info, session_seal, session_start, session_open}
use gossveil.Address.{ProtocolAddress, to_string, untrusted, no_session}
use gossveil.Messages.{CiphertextMessage, WhisperMessage}
use gossveil.Records.{PreKeyBundle}
use gossveil.Keys.{equals}
use gossveil.Store.Memory.{trusts}
use gossveil.Session
use gossveil.Session.InMemory.{
  start, encrypt, decrypt, known, start-eq, encrypt-eq, decrypt-eq, store_if_trusted,
}
use gossveil.Wasm.Stores.{Stores, trusted_key, is_trusted, save, load_session, store_session}
use gossveil.Wasm.Sessions.{
  Ciphertext, Bundle, binding, published, commit, process_pre_key_bundle, encrypt_message,
  decrypt_whisper, decrypt_message,
}
use gossveil.Wasm.Sessions.View.{view, known_key, stored_record, established_in, seen}

-- A message of the class API.
abbrev pub as_message : Ciphertext → CiphertextMessage
as_message c = record { type = c.message_type; bytes = c.body }

-- The bundle of the class API that the arguments describe.
abbrev pub as_bundle : Bundle → ProtocolAddress → PreKeyBundle
as_bundle b a = record {
  registration_id = b.registration_id;
  device_id = a.device_id;
  pre_key_id = b.prekey_id;
  pre_key = b.prekey;
  signed_pre_key_id = b.signed_prekey_id;
  signed_pre_key = b.signed_prekey;
  signed_pre_key_signature = b.signed_prekey_signature;
  identity_key = b.identity_key;
  kyber_pre_key_id = b.kyber_prekey_id;
  kyber_pre_key = b.kyber_prekey;
  kyber_pre_key_signature = b.kyber_prekey_signature;
}

trusted_key-eq : (known : Option Bytes) (key : Bytes) → trusted_key known key ≡ trusts known key
unfolding trusted_key trusts equals
trusted_key-eq none key = refl
trusted_key-eq (some known) key = refl

binding-eq : (s r : ProtocolAddress) → binding s r ≡ Session.binding (some s) (some r)
unfolding binding Session.binding
binding-eq s r = refl

-- A session that is found is not an empty record.
pub stored_cases :
    (found : Option Bytes)
    → found ≢ some []
    → (found ≡ none) ⊎ ((x : ℕ) × (r : Bytes) × (found ≡ some (x ∷ r)))
stored_cases none ne = inl refl
stored_cases (some []) ne = absurd (ne refl)
stored_cases (some (x ∷ r)) ne = inr (x, r, refl)

module _ (p : Platform) (a : ProtocolAddress) (now_secs : ℕ) (w : Stores) where
  -- An empty record counts as no session here.
  abbrev pub HasRecord : Type 0
  HasRecord = lookup (to_string a) w.sessions ≢ some []

  -- An end that trusts the key, or refuses the message.
  encrypt_message-eq :
      (message : Bytes) (local : ProtocolAddress)
      → encrypt_message p message a local now_secs now_secs w ≡ (
          if length (stored_record a w) == 0
          then (err (no_session a), w)
          else elim (session_seal p
              (stored_record a w)
              message
              now_secs
              (Session.binding (some local) (some a))) [
                | err e ↦ (err e, w)
                | ok sealed ↦ elim (session_info p sealed.record_bytes now_secs) [
                  | err e ↦ (err e, w)
                  | ok info ↦
                      if trusts (known_key a w) info.remote_identity
                      then (
                        ok (record { message_type = sealed.kind; body = sealed.sealed }),
                        record w { sessions = insert (to_string a) sealed.record_bytes w.sessions },
                      )
                      else (err (untrusted a), w)
                ]
              ])
  unfolding encrypt_message load_session is_trusted trusted_key trusts equals store_session binding
      Session.binding
  encrypt_message-eq message local = ground arith

  -- Unless an empty record is stored for the recipient, `encryptMessage` returns what `sessionEncrypt`
  -- returns, an error included, and leaves stores whose view is the store that it leaves, if the
  -- clock reads the same twice.
  pub encrypt_message-refines :
      (message : Bytes) (local : ProtocolAddress)
      → HasRecord
      → seen as_message (encrypt_message p message a local now_secs now_secs w)
        ≡ encrypt p message a now_secs (some local) (view w)
  encrypt_message-refines message local nonempty = rw (encrypt_message-eq message local) (
      rw (encrypt-eq p a now_secs (view w) message (some local))
        (elim (stored_cases (lookup (to_string a) w.sessions) nonempty) [
          | inl absent ↦ rw absent (ground arith)
          | inr (x, r, found) ↦ rw found (ground arith)
        ]))

  -- The end of an operation that holds a session for `a` and the identity in it.
  abbrev end_if_trusted : {A : Type 0} → Bytes → Bytes → A → Result A × Stores
  end_if_trusted key session result =
      if trusts (known_key a w) key
      then (ok result, established_in a w key session)
      else (err (untrusted a), w)

  -- `existing` is loaded only once the key is trusted.
  process_pre_key_bundle-eq :
      (b : Bundle)
      → process_pre_key_bundle p b a now_secs w ≡ (
          if trusts (known_key a w) b.identity_key
          then (elim (session_start p w.identities.identity.private_key w.identities.registration_id
              (stored_record a w)
              (Session.published (as_bundle b a))
              now_secs) [
                | err e ↦ (err e, w)
                | ok session ↦ (ok tt, established_in a w b.identity_key session)
              ])
          else (err (untrusted a), w))
  unfolding process_pre_key_bundle load_session is_trusted trusted_key trusts equals store_session
      save published Session.published
  process_pre_key_bundle-eq b = ground arith

  pub process_pre_key_bundle-refines :
      (b : Bundle)
      → seen (λ u. u) (process_pre_key_bundle p b a now_secs w)
        ≡ start p (as_bundle b a) a now_secs (view w)
  unfolding store_if_trusted
  process_pre_key_bundle-refines b =
      rw (process_pre_key_bundle-eq b)
        (rw (start-eq p a now_secs (view w) (as_bundle b a)) (ground arith))

  decrypt_whisper-eq :
      (ciphertext : Bytes) (local : ProtocolAddress)
      → decrypt_whisper p (stored_record a w) ciphertext a local now_secs w ≡ (
          if length (stored_record a w) == 0
          then (err (no_session a), w)
          else elim (session_open p
              (stored_record a w)
              ciphertext
              (Session.binding (some a) (some local))) [
                | err e ↦ (err e, w)
                | ok opened ↦ elim (session_info p opened.record_bytes now_secs) [
                  | err e ↦ (err e, w)
                  | ok info ↦ end_if_trusted info.remote_identity opened.record_bytes opened.plain
                ]
              ])
  unfolding decrypt_whisper commit is_trusted trusted_key trusts equals store_session save binding
      Session.binding
  decrypt_whisper-eq ciphertext local = ground arith

  -- Unless an empty record is stored for the sender, `decryptMessage` returns for a later message what
  -- `sessionDecrypt` returns, an error included, and leaves stores whose view is the store that it
  -- leaves.
  pub decrypt_message-refines :
      (m : WhisperMessage) (local : ProtocolAddress)
      → HasRecord
      → seen (λ plain. plain) (decrypt_message p m.bytes 2 a local now_secs w)
        ≡ decrypt p m a now_secs (some local) (view w)
  unfolding decrypt_message load_session store_if_trusted
  decrypt_message-refines m local nonempty = rw (decrypt_whisper-eq m.bytes local) (
      rw (decrypt-eq p a now_secs (view w) m (some local))
        (elim (stored_cases (lookup (to_string a) w.sessions) nonempty) [
          | inl absent ↦ rw absent (ground arith)
          | inr (x, r, found) ↦ rw found (ground arith)
        ]))
