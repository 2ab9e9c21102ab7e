-- ===== src/Session/InMemory/Outcomes.antt =====
-- The ends of `processBundle`, `sessionEncrypt` and `sessionDecrypt` over the in-memory store.
use gossveil.Base.{
  ℕ, ◌≡◌, refl, Bool, true, false, Bytes, Option, some, [], if◌then◌else◌, Option-cases, Bool-cases,
  inl, inr,
}
use mathlib.Core.Option
use gossveil.Fault.{Result, ok, err, GossveilError, Result-cases}
use gossveil.Dict.{lookup, insert, text_key_eq}
use gossveil.Bridge.Call.{Platform}
use gossveil.Bridge.Sessions.{
  Sealed, Opened, SessionInfo, session_info, session_seal, session_start, session_open,
}
use gossveil.Address.{ProtocolAddress, to_string}
use gossveil.Records.{PreKeyBundle}
use gossveil.Messages.{CiphertextMessage, WhisperMessage}
use gossveil.Keys.{PublicKey}
use gossveil.Store.Memory.{MemoryStore, trusts}
use gossveil.Session.{published, binding}
use gossveil.Session.InMemory.{
  start, encrypt, decrypt, established, known, Outcome, store_if_trusted, start-eq, encrypt-eq,
  decrypt-eq,
}

module _ {A : Type 0} (a : ProtocolAddress) (s : MemoryStore) where
  store_if_trusted_outcome :
      (key : PublicKey) (session : Bytes) (result : A)
      → Outcome s
          (λ r s'.
            (r ≡ result) × (trusts (known a s) key ≡ true) × (s' ≡ established a key session s))
          (store_if_trusted a key session result s)
  unfolding store_if_trusted
  store_if_trusted_outcome key session result = elim (Bool-cases (trusts (known a s) key)) [
    | inl yes_trusted ↦ rw yes_trusted (refl, refl, refl)
    | inr distrusted ↦ rw distrusted refl
  ]

  unless_trusted_throws :
      (t : Bool) (e e' : GossveilError) (Q : A → MemoryStore → Type 0)
      → Outcome s Q (if t then (err e, s) else (err e', s))
  unless_trusted_throws true e e' Q = refl
  unless_trusted_throws false e e' Q = refl

pub Outcome_weaken :
    {A : Type 0} (s : MemoryStore) (Q Q' : A → MemoryStore → Type 0) (o : Result A × MemoryStore)
    → ((r : A) (s' : MemoryStore) → Q r s' → Q' r s')
    → Outcome s Q o
    → Outcome s Q' o
Outcome_weaken s Q Q' (ok r, s') f h = f r s' h
Outcome_weaken s Q Q' (err e, s') f h = h

module _ (p : Platform) (a : ProtocolAddress) (now_secs : ℕ) (s : MemoryStore) where
  -- The record that `process_bundle` makes the core start from a bundle.
  abbrev pub started : PreKeyBundle → Result Bytes
  started b =
      session_start p s.identity.private_key s.registration_id
        (Option.get_or (lookup (to_string a) s.sessions) []) (published b) now_secs

  abbrev pub Started : PreKeyBundle → Unit {0} → MemoryStore → Type 0
  Started b r s' =
      (session : Bytes) × (started b ≡ ok session)
      × (trusts (known a s) b.identity_key ≡ true)
      × (s' ≡ established a b.identity_key session s)

  -- Processing a bundle throws and changes nothing, or the bundle's identity key was trusted for
  -- the address, and is recorded for it together with the session that the core started.
  pub start_outcome : (b : PreKeyBundle) → Outcome s (Started b) (start p b a now_secs s)
  start_outcome b = rw start-eq (elim (Result-cases (started b)) [
    | inl (session, e) ↦ rw e (
        Outcome_weaken s _ (Started b) _ (λ r s' h. (session, e, h.1, h.2))
          (store_if_trusted_outcome a s b.identity_key session tt))
    | inr (f, e) ↦
        rw e (unless_trusted_throws a s (trusts (known a s) b.identity_key) _ _ (Started b))
  ])

  -- The identity in `session`, trusted for `a`, is recorded together with it.
  abbrev pub Committed : Bytes → MemoryStore → Type 0
  Committed session s' =
      (info : SessionInfo) × (session_info p session now_secs ≡ ok info)
      × (trusts (known a s) info.remote_identity ≡ true)
      × (s' ≡ established a info.remote_identity session s)

  abbrev pub Decrypted : WhisperMessage → Option ProtocolAddress → Bytes → MemoryStore → Type 0
  Decrypted message local plain s' =
      (session : Bytes) × (opened : Opened) × (lookup (to_string a) s.sessions ≡ some session)
      × (session_open p session message.bytes (binding (some a) local) ≡ ok opened)
      × (plain ≡ opened.plain)
      × Committed opened.record_bytes s'

  -- Decryption throws and changes nothing, or the core opened the message with the recorded
  -- session, the identity in the new session was trusted for the address, and both are recorded.
  pub decrypt_outcome :
      (message : WhisperMessage) (local : Option ProtocolAddress)
      → Outcome s (Decrypted message local) (decrypt p message a now_secs local s)
  decrypt_outcome message local =
      rw decrypt-eq (elim (Option-cases (lookup (to_string a) s.sessions)) [
        | inl absent ↦ rw absent refl
        | inr (session, e) ↦
            rw e
              (elim (Result-cases (session_open p session message.bytes (binding (some a) local))) [
                | inr (f, e') ↦ rw e' refl
                | inl (opened, e') ↦
                    rw e' (elim (Result-cases (session_info p opened.record_bytes now_secs)) [
                      | inr (f, e2) ↦ rw e2 refl
                      | inl (info, e2) ↦ rw e2 (
                          Outcome_weaken s _ (Decrypted message local) _
                            (λ r s' h. (session, opened, e, e', h.0, (info, e2, h.1, h.2)))
                            (store_if_trusted_outcome a s info.remote_identity opened.record_bytes
                              opened.plain))
                    ])
              ])
      ])

  abbrev pub Encrypted : Bytes → Option ProtocolAddress → CiphertextMessage → MemoryStore → Type 0
  Encrypted message local sent s' =
      (session : Bytes) × (sealed : Sealed) × (info : SessionInfo) × (lookup (to_string a)
          s.sessions
        ≡ some session)
      × (session_seal p session message now_secs (binding local (some a)) ≡ ok sealed)
      × (session_info p sealed.record_bytes now_secs ≡ ok info)
      × (trusts (known a s) info.remote_identity ≡ true)
      × (sent.type ≡ sealed.kind)
      × (sent.bytes ≡ sealed.sealed)
      × (s' ≡ record s { sessions = insert (to_string a) sealed.record_bytes s.sessions })

  -- Encryption throws and changes nothing, or the core sealed the message with the recorded
  -- session, the identity in the new session is trusted for the address, and of the store the
  -- session of the address alone is replaced.
  pub encrypt_outcome :
      (message : Bytes) (local : Option ProtocolAddress)
      → Outcome s (Encrypted message local) (encrypt p message a now_secs local s)
  encrypt_outcome message local =
      rw encrypt-eq (elim (Option-cases (lookup (to_string a) s.sessions)) [
        | inl absent ↦ rw absent refl
        | inr (session, e) ↦
            rw e
              (elim (Result-cases
                (session_seal p session message now_secs (binding local (some a)))) [
                  | inr (f, e') ↦ rw e' refl
                  | inl (sealed, e') ↦
                      rw e' (elim (Result-cases (session_info p sealed.record_bytes now_secs)) [
                        | inr (f, e2) ↦ rw e2 refl
                        | inl (info, e2) ↦
                            rw e2 (elim (Bool-cases (trusts (known a s) info.remote_identity)) [
                              | inr distrusted ↦ rw distrusted refl
                              | inl trusted ↦
                                  rw trusted
                                    (session, sealed, info, e, e', e2, trusted, refl, refl, refl)
                            ])
                      ])
                ])
      ])
