-- ===== src/Session/InMemory.antt =====
-- The session operations over `InMemoryProtocolStore`, each as one expression.
pub mod Outcomes
pub mod Settled
pub mod PreKey
use gossveil.Base.{
  ℕ, ◌≡◌, refl, subst, sym, Bool, true, false, Bytes, Text, Option, none, some, [], if◌then◌else◌,
  arith, Option-cases, Bool-cases, inl, inr,
}
use mathlib.Core.Option
use gossveil.Fault.{Result, ok, err, GossveilError}
use gossveil.Exec.{Exec, ◌>>=◌}
use gossveil.Dict.{lookup, insert, erase, add, text_key_eq, nat_eq}
use gossveil.Bridge.Call.{Platform}
use gossveil.Bridge.Sessions.{
  Sealed, SessionInfo, session_info, session_seal, session_start, session_open,
}
use gossveil.Address.{ProtocolAddress, to_string, untrusted, no_session}
use gossveil.Records.{PreKeyBundle}
use gossveil.Messages.{CiphertextMessage, WhisperMessage, PreKeyMessage}
use gossveil.Keys.{PublicKey}
use gossveil.Store.Memory.{
  MemoryStore, memory_sessions, memory_identities, memory_pre_keys, memory_signed_pre_keys,
  memory_kyber_pre_keys, trusts, save_session, get_session, save_identity, is_trusted_identity,
  get_identity_key, get_local_registration_id, get_pre_key, get_signed_pre_key, get_kyber_pre_key,
  remove_pre_key, mark_kyber_pre_key_used,
}
use gossveil.Session.{
  binding, published, process_bundle, session_encrypt, session_decrypt, session_decrypt_pre_key,
  commit, settle, one_time_bytes, pq_bytes,
}

module _ (p : Platform) where
  abbrev pub start : PreKeyBundle → ProtocolAddress → ℕ → Exec MemoryStore (Unit {0})
  start = process_bundle p memory_sessions memory_identities

  abbrev pub encrypt :
      Bytes → ProtocolAddress → ℕ → Option ProtocolAddress → Exec MemoryStore CiphertextMessage
  encrypt = session_encrypt p memory_sessions memory_identities

  abbrev pub commit_in : Bytes → ProtocolAddress → ℕ → Exec MemoryStore (Unit {0})
  commit_in = commit p memory_sessions memory_identities

  abbrev pub decrypt :
      WhisperMessage → ProtocolAddress → ℕ → Option ProtocolAddress → Exec MemoryStore Bytes
  decrypt = session_decrypt p memory_sessions memory_identities

  abbrev pub decrypt_pre_key :
      PreKeyMessage → ProtocolAddress → ℕ → Option ProtocolAddress → Exec MemoryStore Bytes
  decrypt_pre_key =
      session_decrypt_pre_key p memory_sessions memory_identities memory_pre_keys
        memory_signed_pre_keys memory_kyber_pre_keys

-- The store with a session and an identity recorded for an address.
abbrev pub established : ProtocolAddress → PublicKey → Bytes → MemoryStore → MemoryStore
established a key session s = record s {
  identities = insert (to_string a) key s.identities;
  sessions = insert (to_string a) session s.sessions;
}

abbrev pub known : ProtocolAddress → MemoryStore → Option PublicKey
known a s = lookup (to_string a) s.identities

-- What an operation that began at `s` has done: it threw and changed nothing, or it has a result
-- and a state that `Q` describes.
abbrev pub Outcome :
    {A : Type 0} → MemoryStore → (A → MemoryStore → Type 0) → Result A × MemoryStore → Type 0
Outcome s Q (err e, s') = s' ≡ s
Outcome s Q (ok a, s') = Q a s'

-- What holds before, and in every state that `Q` describes, holds at the end.
pub Outcome_holds :
    {A : Type 0} (P : MemoryStore → Type 0) (s : MemoryStore) (Q : A → MemoryStore → Type 0)
    (o : Result A × MemoryStore)
    → P s
    → ((r : A) (s' : MemoryStore) → Q r s' → P s')
    → Outcome s Q o
    → P o.1
Outcome_holds P s Q (ok r, s') before after h = after r s' h
Outcome_holds P s Q (err e, s') before after h = subst P (sym h) before

-- The end of an operation that holds a session for `a` and the identity in it.
unfoldable pub store_if_trusted :
    {A : Type 0} → ProtocolAddress → PublicKey → Bytes → A → MemoryStore → Result A × MemoryStore
store_if_trusted a key session result s =
    if trusts (known a s) key
    then (ok result, established a key session s)
    else (err (untrusted a), s)

module _ (p : Platform) (a : ProtocolAddress) (now_secs : ℕ) (s : MemoryStore) where
  pub start-eq :
      (b : PreKeyBundle)
      → start p b a now_secs s
        ≡ elim (session_start p s.identity.private_key s.registration_id
            (Option.get_or (lookup (to_string a) s.sessions) [])
            (published b)
            now_secs) [
              | ok session ↦ store_if_trusted a b.identity_key session tt s
              | err e ↦
                  if trusts (known a s) b.identity_key then (err e, s) else (err (untrusted a), s)
            ]
  unfolding process_bundle save_session get_session save_identity is_trusted_identity
      get_identity_key get_local_registration_id store_if_trusted
  start-eq b = ground arith

  pub commit-eq :
      (session : Bytes)
      → commit_in p session a now_secs s ≡ elim (session_info p session now_secs) [
        | ok info ↦ store_if_trusted a info.remote_identity session tt s
        | err e ↦ (err e, s)
      ]
  unfolding commit save_session save_identity is_trusted_identity store_if_trusted
  commit-eq session = ground arith

  pub encrypt-eq :
      (message : Bytes) (local : Option ProtocolAddress)
      → encrypt p message a now_secs local s ≡ elim (lookup (to_string a) s.sessions) [
        | none ↦ (err (no_session a), s)
        | some session ↦ elim (session_seal p session message now_secs (binding local (some a))) [
          | err e ↦ (err e, s)
          | ok sealed ↦ elim (session_info p sealed.record_bytes now_secs) [
            | err e ↦ (err e, s)
            | ok info ↦
                if trusts (known a s) info.remote_identity
                then (
                  ok (record { type = sealed.kind; bytes = sealed.sealed }),
                  record s { sessions = insert (to_string a) sealed.record_bytes s.sessions },
                )
                else (err (untrusted a), s)
          ]
        ]
      ]
  unfolding session_encrypt save_session get_session is_trusted_identity
  encrypt-eq message local = ground arith

  pub decrypt-eq :
      (message : WhisperMessage) (local : Option ProtocolAddress)
      → decrypt p message a now_secs local s ≡ elim (lookup (to_string a) s.sessions) [
        | none ↦ (err (no_session a), s)
        | some session ↦ elim (session_open p session message.bytes (binding (some a) local)) [
          | err e ↦ (err e, s)
          | ok opened ↦ elim (session_info p opened.record_bytes now_secs) [
            | err e ↦ (err e, s)
            | ok info ↦ store_if_trusted a info.remote_identity opened.record_bytes opened.plain s
          ]
        ]
      ]
  unfolding session_decrypt save_session save_identity get_session is_trusted_identity
      store_if_trusted
  decrypt-eq message local = ground arith
