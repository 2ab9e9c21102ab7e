-- ===== src/Store.antt =====
-- The store classes of sdk/ts/src/api.ts, which a host implements: a record of operations over a
-- state `S` that is the host's own. `Store/Memory` is the implementation of the package.
pub mod Memory
use gossveil.Base.{ℕ, Bool, Bytes, Text, Option, List}
use gossveil.Exec.{Exec}
use gossveil.Address.{ProtocolAddress}
use gossveil.Keys.{PublicKey, PrivateKey}
use gossveil.Records.{
  PreKeyRecord, SignedPreKeyRecord, KyberPreKeyRecord, SessionRecord, SenderKeyRecord,
}

pub data Direction : Type 0 where
  sending receiving : Direction

pub data IdentityChange : Type 0 where
  new_or_unchanged replaced_existing : IdentityChange

module _ (S : Type 0) where
  pub record SessionStore : Type 0 where
    pub save_session : ProtocolAddress → SessionRecord → Exec S (Unit {0})
    pub get_session : ProtocolAddress → Exec S (Option SessionRecord)
    pub get_existing_sessions : List ProtocolAddress → Exec S (List SessionRecord)

  pub record IdentityKeyStore : Type 0 where
    pub get_identity_key : Exec S PrivateKey
    pub get_local_registration_id : Exec S ℕ
    pub save_identity : ProtocolAddress → PublicKey → Exec S IdentityChange
    pub is_trusted_identity : ProtocolAddress → PublicKey → Direction → Exec S Bool
    pub get_identity : ProtocolAddress → Exec S (Option PublicKey)

  pub record PreKeyStore : Type 0 where
    pub save_pre_key : ℕ → PreKeyRecord → Exec S (Unit {0})
    pub get_pre_key : ℕ → Exec S PreKeyRecord
    pub remove_pre_key : ℕ → Exec S (Unit {0})

  pub record SignedPreKeyStore : Type 0 where
    pub save_signed_pre_key : ℕ → SignedPreKeyRecord → Exec S (Unit {0})
    pub get_signed_pre_key : ℕ → Exec S SignedPreKeyRecord

  pub record KyberPreKeyStore : Type 0 where
    pub save_kyber_pre_key : ℕ → KyberPreKeyRecord → Exec S (Unit {0})
    pub get_kyber_pre_key : ℕ → Exec S KyberPreKeyRecord
    pub mark_kyber_pre_key_used : ℕ → ℕ → PublicKey → Exec S (Unit {0})

  pub record SenderKeyStore : Type 0 where
    pub save_sender_key : ProtocolAddress → Text → SenderKeyRecord → Exec S (Unit {0})
    pub get_sender_key : ProtocolAddress → Text → Exec S (Option SenderKeyRecord)
