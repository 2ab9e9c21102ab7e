-- ===== src/Store/Memory.antt =====
-- `InMemoryProtocolStore` of sdk/ts/src/api.ts: every store in one object.
use gossveil.Base.{
  ℕ, Bool, true, not, List, [], ◌∷◌, ◌++◌, Text, Option, none, some, codes, decimal, if◌then◌else◌,
}
use gossveil.Fault.{ok, GossveilError, fault, invalid_key_id}
use gossveil.Exec.{Exec, pure, gets, modify, or_throw, ◌>>=◌}
use gossveil.Dict.{Dict, lookup, insert, erase, contains, add, nat_eq, text_key_eq}
use gossveil.Address.{ProtocolAddress, to_string, sender_key_name, no_session}
use gossveil.Keys.{PublicKey, PrivateKey, IdentityKeyPair, equals}
use gossveil.Records.{
  PreKeyRecord, SignedPreKeyRecord, KyberPreKeyRecord, SessionRecord, SenderKeyRecord,
}
use gossveil.Store.{
  Direction, IdentityChange, new_or_unchanged, replaced_existing, SessionStore, IdentityKeyStore,
  PreKeyStore, SignedPreKeyStore, KyberPreKeyStore, SenderKeyStore,
}

pub record MemoryStore : Type 0 where
  pub identity : IdentityKeyPair
  pub registration_id : ℕ
  pub identities : Dict Text PublicKey
  pub sessions : Dict Text SessionRecord
  pub pre_keys : Dict ℕ PreKeyRecord
  pub signed_pre_keys : Dict ℕ SignedPreKeyRecord
  pub kyber_pre_keys : Dict ℕ KyberPreKeyRecord
  pub kyber_used : List ℕ
  pub sender_keys : Dict Text SenderKeyRecord

-- The constructor.
abbrev pub new_store : IdentityKeyPair → ℕ → MemoryStore
new_store identity registration_id = record {
  identity = identity;
  registration_id = registration_id;
  identities = [];
  sessions = [];
  pre_keys = [];
  signed_pre_keys = [];
  kyber_pre_keys = [];
  kyber_used = [];
  sender_keys = [];
}

unfoldable pub save_session : ProtocolAddress → SessionRecord → Exec MemoryStore (Unit {0})
save_session name session =
    modify (λ s. record s { sessions = insert (to_string name) session s.sessions })

unfoldable pub get_session : ProtocolAddress → Exec MemoryStore (Option SessionRecord)
get_session name = gets (λ s. lookup (to_string name) s.sessions)

-- The callback of `addresses.map` in `getExistingSessions` throws at the first missing session.
unfoldable pub get_existing_sessions : List ProtocolAddress → Exec MemoryStore (List SessionRecord)
get_existing_sessions [] = pure []
get_existing_sessions (a ∷ addresses) = do
  found ← gets (λ s. lookup (to_string a) s.sessions)
  session ← or_throw found (no_session a)
  rest ← get_existing_sessions addresses
  pure (session ∷ rest)

unfoldable pub get_identity_key : Exec MemoryStore PrivateKey
get_identity_key = gets (λ s. s.identity.private_key)

unfoldable pub get_local_registration_id : Exec MemoryStore ℕ
get_local_registration_id = gets (λ s. s.registration_id)

change_of : Option PublicKey → PublicKey → IdentityChange
change_of none key = new_or_unchanged
change_of (some previous) key =
    if not (equals previous key) then replaced_existing else new_or_unchanged

unfoldable pub save_identity : ProtocolAddress → PublicKey → Exec MemoryStore IdentityChange
unfolding change_of
save_identity name key s =
    let previous = lookup (to_string name) s.identities in
    (
      ok (change_of previous key),
      record s { identities = insert (to_string name) key s.identities },
    )

-- `known === undefined || known.equals(key)`.
unfoldable pub trusts : Option PublicKey → PublicKey → Bool
trusts none key = true
trusts (some known) key = equals known key

unfoldable pub is_trusted_identity : ProtocolAddress → PublicKey → Direction → Exec MemoryStore Bool
unfolding trusts
is_trusted_identity name key direction =
    gets (λ s. trusts (lookup (to_string name) s.identities) key)

unfoldable pub get_identity : ProtocolAddress → Exec MemoryStore (Option PublicKey)
get_identity name = gets (λ s. lookup (to_string name) s.identities)

unfoldable pub save_pre_key : ℕ → PreKeyRecord → Exec MemoryStore (Unit {0})
save_pre_key id r = modify (λ s. record s { pre_keys = insert id r s.pre_keys })

unfoldable pub no_prekey : ℕ → GossveilError
no_prekey id = fault invalid_key_id (codes "no prekey " ++ decimal id)

unfoldable pub no_signed_prekey : ℕ → GossveilError
no_signed_prekey id = fault invalid_key_id (codes "no signed prekey " ++ decimal id)

unfoldable pub no_kyber_prekey : ℕ → GossveilError
no_kyber_prekey id = fault invalid_key_id (codes "no kyber prekey " ++ decimal id)

unfoldable pub get_pre_key : ℕ → Exec MemoryStore PreKeyRecord
get_pre_key id = do found ← gets (λ s. lookup id s.pre_keys); or_throw found (no_prekey id)

unfoldable pub remove_pre_key : ℕ → Exec MemoryStore (Unit {0})
remove_pre_key id = modify (λ s. record s { pre_keys = erase id s.pre_keys })

unfoldable pub save_signed_pre_key : ℕ → SignedPreKeyRecord → Exec MemoryStore (Unit {0})
save_signed_pre_key id r =
    modify (λ s. record s { signed_pre_keys = insert id r s.signed_pre_keys })

unfoldable pub get_signed_pre_key : ℕ → Exec MemoryStore SignedPreKeyRecord
get_signed_pre_key id = do
  found ← gets (λ s. lookup id s.signed_pre_keys)
  or_throw found (no_signed_prekey id)

unfoldable pub save_kyber_pre_key : ℕ → KyberPreKeyRecord → Exec MemoryStore (Unit {0})
save_kyber_pre_key id r = modify (λ s. record s { kyber_pre_keys = insert id r s.kyber_pre_keys })

unfoldable pub get_kyber_pre_key : ℕ → Exec MemoryStore KyberPreKeyRecord
get_kyber_pre_key id = do
  found ← gets (λ s. lookup id s.kyber_pre_keys)
  or_throw found (no_kyber_prekey id)

unfoldable pub mark_kyber_pre_key_used : ℕ → ℕ → PublicKey → Exec MemoryStore (Unit {0})
mark_kyber_pre_key_used id signed_pre_key_id base_key =
    modify (λ s. record s { kyber_used = add id s.kyber_used })

unfoldable pub has_kyber_pre_key_been_used : ℕ → MemoryStore → Bool
has_kyber_pre_key_been_used id s = contains id s.kyber_used

-- `to_lower` is the runtime's `toLowerCase`.
module _ (to_lower : Text → Text) where
  unfoldable pub save_sender_key :
      ProtocolAddress → Text → SenderKeyRecord → Exec MemoryStore (Unit {0})
  save_sender_key sender distribution_id r = modify (λ s. record s {
    sender_keys = insert (sender_key_name to_lower sender distribution_id) r s.sender_keys;
  })

  unfoldable pub get_sender_key : ProtocolAddress → Text → Exec MemoryStore (Option SenderKeyRecord)
  get_sender_key sender distribution_id =
      gets (λ s. lookup (sender_key_name to_lower sender distribution_id) s.sender_keys)

  abbrev pub memory_sender_keys : SenderKeyStore MemoryStore
  memory_sender_keys = record { save_sender_key = save_sender_key; get_sender_key = get_sender_key }

-- The interfaces that the class implements.
abbrev pub memory_sessions : SessionStore MemoryStore
memory_sessions = record {
  save_session = save_session;
  get_session = get_session;
  get_existing_sessions = get_existing_sessions;
}

abbrev pub memory_identities : IdentityKeyStore MemoryStore
memory_identities = record {
  get_identity_key = get_identity_key;
  get_local_registration_id = get_local_registration_id;
  save_identity = save_identity;
  is_trusted_identity = is_trusted_identity;
  get_identity = get_identity;
}

abbrev pub memory_pre_keys : PreKeyStore MemoryStore
memory_pre_keys = record {
  save_pre_key = save_pre_key;
  get_pre_key = get_pre_key;
  remove_pre_key = remove_pre_key;
}

abbrev pub memory_signed_pre_keys : SignedPreKeyStore MemoryStore
memory_signed_pre_keys = record {
  save_signed_pre_key = save_signed_pre_key;
  get_signed_pre_key = get_signed_pre_key;
}

abbrev pub memory_kyber_pre_keys : KyberPreKeyStore MemoryStore
memory_kyber_pre_keys = record {
  save_kyber_pre_key = save_kyber_pre_key;
  get_kyber_pre_key = get_kyber_pre_key;
  mark_kyber_pre_key_used = mark_kyber_pre_key_used;
}
