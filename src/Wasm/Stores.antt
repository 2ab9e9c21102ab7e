-- ===== src/Wasm/Stores.antt =====
-- The in-memory stores of sdk/ts/src/wasm-api.ts. The functions take them as separate objects, one
-- of each class, and a call has them all in one record.
use gossveil.Base.{ℕ, Bool, true, not, Bytes, Text, Option, none, some, List, [], to_uint32, false}
use mathlib.Core.Option
use gossveil.Fault.{ok}
use gossveil.Exec.{Exec, pure, lift, gets, modify, ◌>>=◌, ◌>>◌}
use gossveil.Dict.{Dict, lookup, insert, erase, keys, add, remove, contains, nat_eq, text_key_eq}
use gossveil.BytesEqual.{bytes_equal}
use gossveil.Bridge.Call.{Platform}
use gossveil.Bridge.Keys.{curve_check, one_time_parse, signed_parse, pq_record_parse}
use gossveil.Bridge.Sessions.{session_info, session_shelve}
use gossveil.Address.{ProtocolAddress, to_string, sender_key_name}
use gossveil.Keys.{IdentityKeyPair}

-- `WasmInMemIdentityKeyStore`.
pub record IdentityStore : Type 0 where
  pub identity : IdentityKeyPair
  pub registration_id : ℕ
  pub known : Dict Text Bytes

unfoldable pub new_identity_store : IdentityKeyPair → ℕ → IdentityStore
new_identity_store identity registration_id = record {
  identity = identity;
  registration_id = to_uint32 registration_id;
  known = [];
}

-- `WasmInMemKyberPreKeyStore`; the other two prekey stores are their records.
pub record KyberStore : Type 0 where
  pub records : Dict ℕ Bytes
  pub used : List ℕ

pub record Stores : Type 0 where
  pub identities : IdentityStore
  pub pre_keys : Dict ℕ Bytes
  pub signed_pre_keys : Dict ℕ Bytes
  pub kyber_pre_keys : KyberStore
  pub sessions : Dict Text Bytes
  pub sender_keys : Dict Text Bytes

-- `RecordStore`.
unfoldable pub get_record : ℕ → Dict ℕ Bytes → Option Bytes
get_record id records = lookup (to_uint32 id) records

unfoldable pub put_record : ℕ → Bytes → Dict ℕ Bytes → Dict ℕ Bytes
put_record id record_bytes records = insert (to_uint32 id) record_bytes records

unfoldable pub drop_record : ℕ → Dict ℕ Bytes → Dict ℕ Bytes
drop_record id records = erase (to_uint32 id) records

unfoldable pub ids : Dict ℕ Bytes → List ℕ
ids records = keys records

unfoldable pub export_identity : ProtocolAddress → Exec Stores (Option Bytes)
export_identity address = gets (λ w. lookup (to_string address) w.identities.known)

-- `known === undefined || bytesEqual(known, identity)`.
unfoldable pub trusted_key : Option Bytes → Bytes → Bool
trusted_key none identity = true
trusted_key (some known) identity = bytes_equal known identity

unfoldable pub is_trusted : ProtocolAddress → Bytes → Exec Stores Bool
unfolding trusted_key
is_trusted address identity =
    gets (λ w. trusted_key (lookup (to_string address) w.identities.known) identity)

-- `known !== undefined && !bytesEqual(known, identity)`.
changed : Option Bytes → Bytes → Bool
changed none identity = false
changed (some known) identity = not (bytes_equal known identity)

unfoldable pub save : ProtocolAddress → Bytes → Exec Stores Bool
unfolding changed
save address identity w =
    let known = lookup (to_string address) w.identities.known in
    (
      ok (changed known identity),
      record w {
        identities = record (w.identities) {
          known = insert (to_string address) identity w.identities.known;
        };
      },
    )

unfoldable pub export_pre_key : ℕ → Exec Stores (Option Bytes)
unfolding get_record
export_pre_key id = gets (λ w. get_record id w.pre_keys)

unfoldable pub remove_pre_key : ℕ → Exec Stores (Unit {0})
unfolding drop_record
remove_pre_key id = modify (λ w. record w { pre_keys = drop_record id w.pre_keys })

unfoldable pub export_signed_pre_key : ℕ → Exec Stores (Option Bytes)
unfolding get_record
export_signed_pre_key id = gets (λ w. get_record id w.signed_pre_keys)

unfoldable pub remove_signed_pre_key : ℕ → Exec Stores (Unit {0})
unfolding drop_record
remove_signed_pre_key id =
    modify (λ w. record w { signed_pre_keys = drop_record id w.signed_pre_keys })

unfoldable pub export_kyber_pre_key : ℕ → Exec Stores (Option Bytes)
unfolding get_record
export_kyber_pre_key id = gets (λ w. get_record id w.kyber_pre_keys.records)

-- The record and the mark both go.
unfoldable pub remove_kyber_pre_key : ℕ → Exec Stores (Unit {0})
unfolding drop_record
remove_kyber_pre_key id = modify (λ w. record w {
  kyber_pre_keys = record {
    records = drop_record id w.kyber_pre_keys.records;
    used = remove (to_uint32 id) w.kyber_pre_keys.used;
  };
})

unfoldable pub mark_used : ℕ → Exec Stores (Unit {0})
mark_used id = modify (λ w. record w {
  kyber_pre_keys = record (w.kyber_pre_keys) { used = add (to_uint32 id) w.kyber_pre_keys.used };
})

unfoldable pub has_kyber_pre_key_been_used : ℕ → Exec Stores Bool
has_kyber_pre_key_been_used id = gets (λ w. contains (to_uint32 id) w.kyber_pre_keys.used)

unfoldable pub export_session : ProtocolAddress → Exec Stores (Option Bytes)
export_session address = gets (λ w. lookup (to_string address) w.sessions)

unfoldable pub remove_session : ProtocolAddress → Exec Stores (Unit {0})
remove_session address = modify (λ w. record w { sessions = erase (to_string address) w.sessions })

-- `load` and `store` of the session store.
unfoldable pub load_session : ProtocolAddress → Exec Stores Bytes
load_session address = gets (λ w. Option.get_or (lookup (to_string address) w.sessions) [])

unfoldable pub store_session : ProtocolAddress → Bytes → Exec Stores (Unit {0})
store_session address record_bytes =
    modify (λ w. record w { sessions = insert (to_string address) record_bytes w.sessions })

module _ (p : Platform) where
  unfoldable pub import_identity : ProtocolAddress → Bytes → Exec Stores (Unit {0})
  import_identity address identity_bytes = do
    lift (curve_check p identity_bytes)
    modify (λ w. record w {
      identities = record (w.identities) {
        known = insert (to_string address) identity_bytes w.identities.known;
      };
    })

  unfoldable pub import_pre_key : ℕ → Bytes → Exec Stores (Unit {0})
  unfolding put_record
  import_pre_key id record_bytes = do
    _ ← lift (one_time_parse p record_bytes)
    modify (λ w. record w { pre_keys = put_record id record_bytes w.pre_keys })

  unfoldable pub import_signed_pre_key : ℕ → Bytes → Exec Stores (Unit {0})
  unfolding put_record
  import_signed_pre_key id record_bytes = do
    _ ← lift (signed_parse p record_bytes)
    modify (λ w. record w { signed_pre_keys = put_record id record_bytes w.signed_pre_keys })

  unfoldable pub import_kyber_pre_key : ℕ → Bytes → Exec Stores (Unit {0})
  unfolding put_record
  import_kyber_pre_key id record_bytes = do
    _ ← lift (pq_record_parse p record_bytes)
    modify (λ w. record w {
      kyber_pre_keys = record (w.kyber_pre_keys) {
        records = put_record id record_bytes w.kyber_pre_keys.records;
      };
    })

  unfoldable pub has_session : ProtocolAddress → ℕ → Exec Stores Bool
  has_session address now_secs = do
    found ← gets (λ w. lookup (to_string address) w.sessions)
    elim found [
      | none ↦ pure false
      | some r ↦ lift (session_info p r now_secs) >>= λ info. pure info.usable
    ]

  unfoldable pub import_session : ProtocolAddress → Bytes → Exec Stores (Unit {0})
  unfolding store_session
  import_session address session_bytes = do
    _ ← lift (session_info p session_bytes 0)
    store_session address session_bytes

  unfoldable pub archive_session : ProtocolAddress → Exec Stores (Unit {0})
  unfolding store_session
  archive_session address = do
    found ← gets (λ w. lookup (to_string address) w.sessions)
    elim found [
      | none ↦ pure tt
      | some r ↦ lift (session_shelve p r) >>= λ shelved. store_session address shelved
    ]

-- `WasmInMemSenderKeyStore`; `to_lower` is the runtime's `toLowerCase`.
module _ (to_lower : Text → Text) where
  unfoldable pub export_sender_key : ProtocolAddress → Text → Exec Stores (Option Bytes)
  export_sender_key address distribution_id =
      gets (λ w. lookup (sender_key_name to_lower address distribution_id) w.sender_keys)

  unfoldable pub load_sender_key : ProtocolAddress → Text → Exec Stores Bytes
  load_sender_key address distribution_id = gets (λ w.
      Option.get_or (lookup (sender_key_name to_lower address distribution_id) w.sender_keys) [])

  unfoldable pub store_sender_key : ProtocolAddress → Text → Bytes → Exec Stores (Unit {0})
  store_sender_key address distribution_id record_bytes = modify (λ w. record w {
    sender_keys =
        insert (sender_key_name to_lower address distribution_id) record_bytes w.sender_keys;
  })

  unfoldable pub import_sender_key : ProtocolAddress → Text → Bytes → Exec Stores (Unit {0})
  unfolding store_sender_key
  import_sender_key address distribution_id record_bytes =
      store_sender_key address distribution_id record_bytes
