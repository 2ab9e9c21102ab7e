-- ===== src/Wasm/Generate.antt =====
-- The generation of prekeys in sdk/ts/src/wasm-api.ts. Each round of `generatePreKeys` calls the core
-- anew, so round `i` has a platform of its own.
pub mod Stored
use gossveil.Base.{ℕ, zero, suc, ◌+◌, ◌-◌, List, [], ◌∷◌, to_uint32}
use gossveil.Fault.{Result, ok, err}
use gossveil.Exec.{Exec, pure, lift, ◌>>=◌, ◌>>◌}
use gossveil.Bridge.Call.{Platform}
use gossveil.Bridge.Keys.{
  KeyPair, pq_round_three, curve_pair, curve_sign, pq_pair, one_time_record, signed_record,
  pq_record,
}
use gossveil.Keys.{IdentityKeyPair}
use gossveil.Wasm.Keys.{
  PublishedKey, SignedPublishedKey, pre_key_from_record, signed_pre_key_from_record,
  kyber_pre_key_from_record,
}
use gossveil.Wasm.Stores.{Stores, import_pre_key, import_signed_pre_key, import_kyber_pre_key}

-- The body of the loop.
unfoldable pub generate_pre_key : Platform → ℕ → Exec Stores PublishedKey
generate_pre_key p id = do
  pair ← lift (curve_pair p)
  r ← lift (one_time_record p id pair.secret)
  import_pre_key p id r
  lift (pre_key_from_record p r)

-- The rounds from `i` on; `left` of them remain.
unfoldable pub pre_keys_from : (ℕ → Platform) → ℕ → ℕ → ℕ → Exec Stores (List PublishedKey)
unfolding generate_pre_key
pre_keys_from ps start_id i zero = pure []
pre_keys_from ps start_id i (suc left) = do
  key ← generate_pre_key (ps i) (to_uint32 (start_id + i))
  rest ← pre_keys_from ps start_id (suc i) left
  pure (key ∷ rest)

unfoldable pub generate_pre_keys : (ℕ → Platform) → ℕ → ℕ → Exec Stores (List PublishedKey)
generate_pre_keys ps start_id count = pre_keys_from ps start_id 0 count

module _ (p : Platform) (now_ms : ℕ) where
  unfoldable pub generate_signed_pre_key : ℕ → IdentityKeyPair → Exec Stores SignedPublishedKey
  generate_signed_pre_key key_id identity = do
    pair ← lift (curve_pair p)
    signature ← lift (curve_sign p identity.private_key pair.public_key)
    r ← lift (signed_record p (to_uint32 key_id) now_ms pair.secret signature)
    import_signed_pre_key p key_id r
    lift (signed_pre_key_from_record p r)

  unfoldable pub generate_kyber_pre_key : ℕ → IdentityKeyPair → Exec Stores SignedPublishedKey
  generate_kyber_pre_key key_id identity = do
    pair ← lift (pq_pair p pq_round_three)
    signature ← lift (curve_sign p identity.private_key pair.public_key)
    r ← lift (pq_record p (to_uint32 key_id) now_ms pair.public_key pair.secret signature)
    import_kyber_pre_key p key_id r
    lift (kyber_pre_key_from_record p r)
