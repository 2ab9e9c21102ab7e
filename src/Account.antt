-- ===== src/Account.antt =====
-- Account keys, group parameters and primitives of sdk/ts/src/api.ts. `BackupKey`, `GroupMasterKey`,
-- `GroupSecretParams` and `Aes256GcmSiv` are their bytes.
use gossveil.Base.{ℕ, Bool, Text, Bytes, Option, codes, ◌==◌, if◌then◌else◌, length, to_uint32}
use gossveil.Fault.{Result, ok, err, ◌>>=◌, GossveilError, fault, invalid_argument, invalid_key}
use gossveil.Bridge.Call.{Platform}
use gossveil.Bridge.Vault.{
  pool_random, pool_valid, pool_derive, backup_key_random, backup_key_for_account,
  backup_key_local_metadata, backup_key_media, backup_key_media_keys, circle_master_random,
  circle_secret_params, circle_params_info,
}
use gossveil.Bridge.Primitives
use gossveil.Bridge.Primitives.{siv_seal, siv_open, random, chunk_tags, chunk_check}
use gossveil.Keys.{PrivateKey}
use gossveil.ServiceId.{ServiceId, get_string}

backup_key_length : GossveilError
backup_key_length = fault invalid_argument (codes "a backup key is 32 bytes")

master_key_length : GossveilError
master_key_length = fault invalid_argument (codes "a group master key is 32 bytes")

siv_key_length : GossveilError
siv_key_length = fault invalid_key (codes "a key is 32 bytes")

-- The constructors.
unfoldable pub new_backup_key : Bytes → Result Bytes
unfolding backup_key_length
new_backup_key contents = if length contents == 32 then ok contents else err backup_key_length

unfoldable pub new_master_key : Bytes → Result Bytes
unfolding master_key_length
new_master_key contents = if length contents == 32 then ok contents else err master_key_length

unfoldable pub new_siv : Bytes → Result Bytes
unfolding siv_key_length
new_siv key = if length key == 32 then ok key else err siv_key_length

module _ (p : Platform) where
  -- `BackupKey.generateRandom`.
  unfoldable pub generate_backup_key : Result Bytes
  unfolding new_backup_key
  generate_backup_key = backup_key_random p >>= new_backup_key

  unfoldable pub derive_backup_id : Bytes → ServiceId → Result Bytes
  derive_backup_id key aci = get_string aci >>= backup_key_for_account p key >>= λ k. ok k.backup_id

  unfoldable pub derive_ec_key : Bytes → ServiceId → Result PrivateKey
  derive_ec_key key aci = get_string aci >>= backup_key_for_account p key >>= λ k. ok k.signing_key

  unfoldable pub derive_local_backup_metadata_key : Bytes → Result Bytes
  derive_local_backup_metadata_key key = backup_key_local_metadata p key

  unfoldable pub derive_media_id : Bytes → Text → Result Bytes
  derive_media_id key media_name = backup_key_media p key media_name >>= λ k. ok k.media_id

  unfoldable pub derive_media_encryption_key : Bytes → Bytes → Result Bytes
  derive_media_encryption_key key media_id =
      backup_key_media_keys p key media_id >>= λ (media, _). ok media

  unfoldable pub derive_thumbnail_transit_encryption_key : Bytes → Bytes → Result Bytes
  derive_thumbnail_transit_encryption_key key media_id =
      backup_key_media_keys p key media_id >>= λ (_, thumbnail). ok thumbnail

  -- `AccountEntropyPool`.
  unfoldable pub generate_pool : Result Text
  generate_pool = pool_random p

  unfoldable pub pool_is_valid : Text → Result Bool
  pool_is_valid pool = pool_valid p pool

  unfoldable pub derive_svr_key : Text → Result Bytes
  derive_svr_key pool = pool_derive p pool >>= λ k. ok k.recovery_key

  unfoldable pub derive_backup_key : Text → Result Bytes
  unfolding new_backup_key
  derive_backup_key pool = pool_derive p pool >>= λ k. new_backup_key k.backup_key

  -- `GroupMasterKey.generate`.
  unfoldable pub generate_master_key : Result Bytes
  unfolding new_master_key
  generate_master_key = circle_master_random p >>= new_master_key

  -- The constructor of `GroupSecretParams`, for which the core checks the bytes.
  unfoldable pub new_secret_params : Bytes → Result Bytes
  new_secret_params contents = circle_params_info p contents >>= λ _. ok contents

  unfoldable pub derive_from_master_key : Bytes → Result Bytes
  unfolding new_secret_params
  derive_from_master_key master = circle_secret_params p master >>= new_secret_params

  -- `GroupSecretParams.generate`.
  unfoldable pub generate_secret_params : Result Bytes
  unfolding generate_master_key derive_from_master_key
  generate_secret_params = generate_master_key >>= derive_from_master_key

  unfoldable pub get_master_key : Bytes → Result Bytes
  unfolding new_master_key
  get_master_key params = circle_params_info p params >>= λ info. new_master_key info.master

  unfoldable pub get_group_identifier : Bytes → Result Bytes
  get_group_identifier params = circle_params_info p params >>= λ info. ok info.identifier

  unfoldable pub get_public_params : Bytes → Result Bytes
  get_public_params params = circle_params_info p params >>= λ info. ok info.public_params

  unfoldable pub hkdf : ℕ → Bytes → Bytes → Option Bytes → Result Bytes
  hkdf output_length key_material label salt =
      Primitives.hkdf p key_material salt label (to_uint32 output_length)

  -- `Aes256GcmSiv`.
  unfoldable pub siv_encrypt : Bytes → Bytes → Bytes → Bytes → Result Bytes
  siv_encrypt key message nonce associated_data = siv_seal p key nonce message associated_data

  unfoldable pub siv_decrypt : Bytes → Bytes → Bytes → Bytes → Result Bytes
  siv_decrypt key message nonce associated_data = siv_open p key nonce message associated_data

  -- `IncrementalMac`.
  unfoldable pub calculate_mac : Bytes → ℕ → Bytes → Result Bytes
  calculate_mac key chunk_size message = chunk_tags p key (to_uint32 chunk_size) message

  unfoldable pub validate_mac : Bytes → ℕ → Bytes → Bytes → Result (Unit {0})
  validate_mac key chunk_size message digest =
      chunk_check p key (to_uint32 chunk_size) message digest

  unfoldable pub random_bytes : ℕ → Result Bytes
  random_bytes length = random p (to_uint32 length)
