-- ===== src/Wasm/Keys.antt =====
-- The key, published key and group parameter classes of sdk/ts/src/wasm-api.ts, and the safety
-- numbers. A class of one private field of bytes is its bytes.
use gossveil.Base.{ℕ, Bool, Text, Bytes, codes, ◌==◌, if◌then◌else◌, length}
use gossveil.Fault.{Result, ok, err, ◌>>=◌, GossveilError, fault, invalid_key, invalid_argument}
use gossveil.Bridge.Call.{Platform}
use gossveil.Bridge.Keys.{
  curve_pair, curve_public, curve_sign, curve_verify, curve_agree, curve_check, identity_serialize,
  identity_parse, one_time_parse, signed_parse, pq_record_parse,
}
use gossveil.Bridge.Handles.{Safety, safety, safety_matches}
use gossveil.Bridge.Vault.{circle_master_random, circle_secret_params, circle_params_info}
use gossveil.Keys.{PublicKey, PrivateKey, IdentityKeyPair}

-- `WasmPreKey`.
pub record PublishedKey : Type 0 where
  pub id : ℕ
  pub public_key : Bytes
  pub record_bytes : Bytes

-- `WasmSignedPreKey` and `WasmKyberPreKey`.
pub record SignedPublishedKey : Type 0 where
  pub id : ℕ
  pub public_key : Bytes
  pub record_bytes : Bytes
  pub signature : Bytes
  pub timestamp : ℕ

pub record GroupSecretParams : Type 0 where
  pub params : Bytes
  pub identifier : Bytes

private_key_length : GossveilError
private_key_length = fault invalid_key (codes "a private key is 32 bytes")

unfoldable pub private_from_bytes : Bytes → Result PrivateKey
unfolding private_key_length
private_from_bytes data_bytes =
    if length data_bytes == 32 then ok data_bytes else err private_key_length

master_key_length : GossveilError
master_key_length = fault invalid_argument (codes "a group master key is 32 bytes")

-- `WasmGroupMasterKey.from_bytes`.
unfoldable pub master_key_from_bytes : Bytes → Result Bytes
unfolding master_key_length
master_key_from_bytes key = if length key == 32 then ok key else err master_key_length

abbrev pub safety_number_version : ℕ
safety_number_version = 2

abbrev pub safety_number_iterations : ℕ
safety_number_iterations = 5200

module _ (p : Platform) where
  -- `WasmPublicKey.deserialize` and `verify`.
  unfoldable pub public_from_bytes : Bytes → Result PublicKey
  public_from_bytes data_bytes = curve_check p data_bytes >>= λ _. ok data_bytes

  unfoldable pub verify_signature : PublicKey → Bytes → Bytes → Result Bool
  verify_signature key message signature = curve_verify p key message signature

  -- `WasmPrivateKey`.
  unfoldable pub generate_private_key : Result PrivateKey
  generate_private_key = curve_pair p >>= λ pair. ok pair.secret

  unfoldable pub public_key_of : PrivateKey → Result PublicKey
  public_key_of secret = curve_public p secret

  unfoldable pub sign_message : PrivateKey → Bytes → Result Bytes
  sign_message secret message = curve_sign p secret message

  unfoldable pub agree_on : PrivateKey → PublicKey → Result Bytes
  agree_on secret other = curve_agree p secret other

  -- `WasmIdentityKeyPair`.
  unfoldable pub identity_from_bytes : Bytes → Result IdentityKeyPair
  identity_from_bytes data_bytes = identity_parse p data_bytes >>= λ pair.
      ok (record { public_key = pair.public_key; private_key = pair.secret })

  unfoldable pub generate_identity_pair : Result IdentityKeyPair
  unfolding generate_private_key public_key_of
  generate_identity_pair = do
    secret ← generate_private_key
    public_key ← public_key_of secret
    ok (record { public_key = public_key; private_key = secret })

  unfoldable pub identity_bytes : IdentityKeyPair → Result Bytes
  identity_bytes pair = identity_serialize p pair.private_key

  -- `fromRecord` of the three classes.
  unfoldable pub pre_key_from_record : Bytes → Result PublishedKey
  pre_key_from_record r = one_time_parse p r >>= λ parsed.
      ok (record { id = parsed.id; public_key = parsed.public_key; record_bytes = r })

  unfoldable pub signed_pre_key_from_record : Bytes → Result SignedPublishedKey
  signed_pre_key_from_record r = signed_parse p r >>= λ parsed. ok (record {
    id = parsed.id;
    public_key = parsed.public_key;
    record_bytes = r;
    signature = parsed.signature;
    timestamp = parsed.stamp;
  })

  unfoldable pub kyber_pre_key_from_record : Bytes → Result SignedPublishedKey
  kyber_pre_key_from_record r = pq_record_parse p r >>= λ parsed. ok (record {
    id = parsed.id;
    public_key = parsed.public_key;
    record_bytes = r;
    signature = parsed.signature;
    timestamp = parsed.stamp;
  })

  -- `WasmGroupSecretParams`.
  unfoldable pub secret_params_from_bytes : Bytes → Result GroupSecretParams
  secret_params_from_bytes params = circle_params_info p params >>= λ info.
      ok (record { params = params; identifier = info.identifier })

  unfoldable pub get_identifier : GroupSecretParams → Bytes
  get_identifier g = g.identifier

  unfoldable pub get_master_key : GroupSecretParams → Result Bytes
  unfolding master_key_from_bytes
  get_master_key g = circle_params_info p g.params >>= λ info. master_key_from_bytes info.master

  unfoldable pub get_public_params : GroupSecretParams → Result Bytes
  get_public_params g = circle_params_info p g.params >>= λ info. ok info.public_params

  -- `WasmGroupMasterKey`.
  unfoldable pub generate_master_key : Result Bytes
  generate_master_key = circle_master_random p

  unfoldable pub derive_secret_params : Bytes → Result GroupSecretParams
  unfolding secret_params_from_bytes
  derive_secret_params key = circle_secret_params p key >>= secret_params_from_bytes

  unfoldable pub derive_identifier : Bytes → Result Bytes
  unfolding derive_secret_params get_identifier
  derive_identifier key = derive_secret_params key >>= λ g. ok (get_identifier g)

-- `encode` is the runtime's `TextEncoder`.
module _ (p : Platform) (encode : Text → Bytes) where
  unfoldable pub generate_safety_number : Text → PublicKey → Text → PublicKey → Result Safety
  generate_safety_number local_uuid local_key contact_uuid contact_key =
      safety p safety_number_version safety_number_iterations (encode local_uuid) local_key
        (encode contact_uuid) contact_key

  unfoldable pub verify_safety_number : Bytes → Text → PublicKey → Text → PublicKey → Result Bool
  unfolding generate_safety_number
  verify_safety_number scanned local_uuid local_key contact_uuid contact_key =
      generate_safety_number local_uuid local_key contact_uuid contact_key >>= λ ours.
      safety_matches p ours.scannable scanned
