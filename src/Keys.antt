-- ===== src/Keys.antt =====
-- The key classes of sdk/ts/src/api.ts. A class whose one field is its bytes is those bytes;
-- `unchecked` and `serialize` are then the identity, since both only copy.
pub mod Compare
use gossveil.Base.{
  ℕ, Bool, true, false, List, [], ◌∷◌, Bytes, codes, ◌==◌, ◌&&◌, ◌||◌, ltb, if◌then◌else◌, length,
  get_or, drop, suc, ◌-◌, leb,
}
use gossveil.Fault.{Result, ok, err, ◌>>=◌, ◌>>◌, GossveilError, fault, invalid_key}
use gossveil.Bridge.Call.{Platform}
use gossveil.Bridge.Keys.{
  KeyPair, Encapsulated, curve_pair, curve_public, curve_sign, curve_verify, curve_agree,
  curve_check, pq_pair, pq_encapsulate, pq_open, identity_serialize, identity_parse, identity_vouch,
  identity_vouched, pq_round_three,
}
use gossveil.BytesEqual.{bytes_equal}

abbrev pub PublicKey : Type 0
PublicKey = Bytes

abbrev pub PrivateKey : Type 0
PrivateKey = Bytes

pub record IdentityKeyPair : Type 0 where
  pub public_key : PublicKey
  pub private_key : PrivateKey

pub record KemKeyPair : Type 0 where
  pub public_key : Bytes
  pub secret_key : Bytes

-- `getPublicKeyBytes`: the key without its type byte.
unfoldable pub get_public_key_bytes : PublicKey → Bytes
get_public_key_bytes key = drop 1 key

-- `PublicKey.equals`.
unfoldable pub equals : PublicKey → PublicKey → Bool
equals a b = bytes_equal a b

private_length : GossveilError
private_length = fault invalid_key (codes "a private key is 32 bytes")

-- `PrivateKey.deserialize`.
unfoldable pub deserialize_private : Bytes → Result PrivateKey
unfolding private_length
deserialize_private bytes = if length bytes == 32 then ok bytes else err private_length

abbrev pub pq_public_length : ℕ
pq_public_length = 1569

abbrev pub pq_secret_length : ℕ
pq_secret_length = 3169

unfoldable pub pq_tagged : Bytes → ℕ → Bool
pq_tagged bytes n =
    length bytes == n && (get_or bytes 0 0 == pq_round_three || get_or bytes 0 0 == 0x0a)

not_kem_key : GossveilError
not_kem_key = fault invalid_key (codes "unrecognized key encapsulation key")

not_kem_secret : GossveilError
not_kem_secret = fault invalid_key (codes "unrecognized key encapsulation secret")

-- `KEMPublicKey.deserialize`.
unfoldable pub deserialize_kem_public : Bytes → Result Bytes
unfolding pq_tagged not_kem_key
deserialize_kem_public bytes =
    if pq_tagged bytes pq_public_length then ok bytes else err not_kem_key

-- `KEMSecretKey.deserialize`.
unfoldable pub deserialize_kem_secret : Bytes → Result Bytes
unfolding pq_tagged not_kem_secret
deserialize_kem_secret bytes =
    if pq_tagged bytes pq_secret_length then ok bytes else err not_kem_secret

module _ (p : Platform) where
  -- `PublicKey.deserialize`.
  unfoldable pub deserialize_public : Bytes → Result PublicKey
  deserialize_public bytes = curve_check p bytes >> ok bytes

  unfoldable pub verify : PublicKey → Bytes → Bytes → Result Bool
  verify key message signature = curve_verify p key message signature

  unfoldable pub verify_alternate_identity : PublicKey → PublicKey → Bytes → Result Bool
  verify_alternate_identity key other signature = identity_vouched p key other signature

  -- `PrivateKey.generate`.
  unfoldable pub generate_private : Result PrivateKey
  generate_private = curve_pair p >>= λ pair. ok pair.secret

  unfoldable pub get_public_key : PrivateKey → Result PublicKey
  get_public_key secret = curve_public p secret

  unfoldable pub sign : PrivateKey → Bytes → Result Bytes
  sign secret message = curve_sign p secret message

  unfoldable pub agree : PrivateKey → PublicKey → Result Bytes
  agree secret other = curve_agree p secret other

  -- `IdentityKeyPair.generate`.
  unfoldable pub generate_identity : Result IdentityKeyPair
  unfolding generate_private get_public_key
  generate_identity = do
    secret ← generate_private
    public_key ← get_public_key secret
    ok (record { public_key = public_key; private_key = secret })

  -- `IdentityKeyPair.deserialize`.
  unfoldable pub deserialize_identity : Bytes → Result IdentityKeyPair
  deserialize_identity bytes = identity_parse p bytes >>= λ pair.
      ok (record { public_key = pair.public_key; private_key = pair.secret })

  unfoldable pub serialize_identity : IdentityKeyPair → Result Bytes
  serialize_identity pair = identity_serialize p pair.private_key

  unfoldable pub sign_alternate_identity : IdentityKeyPair → PublicKey → Result Bytes
  sign_alternate_identity pair other = identity_vouch p pair.private_key other

  -- `KEMPublicKey.encapsulate`, `KEMSecretKey.decapsulate` and `KEMKeyPair.generate`.
  unfoldable pub encapsulate : Bytes → Result Encapsulated
  encapsulate key = pq_encapsulate p key

  unfoldable pub decapsulate : Bytes → Bytes → Result Bytes
  decapsulate secret ciphertext = pq_open p secret ciphertext

  unfoldable pub generate_kem : Result KemKeyPair
  generate_kem = pq_pair p pq_round_three >>= λ pair.
      ok (record { public_key = pair.public_key; secret_key = pair.secret })
