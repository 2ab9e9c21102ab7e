-- ===== src/Fingerprint.antt =====
-- Safety numbers and usernames of sdk/ts/src/api.ts.
use gossveil.Base.{ℕ, Bool, List, Text, Bytes, Option, codes, to_uint32}
use gossveil.Fault.{Result, ok, err, ◌>>=◌, GossveilError, fault, verification_failed}
use gossveil.Bridge.Call.{Platform}
use gossveil.Bridge.Handles.{
  HandleParts, HandleLink, safety, safety_matches, handle_hash, handle_proof, handle_verify,
  handle_candidates, handle_from_parts, handle_link, handle_link_open,
}
use gossveil.Bridge.Primitives.{random}
use gossveil.Keys.{PublicKey}

-- `DisplayableFingerprint` and `ScannableFingerprint` are their one field.
pub record Fingerprint : Type 0 where
  pub display : Text
  pub scan : Bytes

module _ (p : Platform) where
  -- `Fingerprint.new`.
  unfoldable pub new_fingerprint :
      ℕ → ℕ → Bytes → PublicKey → Bytes → PublicKey → Result Fingerprint
  new_fingerprint iterations version local_identifier local_key remote_identifier remote_key =
      safety p (to_uint32 version) (to_uint32 iterations) local_identifier local_key
        remote_identifier remote_key
      >>= λ s. ok (record { display = s.display; scan = s.scannable })

  -- `ScannableFingerprint.compare`.
  unfoldable pub compare_scannable : Bytes → Bytes → Result Bool
  compare_scannable ours other = safety_matches p ours other

proof_mismatch : GossveilError
proof_mismatch = fault verification_failed (codes "username proof does not match hash")

-- `usernames`: where `randomness` is left out, `random(32)` is drawn, by the platform `q`.
module _ (p : Platform) where
  unfoldable pub username_hash : Text → Result Bytes
  username_hash username = handle_hash p username

  unfoldable pub generate_proof : Platform → Text → Option Bytes → Result Bytes
  generate_proof q username randomness = elim randomness [
    | Option.some given ↦ handle_proof p username given
    | Option.none ↦ random q 32 >>= handle_proof p username
  ]

  unfoldable pub verify_proof : Bytes → Bytes → Result (Unit {0})
  unfolding proof_mismatch
  verify_proof proof hash = do
    good ← handle_verify p proof hash
    elim good [ Bool.true ↦ ok tt | Bool.false ↦ err proof_mismatch ]

  unfoldable pub generate_candidates : Text → ℕ → ℕ → Result (List Text)
  generate_candidates nickname min_length max_length =
      handle_candidates p nickname min_length max_length

  unfoldable pub from_parts : Text → Text → ℕ → ℕ → Result HandleParts
  from_parts nickname discriminator min_length max_length =
      handle_from_parts p nickname discriminator min_length max_length

  unfoldable pub create_username_link : Text → Option Bytes → Result HandleLink
  create_username_link username previous_entropy = handle_link p username previous_entropy

  unfoldable pub decrypt_username_link : Bytes → Bytes → Result Text
  decrypt_username_link entropy encrypted_username = handle_link_open p entropy encrypted_username
