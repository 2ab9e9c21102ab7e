-- ===== src/Sealed/Listing.antt =====
-- The listing of recipients that `sealedSenderMultiRecipientEncrypt` of sdk/ts/src/api.ts hands to
-- the core.
pub mod RoundTrip
pub mod Refusal
use gossveil.Base.{
  ℕ, ◌/◌, ◌%◌, Bool, true, false, ◌||◌, List, [], ◌∷◌, ◌++◌, map, Bytes, codes, ltb, bit_and,
  if◌then◌else◌, length,
}
use gossveil.Fault.{Result, ok, err, ◌>>=◌, GossveilError, fault, invalid_argument}
use gossveil.ServiceId.{ServiceId, get_fixed_width}
use gossveil.Keys.{PublicKey}

pub record Device : Type 0 where
  pub device_id : ℕ
  pub registration_id : ℕ

pub record Recipient : Type 0 where
  pub service_id : ServiceId
  pub devices : List Device
  pub identity_key : PublicKey

does_not_fit : GossveilError
does_not_fit = fault invalid_argument (codes "device or registration id does not fit the envelope")

-- The inner loop: what it pushes for the devices, or the throw at the first that does not fit.
unfoldable pub push_devices : List Device → Result (List ℕ)
unfolding does_not_fit
push_devices [] = ok []
push_devices (d ∷ devices) =
    let rest = push_devices devices in
    if ltb 255 d.device_id || ltb 0xffff d.registration_id
    then err does_not_fit
    else (rest >>= λ more.
        ok (d.device_id ∷ (d.registration_id / 256) ∷ bit_and d.registration_id 0xff ∷ more))

-- The outer loop.
unfoldable pub push_recipients : List Recipient → Result (List ℕ)
unfolding push_devices
push_recipients [] = ok []
push_recipients (r ∷ recipients) = do
  devices ← push_devices r.devices
  more ← push_recipients recipients
  ok (get_fixed_width r.service_id ++ (length r.devices ∷ (devices ++ (r.identity_key ++ more))))

-- `Uint8Array.from`: each number modulo 256.
unfoldable pub to_bytes : List ℕ → Bytes
to_bytes = map (λ n. n % 256)

unfoldable pub listing : List Recipient → Result Bytes
unfolding push_recipients to_bytes
listing recipients = push_recipients recipients >>= λ body. ok (to_bytes (length recipients ∷ body))

unfoldable pub push_service_ids : List ServiceId → List ℕ
push_service_ids [] = []
push_service_ids (s ∷ ids) = get_fixed_width s ++ push_service_ids ids

-- The excluded recipients.
unfoldable pub excluded_listing : List ServiceId → Bytes
unfolding push_service_ids to_bytes
excluded_listing ids = to_bytes (length ids ∷ push_service_ids ids)
