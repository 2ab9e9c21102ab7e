-- ===== src/Tests/Overflow.antt =====
-- A run of the theorem on listings that are too long: 256 recipients without devices.
use gossveil.Base.{
  ℕ, zero, suc, ◌≡◌, ◌≢◌, refl, List, [], ◌∷◌, ◌++◌, Bytes, some, length, replicate, arith,
}
use gossveil.Fault.{ok}
use gossveil.ServiceId.{aci, get_fixed_width}
use gossveil.Sealed.Listing.{Recipient, push_recipients, push_devices, to_bytes, listing}
use gossveil.Sealed.Listing.RoundTrip.{read_listing}
use gossveil.Sealed.Listing.RoundTrip.Overflow.{read_listing_overflow}

abbrev idle : Recipient
idle = record {
  service_id = record { kind = aci; raw_uuid = replicate 16 7 };
  devices = [];
  identity_key = replicate 33 5;
}

pushed : (n : ℕ) → (s : List ℕ) × (push_recipients (replicate n idle) ≡ ok s)
unfolding push_recipients push_devices
pushed zero = ([], refl)
pushed (suc n) =
    let (s, e) = pushed n in
    (get_fixed_width idle.service_id ++ (0 ∷ (idle.identity_key ++ s)), rw e refl)

abbrev many : List Recipient
many = replicate 256 idle

listing-made :
    (rs : List Recipient) (s : List ℕ)
    → push_recipients rs ≡ ok s
    → listing rs ≡ ok (to_bytes (length rs ∷ s))
unfolding listing
listing-made rs s h = rw h refl

made_many : (s : Bytes) × (listing many ≡ ok s)
made_many = let (s, e) = pushed 256 in (to_bytes (256 ∷ s), listing-made many s e)

read_listing_overflow_example : read_listing made_many.0 ≢ some (many, [])
read_listing_overflow_example = read_listing_overflow many made_many.0 [] made_many.1 (omega arith)
