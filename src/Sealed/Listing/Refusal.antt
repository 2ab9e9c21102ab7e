-- ===== src/Sealed/Listing/Refusal.antt =====
-- The guard on ids in the listing of sdk/ts/src/api.ts.
use gossveil.Base.{ℕ, ◌≡◌, List, [], ◌∷◌, Bytes, All, arith, inl, inr}
use gossveil.Fault.{ok, Result-cases}
use gossveil.Sealed.Listing.{Device, Recipient, push_devices, push_recipients, listing}
use gossveil.Sealed.Listing.RoundTrip.{DeviceFits}

abbrev pub DevicesFit : Recipient → Type 0
DevicesFit r = All DeviceFits r.devices

push_devices-DeviceFits :
    (ds : List Device) (pushed : List ℕ) → push_devices ds ≡ ok pushed → All DeviceFits ds
unfolding push_devices
push_devices-DeviceFits [] pushed h = tt
push_devices-DeviceFits (d ∷ ds) pushed h = elim (Result-cases (push_devices ds)) [
  | inl (more, e) ↦ ground (arith, push_devices-DeviceFits ds more e)
  | inr (f, e) ↦ ground (arith, e)
]

push_recipients-DevicesFit :
    (rs : List Recipient) (pushed : List ℕ) → push_recipients rs ≡ ok pushed → All DevicesFit rs
unfolding push_recipients
push_recipients-DevicesFit [] pushed h = tt
push_recipients-DevicesFit (r ∷ rs) pushed h = elim (Result-cases (push_devices r.devices)) [
  | inr (f, e) ↦ absurd (ground (arith, e))
  | inl (devices, e) ↦ elim (Result-cases (push_recipients rs)) [
    | inr (f, e') ↦ absurd (ground (arith, e, e'))
    | inl (more, e') ↦
        (push_devices-DeviceFits r.devices devices e, push_recipients-DevicesFit rs more e')
  ]
]

-- A listing is made only if each device id of each recipient fits in one byte and each
-- registration id in two.
pub listing-DevicesFit : (rs : List Recipient) (s : Bytes) → listing rs ≡ ok s → All DevicesFit rs
unfolding listing
listing-DevicesFit rs s h = elim (Result-cases (push_recipients rs)) [
  | inl (pushed, e) ↦ push_recipients-DevicesFit rs pushed e
  | inr (f, e) ↦ absurd (ground (arith, e))
]
