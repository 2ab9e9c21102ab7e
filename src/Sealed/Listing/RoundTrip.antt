-- ===== src/Sealed/Listing/RoundTrip.antt =====
-- The listing against a reader of it: a count, and for each recipient the 17-byte service id, a
-- count of devices, three bytes for each device and the 33-byte identity key.
pub mod Overflow
use gossveil.Base.{
  ℕ, zero, suc, ◌+◌, ◌*◌, ◌/◌, ◌%◌, ◌<◌, ◌≡◌, refl, sym, ap, ◌∙◌, List, [], ◌∷◌, ◌++◌, Bytes,
  bit_and-255, length, take, drop, Option, none, some, All, IsBytes, arith, take-append_length,
  drop-append_length,
}
use mathlib.Core.List.{append_assoc, append-nil}
use mathlib.Core.Option
use gossveil.Fault.{Result, ok, err}
use gossveil.ServiceId
use gossveil.ServiceId.{
  ServiceId, aci, pni, kind_code, get_fixed_width, parse_fixed_width, overwrite,
}
use gossveil.ServiceId.RoundTrip.{parse_fixed_width_iff, fixed_width_form}
use gossveil.Sealed.Listing.{Device, Recipient, push_devices, push_recipients, to_bytes, listing}

-- The reader: `none` if the bytes end too soon or a service id is none.
read_devices : ℕ → Bytes → Option (List Device × Bytes)
read_devices zero s = some ([], s)
read_devices (suc n) (d ∷ high ∷ low ∷ s) =
    Option.map
      (λ (ds, rest). (record { device_id = d; registration_id = high * 256 + low } ∷ ds, rest))
      (read_devices n s)
read_devices (suc n) _ = none

-- The devices and the key of one recipient, whose id has been read.
read_tail : ServiceId → Option (List Device × Bytes) → Option (Recipient × Bytes)
read_tail id none = none
read_tail id (some (devices, s)) =
    some (record { service_id = id; devices = devices; identity_key = take 33 s }, drop 33 s)

read_head : Result ServiceId → Bytes → Option (Recipient × Bytes)
read_head (err e) s = none
read_head (ok id) [] = none
read_head (ok id) (n ∷ rest) = read_tail id (read_devices n rest)

read_recipient : Bytes → Option (Recipient × Bytes)
read_recipient s = read_head (parse_fixed_width (take 17 s)) (drop 17 s)

read_more :
    Option (Recipient × Bytes)
    → (Bytes → Option (List Recipient × Bytes))
    → Option (List Recipient × Bytes)
read_more none more = none
read_more (some (r, rest)) more = Option.map (λ (rs, end). (r ∷ rs, end)) (more rest)

read_recipients : ℕ → Bytes → Option (List Recipient × Bytes)
read_recipients zero s = some ([], s)
read_recipients (suc n) s = read_more (read_recipient s) (read_recipients n)

pub read_listing : Bytes → Option (List Recipient × Bytes)
read_listing [] = none
read_listing (n ∷ s) = read_recipients n s

abbrev pub DeviceFits : Device → Type 0
DeviceFits d = (d.device_id < 256) × (d.registration_id < 65536)

-- The key is that of a `PublicKey` that the core checked: 33 bytes.
pub record Fits (r : Recipient) : Type 0 where
  pub id : ServiceId.IsValid r.service_id
  pub count : length r.devices < 256
  pub devices : All DeviceFits r.devices
  pub key_size : length r.identity_key ≡ 33
  pub key : IsBytes r.identity_key

to_bytes_same : (s : Bytes) → IsBytes s → to_bytes s ≡ s
unfolding to_bytes
to_bytes_same [] h = refl
to_bytes_same (x ∷ s) (h, hs) = ground (arith, to_bytes_same s hs)

-- What the loop pushes for one device.
abbrev device_bytes : List Device → Bytes
device_bytes [] = []
device_bytes (d ∷ ds) =
    d.device_id ∷ (d.registration_id / 256) ∷ (d.registration_id % 256) ∷ device_bytes ds

push_devices_fit : (ds : List Device) → All DeviceFits ds → push_devices ds ≡ ok (device_bytes ds)
unfolding push_devices
push_devices_fit [] h = refl
push_devices_fit (d ∷ ds) (h, hs) =
    ground (arith, push_devices_fit ds hs, bit_and-255 d.registration_id)

device_bytes-IsBytes : (ds : List Device) → All DeviceFits ds → IsBytes (device_bytes ds)
device_bytes-IsBytes [] h = tt
device_bytes-IsBytes (d ∷ ds) (h, hs) =
    (omega arith, (omega arith, (omega arith, device_bytes-IsBytes ds hs)))

read_devices_back :
    (ds : List Device) (rest : Bytes)
    → read_devices (length ds) (device_bytes ds ++ rest) ≡ some (ds, rest)
unfolding read_devices
read_devices_back [] rest = refl
read_devices_back (d ∷ ds) rest = rw (read_devices_back ds rest) (
    ap (λ (n : ℕ). some (record { device_id = d.device_id; registration_id = n } ∷ ds, rest))
      (omega arith))

take_front : (n : ℕ) (xs ys : Bytes) → length xs ≡ n → take n (xs ++ ys) ≡ xs
take_front n xs ys h = ap (λ k. take k (xs ++ ys)) (sym h) ∙ take-append_length xs ys

drop_front : (n : ℕ) (xs ys : Bytes) → length xs ≡ n → drop n (xs ++ ys) ≡ ys
drop_front n xs ys h = ap (λ k. drop k (xs ++ ys)) (sym h) ∙ drop-append_length xs ys

-- What the loop pushes for recipients that fit.
abbrev body : List Recipient → Bytes
body [] = []
body (r ∷ rs) =
    get_fixed_width r.service_id
    ++ (length r.devices ∷ (device_bytes r.devices ++ (r.identity_key ++ body rs)))

push_recipients_fit : (rs : List Recipient) → All Fits rs → push_recipients rs ≡ ok (body rs)
unfolding push_recipients
push_recipients_fit [] h = refl
push_recipients_fit (r ∷ rs) (h, hs) =
    rw (push_devices_fit r.devices h.devices, push_recipients_fit rs hs) refl

IsBytes-append : (s t : Bytes) → IsBytes s → IsBytes t → IsBytes (s ++ t)
IsBytes-append [] t h k = k
IsBytes-append (x ∷ s) t (h, hs) k = (h, IsBytes-append s t hs k)

fixed_width-IsBytes : (s : ServiceId) → ServiceId.IsValid s → IsBytes (get_fixed_width s)
unfolding kind_code
fixed_width-IsBytes s v = rw (fixed_width_form s v.size) (kind-lt s.kind, v.bytes)
  where
    kind-lt : (k : ServiceId.ServiceIdKind) → kind_code k < 256
    kind-lt aci = omega arith
    kind-lt pni = omega arith

length-fixed_width : (s : ServiceId) → ServiceId.IsValid s → length (get_fixed_width s) ≡ 17
length-fixed_width s v = rw (fixed_width_form s v.size) (ap suc v.size)

body-IsBytes : (rs : List Recipient) → All Fits rs → IsBytes (body rs)
body-IsBytes [] h = tt
body-IsBytes (r ∷ rs) (h, hs) =
    IsBytes-append (get_fixed_width r.service_id) _ (fixed_width-IsBytes r.service_id h.id) (
      h.count,
      IsBytes-append (device_bytes r.devices) _ (device_bytes-IsBytes r.devices h.devices)
          (IsBytes-append r.identity_key _ h.key (body-IsBytes rs hs)),
    )

read_recipient_back :
    (r : Recipient) (rest : Bytes)
    → Fits r
    → read_recipient (
        get_fixed_width r.service_id
        ++ (length r.devices ∷ (device_bytes r.devices ++ (r.identity_key ++ rest))))
      ≡ some (r, rest)
unfolding read_recipient read_head read_tail
read_recipient_back r rest h =
    let tail = length r.devices ∷ (device_bytes r.devices ++ (r.identity_key ++ rest)) in
    let id = get_fixed_width r.service_id in
    let size = length-fixed_width r.service_id h.id in
    rw (take_front 17 id tail size, drop_front 17 id tail size)
      (rw ((parse_fixed_width_iff id r.service_id).1 (h.id.size, refl)) (
        rw (read_devices_back r.devices (r.identity_key ++ rest)) (
          rw
            (
              take_front 33 r.identity_key rest h.key_size,
              drop_front 33 r.identity_key rest h.key_size,
            )
            refl)))

regroup :
    (r : Recipient) (more rest : Bytes)
    → (get_fixed_width r.service_id
          ++ (length r.devices ∷ (device_bytes r.devices ++ (r.identity_key ++ more))))
        ++ rest
      ≡ get_fixed_width r.service_id
        ++ (length r.devices ∷ (device_bytes r.devices ++ (r.identity_key ++ (more ++ rest))))
regroup r more rest = simp append_assoc

read_recipients_back :
    (rs : List Recipient) (rest : Bytes)
    → All Fits rs
    → read_recipients (length rs) (body rs ++ rest) ≡ some (rs, rest)
unfolding read_recipients read_more
read_recipients_back [] rest h = refl
read_recipients_back (r ∷ rs) rest (h, hs) =
    rw (regroup r (body rs) rest)
      (rw (read_recipient_back r (body rs ++ rest) h) (rw (read_recipients_back rs rest hs) refl))

-- A list of fewer than 256 recipients, each of which fits the format, makes a listing without an
-- error, and the reader gets the same recipients back from it, with no bytes left.
pub read_listing-listing :
    (rs : List Recipient)
    → length rs < 256
    → All Fits rs
    → (s : Bytes) × (listing rs ≡ ok s) × (read_listing s ≡ some (rs, []))
unfolding read_listing
read_listing-listing rs small fit = (
  length rs ∷ body rs,
  unfold listing in
      rw (push_recipients_fit rs fit)
        (ap ok (to_bytes_same (length rs ∷ body rs) (small, body-IsBytes rs fit))),
  ap (read_recipients (length rs)) (sym (append-nil (body rs))) ∙ read_recipients_back rs [] fit,
)
