-- ===== src/Address/Keys.antt =====
-- The texts of addresses and the names of sender keys, as keys of the stores (sdk/ts/src/api.ts).
use gossveil.Base.{
  ℕ, ◌<◌, ◌^◌, ◌%◌, ◌≡◌, ◌≢◌, true, [], ◌∷◌, Text, ◌==◌, decimal, decimal-injective,
  decimal-Lacks-dot, Lacks, All, Bytes, joined-injective, arith, map, and_parts, Bool-cases, inl,
  inr,
}
use gossveil.Fault.{ok}
use gossveil.Uuid.{strip_dashes, all_hex, is_hex, uuid_to_bytes, ascii_lower}
use gossveil.Address.{ProtocolAddress, new_address, to_string, sender_key_name}

-- Addresses with the same text are the same: the text has the name, a dot and the device id.
pub to_string-injective : (a b : ProtocolAddress) → to_string a ≡ to_string b → a ≡ b
unfolding to_string
to_string-injective a b e =
    let (same_name, same_digits) =
      joined-injective b'.' a.name b.name (decimal a.device_id) (decimal b.device_id)
        (decimal-Lacks-dot a.device_id) (decimal-Lacks-dot b.device_id) e in
    cc (same_name, decimal-injective a.device_id b.device_id same_digits)

-- An address that the constructor accepts has the name it was given, which is not empty, and the
-- device id it was given, which is not 0, modulo 2 ^ 32.
pub new_address_lem :
    (name : Text) (device_id : ℕ) (a : ProtocolAddress)
    → new_address name device_id ≡ ok a
    → (a.name ≡ name) × (name ≢ []) × (a.device_id ≡ device_id % 2 ^ 32) × (device_id ≢ 0)
unfolding new_address
new_address_lem [] device_id a h = cc
new_address_lem (c ∷ name) device_id a h = ground arith

-- What `uuid_to_bytes` accepts: hexadecimal digits and dashes.
abbrev IsUuidText : Text → Type 0
IsUuidText s = all_hex (strip_dashes s) ≡ true

IsUuidText-accepted : (s : Text) {u : Bytes} → uuid_to_bytes s ≡ ok u → IsUuidText s
unfolding uuid_to_bytes
IsUuidText-accepted s h = ground arith

uuid_text-IsAscii : (s : Text) → IsUuidText s → All (λ c. c < 128) s
unfolding strip_dashes all_hex is_hex
uuid_text-IsAscii [] h = tt
uuid_text-IsAscii (c ∷ s) h = elim (Bool-cases (c == b'-')) [
  | inl dash ↦ (ground arith, uuid_text-IsAscii s (rw dash at h))
  | inr digit ↦
      let (hc, hs) = and_parts (is_hex c) (all_hex (strip_dashes s)) (rw digit at h) in
      (ground arith, uuid_text-IsAscii s hs)
]

-- Such a text has none of the separator `|`, also in lower case.
lower-Lacks-bar : (s : Text) → IsUuidText s → Lacks b'|' (map ascii_lower s)
unfolding strip_dashes all_hex is_hex ascii_lower
lower-Lacks-bar [] h = tt
lower-Lacks-bar (c ∷ s) h = elim (Bool-cases (c == b'-')) [
  | inl dash ↦ (ground arith, lower-Lacks-bar s (rw dash at h))
  | inr digit ↦
      let (hc, hs) = and_parts (is_hex c) (all_hex (strip_dashes s)) (rw digit at h) in
      (ground arith, lower-Lacks-bar s hs)
]

module _ (to_lower : Text → Text)
    (on_ascii : (s : Text) → All (λ c. c < 128) s → to_lower s ≡ map ascii_lower s) where
  -- Where the lower case of ASCII text is the ASCII lower case: two sender keys, each of an address
  -- and a distribution id that is a UUID, have the same name only if the addresses are the same
  -- and the ids differ at most in the case of their letters.
  pub sender_key_name-injective :
      (a b : ProtocolAddress) (d d' : Text) (u u' : Bytes)
      → uuid_to_bytes d ≡ ok u
      → uuid_to_bytes d' ≡ ok u'
      → sender_key_name to_lower a d ≡ sender_key_name to_lower b d'
      → (a ≡ b) × (map ascii_lower d ≡ map ascii_lower d')
  unfolding sender_key_name
  sender_key_name-injective a b d d' u u' h h' e =
      let hd = IsUuidText-accepted d h in
      let hd' = IsUuidText-accepted d' h' in
      let low = on_ascii d (uuid_text-IsAscii d hd) in
      let low' = on_ascii d' (uuid_text-IsAscii d' hd') in
      let (same_address, same_id) =
        joined-injective b'|' (to_string a) (to_string b) (map ascii_lower d) (map ascii_lower d')
          (lower-Lacks-bar d hd) (lower-Lacks-bar d' hd') (cc (low, low', e)) in
      (to_string-injective a b same_address, same_id)
